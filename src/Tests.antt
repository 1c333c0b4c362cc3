-- ===== src/Tests.antt =====
-- Test data, and the theorems at concrete inputs.
pub mod Handlers
pub mod Rooms
pub mod Isolates
pub mod Data
pub mod Routes
pub mod Events
