-- ===== src/Route.antt =====
-- src/route_state.rs: the routes of each group of peers.
pub mod Group
pub mod Peers
pub mod ConnInfo
pub mod Sync
pub mod Bitmap
pub mod BitmapBits
pub mod BitmapCells
pub mod Index
pub mod BitmapEdges
pub mod BitmapLaws
pub mod Invariant
pub mod Versions
pub mod Infos
pub mod SameAt
pub mod Relevant
pub mod Picks
pub mod Updates
pub mod SameSent
pub mod Carried
pub mod Quiescence
pub mod Connections
pub mod Steps
pub mod Members
