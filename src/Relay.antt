-- ===== src/Relay.antt =====
-- src/relay_room.rs: the room, its sockets and its event handlers.
pub mod Room
pub mod Broadcast
pub mod Message
pub mod Lifecycle
pub mod Delivery
pub mod Audience
pub mod Dispatch
pub mod Quiet
pub mod Opening
pub mod Sound
pub mod Reach
pub mod Found
pub mod Forwarding
pub mod Errors
pub mod Joining
pub mod Timeouts
pub mod Alarms
pub mod Abandoned
pub mod Leaving
pub mod Members
pub mod Refinement
pub mod Slots
pub mod Confined
pub mod Contained
pub mod Isolation
pub mod Packets
pub mod Framing
pub mod Exchange
pub mod Answering
pub mod Presence
pub mod Connected
pub mod Initiator
