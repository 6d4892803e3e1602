-- ===== src/Roles.antt =====
-- The two roles of a node, the streamer and the viewer (plans/streaming_test/src/roles/).
pub mod Talk
pub mod Addresses
pub mod Collected
pub mod Unreadable
pub mod Everyone
pub mod Enter
pub mod Video
pub mod Queued
pub mod Announced
pub mod Streamer
pub mod Viewer
pub mod Neutral
pub mod Main
pub mod Follows
pub mod Script
pub mod Ends
pub mod Moves
pub mod Streamed
pub mod Joins
mod Tests
