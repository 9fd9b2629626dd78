-- ===== src/Protocol.antt =====
-- The wire protocol (protocol/): its types, its limits and its validators.
pub mod Types
pub mod Errors
pub mod Fields
pub mod Pixmaps
pub mod Items
pub mod Snapshots
pub mod Messages
pub mod Menus
pub mod Frames
pub mod Strict
