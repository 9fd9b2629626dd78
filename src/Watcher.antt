-- ===== src/Watcher.antt =====
-- internal/watcher: the registry of items, as the watcher of the session or as a host of another.
pub mod Address
pub mod Registry
pub mod Server
pub mod Client
pub mod Attach
pub mod Telling
pub mod Serving
pub mod Loop
