-- ===== src/Item.antt =====
-- internal/item: the limiter of refreshes, what is read from an application, and its pixmaps.
pub mod Limiter
pub mod Pixmaps
pub mod Model
pub mod Proxy
