-- ===== src/Menu.antt =====
-- internal/menu: the menu reader of one item. Its validator is in Menu/Validate.antt.
pub mod Validate
pub mod Layout
pub mod Proxy
