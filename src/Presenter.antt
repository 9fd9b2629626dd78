-- ===== src/Presenter.antt =====
-- internal/presenter: the socket that serves one shell.
pub mod Connection
pub mod Dispatch
pub mod Handshake
pub mod Server
pub mod Socket
