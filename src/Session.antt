-- ===== src/Session.antt =====
-- src/session: the privileged helper process that opens devices.
pub mod System
pub mod Tty
pub mod Fd
