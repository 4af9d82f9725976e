-- ===== src/Xwayland.antt =====
-- src/xwayland: the clipboard that X11 and Wayland share.
pub mod Conversions
pub mod NetState
pub mod Windows
pub mod Clipboard
