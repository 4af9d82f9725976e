-- ===== src/Seat.antt =====
-- src/compositor/seat: the keyboard, the pointer and the touch of the seat.
pub mod Keymap
pub mod Keys
pub mod Keyboard
pub mod Selection
pub mod Touch
pub mod Pointer
