-- ===== src/Compositor.antt =====
-- src/compositor: outputs, the views on them, and the compositor that they share.
pub mod World
pub mod Handles
pub mod Output
pub mod Tty
pub mod Surfaces
pub mod Outputs
pub mod Stacking
pub mod Culling
pub mod Active
pub mod Handshake
pub mod Frames
pub mod Given
pub mod Tests
