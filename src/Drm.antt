-- ===== src/Drm.antt =====
-- src/platform/backend/drm.c: the framebuffers of an output, and the outputs of a card.
pub mod Flip
pub mod Connectors
pub mod Outputs
