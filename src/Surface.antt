-- ===== src/Surface.antt =====
-- src/resources/types/surface.c and buffer.c, with the subsurfaces of src/compositor/compositor.c.
pub mod Subsurfaces
pub mod Buffers
