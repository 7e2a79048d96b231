-- ===== src/Assembler/Safety.antt =====
-- What the handling of packets does to the state, to the buffers and to the callback.
pub mod Segments
pub mod Frames
pub mod Whole
pub mod Prefix
pub mod InOrder
pub mod Frame
pub mod Losses
pub mod Shades
pub mod Order
pub mod Repeated
pub mod Reordered
pub mod Widths
pub mod Typed
