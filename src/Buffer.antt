-- ===== src/Buffer.antt =====
-- liboac/include/liboac/buffer: the fixed buffer and the stream buffers over a buffer.
pub mod Interface
pub mod Completion
pub mod Fixed
pub mod Linear
pub mod Ring
pub mod Shifted
pub mod Double
