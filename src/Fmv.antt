-- ===== src/Fmv.antt =====
-- fmv_src/sta_fmv.c: the codec of message packets.
pub mod Cursor
pub mod Unsigned
pub mod Signed
pub mod Floats
pub mod Header
pub mod ZeroCode
pub mod Acks
pub mod Blobs
pub mod Uuid
pub mod Vectors
