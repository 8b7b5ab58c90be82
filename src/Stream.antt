-- ===== src/Stream.antt =====
-- crates/lamfold/src/stream.rs: whole-stream decoding. The decoders of the third-party crates are
-- parameters with their documented behaviour: they take no more input than there is, and write no
-- more output than there is room for.
pub mod Parts
pub mod Gzip
pub mod Frames
pub mod Lz4
pub mod Decode
pub mod Turns
pub mod Ends
