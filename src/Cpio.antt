-- ===== src/Cpio.antt =====
-- crates/lamfold-cpio/src/cpio.rs: a tree over a cpio archive, or over an initramfs made of several.
pub mod Record
pub mod Tree
pub mod Archive
pub mod Chain
pub mod Volume
pub mod Spans
pub mod Fits
pub mod Grown
pub mod Mounted
pub mod Opened
pub mod Served
pub mod Hex
pub mod Layout
pub mod Turns
pub mod Ends
