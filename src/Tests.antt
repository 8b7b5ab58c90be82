-- ===== src/Tests.antt =====
-- Runs of the model on concrete data, and each theorem at an input that meets its hypotheses.
mod Cache
mod Path
mod Romfs
mod Stream
mod Codec
mod Cpio
mod Cramfs
mod Sparse
mod Iso9660
mod Records
mod RockRidge
mod Zisofs
mod Udf
mod Verity
mod ElTorito
