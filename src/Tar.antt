-- ===== src/Tar.antt =====
-- The tar package: tar/strconv.go, tar/format.go, tar/common.go, tar/reader.go and tar/writer.go.
pub mod Strconv
pub mod Pax
pub mod PaxHeaders
pub mod Source
pub mod FileReader
pub mod Block
pub mod Format
pub mod SparseMap
pub mod SparseMap1
pub mod OldSparseMap
pub mod Writer
pub mod Header
pub mod Reader
pub mod Checkpoint
