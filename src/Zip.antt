-- ===== src/Zip.antt =====
-- The zip package: zip/struct.go, zip/reader.go, zip/writer.go and zip/register.go.
pub mod Buf
pub mod EndRecord
pub mod Checksum
pub mod Settings
pub mod Encoding
pub mod Extras
pub mod Directory
pub mod FileWriter
pub mod Archive
pub mod Create
pub mod Mode
