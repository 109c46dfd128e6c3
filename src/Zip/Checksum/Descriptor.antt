-- ===== src/Zip/Checksum/Descriptor.antt =====
-- The data descriptor that the writer leaves behind a file, read again (zip/reader.go).
use arkive.Common.{ℕ, ◌<◌, ◌≡◌, ap, Bool, true, false, arith, ◌==◌, if◌then◌else◌, take}
use arkive.Common.Words.{u32_mod}
use arkive.Common.Go.{err_checksum, ok, err}
use arkive.Zip.Buf.{uint8, uint16, uint32, put_uint8, put_uint16, put_uint32, put_uint64}
use arkive.Zip.Checksum.{read_full, read_data_descriptor, data_descriptor}

-- The section of sixteen bytes that the reader looks at, of the descriptor with 32-bit or 64-bit
-- sizes: it is accepted exactly if its checksum is the header's.
pub read_data_descriptor-data_descriptor :
    (crc compressed uncompressed expected : ℕ) (zip64 : Bool)
    → crc < u32_mod
    → read_data_descriptor (take 16 (data_descriptor crc compressed uncompressed zip64)) expected
      ≡ (if crc == expected then ok tt else err err_checksum)
unfolding read_data_descriptor data_descriptor read_full put_uint32 put_uint16 put_uint8 put_uint64
    uint32 uint16 uint8
read_data_descriptor-data_descriptor crc compressed uncompressed expected true h =
    ap (λ (n : ℕ). if n == expected then ok tt else err err_checksum) (omega arith)
read_data_descriptor-data_descriptor crc compressed uncompressed expected false h =
    ap (λ (n : ℕ). if n == expected then ok tt else err err_checksum) (omega arith)
