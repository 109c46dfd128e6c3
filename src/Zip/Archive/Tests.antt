-- ===== src/Zip/Archive/Tests.antt =====
-- The theorems on directories and archives at concrete files.
use arkive.Common.{◌≡◌, refl, false, inl, none, some, [], ◌∷◌, ◌++◌, arith, Bytes}
use arkive.Common.Go.{ok}
use arkive.Zip.Buf.{
  uint8, uint16, uint32, uint64, sub, skip, put_uint8, put_uint16, put_uint32, put_uint64,
  put_zeros,
}
use arkive.Zip.EndRecord.{end_records}
use arkive.Zip.EndRecord.Fields.{put_end_record_alone}
use arkive.Zip.EndRecord.RoundTrip.{HasNoLocator}
use arkive.Zip.Directory.{
  FileHeader, read_directory_header, needs_zip64_extra, written_header, put_fixed,
  put_directory_header, put_directory,
}
use arkive.Zip.Directory.Sizes.{IsHeader, as_read}
use arkive.Zip.Directory.RoundTrip.{read_directory_header-put}
use arkive.Zip.Archive.{init_reader}
use arkive.Zip.Archive.RoundTrip.{init_reader-put_directory}

abbrev small_file : FileHeader
small_file = record {
  name = b'a' ∷ [];
  comment = b'c' ∷ b'!' ∷ [];
  non_utf8 = false;
  creator_version = 20;
  reader_version = 20;
  flags = 8;
  method = 0;
  modified = none;
  modified_time = 0;
  modified_date = 0;
  crc32 = 7;
  compressed_size = 2;
  uncompressed_size = 2;
  compressed_size64 = 2;
  uncompressed_size64 = 2;
  extra = 0x55 ∷ 0x54 ∷ 5 ∷ 0 ∷ 1 ∷ 9 ∷ 0 ∷ 0 ∷ 0 ∷ [];
  external_attrs = 0;
}

small_file-IsHeader : IsHeader small_file 0
unfolding put_uint16 put_uint8
small_file-IsHeader = record {
  fields = (0x5455, 1 ∷ 9 ∷ 0 ∷ 0 ∷ 0 ∷ []) ∷ [];
  extra_eq = refl;
  fields_ok = ((omega arith, omega arith, ground arith, inl (ground arith)), tt);
  creator = omega arith;
  reader = omega arith;
  flags = omega arith;
  method = omega arith;
  time = omega arith;
  date = omega arith;
  sum = omega arith;
  attrs = omega arith;
  compressed = omega arith;
  uncompressed = omega arith;
  start = omega arith;
  name_fits = omega arith;
  extra_fits = omega arith;
  comment_fits = omega arith;
  compressed_eq = λ e. refl;
  uncompressed_eq = λ e. refl;
}

-- Nine gigabytes that are compressed to 50 megabytes need the zip64 block, and `close` has set both
-- 32-bit sizes to the greatest number.
abbrev large_file : FileHeader
large_file = record small_file {
  compressed_size = 0xffffffff;
  uncompressed_size = 0xffffffff;
  compressed_size64 = 50000000;
  uncompressed_size64 = 10000000000;
}

large_file-IsHeader : IsHeader large_file 20000000000
unfolding put_uint16 put_uint8
large_file-IsHeader = record {
  fields = (0x5455, 1 ∷ 9 ∷ 0 ∷ 0 ∷ 0 ∷ []) ∷ [];
  extra_eq = refl;
  fields_ok = ((omega arith, omega arith, ground arith, inl (ground arith)), tt);
  creator = omega arith;
  reader = omega arith;
  flags = omega arith;
  method = omega arith;
  time = omega arith;
  date = omega arith;
  sum = omega arith;
  attrs = omega arith;
  compressed = omega arith;
  uncompressed = omega arith;
  start = omega arith;
  name_fits = omega arith;
  extra_fits = omega arith;
  comment_fits = omega arith;
  compressed_eq = λ e. ground arith;
  uncompressed_eq = λ e. ground arith;
}

read_directory_header-put_example :
    read_directory_header (put_directory_header large_file 20000000000 [])
    ≡ ok ((as_read large_file 20000000000 (some (9, 0)), 20000000000), [])
unfolding large_file-IsHeader
read_directory_header-put_example =
    read_directory_header-put large_file 20000000000 large_file-IsHeader []

-- The header is read with its time.
time_run :
    read_directory_header (put_directory_header large_file 20000000000 [])
    ≡ ok ((as_read large_file 20000000000 (some (9, 0)), 20000000000), [])
unfolding read_directory_header put_directory_header put_uint64 put_uint32 put_uint16 put_uint8
    uint32 uint64 uint16 uint8 put_zeros skip sub
time_run = refl

-- Three bytes in front of an archive with two bytes of a file.
abbrev before : Bytes
before = 1 ∷ 2 ∷ 3 ∷ b'h' ∷ b'i' ∷ []

no_locator : HasNoLocator (before ++ put_directory ((small_file, 0) ∷ []) [])
unfolding put_directory put_directory_header written_header needs_zip64_extra put_fixed put_uint32
    put_uint16 put_uint8 put_zeros uint32 uint16 uint8
no_locator le sig rest e = ground arith

init_reader-put_directory_example :
    init_reader
      (λ files. ok files)
      ((before ++ put_directory ((small_file, 0) ∷ []) []) ++ end_records 1 2 60 [])
    ≡ ok ((as_read small_file 0 (some (9, 0)), 3) ∷ [], [])
unfolding put_directory put_directory_header written_header needs_zip64_extra put_fixed put_uint32
    put_uint16 put_uint8 put_zeros small_file-IsHeader
init_reader-put_directory_example =
    init_reader-put_directory (λ files. ok files) ((small_file, 0) ∷ []) 3 2 before []
      (small_file-IsHeader, tt) refl refl (omega arith) (omega arith) (put_end_record_alone 1 58 2)
      no_locator
