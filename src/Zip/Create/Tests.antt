-- ===== src/Zip/Create/Tests.antt =====
-- Headers and times at concrete values.
use arkive.Common.{
  ◌^◌, ◌<◌, ◌≡◌, refl, true, false, none, some, [], ◌∷◌, ◌++◌, arith, Bytes, length,
}
use arkive.Common.Go.{ok}
use arkive.Zip.Encoding.{detect_utf8}
use arkive.Zip.Buf.{put_uint8, put_uint16, put_uint32}
use arkive.Zip.Checksum.{find_body_offset}
use arkive.Zip.Directory.{FileHeader, is_non_utf8}
use arkive.Zip.Create.{
  DateTime, time_to_ms_dos_time, ms_dos_time_to_time, create_flags, prepare_header, put_file_header,
  write_header,
}
use arkive.Zip.Create.DosTime.{ms_dos_time_to_time-time_to_ms_dos_time}
use arkive.Zip.Create.LocalHeader.{is_non_utf8-create_flags, find_body_offset-write_header}

abbrev header : FileHeader
header = record {
  name = b'a' ∷ 0xc3 ∷ 0xa9 ∷ [];
  comment = [];
  non_utf8 = false;
  creator_version = 0x0301;
  reader_version = 0;
  flags = 0;
  method = 8;
  modified = none;
  modified_time = 0;
  modified_date = 0;
  crc32 = 0;
  compressed_size = 0;
  uncompressed_size = 0;
  compressed_size64 = 0;
  uncompressed_size64 = 0;
  extra = [];
  external_attrs = 0;
}

abbrev moment : DateTime
moment = record { year = 2009; month = 11; day = 10; hour = 23; minute = 3; second = 31 }

-- A name in UTF-8 sets the flag, and the time adds nine bytes.
prepared_run :
    let h = prepare_header (some (1257894211, moment)) header in
    (h.flags ≡ 0x808) × (h.creator_version ≡ 0x0314) × (length h.extra ≡ 9)
unfolding prepare_header put_uint32 put_uint16 put_uint8
prepared_run = (refl, refl, refl)

-- An overlong encoding and a truncated one are not valid.
encoding_run :
    (detect_utf8 (0xc0 ∷ 0x80 ∷ []) ≡ (false, false))
    × (detect_utf8 (0xe2 ∷ 0x82 ∷ []) ≡ (false, false))
    × (detect_utf8 (0xe2 ∷ 0x82 ∷ 0xac ∷ []) ≡ (true, true))
    × (detect_utf8 (b'a' ∷ []) ≡ (true, false))
unfolding detect_utf8
encoding_run = (refl, refl, refl, refl)

abbrev local : Bytes
unfolding put_file_header
local = put_file_header header

find_body_offset-write_header_example :
    find_body_offset ((1 ∷ 2 ∷ []) ++ (local ++ (9 ∷ []))) 2 ≡ ok 33
unfolding local put_file_header write_header put_uint32 put_uint16 put_uint8
find_body_offset-write_header_example =
    find_body_offset-write_header header (1 ∷ 2 ∷ []) local (9 ∷ []) refl (omega arith)

is_non_utf8-create_flags_example :
    is_non_utf8 (true, true) (true, false) (create_flags true (true, true) (true, false) 0x800)
    ≡ true
is_non_utf8-create_flags_example = is_non_utf8-create_flags true true true true false 0x800

ms_dos_time_to_time-time_to_ms_dos_time_example :
    let (date, time) = time_to_ms_dos_time moment in
    (date < 2 ^ 16)
    × (time < 2 ^ 16)
    × (ms_dos_time_to_time date time ≡ record moment { second = 30 })
ms_dos_time_to_time-time_to_ms_dos_time_example =
    ms_dos_time_to_time-time_to_ms_dos_time moment (omega arith) (omega arith) (omega arith)
      (omega arith) (omega arith) (omega arith) (omega arith)
