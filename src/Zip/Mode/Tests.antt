-- ===== src/Zip/Mode/Tests.antt =====
-- File modes at concrete values.
use arkive.Common.{◌≡◌, refl, true, false, none, [], ◌∷◌, arith}
use arkive.Zip.Directory.{FileHeader}
use arkive.Zip.Mode.{
  plain_mode, header_mode, set_mode, mode_by_creator, msdos_mode_to_file_mode, ends_in_slash,
  file_mode_to_unix_mode, bit, type_code,
}
use arkive.Zip.Mode.RoundTrip.{directory, link, header_mode-set_mode, mode_of}

abbrev named : FileHeader
named = record {
  name = b'd' ∷ b'/' ∷ [];
  comment = [];
  non_utf8 = false;
  creator_version = 0x0014;
  reader_version = 0;
  flags = 0;
  method = 8;
  modified = none;
  modified_time = 0;
  modified_date = 0;
  crc32 = 0;
  compressed_size = 0;
  uncompressed_size = 0;
  compressed_size64 = 0;
  uncompressed_size64 = 0;
  extra = [];
  external_attrs = 0;
}

-- A symbolic link with the sticky bit, under a name that ends in a slash.
header_mode-set_mode_example :
    header_mode (set_mode true (mode_of link false false true 493) named)
    ≡ record (mode_of link false false true 493) { dir = true }
unfolding ends_in_slash
header_mode-set_mode_example =
    header_mode-set_mode true link false false true 493 named (omega arith)

-- A read-only directory of MS-DOS, and the mode of an unknown creator.
msdos_run :
    (mode_by_creator 0 17 ≡ record (plain_mode 365) { dir = true })
    × (mode_by_creator 14 32 ≡ plain_mode 438)
    × (mode_by_creator 7 17 ≡ plain_mode 0)
unfolding mode_by_creator msdos_mode_to_file_mode
msdos_run = (refl, refl, refl)

-- The fields that are written.
set_mode_run :
    (set_mode false (mode_of directory false false false 365) named).external_attrs ≡ 0x416d0011
unfolding set_mode file_mode_to_unix_mode bit type_code
set_mode_run = refl
