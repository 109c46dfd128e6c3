-- ===== src/Zip/Mode.antt =====
-- File modes of zip headers (zip/struct.go). An `os.FileMode` is its flags and its nine permission
-- bits. Whether `os.ModeType` holds the flag of character devices depends on the version of the
-- language: the parameter `char_in_type`.
pub mod RoundTrip
mod Tests
use arkive.Common.{
  ℕ, zero, suc, ◌+◌, ◌-◌, ◌*◌, ◌/◌, ◌%◌, ◌^◌, ◌≤◌, ◌<◌, min, ◌≡◌, refl, sym, ap, subst, ◌∙◌, ◌≢◌,
  ◌↔◌, ◌⊎◌, inl, inr, Bool, true, false, not, ◌&&◌, ◌||◌, Option, none, some, List, [], ◌∷◌, ◌++◌,
  map, append-nil, append_assoc, arith, Bytes, IsByte, ltb, leb, ◌==◌, if◌then◌else◌, Bool-cases,
  Option-cases, bytes_eq, bytes_eq_iff, length, get_or, take, drop, replicate, length-append,
  take-append-drop, length-take, length-drop, length-replicate, replicate-add, take_append,
  drop_append, take_all, drop_all, drop-drop, drop-append, take-append, get_or-append, All,
}
use arkive.Common.Words.{u16_mod, u32_mod, u64_mod, sign_bit, IsWord, is_neg, add64, sub64, slt}
use arkive.Common.Digits.{
  digits, format_uint, format_int, Parsed, parsed, syntax_error, range_error, is_digit, parse_loop,
  parse_uint, signed, parse_int, All-append, parse_loop-digits, parse_loop-zeros, digits-IsDigit,
  digits-ne-nil, length-digits_mono, length-digits_next, length-digits-le, parse_uint-loop,
  parse_uint-format_uint, parse_int-format_int, parse_int-zeros, digits-zeros,
}
use arkive.Common.Text.{codes, lookup, insert, delete, lookup-insert, lookup-delete}
use arkive.Common.Go.{
  Error, eof, unexpected_eof, err_header, err_field_too_long, err_write_too_long,
  err_write_after_close, err_invalid_header, err_format, err_checksum, err_algorithm, err_long_name,
  err_long_extra, comment_length, too_many_files, negative_offset, missed_bytes, closed_twice,
  write_closed, device, Result, ok, err, panic, stuck, >>=-eq-ok, >>=-ne-stuck, ◌>>=◌, ◌>>◌,
}
use arkive.Zip.Directory.{
  FileHeader, directory_header_signature, directory_header_len, is_non_utf8, finish_header,
  first_extras, read_extras, with_names, read_names, read_fixed, read_directory_header,
  ends_directory, stop_directory, read_on, read_headers, needs_zip64_extra, put_zip64_extra,
  written_header, offset32, put_fixed, put_directory_header, put_directory,
}

pub record FileMode : Type 0 where
  pub dir : Bool
  pub symlink : Bool
  pub named_pipe : Bool
  pub socket : Bool
  pub device : Bool
  pub char_device : Bool
  pub setuid : Bool
  pub setgid : Bool
  pub sticky : Bool
  pub perm : ℕ

-- `mode & bit != 0` as a number, and back.
unfoldable pub bit : Bool → ℕ
bit true = 1
bit false = 0

-- The four bits under `s_IFMT`.
abbrev pub s_ifsock : ℕ
s_ifsock = 0xc

abbrev pub s_iflnk : ℕ
s_iflnk = 0xa

abbrev pub s_ifreg : ℕ
s_ifreg = 0x8

abbrev pub s_ifblk : ℕ
s_ifblk = 0x6

abbrev pub s_ifdir : ℕ
s_ifdir = 0x4

abbrev pub s_ifchr : ℕ
s_ifchr = 0x2

abbrev pub s_ififo : ℕ
s_ififo = 0x1

-- The switch on `mode & os.ModeType`: the flags of directory, symlink, pipe, socket and device.
unfoldable pub type_code : Bool → Bool → Bool → Bool → Bool → Bool → ℕ
type_code true false false false false char = s_ifdir
type_code false true false false false char = s_iflnk
type_code false false true false false char = s_ififo
type_code false false false true false char = s_ifsock
type_code false false false false true char = if char then s_ifchr else s_ifblk
type_code _ _ _ _ _ char = s_ifreg

unfoldable pub file_mode_to_unix_mode : Bool → FileMode → ℕ
unfolding bit type_code
file_mode_to_unix_mode char_in_type m =
    (if char_in_type && m.char_device
        then s_ifreg
        else type_code m.dir m.symlink m.named_pipe m.socket m.device m.char_device)
      * 4096
    + bit m.setuid * 2048
    + bit m.setgid * 1024
    + bit m.sticky * 512
    + m.perm

unfoldable pub unix_mode_to_file_mode : ℕ → FileMode
unix_mode_to_file_mode u =
    let code = u / 4096 % 16 in
    record {
      dir = code == s_ifdir;
      symlink = code == s_iflnk;
      named_pipe = code == s_ififo;
      socket = code == s_ifsock;
      device = code == s_ifblk || code == s_ifchr;
      char_device = code == s_ifchr;
      setuid = u / 2048 % 2 == 1;
      setgid = u / 1024 % 2 == 1;
      sticky = u / 512 % 2 == 1;
      perm = u % 512;
    }

-- A mode with permissions only.
abbrev pub plain_mode : ℕ → FileMode
plain_mode perm = record {
  dir = false;
  symlink = false;
  named_pipe = false;
  socket = false;
  device = false;
  char_device = false;
  setuid = false;
  setgid = false;
  sticky = false;
  perm = perm;
}

-- 0777, or 0555 if read-only, for a directory; 0666 or 0444 for a file.
unfoldable pub msdos_mode_to_file_mode : ℕ → FileMode
msdos_mode_to_file_mode attrs =
    let read_only = attrs % 2 == 1 in
    if attrs / 16 % 2 == 1
    then record (plain_mode (if read_only then 365 else 511)) { dir = true }
    else plain_mode (if read_only then 292 else 438)

unfoldable pub ends_in_slash : Bytes → Bool
ends_in_slash [] = false
ends_in_slash (c ∷ []) = c == b'/'
ends_in_slash (c ∷ d ∷ name) = ends_in_slash (d ∷ name)

-- `Mode`: Unix and Mac OS X, then NTFS, VFAT and FAT.
unfoldable pub mode_by_creator : ℕ → ℕ → FileMode
unfolding unix_mode_to_file_mode msdos_mode_to_file_mode
mode_by_creator creator attrs =
    if (creator == 3) || (creator == 19)
    then unix_mode_to_file_mode (attrs / 65536)
    else if (creator == 11) || (creator == 14) || (creator == 0)
    then msdos_mode_to_file_mode attrs
    else plain_mode 0

unfoldable pub header_mode : FileHeader → FileMode
unfolding mode_by_creator ends_in_slash
header_mode h =
    let mode = mode_by_creator (h.creator_version / 256) h.external_attrs in
    if ends_in_slash h.name then record mode { dir = true } else mode

-- `SetMode`, with the MS-DOS attributes in the low byte.
unfoldable pub set_mode : Bool → FileMode → FileHeader → FileHeader
unfolding file_mode_to_unix_mode bit
set_mode char_in_type m h = record h {
  creator_version = h.creator_version % 256 + 3 * 256;
  external_attrs =
      file_mode_to_unix_mode char_in_type m * 65536
      + bit m.dir * 16
      + (if m.perm / 128 % 2 == 0 then 1 else 0);
}
