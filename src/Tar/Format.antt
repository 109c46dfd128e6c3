-- ===== src/Tar/Format.antt =====
-- Formats and checksums of header blocks (tar/format.go).
pub mod Checksum
pub mod Detect
mod Tests
use arkive.Common.{
  ℕ, zero, suc, ◌+◌, ◌-◌, ◌*◌, ◌/◌, ◌%◌, ◌^◌, ◌≤◌, ◌<◌, min, ◌≡◌, refl, sym, ap, subst, ◌∙◌, ◌≢◌,
  ◌↔◌, ◌⊎◌, inl, inr, Bool, true, false, not, ◌&&◌, ◌||◌, Option, none, some, List, [], ◌∷◌, ◌++◌,
  map, append-nil, append_assoc, arith, Bytes, IsByte, ltb, leb, ◌==◌, if◌then◌else◌, Bool-cases,
  Option-cases, bytes_eq, bytes_eq_iff, length, get_or, take, drop, replicate, length-append,
  take-append-drop, length-take, length-drop, length-replicate, take_append, drop_append, take_all,
  drop_all, drop-drop, drop-append, take-append, get_or-append, All,
}
use arkive.Common.Words.{u16_mod, u32_mod, u64_mod, sign_bit, IsWord, is_neg, add64, sub64, slt}
use arkive.Common.Digits.{
  digits, format_uint, format_int, Parsed, parsed, syntax_error, range_error, is_digit, parse_loop,
  parse_uint, signed, parse_int, All-append, parse_loop-digits, parse_loop-zeros, digits-IsDigit,
  digits-ne-nil, length-digits_mono, length-digits_next, length-digits-le, parse_uint-loop,
  parse_uint-format_uint, parse_int-format_int, parse_int-zeros, digits-zeros,
}
use arkive.Common.Text.{codes, lookup, insert, delete, lookup-insert, lookup-delete}
use arkive.Common.Go.{
  Error, eof, unexpected_eof, err_header, err_field_too_long, err_write_too_long,
  err_write_after_close, err_invalid_header, err_format, err_checksum, err_algorithm, err_long_name,
  err_long_extra, comment_length, too_many_files, negative_offset, missed_bytes, closed_twice,
  write_closed, device, Result, ok, err, panic, stuck, >>=-eq-ok, >>=-ne-stuck, ◌>>=◌, ◌>>◌,
}
use arkive.Tar.Strconv.{
  is_ascii, to_ascii, Parser, Formatter, parse_string, format_string, trim, parse_octal,
  format_octal, fits_in_base256, shift_right, big_endian, format_numeric, parse_numeric,
}
use arkive.Tar.Block.{Field, get, put, block_size, name_size, prefix_size}
use arkive.Tar.Block.V7
use arkive.Tar.Block.Gnu
use arkive.Tar.Block.Star
use arkive.Tar.Block.Ustar

pub data Format : Type 0 where
  format_unknown format_v7 format_gnu format_star format_ustar format_pax : Format

abbrev pub magic_gnu : Bytes
magic_gnu = b'u' ∷ b's' ∷ b't' ∷ b'a' ∷ b'r' ∷ b' ' ∷ []

abbrev pub version_gnu : Bytes
version_gnu = b' ' ∷ 0 ∷ []

abbrev pub magic_ustar : Bytes
magic_ustar = b'u' ∷ b's' ∷ b't' ∷ b'a' ∷ b'r' ∷ 0 ∷ []

abbrev pub version_ustar : Bytes
version_ustar = b'0' ∷ b'0' ∷ []

abbrev pub trailer_star : Bytes
trailer_star = b't' ∷ b'a' ∷ b'r' ∷ 0 ∷ []

-- The byte that counts at index `i`: the checksum field counts as spaces.
abbrev pub counted : ℕ → ℕ → ℕ
counted i c = if leb 148 i && ltb i 156 then b' ' else c

-- `int64(int8(c))`
abbrev pub sign_extended : ℕ → ℕ
sign_extended c = if leb 128 c then u64_mod - (256 - c) else c

unfoldable pub unsigned_from : ℕ → Bytes → ℕ
unsigned_from i [] = 0
unsigned_from i (c ∷ b) = counted i c + unsigned_from (suc i) b

pub signed_from : ℕ → Bytes → ℕ
signed_from i [] = 0
signed_from i (c ∷ b) = add64 (sign_extended (counted i c)) (signed_from (suc i) b)

unfoldable pub compute_checksum : Bytes → ℕ × ℕ
unfolding unsigned_from signed_from
compute_checksum b = (unsigned_from 0 b, signed_from 0 b)

-- The switch on the magic values.
unfoldable pub guess_magic : Bytes → Bytes → Bytes → Format
guess_magic magic version trailer =
    if bytes_eq magic magic_ustar && bytes_eq trailer trailer_star
    then format_star
    else if bytes_eq magic magic_ustar
    then format_ustar
    else if bytes_eq magic magic_gnu && bytes_eq version version_gnu
    then format_gnu
    else format_v7

unfoldable pub guess_format : Bytes → Format
unfolding guess_magic
guess_format b = guess_magic (get Ustar.magic b) (get Ustar.version b) (get Star.trailer b)

abbrev pub has_checksum : ℕ × Parser → ℕ × ℕ → Bool
has_checksum (value, none) (chksum1, chksum2) = value == chksum1 || value == chksum2
has_checksum (value, some e) (chksum1, chksum2) = false

unfoldable pub get_format : Bytes → Format
unfolding compute_checksum guess_format
get_format b =
    if has_checksum (parse_octal none (get V7.chksum b)) (compute_checksum b)
    then guess_format b
    else format_unknown

-- The magic values; `format_unknown` is the panic of the default case.
unfoldable pub put_magic : Format → Bytes → Result Bytes
put_magic format_unknown b = panic
put_magic format_v7 b = ok b
put_magic format_gnu b = ok (put Gnu.version version_gnu (put Gnu.magic magic_gnu b))
put_magic format_star b =
    ok (
      put Star.trailer trailer_star (put Star.version version_ustar (put Star.magic magic_ustar b)))
put_magic format_ustar b = ok (put Ustar.version version_ustar (put Ustar.magic magic_ustar b))
put_magic format_pax b = ok (put Ustar.version version_ustar (put Ustar.magic magic_ustar b))

-- The octal digits and a NUL in seven bytes of the field, then a space.
unfoldable pub checksum_field : Bytes → Bytes
unfolding compute_checksum
checksum_field b =
    let field = format_octal none (take 7 (get V7.chksum b)) (compute_checksum b).0 in
    field.1 ++ b' ' ∷ []

unfoldable pub put_checksum : Bytes → Bytes
unfolding checksum_field
put_checksum b = put V7.chksum (checksum_field b) b

unfoldable pub set_format : Format → Bytes → Result Bytes
unfolding put_magic put_checksum
set_format format b = do b ← put_magic format b; ok (put_checksum b)
