-- ===== src/Tar/Strconv/Tests.antt =====
-- The numeric fields at concrete values.
use arkive.Common.{◌-◌, ◌≤◌, ◌≡◌, refl, true, none, some, arith, Bytes, length, replicate}
use arkive.Common.Words.{u64_mod}
use arkive.Common.Digits.{format_uint, format_int}
use arkive.Common.Go.{err_header}
use arkive.Tar.Strconv.{parse_octal, format_octal, fits_in_base256, format_numeric, parse_numeric}
use arkive.Tar.Strconv.Octal.{parse_octal-format_octal, parse_octal-format_octal_negative}
use arkive.Tar.Strconv.Base256.{parse_numeric-format_numeric}

abbrev mode_field : Bytes
mode_field = replicate 8 0

octal_room : length (format_int 8 0o644) ≤ length mode_field
unfolding format_int format_uint
octal_room = omega arith

octal_room_negative : length (format_int 8 (u64_mod - 1)) ≤ length mode_field
unfolding format_int format_uint
octal_room_negative = omega arith

parse_octal-format_octal_example :
    ((format_octal none mode_field 0o644).0 ≡ none)
    × (parse_octal none (format_octal none mode_field 0o644).1 ≡ (0o644, none))
parse_octal-format_octal_example =
    parse_octal-format_octal none none mode_field 0o644 (omega arith) octal_room

-- The user id -1.
parse_octal-format_octal_negative_example :
    ((format_octal none mode_field (u64_mod - 1)).0 ≡ none)
    × (parse_octal none (format_octal none mode_field (u64_mod - 1)).1 ≡ (0, some err_header))
parse_octal-format_octal_negative_example =
    parse_octal-format_octal_negative none none mode_field (u64_mod - 1) refl octal_room_negative

size_fits : fits_in_base256 8 3000000 ≡ true
unfolding fits_in_base256
size_fits = refl

parse_numeric-format_numeric_example :
    ((format_numeric none mode_field 3000000).0 ≡ none)
    × (parse_numeric none (format_numeric none mode_field 3000000).1 ≡ (3000000, none))
parse_numeric-format_numeric_example =
    parse_numeric-format_numeric none none mode_field 3000000 (omega arith) (omega arith) size_fits
