-- ===== src/Tar/Strconv.antt =====
-- tar/strconv.go: the fields of a header block as strings, octal numbers and base-256 numbers.
-- An int64 is its two's complement pattern. A `parser` or `formatter` is its one field `err`, which
-- each call is given and returns; a field of a block is given with its old bytes and returned with
-- the new ones.
pub mod Errors
pub mod Octal
pub mod Trim
pub mod Base256
mod Tests
use arkive.Common.{
  ℕ, zero, suc, ◌+◌, ◌-◌, ◌*◌, ◌/◌, ◌%◌, ◌^◌, ◌≤◌, ◌<◌, min, ◌≡◌, refl, sym, ap, ◌∙◌, ◌≢◌, ◌↔◌, ◌⊎◌,
  inl, inr, Bool, true, false, not, ◌&&◌, ◌||◌, Option, none, some, List, [], ◌∷◌, ◌++◌, map,
  append-nil, append_assoc, arith, Bytes, IsByte, ltb, leb, ◌==◌, if◌then◌else◌, Bool-cases,
  Option-cases, bytes_eq, bytes_eq_iff, length, get_or, take, drop, replicate, length-append,
  take-append-drop, length-take, length-drop, length-replicate, take_append, drop_append, take_all,
  drop_all, drop-drop, drop-append, take-append, get_or-append, All,
}
use arkive.Common.Words.{u16_mod, u32_mod, u64_mod, sign_bit, IsWord, is_neg, add64, sub64, slt}
use arkive.Common.Digits.{
  digits, format_uint, format_int, Parsed, parsed, syntax_error, range_error, is_digit, parse_loop,
  parse_uint, signed, parse_int, All-append, parse_loop-digits, parse_loop-zeros, digits-IsDigit,
  digits-ne-nil, length-digits_mono, length-digits_next, length-digits-le, parse_uint-loop,
  parse_uint-format_uint, parse_int-format_int, parse_int-zeros, digits-zeros,
}
use arkive.Common.Text.{codes, lookup, insert, delete, lookup-insert, lookup-delete}
use arkive.Common.Go.{
  Error, eof, unexpected_eof, err_header, err_field_too_long, err_write_too_long,
  err_write_after_close, err_invalid_header, err_format, err_checksum, err_algorithm, err_long_name,
  err_long_extra, comment_length, too_many_files, negative_offset, missed_bytes, closed_twice,
  write_closed, device, Result, ok, err, panic, stuck, >>=-eq-ok, ◌>>=◌, ◌>>◌,
}
use Prim.Native.Nat.{bit_and, bit_or, bit_xor}

-- `range s` gives a rune below 0x80 exactly at the bytes below 0x80: each byte of a longer or of an
-- invalid sequence belongs to a rune from 0x80 on.
unfoldable pub is_ascii : Bytes → Bool
is_ascii [] = true
is_ascii (c ∷ s) = ltb c 0x80 && is_ascii s

ascii_only : Bytes → Bytes
ascii_only [] = []
ascii_only (c ∷ s) = if ltb c 0x80 then c ∷ ascii_only s else ascii_only s

unfoldable pub to_ascii : Bytes → Bytes
unfolding is_ascii ascii_only
to_ascii s = if is_ascii s then s else ascii_only s

abbrev pub Parser : Type 0
Parser = Option Error

abbrev pub Formatter : Type 0
Formatter = Option Error

-- The bytes before the first NUL.
unfoldable pub parse_string : Bytes → Bytes
parse_string [] = []
parse_string (c ∷ b) = if c == 0 then [] else c ∷ parse_string b

-- `copy(b, ascii)` and the NUL behind it; what is further on in the field stays.
unfoldable pub format_string : Formatter → Bytes → Bytes → Formatter × Bytes
unfolding to_ascii
format_string f b s =
    let ascii = to_ascii s in
    if ltb (length b) (length s)
    then (some err_field_too_long, b)
    else if ltb (length ascii) (length b)
    then (f, ascii ++ 0 ∷ drop (length ascii + 1) b)
    else (f, ascii ++ drop (length ascii) b)

is_pad : ℕ → Bool
is_pad c = c == b' ' || c == 0

trim_left : Bytes → Bytes
unfolding is_pad
trim_left [] = []
trim_left (c ∷ b) = if is_pad c then trim_left b else c ∷ b

-- A pad byte in front of what is left on the right is trimmed if nothing is left.
cons_unless_pad : ℕ → Bytes → Bytes
unfolding is_pad
cons_unless_pad c [] = if is_pad c then [] else c ∷ []
cons_unless_pad c (d ∷ b) = c ∷ d ∷ b

trim_right : Bytes → Bytes
unfolding cons_unless_pad
trim_right [] = []
trim_right (c ∷ b) = cons_unless_pad c (trim_right b)

-- `bytes.Trim(b, " \x00")`
unfoldable pub trim : Bytes → Bytes
unfolding trim_left trim_right
trim b = trim_right (trim_left b)

-- `x, perr := strconv.ParseUint(…)`; on an error `x` is 0 or the greatest uint64.
octal_result : Parser → Parsed → ℕ × Parser
octal_result p (parsed x) = (x, p)
octal_result p syntax_error = (0, some err_header)
octal_result p range_error = (u64_mod - 1, some err_header)

unfoldable pub parse_octal : Parser → Bytes → ℕ × Parser
unfolding octal_result
parse_octal p b =
    let b' = trim b in
    if length b' == 0 then (0, p) else octal_result p (parse_uint 8 (parse_string b'))

unfoldable pub format_octal : Formatter → Bytes → ℕ → Formatter × Bytes
format_octal f b x =
    let s = format_int 8 x in format_string f b (replicate (length b - length s - 1) b'0' ++ s)

-- `-1<<binBits <= x && x < 1<<binBits` on int64, for `binBits` below 64.
unfoldable pub fits_in_base256 : ℕ → ℕ → Bool
fits_in_base256 n x =
    let bound = 2 ^ (8 * (n - 1)) in leb 9 n || leb (u64_mod - bound) x || ltb x bound

-- `x >>= 8` on int64.
abbrev pub shift_right : ℕ → ℕ
shift_right x = x / 256 + (if is_neg x then 255 * 2 ^ 56 else 0)

-- The loop of `formatNumeric`, from the last byte of the field to the first.
unfoldable pub big_endian : ℕ → ℕ → Bytes
big_endian zero x = []
big_endian (suc n) x = big_endian n (shift_right x) ++ (x % 256) ∷ []

-- `b[0] |= 0x80`; the fields of a block are not empty.
set_binary : Bytes → Bytes
set_binary [] = []
set_binary (c ∷ b) = bit_or c 0x80 ∷ b

unfoldable pub format_numeric : Formatter → Bytes → ℕ → Formatter × Bytes
unfolding big_endian set_binary
format_numeric f b x =
    if fits_in_base256 (length b) x
    then (f, set_binary (big_endian (length b) x))
    else (some err_field_too_long, (format_octal f b 0).1)

-- The loop over the bytes; the flag is `i == 0`, and `none` is the overflow inside the loop.
base256_loop : ℕ → Bool → ℕ → Bytes → Option ℕ
base256_loop inv first x [] = some x
base256_loop inv first x (c ∷ b) =
    let c' = bit_xor c inv in
    let c'' = if first then bit_and c' 0x7f else c' in
    let rest = base256_loop inv false (x * 256 + c'') b in if ltb 0 (x / 2 ^ 56) then none else rest

-- The tests behind the loop.
base256_result : Parser → ℕ → Option ℕ → ℕ × Parser
base256_result p inv none = (0, some err_header)
base256_result p inv (some x) =
    if ltb 0 (x / 2 ^ 63)
    then (0, some err_header)
    else if inv == 0xff
    then (u64_mod - 1 - x, p)
    else (x, p)

unfoldable pub parse_numeric : Parser → Bytes → ℕ × Parser
unfolding base256_loop base256_result
parse_numeric p [] = parse_octal p []
parse_numeric p (c ∷ b) =
    let inv = if bit_and c 0x40 == 0 then 0 else 0xff in
    if bit_and c 0x80 == 0
    then parse_octal p (c ∷ b)
    else base256_result p inv (base256_loop inv true 0 (c ∷ b))
