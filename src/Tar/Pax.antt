-- ===== src/Tar/Pax.antt =====
-- PAX extended headers: `parsePAXTime`, `parsePAXRecord` and `formatPAXRecord` (tar/strconv.go), and
-- `parsePAX` (tar/reader.go). A Go map from strings is an association list, read by its first entry.
pub mod Size
pub mod Record
mod Tests
use arkive.Common.{
  ℕ, zero, suc, ◌+◌, ◌-◌, ◌*◌, ◌/◌, ◌%◌, ◌^◌, ◌≤◌, ◌<◌, min, ◌≡◌, refl, sym, ap, ◌∙◌, ◌≢◌, ◌↔◌, ◌⊎◌,
  inl, inr, Bool, true, false, not, ◌&&◌, ◌||◌, Option, none, some, List, [], ◌∷◌, ◌++◌, map,
  append-nil, append_assoc, arith, Bytes, IsByte, ltb, leb, ◌==◌, if◌then◌else◌, Bool-cases,
  Option-cases, bytes_eq, bytes_eq_iff, length, get_or, take, drop, replicate, length-append,
  take-append-drop, length-take, length-drop, length-replicate, take_append, drop_append, take_all,
  drop_all, drop-drop, drop-append, take-append, get_or-append, All,
}
use arkive.Common.Words.{u16_mod, u32_mod, u64_mod, sign_bit, IsWord, is_neg, add64, sub64, slt}
use arkive.Common.Digits.{
  digits, format_uint, format_int, Parsed, parsed, syntax_error, range_error, is_digit, parse_loop,
  parse_uint, signed, parse_int, All-append, parse_loop-digits, parse_loop-zeros, digits-IsDigit,
  digits-ne-nil, length-digits_mono, length-digits_next, length-digits-le, parse_uint-loop,
  parse_uint-format_uint, parse_int-format_int, parse_int-zeros, digits-zeros,
}
use arkive.Common.Text.{codes, lookup, insert, delete, lookup-insert, lookup-delete}
use arkive.Common.Go.{
  Error, eof, unexpected_eof, err_header, err_field_too_long, err_write_too_long,
  err_write_after_close, err_invalid_header, err_format, err_checksum, err_algorithm, err_long_name,
  err_long_extra, comment_length, too_many_files, negative_offset, missed_bytes, closed_twice,
  write_closed, device, Result, ok, err, panic, stuck, >>=-eq-ok, ◌>>=◌, ◌>>◌,
}
use mathlib.Core.Option

-- `strings.IndexByte`; `none` stands for -1.
unfoldable pub index_byte : ℕ → Bytes → Option ℕ
index_byte c [] = none
index_byte c (d ∷ s) = if d == c then some 0 else Option.map suc (index_byte c s)

-- `s[lo:hi]`, which panics unless `lo <= hi <= len(s)`.
unfoldable pub slice : ℕ → ℕ → Bytes → Result Bytes
slice lo hi s = if ltb hi lo || ltb (length s) hi then panic else ok (take (hi - lo) (drop lo s))

-- `fmt.Sprintf("%d %s=%s\n", size, k, v)`
unfoldable pub record_text : ℕ → Bytes → Bytes → Bytes
record_text size k v = format_int 10 size ++ b' ' ∷ (k ++ b'=' ∷ (v ++ b'\n' ∷ []))

unfoldable pub format_pax_record : Bytes → Bytes → Bytes
format_pax_record k v =
    let size = length k + length v + 3 in
    let size' = size + length (format_int 10 size) in
    let text = record_text size' k v in
    if length text == size' then text else record_text (length text) k v

-- The key, the value and the rest; `ErrHeader` comes with the whole string as the rest.
pub record PaxRecord : Type 0 where
  pub key : Bytes
  pub value : Bytes
  pub rest : Bytes

-- From `rec`, `nl` and `rem` on.
unfoldable pub split_record : Bytes → Bytes → Bytes → Result PaxRecord
split_record rec nl rem =
    if not (bytes_eq nl (b'\n' ∷ [])) then err err_header else elim (index_byte b'=' rec) [
      | none ↦ err err_header
      | some eq ↦ ok (record { key = take eq rec; value = drop (eq + 1) rec; rest = rem })
    ]

-- The size is an int64 pattern; the slices behind the tests may still be out of range.
unfoldable pub sized_record : Bytes → ℕ → Parsed → Result PaxRecord
sized_record s sp (parsed n) =
    if slt n 5 || slt (length s) n
    then err err_header
    else do rec ← slice (sp + 1) (n - 1) s; nl ← slice (n - 1) n s; split_record rec nl (drop n s)
sized_record s sp syntax_error = err err_header
sized_record s sp range_error = err err_header

unfoldable pub parse_pax_record : Bytes → Result PaxRecord
parse_pax_record s = elim (index_byte b' ' s) [
  | none ↦ err err_header
  | some sp ↦ sized_record s sp (parse_int 10 (take sp s))
]
