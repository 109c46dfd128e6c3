-- ===== src/Tar/Block.antt =====
-- The fields of a header block (tar/format.go), each a slice of the 512 bytes.
pub mod V7
pub mod Gnu
pub mod Star
pub mod Ustar
pub mod SparseNode
pub mod Splice
use arkive.Common.{
  ℕ, zero, suc, ◌+◌, ◌-◌, ◌*◌, ◌/◌, ◌%◌, ◌^◌, ◌≤◌, ◌<◌, min, ◌≡◌, refl, sym, ap, subst, ◌∙◌, ◌≢◌,
  ◌↔◌, ◌⊎◌, inl, inr, Bool, true, false, not, ◌&&◌, ◌||◌, Option, none, some, List, [], ◌∷◌, ◌++◌,
  map, append-nil, append_assoc, arith, Bytes, IsByte, ltb, leb, ◌==◌, if◌then◌else◌, Bool-cases,
  Option-cases, bytes_eq, bytes_eq_iff, length, get_or, take, drop, replicate, length-append,
  take-append-drop, length-take, length-drop, length-replicate, take_append, drop_append, take_all,
  drop_all, drop-drop, drop-append, take-append, get_or-append, All,
}
use arkive.Common.Words.{u16_mod, u32_mod, u64_mod, sign_bit, IsWord, is_neg, add64, sub64, slt}
use arkive.Common.Digits.{
  digits, format_uint, format_int, Parsed, parsed, syntax_error, range_error, is_digit, parse_loop,
  parse_uint, signed, parse_int, All-append, parse_loop-digits, parse_loop-zeros, digits-IsDigit,
  digits-ne-nil, length-digits_mono, length-digits_next, length-digits-le, parse_uint-loop,
  parse_uint-format_uint, parse_int-format_int, parse_int-zeros, digits-zeros,
}
use arkive.Common.Text.{codes, lookup, insert, delete, lookup-insert, lookup-delete}
use arkive.Common.Go.{
  Error, eof, unexpected_eof, err_header, err_field_too_long, err_write_too_long,
  err_write_after_close, err_invalid_header, err_format, err_checksum, err_algorithm, err_long_name,
  err_long_extra, comment_length, too_many_files, negative_offset, missed_bytes, closed_twice,
  write_closed, device, Result, ok, err, panic, stuck, >>=-eq-ok, >>=-ne-stuck, ◌>>=◌, ◌>>◌,
}

pub record Field : Type 0 where
  pub offset : ℕ
  pub size : ℕ

-- `b[f.offset:][:f.size]`
abbrev pub get : Field → Bytes → Bytes
get f b = take f.size (drop f.offset b)

-- The block with the bytes of a field replaced by as many others.
abbrev pub put : Field → Bytes → Bytes → Bytes
put f s b = take f.offset b ++ (s ++ drop (f.offset + f.size) b)

abbrev pub block_size : ℕ
block_size = 512

abbrev pub name_size : ℕ
name_size = 100

abbrev pub prefix_size : ℕ
prefix_size = 155
