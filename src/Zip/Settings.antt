-- ===== src/Zip/Settings.antt =====
-- The settings of the compressors (zip/register.go) and how the writer takes them (zip/writer.go).
pub mod Valid
mod Tests
use arkive.Common.{
  ℕ, zero, suc, ◌+◌, ◌-◌, ◌*◌, ◌/◌, ◌%◌, ◌^◌, ◌≤◌, ◌<◌, min, ◌≡◌, refl, sym, ap, subst, ◌∙◌, ◌≢◌,
  ◌↔◌, ◌⊎◌, inl, inr, Bool, true, false, not, ◌&&◌, ◌||◌, Option, none, some, List, [], ◌∷◌, ◌++◌,
  map, append-nil, append_assoc, arith, Bytes, IsByte, ltb, leb, ◌==◌, if◌then◌else◌, Bool-cases,
  Option-cases, bytes_eq, bytes_eq_iff, length, get_or, take, drop, replicate, length-append,
  take-append-drop, length-take, length-drop, length-replicate, replicate-add, take_append,
  drop_append, take_all, drop_all, drop-drop, drop-append, take-append, get_or-append, All,
}
use arkive.Common.Words.{u16_mod, u32_mod, u64_mod, sign_bit, IsWord, is_neg, add64, sub64, slt}
use arkive.Common.Digits.{
  digits, format_uint, format_int, Parsed, parsed, syntax_error, range_error, is_digit, parse_loop,
  parse_uint, signed, parse_int, All-append, parse_loop-digits, parse_loop-zeros, digits-IsDigit,
  digits-ne-nil, length-digits_mono, length-digits_next, length-digits-le, parse_uint-loop,
  parse_uint-format_uint, parse_int-format_int, parse_int-zeros, digits-zeros,
}
use arkive.Common.Text.{codes, lookup, insert, delete, lookup-insert, lookup-delete}
use arkive.Common.Go.{
  Error, eof, unexpected_eof, err_header, err_field_too_long, err_write_too_long,
  err_write_after_close, err_invalid_header, err_format, err_checksum, err_algorithm, err_long_name,
  err_long_extra, comment_length, too_many_files, negative_offset, missed_bytes, closed_twice,
  write_closed, device, Result, ok, err, panic, stuck, >>=-eq-ok, >>=-ne-stuck, ◌>>=◌, ◌>>◌,
}

-- The fields are int64 patterns.
pub record FlateSettings : Type 0 where
  pub level : ℕ
  pub block_size : ℕ
  pub blocks : ℕ

-- `flate.DefaultCompression` is -1, `flate.BestCompression` is 9.
abbrev pub default_compression_settings : FlateSettings
default_compression_settings = record { level = u64_mod - 1; block_size = 256 * 1024; blocks = 16 }

abbrev pub best_compression_settings : FlateSettings
best_compression_settings = record { level = 9; block_size = 512 * 1024; blocks = 16 }

-- The error messages differ; each stands for `err_invalid_header` here.
unfoldable pub validate : FlateSettings → Option Error
validate fs =
    if slt fs.level (u64_mod - 2) || slt 9 fs.level
    then some err_invalid_header
    else if not (slt 0 fs.blocks)
    then some err_invalid_header
    else if not (slt 16384 fs.block_size)
    then some err_invalid_header
    else none

unfoldable pub keep_valid : Option Error → FlateSettings → FlateSettings → FlateSettings
keep_valid none old fs = fs
keep_valid (some e) old fs = old

-- `SetCompressionSettings`: the error, and the settings of the writer after it.
unfoldable pub set_compression_settings :
    FlateSettings → FlateSettings → Option Error × FlateSettings
unfolding validate keep_valid
set_compression_settings old fs = (validate fs, keep_valid (validate fs) old fs)
