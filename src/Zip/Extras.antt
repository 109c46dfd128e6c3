-- ===== src/Zip/Extras.antt =====
-- The extra fields of a directory header: the loop of `readDirectoryHeader` (zip/reader.go) over
-- them. A time is the pair of arguments of `time.Unix`, as int64 patterns.
pub mod Times
pub mod Fields
use arkive.Common.{
  ℕ, zero, suc, ◌+◌, ◌-◌, ◌*◌, ◌/◌, ◌%◌, ◌^◌, ◌≤◌, ◌<◌, min, ◌≡◌, refl, sym, ap, subst, ◌∙◌, ◌≢◌,
  ◌↔◌, ◌⊎◌, inl, inr, Bool, true, false, not, ◌&&◌, ◌||◌, Option, none, some, List, [], ◌∷◌, ◌++◌,
  map, append-nil, append_assoc, arith, Bytes, IsByte, ltb, leb, ◌==◌, if◌then◌else◌, Bool-cases,
  Option-cases, bytes_eq, bytes_eq_iff, length, get_or, take, drop, replicate, length-append,
  take-append-drop, length-take, length-drop, length-replicate, replicate-add, take_append,
  drop_append, take_all, drop_all, drop-drop, drop-append, take-append, get_or-append, All,
}
use arkive.Common.Words.{u16_mod, u32_mod, u64_mod, sign_bit, IsWord, is_neg, add64, sub64, slt}
use arkive.Common.Digits.{
  digits, format_uint, format_int, Parsed, parsed, syntax_error, range_error, is_digit, parse_loop,
  parse_uint, signed, parse_int, All-append, parse_loop-digits, parse_loop-zeros, digits-IsDigit,
  digits-ne-nil, length-digits_mono, length-digits_next, length-digits-le, parse_uint-loop,
  parse_uint-format_uint, parse_int-format_int, parse_int-zeros, digits-zeros,
}
use arkive.Common.Text.{codes, lookup, insert, delete, lookup-insert, lookup-delete}
use arkive.Common.Go.{
  Error, eof, unexpected_eof, err_header, err_field_too_long, err_write_too_long,
  err_write_after_close, err_invalid_header, err_format, err_checksum, err_algorithm, err_long_name,
  err_long_extra, comment_length, too_many_files, negative_offset, missed_bytes, closed_twice,
  write_closed, device, Result, ok, err, panic, stuck, >>=-eq-ok, >>=-ne-stuck, ◌>>=◌, ◌>>◌,
}
use arkive.Zip.Buf.{
  ReadBuf, uint8, uint16, uint32, uint64, sub, skip, put_uint8, put_uint16, put_uint32, put_uint64,
  put_zeros,
}

abbrev pub zip64_extra_id : ℕ
zip64_extra_id = 0x0001

abbrev pub ntfs_extra_id : ℕ
ntfs_extra_id = 0x000a

abbrev pub unix_extra_id : ℕ
unix_extra_id = 0x000d

abbrev pub ext_time_extra_id : ℕ
ext_time_extra_id = 0x5455

abbrev pub info_zip_unix_extra_id : ℕ
info_zip_unix_extra_id = 0x5855

-- The variables of the loop over the extra fields.
pub record Extras : Type 0 where
  pub need_usize : Bool
  pub need_csize : Bool
  pub need_offset : Bool
  pub usize : ℕ
  pub csize : ℕ
  pub header_offset : ℕ
  pub time : Option (ℕ × ℕ)

-- A field of the zip64 block, where it is needed.
unfoldable pub take_size64 : Bool → ℕ → Bytes → Result (ℕ × Bytes)
take_size64 false old b = ok (old, b)
take_size64 true old b = if ltb (length b) 8 then err err_format else uint64 b

unfoldable pub zip64_extra : Bytes → Extras → Result Extras
unfolding take_size64
zip64_extra b x = do
  (usize, b) ← take_size64 x.need_usize x.usize b
  (csize, b) ← take_size64 x.need_csize x.csize b
  (offset, b) ← take_size64 x.need_offset x.header_offset b
  ok (record x {
    need_usize = false;
    need_csize = false;
    need_offset = false;
    usize = usize;
    csize = csize;
    header_offset = offset;
  })

-- Windows ticks to the arguments of `time.Unix`; Go's division of int64 goes to zero.
abbrev pub ticks_per_second : ℕ
ticks_per_second = 10000000

unfoldable pub windows_time : ℕ → ℕ × ℕ
windows_time ts =
    if is_neg ts
    then (
      sub64 (sub64 0 11644473600) ((u64_mod - ts) / ticks_per_second),
      sub64 0 (100 * ((u64_mod - ts) % ticks_per_second)),
    )
    else (sub64 (ts / ticks_per_second) 11644473600, 100 * (ts % ticks_per_second))

-- One NTFS attribute; only the one with the times counts.
unfoldable pub ntfs_attribute : ℕ → ℕ → Bytes → Extras → Result Extras
unfolding windows_time
ntfs_attribute tag size attr x =
    if not (tag == 1) || not (size == 24)
    then ok x
    else do (ts, _) ← uint64 attr; ok (record x { time = some (windows_time ts) })

-- The attributes of an NTFS block; each takes four bytes at least, so the length is fuel enough.
unfoldable pub ntfs_attributes : ℕ → Bytes → Extras → Result Extras
unfolding ntfs_attribute
ntfs_attributes zero b x = ok x
ntfs_attributes (suc fuel) b x = if ltb (length b) 4 then ok x else do
  (tag, b) ← uint16 b
  (size, b) ← uint16 b
  if ltb (length b) size
      then ok x
      else do (attr, b) ← sub size b; x ← ntfs_attribute tag size attr x; ntfs_attributes fuel b x

unfoldable pub ntfs_extra : Bytes → Extras → Result Extras
unfolding ntfs_attributes
ntfs_extra b x =
    if ltb (length b) 4 then ok x else do (_, b) ← uint32 b; ntfs_attributes (length b) b x

unfoldable pub unix_extra : Bytes → Extras → Result Extras
unix_extra b x =
    if ltb (length b) 8
    then ok x
    else do (_, b) ← uint32 b; (ts, _) ← uint32 b; ok (record x { time = some (ts, 0) })

unfoldable pub ext_time_extra : Bytes → Extras → Result Extras
ext_time_extra b x = if ltb (length b) 5 then ok x else do
  (mask, b) ← uint8 b
  if mask % 2 == 0 then ok x else do (ts, _) ← uint32 b; ok (record x { time = some (ts, 0) })

-- The switch on the tag of a field.
unfoldable pub read_extra : ℕ → Bytes → Extras → Result Extras
unfolding zip64_extra ntfs_extra unix_extra ext_time_extra
read_extra tag b x =
    if tag == zip64_extra_id
    then zip64_extra b x
    else if tag == ntfs_extra_id
    then ntfs_extra b x
    else if (tag == unix_extra_id) || (tag == info_zip_unix_extra_id)
    then unix_extra b x
    else if tag == ext_time_extra_id
    then ext_time_extra b x
    else ok x

-- The loop over the fields; each takes four bytes at least, so the length is fuel enough.
unfoldable pub parse_extras : ℕ → Bytes → Extras → Result Extras
unfolding read_extra
parse_extras zero b x = ok x
parse_extras (suc fuel) b x = if ltb (length b) 4 then ok x else do
  (tag, b) ← uint16 b
  (size, b) ← uint16 b
  if ltb (length b) size
      then ok x
      else do (field, b) ← sub size b; x ← read_extra tag field x; parse_extras fuel b x
