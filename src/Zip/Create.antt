-- ===== src/Zip/Create.antt =====
-- What `Writer.CreateHeader` (zip/writer.go) does with a header, the local header that `writeHeader`
-- writes, and the MS-DOS times of zip/struct.go.
pub mod DosTime
pub mod LocalHeader
mod Tests
use arkive.Common.{
  ℕ, zero, suc, ◌+◌, ◌-◌, ◌*◌, ◌/◌, ◌%◌, ◌^◌, ◌≤◌, ◌<◌, min, ◌≡◌, refl, sym, ap, subst, ◌∙◌, ◌≢◌,
  ◌↔◌, ◌⊎◌, inl, inr, Bool, true, false, not, ◌&&◌, ◌||◌, Option, none, some, List, [], ◌∷◌, ◌++◌,
  map, append-nil, append_assoc, arith, Bytes, IsByte, ltb, leb, ◌==◌, if◌then◌else◌, Bool-cases,
  Option-cases, bytes_eq, bytes_eq_iff, length, get_or, take, drop, replicate, length-append,
  take-append-drop, length-take, length-drop, length-replicate, replicate-add, take_append,
  drop_append, take_all, drop_all, drop-drop, drop-append, take-append, get_or-append, All,
}
use arkive.Common.Words.{u16_mod, u32_mod, u64_mod, sign_bit, IsWord, is_neg, add64, sub64, slt}
use arkive.Common.Digits.{
  digits, format_uint, format_int, Parsed, parsed, syntax_error, range_error, is_digit, parse_loop,
  parse_uint, signed, parse_int, All-append, parse_loop-digits, parse_loop-zeros, digits-IsDigit,
  digits-ne-nil, length-digits_mono, length-digits_next, length-digits-le, parse_uint-loop,
  parse_uint-format_uint, parse_int-format_int, parse_int-zeros, digits-zeros,
}
use arkive.Common.Text.{codes, lookup, insert, delete, lookup-insert, lookup-delete}
use arkive.Common.Go.{
  Error, eof, unexpected_eof, err_header, err_field_too_long, err_write_too_long,
  err_write_after_close, err_invalid_header, err_format, err_checksum, err_algorithm, err_long_name,
  err_long_extra, comment_length, too_many_files, negative_offset, missed_bytes, closed_twice,
  write_closed, device, Result, ok, err, panic, stuck, >>=-eq-ok, >>=-ne-stuck, ◌>>=◌, ◌>>◌,
}
use arkive.Zip.Buf.{
  ReadBuf, uint8, uint16, uint32, uint64, sub, skip, put_uint8, put_uint16, put_uint32, put_uint64,
  put_zeros,
}
use arkive.Zip.EndRecord.{
  DirectoryEnd, directory_end_signature, directory64_loc_signature, directory64_end_signature,
  directory_end_len, directory64_loc_len, directory64_end_len, zip_version45, uint16max, uint32max,
  minus_one, byte_at, has_end_record, find_down, find_signature_in_block, read_at,
  find_directory64_end, read_directory64_end, read_end_fields, probably_zip64, find_zip64,
  adjust_offset, check_offset, place_directory, place_found, read_end_at, block_start,
  read_directory_end, put_end_record, put_end64_record, put_locator, needs_zip64, end_records,
}
use arkive.Zip.Checksum.{
  Hash, data_descriptor_signature, file_header_signature, file_header_len, read_full,
  read_data_descriptor, data_descriptor, find_body_offset, Expected, is_end, descriptor_verdict,
  sum_verdict, at_end, ChecksumReader, ChecksumAnswer, Reader, answered, updated, checksum_read_if,
  checksum_read,
}
use arkive.Zip.Encoding.{
  rune_error, between, second_low, second_high, is_second, decode_multi, decode_rune, is_plain,
  detect_loop, detect_utf8,
}
use arkive.Zip.Extras.{
  zip64_extra_id, ntfs_extra_id, unix_extra_id, ext_time_extra_id, info_zip_unix_extra_id, Extras,
  take_size64, zip64_extra, ticks_per_second, windows_time, ntfs_attribute, ntfs_attributes,
  ntfs_extra, unix_extra, ext_time_extra, read_extra, parse_extras,
}
use arkive.Zip.Directory.{
  FileHeader, directory_header_signature, directory_header_len, is_non_utf8, finish_header,
  first_extras, read_extras, with_names, read_names, read_fixed, read_directory_header,
  ends_directory, stop_directory, read_on, read_headers, needs_zip64_extra, put_zip64_extra,
  written_header, offset32, put_fixed, put_directory_header, put_directory,
}

-- The fields of a time: what its methods give, and the arguments of `time.Date`.
pub record DateTime : Type 0 where
  pub year : ℕ
  pub month : ℕ
  pub day : ℕ
  pub hour : ℕ
  pub minute : ℕ
  pub second : ℕ

-- `timeToMsDosTime`; a year before 1980 wraps around, as the conversion to uint16 does.
unfoldable pub time_to_ms_dos_time : DateTime → ℕ × ℕ
time_to_ms_dos_time t = (
  (t.day + t.month * 32 + (t.year + (u16_mod - 1980)) * 512) % u16_mod,
  (t.second / 2 + t.minute * 32 + t.hour * 2048) % u16_mod,
)

unfoldable pub ms_dos_time_to_time : ℕ → ℕ → DateTime
ms_dos_time_to_time date time = record {
  year = date / 512 + 1980;
  month = date / 32 % 16;
  day = date % 32;
  hour = time / 2048;
  minute = time / 32 % 64;
  second = time % 32 * 2;
}

-- `x | bit` and `x &^ bit`, for a power of two.
unfoldable pub set_bit : ℕ → ℕ → ℕ
set_bit bit x = if x / bit % 2 == 1 then x else x + bit

unfoldable pub clear_bit : ℕ → ℕ → ℕ
clear_bit bit x = if x / bit % 2 == 1 then x - bit else x

-- The flags: a data descriptor follows, and whether the names are UTF-8.
unfoldable pub create_flags : Bool → Bool × Bool → Bool × Bool → ℕ → ℕ
unfolding set_bit clear_bit
create_flags non_utf8 (valid1, require1) (valid2, require2) flags =
    if non_utf8
    then clear_bit 0x800 (set_bit 8 flags)
    else if (require1 || require2) && (valid1 && valid2)
    then set_bit 0x800 (set_bit 8 flags)
    else set_bit 8 flags

abbrev pub zip_version20 : ℕ
zip_version20 = 20

-- The extended timestamp.
unfoldable pub put_ext_time : ℕ → Bytes
put_ext_time unix = put_uint16 ext_time_extra_id (put_uint16 5 (put_uint8 1 (put_uint32 unix [])))

unfoldable pub with_time : Option (ℕ × DateTime) → FileHeader → FileHeader
unfolding time_to_ms_dos_time put_ext_time
with_time none h = h
with_time (some (unix, t)) h = record h {
  modified_date = (time_to_ms_dos_time t).0;
  modified_time = (time_to_ms_dos_time t).1;
  extra = h.extra ++ put_ext_time unix;
}

-- The header that `CreateHeader` puts in the directory; a zero `Modified` is `none`.
unfoldable pub prepare_header : Option (ℕ × DateTime) → FileHeader → FileHeader
unfolding create_flags with_time detect_utf8
prepare_header modified h = with_time modified (record h {
  flags = create_flags h.non_utf8 (detect_utf8 h.name) (detect_utf8 h.comment) h.flags;
  creator_version = h.creator_version / 256 * 256 + zip_version20;
  reader_version = zip_version20;
})

-- The bytes of `writeHeader`, with sums and sizes left to the data descriptor.
unfoldable pub put_file_header : FileHeader → Bytes
put_file_header h = put_uint32 file_header_signature (
    put_uint16 h.reader_version (
      put_uint16 h.flags (
        put_uint16 h.method (
          put_uint16 h.modified_time (
            put_uint16 h.modified_date (
              put_uint32 0 (
                put_uint32 0 (
                  put_uint32 0 (
                    put_uint16 (length h.name)
                      (put_uint16 (length h.extra) (h.name ++ h.extra)))))))))))

unfoldable pub write_header : FileHeader → Result Bytes
unfolding put_file_header
write_header h =
    if ltb uint16max (length h.name)
    then err err_long_name
    else if ltb uint16max (length h.extra)
    then err err_long_extra
    else ok (put_file_header h)

-- `SetComment`.
unfoldable pub set_comment : Bytes → Result Bytes
set_comment comment = if ltb uint16max (length comment) then err comment_length else ok comment
