-- ===== src/Zip/Archive.antt =====
-- A whole archive: `Reader.init` (zip/reader.go), behind what `Writer.Close` (zip/writer.go) writes.
-- The detection of name encodings that ends `init` calls third-party packages: it is a parameter,
-- `normalize`, from the files to the files.
pub mod RoundTrip
mod Tests
use arkive.Common.{
  ℕ, zero, suc, ◌+◌, ◌-◌, ◌*◌, ◌/◌, ◌%◌, ◌^◌, ◌≤◌, ◌<◌, min, ◌≡◌, refl, sym, ap, subst, ◌∙◌, ◌≢◌,
  ◌↔◌, ◌⊎◌, inl, inr, Bool, true, false, not, ◌&&◌, ◌||◌, Option, none, some, List, [], ◌∷◌, ◌++◌,
  map, append-nil, append_assoc, arith, Bytes, IsByte, ltb, leb, ◌==◌, if◌then◌else◌, Bool-cases,
  Option-cases, bytes_eq, bytes_eq_iff, length, get_or, take, drop, replicate, length-append,
  take-append-drop, length-take, length-drop, length-replicate, replicate-add, take_append,
  drop_append, take_all, drop_all, drop-drop, drop-append, take-append, get_or-append, All,
}
use arkive.Common.Words.{u16_mod, u32_mod, u64_mod, sign_bit, IsWord, is_neg, add64, sub64, slt}
use arkive.Common.Digits.{
  digits, format_uint, format_int, Parsed, parsed, syntax_error, range_error, is_digit, parse_loop,
  parse_uint, signed, parse_int, All-append, parse_loop-digits, parse_loop-zeros, digits-IsDigit,
  digits-ne-nil, length-digits_mono, length-digits_next, length-digits-le, parse_uint-loop,
  parse_uint-format_uint, parse_int-format_int, parse_int-zeros, digits-zeros,
}
use arkive.Common.Text.{codes, lookup, insert, delete, lookup-insert, lookup-delete}
use arkive.Common.Go.{
  Error, eof, unexpected_eof, err_header, err_field_too_long, err_write_too_long,
  err_write_after_close, err_invalid_header, err_format, err_checksum, err_algorithm, err_long_name,
  err_long_extra, comment_length, too_many_files, negative_offset, missed_bytes, closed_twice,
  write_closed, device, Result, ok, err, panic, stuck, >>=-eq-ok, >>=-ne-stuck, ◌>>=◌, ◌>>◌,
}
use arkive.Zip.EndRecord.{
  DirectoryEnd, directory_end_signature, directory64_loc_signature, directory64_end_signature,
  directory_end_len, directory64_loc_len, directory64_end_len, zip_version45, uint16max, uint32max,
  minus_one, byte_at, has_end_record, find_down, find_signature_in_block, read_at,
  find_directory64_end, read_directory64_end, read_end_fields, probably_zip64, find_zip64,
  adjust_offset, check_offset, place_directory, place_found, read_end_at, block_start,
  read_directory_end, put_end_record, put_end64_record, put_locator, needs_zip64, end_records,
}
use arkive.Zip.Checksum.{
  Hash, data_descriptor_signature, file_header_signature, file_header_len, read_full,
  read_data_descriptor, data_descriptor, find_body_offset, Expected, is_end, descriptor_verdict,
  sum_verdict, at_end, ChecksumReader, ChecksumAnswer, Reader, answered, updated, checksum_read_if,
  checksum_read,
}
use arkive.Zip.Directory.{
  FileHeader, directory_header_signature, directory_header_len, is_non_utf8, finish_header,
  first_extras, read_extras, with_names, read_names, read_fixed, read_directory_header,
  ends_directory, stop_directory, read_on, read_headers, needs_zip64_extra, put_zip64_extra,
  written_header, offset32, put_fixed, put_directory_header, put_directory,
}

abbrev pub Normalize : Type 0
Normalize = List (FileHeader × ℕ) → Result (List (FileHeader × ℕ))

-- The end of `init`: only 16 bits of the count are compared.
unfoldable pub checked_files :
    Normalize → ℕ → Bytes → List (FileHeader × ℕ) → Error → Result (List (FileHeader × ℕ) × Bytes)
checked_files normalize records comment files e =
    if length files % u16_mod == records % u16_mod
    then (normalize files >>= λ files. ok (files, comment))
    else err e

-- The files, with their headers' offsets in the file, and the comment. A directory that starts at a
-- negative offset or behind the end is refused by `readDirectoryEnd` before the seek.
unfoldable pub init_reader : Normalize → Bytes → Result (List (FileHeader × ℕ) × Bytes)
unfolding checked_files
init_reader normalize file = do
  end ← read_directory_end file
  if ltb (length file / file_header_len) end.directory_records then err too_many_files else do
    (files, e) ←
        read_headers (suc (length file)) end.start_skip_len (drop end.directory_offset file)
    checked_files normalize end.directory_records end.comment files e
