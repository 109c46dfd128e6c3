-- ===== src/Zip/Checksum.antt =====
-- `checksumReader`, `readDataDescriptor` and `findBodyOffset` (zip/reader.go), and the descriptor
-- that `fileWriter.close` writes (zip/writer.go).
pub mod Descriptor
pub mod Reads
mod Tests
use arkive.Common.{
  ℕ, zero, suc, ◌+◌, ◌-◌, ◌*◌, ◌/◌, ◌%◌, ◌^◌, ◌≤◌, ◌<◌, min, ◌≡◌, refl, sym, ap, subst, ◌∙◌, ◌≢◌,
  ◌↔◌, ◌⊎◌, inl, inr, Bool, true, false, not, ◌&&◌, ◌||◌, Option, none, some, List, [], ◌∷◌, ◌++◌,
  map, append-nil, append_assoc, arith, Bytes, IsByte, ltb, leb, ◌==◌, if◌then◌else◌, Bool-cases,
  Option-cases, bytes_eq, bytes_eq_iff, length, get_or, take, drop, replicate, length-append,
  take-append-drop, length-take, length-drop, length-replicate, replicate-add, take_append,
  drop_append, take_all, drop_all, drop-drop, drop-append, take-append, get_or-append, All,
}
use arkive.Common.Words.{u16_mod, u32_mod, u64_mod, sign_bit, IsWord, is_neg, add64, sub64, slt}
use arkive.Common.Digits.{
  digits, format_uint, format_int, Parsed, parsed, syntax_error, range_error, is_digit, parse_loop,
  parse_uint, signed, parse_int, All-append, parse_loop-digits, parse_loop-zeros, digits-IsDigit,
  digits-ne-nil, length-digits_mono, length-digits_next, length-digits-le, parse_uint-loop,
  parse_uint-format_uint, parse_int-format_int, parse_int-zeros, digits-zeros,
}
use arkive.Common.Text.{codes, lookup, insert, delete, lookup-insert, lookup-delete}
use arkive.Common.Go.{
  Error, eof, unexpected_eof, err_header, err_field_too_long, err_write_too_long,
  err_write_after_close, err_invalid_header, err_format, err_checksum, err_algorithm, err_long_name,
  err_long_extra, comment_length, too_many_files, negative_offset, missed_bytes, closed_twice,
  write_closed, device, Result, ok, err, panic, stuck, >>=-eq-ok, >>=-ne-stuck, ◌>>=◌, ◌>>◌,
}
use arkive.Tar.Source.{Answer, Source, chunk_read, chunk_read-eof, chunked}
use arkive.Zip.Buf.{
  ReadBuf, uint8, uint16, uint32, uint64, sub, skip, put_uint8, put_uint16, put_uint32, put_uint64,
  put_zeros,
}
use arkive.Zip.EndRecord.{
  DirectoryEnd, directory_end_signature, directory64_loc_signature, directory64_end_signature,
  directory_end_len, directory64_loc_len, directory64_end_len, zip_version45, uint16max, uint32max,
  minus_one, byte_at, has_end_record, find_down, find_signature_in_block, read_at,
  find_directory64_end, read_directory64_end, read_end_fields, probably_zip64, find_zip64,
  adjust_offset, check_offset, place_directory, place_found, read_end_at, block_start,
  read_directory_end, put_end_record, put_end64_record, put_locator, needs_zip64, end_records,
}

-- `hash.Hash32`: the sum of the bytes written, however they were cut into writes.
pub record Hash : Type 1 where
  pub State : Type 0
  pub start : State
  pub write : State → Bytes → State
  pub sum32 : State → ℕ
  pub write_nil : (s : State) → write s [] ≡ s
  pub write_append : (s : State) (a b : Bytes) → write (write s a) b ≡ write s (a ++ b)

abbrev pub data_descriptor_signature : ℕ
data_descriptor_signature = 0x08074b50

abbrev pub file_header_signature : ℕ
file_header_signature = 0x04034b50

abbrev pub file_header_len : ℕ
file_header_len = 30

-- `io.ReadFull` from a section of the file, for `n > 0`.
unfoldable pub read_full : ℕ → Bytes → Result (Bytes × Bytes)
read_full n b =
    if ltb (length b) n
    then err (if length b == 0 then eof else unexpected_eof)
    else ok (take n b, drop n b)

-- Without the signature, the four bytes read first are the checksum.
unfoldable pub read_data_descriptor : Bytes → ℕ → Result (Unit {0})
unfolding read_full
read_data_descriptor b crc = do
  (first, b) ← read_full 4 b
  (maybe_sig, _) ← uint32 first
  let marked = maybe_sig == data_descriptor_signature
  (rest, _) ← read_full (if marked then 12 else 8) b
  (crc32, _) ← uint32 (if marked then rest else first ++ rest)
  if crc32 == crc then ok tt else err err_checksum

-- The descriptor of `fileWriter.close`; the sizes have 64 bits in a zip64 entry.
unfoldable pub data_descriptor : ℕ → ℕ → ℕ → Bool → Bytes
data_descriptor crc compressed uncompressed zip64 = put_uint32 data_descriptor_signature (
    put_uint32 crc (
      if zip64
      then put_uint64 compressed (put_uint64 uncompressed [])
      else put_uint32 compressed (put_uint32 uncompressed [])))

-- The offset of a file's data behind its local header.
unfoldable pub find_body_offset : Bytes → ℕ → Result ℕ
find_body_offset file header_offset = do
  b ← read_at file header_offset file_header_len
  (sig, b) ← uint32 b
  if not (sig == file_header_signature) then err err_format else do
    b ← skip 22 b
    (filename_len, b) ← uint16 b
    (extra_len, b) ← uint16 b
    ok (file_header_len + filename_len + extra_len)

-- The fields of the file's header that the reader compares with.
pub record Expected : Type 0 where
  pub uncompressed_size64 : ℕ
  pub crc32 : ℕ
  pub descriptor : Option Bytes

pub is_end : Option Error → Bool
is_end (some eof) = true
is_end _ = false

-- After the descriptor was read; `same` is whether the sums agree. It never panics.
pub descriptor_verdict : Result (Unit {0}) → Bool → Error
descriptor_verdict (ok _) same = if same then eof else err_checksum
descriptor_verdict (err e) same = if is_end (some e) then unexpected_eof else e
descriptor_verdict panic same = device
descriptor_verdict stuck same = device

pub sum_verdict : Option Bytes → ℕ → ℕ → Error
sum_verdict none crc sum = if not (crc == 0) && not (sum == crc) then err_checksum else eof
sum_verdict (some d) crc sum = descriptor_verdict (read_data_descriptor d crc) (sum == crc)

-- The checks at the end of the data; the sum is that of all bytes read.
unfoldable pub at_end : Expected → ℕ → ℕ → Error
unfolding sum_verdict descriptor_verdict is_end
at_end f nread sum =
    if not (nread == f.uncompressed_size64)
    then unexpected_eof
    else sum_verdict f.descriptor f.crc32 sum

pub record ChecksumReader (S H : Type 0) : Type 0 where
  pub stream : S
  pub hash : H
  pub nread : ℕ
  pub error : Option Error

pub record ChecksumAnswer (S H : Type 0) : Type 0 where
  pub bytes : Bytes
  pub error : Option Error
  pub reader : ChecksumReader S H

module _ (src : Source) (hash : Hash) (f : Expected) where
  open src use {State, read}

  abbrev pub Reader : Type 0
  Reader = ChecksumReader State hash.State

  -- The answer `a` of the reader under it, with the hash and the count brought up to date in `r`.
  unfoldable pub answered : Reader → Answer State → ChecksumAnswer State hash.State
  answered r a =
      let verdict = at_end f r.nread (hash.sum32 r.hash) in
      if not (is_end a.error)
      then record { bytes = a.bytes; error = a.error; reader = record r { error = a.error } }
      else if not (r.nread == f.uncompressed_size64)
      then record { bytes = []; error = some verdict; reader = r }
      else record {
        bytes = a.bytes;
        error = some verdict;
        reader = record r { error = some verdict };
      }

  abbrev pub updated : Reader → Answer State → Reader
  updated r a = record {
    stream = a.state;
    hash = hash.write r.hash a.bytes;
    nread = add64 r.nread (length a.bytes);
    error = none;
  }

  unfoldable pub checksum_read_if : Option Error → Reader → ℕ → ChecksumAnswer State hash.State
  unfolding answered
  checksum_read_if none r n = let a = read r.stream n in answered (updated r a) a
  checksum_read_if (some e) r n = record { bytes = []; error = some e; reader = r }

  unfoldable pub checksum_read : Reader → ℕ → ChecksumAnswer State hash.State
  unfolding checksum_read_if
  checksum_read r n = checksum_read_if r.error r n
