-- ===== src/Zip/EndRecord.antt =====
-- The end of central directory record: `directoryEnd` (zip/struct.go), `findSignatureInBlock`,
-- `findDirectory64End`, `readDirectory64End` and `readDirectoryEnd` (zip/reader.go), and the end
-- records that `Writer.Close` (zip/writer.go) writes behind the central directory.
-- A file is the list of its bytes, and `size` is its length; `read_at` is `ReadAt` on such a file.
-- int64 offsets are two's complement patterns, so `-1` is `2 ^ 64 - 1`.
pub mod Search
pub mod Fields
pub mod Locator
pub mod RoundTrip
pub mod RoundTrip64
mod Tests
use arkive.Common.{
  ℕ, zero, suc, ◌+◌, ◌-◌, ◌*◌, ◌/◌, ◌%◌, ◌^◌, ◌≤◌, ◌<◌, min, ◌≡◌, refl, sym, ap, subst, ◌∙◌, ◌≢◌,
  ◌↔◌, ◌⊎◌, inl, inr, Bool, true, false, not, ◌&&◌, ◌||◌, Option, none, some, List, [], ◌∷◌, ◌++◌,
  map, append-nil, append_assoc, arith, Bytes, IsByte, ltb, leb, ◌==◌, if◌then◌else◌, Bool-cases,
  Option-cases, bytes_eq, bytes_eq_iff, length, get_or, take, drop, replicate, length-append,
  take-append-drop, length-take, length-drop, length-replicate, take_append, drop_append, take_all,
  drop_all, drop-drop, drop-append, take-append, get_or-append, All,
}
use arkive.Common.Words.{u16_mod, u32_mod, u64_mod, sign_bit, IsWord, is_neg, add64, sub64, slt}
use arkive.Common.Digits.{
  digits, format_uint, format_int, Parsed, parsed, syntax_error, range_error, is_digit, parse_loop,
  parse_uint, signed, parse_int, All-append, parse_loop-digits, parse_loop-zeros, digits-IsDigit,
  digits-ne-nil, length-digits_mono, length-digits_next, length-digits-le, parse_uint-loop,
  parse_uint-format_uint, parse_int-format_int, parse_int-zeros, digits-zeros,
}
use arkive.Common.Text.{codes, lookup, insert, delete, lookup-insert, lookup-delete}
use arkive.Common.Go.{
  Error, eof, unexpected_eof, err_header, err_field_too_long, err_write_too_long,
  err_write_after_close, err_invalid_header, err_format, err_checksum, err_algorithm, err_long_name,
  err_long_extra, comment_length, too_many_files, negative_offset, missed_bytes, closed_twice,
  write_closed, device, Result, ok, err, panic, stuck, >>=-eq-ok, >>=-ne-stuck, ◌>>=◌, ◌>>◌,
}
use arkive.Zip.Buf.{
  ReadBuf, uint8, uint16, uint32, uint64, sub, skip, put_uint8, put_uint16, put_uint32, put_uint64,
  put_zeros,
}

pub record DirectoryEnd : Type 0 where
  pub disk_nbr : ℕ
  pub dir_disk_nbr : ℕ
  pub dir_records_this_disk : ℕ
  pub directory_records : ℕ
  pub directory_size : ℕ
  pub directory_offset : ℕ
  pub comment_len : ℕ
  pub comment : Bytes
  pub start_skip_len : ℕ

abbrev pub directory_end_signature : ℕ
directory_end_signature = 0x06054b50

abbrev pub directory64_loc_signature : ℕ
directory64_loc_signature = 0x07064b50

abbrev pub directory64_end_signature : ℕ
directory64_end_signature = 0x06064b50

abbrev pub directory_end_len : ℕ
directory_end_len = 22

abbrev pub directory64_loc_len : ℕ
directory64_loc_len = 20

abbrev pub directory64_end_len : ℕ
directory64_end_len = 56

abbrev pub zip_version45 : ℕ
zip_version45 = 45

abbrev pub uint16max : ℕ
uint16max = 2 ^ 16 - 1

abbrev pub uint32max : ℕ
uint32max = 2 ^ 32 - 1

abbrev pub minus_one : ℕ
minus_one = u64_mod - 1

abbrev pub byte_at : Bytes → ℕ → ℕ
byte_at b i = get_or b i 0

-- The body of the loop of `findSignatureInBlock`: the signature, and a comment that fits.
pub has_end_record : Bytes → ℕ → Bool
has_end_record b i =
    byte_at b i == b'P'
    && byte_at b (i + 1) == b'K'
    && byte_at b (i + 2) == 0x05
    && byte_at b (i + 3) == 0x06
    && leb (byte_at b (i + 20) + 256 * byte_at b (i + 21) + directory_end_len + i) (length b)

-- The loop downwards: the argument is one more than the next index.
pub find_down : Bytes → ℕ → Option ℕ
find_down b zero = none
find_down b (suc i) = let rest = find_down b i in if has_end_record b i then some i else rest

-- `none` stands for the result -1.
unfoldable pub find_signature_in_block : Bytes → Option ℕ
unfolding find_down has_end_record
find_signature_in_block b =
    if ltb (length b) directory_end_len
    then none
    else find_down b (suc (length b - directory_end_len))

-- `io.ReaderAt` over a file in memory: a short read is an error.
unfoldable pub read_at : Bytes → ℕ → ℕ → Result Bytes
read_at file off n =
    if is_neg off
    then err negative_offset
    else if ltb (length file) (off + n)
    then err eof
    else ok (take n (drop off file))

pub find_directory64_end : Bytes → ℕ → Result ℕ
find_directory64_end file directory_end_offset =
    if ltb directory_end_offset directory64_loc_len then ok minus_one else do
      b ← read_at file (directory_end_offset - directory64_loc_len) directory64_loc_len
      (sig, b) ← uint32 b
      if not (sig == directory64_loc_signature) then ok minus_one else do
        (disk, b) ← uint32 b
        if not (disk == 0) then ok minus_one else do
          (p, b) ← uint64 b
          (disks, b) ← uint32 b
          ok (if disks == 1 then p else minus_one)

pub read_directory64_end : Bytes → ℕ → DirectoryEnd → Result DirectoryEnd
read_directory64_end file offset d = do
  b ← read_at file offset directory64_end_len
  (sig, b) ← uint32 b
  if not (sig == directory64_end_signature) then err err_format else do
    b ← skip 12 b
    (disk_nbr, b) ← uint32 b
    (dir_disk_nbr, b) ← uint32 b
    (dir_records_this_disk, b) ← uint64 b
    (directory_records, b) ← uint64 b
    (directory_size, b) ← uint64 b
    (directory_offset, b) ← uint64 b
    ok (record d {
      disk_nbr = disk_nbr;
      dir_disk_nbr = dir_disk_nbr;
      dir_records_this_disk = dir_records_this_disk;
      directory_records = directory_records;
      directory_size = directory_size;
      directory_offset = directory_offset;
    })

-- The fields of the record at the front of `buf`, its signature included.
pub read_end_fields : Bytes → Result DirectoryEnd
read_end_fields buf = do
  b ← skip 4 buf
  (disk_nbr, b) ← uint16 b
  (dir_disk_nbr, b) ← uint16 b
  (dir_records_this_disk, b) ← uint16 b
  (directory_records, b) ← uint16 b
  (directory_size, b) ← uint32 b
  (directory_offset, b) ← uint32 b
  (comment_len, b) ← uint16 b
  if ltb (length b) comment_len
      then err comment_length
      else ok (record {
        disk_nbr = disk_nbr;
        dir_disk_nbr = dir_disk_nbr;
        dir_records_this_disk = dir_records_this_disk;
        directory_records = directory_records;
        directory_size = directory_size;
        directory_offset = directory_offset;
        comment_len = comment_len;
        comment = take comment_len b;
        start_skip_len = 0;
      })

pub probably_zip64 : DirectoryEnd → Bool
probably_zip64 d =
    d.directory_records == 0xffff || d.directory_size == 0xffff || d.directory_offset == 0xffffffff

-- The zip64 record and its offset, if there is one.
pub find_zip64 : Bytes → ℕ → DirectoryEnd → Result (Option (ℕ × DirectoryEnd))
find_zip64 file directory_end_offset d = do
  p ← find_directory64_end file directory_end_offset
  if is_neg p then ok none else do d' ← read_directory64_end file p d; ok (some (p, d'))

-- Whether the computed offset lies in the file, and the padding before the archive if it differs
-- from the recorded one.
pub adjust_offset : ℕ → ℕ → DirectoryEnd → DirectoryEnd
adjust_offset size computed d =
    if slt 0 computed && slt computed size && not (computed == d.directory_offset)
    then record d {
      directory_offset = computed;
      start_skip_len = sub64 computed d.directory_offset;
    }
    else d

pub check_offset : ℕ → DirectoryEnd → Result DirectoryEnd
check_offset size d =
    if is_neg d.directory_offset || not (slt d.directory_offset size) then err err_format else ok d

-- The part of `readDirectoryEnd` behind the zip64 lookup.
pub place_directory : ℕ → ℕ → DirectoryEnd → Option (ℕ × DirectoryEnd) → Result DirectoryEnd
place_directory size end_offset d none =
    check_offset size (adjust_offset size (sub64 end_offset d.directory_size) d)
place_directory size end_offset d (some (p, d')) =
    check_offset size (adjust_offset size (sub64 p d'.directory_size) d')

pub place_found : ℕ → ℕ → DirectoryEnd → Result (Option (ℕ × DirectoryEnd)) → Result DirectoryEnd
place_found size end_offset d (ok found) = place_directory size end_offset d found
place_found size end_offset d (err e) =
    if probably_zip64 d then err e else place_directory size end_offset d none
place_found size end_offset d panic = panic
place_found size end_offset d stuck = stuck

pub read_end_at : Bytes → ℕ → Bytes → Result DirectoryEnd
read_end_at file end_offset buf = do
  d ← read_end_fields buf
  place_found (length file) end_offset d (find_zip64 file end_offset d)

-- Where the block that is searched begins: the last 65 KiB of the file.
abbrev pub block_start : ℕ → ℕ
block_start size = size - min (65 * 1024) size

-- From the place of the end record in the block that was searched.
read_block : Bytes → ℕ → Bytes → Option ℕ → Result DirectoryEnd
read_block file start buf none = err err_format
read_block file start buf (some p) = read_end_at file (start + p) (drop p buf)

unfoldable pub read_directory_end : Bytes → Result DirectoryEnd
unfolding read_block
read_directory_end file =
    let start = block_start (length file) in
    let buf = drop start file in read_block file start buf (find_signature_in_block buf)

-- The end record of `Writer.Close`.
unfoldable pub put_end_record : ℕ → ℕ → ℕ → Bytes → Bytes
put_end_record records size offset comment = put_uint32 directory_end_signature (
    put_zeros 4 (
      put_uint16 records (
        put_uint16 records
          (put_uint32 size (put_uint32 offset (put_uint16 (length comment) comment))))))

-- The zip64 end record.
pub put_end64_record : ℕ → ℕ → ℕ → Bytes → Bytes
put_end64_record records size offset rest = put_uint32 directory64_end_signature (
    put_uint64 (directory64_end_len - 12) (
      put_uint16 zip_version45 (
        put_uint16 zip_version45 (
          put_uint32 0 (
            put_uint32 0 (
              put_uint64 records
                (put_uint64 records (put_uint64 size (put_uint64 offset rest)))))))))

-- Its locator; `end` is where the central directory ends.
pub put_locator : ℕ → Bytes → Bytes
put_locator end rest =
    put_uint32 directory64_loc_signature (put_uint32 0 (put_uint64 end (put_uint32 1 rest)))

abbrev pub needs_zip64 : ℕ → ℕ → ℕ → Bool
needs_zip64 records size offset =
    leb uint16max records || leb uint32max size || leb uint32max offset

-- `start` and `end` are the writer's count before and behind the central directory.
pub end_records : ℕ → ℕ → ℕ → Bytes → Bytes
end_records records start end comment =
    if needs_zip64 records (end - start) start
    then put_end64_record records (end - start) start
        (put_locator end (put_end_record uint16max uint32max uint32max comment))
    else put_end_record records (end - start) start comment
