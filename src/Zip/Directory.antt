-- ===== src/Zip/Directory.antt =====
-- The central directory of a zip archive: `FileHeader` (zip/struct.go), `readDirectoryHeader` and
-- the loop of `Reader.init` (zip/reader.go), and what `Writer.Close` writes for each file
-- (zip/writer.go). A time is the pair of arguments of `time.Unix`, as int64 patterns, of the last
-- extended timestamp; the time zone that is worked out from the MS-DOS time is left out.
pub mod Sizes
pub mod ReadSizes
pub mod RoundTrip
use arkive.Common.{
  ℕ, zero, suc, ◌+◌, ◌/◌, ◌%◌, Bool, true, false, not, ◌&&◌, ◌||◌, Option, none, List, [], ◌∷◌,
  ◌++◌, Bytes, ltb, leb, ◌==◌, if◌then◌else◌, length, take, drop,
}
use arkive.Common.Words.{add64}
use arkive.Common.Go.{Error, unexpected_eof, err_format, Result, ok, err, panic, stuck, ◌>>=◌}
use arkive.Zip.Extras.{zip64_extra_id, Extras, parse_extras}
use arkive.Zip.Encoding.{detect_utf8}
use arkive.Zip.FileWriter.{is_zip64}
use arkive.Zip.Checksum.{read_full}
use arkive.Zip.EndRecord.{uint32max}
use arkive.Zip.Buf.{uint16, uint32, skip, put_uint16, put_uint32, put_uint64, put_zeros}

pub record FileHeader : Type 0 where
  pub name : Bytes
  pub comment : Bytes
  pub non_utf8 : Bool
  pub creator_version : ℕ
  pub reader_version : ℕ
  pub flags : ℕ
  pub method : ℕ
  pub modified : Option (ℕ × ℕ)
  pub modified_time : ℕ
  pub modified_date : ℕ
  pub crc32 : ℕ
  pub compressed_size : ℕ
  pub uncompressed_size : ℕ
  pub compressed_size64 : ℕ
  pub uncompressed_size64 : ℕ
  pub extra : Bytes
  pub external_attrs : ℕ

abbrev pub directory_header_signature : ℕ
directory_header_signature = 0x02014b50

abbrev pub directory_header_len : ℕ
directory_header_len = 46

-- `f.NonUTF8`, from what `detectUTF8` says of the name and of the comment.
unfoldable pub is_non_utf8 : Bool × Bool → Bool × Bool → ℕ → Bool
is_non_utf8 (valid1, require1) (valid2, require2) flags =
    if not valid1 || not valid2
    then true
    else if not require1 && not require2
    then false
    else (flags / 0x800) % 2 == 0

-- Behind the loop over the extra fields: the header, with its offset.
unfoldable pub finish_header : FileHeader → Extras → Result (FileHeader × ℕ)
finish_header h x =
    if x.need_csize || x.need_offset
    then err err_format
    else ok (
      record h { uncompressed_size64 = x.usize; compressed_size64 = x.csize; modified = x.time },
      x.header_offset,
    )

-- The loop over the extra fields, for a header with its 32-bit sizes and offset.
unfoldable pub first_extras : FileHeader → ℕ → Extras
first_extras h offset = record {
  need_usize = h.uncompressed_size == uint32max;
  need_csize = h.compressed_size == uint32max;
  need_offset = offset == uint32max;
  usize = h.uncompressed_size;
  csize = h.compressed_size;
  header_offset = offset;
  time = none;
}

unfoldable pub read_extras : FileHeader → ℕ → Result (FileHeader × ℕ)
unfolding finish_header parse_extras first_extras
read_extras h offset = do
  x ← parse_extras (length h.extra) h.extra (first_extras h offset)
  finish_header h x

-- The name, the extra fields and the comment, behind the fixed part.
unfoldable pub with_names : FileHeader → Bytes → Bytes → Bytes → FileHeader
unfolding is_non_utf8 detect_utf8
with_names h name extra comment = record h {
  name = name;
  extra = extra;
  comment = comment;
  non_utf8 = is_non_utf8 (detect_utf8 name) (detect_utf8 comment) h.flags;
}

unfoldable pub read_names : FileHeader → ℕ → ℕ → ℕ → ℕ → Bytes → Result ((FileHeader × ℕ) × Bytes)
unfolding with_names read_extras read_full
read_names h filename_len extra_len comment_len offset r = do
  (d, r) ← read_full (filename_len + extra_len + comment_len) r
  header ←
      read_extras
        (with_names h (take filename_len d) (take extra_len (drop filename_len d))
          (drop (filename_len + extra_len) d))
        offset
  ok (header, r)

-- The fixed part, `b`, with the rest of the directory, `r`.
unfoldable pub read_fixed : Bytes → Bytes → Result ((FileHeader × ℕ) × Bytes)
unfolding read_names
read_fixed b r = do
  (sig, b) ← uint32 b
  if not (sig == directory_header_signature) then err err_format else do
    (creator_version, b) ← uint16 b
    (reader_version, b) ← uint16 b
    (flags, b) ← uint16 b
    (method, b) ← uint16 b
    (modified_time, b) ← uint16 b
    (modified_date, b) ← uint16 b
    (crc32, b) ← uint32 b
    (compressed_size, b) ← uint32 b
    (uncompressed_size, b) ← uint32 b
    (filename_len, b) ← uint16 b
    (extra_len, b) ← uint16 b
    (comment_len, b) ← uint16 b
    b ← skip 4 b
    (external_attrs, b) ← uint32 b
    (offset, _) ← uint32 b
    read_names
        (record {
          name = [];
          comment = [];
          non_utf8 = false;
          creator_version = creator_version;
          reader_version = reader_version;
          flags = flags;
          method = method;
          modified = none;
          modified_time = modified_time;
          modified_date = modified_date;
          crc32 = crc32;
          compressed_size = compressed_size;
          uncompressed_size = uncompressed_size;
          compressed_size64 = compressed_size;
          uncompressed_size64 = uncompressed_size;
          extra = [];
          external_attrs = external_attrs;
        })
        filename_len extra_len comment_len offset r

unfoldable pub read_directory_header : Bytes → Result ((FileHeader × ℕ) × Bytes)
unfolding read_fixed read_full
read_directory_header r = do (b, r) ← read_full directory_header_len r; read_fixed b r

-- The errors that end the loop of `Reader.init`, which are reported only if the count is wrong.
unfoldable pub ends_directory : Error → Bool
ends_directory err_format = true
ends_directory unexpected_eof = true
ends_directory _ = false

unfoldable pub stop_directory : Error → Result (List (FileHeader × ℕ) × Error)
unfolding ends_directory
stop_directory e = if ends_directory e then ok ([], e) else err e

-- One round, where `again` is the rest of the loop; the offset is moved by the data in front.
unfoldable pub read_on :
    ℕ
    → Result ((FileHeader × ℕ) × Bytes)
    → (Bytes → Result (List (FileHeader × ℕ) × Error))
    → Result (List (FileHeader × ℕ) × Error)
unfolding stop_directory
read_on skip_len panic again = panic
read_on skip_len stuck again = stuck
read_on skip_len (err e) again = stop_directory e
read_on skip_len (ok ((h, offset), r)) again = do
  (files, e) ← again r
  ok ((h, add64 offset skip_len) ∷ files, e)

-- The loop; each header takes 46 bytes, so the length of the directory is fuel enough.
unfoldable pub read_headers : ℕ → ℕ → Bytes → Result (List (FileHeader × ℕ) × Error)
unfolding read_directory_header read_on
read_headers zero skip_len r = stuck
read_headers (suc fuel) skip_len r =
    read_on skip_len (read_directory_header r) (read_headers fuel skip_len)

-- What `Writer.Close` writes: the zip64 block, which it puts behind the extra fields.
unfoldable pub needs_zip64_extra : FileHeader → ℕ → Bool
needs_zip64_extra h offset =
    is_zip64 h.compressed_size64 h.uncompressed_size64 || leb uint32max offset

unfoldable pub put_zip64_extra : FileHeader → ℕ → Bytes → Bytes
put_zip64_extra h offset rest = put_uint16 zip64_extra_id (
    put_uint16 24
      (put_uint64 h.uncompressed_size64 (put_uint64 h.compressed_size64 (put_uint64 offset rest))))

-- The header with the changes that `Close` makes.
unfoldable pub written_header : FileHeader → ℕ → FileHeader
unfolding needs_zip64_extra put_zip64_extra
written_header h offset =
    if needs_zip64_extra h offset
    then record h {
      compressed_size = uint32max;
      uncompressed_size = uint32max;
      extra = h.extra ++ put_zip64_extra h offset [];
    }
    else h

unfoldable pub offset32 : ℕ → ℕ
offset32 offset = if ltb uint32max offset then uint32max else offset

-- The fixed part and the names of a header with its sizes.
unfoldable pub put_fixed : FileHeader → ℕ → Bytes → Bytes
put_fixed h offset rest = put_uint32 directory_header_signature (
    put_uint16 h.creator_version (
      put_uint16 h.reader_version (
        put_uint16 h.flags (
          put_uint16 h.method (
            put_uint16 h.modified_time (
              put_uint16 h.modified_date (
                put_uint32 h.crc32 (
                  put_uint32 h.compressed_size (
                    put_uint32 h.uncompressed_size (
                      put_uint16 (length h.name) (
                        put_uint16 (length h.extra) (
                          put_uint16 (length h.comment) (
                            put_zeros 4
                              (put_uint32 h.external_attrs (put_uint32 offset rest)))))))))))))))

unfoldable pub put_directory_header : FileHeader → ℕ → Bytes → Bytes
unfolding written_header put_fixed offset32
put_directory_header h offset rest =
    let w = written_header h offset in
    put_fixed w (offset32 offset) (w.name ++ (w.extra ++ (w.comment ++ rest)))

-- The central directory of the files, in front of `rest`.
unfoldable pub put_directory : List (FileHeader × ℕ) → Bytes → Bytes
unfolding put_directory_header
put_directory [] rest = rest
put_directory ((h, offset) ∷ files) rest = put_directory_header h offset (put_directory files rest)
