-- ===== src/Zip/EndRecord/RoundTrip.antt =====
-- What `Writer.Close` puts behind the central directory, `readDirectoryEnd` reads back, also with
-- padding in front.
use arkive.Common.{
  ℕ, ◌+◌, ◌-◌, ◌^◌, ◌≤◌, ◌<◌, ◌≡◌, ◌≢◌, inl, inr, false, none, ◌++◌, arith, Bytes, ltb, Bool-cases,
  length, drop, length-append, length-drop, take_append, drop-append,
}
use arkive.Common.Words.{sign_bit}
use arkive.Common.Go.{ok}
use arkive.Zip.Buf.{uint32}
use arkive.Zip.Buf.Laws.{uint32_total}
use arkive.Zip.EndRecord.{
  DirectoryEnd, directory64_loc_signature, directory64_loc_len, minus_one, has_end_record, read_at,
  find_directory64_end, find_zip64, adjust_offset, check_offset, place_directory, place_found,
  read_end_at, read_directory_end, put_end_record, needs_zip64, end_records,
}
use arkive.Zip.EndRecord.Search.{IsLastEnd}
use arkive.Zip.EndRecord.Fields.{
  end_fields, read_end_fields-put, length-put_end_record, put_end_record_hit,
  read_directory_end-append,
}

-- The four bytes at the place of a zip64 locator are not its signature.
abbrev pub HasNoLocator : Bytes → Type 0
HasNoLocator front =
    directory64_loc_len ≤ length front
    → (sig : ℕ) (rest : Bytes)
    → uint32 (drop (length front - directory64_loc_len) front) ≡ ok (sig, rest)
    → sig ≢ directory64_loc_signature

-- A slice of the end of `front`, read from a file that goes on behind it.
read_at_last :
    (front rec : Bytes) (n : ℕ)
    → n ≤ length front
    → length front < sign_bit
    → read_at (front ++ rec) (length front - n) n ≡ ok (drop (length front - n) front)
unfolding read_at
read_at_last front rec n h fits = ground (
  arith,
  length-append front rec,
  drop-append (length front - n) front rec (omega arith),
  take_append (drop (length front - n) front) rec n
      (omega (arith, length-drop (length front - n) front)),
)

find_directory64_end_absent :
    (front rec : Bytes)
    → HasNoLocator front
    → length front < sign_bit
    → find_directory64_end (front ++ rec) (length front) ≡ ok minus_one
unfolding find_directory64_end
find_directory64_end_absent front rec absent fits =
    elim (Bool-cases (ltb (length front) directory64_loc_len)) [
      | inl short ↦ rw short
      | inr long ↦
          let enough : directory64_loc_len ≤ length front = ground arith in
          let (sig, read) =
            uint32_total (drop (length front - 20) front)
              (omega (arith, length-drop (length front - 20) front)) in
          rw (long, read_at_last front rec 20 enough fits)
            (rw read (ground (arith, absent enough sig _ read)))
    ]

-- Without a zip64 record the directory is found from the place of the end record.
place_directory-none :
    (total end pad records size offset : ℕ) (comment : Bytes)
    → end ≡ pad + offset + size
    → end < total
    → total < sign_bit
    → place_directory total end (end_fields records size offset comment) none
      ≡ ok (record (end_fields records size offset comment) {
        directory_offset = pad + offset;
        start_skip_len = pad;
      })
unfolding place_directory adjust_offset check_offset
place_directory-none total end pad records size offset comment e h fits = ground arith

-- A record with no comment is the last in its block: nothing behind it has room for another.
pub IsLastEnd-put :
    (records size offset : ℕ) (comment : Bytes)
    → length comment < 2 ^ 16
    → ((j : ℕ) → 0 < j → has_end_record (put_end_record records size offset comment) j ≡ false)
    → IsLastEnd (put_end_record records size offset comment) 0
IsLastEnd-put records size offset comment hc alone = record {
  fits = omega (arith, length-put_end_record records size offset comment);
  hit = put_end_record_hit records size offset comment hc;
  last = λ j p q. alone j p;
}

pub end_records_plain :
    (records size offset : ℕ) (comment : Bytes)
    → needs_zip64 records size offset ≡ false
    → end_records records offset (offset + size) comment
      ≡ put_end_record records size offset comment
unfolding end_records
end_records_plain records size offset comment small =
    let same : offset + size - offset ≡ size = omega arith in rw (same, small)

find_zip64_absent :
    (front rec : Bytes) (d : DirectoryEnd)
    → HasNoLocator front
    → length front < sign_bit
    → find_zip64 (front ++ rec) (length front) d ≡ ok none
unfolding find_zip64
find_zip64_absent front rec d absent fits = rw (find_directory64_end_absent front rec absent fits)

pub read_end_at-put :
    (file : Bytes) (at records size offset : ℕ) (comment : Bytes)
    → records < 2 ^ 16
    → size < 2 ^ 32
    → offset < 2 ^ 32
    → length comment < 2 ^ 16
    → read_end_at file at (put_end_record records size offset comment)
      ≡ place_found
          (length file)
          at
          (end_fields records size offset comment)
          (find_zip64 file at (end_fields records size offset comment))
unfolding read_end_at
read_end_at-put file at records size offset comment hr hs ho hc =
    rw (read_end_fields-put records size offset comment hr hs ho hc)

-- Take an archive whose files take `offset` bytes and whose central directory takes the next
-- `size` bytes, closed by the plain end records of `Writer.Close`, and put any `pad` bytes in front.
-- Let the size of the archive be an int64 with 2^17 to spare and the comment fit its length field.
-- If the end record is the last in the file and no zip64 locator stands before it, then
-- `readDirectoryEnd` returns what was written, with the directory moved by `pad` and `pad` as the
-- length to skip.
pub read_directory_end-end_records :
    (records pad offset size : ℕ) (comment front : Bytes)
    → length front ≡ pad + offset + size
    → needs_zip64 records size offset ≡ false
    → length front + 2 ^ 17 < sign_bit
    → length comment < 2 ^ 16
    → ((j : ℕ) → 0 < j → has_end_record (put_end_record records size offset comment) j ≡ false)
    → HasNoLocator front
    → read_directory_end (front ++ end_records records offset (offset + size) comment)
      ≡ ok (record (end_fields records size offset comment) {
        directory_offset = pad + offset;
        start_skip_len = pad;
      })
unfolding place_found
read_directory_end-end_records records pad offset size comment front place small fits hc alone
      absent =
    let rec = put_end_record records size offset comment in
    let written = length-put_end_record records size offset comment in
    rw
      (
        end_records_plain records size offset comment small,
        read_directory_end-append front rec (IsLastEnd-put records size offset comment hc alone)
            (omega (arith, written)),
      )
      (rw
        (
          read_end_at-put (front ++ rec) (length front) records size offset comment (ground arith)
              (ground arith) (ground arith) hc,
          find_zip64_absent front rec (end_fields records size offset comment) absent (omega arith),
          place_found,
        )
        (place_directory-none _ _ pad records size offset comment place
          (omega (arith, written, length-append front rec))
          (omega (arith, written, length-append front rec))))
