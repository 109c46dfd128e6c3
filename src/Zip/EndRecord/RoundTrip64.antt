-- ===== src/Zip/EndRecord/RoundTrip64.antt =====
-- What `Writer.Close` puts behind the central directory of a large archive: the zip64 records.
use arkive.Common.{
  ℕ, ◌+◌, ◌-◌, ◌^◌, ◌≤◌, ◌<◌, ◌≡◌, sym, ◌∙◌, ◌≢◌, true, false, some, [], ◌++◌, append_assoc, arith,
  Bytes, length, drop, length-append,
}
use arkive.Common.Words.{u64_mod, sign_bit, is_neg}
use arkive.Common.Go.{err_format, ok, err}
use arkive.Zip.Buf.{uint32, put_uint8, put_uint16, put_uint32, put_uint64}
use arkive.Zip.Buf.Laws.{put_lengths}
use arkive.Zip.EndRecord.{
  DirectoryEnd, directory64_end_signature, uint16max, uint32max, has_end_record,
  find_directory64_end, probably_zip64, find_zip64, adjust_offset, check_offset, place_directory,
  place_found, read_directory_end, put_end_record, put_end64_record, put_locator, needs_zip64,
  end_records,
}
use arkive.Zip.EndRecord.Fields.{end_fields, length-put_end_record, read_directory_end-append}
use arkive.Zip.EndRecord.RoundTrip.{IsLastEnd-put, read_end_at-put}
use arkive.Zip.EndRecord.Locator.{
  put_end64_record-append, length-put_end64_record, find_directory64_end-put,
  read_directory64_end-put, read_directory64_end_refused,
}

-- The end record of a large archive has all sizes at their maximum.
abbrev pub max_record : Bytes → Bytes
max_record = put_end_record uint16max uint32max uint32max

abbrev max_fields : Bytes → DirectoryEnd
max_fields = end_fields uint16max uint32max uint32max

-- The file that `Writer.Close` leaves: `pre` is all that stands before the end records.
abbrev pub large_file : Bytes → ℕ → ℕ → ℕ → Bytes → Bytes
large_file pre records offset size comment =
    pre ++ end_records records offset (offset + size) comment

module _ (pre : Bytes) (records offset size : ℕ) (comment : Bytes) where
  abbrev end64_front : Bytes
  end64_front = pre ++ put_end64_record records size offset (put_locator (offset + size) [])

  end_records_large :
      needs_zip64 records size offset ≡ true
      → (large_file pre records offset size comment)
        ≡ pre
          ++ put_end64_record records size offset (put_locator (offset + size) (max_record comment))
  unfolding end_records
  end_records_large large =
      let same : offset + size - offset ≡ size = omega arith in rw (same, large)

  large_file-append :
      needs_zip64 records size offset ≡ true
      → (large_file pre records offset size comment) ≡ end64_front ++ (max_record comment)
  large_file-append large =
      end_records_large large
      ∙ (unfold put_end64_record put_locator put_uint64 put_uint32 put_uint16 put_uint8 in
          sym (
            append_assoc pre (put_end64_record records size offset (put_locator (offset + size) []))
              (max_record comment)))

  length-end64_front : length end64_front ≡ length pre + 76
  unfolding put_end64_record put_locator
  length-end64_front =
      length-append pre (put_end64_record records size offset (put_locator (offset + size) []))
      ∙ simp put_lengths

  read_directory_end_large :
      needs_zip64 records size offset ≡ true
      → length comment < 2 ^ 16
      → ((j : ℕ) → 0 < j → has_end_record (max_record comment) j ≡ false)
      → read_directory_end (large_file pre records offset size comment)
        ≡ place_found
            (length (large_file pre records offset size comment))
            (length pre + 76)
            (max_fields comment)
            (find_zip64
              (large_file pre records offset size comment)
              (length pre + 76)
              (max_fields comment))
  read_directory_end_large large hc alone = rw (large_file-append large) (
      read_directory_end-append end64_front (max_record comment)
        (IsLastEnd-put uint16max uint32max uint32max comment hc alone)
        (omega (arith, length-put_end_record uint16max uint32max uint32max comment))
      ∙ rw length-end64_front (
          read_end_at-put (end64_front ++ (max_record comment)) (length pre + 76) uint16max
            uint32max uint32max comment (omega arith) (omega arith) (omega arith) hc))

  locator_found :
      needs_zip64 records size offset ≡ true
      → offset + size < sign_bit
      → length pre + 76 < sign_bit
      → find_directory64_end (large_file pre records offset size comment) (length pre + 76)
        ≡ ok (offset + size)
  locator_found large he fits =
      let front = pre ++ put_end64_record records size offset [] in
      let at_front : length front ≡ length pre + 56 = omega (
        arith,
        length-append pre (put_end64_record records size offset []),
        length-put_end64_record records size offset,
      ) in
      rw (end_records_large large) (
        rw
          (put_end64_record-append records size offset
            (put_locator (offset + size) (max_record comment)))
          (rw
            (← append_assoc pre (put_end64_record records size offset [])
              (put_locator (offset + size) (max_record comment)))
            (find_directory64_end-put front (max_record comment) (offset + size) (length pre + 76)
              he (omega (arith, at_front)) (omega (arith, at_front)))))

  -- The zip64 record is read where the locator says, if nothing stands in front of the archive.
  find_zip64_found :
      length pre ≡ offset + size
      → needs_zip64 records size offset ≡ true
      → records < u64_mod
      → length pre + 76 < sign_bit
      → find_zip64
          (large_file pre records offset size comment)
          (length pre + 76)
          (max_fields comment)
        ≡ ok (some (offset + size, end_fields records size offset comment))
  unfolding find_zip64
  find_zip64_found place large hr fits =
      let locate = locator_found large (omega arith) fits in
      let nonneg : is_neg (offset + size) ≡ false = ground arith in
      let read =
        read_directory64_end-put pre (put_locator (offset + size) (max_record comment)) records size
          offset (max_fields comment) hr (omega arith) (omega arith) (omega arith) in
      rw (locate, nonneg, end_records_large large) (rw (rw place at read))

  length-large_file :
      needs_zip64 records size offset ≡ true
      → length (large_file pre records offset size comment) ≡ length pre + 98 + length comment
  length-large_file large = rw (large_file-append large) (
      omega (
        arith,
        length-append end64_front (max_record comment),
        length-end64_front,
        length-put_end_record uint16max uint32max uint32max comment,
      ))

  -- Where no zip64 record stands, the lookup fails.
  find_zip64_refused :
      offset + size ≤ length pre
      → needs_zip64 records size offset ≡ true
      → length pre + 76 < sign_bit
      → ((sig : ℕ) (rest : Bytes)
          → uint32 (drop (offset + size) (large_file pre records offset size comment))
            ≡ ok (sig, rest)
          → sig ≢ directory64_end_signature)
      → find_zip64
          (large_file pre records offset size comment)
          (length pre + 76)
          (max_fields comment)
        ≡ err err_format
  unfolding find_zip64
  find_zip64_refused place large fits other =
      let locate = locator_found large (omega arith) fits in
      let nonneg : is_neg (offset + size) ≡ false = ground arith in
      let room : offset + size + 56 ≤ length (large_file pre records offset size comment) =
        omega (arith, length-large_file large) in
      rw (locate, nonneg)
        (rw (
          read_directory64_end_refused (large_file pre records offset size comment) (offset + size)
            (max_fields comment) room (omega arith) other))

place_directory_zip64 :
    (total at records offset size : ℕ) (comment : Bytes) (d : DirectoryEnd)
    → offset + size < total
    → total < sign_bit
    → place_directory total at d (some (offset + size, end_fields records size offset comment))
      ≡ ok (end_fields records size offset comment)
unfolding place_directory adjust_offset check_offset
place_directory_zip64 total at records offset size comment d h fits = ground arith

-- An archive with zip64 records and nothing in front of it, whose end record is the last in the
-- file, so that the comment holds none, and whose size is an int64 with 2^17 to spare:
-- `readDirectoryEnd` returns the 64-bit counts, sizes and offsets that `Writer.Close` wrote, and
-- nothing to skip.
pub read_directory_end_zip64 :
    (pre : Bytes) (records offset size : ℕ) (comment : Bytes)
    → length pre ≡ offset + size
    → needs_zip64 records size offset ≡ true
    → records < u64_mod
    → length pre + 2 ^ 17 < sign_bit
    → length comment < 2 ^ 16
    → ((j : ℕ) → 0 < j → has_end_record (max_record comment) j ≡ false)
    → read_directory_end (large_file pre records offset size comment)
      ≡ ok (end_fields records size offset comment)
unfolding place_found
read_directory_end_zip64 pre records offset size comment place large hr fits hc alone =
    read_directory_end_large pre records offset size comment large hc alone
    ∙ rw (find_zip64_found pre records offset size comment place large hr (omega arith)) (
        place_directory_zip64 _ _ records offset size comment (max_fields comment)
          (omega (arith, length-large_file pre records offset size comment large))
          (omega (arith, length-large_file pre records offset size comment large)))

-- With padding in front, the locator still counts from the start of the archive. If the end record
-- is the last in the file, so that the comment holds none, the size of the archive is an int64 with
-- 2^17 to spare, and no zip64 record stands at the place of the file that the locator names,
-- `readDirectoryEnd` refuses the archive.
pub read_directory_end_padded_zip64 :
    (pre : Bytes) (records offset size : ℕ) (comment : Bytes)
    → offset + size ≤ length pre
    → needs_zip64 records size offset ≡ true
    → length pre + 2 ^ 17 < sign_bit
    → length comment < 2 ^ 16
    → ((j : ℕ) → 0 < j → has_end_record (max_record comment) j ≡ false)
    → ((sig : ℕ) (rest : Bytes)
        → uint32 (drop (offset + size) (large_file pre records offset size comment))
          ≡ ok (sig, rest)
        → sig ≢ directory64_end_signature)
    → read_directory_end (large_file pre records offset size comment) ≡ err err_format
unfolding place_found probably_zip64
read_directory_end_padded_zip64 pre records offset size comment place large fits hc alone other =
    read_directory_end_large pre records offset size comment large hc alone
    ∙ rw (find_zip64_refused pre records offset size comment place large (omega arith) other)
