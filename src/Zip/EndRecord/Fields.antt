-- ===== src/Zip/EndRecord/Fields.antt =====
-- The plain end record: its fields are read back, and the search finds it behind any front.
use arkive.Common.{
  ℕ, ◌+◌, ◌-◌, ◌*◌, ◌^◌, ◌≤◌, ◌<◌, ◌≡◌, refl, ap, ◌∙◌, true, false, [], ◌++◌, arith, Bytes, length,
  drop, length-append, length-drop, drop_append, take_all, drop-append,
}
use arkive.Common.Go.{ok}
use native.Mathlib.Nat.{mod-eq_of_lt}
use arkive.Zip.Buf.{put_uint16, put_uint32, put_zeros}
use arkive.Zip.Buf.Laws.{put_lengths, read_put, put_zeros_four}
use arkive.Zip.EndRecord.{
  DirectoryEnd, directory_end_len, has_end_record, read_end_fields, read_end_at, block_start,
  read_directory_end, put_end_record,
}
use arkive.Zip.EndRecord.Search.{IsLastEnd, find_signature_in_block_iff, has_end_record-append}

-- The record as it was written, with each field cut to its width.
abbrev pub end_fields : ℕ → ℕ → ℕ → Bytes → DirectoryEnd
end_fields records size offset comment = record {
  disk_nbr = 0;
  dir_disk_nbr = 0;
  dir_records_this_disk = records;
  directory_records = records;
  directory_size = size;
  directory_offset = offset;
  comment_len = length comment;
  comment = comment;
  start_skip_len = 0;
}

module _ (records size offset : ℕ) (comment : Bytes) where
  pub read_end_fields-put :
      records < 2 ^ 16
      → size < 2 ^ 32
      → offset < 2 ^ 32
      → length comment < 2 ^ 16
      → read_end_fields (put_end_record records size offset comment)
        ≡ ok (end_fields records size offset comment)
  unfolding read_end_fields put_end_record
  read_end_fields-put hr hs ho hc =
      simp
        (
          read_put,
          put_zeros_four,
          mod-eq_of_lt hr,
          mod-eq_of_lt hs,
          mod-eq_of_lt ho,
          mod-eq_of_lt hc,
        )
        (ground (arith, take_all comment (length comment) (omega arith)))

  pub length-put_end_record :
      length (put_end_record records size offset comment) ≡ directory_end_len + length comment
  unfolding put_end_record
  length-put_end_record = simp put_lengths (omega arith)

  -- The record is an end record at the front of what is written.
  pub put_end_record_hit :
      length comment < 2 ^ 16 → has_end_record (put_end_record records size offset comment) 0 ≡ true
  unfolding has_end_record put_end_record put_uint32 put_uint16 put_zeros
  put_end_record_hit hc = ground arith

-- A file that ends in a record, `rec`, which has no end record further on.
module _ (front rec : Bytes) (found : IsLastEnd rec 0) where
  pub IsLastEnd-append : (pre : Bytes) → IsLastEnd (pre ++ rec) (length pre)
  IsLastEnd-append pre = record {
    fits = omega (arith, length-append pre rec, found.fits);
    hit =
        let here : length pre ≡ length pre + 0 = omega arith in
        rw here (has_end_record-append pre rec 0 ∙ found.hit);
    last = λ j p q.
        let shift : j ≡ length pre + (j - length pre) = omega arith in
        rw shift (
          has_end_record-append pre rec (j - length pre)
          ∙ found.last (j - length pre) (omega arith) (omega (arith, length-append pre rec)));
  }

  pub read_directory_end-append :
      length rec ≤ 65 * 1024
      → read_directory_end (front ++ rec) ≡ read_end_at (front ++ rec) (length front) rec
  unfolding read_directory_end
  read_directory_end-append h =
      let start = block_start (length (front ++ rec)) in
      let low : start ≤ length front = omega (arith, length-append front rec) in
      let place =
        find_signature_in_block_iff (drop start front ++ rec) (length (drop start front)) in
      rw (drop-append start front rec low, place.1 (IsLastEnd-append (drop start front)))
        (rw (drop_append (drop start front) rec (length (drop start front)) refl) (
          ap (λ (n : ℕ). read_end_at (front ++ rec) n rec)
            (omega (arith, length-drop start front, low))))

-- With no comment, nothing behind the first byte of a record has room for another one.
pub put_end_record_alone :
    (records size offset j : ℕ)
    → 0 < j
    → has_end_record (put_end_record records size offset []) j ≡ false
unfolding has_end_record
put_end_record_alone records size offset j h =
    ground (arith, length-put_end_record records size offset [])
