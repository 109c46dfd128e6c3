-- ===== src/Zip/EndRecord/Locator.antt =====
-- The zip64 end record and its locator, as they are written and read back.
use arkive.Common.{
  ℕ, ◌+◌, ◌-◌, ◌≤◌, ◌<◌, ◌≡◌, refl, sym, ◌≢◌, false, [], ◌++◌, arith, Bytes, ltb, length, drop,
  length-append, length-drop, take_append, drop_append,
}
use arkive.Common.Words.{u64_mod, sign_bit, is_neg}
use arkive.Common.Go.{err_format, ok, err}
use native.Mathlib.Nat.{mod-eq_of_lt}
use arkive.Zip.Buf.{uint32, put_uint8, put_uint16, put_uint32, put_uint64}
use arkive.Zip.Buf.Laws.{put_lengths, read_put, skip-put_versions, uint32-take}
use arkive.Zip.EndRecord.{
  DirectoryEnd, directory64_end_signature, directory64_end_len, read_at, find_directory64_end,
  read_directory64_end, put_end64_record, put_locator,
}

pub read_at_middle :
    (pre mid post : Bytes) (off n : ℕ)
    → off ≡ length pre
    → n ≡ length mid
    → length pre < sign_bit
    → read_at (pre ++ (mid ++ post)) off n ≡ ok mid
unfolding read_at
read_at_middle pre mid post off n e h fits = ground (
  arith,
  length-append pre (mid ++ post),
  length-append mid post,
  drop_append pre (mid ++ post) off e,
  take_append mid post n h,
)

pub put_end64_record-append :
    (records size offset : ℕ) (rest : Bytes)
    → put_end64_record records size offset rest ≡ put_end64_record records size offset [] ++ rest
unfolding put_end64_record put_uint64 put_uint32 put_uint16 put_uint8
put_end64_record-append records size offset rest = refl

pub put_locator-append :
    (end : ℕ) (rest : Bytes) → put_locator end rest ≡ put_locator end [] ++ rest
unfolding put_locator put_uint64 put_uint32 put_uint16 put_uint8
put_locator-append end rest = refl

pub length-put_end64_record :
    (records size offset : ℕ) → length (put_end64_record records size offset []) ≡ 56
unfolding put_end64_record
length-put_end64_record records size offset = simp put_lengths

pub length-put_locator : (end : ℕ) → length (put_locator end []) ≡ 20
unfolding put_locator
length-put_locator end = simp put_lengths

-- The locator is found before the end record, and its offset read.
pub find_directory64_end-put :
    (pre rec : Bytes) (end at : ℕ)
    → end < sign_bit
    → at ≡ length pre + 20
    → length pre + 20 < sign_bit
    → find_directory64_end (pre ++ put_locator end rec) at ≡ ok end
unfolding find_directory64_end
find_directory64_end-put pre rec end at he place fits =
    let read =
      read_at_middle pre (put_locator end []) rec (at - 20) 20 (omega arith)
        (sym (length-put_locator end)) (omega arith) in
    let long : ltb at 20 ≡ false = ground arith in
    let word : end < u64_mod = omega arith in
    rw (put_locator-append end rec, long, read)
      (unfold put_locator in simp (read_put, mod-eq_of_lt word))

pub read_directory64_end-put :
    (pre rest : Bytes) (records size offset : ℕ) (d : DirectoryEnd)
    → records < u64_mod
    → size < u64_mod
    → offset < u64_mod
    → length pre < sign_bit
    → read_directory64_end (pre ++ put_end64_record records size offset rest) (length pre) d
      ≡ ok (record d {
        disk_nbr = 0;
        dir_disk_nbr = 0;
        dir_records_this_disk = records;
        directory_records = records;
        directory_size = size;
        directory_offset = offset;
      })
unfolding read_directory64_end
read_directory64_end-put pre rest records size offset d hr hs ho fits =
    let read =
      read_at_middle pre (put_end64_record records size offset []) rest (length pre) 56 refl
        (sym (length-put_end64_record records size offset)) fits in
    rw (put_end64_record-append records size offset rest, read)
      (unfold put_end64_record in
        simp (read_put, skip-put_versions, mod-eq_of_lt hr, mod-eq_of_lt hs, mod-eq_of_lt ho))

-- Where the record's signature is missing, the read is refused.
pub read_directory64_end_refused :
    (file : Bytes) (off : ℕ) (d : DirectoryEnd)
    → off + directory64_end_len ≤ length file
    → off < sign_bit
    → ((sig : ℕ) (rest : Bytes)
        → uint32 (drop off file) ≡ ok (sig, rest)
        → sig ≢ directory64_end_signature)
    → read_directory64_end file off d ≡ err err_format
unfolding read_directory64_end read_at
read_directory64_end_refused file off d room fits other =
    let (sig, whole, cut) = uint32-take (drop off file) 52 (omega (arith, length-drop off file)) in
    let long : ltb (length file) (off + directory64_end_len) ≡ false = ground arith in
    let nonneg : is_neg off ≡ false = ground arith in
    rw (nonneg, long) (rw cut (ground (arith, other sig (drop 4 (drop off file)) whole)))
