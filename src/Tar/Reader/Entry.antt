-- ===== src/Tar/Reader/Entry.antt =====
-- The entry that `handleRegularFile` (tar/reader.go) sets up.
use arkive.Common.{
  ℕ, ◌+◌, ◌%◌, ◌<◌, ◌≡◌, refl, subst, inl, inr, Bool, true, false, arith, if◌then◌else◌, Bool-cases,
}
use arkive.Common.Words.{u64_mod, sign_bit, IsWord, is_neg, sub64}
use arkive.Common.Go.{ok}
use arkive.Tar.Block.{block_size}
use arkive.Tar.Reader.{TarReader, num_bytes, is_header_only_type, handle_regular_file, regular}

-- An entry that is accepted has its size to read, or nothing if its type has no data, a size that is
-- not negative, and the least padding that fills its last block. Everything else of the reader stays.
pub handle_regular_file-aligned :
    {S : Type 0} (tr tr' : TarReader S) (flag size : ℕ)
    → IsWord size
    → handle_regular_file tr flag size ≡ ok tr'
    → (num_bytes tr'.curr ≡ (if is_header_only_type flag then 0 else size))
      × (num_bytes tr'.curr < sign_bit)
      × ((num_bytes tr'.curr + tr'.pad) % block_size ≡ 0)
      × (tr'.pad < block_size)
      × (tr'.stream ≡ tr.stream)
      × (tr'.error ≡ tr.error)
unfolding handle_regular_file num_bytes
handle_regular_file-aligned {S} tr tr' flag size word =
    let nb = if is_header_only_type flag then 0 else size in
    let nb_word : nb < u64_mod = bounded (is_header_only_type flag) in
    elim (Bool-cases (is_neg nb)) [
      | inl k ↦ rw (k) (λ e. absurd cc)
      | inr k ↦ rw (k) (λ e.
          let p : record tr { pad = sub64 0 nb % block_size; curr = regular nb } ≡ tr' = cc in
          subst
            (λ (t : TarReader S).
              (num_bytes t.curr ≡ nb)
              × (num_bytes t.curr < sign_bit)
              × ((num_bytes t.curr + t.pad) % block_size ≡ 0)
              × (t.pad < block_size)
              × (t.stream ≡ tr.stream)
              × (t.error ≡ tr.error))
            p (refl, ground arith, fills nb (ground arith), omega arith, refl, refl))
    ]
  where
    bounded : (b : Bool) → (if b then 0 else size) < u64_mod
    bounded true = omega arith
    bounded false = word

    fills : (n : ℕ) → n < sign_bit → (n + sub64 0 n % block_size) % block_size ≡ 0
    fills n h = omega arith
