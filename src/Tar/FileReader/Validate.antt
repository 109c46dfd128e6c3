-- ===== src/Tar/FileReader/Validate.antt =====
-- `newSparseFileReader` (tar/reader.go) accepts exactly the sparse maps that are in order.
use arkive.Common.{
  ℕ, ◌+◌, ◌≤◌, ◌<◌, ◌≡◌, refl, sym, ◌∙◌, ◌≢◌, ◌↔◌, inl, inr, Bool, true, false, ◌||◌, Option, none,
  some, List, [], ◌∷◌, arith, Bool-cases, All,
}
use arkive.Common.Words.{sign_bit, IsWord, is_neg, add64}
use arkive.Common.Go.{ok}
use arkive.Tar.FileReader.{
  SparseEntry, SparseFileReader, is_bad_entry, has_bad_entry, new_sparse_file_reader,
}

unfoldable pub IsEntryWords : SparseEntry → Type 0
IsEntryWords s = IsWord s.offset × IsWord s.num_bytes

-- Fragments in order and apart, behind `start` and up to `total`, without wrap-around.
unfoldable pub IsInOrder : ℕ → ℕ → List SparseEntry → Type 0
IsInOrder total start [] = Unit
IsInOrder total start (s ∷ sp) =
    (start ≤ s.offset)
    × (s.offset + s.num_bytes ≤ total)
    × IsInOrder total (s.offset + s.num_bytes) sp

IsStart : ℕ → Option ℕ → ℕ → Type 0
IsStart total none start = start ≡ 0
IsStart total (some end) start = (end ≡ start) × (end ≤ total)

is_bad_entry-eq-false :
    (total : ℕ) (prev : Option ℕ) (start : ℕ) (s : SparseEntry)
    → total < sign_bit
    → IsEntryWords s
    → IsStart total prev start
    → is_bad_entry total prev s ≡ false
    → (start ≤ s.offset)
      × (s.offset + s.num_bytes ≤ total)
      × (add64 s.offset s.num_bytes ≡ s.offset + s.num_bytes)
unfolding is_bad_entry IsStart IsEntryWords
is_bad_entry-eq-false total none start s ht hs hp e = ground arith
is_bad_entry-eq-false total (some end) start s ht hs hp e = ground arith

is_bad_entry-of-order :
    (total : ℕ) (prev : Option ℕ) (start : ℕ) (s : SparseEntry)
    → total < sign_bit
    → IsStart total prev start
    → start ≤ s.offset
    → s.offset + s.num_bytes ≤ total
    → (is_bad_entry total prev s ≡ false) × (add64 s.offset s.num_bytes ≡ s.offset + s.num_bytes)
unfolding is_bad_entry IsStart
is_bad_entry-of-order total none start s ht hp h₁ h₂ = ground arith
is_bad_entry-of-order total (some end) start s ht hp h₁ h₂ = ground arith

or-eq-false : (a b : Bool) → (a || b) ≡ false → (a ≡ false) × (b ≡ false)
or-eq-false false b h = (refl, h)
or-eq-false true b h = absurd cc

has_bad_entry-eq-false :
    (total : ℕ) (prev : Option ℕ) (start : ℕ) (sp : List SparseEntry)
    → total < sign_bit
    → All IsEntryWords sp
    → IsStart total prev start
    → has_bad_entry total prev sp ≡ false
    → IsInOrder total start sp
unfolding has_bad_entry IsInOrder IsStart
has_bad_entry-eq-false total prev start [] ht hs hp e = tt
has_bad_entry-eq-false total prev start (s ∷ sp) ht (hs, hss) hp e =
    let (e₁, e₂) = or-eq-false _ _ e in
    let (h₁, h₂, h₃) = is_bad_entry-eq-false total prev start s ht hs hp e₁ in
    (
      h₁,
      h₂,
      has_bad_entry-eq-false total (some (add64 s.offset s.num_bytes)) (s.offset + s.num_bytes) sp
          ht hss (h₃, omega arith) e₂,
    )

has_bad_entry-of-order :
    (total : ℕ) (prev : Option ℕ) (start : ℕ) (sp : List SparseEntry)
    → total < sign_bit
    → IsStart total prev start
    → IsInOrder total start sp
    → has_bad_entry total prev sp ≡ false
unfolding has_bad_entry IsInOrder IsStart
has_bad_entry-of-order total prev start [] ht hp h = refl
has_bad_entry-of-order total prev start (s ∷ sp) ht hp (h₁, h₂, h) =
    let (e, w) = is_bad_entry-of-order total prev start s ht hp h₁ h₂ in
    rw (e) (
      has_bad_entry-of-order total (some (add64 s.offset s.num_bytes)) (s.offset + s.num_bytes) sp
        ht (w, omega arith) h)

-- For a list of int64 entries, `newSparseFileReader` answers a reader at the start of the file, over
-- the whole list and the given regular reader, exactly if the size is not negative and the fragments
-- come in order, apart from each other, and end by the size as numbers, without wrap-around.
pub new_sparse_file_reader_iff :
    (nb : ℕ) (sp : List SparseEntry) (total : ℕ)
    → IsWord total
    → All IsEntryWords sp
    → (new_sparse_file_reader nb sp total
        ≡ ok (record { nb = nb; sp = sp; pos = 0; total = total }))
      ↔ ((total < sign_bit) × IsInOrder total 0 sp)
unfolding new_sparse_file_reader IsStart
new_sparse_file_reader_iff nb sp total ht hs = elim (Bool-cases (is_neg total)) [
  | inl h ↦ rw (h) (λ e. absurd cc, λ p. absurd (ground arith))
  | inr h ↦ elim (Bool-cases (has_bad_entry total none sp)) [
    | inl k ↦
        rw (h, k)
          (
            λ e. absurd cc,
            λ p.
                absurd
                  (true-ne-false (sym k ∙ has_bad_entry-of-order total none 0 sp p.0 refl p.1)),
          )
    | inr k ↦
        rw (h, k)
          (
            λ e. ((ground arith), has_bad_entry-eq-false total none 0 sp (ground arith) hs refl k),
            λ p. refl,
          )
  ]
]
  where
    true-ne-false : true ≢ false
    true-ne-false e = cc

pub new_sparse_file_reader-eq-ok :
    (nb : ℕ) (sp : List SparseEntry) (total : ℕ) {r : SparseFileReader}
    → new_sparse_file_reader nb sp total ≡ ok r
    → r ≡ record { nb = nb; sp = sp; pos = 0; total = total }
unfolding new_sparse_file_reader
new_sparse_file_reader-eq-ok nb sp total =
    elim (Bool-cases (is_neg total || has_bad_entry total none sp)) [
      | inl h ↦ rw (h) (λ e. absurd cc)
      | inr h ↦ rw (h) (λ e. cc)
    ]
