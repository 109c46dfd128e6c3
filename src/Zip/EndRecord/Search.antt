-- ===== src/Zip/EndRecord/Search.antt =====
-- `findSignatureInBlock` finds the last end record whose comment fits the block.
use arkive.Common.{
  ℕ, zero, suc, ◌+◌, ◌-◌, ◌≤◌, ◌<◌, ◌≡◌, ap, ◌∙◌, ◌↔◌, inl, inr, true, false, none, some, ◌++◌,
  arith, Bytes, ltb, Bool-cases, Option-cases, length, length-append, get_or-append,
}
use native.Mathlib.Decide.{dec_lt}
use arkive.Zip.EndRecord.{has_end_record, find_down, find_signature_in_block, directory_end_len}

find_down-some :
    (b : Bytes) (k i : ℕ)
    → find_down b k ≡ some i
    → (i < k) × (has_end_record b i ≡ true) × ((j : ℕ) → i < j → j < k → has_end_record b j ≡ false)
unfolding find_down
find_down-some b zero i e = cc
find_down-some b (suc k) i e = elim (Bool-cases (has_end_record b k)) [
  | inl hit ↦
      let same : k ≡ i = ground arith in (omega arith, ground arith, λ j p q. absurd (omega arith))
  | inr miss ↦
      let ih = find_down-some b k i (rw miss at e) in
      (
        omega (arith, ih.0),
        ih.1,
        λ j p q. elim (dec_lt j k) [
          | yes below ↦ ih.2 j p below
          | no above ↦ let same : j ≡ k = omega arith in rw same miss
        ],
      )
]

find_down-none :
    (b : Bytes) (k : ℕ) → find_down b k ≡ none → (j : ℕ) → j < k → has_end_record b j ≡ false
unfolding find_down
find_down-none b zero e j h = absurd (omega arith)
find_down-none b (suc k) e j h = elim (Bool-cases (has_end_record b k)) [
  | inl hit ↦ ground arith
  | inr miss ↦ elim (dec_lt j k) [
    | yes below ↦ find_down-none b k (rw miss at e) j below
    | no above ↦ let same : j ≡ k = omega arith in rw same miss
  ]
]

-- The last place in `b` that holds a signature and has room for the record and its comment.
pub record IsLastEnd (b : Bytes) (i : ℕ) : Type 0 where
  pub fits : i + directory_end_len ≤ length b
  pub hit : has_end_record b i ≡ true
  pub last : (j : ℕ) → i < j → j + directory_end_len ≤ length b → has_end_record b j ≡ false

-- The result of the search is the last end record of the block.
pub find_signature_in_block-IsLastEnd :
    (b : Bytes) (i : ℕ) → find_signature_in_block b ≡ some i → IsLastEnd b i
unfolding find_signature_in_block
find_signature_in_block-IsLastEnd b i e = elim (Bool-cases (ltb (length b) directory_end_len)) [
  | inl short ↦ cc (rw short at e)
  | inr long ↦
      let found = find_down-some b (suc (length b - directory_end_len)) i (rw long at e) in
      record {
        fits = ground (arith, found.0);
        hit = found.1;
        last = λ j p q. found.2 j p (omega arith);
      }
]

-- Where the search finds nothing, no place of the block holds an end record.
pub find_signature_in_block-none :
    (b : Bytes)
    → find_signature_in_block b ≡ none
    → (j : ℕ) → j + directory_end_len ≤ length b
    → has_end_record b j ≡ false
unfolding find_signature_in_block
find_signature_in_block-none b e j h = elim (Bool-cases (ltb (length b) directory_end_len)) [
  | inl short ↦ absurd (ground arith)
  | inr long ↦ find_down-none b (suc (length b - directory_end_len)) (rw long at e) j (omega arith)
]

IsLastEnd-unique : (b : Bytes) (i k : ℕ) → IsLastEnd b i → IsLastEnd b k → i ≡ k
IsLastEnd-unique b i k p q = elim (dec_lt i k) [
  | yes lt ↦ cc (p.last k lt q.fits, q.hit)
  | no ge ↦ elim (dec_lt k i) [ yes gt ↦ cc (q.last i gt p.fits, p.hit) | no le ↦ omega arith ]
]

-- The search finds the last end record, exactly where there is one.
pub find_signature_in_block_iff :
    (b : Bytes) (i : ℕ) → (find_signature_in_block b ≡ some i) ↔ IsLastEnd b i
find_signature_in_block_iff b i = (
  find_signature_in_block-IsLastEnd b i,
  λ p. elim (Option-cases (find_signature_in_block b)) [
    | inl nothing ↦ cc (find_signature_in_block-none b nothing i p.fits, p.hit)
    | inr (k, found) ↦
        found ∙ ap some (IsLastEnd-unique b k i (find_signature_in_block-IsLastEnd b k found) p)
  ],
)

-- An end record is found at the same place behind any front.
pub has_end_record-append :
    (front b : Bytes) (i : ℕ) → has_end_record (front ++ b) (length front + i) ≡ has_end_record b i
unfolding has_end_record
has_end_record-append front b i = ground (
  arith,
  get_or-append front b (length front + i) i 0 (omega arith),
  get_or-append front b (length front + i + 1) (i + 1) 0 (omega arith),
  get_or-append front b (length front + i + 2) (i + 2) 0 (omega arith),
  get_or-append front b (length front + i + 3) (i + 3) 0 (omega arith),
  get_or-append front b (length front + i + 20) (i + 20) 0 (omega arith),
  get_or-append front b (length front + i + 21) (i + 21) 0 (omega arith),
  length-append front b,
)
