-- ===== src/Tar/FileReader/Expand.antt =====
-- What the readers of tar/reader.go deliver, as a whole: the expansion of a sparse file.
use arkive.Common.{
  ℕ, zero, suc, ◌+◌, ◌-◌, ◌≤◌, ◌<◌, min, ◌≡◌, refl, sym, ap, ◌∙◌, ◌⊎◌, inl, inr, List, [], ◌∷◌,
  ◌++◌, append_assoc, arith, Bytes, ◌==◌, Bool-cases, length, take, drop, replicate, replicate-add,
  length-append, length-replicate, length-take, length-drop,
}
use arkive.Tar.FileReader.{SparseEntry, skip_empty}
use arkive.Tar.FileReader.Validate.{IsInOrder}

-- How many bytes of a fragment lie behind `pos`.
abbrev pub fragment_left : ℕ → SparseEntry → ℕ
fragment_left pos s = min s.num_bytes (s.offset + s.num_bytes - pos)

-- The bytes of a sparse file from `pos` on: zeros in the holes, the next bytes of `input` elsewhere.
abbrev pub expand : ℕ → ℕ → List SparseEntry → Bytes → Bytes
expand total pos [] input = replicate (total - pos) 0
expand total pos (s ∷ sp) input =
    replicate (s.offset - pos) 0
    ++ (take (fragment_left pos s) input
        ++ expand total (s.offset + s.num_bytes) sp (drop (fragment_left pos s) input))

-- A position before the fragments `sp`, or inside the first of them.
unfoldable pub IsPosition : ℕ → ℕ → List SparseEntry → Type 0
IsPosition total pos [] = pos ≤ total
IsPosition total pos (s ∷ sp) =
    ((pos ≤ s.offset) ⊎ (pos < s.offset + s.num_bytes))
    × (s.offset + s.num_bytes ≤ total)
    × IsInOrder total (s.offset + s.num_bytes) sp

-- A position before the end of the first of `sp`, which holds once empty fragments are skipped.
unfoldable pub IsReady : ℕ → ℕ → List SparseEntry → Type 0
IsReady total pos [] = pos ≤ total
IsReady total pos (s ∷ sp) =
    (pos < s.offset + s.num_bytes)
    × (s.offset + s.num_bytes ≤ total)
    × IsInOrder total (s.offset + s.num_bytes) sp

pub IsPosition-of_IsInOrder :
    (total pos m : ℕ) (sp : List SparseEntry)
    → pos ≤ m
    → m ≤ total
    → IsInOrder total m sp
    → IsPosition total pos sp
unfolding IsPosition IsInOrder
IsPosition-of_IsInOrder total pos m [] h h' o = omega arith
IsPosition-of_IsInOrder total pos m (s ∷ sp) h h' (h₁, h₂, o) = (inl (omega arith), h₂, o)

pub take-past : (n : ℕ) (b d : Bytes) → length b ≤ n → take n (b ++ d) ≡ b ++ take (n - length b) d
take-past n [] d h = ap (λ k. take k d) (omega arith)
take-past zero (x ∷ b) d h = absurd (omega arith)
take-past (suc n) (x ∷ b) d h =
    ap (◌∷◌ x) (take-past n b d (omega arith) ∙ ap (λ k. b ++ take k d) (omega arith))

drop-past : (n : ℕ) (b d : Bytes) → length b ≤ n → drop n (b ++ d) ≡ drop (n - length b) d
drop-past n [] d h = ap (λ k. drop k d) (omega arith)
drop-past zero (x ∷ b) d h = absurd (omega arith)
drop-past (suc n) (x ∷ b) d h = drop-past n b d (omega arith) ∙ ap (λ k. drop k d) (omega arith)

-- The zeros up to a position in the same hole come first.
pub expand-hole :
    (total pos m : ℕ) (sp : List SparseEntry) (input : Bytes)
    → pos ≤ m
    → m ≤ total
    → IsInOrder total m sp
    → expand total pos sp input ≡ replicate (m - pos) 0 ++ expand total m sp input
unfolding IsInOrder
expand-hole total pos m [] input h₁ h₂ o =
    ap (λ k. replicate k 0) (omega arith) ∙ replicate-add {A = ℕ} (m - pos) (total - m) 0
expand-hole total pos m (s ∷ sp) input h₁ h₂ (o₁, o₂, o) =
    let k : s.offset - pos ≡ (m - pos) + (s.offset - m) = omega arith in
    let j : fragment_left pos s ≡ fragment_left m s = omega arith in
    rw (k, j, replicate-add {A = ℕ} (m - pos) (s.offset - m) 0)
      (append_assoc (replicate (m - pos) 0) _ _)

IsInOrder-of_le :
    (total m n : ℕ) (sp : List SparseEntry) → m ≤ n → IsInOrder total n sp → IsInOrder total m sp
unfolding IsInOrder
IsInOrder-of_le total m n [] h o = tt
IsInOrder-of_le total m n (s ∷ sp) h (h₁, h₂, o) = (omega arith, h₂, o)

pub expand-zeros :
    (total pos n m : ℕ) (sp : List SparseEntry) (input : Bytes)
    → pos + n ≤ m
    → m ≤ total
    → IsInOrder total m sp
    → expand total pos sp input ≡ replicate n 0 ++ expand total (pos + n) sp input
expand-zeros total pos n m sp input h₁ h₂ o =
    let k : pos + n - pos ≡ n = omega arith in
    let o' = IsInOrder-of_le total (pos + n) m sp h₁ o in
    let e = expand-hole total pos (pos + n) sp input (omega arith) (omega arith) o' in
    e ∙ ap (λ j. replicate j 0 ++ expand total (pos + n) sp input) k

-- The bytes `b` inside a fragment come first, and the position moves on behind them.
pub expand-fragment :
    (total pos : ℕ) (s : SparseEntry) (sp : List SparseEntry) (b d : Bytes)
    → s.offset ≤ pos
    → pos + length b ≤ s.offset + s.num_bytes
    → expand total pos (s ∷ sp) (b ++ d) ≡ b ++ expand total (pos + length b) (s ∷ sp) d
expand-fragment total pos s sp b d h₁ h₂ =
    let k : fragment_left pos s ≡ s.offset + s.num_bytes - pos = omega arith in
    let z : s.offset - pos ≡ 0 = omega arith in
    let z' : s.offset - (pos + length b) ≡ 0 = omega arith in
    let j : fragment_left (pos + length b) s ≡ s.offset + s.num_bytes - pos - length b =
      omega arith in
    let h : length b ≤ s.offset + s.num_bytes - pos = omega arith in
    rw (z, z', k, j, take-past _ b d h, drop-past _ b d h) (append_assoc b _ _)

-- A fragment that is read to its end adds nothing more.
pub expand-end :
    (total : ℕ) (s : SparseEntry) (sp : List SparseEntry) (d : Bytes)
    → expand total (s.offset + s.num_bytes) (s ∷ sp) d ≡ expand total (s.offset + s.num_bytes) sp d
expand-end total s sp d =
    let z : s.offset - (s.offset + s.num_bytes) ≡ 0 = omega arith in
    let k : fragment_left (s.offset + s.num_bytes) s ≡ 0 = omega arith in rw (z, k) refl

pub expand-done :
    (total pos : ℕ) (sp : List SparseEntry) (d : Bytes)
    → total ≤ pos
    → IsInOrder total pos sp
    → expand total pos sp d ≡ []
unfolding IsInOrder
expand-done total pos [] d h o = let z : total - pos ≡ 0 = omega arith in rw (z) refl
expand-done total pos (s ∷ sp) d h (o₁, o₂, o) =
    let z : s.offset - pos ≡ 0 = omega arith in
    let k : fragment_left pos s ≡ 0 = omega arith in
    rw (z, k) (expand-done total (s.offset + s.num_bytes) sp d (omega arith) o)

-- Skipping empty fragments changes nothing of what is left to read.
pub expand-skip_empty :
    (total pos : ℕ) (sp : List SparseEntry) (d : Bytes)
    → IsPosition total pos sp
    → (expand total pos sp d ≡ expand total pos (skip_empty sp) d)
      × IsReady total pos (skip_empty sp)
unfolding IsPosition skip_empty IsReady
expand-skip_empty total pos [] d p = (refl, p)
expand-skip_empty total pos (s ∷ sp) d (p, h, o) = elim (Bool-cases (s.num_bytes == 0)) [
  | inl e ↦
      let z : s.num_bytes ≡ 0 = ground arith in
      let q : pos ≤ s.offset + s.num_bytes = ground arith in
      let (e', q') =
        expand-skip_empty total pos sp d (IsPosition-of_IsInOrder total pos _ sp q h o) in
      let k : fragment_left pos s ≡ 0 = omega arith in
      let m : s.offset - pos ≡ s.offset + s.num_bytes - pos = omega arith in
      rw (e) ((rw (k, m) refl ∙ sym (expand-hole total pos _ sp d q h o)) ∙ e', q')
  | inr e ↦ let q : pos < s.offset + s.num_bytes = ground arith in rw (e) (refl, (q, h, o))
]

-- The data that a map needs.
abbrev pub data_length : List SparseEntry → ℕ
data_length [] = 0
data_length (s ∷ sp) = s.num_bytes + data_length sp

length-expand :
    (total pos : ℕ) (s : SparseEntry) (sp : List SparseEntry) (d : Bytes)
    → pos ≤ s.offset
    → length (expand total pos (s ∷ sp) d)
      ≡ (s.offset - pos)
        + (min s.num_bytes (length d)
            + length (expand total (s.offset + s.num_bytes) sp (drop s.num_bytes d)))
length-expand total pos s sp d h =
    let k : fragment_left pos s ≡ s.num_bytes = omega arith in
    let rest : Bytes = expand total (s.offset + s.num_bytes) sp (drop s.num_bytes d) in
    rw (k) (
      omega (
        arith,
        length-append (replicate (s.offset - pos) 0) (take s.num_bytes d ++ rest),
        length-append (take s.num_bytes d) rest,
        length-replicate {A = ℕ} (s.offset - pos) 0,
        length-take s.num_bytes d,
      ))

pub length-expand-le :
    (total pos : ℕ) (sp : List SparseEntry) (d : Bytes)
    → pos ≤ total
    → IsInOrder total pos sp
    → length (expand total pos sp d) ≤ total - pos
unfolding IsInOrder
length-expand-le total pos [] d h o = omega (arith, length-replicate {A = ℕ} (total - pos) 0)
length-expand-le total pos (s ∷ sp) d h (h₁, h₂, o) = omega (
  arith,
  length-expand total pos s sp d h₁,
  length-expand-le total (s.offset + s.num_bytes) sp (drop s.num_bytes d) h₂ o,
)

-- An expansion that is not too short had the data of all fragments.
pub data_length-le :
    (total pos : ℕ) (sp : List SparseEntry) (d : Bytes)
    → pos ≤ total
    → IsInOrder total pos sp
    → total - pos ≤ length (expand total pos sp d)
    → data_length sp ≤ length d
unfolding IsInOrder
data_length-le total pos [] d h o e = omega arith
data_length-le total pos (s ∷ sp) d h (h₁, h₂, o) e =
    let rest : Bytes = drop s.num_bytes d in
    let l = length-expand total pos s sp d h₁ in
    let u = length-expand-le total (s.offset + s.num_bytes) sp rest h₂ o in
    let i = data_length-le total (s.offset + s.num_bytes) sp rest h₂ o (omega (arith, l, u, e)) in
    omega (arith, l, u, e, i, length-drop s.num_bytes d)
