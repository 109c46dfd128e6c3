-- ===== src/Tar/Writer/Split.antt =====
-- `splitUSTARPath` (tar/writer.go).
use arkive.Common.{
  ℕ, suc, ◌-◌, ◌≤◌, ◌<◌, ◌≡◌, refl, sym, ap, subst, ◌∙◌, ◌≢◌, inl, inr, true, not, ◌||◌, Option,
  none, some, [], ◌∷◌, ◌++◌, append_assoc, arith, Bytes, ltb, leb, ◌==◌, Bool-cases, Option-cases,
  length, take, drop, take-append-drop, length-take, length-drop, drop-append, take-append,
}
use arkive.Tar.Strconv.{is_ascii}
use arkive.Tar.Block.{name_size, prefix_size}
use arkive.Tar.Writer.{last_index, searched, split_at, split_ustar_path, later_index}

later_index-splits :
    (c d : ℕ) (s : Bytes) (o : Option ℕ) (i : ℕ)
    → ((j : ℕ) → o ≡ some j → (j < length s) × (s ≡ take j s ++ c ∷ drop (suc j) s))
    → later_index c d o ≡ some i
    → (i < length (d ∷ s)) × (d ∷ s ≡ take i (d ∷ s) ++ c ∷ drop (suc i) (d ∷ s))
unfolding later_index
later_index-splits c d s (some j) i later h =
    let p : suc j ≡ i = cc in
    let (lt, e) = later j refl in
    subst (λ k. (k < length (d ∷ s)) × (d ∷ s ≡ take k (d ∷ s) ++ c ∷ drop (suc k) (d ∷ s))) p
      (omega arith, ap (◌∷◌ d) e)
later_index-splits c d s none i later h = elim (Bool-cases (d == c)) [
  | inl same ↦
      let q : some 0 ≡ some i = sym (rw (same) refl) ∙ h in
      let p : 0 ≡ i = cc in
      let r : d ≡ c = ground arith in
      subst (λ k. (k < length (d ∷ s)) × (d ∷ s ≡ take k (d ∷ s) ++ c ∷ drop (suc k) (d ∷ s))) p
        (omega arith, ap (λ x. x ∷ s) r)
  | inr other ↦ let q : none ≡ some i = sym (rw (other) refl) ∙ h in absurd cc
]

last_index-splits :
    (c : ℕ) (s : Bytes) (i : ℕ)
    → last_index c s ≡ some i
    → (i < length s) × (s ≡ take i s ++ c ∷ drop (suc i) s)
unfolding last_index
last_index-splits c [] i h = absurd cc
last_index-splits c (d ∷ s) i h =
    later_index-splits c d s (last_index c s) i (last_index-splits c s) h

last_index-take :
    (c n : ℕ) (s : Bytes) (i : ℕ)
    → last_index c (take n s) ≡ some i
    → (i < length s) × (s ≡ take i s ++ c ∷ drop (suc i) s)
last_index-take c n s i h =
    let (lt, e) = last_index-splits c (take n s) i h in
    let whole = take-append-drop n s in
    let l = length-take n s in
    let front : take i s ≡ take i (take n s) =
      ap (λ x. take i x) (sym whole) ∙ take-append i (take n s) (drop n s) (omega arith) in
    let back : drop (suc i) s ≡ drop (suc i) (take n s) ++ drop n s =
      ap (λ x. drop (suc i) x) (sym whole)
      ∙ drop-append (suc i) (take n s) (drop n s) (omega arith) in
    (
      omega arith,
      sym whole
          ∙ ap (λ x. x ++ drop n s) e
          ∙ append_assoc (take i (take n s)) (c ∷ drop (suc i) (take n s)) (drop n s)
          ∙ ap (λ x. x ++ c ∷ (drop (suc i) (take n s) ++ drop n s)) (sym front)
          ∙ ap (λ x. take i s ++ c ∷ x) (sym back),
    )

split_at-splits :
    (name : Bytes) (i : ℕ) (prefix suffix : Bytes)
    → i < length name
    → name ≡ take i name ++ b'/' ∷ drop (suc i) name
    → split_at name (some i) ≡ some (prefix, suffix)
    → (name ≡ prefix ++ b'/' ∷ suffix)
      × (1 ≤ length prefix)
      × (length prefix ≤ prefix_size)
      × (1 ≤ length suffix)
      × (length suffix ≤ name_size)
unfolding split_at
split_at-splits name i prefix suffix lt e =
    let nlen = length name - i - 1 in
    let l = length-take i name in
    let l' = length-drop (suc i) name in
    elim (Bool-cases (i == 0 || ltb name_size nlen || nlen == 0 || ltb prefix_size i)) [
      | inl h ↦ rw (h) (λ x. absurd cc)
      | inr h ↦ rw (h) (λ x.
          let p : take i name ≡ prefix = cc in
          let q : drop (suc i) name ≡ suffix = cc in
          let fits : (1 ≤ i) × (i ≤ prefix_size) × (1 ≤ nlen) × (nlen ≤ name_size) = ground arith in
          let (f₁, f₂, f₃, f₄) = fits in
          let lp : length prefix ≡ i = ap length (sym p) ∙ omega arith in
          let lq : length suffix ≡ nlen = ap length (sym q) ∙ omega arith in
          (
            e ∙ ap (λ y. y ++ b'/' ∷ drop (suc i) name) p ∙ ap (λ y. prefix ++ b'/' ∷ y) q,
            omega arith,
            omega arith,
            omega arith,
            omega arith,
          ))
    ]

-- A path that is split is its prefix, a slash and its suffix, neither of them is empty, and they
-- fit in the fields of the USTAR header. Only ASCII paths longer than the name field are split.
pub split_ustar_path-splits :
    (name prefix suffix : Bytes)
    → split_ustar_path name ≡ some (prefix, suffix)
    → (name ≡ prefix ++ b'/' ∷ suffix)
      × (1 ≤ length prefix)
      × (length prefix ≤ prefix_size)
      × (1 ≤ length suffix)
      × (length suffix ≤ name_size)
      × (is_ascii name ≡ true)
      × (name_size < length name)
unfolding split_ustar_path split_at
split_ustar_path-splits name prefix suffix =
    elim (Bool-cases (leb (length name) name_size || not (is_ascii name))) [
      | inl h ↦ rw (h) (λ e. absurd cc)
      | inr h ↦
          let ascii : is_ascii name ≡ true = ground arith in
          let long : name_size < length name = ground arith in
          rw (h) (λ e. elim (Option-cases (last_index b'/' (take (searched name) name))) [
            | inl k ↦ absurd (none-ne-some (sym (ap (split_at name) k) ∙ e))
            | inr (i, k) ↦
                let (lt, parts) = last_index-take b'/' (searched name) name i k in
                let (a, b, c, d, f) =
                  split_at-splits name i prefix suffix lt parts (sym (ap (split_at name) k) ∙ e) in
                (a, b, c, d, f, ascii, long)
          ])
    ]
  where
    none-ne-some : split_at name none ≢ some (prefix, suffix)
    none-ne-some e = cc
