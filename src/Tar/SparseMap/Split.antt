-- ===== src/Tar/SparseMap/Split.antt =====
-- The map of a sparse file as text, read again (tar/reader.go).
use arkive.Common.{
  ℕ, suc, ◌-◌, ◌*◌, ◌^◌, ◌<◌, ◌≡◌, refl, ap, ◌∙◌, inl, inr, true, false, ◌||◌, some, List, [], ◌∷◌,
  ◌++◌, arith, Bytes, ◌==◌, Bool-cases, length, All,
}
use arkive.Common.Words.{u64_mod, is_neg, add64, slt}
use arkive.Common.Digits.{format_uint, format_int, is_digit, digits-IsDigit, parse_int-format_int}
use arkive.Common.Text.{lookup}
use arkive.Common.Go.{ok}
use arkive.Tar.Pax.Record.{Lacks}
use arkive.Tar.PaxHeaders.{Headers, pax_gnu_sparse_map, join}
use arkive.Tar.FileReader.{SparseEntry}
use arkive.Tar.FileReader.Validate.{IsEntryWords}
use arkive.Tar.SparseMap.{
  pax_gnu_sparse_num_blocks, value_at, split, parsed_int, parse_entries, read_map,
  read_gnu_sparse_map0x1, cons_head,
}

split-whole : (c : ℕ) (p : Bytes) → Lacks c p → split c p ≡ p ∷ []
unfolding split cons_head
split-whole c [] h = refl
split-whole c (d ∷ p) (hd, h) =
    let other : (d == c) ≡ false = ground (arith, hd) in rw (other, split-whole c p h) refl

split-append : (c : ℕ) (p s : Bytes) → Lacks c p → split c (p ++ c ∷ s) ≡ p ∷ split c s
unfolding split cons_head
split-append c [] s h = ground arith
split-append c (d ∷ p) s (hd, h) =
    let other : (d == c) ≡ false = ground (arith, hd) in rw (other, split-append c p s h) refl

-- What `Join` has put together with commas, `Split` takes apart.
split-join :
    (p : Bytes) (ps : List Bytes) → All (Lacks b',') (p ∷ ps) → split b',' (join (p ∷ ps)) ≡ p ∷ ps
unfolding join
split-join p [] (h, _) = split-whole b',' p h
split-join p (q ∷ ps) (h, hs) =
    split-append b',' p (join (q ∷ ps)) h ∙ ap (◌∷◌ p) (split-join q ps hs)

Lacks-number : (d : ℕ) (s : Bytes) → d < 48 → All (λ c. is_digit 10 c ≡ true) s → Lacks d s
unfolding is_digit
Lacks-number d [] low h = tt
Lacks-number d (c ∷ s) low h = (λ e. ground arith, Lacks-number d s low h.1)

-- A number has neither commas nor newlines.
pub Lacks-format_int : (d x : ℕ) → d < b'-' → Lacks d (format_int 10 x)
unfolding format_int format_uint
Lacks-format_int d x low = elim (Bool-cases (is_neg x)) [
  | inl negative ↦ rw negative (
    λ e. omega (arith, low, e),
    Lacks-number d _ (omega (arith, low))
        (digits-IsDigit 10 (omega arith) (omega arith) (suc (u64_mod - x)) (u64_mod - x)),
  )
  | inr positive ↦ rw positive (
      Lacks-number d _ (omega (arith, low))
        (digits-IsDigit 10 (omega arith) (omega arith) (suc x) x))
]

-- The texts of a map: offset and length of each fragment in turn.
abbrev pub numbers : List SparseEntry → List Bytes
numbers [] = []
numbers (s ∷ sp) = format_int 10 s.offset ∷ format_int 10 s.num_bytes ∷ numbers sp

pub numbers-Lacks : (d : ℕ) (sp : List SparseEntry) → d < b'-' → All (Lacks d) (numbers sp)
numbers-Lacks d [] low = tt
numbers-Lacks d (s ∷ sp) low =
    (Lacks-format_int d s.offset low, (Lacks-format_int d s.num_bytes low, numbers-Lacks d sp low))

pub length-numbers : (sp : List SparseEntry) → length (numbers sp) ≡ 2 * length sp
length-numbers [] = omega arith
length-numbers (s ∷ sp) = omega (arith, length-numbers sp)

parse_entries-numbers :
    (sp : List SparseEntry) → All IsEntryWords sp → parse_entries (numbers sp) ≡ ok sp
unfolding parse_entries parsed_int IsEntryWords
parse_entries-numbers [] h = refl
parse_entries-numbers (s ∷ sp) ((ho, hn), h) =
    rw
      (
        parse_int-format_int 10 (omega arith) (omega arith) s.offset ho,
        parse_int-format_int 10 (omega arith) (omega arith) s.num_bytes hn,
        parse_entries-numbers sp h,
      )
      refl

read_map-numbers :
    (s : SparseEntry) (sp : List SparseEntry)
    → All IsEntryWords (s ∷ sp)
    → length (s ∷ sp) < 2 ^ 61
    → read_map (format_int 10 (length (s ∷ sp))) (join (numbers (s ∷ sp))) ≡ ok (s ∷ sp)
unfolding read_map parsed_int
read_map-numbers s sp words small =
    let n = length (s ∷ sp) in
    let l = length-numbers (s ∷ sp) in
    let positive : (is_neg n || slt (add64 n n) n) ≡ false = ground arith in
    let even : (length (numbers (s ∷ sp)) == add64 n n) ≡ true = ground arith in
    rw
      (
        parse_int-format_int 10 (omega arith) (omega arith) n (omega arith),
        positive,
        split-join (format_int 10 s.offset) (format_int 10 s.num_bytes ∷ numbers sp)
            (numbers-Lacks b',' (s ∷ sp) (omega arith)),
        even,
      )
      (parse_entries-numbers (s ∷ sp) words)

value_at-some : (m : Headers) (k v : Bytes) → lookup k m ≡ some v → value_at m k ≡ v
unfolding value_at
value_at-some m k v h = rw (h, value_at) refl

-- A map of at least one and less than 2^61 fragments of int64 numbers, written as the count and the
-- joined numbers in the headers, is read back as it was, in order. (An empty map is not: the empty
-- text splits into one part.)
pub read_gnu_sparse_map0x1-numbers :
    (m : Headers) (s : SparseEntry) (sp : List SparseEntry)
    → All IsEntryWords (s ∷ sp)
    → length (s ∷ sp) < 2 ^ 61
    → lookup pax_gnu_sparse_num_blocks m ≡ some (format_int 10 (length (s ∷ sp)))
    → lookup pax_gnu_sparse_map m ≡ some (join (numbers (s ∷ sp)))
    → read_gnu_sparse_map0x1 m ≡ ok (s ∷ sp)
unfolding read_gnu_sparse_map0x1
read_gnu_sparse_map0x1-numbers m s sp words small count text =
    ap (λ x. read_map x (value_at m pax_gnu_sparse_map)) (value_at-some m _ _ count)
    ∙ ap (read_map (format_int 10 (length (s ∷ sp)))) (value_at-some m _ _ text)
    ∙ read_map-numbers s sp words small
