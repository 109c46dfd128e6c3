-- ===== src/Tar/OldSparseMap/Blocks.antt =====
-- How far `readOldGNUSparseMap` (tar/reader.go) reads, and how many entries it gives.
use arkive.Common.{
  ℕ, zero, suc, ◌+◌, ◌*◌, ◌≤◌, ◌<◌, ◌≡◌, refl, ◌∙◌, ap, subst, none, some, List, ◌++◌, Bytes, ltb,
  ◌==◌, length, get_or, drop, false, Bool-cases, ◌⊎◌, inl, inr, arith, length-append, length-take,
  length-drop, drop-drop,
}
use arkive.Common.Go.{Error, unexpected_eof, err_header, Result, ok, err, panic, stuck, ◌>>=◌}
use arkive.Tar.Strconv.{Parser, parse_numeric}
use arkive.Tar.Strconv.Errors.{IsParser, parse_numeric-IsParser}
use arkive.Tar.Block.{get, block_size}
use arkive.Tar.Block.Gnu
use arkive.Tar.Block.SparseNode
use arkive.Tar.Block.SparseNode.{entry, max_entries, is_extended}
use arkive.Tar.Format.{get_format}
use arkive.Tar.FileReader.{SparseEntry}
use arkive.Tar.Header.{Header}
use arkive.Tar.OldSparseMap.{
  checked, read_node, read_nodes, read_extension, read_arrays, read_real_size, is_gnu,
  read_old_gnu_sparse_map,
}

-- An answer is a value with `P`, or one of the two errors; it does not panic and does not run out
-- of fuel.
abbrev pub Gives {ℓ} : {A : Type ℓ} → (A → Type 0) → Result A → Type 0
Gives P (ok a) = P a
Gives P (err e) = (e ≡ err_header) ⊎ (e ≡ unexpected_eof)
Gives P panic = ⊥
Gives P stuck = ⊥

Gives-bind :
    {A B : Type 0} (P : A → Type 0) (Q : B → Type 0) (x : Result A) (f : A → Result B)
    → Gives P x
    → ((a : A) → P a → Gives Q (f a))
    → Gives Q (x >>= f)
Gives-bind P Q (ok a) f h next = next a h
Gives-bind P Q (err e) f h next = h
Gives-bind P Q panic f h next = absurd h
Gives-bind P Q stuck f h next = absurd h

some-IsParser : (e : Error) → IsParser (some e) → e ≡ err_header
some-IsParser e (inl h) = cc
some-IsParser e (inr h) = cc

checked-Gives :
    {A : Type 0} (P : A → Type 0) (p : Parser) (a : A) → IsParser p → P a → Gives P (checked p a)
unfolding checked
checked-Gives P none a h k = k
checked-Gives P (some e) a h k = inl (some-IsParser e h)

read_node-Gives : (s : Bytes) → Gives (λ _. Unit) (read_node s)
unfolding read_node
read_node-Gives s =
    let offset = parse_numeric none (get SparseNode.offset s) in
    let num_bytes = parse_numeric offset.1 (get SparseNode.num_bytes s) in
    checked-Gives (λ _. Unit) num_bytes.1 (record { offset = offset.0; num_bytes = num_bytes.0 })
      (parse_numeric-IsParser offset.1 (get SparseNode.num_bytes s)
        (parse_numeric-IsParser none (get SparseNode.offset s) (inl refl)))
      tt

read_nodes-Gives :
    (n i : ℕ) (s : Bytes) → Gives (λ (sp : List SparseEntry). length sp ≤ n) (read_nodes n i s)
unfolding read_nodes
read_nodes-Gives zero i s = omega arith
read_nodes-Gives (suc n) i s =
    elim (Bool-cases (get_or (get SparseNode.offset (entry i s)) 0 0 == 0)) [
      | inl h ↦ rw (h) (omega arith)
      | inr h ↦ rw (h) (
          Gives-bind _ _ (read_node (entry i s)) _ (read_node-Gives (entry i s)) (λ e _.
            Gives-bind _ _ (read_nodes n (suc i) s) _ (read_nodes-Gives n (suc i) s)
              (λ sp k. omega (arith, k))))
    ]

-- `k` blocks are taken from `r`; the first array has at most `first` entries, a block at most 21.
abbrev pub TakesBlocks : ℕ → Bytes → List SparseEntry → Bytes → Type 0
TakesBlocks first r sp rest =
    (k : ℕ) × (rest ≡ drop (k * block_size) r)
    × (k * block_size ≤ length r)
    × (length sp ≤ first + 21 * k)

ltb-false : (m n : ℕ) → ltb m n ≡ false → n ≤ m
ltb-false m n h = ground arith

read_extension-Gives :
    (r : Bytes)
    → Gives
        (λ (x : Bytes × Bytes).
          (length x.0 ≡ block_size) × (x.1 ≡ drop block_size r) × (block_size ≤ length r))
        (read_extension r)
unfolding read_extension
read_extension-Gives r = elim (Bool-cases (ltb (length r) block_size)) [
  | inl h ↦ rw (h) (inr refl)
  | inr h ↦
      let l = ltb-false (length r) block_size h in
      rw (h) (omega (arith, l, length-take block_size r), refl, l)
]

-- The blocks of the rounds after the first.
takes-more :
    (n : ℕ) (s r : Bytes) (sp more : List SparseEntry) (rest : Bytes)
    → length sp ≤ n
    → length s ≡ block_size
    → block_size ≤ length r
    → TakesBlocks (max_entries s) (drop block_size r) more rest
    → TakesBlocks n r (sp ++ more) rest
takes-more n s r sp more rest h hs hr (k, e, l, m) = (
  suc k,
  e ∙ drop-drop block_size (k * block_size) r ∙ ap (λ i. drop i r) (omega arith),
  omega (arith, l, length-drop block_size r),
  omega (arith, m, hs, length-append sp more),
)

read_arrays-Gives :
    (fuel : ℕ) (s r : Bytes)
    → length r < fuel
    → Gives
        (λ (x : List SparseEntry × Bytes). TakesBlocks (max_entries s) r x.0 x.1)
        (read_arrays fuel s r)
unfolding read_arrays
read_arrays-Gives zero s r h = absurd (omega arith)
read_arrays-Gives (suc fuel) s r h =
    Gives-bind _ _ (read_nodes (max_entries s) 0 s) _ (read_nodes-Gives (max_entries s) 0 s)
      (λ sp k. elim (Bool-cases (ltb 0 (get_or (is_extended s) 0 0))) [
        | inl e ↦ rw (e) (
            Gives-bind _ _ (read_extension r) _ (read_extension-Gives r) (λ x hx.
              Gives-bind _ _ (read_arrays fuel x.0 x.1) _
                (read_arrays-Gives fuel x.0 x.1 (ground (arith, length-drop block_size r)))
                (λ y hy.
                  takes-more (max_entries s) x.0 r sp y.0 y.1 k hx.0 hx.2
                    (subst (λ q. TakesBlocks (max_entries x.0) q y.0 y.1) hx.1 hy))))
        | inr e ↦ rw (e) (0, refl, omega arith, omega (arith, k))
      ])

read_real_size-Gives :
    (h : Header) (b : Bytes)
    → Gives (λ (g : Header). g ≡ record h { size = g.size }) (read_real_size h b)
unfolding read_real_size
read_real_size-Gives h b =
    let size = parse_numeric none (get Gnu.real_size b) in
    checked-Gives _ size.1 (record h { size = size.0 })
      (parse_numeric-IsParser none (get Gnu.real_size b) (inl refl)) refl

-- The array in a header has four entries at most.
takes-header :
    (b r : Bytes) (sp : List SparseEntry) (rest : Bytes)
    → TakesBlocks (max_entries (get Gnu.sparse b)) r sp rest
    → TakesBlocks 4 r sp rest
takes-header b r sp rest (k, e, l, m) = (k, e, l, omega (arith, m, length-take 97 (drop 386 b)))

-- The old sparse map is read for every header, block and stream, or answered with ErrHeader or
-- io.ErrUnexpectedEOF, and the loops end. When it is read, only the size of the header has changed,
-- whole blocks were taken from the stream, and there are at most four entries and 21 more for each
-- of these blocks.
pub read_old_gnu_sparse_map-Gives :
    (h : Header) (b r : Bytes)
    → Gives
        (λ (x : (Header × List SparseEntry) × Bytes).
          (x.0.0 ≡ record h { size = x.0.0.size }) × TakesBlocks 4 r x.0.1 x.1)
        (read_old_gnu_sparse_map h b r)
unfolding read_old_gnu_sparse_map
read_old_gnu_sparse_map-Gives h b r = elim (Bool-cases (is_gnu (get_format b))) [
  | inl e ↦ rw (e) (
      Gives-bind _ _ (read_real_size h b) _ (read_real_size-Gives h b) (λ g hg.
        Gives-bind _ _ (read_arrays (suc (length r)) (get Gnu.sparse b) r) _
          (read_arrays-Gives (suc (length r)) (get Gnu.sparse b) r (omega arith))
          (λ x hx. (hg, takes-header b r x.0 x.1 hx))))
  | inr e ↦ rw (e) (inl refl)
]
