-- ===== src/Tar/SparseMap1/RoundTrip.antt =====
-- A sparse map of version 1.0 is read back, and the reader stands at the data behind it
-- (tar/reader.go, `readGNUSparseMap1x0`).
use arkive.Common.{
  ℕ, zero, suc, ◌+◌, ◌-◌, ◌*◌, ◌^◌, ◌≤◌, ◌<◌, ◌≡◌, refl, sym, ap, ◌∙◌, false, ◌||◌, List, [], ◌∷◌,
  ◌++◌, append-nil, append_assoc, arith, Bytes, length, replicate, length-append, length-replicate,
  All,
}
use arkive.Common.Words.{is_neg, add64, slt}
use arkive.Common.Digits.{format_int, parse_int-format_int}
use arkive.Common.Go.{ok}
use arkive.Tar.Pax.Record.{Lacks}
use arkive.Tar.Block.{block_size}
use arkive.Tar.FileReader.{SparseEntry}
use arkive.Tar.FileReader.Validate.{IsEntryWords}
use arkive.Tar.SparseMap.{parsed_int}
use arkive.Tar.SparseMap.Split.{Lacks-format_int, numbers, numbers-Lacks, length-numbers}
use arkive.Tar.SparseMap1.{count_newlines, read_entries, read_numbered, read_gnu_sparse_map1x0}
use arkive.Tar.SparseMap1.Lines.{
  lines, count_newlines-append, count_newlines-Lacks, count_newlines-lines, feed_tokens-front,
  first_line, last_line, next_token-line,
}

-- The text of a map, with `pad` zeros behind it.
abbrev pub map_text : List SparseEntry → ℕ → Bytes
map_text sp pad = lines (format_int 10 (length sp) ∷ numbers sp) (replicate pad 0)

read_entries-lines :
    (sp : List SparseEntry) (z s : Bytes) (n : ℕ)
    → All IsEntryWords sp
    → (m : ℕ) × (read_entries
          (length sp)
          (record { newlines = n; buf = lines (numbers sp) z; stream = s })
        ≡ ok (sp, record { newlines = m; buf = z; stream = s }))
unfolding read_entries parsed_int IsEntryWords
read_entries-lines [] z s n h = (n, refl)
read_entries-lines (e ∷ sp) z s n ((ho, hn), h) =
    let (m, f) = read_entries-lines sp z s (n - 1 - 1) h in
    (
      m,
      rw
          (next_token-line (format_int 10 e.offset)
            (lines (format_int 10 e.num_bytes ∷ numbers sp) z) s n
            (Lacks-format_int 10 e.offset (omega arith)))
          (rw (parse_int-format_int 10 (omega arith) (omega arith) e.offset ho) (
            rw
              (next_token-line (format_int 10 e.num_bytes) (lines (numbers sp) z) s (n - 1)
                (Lacks-format_int 10 e.num_bytes (omega arith)))
              (rw (parse_int-format_int 10 (omega arith) (omega arith) e.num_bytes hn)
                (rw (f) refl)))),
    )

count_newlines-zeros : (n : ℕ) → count_newlines (replicate n 0) ≡ 0
unfolding count_newlines
count_newlines-zeros zero = refl
count_newlines-zeros (suc n) = omega (arith, count_newlines-zeros n)

-- Lines end in a newline.
lines-last :
    (x : Bytes) (ps : List Bytes) (z : Bytes) → (y : Bytes) × (x ++ 10 ∷ lines ps z ≡ y ++ 10 ∷ z)
lines-last x [] z = (x, refl)
lines-last x (p ∷ ps) z =
    let (y, e) = lines-last (x ++ 10 ∷ p) ps z in (y, sym (append_assoc x (10 ∷ p) _) ∙ e)

count_newlines-line :
    (p r : Bytes) → Lacks 10 p → count_newlines (p ++ 10 ∷ r) ≡ suc (count_newlines r)
unfolding count_newlines
count_newlines-line p r h =
    omega (arith, count_newlines-append p (10 ∷ r), count_newlines-Lacks p h)

empty : (s : Bytes) → length s ≡ 0 → s ≡ []
empty [] h = refl
empty (c ∷ s) h = absurd (omega arith)

-- Behind the first line, which has left `a` in the buffer and `b` in the reader.
read_numbered-lines :
    (sp : List SparseEntry) (pad k c : ℕ) (a b rest : Bytes)
    → All IsEntryWords sp
    → length sp < 2 ^ 61
    → pad < block_size
    → a ++ b ≡ lines (numbers sp) (replicate pad 0)
    → c ≡ count_newlines a
    → length b ≡ block_size * k
    → ((a' : Bytes) (b' : Bytes) → b ≡ a' ++ b' → count_newlines b' ≡ 0 → length b' ≤ pad)
    → read_numbered (length sp) (record { newlines = c; buf = a; stream = b ++ rest })
      ≡ ok (sp, rest)
unfolding read_numbered
read_numbered-lines sp pad k c a b rest words few short text counted whole last =
    let n : ℕ = length sp in
    let z : Bytes = replicate pad 0 in
    let positive : (is_neg n || slt (add64 n n) n) ≡ false = numbered few in
    let twice : add64 n n ≡ n + n = omega (arith, few) in
    let total = ap count_newlines text in
    let parts = count_newlines-append a b in
    let all = count_newlines-lines (numbers sp) z (numbers-Lacks 10 sp (omega arith)) in
    let zeros = count_newlines-zeros pad in
    let texts = length-numbers sp in
    let (a', b', j, p, q, r, g) =
      feed_tokens-front k (suc (length (b ++ rest))) (add64 n n)
        (record { newlines = c; buf = a; stream = b ++ rest }) b rest refl whole
        (omega (arith, twice, total, parts, all, zeros, texts, counted))
        (omega (arith, whole, length-append b rest)) in
    let parts' = ap count_newlines p in
    let more = count_newlines-append a' b' in
    let done : count_newlines b' ≡ 0 =
      omega (arith, twice, total, parts, all, zeros, texts, counted, r, parts', more) in
    let few_left = last a' b' p done in
    let sum = ap length p in
    let sum' = length-append a' b' in
    let gone : b' ≡ [] = empty b' (omega (arith, few_left, short, sum, sum', whole, q)) in
    let buffer : a ++ a' ≡ lines (numbers sp) z =
      ap (λ s. a ++ s) (sym (append-nil a') ∙ ap (λ s. a' ++ s) (sym gone) ∙ sym p) ∙ text in
    let (m, f) = read_entries-lines sp z rest (c + count_newlines a') words in
    rw (positive, g) (rw (buffer, gone) (rw (f) refl))
  where
    numbered : {n : ℕ} → n < 2 ^ 61 → (is_neg n || slt (add64 n n) n) ≡ false
    numbered h = ground arith

-- A map of fewer than 2^61 int64 entries, written as lines of its numbers and filled up with zeros
-- to whole blocks, is read back as it was, and what the reader yields next is the data behind the
-- map: no block too few or too many is read.
pub read_gnu_sparse_map1x0-map_text :
    (sp : List SparseEntry) (pad k : ℕ) (rest : Bytes)
    → All IsEntryWords sp
    → length sp < 2 ^ 61
    → length (map_text sp pad) ≡ block_size * k
    → pad < block_size
    → read_gnu_sparse_map1x0 (map_text sp pad ++ rest) ≡ ok (sp, rest)
unfolding read_gnu_sparse_map1x0 read_numbered parsed_int
read_gnu_sparse_map1x0-map_text sp pad k rest words few whole short =
    let n : ℕ = length sp in
    let line : Bytes = format_int 10 n in
    let behind : Bytes = lines (numbers sp) (replicate pad 0) in
    let text : Bytes = map_text sp pad in
    let lacks : Lacks 10 line = Lacks-format_int 10 n (omega arith) in
    let counted =
      count_newlines-lines (line ∷ numbers sp) (replicate pad 0)
        (lacks, numbers-Lacks 10 sp (omega arith)) in
    let (a, b, j, p, q, r, g) =
      feed_tokens-front k (suc (length (text ++ rest))) 1
        (record { newlines = 0; buf = []; stream = text ++ rest }) text rest refl whole
        (omega (arith, counted)) (omega (arith, whole, length-append text rest)) in
    let (a', pa, pb) = first_line line behind a b lacks (sym p) (omega (arith, r)) in
    let (y, ends) = lines-last line (numbers sp) (replicate pad 0) in
    let l = ap length p in
    let l' = length-append a b in
    rw (g) (
      rw (pa) (
        rw (next_token-line line a' (b ++ rest) (0 + count_newlines (line ++ 10 ∷ a')) lacks) (
          rw (parse_int-format_int 10 (omega arith) (omega arith) n (omega (arith, few))) (
            read_numbered-lines sp pad (k - j) _ a' b rest words few short pb
              (omega (arith, count_newlines-line line a' lacks)) (omega (arith, l, l', whole, q))
              (λ c d e f.
                let m =
                  last_line y (replicate pad 0) (a ++ c) d
                    (append_assoc a c d ∙ ap (λ s. a ++ s) (sym e) ∙ sym p ∙ ends) f in
                omega (arith, m, length-replicate {A = ℕ} pad 0))))))
