-- ===== src/Tar/SparseMap1/Lines.antt =====
-- Lines of text, cut into blocks and read one by one (tar/reader.go, `feedTokens` and `nextToken`).
use arkive.Common.{
  ℕ, zero, suc, ◌+◌, ◌-◌, ◌*◌, ◌≤◌, ◌<◌, ◌≡◌, refl, sym, ap, ◌∙◌, ◌⊎◌, inl, inr, false, List, [],
  ◌∷◌, ◌++◌, append-nil, append_assoc, arith, Bytes, ltb, leb, ◌==◌, Bool-cases, length, get_or,
  take, drop, length-append, take-append-drop, length-take, length-drop, take_append, drop-append,
  take-append, All,
}
use arkive.Common.Go.{Result, ok}
use arkive.Tar.Pax.Record.{Lacks}
use arkive.Tar.Block.{block_size}
use arkive.Tar.SparseMap1.{
  Tokens, count_newlines, with_block, feed_tokens, read_string, cut_last, next_token,
}

-- Each text with a newline behind it, in front of `z`.
abbrev pub lines : List Bytes → Bytes → Bytes
lines [] z = z
lines (p ∷ ps) z = p ++ 10 ∷ lines ps z

pub count_newlines-append :
    (a b : Bytes) → count_newlines (a ++ b) ≡ count_newlines a + count_newlines b
unfolding count_newlines
count_newlines-append [] b = omega arith
count_newlines-append (c ∷ a) b = omega (arith, count_newlines-append a b)

pub count_newlines-Lacks : (p : Bytes) → Lacks 10 p → count_newlines p ≡ 0
unfolding count_newlines
count_newlines-Lacks [] h = refl
count_newlines-Lacks (c ∷ p) (hc, h) =
    let other : (c == 10) ≡ false = ground (arith, hc) in
    rw (other) (omega (arith, count_newlines-Lacks p h))

pub count_newlines-lines :
    (ps : List Bytes) (z : Bytes)
    → All (Lacks 10) ps
    → count_newlines (lines ps z) ≡ length ps + count_newlines z
unfolding count_newlines
count_newlines-lines [] z hs = omega arith
count_newlines-lines (p ∷ ps) z (h, hs) = omega (
  arith,
  count_newlines-append p (10 ∷ lines ps z),
  count_newlines-Lacks p h,
  count_newlines-lines ps z hs,
)

count_newlines-empty : (s : Bytes) → length s ≡ 0 → count_newlines s ≡ 0
unfolding count_newlines
count_newlines-empty [] h = refl
count_newlines-empty (c ∷ s) h = absurd (omega arith)

ltb-false : (n m : ℕ) → m ≤ n → ltb n m ≡ false
ltb-false n m h = ground arith

k_cases : (k : ℕ) → (k ≡ 0) ⊎ ((k' : ℕ) × (k ≡ suc k'))
k_cases zero = inl refl
k_cases (suc k) = inr (k, refl)

unmoved :
    (t : Tokens) (s : Bytes)
    → t.stream ≡ s
    → ◌≡◌ {A = Tokens} t (record { newlines = t.newlines + 0; buf = t.buf ++ []; stream = s })
unfolding count_newlines
unmoved t s e =
    let n : t.newlines ≡ t.newlines + 0 = omega arith in
    ap (λ (n : ℕ). record t { newlines = n }) n
    ∙ ap (λ b. record { newlines = t.newlines + 0; buf = b; stream = t.stream })
        (sym (append-nil t.buf))
    ∙ ap (λ s. record { newlines = t.newlines + 0; buf = t.buf ++ []; stream = s }) e

moved_tokens :
    {n m : ℕ} {a b : Bytes}
    → n ≡ m
    → a ≡ b
    → (s : Bytes)
    → ◌≡◌ {A = Result Tokens}
        (ok (record { newlines = n; buf = a; stream = s }))
        (ok (record { newlines = m; buf = b; stream = s }))
moved_tokens {m = m} {a = a} p q s =
    ap (λ (n : ℕ). ok (record { newlines = n; buf = a; stream = s })) p
    ∙ ap (λ a. ok (record { newlines = m; buf = a; stream = s })) q

-- Feeding stops at a block boundary, with enough newlines, inside a front that has enough.
pub feed_tokens-front :
    (k fuel cnt : ℕ) (t : Tokens) (front rest : Bytes)
    → t.stream ≡ front ++ rest
    → length front ≡ block_size * k
    → cnt ≤ t.newlines + count_newlines front
    → k < fuel
    → (a : Bytes) × (b : Bytes) × (j : ℕ) × (front ≡ a ++ b)
      × (length a ≡ block_size * j)
      × (cnt ≤ t.newlines + count_newlines a)
      × (feed_tokens fuel cnt t
          ≡ ok (record {
            newlines = t.newlines + count_newlines a;
            buf = t.buf ++ a;
            stream = b ++ rest;
          }))
unfolding feed_tokens count_newlines
feed_tokens-front k zero cnt t front rest s l c f = absurd (omega arith)
feed_tokens-front k (suc fuel) cnt t front rest s l c f = elim (Bool-cases (leb cnt t.newlines)) [
  | inl h ↦ (
    [],
    front,
    0,
    refl,
    omega arith,
    ground arith,
    rw (h) (ap (λ r. ok r) (unmoved t (front ++ rest) s)),
  )
  | inr h ↦ elim (k_cases k) [
    | inl z ↦
        let none_left : length front ≡ 0 = omega (arith, l, z) in
        absurd (ground (arith, count_newlines-empty front none_left))
    | inr (k', e) ↦
        let bl = length-take block_size front in
        let blk : take block_size t.stream ≡ take block_size front =
          ap (take block_size) s ∙ take-append block_size front rest (omega (arith, l, e)) in
        let left : drop block_size t.stream ≡ drop block_size front ++ rest =
          ap (drop block_size) s ∙ drop-append block_size front rest (omega (arith, l, e)) in
        let long : ltb (length t.stream) block_size ≡ false =
          ltb-false (length t.stream) block_size
            (omega (arith, ap length s, length-append front rest, l, e)) in
        let whole = take-append-drop block_size front in
        let counted = count_newlines-append (take block_size front) (drop block_size front) in
        let newlines : count_newlines front
            ≡ count_newlines (take block_size front) + count_newlines (drop block_size front) =
          ap count_newlines (sym whole) ∙ counted in
        let same : count_newlines (take block_size t.stream)
            ≡ count_newlines (take block_size front) =
          ap count_newlines blk in
        let (a, b, j, p, q, r, g) =
          feed_tokens-front k' fuel cnt (with_block t) (drop block_size front) rest left
            (omega (arith, length-drop block_size front, l, e)) (omega (arith, newlines, same, c))
            (omega (arith, e, f)) in
        let sums = count_newlines-append (take block_size front) a in
        let full = length-append (take block_size front) a in
        (
          take block_size front ++ a,
          b,
          suc j,
          sym whole
              ∙ ap (λ d. take block_size front ++ d) p
              ∙ sym (append_assoc (take block_size front) a b),
          omega (arith, full, q, bl, l, e),
          omega (arith, sums, same, r),
          rw (h, long)
              (g
                ∙ moved_tokens (omega (arith, sums, same))
                    (ap (λ d. (t.buf ++ d) ++ a) blk ∙ append_assoc t.buf (take block_size front) a)
                    (b ++ rest)),
        )
  ]
]

-- The first line of a front is whole, where the front has a newline.
pub first_line :
    (p r a b : Bytes)
    → Lacks 10 p
    → a ++ b ≡ p ++ 10 ∷ r
    → 1 ≤ count_newlines a
    → (a' : Bytes) × (a ≡ p ++ 10 ∷ a') × (a' ++ b ≡ r)
unfolding count_newlines
first_line p r [] b h e c = absurd (omega arith)
first_line [] r (x ∷ a) b h e c =
    let tail = ap (drop 1) e in
    let head = ap (λ l. get_or l 0 0) e in (a, ap (λ (n : ℕ). n ∷ a) head, tail)
first_line (y ∷ p) r (x ∷ a) b (hy, h) e c =
    let tail = ap (drop 1) e in
    let head = ap (λ l. get_or l 0 0) e in
    let other : (x == 10) ≡ false = ground (arith, hy, head) in
    let more : count_newlines (x ∷ a) ≡ count_newlines a = rw (other) (omega arith) in
    let (a', p', q') = first_line p r a b h tail (omega (arith, more, c)) in
    (a', ap (λ (n : ℕ). n ∷ a) head ∙ ap (λ l. y ∷ l) p', q')

-- A suffix without a newline lies behind the last one.
pub last_line :
    (x z a b : Bytes) → a ++ b ≡ x ++ 10 ∷ z → count_newlines b ≡ 0 → length b ≤ length z
unfolding count_newlines
last_line x z [] b e c =
    absurd (omega (arith, ap count_newlines e, count_newlines-append x (10 ∷ z), c))
last_line [] z (y ∷ a) b e c = omega (arith, ap length (ap (drop 1) e), length-append a b)
last_line (w ∷ x) z (y ∷ a) b e c = last_line x z a b (ap (drop 1) e) c

read_string-line : (p r : Bytes) → Lacks 10 p → read_string (p ++ 10 ∷ r) ≡ (p ++ 10 ∷ [], r)
unfolding read_string
read_string-line [] r h = refl
read_string-line (c ∷ p) r (hc, h) =
    let other : (c == 10) ≡ false = ground (arith, hc) in rw (other, read_string-line p r h) refl

cut_last-line : (p : Bytes) → cut_last (p ++ 10 ∷ []) ≡ ok p
unfolding cut_last
cut_last-line [] = refl
cut_last-line (c ∷ p) =
    let l : length (p ++ 10 ∷ []) ≡ suc (length p) = omega (arith, length-append p (10 ∷ [])) in
    ap (λ n. ok (take n (c ∷ (p ++ 10 ∷ [])))) l
    ∙ ap (λ s. ok (c ∷ s)) (take_append p (10 ∷ []) (length p) refl)

-- One line is read, and its newline cut off.
pub next_token-line :
    (p r s : Bytes) (n : ℕ)
    → Lacks 10 p
    → next_token (record { newlines = n; buf = p ++ 10 ∷ r; stream = s })
      ≡ ok (p, record { newlines = n - 1; buf = r; stream = s })
unfolding next_token
next_token-line p r s n h = rw (read_string-line p r h) (rw (cut_last-line p) refl)
