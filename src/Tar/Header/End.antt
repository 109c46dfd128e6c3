-- ===== src/Tar/Header/End.antt =====
-- Where `readHeader` (tar/reader.go) finds the end of an archive.
use arkive.Common.{
  ℕ, ◌≡◌, refl, sym, ap, ◌∙◌, ◌≢◌, ◌↔◌, ◌⊎◌, inl, inr, true, false, ◌||◌, none, some, [], ◌∷◌, ◌++◌,
  append-nil, arith, Bytes, ltb, ◌==◌, Bool-cases, bytes_eq_iff, length, take, drop, length-append,
  take-append-drop, length-replicate, take_append, drop_append,
}
use arkive.Common.Go.{eof, unexpected_eof, Result, ok, err, panic, stuck, ◌>>=◌}
use arkive.Tar.Strconv.{Parser}
use arkive.Tar.Strconv.Errors.{IsParser, parse_numeric-IsParser}
use arkive.Tar.Block.{block_size}
use arkive.Tar.Format.{
  Format, get_format, format_unknown, format_v7, format_gnu, format_star, format_ustar, format_pax,
}
use arkive.Tar.Header.{
  Header, read_block, zero_block, is_zero_block, unpack_v7, unpack_device, unpack_format,
  unpack_names, answer, unpack, read_second, read_header,
}

-- Only the parser of header fields has set the error.
IsUnpacked : Header × Parser → Type 0
IsUnpacked x = IsParser x.1

unpack_v7-IsUnpacked : (b : Bytes) → IsUnpacked (unpack_v7 b)
unfolding IsUnpacked unpack_v7
unpack_v7-IsUnpacked b = parse_numeric-IsParser _ _ (
    parse_numeric-IsParser _ _ (
      parse_numeric-IsParser _ _
        (parse_numeric-IsParser _ _ (parse_numeric-IsParser none _ (inl refl)))))

unpack_names-IsUnpacked :
    (b : Bytes) (x : Header × Parser) → IsUnpacked x → IsUnpacked (unpack_names b x)
unfolding IsUnpacked unpack_names
unpack_names-IsUnpacked b (h, p) u = u

unpack_device-IsUnpacked :
    (b : Bytes) (x : Header × Parser) → IsUnpacked x → IsUnpacked (unpack_device b x)
unfolding IsUnpacked unpack_device
unpack_device-IsUnpacked b (h, p) u =
    elim (Bool-cases (h.type_flag == b'3' || h.type_flag == b'4')) [
      | inl k ↦ rw (k) (parse_numeric-IsParser _ _ (parse_numeric-IsParser p _ u))
      | inr k ↦ rw (k) u
    ]

unpack_format-IsUnpacked :
    (f : Format) (b : Bytes) (x : Header × Parser) → IsUnpacked x → IsUnpacked (unpack_format f b x)
unfolding IsUnpacked unpack_format
unpack_format-IsUnpacked format_ustar b (h, p) u = u
unpack_format-IsUnpacked format_star b (h, p) u =
    parse_numeric-IsParser _ _ (parse_numeric-IsParser p _ u)
unpack_format-IsUnpacked format_gnu b (h, p) u = u
unpack_format-IsUnpacked format_pax b (h, p) u = u
unpack_format-IsUnpacked format_v7 b (h, p) u = u
unpack_format-IsUnpacked format_unknown b (h, p) u = u

answer-ne-eof : (b : Bytes) (x : Header × Parser) → IsUnpacked x → answer b x ≢ err eof
unfolding IsUnpacked answer
answer-ne-eof b (h, none) u e = cc
answer-ne-eof b (h, some f) (inl p) e = absurd cc
answer-ne-eof b (h, some f) (inr p) e = absurd cc

named : Bytes → Header × Parser
named b = unpack_device b (unpack_names b (unpack_v7 b))

named-IsUnpacked : (b : Bytes) → IsUnpacked (unpack_device b (unpack_names b (unpack_v7 b)))
named-IsUnpacked b =
    unpack_device-IsUnpacked b _ (unpack_names-IsUnpacked b _ (unpack_v7-IsUnpacked b))

unpack-ne-eof : (f : Format) (b : Bytes) → unpack f b ≢ err eof
unfolding unpack
unpack-ne-eof format_unknown b e = cc
unpack-ne-eof format_v7 b e = answer-ne-eof b _ (unpack_v7-IsUnpacked b) e
unpack-ne-eof format_gnu b e =
    answer-ne-eof b _ (unpack_format-IsUnpacked format_gnu b _ (named-IsUnpacked b)) e
unpack-ne-eof format_star b e =
    answer-ne-eof b _ (unpack_format-IsUnpacked format_star b _ (named-IsUnpacked b)) e
unpack-ne-eof format_ustar b e =
    answer-ne-eof b _ (unpack_format-IsUnpacked format_ustar b _ (named-IsUnpacked b)) e
unpack-ne-eof format_pax b e =
    answer-ne-eof b _ (unpack_format-IsUnpacked format_pax b _ (named-IsUnpacked b)) e

length-zero_block : length zero_block ≡ block_size
unfolding zero_block
length-zero_block = length-replicate {A = ℕ} block_size 0

read_block-append : (b rest : Bytes) → length b ≡ block_size → read_block (b ++ rest) ≡ ok (b, rest)
unfolding read_block
read_block-append b rest h =
    let k : ltb (length (b ++ rest)) block_size ≡ false = ground (arith, length-append b rest) in
    rw (k, take_append b rest block_size (sym h), drop_append b rest block_size (sym h)) refl

-- A block is read, or the stream is empty, or it ends inside the block.
read_block_cases :
    (s : Bytes)
    → ((s ≡ []) × (read_block s ≡ err eof))
      ⊎ (read_block s ≡ err unexpected_eof)
      ⊎ ((b : Bytes) × (rest : Bytes) × (s ≡ b ++ rest) × (read_block s ≡ ok (b, rest)))
unfolding read_block
read_block_cases s = elim (Bool-cases (ltb (length s) block_size)) [
  | inl k ↦ elim (Bool-cases (length s == 0)) [
    | inl m ↦ inl (empty s (ground arith), rw (k, m) refl)
    | inr m ↦ inr (inl (rw (k, m) refl))
  ]
  | inr k ↦
      inr (
        inr
          (take block_size s, drop block_size s, sym (take-append-drop block_size s), rw (k) refl))
]
  where
    empty : (s : Bytes) → length s ≡ 0 → s ≡ []
    empty [] h = refl
    empty (c ∷ s) h = absurd (omega arith)

is_zero_block-eq : (b : Bytes) → is_zero_block b ≡ true → b ≡ zero_block
unfolding is_zero_block
is_zero_block-eq b h = (bytes_eq_iff b zero_block).0 h

is_zero_block-zero : is_zero_block zero_block ≡ true
unfolding is_zero_block
is_zero_block-zero = (bytes_eq_iff zero_block zero_block).1 refl

-- What is left of an archive at its end: nothing, one block of zeros, or two and anything behind.
abbrev pub IsEnd : Bytes → Type 0
IsEnd s = (s ≡ []) ⊎ (s ≡ zero_block) ⊎ ((rest : Bytes) × (s ≡ zero_block ++ (zero_block ++ rest)))

read_header-zero : (rest : Bytes) → read_header (zero_block ++ rest) ≡ read_second rest
unfolding read_header
read_header-zero rest =
    rw (read_block-append zero_block rest length-zero_block) (rw (is_zero_block-zero) refl)

read_second-zero : (rest : Bytes) → read_second (zero_block ++ rest) ≡ err eof
unfolding read_second
read_second-zero rest =
    rw (read_block-append zero_block rest length-zero_block) (rw (is_zero_block-zero) refl)

IsEnd-eof : (s : Bytes) → IsEnd s → read_header s ≡ err eof
unfolding read_header read_second read_block
IsEnd-eof s (inl e) = ap read_header e
IsEnd-eof s (inr (inl e)) = ap read_header (e ∙ sym (append-nil zero_block)) ∙ read_header-zero []
IsEnd-eof s (inr (inr (rest, e))) =
    ap read_header e ∙ read_header-zero (zero_block ++ rest) ∙ read_second-zero rest

bind_ok-ne-eof :
    (r : Result (Header × Bytes)) (rest : Bytes)
    → r ≢ err eof
    → ◌>>=◌ {B = (Header × Bytes) × Bytes} r (λ h. ok (h, rest)) ≢ err eof
bind_ok-ne-eof panic rest h e = cc
bind_ok-ne-eof stuck rest h e = cc
bind_ok-ne-eof (err x) rest h e = h cc
bind_ok-ne-eof (ok a) rest h e = cc

read_second-eof :
    (s : Bytes) → read_second s ≡ err eof → (s ≡ []) ⊎ ((rest : Bytes) × (s ≡ zero_block ++ rest))
unfolding read_second
read_second-eof s = elim (read_block_cases s) [
  | inl (e, r) ↦ λ _. inl e
  | inr (inl r) ↦ rw (r) (λ e. absurd cc)
  | inr (inr (b, rest, e, r)) ↦ rw (r) (elim (Bool-cases (is_zero_block b)) [
    | inl k ↦ λ _. inr (rest, e ∙ ap (λ b. b ++ rest) (is_zero_block-eq b k))
    | inr k ↦ rw (k) (λ e. absurd cc)
  ])
]

eof-IsEnd : (s : Bytes) → read_header s ≡ err eof → IsEnd s
unfolding read_header
eof-IsEnd s = elim (read_block_cases s) [
  | inl (e, r) ↦ λ _. inl e
  | inr (inl r) ↦ rw (r) (λ e. absurd cc)
  | inr (inr (b, rest, e, r)) ↦ rw (r) (elim (Bool-cases (is_zero_block b)) [
    | inl k ↦ rw (k) (λ f.
        let same : s ≡ zero_block ++ rest = e ∙ ap (λ b. b ++ rest) (is_zero_block-eq b k) in
        elim (read_second-eof rest f) [
          | inl n ↦ inr (inl (same ∙ ap (λ r. zero_block ++ r) n ∙ append-nil zero_block))
          | inr (more, m) ↦ inr (inr (more, same ∙ ap (λ r. zero_block ++ r) m))
        ])
    | inr k ↦ rw (k) (λ f. absurd (bind_ok-ne-eof _ rest (unpack-ne-eof (get_format b) b) f))
  ])
]

-- `readHeader` answers io.EOF exactly where its comment says: at the end of the stream, at one
-- block of zeros and the end, or at two blocks of zeros, with anything behind them.
pub read_header-eof_iff : (s : Bytes) → (read_header s ≡ err eof) ↔ IsEnd s
read_header-eof_iff s = (eof-IsEnd s, IsEnd-eof s)
