-- ===== src/Tar/Strconv/Trim.antt =====
-- A pad byte behind a numeric field changes nothing of its value (tar/strconv.go).
use arkive.Common.{
  ℕ, ◌+◌, ◌≤◌, ◌≡◌, refl, ap, inl, inr, true, [], ◌∷◌, ◌++◌, arith, Bytes, ltb, ◌==◌, if◌then◌else◌,
  Bool-cases, length, drop, length-append, length-drop,
}
use arkive.Common.Digits.{parse_uint}
use arkive.Tar.Strconv.{
  to_ascii, Parser, Formatter, parse_string, format_string, trim, parse_octal, format_octal,
  ascii_only, is_pad, trim_left, cons_unless_pad, trim_right, octal_result,
}

trim_right_pad : (b : Bytes) (c : ℕ) → is_pad c ≡ true → trim_right (b ++ c ∷ []) ≡ trim_right b
unfolding trim_right cons_unless_pad
trim_right_pad [] c h = rw (h) refl
trim_right_pad (d ∷ b) c h = ap (cons_unless_pad d) (trim_right_pad b c h)

trim_pad : (b : Bytes) (c : ℕ) → is_pad c ≡ true → trim (b ++ c ∷ []) ≡ trim b
unfolding trim trim_left trim_right
trim_pad [] c h = rw (h) refl
trim_pad (d ∷ b) c h = elim (Bool-cases (is_pad d)) [
  | inl e ↦ rw (e) (trim_pad b c h)
  | inr e ↦ rw (e) (trim_right_pad (d ∷ b) c h)
]

parse_octal_pad :
    (p : Parser) (b : Bytes) (c : ℕ)
    → is_pad c ≡ true
    → parse_octal p (b ++ c ∷ []) ≡ parse_octal p b
unfolding parse_octal
parse_octal_pad p b c h =
    ap (λ t. if length t == 0 then (0, p) else octal_result p (parse_uint 8 (parse_string t)))
      (trim_pad b c h)

pub parse_octal_space : (p : Parser) (b : Bytes) → parse_octal p (b ++ b' ' ∷ []) ≡ parse_octal p b
unfolding is_pad
parse_octal_space p b = parse_octal_pad p b b' ' refl

length-ascii_only-le : (s : Bytes) → length (ascii_only s) ≤ length s
unfolding ascii_only
length-ascii_only-le [] = omega arith
length-ascii_only-le (c ∷ s) = ground (arith, length-ascii_only-le s)

length-to_ascii-le : (s : Bytes) → length (to_ascii s) ≤ length s
unfolding to_ascii
length-to_ascii-le s = ground (arith, length-ascii_only-le s)

length-format_string : (f : Formatter) (b s : Bytes) → length (format_string f b s).1 ≡ length b
unfolding format_string
length-format_string f b s =
    let le = length-to_ascii-le s in
    let l = length-append (to_ascii s) (0 ∷ drop (length (to_ascii s) + 1) b) in
    let l' = length-append (to_ascii s) (drop (length (to_ascii s)) b) in
    let d = length-drop (length (to_ascii s) + 1) b in
    let d' = length-drop (length (to_ascii s)) b in
    elim (Bool-cases (ltb (length b) (length s))) [
      | inl k ↦ rw (k) refl
      | inr k ↦ elim (Bool-cases (ltb (length (to_ascii s)) (length b))) [
        | inl j ↦ rw (k, j) (ground arith)
        | inr j ↦ rw (k, j) (ground arith)
      ]
    ]

-- Whatever is written, the field keeps its length.
pub length-format_octal :
    (f : Formatter) (b : Bytes) (x : ℕ) → length (format_octal f b x).1 ≡ length b
unfolding format_octal
length-format_octal f b x = length-format_string f b _
