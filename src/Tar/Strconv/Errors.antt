-- ===== src/Tar/Strconv/Errors.antt =====
-- The one error that the parser of header fields (tar/strconv.go) sets.
use arkive.Common.{
  ℕ, ◌/◌, ◌^◌, ◌≡◌, refl, ◌⊎◌, inl, inr, true, Option, none, some, [], ◌∷◌, Bytes, ltb, ◌==◌,
  if◌then◌else◌, Bool-cases, length,
}
use arkive.Common.Digits.{Parsed, parsed, syntax_error, range_error, parse_uint}
use arkive.Common.Go.{err_header}
use arkive.Tar.Strconv.{
  Parser, parse_string, trim, parse_octal, parse_numeric, octal_result, base256_loop,
  base256_result, bit_and,
}

abbrev pub IsParser : Parser → Type 0
IsParser p = (p ≡ none) ⊎ (p ≡ some err_header)

octal_result-IsParser : (p : Parser) (r : Parsed) → IsParser p → IsParser (octal_result p r).1
unfolding octal_result
octal_result-IsParser p (parsed x) h = h
octal_result-IsParser p syntax_error h = inr refl
octal_result-IsParser p range_error h = inr refl

pub parse_octal-IsParser : (p : Parser) (b : Bytes) → IsParser p → IsParser (parse_octal p b).1
unfolding parse_octal
parse_octal-IsParser p b h = elim (Bool-cases (length (trim b) == 0)) [
  | inl k ↦ rw (k) h
  | inr k ↦ rw (k) (octal_result-IsParser p (parse_uint 8 (parse_string (trim b))) h)
]

base256_result-IsParser :
    (p : Parser) (inv : ℕ) (o : Option ℕ) → IsParser p → IsParser (base256_result p inv o).1
unfolding base256_result
base256_result-IsParser p inv none h = inr refl
base256_result-IsParser p inv (some x) h = elim (Bool-cases (ltb 0 (x / 2 ^ 63))) [
  | inl k ↦ rw (k) (inr refl)
  | inr k ↦ elim (Bool-cases (inv == 0xff)) [ inl m ↦ rw (k, m) h | inr m ↦ rw (k, m) h ]
]

-- A number that is parsed leaves the parser as it was, or with ErrHeader.
pub parse_numeric-IsParser : (p : Parser) (b : Bytes) → IsParser p → IsParser (parse_numeric p b).1
unfolding parse_numeric
parse_numeric-IsParser p [] h = parse_octal-IsParser p [] h
parse_numeric-IsParser p (c ∷ b) h = elim (Bool-cases (bit_and c 0x80 == 0)) [
  | inl k ↦ rw (k) (parse_octal-IsParser p (c ∷ b) h)
  | inr k ↦
      let inv : ℕ = if bit_and c 0x40 == 0 then 0 else 0xff in
      rw (k) (base256_result-IsParser p inv (base256_loop inv true 0 (c ∷ b)) h)
]
