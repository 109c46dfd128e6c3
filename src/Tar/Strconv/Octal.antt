-- ===== src/Tar/Strconv/Octal.antt =====
-- Octal fields: what `formatOctal` writes, `parseOctal` reads back, unless it is negative.
use arkive.Common.{
  ℕ, zero, suc, ◌+◌, ◌-◌, ◌≤◌, ◌<◌, ◌≡◌, refl, ◌∙◌, inl, inr, Bool, true, false, ◌&&◌, some, [],
  ◌∷◌, ◌++◌, append-nil, arith, Bytes, ltb, leb, ◌==◌, Bool-cases, length, replicate, length-append,
  length-replicate, drop_all, All,
}
use arkive.Common.Words.{u64_mod, sign_bit, is_neg}
use arkive.Common.Digits.{
  format_uint, format_int, parsed, syntax_error, is_digit, parse_loop, parse_uint, parse_loop-zeros,
  digits-IsDigit, digits-ne-nil, parse_uint-loop, parse_uint-format_uint,
}
use arkive.Common.Go.{err_header}
use arkive.Tar.Strconv.{
  is_ascii, to_ascii, Parser, Formatter, parse_string, format_string, trim, parse_octal,
  format_octal, trim_left, trim_right, octal_result,
}

-- Printable ASCII but the space: nothing that `parseOctal` trims.
abbrev is_text : ℕ → Bool
is_text c = leb 0x21 c && ltb c 0x80

abbrev IsText : Bytes → Type 0
IsText = All (λ c. is_text c ≡ true)

IsText-digits : (s : Bytes) → All (λ c. is_digit 8 c ≡ true) s → IsText s
unfolding is_digit
IsText-digits [] h = tt
IsText-digits (c ∷ s) h = (ground arith, IsText-digits s h.1)

IsText-format_int : (x : ℕ) → IsText (format_int 8 x)
unfolding format_int format_uint
IsText-format_int x = elim (Bool-cases (is_neg x)) [
  | inl negative ↦ rw negative (
    refl,
    IsText-digits _
        (digits-IsDigit 8 (omega arith) (omega arith) (suc (u64_mod - x)) (u64_mod - x)),
  )
  | inr positive ↦
      rw positive (IsText-digits _ (digits-IsDigit 8 (omega arith) (omega arith) (suc x) x))
]

IsText-zeros : (k : ℕ) (s : Bytes) → IsText s → IsText (replicate k b'0' ++ s)
IsText-zeros zero s h = h
IsText-zeros (suc k) s h = (refl, IsText-zeros k s h)

is_ascii-IsText : (s : Bytes) → IsText s → is_ascii s ≡ true
unfolding is_ascii
is_ascii-IsText [] h = refl
is_ascii-IsText (c ∷ s) h = ground (arith, is_ascii-IsText s h.1)

parse_string-IsText : (s : Bytes) → IsText s → parse_string s ≡ s
unfolding parse_string
parse_string-IsText [] h = refl
parse_string-IsText (c ∷ s) h = ground (arith, parse_string-IsText s h.1)

trim_right_nul : (s : Bytes) → IsText s → trim_right (s ++ 0 ∷ []) ≡ s
unfolding trim_right
trim_right_nul [] h = refl
trim_right_nul (c ∷ []) h = ground arith
trim_right_nul (c ∷ d ∷ s) h = rw (trim_right_nul (d ∷ s) h.1)

trim_right_text : (s : Bytes) → IsText s → trim_right s ≡ s
unfolding trim_right
trim_right_text [] h = refl
trim_right_text (c ∷ []) h = ground arith
trim_right_text (c ∷ d ∷ s) h = rw (trim_right_text (d ∷ s) h.1)

trim_left_text : (s t : Bytes) → 1 ≤ length s → IsText s → trim_left (s ++ t) ≡ s ++ t
unfolding trim_left
trim_left_text [] t h k = absurd (omega arith)
trim_left_text (c ∷ s) t h k = ground arith

-- A field that holds a text, closed by a NUL or full.
data Holds (s : Bytes) : Bytes → Type 0 where
  closed : Holds s (s ++ 0 ∷ [])
  full : Holds s s

parse_octal-Holds :
    {s b : Bytes} (p : Parser)
    → Holds s b
    → 1 ≤ length s
    → IsText s
    → parse_octal p b ≡ octal_result p (parse_uint 8 s)
unfolding parse_octal trim
parse_octal-Holds {s} p closed h k =
    let some_text : (length s == 0) ≡ false = ground arith in
    rw (trim_left_text s (0 ∷ []) h k, trim_right_nul s k, some_text) (rw (parse_string-IsText s k))
parse_octal-Holds {s} p full h k =
    let some_text : (length s == 0) ≡ false = ground arith in
    let left : trim_left s ≡ s = rw append-nil at (trim_left_text s [] h k) in
    rw (left, trim_right_text s k, some_text) (rw (parse_string-IsText s k))

-- What `formatOctal` writes: the text with zeros in front that leave room for one NUL.
octal_text : ℕ → ℕ → Bytes
octal_text n x = replicate (n - length (format_int 8 x) - 1) b'0' ++ format_int 8 x

format_string-Holds :
    (f : Formatter) (b s : Bytes)
    → IsText s
    → length s ≤ length b
    → length b ≤ length s + 1
    → ((format_string f b s).0 ≡ f) × Holds s (format_string f b s).1
unfolding format_string to_ascii
format_string-Holds f b s h fits fills =
    let long : ltb (length b) (length s) ≡ false = ground arith in
    let ascii = is_ascii-IsText s h in
    elim (Bool-cases (ltb (length s) (length b))) [
      | inl room ↦ rw (long, ascii) (rw (room, drop_all b (length s + 1) fills) (refl, closed))
      | inr exact ↦
          rw (long, ascii)
            (rw (exact, drop_all b (length s) (ground arith), append-nil) (refl, full))
    ]

format_octal-Holds :
    (f : Formatter) (b : Bytes) (x : ℕ)
    → length (format_int 8 x) ≤ length b
    → ((format_octal f b x).0 ≡ f) × Holds (octal_text (length b) x) (format_octal f b x).1
unfolding format_octal octal_text
format_octal-Holds f b x h =
    let zeros = length b - length (format_int 8 x) - 1 in
    let size = length-append (replicate zeros b'0') (format_int 8 x) in
    let padding = length-replicate {A = ℕ} zeros b'0' in
    format_string-Holds f b (replicate zeros b'0' ++ format_int 8 x)
      (IsText-zeros zeros (format_int 8 x) (IsText-format_int x)) (omega (arith, size, padding))
      (omega (arith, size, padding))

length-format_int : (x : ℕ) → 1 ≤ length (format_int 8 x)
unfolding format_int format_uint
length-format_int x = elim (Bool-cases (is_neg x)) [
  | inl negative ↦ rw negative (omega arith)
  | inr positive ↦ rw positive (digits-ne-nil 8 (omega arith) (omega arith) (suc x) x (omega arith))
]

length-octal_text : (n x : ℕ) → 1 ≤ length (octal_text n x)
unfolding octal_text
length-octal_text n x = omega (
  arith,
  length-format_int x,
  length-append (replicate (n - length (format_int 8 x) - 1) b'0') (format_int 8 x),
)

IsText-octal_text : (n x : ℕ) → IsText (octal_text n x)
unfolding octal_text
IsText-octal_text n x = IsText-zeros _ (format_int 8 x) (IsText-format_int x)

parse_uint-octal_text : (n x : ℕ) → x < sign_bit → parse_uint 8 (octal_text n x) ≡ parsed x
unfolding octal_text format_int
parse_uint-octal_text n x h =
    let positive : is_neg x ≡ false = ground arith in
    rw positive (
      parse_uint-format_uint 8 (omega arith) (omega arith) (n - length (format_uint 8 x) - 1) x
        (omega arith))

parse_uint-octal_text_negative :
    (n x : ℕ) → is_neg x ≡ true → parse_uint 8 (octal_text n x) ≡ syntax_error
unfolding octal_text format_int
parse_uint-octal_text_negative n x negative =
    let text = b'-' ∷ format_uint 8 (u64_mod - x) in
    let zeros = n - length text - 1 in
    rw negative (
      parse_uint-loop 8 (omega arith) (omega arith) (replicate zeros b'0' ++ text)
        (omega (arith, length-append (replicate zeros b'0') text))
      ∙ parse_loop-zeros 8 (omega arith) (omega arith) zeros text
      ∙ (unfold parse_loop in refl))

parse_octal-format_octal_text :
    (f : Formatter) (p : Parser) (b : Bytes) (x : ℕ)
    → length (format_int 8 x) ≤ length b
    → ((format_octal f b x).0 ≡ f)
      × (parse_octal p (format_octal f b x).1
          ≡ octal_result p (parse_uint 8 (octal_text (length b) x)))
parse_octal-format_octal_text f p b x room =
    let (kept, holds) = format_octal-Holds f b x room in
    (
      kept,
      parse_octal-Holds p holds (length-octal_text (length b) x) (IsText-octal_text (length b) x),
    )

-- A number from 0 to 2^63 - 1 that the field has room for is read back, and neither side sets its
-- error.
pub parse_octal-format_octal :
    (f : Formatter) (p : Parser) (b : Bytes) (x : ℕ)
    → x < sign_bit
    → length (format_int 8 x) ≤ length b
    → ((format_octal f b x).0 ≡ f) × (parse_octal p (format_octal f b x).1 ≡ (x, p))
unfolding octal_result
parse_octal-format_octal f p b x h room =
    let (kept, outcome) = parse_octal-format_octal_text f p b x room in
    (kept, outcome ∙ rw (parse_uint-octal_text (length b) x h))

-- A negative number that the field has room for is written with no error, and the reader answers
-- the field with `ErrHeader`.
pub parse_octal-format_octal_negative :
    (f : Formatter) (p : Parser) (b : Bytes) (x : ℕ)
    → is_neg x ≡ true
    → length (format_int 8 x) ≤ length b
    → ((format_octal f b x).0 ≡ f) × (parse_octal p (format_octal f b x).1 ≡ (0, some err_header))
unfolding octal_result
parse_octal-format_octal_negative f p b x negative room =
    let (kept, outcome) = parse_octal-format_octal_text f p b x room in
    (kept, outcome ∙ rw (parse_uint-octal_text_negative (length b) x negative))
