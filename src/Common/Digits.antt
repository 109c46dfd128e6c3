-- ===== src/Common/Digits.antt =====
-- The part of Go's package strconv that the program calls: `FormatInt`, `Itoa`, `ParseUint` and
-- `ParseInt` for 64 bits, in a base of at most ten.
use Prim.Native.Nat.{ℕ, zero, suc, ◌+◌, ◌-◌, ◌*◌, ◌/◌, ◌%◌, ◌≤◌, ◌<◌}
use mathlib.Core.Path.{◌≡◌, refl, ap, ◌∙◌}
use mathlib.Core.Logic.{inl, inr}
use mathlib.Core.Bool.{Bool, true, false, not, ◌&&◌}
use mathlib.Core.List.{List, [], ◌∷◌, ◌++◌, append_assoc, append-nil}
use native.Mathlib.Omega.{arith}
use native.Mathlib.Nat.{div-add-mod}
use native.Mathlib.Decide.{dec_lt}
use arkive.Common.Tests.{ltb, leb, ◌==◌, if◌then◌else◌, Bool-cases}
use arkive.Common.Lists.{length, length-append, replicate, All}
use arkive.Common.Words.{u64_mod, sign_bit, is_neg, sub64}

-- The digits of a number, with fuel; more fuel than the number is enough.
unfoldable pub digits : ℕ → ℕ → ℕ → List ℕ
digits zero base v = []
digits (suc fuel) base v =
    let rest = digits fuel base (v / base) in
    if ltb v base then (b'0' + v) ∷ [] else rest ++ (b'0' + v % base) ∷ []

unfoldable pub format_uint : ℕ → ℕ → List ℕ
unfolding digits
format_uint base v = digits (suc v) base v

-- `strconv.FormatInt`, with the base first.
unfoldable pub format_int : ℕ → ℕ → List ℕ
unfolding format_uint
format_int base x = if is_neg x then b'-' ∷ format_uint base (u64_mod - x) else format_uint base x

-- A value, `ErrSyntax` or `ErrRange`.
pub data Parsed : Type 0 where
  parsed : ℕ → Parsed
  syntax_error range_error : Parsed

unfoldable pub is_digit : ℕ → ℕ → Bool
is_digit base c = leb b'0' c && ltb c (b'0' + base)

unfoldable pub parse_loop : ℕ → ℕ → List ℕ → Parsed
unfolding is_digit
parse_loop base n [] = parsed n
parse_loop base n (c ∷ s) =
    let n' = n * base + (c - b'0') in
    let rest = parse_loop base n' s in
    if not (is_digit base c) then syntax_error else if leb u64_mod n' then range_error else rest

unfoldable pub parse_uint : ℕ → List ℕ → Parsed
unfolding parse_loop
parse_uint base [] = syntax_error
parse_uint base (c ∷ s) = parse_loop base 0 (c ∷ s)

abbrev pub signed : Bool → Parsed → Parsed
signed negative (parsed un) =
    if negative
    then if ltb sign_bit un then range_error else parsed (sub64 0 un)
    else if leb sign_bit un
    then range_error
    else parsed un
signed negative syntax_error = syntax_error
signed negative range_error = range_error

unfoldable pub parse_int : ℕ → List ℕ → Parsed
unfolding parse_uint
parse_int base [] = syntax_error
parse_int base (c ∷ s) =
    if c == b'-'
    then signed true (parse_uint base s)
    else if c == b'+'
    then signed false (parse_uint base s)
    else signed false (parse_uint base (c ∷ s))

pub All-append {ℓ κ} :
    {A : Type ℓ} (P : A → Type κ) (xs ys : List A) → All P xs → All P ys → All P (xs ++ ys)
All-append P [] ys h k = k
All-append P (x ∷ xs) ys h k = (h.0, All-append P xs ys h.1 k)

module _ (base : ℕ) (low : 2 ≤ base) (high : base ≤ 10) where
  smaller : (v : ℕ) → base ≤ v → v / base < v
  smaller v h = grind arith

  multiple_lt : (a b : ℕ) → a < b → base * a + base ≤ base * b
  multiple_lt a b h = grind arith

  quotient_le : (m n : ℕ) → m ≤ n → m / base ≤ n / base
  quotient_le m n h = elim (dec_lt (n / base) (m / base)) [
    | yes above ↦
        let rest : n % base < base = grind arith in
        absurd (
          omega (
            arith,
            multiple_lt (n / base) (m / base) above,
            div-add-mod m base,
            div-add-mod n base,
            rest,
          ))
    | no below ↦ omega arith
  ]

  parse_loop_digit :
      (n d : ℕ) (t : List ℕ)
      → d < base
      → n * base + d < u64_mod
      → parse_loop base n ((b'0' + d) ∷ t) ≡ parse_loop base (n * base + d) t
  unfolding parse_loop
  parse_loop_digit n d t h fits =
      let back : b'0' + d - b'0' ≡ d = omega arith in rw back (ground arith)

  -- What is printed in front is read first.
  pub parse_loop-digits :
      (fuel v : ℕ) (t : List ℕ)
      → v < fuel
      → v < u64_mod
      → parse_loop base 0 (digits fuel base v ++ t) ≡ parse_loop base v t
  unfolding digits
  parse_loop-digits zero v t f h = absurd (omega arith)
  parse_loop-digits (suc fuel) v t f h = elim (Bool-cases (ltb v base)) [
    | inl single ↦ rw single (
        parse_loop_digit 0 v t (ground arith) (omega arith)
        ∙ ap (λ n. parse_loop base n t) (omega arith))
    | inr more ↦
        let down : v / base < v = smaller v (ground arith) in
        let whole : v / base * base + v % base ≡ v = omega (arith, div-add-mod v base) in
        rw (more, append_assoc)
          (parse_loop-digits fuel (v / base) ((b'0' + v % base) ∷ t) (omega arith) (omega arith)
            ∙ parse_loop_digit (v / base) (v % base) t (grind arith) (omega arith)
            ∙ ap (λ n. parse_loop base n t) whole)
  ]

  -- Leading zeros change nothing.
  pub parse_loop-zeros :
      (k : ℕ) (t : List ℕ) → parse_loop base 0 (replicate k b'0' ++ t) ≡ parse_loop base 0 t
  parse_loop-zeros zero t = refl
  parse_loop-zeros (suc k) t =
      parse_loop_digit 0 0 (replicate k b'0' ++ t) (omega arith) (omega arith)
      ∙ ap (λ n. parse_loop base n (replicate k b'0' ++ t)) (omega arith)
      ∙ parse_loop-zeros k t

  pub digits-IsDigit : (fuel v : ℕ) → All (λ c. is_digit base c ≡ true) (digits fuel base v)
  unfolding is_digit digits
  digits-IsDigit zero v = tt
  digits-IsDigit (suc fuel) v = elim (Bool-cases (ltb v base)) [
    | inl single ↦ rw single (ground arith, tt)
    | inr more ↦
        let last : v % base < base = grind arith in
        rw more (
          All-append _ (digits fuel base (v / base)) _ (digits-IsDigit fuel (v / base))
            (ground arith, tt))
  ]

  pub digits-ne-nil : (fuel v : ℕ) → v < fuel → 1 ≤ length (digits fuel base v)
  unfolding digits
  digits-ne-nil zero v h = absurd (omega arith)
  digits-ne-nil (suc fuel) v h = elim (Bool-cases (ltb v base)) [
    | inl single ↦ rw single (omega arith)
    | inr more ↦ rw (more, length-append) (omega arith)
  ]

  pub length-digits_mono :
      (f g m n : ℕ) → m < f → n < g → m ≤ n → length (digits f base m) ≤ length (digits g base n)
  unfolding digits
  length-digits_mono zero g m n hf hg h = absurd (omega arith)
  length-digits_mono (suc f) zero m n hf hg h = absurd (omega arith)
  length-digits_mono (suc f) (suc g) m n hf hg h = elim (Bool-cases (ltb m base)) [
    | inl single ↦ rw single (digits-ne-nil (suc g) n hg)
    | inr more ↦
        let more' : ltb n base ≡ false = ground arith in
        let down : m / base < m = smaller m (ground arith) in
        let down' : n / base < n = smaller n (ground arith) in
        let quotients : m / base ≤ n / base = quotient_le m n h in
        rw (more, more')
          (omega (
            arith,
            length-append (digits f base (m / base)) ((b'0' + m % base) ∷ []),
            length-append (digits g base (n / base)) ((b'0' + n % base) ∷ []),
            length-digits_mono f g (m / base) (n / base) (omega arith) (omega arith) quotients,
          ))
  ]

  -- One more digit is enough for a number below the next power.
  pub length-digits_next :
      (f g m n : ℕ)
      → m < f
      → n < g
      → m / base ≤ n
      → length (digits f base m) ≤ length (digits g base n) + 1
  unfolding digits
  length-digits_next zero g m n hf hg h = absurd (omega arith)
  length-digits_next (suc f) g m n hf hg h = elim (Bool-cases (ltb m base)) [
    | inl single ↦ rw single (omega arith)
    | inr more ↦
        let down : m / base < m = smaller m (ground arith) in
        rw (more, length-append)
          (omega (arith, length-digits_mono f g (m / base) n (omega arith) hg h))
  ]

  pub length-digits-le : (f v : ℕ) → v < f → length (digits f base v) ≤ v + 1
  unfolding digits
  length-digits-le zero v h = absurd (omega arith)
  length-digits-le (suc f) v h = elim (Bool-cases (ltb v base)) [
    | inl single ↦ rw single (omega arith)
    | inr more ↦
        let down : v / base < v = smaller v (ground arith) in
        rw (more, length-append) (omega (arith, length-digits-le f (v / base) (omega arith)))
  ]

  pub parse_uint-loop : (s : List ℕ) → 1 ≤ length s → parse_uint base s ≡ parse_loop base 0 s
  unfolding parse_uint
  parse_uint-loop [] h = absurd (omega arith)
  parse_uint-loop (c ∷ s) h = refl

  -- A printed number is read back, also behind zeros.
  pub parse_uint-format_uint :
      (k v : ℕ) → v < u64_mod → parse_uint base (replicate k b'0' ++ format_uint base v) ≡ parsed v
  unfolding format_uint
  parse_uint-format_uint k v h =
      let some_digit = digits-ne-nil (suc v) v (omega arith) in
      parse_uint-loop (replicate k b'0' ++ digits (suc v) base v)
        (omega (arith, length-append (replicate k b'0') (digits (suc v) base v), some_digit))
      ∙ parse_loop-zeros k (digits (suc v) base v)
      ∙ (rw append-nil at (parse_loop-digits (suc v) v [] (omega arith) h))
      ∙ (unfold parse_loop in refl)

  parse_int_digits :
      (s : List ℕ)
      → All (λ c. is_digit base c ≡ true) s
      → parse_int base s ≡ signed false (parse_uint base s)
  unfolding parse_int
  parse_int_digits [] h = unfold parse_uint in refl
  parse_int_digits (c ∷ s) h = unfold is_digit in ground arith

  -- An int64 is read back from its text.
  pub parse_int-format_int : (x : ℕ) → x < u64_mod → parse_int base (format_int base x) ≡ parsed x
  unfolding format_int parse_int
  parse_int-format_int x h = elim (Bool-cases (is_neg x)) [
    | inl negative ↦
        rw negative (rw (parse_uint-format_uint 0 (u64_mod - x) (ground arith)) (ground arith))
    | inr positive ↦ rw positive (
        parse_int_digits (format_uint base x) (unfold format_uint in digits-IsDigit (suc x) x)
        ∙ rw (parse_uint-format_uint 0 x h) (ground arith))
  ]

  pub digits-zeros :
      (k : ℕ) (s : List ℕ)
      → All (λ c. is_digit base c ≡ true) s
      → All (λ c. is_digit base c ≡ true) (replicate k b'0' ++ s)
  digits-zeros zero s h = h
  digits-zeros (suc k) s h = (unfold is_digit in ground arith, digits-zeros k s h)

  pub parse_int-zeros :
      (k v : ℕ) → v < sign_bit → parse_int base (replicate k b'0' ++ format_uint base v) ≡ parsed v
  parse_int-zeros k v h =
      parse_int_digits (replicate k b'0' ++ format_uint base v)
        (digits-zeros k (format_uint base v) (unfold format_uint in digits-IsDigit (suc v) v))
      ∙ rw (parse_uint-format_uint k v (omega arith)) (ground arith)
