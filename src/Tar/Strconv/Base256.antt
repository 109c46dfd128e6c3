-- ===== src/Tar/Strconv/Base256.antt =====
-- Base-256 fields: what `formatNumeric` writes, `parseNumeric` reads back, negative or not.
use arkive.Common.{
  ℕ, zero, suc, ◌+◌, ◌-◌, ◌*◌, ◌/◌, ◌%◌, ◌^◌, ◌≤◌, ◌<◌, ◌≡◌, refl, ap, ◌∙◌, inl, inr, Bool, true,
  false, ◌&&◌, [], ◌∷◌, ◌++◌, append-nil, append_assoc, arith, Bytes, ltb, ◌==◌, Bool-cases, length,
}
use arkive.Common.Words.{u64_mod, sign_bit, IsWord, is_neg}
use Prim.Native.Nat.{bit_xor}
use native.Mathlib.Nat.{pow-suc}
use native.Mathlib.Decide.{dec_lt}
use arkive.Tar.Strconv.{
  Parser, Formatter, fits_in_base256, shift_right, big_endian, format_numeric, parse_numeric,
  set_binary, base256_loop, base256_result,
}

-- What `^= 0xff` and `^= 0` do to a byte.
all_below : ℕ → (ℕ → Bool) → Bool
all_below zero p = true
all_below (suc n) p = p n && all_below n p

all_below_sound : (n : ℕ) (p : ℕ → Bool) (c : ℕ) → all_below n p ≡ true → c < n → p c ≡ true
unfolding all_below
all_below_sound zero p c h lt = absurd (omega arith)
all_below_sound (suc n) p c h lt = ground (arith, all_below_sound n p c)

invert_table : all_below 256 (λ c. bit_xor c 0xff == 255 - c) ≡ true
unfolding all_below
invert_table = refl

keep_table : all_below 256 (λ c. bit_xor c 0 == c) ≡ true
unfolding all_below
keep_table = refl

invert_byte : (c : ℕ) → c < 256 → bit_xor c 0xff ≡ 255 - c
invert_byte c h =
    ground (arith, all_below_sound 256 (λ c. bit_xor c 0xff == 255 - c) c invert_table h)

keep_byte : (c : ℕ) → c < 256 → bit_xor c 0 ≡ c
keep_byte c h = ground (arith, all_below_sound 256 (λ c. bit_xor c 0 == c) c keep_table h)

-- What is left of `x` after `m` bytes have been shifted out.
top : ℕ → ℕ → ℕ
top zero x = x
top (suc m) x = top m (shift_right x)

big_endian-top : (m x : ℕ) → big_endian (suc m) x ≡ (top m x % 256) ∷ big_endian m x
unfolding big_endian top
big_endian-top zero x = refl
big_endian-top (suc m) x = ap (λ b. b ++ (x % 256) ∷ []) (big_endian-top m (shift_right x))

top_positive : (m x : ℕ) → x < sign_bit → x < 256 ^ m → top m x ≡ 0
unfolding top
top_positive zero x s h = omega arith
top_positive (suc m) x s h =
    let positive : is_neg x ≡ false = ground arith in
    rw positive (top_positive m (x / 256 + 0) (omega arith) (omega (arith, pow-suc 256 m)))

top_negative :
    (m x : ℕ) → is_neg x ≡ true → IsWord x → u64_mod - 1 - x < 256 ^ m → top m x ≡ u64_mod - 1
unfolding top
top_negative zero x s w h = omega arith
top_negative (suc m) x s w h = rw s (
    top_negative m (x / 256 + 255 * 2 ^ 56) (ground arith) (ground arith)
      (omega (arith, pow-suc 256 m)))

loop_positive_byte :
    (x : ℕ) (t : Bytes)
    → x < sign_bit
    → base256_loop 0 false (x / 256) ((x % 256) ∷ t) ≡ base256_loop 0 false x t
unfolding base256_loop
loop_positive_byte x t h =
    let short : ltb 0 (x / 256 / 2 ^ 56) ≡ false = ground arith in
    let back : x / 256 * 256 + x % 256 ≡ x = omega arith in
    rw (keep_byte (x % 256) (omega arith), short, back)

loop_negative_byte :
    (x : ℕ) (t : Bytes)
    → is_neg x ≡ true
    → IsWord x
    → base256_loop 0xff false ((u64_mod - 1 - x) / 256) ((x % 256) ∷ t)
      ≡ base256_loop 0xff false (u64_mod - 1 - x) t
unfolding base256_loop
loop_negative_byte x t h w =
    let short : ltb 0 ((u64_mod - 1 - x) / 256 / 2 ^ 56) ≡ false = ground arith in
    let back : (u64_mod - 1 - x) / 256 * 256 + (255 - x % 256) ≡ u64_mod - 1 - x = omega arith in
    rw (invert_byte (x % 256) (omega arith), short, back)

loop_positive :
    (m x : ℕ) (t : Bytes)
    → x < sign_bit
    → top m x ≡ 0
    → base256_loop 0 false 0 (big_endian m x ++ t) ≡ base256_loop 0 false x t
unfolding top big_endian
loop_positive zero x t s h = rw h
loop_positive (suc m) x t s h =
    let positive : is_neg x ≡ false = ground arith in
    let half : x / 256 + 0 ≡ x / 256 = omega arith in
    rw (positive, append_assoc, half)
      (loop_positive m (x / 256) ((x % 256) ∷ t) (omega arith) (rw (positive, half) at h)
        ∙ loop_positive_byte x t s)

loop_negative :
    (m x : ℕ) (t : Bytes)
    → is_neg x ≡ true
    → IsWord x
    → top m x ≡ u64_mod - 1
    → base256_loop 0xff false 0 (big_endian m x ++ t) ≡ base256_loop 0xff false (u64_mod - 1 - x) t
unfolding top big_endian
loop_negative zero x t s w h = rw h
loop_negative (suc m) x t s w h =
    let y = x / 256 + 255 * 2 ^ 56 in
    let half : u64_mod - 1 - y ≡ (u64_mod - 1 - x) / 256 = ground arith in
    rw (s, append_assoc)
      (loop_negative m y ((x % 256) ∷ t) (ground arith) (ground arith) (rw s at h)
        ∙ rw half (loop_negative_byte x t s w))

-- Powers of 256 at the widths of `fitsInBase256`.
pow_256_mono : (m : ℕ) → 8 ≤ m → 256 ^ 8 ≤ 256 ^ m
pow_256_mono zero h = absurd (omega arith)
pow_256_mono (suc m) h = elim (dec_lt 7 m) [
  | yes above ↦ omega (arith, pow-suc 256 m, pow_256_mono m above)
  | no below ↦ let last : m ≡ 7 = omega arith in rw last (omega arith)
]

pow_256 : (m : ℕ) → m < 8 → 2 ^ (8 * m) ≡ 256 ^ m
pow_256 zero h = refl
pow_256 (suc zero) h = refl
pow_256 (suc (suc zero)) h = refl
pow_256 (suc (suc (suc zero))) h = refl
pow_256 (suc (suc (suc (suc zero)))) h = refl
pow_256 (suc (suc (suc (suc (suc zero))))) h = refl
pow_256 (suc (suc (suc (suc (suc (suc zero)))))) h = refl
pow_256 (suc (suc (suc (suc (suc (suc (suc zero))))))) h = refl
pow_256 (suc (suc (suc (suc (suc (suc (suc (suc m)))))))) h = absurd (omega arith)

-- The number that is inverted or not fits in all bytes but the first.
fits_positive : (m x : ℕ) → x < sign_bit → fits_in_base256 (suc m) x ≡ true → x < 256 ^ m
unfolding fits_in_base256
fits_positive m x s h = elim (dec_lt m 8) [
  | yes short ↦ let width : suc m - 1 ≡ m = omega arith in ground (arith, width, pow_256 m short)
  | no long ↦ omega (arith, pow_256_mono m (omega arith))
]

fits_negative :
    (m x : ℕ)
    → is_neg x ≡ true
    → IsWord x
    → fits_in_base256 (suc m) x ≡ true
    → u64_mod - 1 - x < 256 ^ m
unfolding fits_in_base256
fits_negative m x s w h = elim (dec_lt m 8) [
  | yes short ↦ let width : suc m - 1 ≡ m = omega arith in ground (arith, width, pow_256 m short)
  | no long ↦ ground (arith, pow_256_mono m (ground arith))
]

-- The first byte is 0x80 before a number that is not negative, and 0xff before a negative one.
parse_numeric_0x80 :
    (p : Parser) (b : Bytes)
    → parse_numeric p (0x80 ∷ b) ≡ base256_result p 0 (base256_loop 0 false 0 b)
unfolding parse_numeric
parse_numeric_0x80 p b = refl

parse_numeric_0xff :
    (p : Parser) (b : Bytes)
    → parse_numeric p (0xff ∷ b) ≡ base256_result p 0xff (base256_loop 0xff false 0 b)
unfolding parse_numeric
parse_numeric_0xff p b = refl

parse_positive :
    (p : Parser) (m x : ℕ)
    → x < sign_bit
    → top m x ≡ 0
    → parse_numeric p (set_binary (big_endian (suc m) x)) ≡ (x, p)
unfolding set_binary
parse_positive p m x s h =
    rw (big_endian-top m x, h)
      (parse_numeric_0x80 p (big_endian m x)
        ∙ ap (base256_result p 0) (rw append-nil at (loop_positive m x [] s h))
        ∙ (unfold base256_loop base256_result in ground arith))

parse_negative :
    (p : Parser) (m x : ℕ)
    → is_neg x ≡ true
    → IsWord x
    → top m x ≡ u64_mod - 1
    → parse_numeric p (set_binary (big_endian (suc m) x)) ≡ (x, p)
unfolding set_binary
parse_negative p m x s w h =
    rw (big_endian-top m x, h)
      (parse_numeric_0xff p (big_endian m x)
        ∙ ap (base256_result p 0xff) (rw append-nil at (loop_negative m x [] s w h))
        ∙ (unfold base256_loop base256_result in ground arith))

-- Every int64 that fits in base 256 is read back from the field, and neither side sets its error.
pub parse_numeric-format_numeric :
    (f : Formatter) (p : Parser) (b : Bytes) (x : ℕ)
    → 1 ≤ length b
    → IsWord x
    → fits_in_base256 (length b) x ≡ true
    → ((format_numeric f b x).0 ≡ f) × (parse_numeric p (format_numeric f b x).1 ≡ (x, p))
unfolding format_numeric
parse_numeric-format_numeric f p [] x some_byte w fits = absurd (omega arith)
parse_numeric-format_numeric f p (c ∷ b) x some_byte w fits = rw fits (
  refl,
  elim (Bool-cases (is_neg x)) [
    | inl negative ↦
        parse_negative p (length b) x negative w
          (top_negative (length b) x negative w (fits_negative (length b) x negative w fits))
    | inr positive ↦
        parse_positive p (length b) x (ground arith) (
          top_positive (length b) x (ground arith) (fits_positive (length b) x (ground arith) fits))
  ],
)
