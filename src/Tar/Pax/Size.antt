-- ===== src/Tar/Pax/Size.antt =====
-- The size field of a PAX record is the record's own length.
use arkive.Common.{
  ℕ, suc, ◌+◌, ◌*◌, ◌^◌, ◌≤◌, ◌<◌, ◌≡◌, sym, ap, ◌∙◌, ◌≢◌, inl, inr, false, [], ◌∷◌, ◌++◌, arith,
  Bytes, ◌==◌, Bool-cases, length, length-append,
}
use arkive.Common.Words.{sign_bit, is_neg}
use arkive.Common.Digits.{
  format_uint, format_int, length-digits_mono, length-digits_next, length-digits-le,
}
use arkive.Tar.Pax.{record_text, format_pax_record}

abbrev pub size_digits : ℕ → ℕ
size_digits n = length (format_int 10 n)

pub length-record_text :
    (size : ℕ) (k v : Bytes)
    → length (record_text size k v) ≡ length k + length v + 3 + size_digits size
unfolding record_text
length-record_text size k v = omega (
  arith,
  length-append (format_int 10 size) (b' ' ∷ (k ++ b'=' ∷ (v ++ b'\n' ∷ []))),
  length-append k (b'=' ∷ (v ++ b'\n' ∷ [])),
  length-append v (b'\n' ∷ []),
)

pub size_digits_mono : (m n : ℕ) → m ≤ n → n < sign_bit → size_digits m ≤ size_digits n
unfolding format_int format_uint
size_digits_mono m n h fits =
    let positive : is_neg m ≡ false = ground arith in
    let positive' : is_neg n ≡ false = ground arith in
    rw (positive, positive')
      (length-digits_mono 10 (omega arith) (omega arith) (suc m) (suc n) m n (omega arith)
        (omega arith) h)

pub size_digits_next :
    (m n : ℕ) → m ≤ 10 * n + 9 → m < sign_bit → n < sign_bit → size_digits m ≤ size_digits n + 1
unfolding format_int format_uint
size_digits_next m n h fits fits' =
    let positive : is_neg m ≡ false = ground arith in
    let positive' : is_neg n ≡ false = ground arith in
    rw (positive, positive')
      (length-digits_next 10 (omega arith) (omega arith) (suc m) (suc n) m n (omega arith)
        (omega arith) (omega arith))

pub size_digits-le : (n : ℕ) → n < sign_bit → size_digits n ≤ n + 1
unfolding format_int format_uint
size_digits-le n fits =
    let positive : is_neg n ≡ false = ground arith in
    rw positive (length-digits-le 10 (omega arith) (omega arith) (suc n) n (omega arith))

-- Adding the width of the size field to the size makes the field at most one digit wider, and
-- doing so twice is enough.
module _ (s : ℕ) (low : 3 ≤ s) (high : s < 2 ^ 61) where
  once : ℕ
  once = s + size_digits s

  twice : ℕ
  unfolding once
  twice = s + size_digits once

  size_settles : once ≢ twice → s + size_digits twice ≡ twice
  unfolding twice
  size_settles ne =
      let width = size_digits-le s (omega arith) in
      let wider = size_digits_mono s once (omega arith) (omega arith) in
      let next = size_digits_next once s (omega arith) (omega arith) (omega arith) in
      let grown : size_digits once ≡ size_digits s + 1 = grind arith in
      let wider' = size_digits_mono once twice (omega arith) (omega arith) in
      let next' = size_digits_next twice s (omega arith) (omega arith) (omega arith) in omega arith

-- The second record's length is the size that it is printed with.
pub length-record_text_again :
    (k v : Bytes)
    → length k + length v < 2 ^ 60
    → let s = length k + length v + 3 in
      let first = s + size_digits s in
      (length (record_text first k v) ≢ first
        → length (record_text (length (record_text first k v)) k v)
          ≡ length (record_text first k v))
unfolding twice once
length-record_text_again k v fits grown =
    let s = length k + length v + 3 in
    let first = s + size_digits s in
    let len : length (record_text first k v) ≡ twice s (omega arith) (omega arith) =
      length-record_text first k v in
    length-record_text (length (record_text first k v)) k v
    ∙ ap (λ n. s + size_digits n) len
    ∙ size_settles s (omega arith) (omega arith) (λ e. grown (len ∙ sym e))
    ∙ sym len

-- The size field of a record is the length of the whole record.
pub format_pax_record-size :
    (k v : Bytes)
    → length k + length v < 2 ^ 60
    → format_pax_record k v ≡ record_text (length (format_pax_record k v)) k v
unfolding format_pax_record
format_pax_record-size k v fits =
    let s = length k + length v + 3 in
    let first = s + length (format_int 10 s) in
    let text = record_text first k v in
    elim (Bool-cases (length text == first)) [
      | inl settled ↦ let same : length text ≡ first = ground arith in rw settled (rw same)
      | inr grown ↦ rw grown (
          ap (λ n. record_text n k v) (sym (length-record_text_again k v fits (λ e. ground arith))))
    ]

pub length-format_pax_record-lt :
    (k v : Bytes) → length k + length v < 2 ^ 60 → length (format_pax_record k v) < 2 ^ 62
unfolding format_pax_record
length-format_pax_record-lt k v fits =
    let s = length k + length v + 3 in
    let first = s + size_digits s in
    let text = record_text first k v in
    let width = size_digits-le s (omega arith) in
    let width' = size_digits-le first (omega arith) in
    elim (Bool-cases (length text == first)) [
      | inl settled ↦ rw settled (omega (arith, length-record_text first k v))
      | inr grown ↦ rw grown (
          omega (
            arith,
            length-record_text_again k v fits (λ e. ground arith),
            length-record_text first k v,
          ))
    ]
