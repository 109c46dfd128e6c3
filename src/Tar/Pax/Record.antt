-- ===== src/Tar/Pax/Record.antt =====
-- One PAX record, printed by `formatPAXRecord` and taken apart by `parsePAXRecord`.
use arkive.Common.{
  ℕ, suc, ◌+◌, ◌-◌, ◌^◌, ◌≤◌, ◌<◌, ◌≡◌, refl, sym, ap, ◌∙◌, ◌≢◌, true, false, ◌||◌, some, [], ◌∷◌,
  ◌++◌, append_assoc, arith, Bytes, ltb, ◌==◌, bytes_eq, length, take, drop, replicate,
  length-append, length-replicate, take_append, drop_append, drop-drop, All,
}
use arkive.Common.Words.{sign_bit, is_neg, slt}
use arkive.Common.Digits.{
  format_uint, format_int, parsed, is_digit, parse_int, digits-IsDigit, digits-ne-nil,
  parse_int-format_int, parse_int-zeros, digits-zeros,
}
use arkive.Common.Go.{ok, panic}
use arkive.Tar.Pax.{
  index_byte, slice, record_text, format_pax_record, split_record, sized_record, parse_pax_record,
}
use arkive.Tar.Pax.Size.{
  size_digits, length-record_text, format_pax_record-size, length-format_pax_record-lt,
}

-- `c` does not occur in `s`.
abbrev pub Lacks : ℕ → Bytes → Type 0
Lacks c = All (λ d. d ≢ c)

pub index_byte-append :
    (c : ℕ) (s t : Bytes) → Lacks c s → index_byte c (s ++ c ∷ t) ≡ some (length s)
unfolding index_byte
index_byte-append c [] t h = ground arith
index_byte-append c (d ∷ s) t h =
    let differ : (d == c) ≡ false = ground (arith, h.0) in rw (differ, index_byte-append c s t h.1)

Lacks-digits : (s : Bytes) → All (λ c. is_digit 10 c ≡ true) s → Lacks b' ' s
unfolding is_digit
Lacks-digits [] h = tt
Lacks-digits (c ∷ s) h = (λ e. ground arith, Lacks-digits s h.1)

sized_record_slices :
    (s : Bytes) (sp n : ℕ) {rec nl : Bytes}
    → (slt n 5 || slt (length s) n) ≡ false
    → slice (sp + 1) (n - 1) s ≡ ok rec
    → slice (n - 1) n s ≡ ok nl
    → sized_record s sp (parsed n) ≡ split_record rec nl (drop n s)
unfolding sized_record
sized_record_slices s sp n inside e e' = rw (inside, e, e')

-- The slices of a record `d ++ " " ++ rec ++ "\n" ++ rest`.
module _ (d rec rest : Bytes) where
  abbrev whole : Bytes
  whole = d ++ b' ' ∷ (rec ++ b'\n' ∷ rest)

  abbrev whole_size : ℕ
  whole_size = length d + length rec + 2

  length-whole : length whole ≡ whole_size + length rest
  length-whole =
      omega
        (arith, length-append d (b' ' ∷ (rec ++ b'\n' ∷ rest)), length-append rec (b'\n' ∷ rest))

  drop_space : drop (length d + 1) whole ≡ rec ++ b'\n' ∷ rest
  drop_space =
      sym (drop-drop (length d) 1 whole)
      ∙ ap (λ (s : Bytes). drop 1 s) (drop_append d (b' ' ∷ (rec ++ b'\n' ∷ rest)) (length d) refl)

  drop_record : drop (whole_size - 1) whole ≡ b'\n' ∷ rest
  drop_record =
      ap (λ n. drop n whole) (omega arith)
      ∙ sym (drop-drop (length d + 1) (length rec) whole)
      ∙ ap (λ (s : Bytes). drop (length rec) s) drop_space
      ∙ drop_append rec (b'\n' ∷ rest) (length rec) refl

  drop_line : drop whole_size whole ≡ rest
  drop_line =
      ap (λ n. drop n whole) (omega arith)
      ∙ sym (drop-drop (whole_size - 1) 1 whole)
      ∙ ap (λ (s : Bytes). drop 1 s) drop_record

  slice_record : slice (length d + 1) (whole_size - 1) whole ≡ ok rec
  unfolding slice
  slice_record =
      let inside : (ltb (whole_size - 1) (length d + 1) || ltb (length whole) (whole_size - 1))
          ≡ false =
        ground (arith, length-whole) in
      rw (inside, drop_space) (ap ok (take_append rec (b'\n' ∷ rest) _ (omega arith)))

  slice_newline : slice (whole_size - 1) whole_size whole ≡ ok (b'\n' ∷ [])
  unfolding slice
  slice_newline =
      let inside : (ltb whole_size (whole_size - 1) || ltb (length whole) whole_size) ≡ false =
        ground (arith, length-whole) in
      let one : whole_size - (whole_size - 1) ≡ 1 = omega arith in rw (inside, drop_record, one)

  -- Such a string is one record, if its first word is its size.
  sized_record-whole :
      5 ≤ whole_size
      → whole_size + length rest < sign_bit
      → sized_record whole (length d) (parsed whole_size) ≡ split_record rec (b'\n' ∷ []) rest
  sized_record-whole low high =
      sized_record_slices whole (length d) whole_size (ground (arith, length-whole)) slice_record
        slice_newline
      ∙ ap (split_record rec (b'\n' ∷ [])) drop_line

split_record_pair :
    (k v rest : Bytes)
    → Lacks b'=' k
    → split_record (k ++ b'=' ∷ v) (b'\n' ∷ []) rest
      ≡ ok (record { key = k; value = v; rest = rest })
unfolding split_record bytes_eq
split_record_pair k v rest h = rw (index_byte-append b'=' k v h) (
    rw (
      take_append k (b'=' ∷ v) (length k) refl,
      sym (drop-drop (length k) 1 (k ++ b'=' ∷ v)),
      drop_append k (b'=' ∷ v) (length k) refl,
    ))

-- The text of a record, as its digits, the pair and the rest.
record_text-whole :
    (size : ℕ) (k v rest : Bytes)
    → record_text size k v ++ rest ≡ whole (format_int 10 size) (k ++ b'=' ∷ v) rest
unfolding record_text
record_text-whole size k v rest = simp append_assoc

Lacks-format_int : (n : ℕ) → n < sign_bit → Lacks b' ' (format_int 10 n)
unfolding format_int format_uint
Lacks-format_int n h =
    let positive : is_neg n ≡ false = ground arith in
    rw positive (Lacks-digits _ (digits-IsDigit 10 (omega arith) (omega arith) (suc n) n))

one-le-size_digits : (n : ℕ) → n < sign_bit → 1 ≤ size_digits n
unfolding format_int format_uint
one-le-size_digits n fits =
    let positive : is_neg n ≡ false = ground arith in
    rw positive (digits-ne-nil 10 (omega arith) (omega arith) (suc n) n (omega arith))

parse_pax_record_space :
    (s : Bytes) (sp : ℕ)
    → index_byte b' ' s ≡ some sp
    → parse_pax_record s ≡ sized_record s sp (parse_int 10 (take sp s))
unfolding parse_pax_record
parse_pax_record_space s sp e = rw (e, parse_pax_record)

parse_pax_record_text :
    (size : ℕ) (k v rest : Bytes)
    → size ≡ length (record_text size k v)
    → size < 2 ^ 62
    → 1 ≤ length k
    → Lacks b'=' k
    → length k + length v + length rest < 2 ^ 60
    → parse_pax_record (record_text size k v ++ rest)
      ≡ ok (record { key = k; value = v; rest = rest })
parse_pax_record_text size k v rest e small hk lacks fits =
    let d = format_int 10 size in
    let pair = k ++ b'=' ∷ v in
    let len : size ≡ length d + length pair + 2 =
      omega (arith, length-record_text size k v, length-append k (b'=' ∷ v)) in
    let parts = record_text-whole size k v rest in
    let digits_read = parse_int-format_int 10 (omega arith) (omega arith) size (omega arith) in
    let space =
      index_byte-append b' ' d (pair ++ b'\n' ∷ rest) (Lacks-format_int size (omega arith)) in
    let digits_taken = take_append d (b' ' ∷ (pair ++ b'\n' ∷ rest)) (length d) refl in
    ap parse_pax_record parts
    ∙ parse_pax_record_space (whole d pair rest) (length d) space
    ∙ ap (λ (t : Bytes). sized_record (whole d pair rest) (length d) (parse_int 10 t)) digits_taken
    ∙ ap (sized_record (whole d pair rest) (length d)) (digits_read ∙ ap parsed len)
    ∙ sized_record-whole d pair rest
        (omega (arith, length-append k (b'=' ∷ v), one-le-size_digits size (omega arith)))
        (omega (arith, length-append k (b'=' ∷ v)))
    ∙ split_record_pair k v rest lacks

-- What `formatPAXRecord` prints, in front of any rest, `parsePAXRecord` takes apart again, for a
-- non-empty key with no equals sign and any value, where key, value and rest have less than 2^60
-- bytes together.
pub parse_pax_record-format_pax_record :
    (k v rest : Bytes)
    → 1 ≤ length k
    → Lacks b'=' k
    → length k + length v + length rest < 2 ^ 60
    → parse_pax_record (format_pax_record k v ++ rest)
      ≡ ok (record { key = k; value = v; rest = rest })
parse_pax_record-format_pax_record k v rest hk lacks fits =
    let printed = format_pax_record-size k v (omega arith) in
    ap (λ (s : Bytes). parse_pax_record (s ++ rest)) printed
    ∙ parse_pax_record_text (length (format_pax_record k v)) k v rest
        (ap (λ (s : Bytes). length s) printed) (length-format_pax_record-lt k v (omega arith)) hk
        lacks fits

-- A size field of a number from 5 on, padded with zeros until it is as long as the size that it
-- names, in front of less than 2^60 bytes: the tests let the record pass, and the slice between the
-- space and the newline panics.
pub parse_pax_record_panics :
    (k n : ℕ) (t : Bytes)
    → 5 ≤ n
    → n ≤ k + length (format_uint 10 n) + 1
    → k + length (format_uint 10 n) + length t < 2 ^ 60
    → parse_pax_record ((replicate k b'0' ++ format_uint 10 n) ++ b' ' ∷ t) ≡ panic
unfolding sized_record slice
parse_pax_record_panics k n t low padded fits =
    let d = replicate k b'0' ++ format_uint 10 n in
    let s = d ++ b' ' ∷ t in
    let d_len = length-append (replicate k b'0') (format_uint 10 n) in
    let zeros_len = length-replicate {A = ℕ} k b'0' in
    let s_len = length-append d (b' ' ∷ t) in
    let all_digits =
      digits-zeros 10 (omega arith) (omega arith) k (format_uint 10 n)
        (unfold format_uint in digits-IsDigit 10 (omega arith) (omega arith) (suc n) n) in
    let read = parse_int-zeros 10 (omega arith) (omega arith) k n (omega arith) in
    let inside : (slt n 5 || slt (length s) n) ≡ false = ground arith in
    let crossed : (ltb (n - 1) (length d + 1) || ltb (length s) (n - 1)) ≡ true = ground arith in
    parse_pax_record_space s (length d) (index_byte-append b' ' d t (Lacks-digits d all_digits))
    ∙ ap (λ (u : Bytes). sized_record s (length d) (parse_int 10 u))
        (take_append d (b' ' ∷ t) (length d) refl)
    ∙ ap (sized_record s (length d)) read
    ∙ rw inside (rw crossed)
