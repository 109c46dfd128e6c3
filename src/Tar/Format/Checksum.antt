-- ===== src/Tar/Format/Checksum.antt =====
-- The checksum that is written into a block (tar/format.go).
use arkive.Common.{
  ℕ, suc, ◌+◌, ◌*◌, ◌≤◌, ◌≡◌, refl, sym, ap, ◌∙◌, false, none, [], ◌∷◌, ◌++◌, arith, Bytes, IsByte,
  length, take, drop, length-append, take-append-drop, length-take, length-drop, drop-drop, All,
}
use arkive.Common.Words.{is_neg}
use arkive.Common.Digits.{digits, format_uint, format_int, length-digits_mono}
use arkive.Tar.Block.Splice.{get-put}
use arkive.Tar.Strconv.Trim.{parse_octal_space, length-format_octal}
use arkive.Tar.Strconv.Octal.{parse_octal-format_octal}
use arkive.Tar.Strconv.{parse_octal, format_octal}
use arkive.Tar.Block.{get, put, block_size}
use arkive.Tar.Block.V7
use arkive.Tar.Format.{unsigned_from, compute_checksum, checksum_field, put_checksum}

unsigned_from-append :
    (i : ℕ) (xs ys : Bytes)
    → unsigned_from i (xs ++ ys) ≡ unsigned_from i xs + unsigned_from (i + length xs) ys
unfolding unsigned_from
unsigned_from-append i [] ys = ap (λ k. unsigned_from k ys) (omega arith) ∙ zero_plus _
  where
    zero_plus : (n : ℕ) → n ≡ 0 + n
    zero_plus n = omega arith
unsigned_from-append i (x ∷ xs) ys =
    let e = unsigned_from-append (suc i) xs ys in
    let k : suc i + length xs ≡ i + suc (length xs) = omega arith in
    let e' = ap (λ k. unsigned_from k ys) k in omega arith

unsigned_from_spaces :
    (i : ℕ) (s : Bytes) → 148 ≤ i → i + length s ≤ 156 → unsigned_from i s ≡ 32 * length s
unfolding unsigned_from
unsigned_from_spaces i [] h k = omega arith
unsigned_from_spaces i (c ∷ s) h k =
    let e = unsigned_from_spaces (suc i) s (omega arith) (omega arith) in ground arith

unsigned_from-le : (i : ℕ) (b : Bytes) → All IsByte b → unsigned_from i b ≤ 255 * length b
unfolding unsigned_from
unsigned_from-le i [] h = omega arith
unsigned_from-le i (c ∷ b) (hc, h) = let e = unsigned_from-le (suc i) b h in ground arith

module _ (b : Bytes) (whole : length b ≡ block_size) where
  -- The checksum does not depend on what stands in its field.
  compute_checksum-put :
      (s : Bytes) → length s ≡ 8 → unsigned_from 0 (put V7.chksum s b) ≡ unsigned_from 0 b
  compute_checksum-put s h =
      let l = length-take 148 b in
      let lb = length-take 8 (drop 148 b) in
      let ld = length-drop 148 b in
      let old = take 8 (drop 148 b) in
      let parts : b ≡ take 148 b ++ (old ++ drop 156 b) =
        sym (take-append-drop 148 b)
        ∙ ap (λ x. take 148 b ++ x)
            (sym (take-append-drop 8 (drop 148 b)) ∙ ap (λ x. old ++ x) (drop-drop 148 8 b)) in
      let e = middle s (omega arith) in
      let e' = middle old (omega arith) in e ∙ sym e' ∙ ap (λ x. unsigned_from 0 x) (sym parts)
    where
      middle :
          (t : Bytes)
          → length t ≡ 8
          → unsigned_from 0 (take 148 b ++ (t ++ drop 156 b))
            ≡ unsigned_from 0 (take 148 b) + (256 + unsigned_from 156 (drop 156 b))
      middle t k =
          let l = length-take 148 b in
          let p = unsigned_from-append 0 (take 148 b) (t ++ drop 156 b) in
          let i : 0 + length (take 148 b) ≡ 148 = omega arith in
          let j : 148 + length t ≡ 156 = omega arith in
          let q = unsigned_from-append 148 t (drop 156 b) in
          let z = unsigned_from_spaces 148 t (omega arith) (omega arith) in
          p
          ∙ ap (λ x. unsigned_from 0 (take 148 b) + x)
              (ap (λ x. unsigned_from x (t ++ drop 156 b)) i
                ∙ q
                ∙ ap (λ x. unsigned_from 148 t + unsigned_from x (drop 156 b)) j
                ∙ ap (λ x. x + unsigned_from 156 (drop 156 b)) (z ∙ ap (λ x. 32 * x) k))

octal_digits-le : (x : ℕ) → x ≤ 255 * 512 → length (format_int 8 x) ≤ 6
unfolding format_int format_uint
octal_digits-le x h =
    let positive : is_neg x ≡ false = ground arith in
    let e =
      length-digits_mono 8 (omega arith) (omega arith) (suc x) 131072 x 131071 (omega arith)
        (omega arith) (omega arith) in
    rw positive (omega (arith, e, six))
  where
    six : length (digits 131072 8 131071) ≡ 6
    six = refl

module _ (b : Bytes) (whole : length b ≡ block_size) where
  pub length-checksum_field : length (checksum_field b) ≡ 8
  unfolding checksum_field
  length-checksum_field =
      let l = length-format_octal none (take 7 (get V7.chksum b)) (compute_checksum b).0 in
      let l' =
        length-append (format_octal none (take 7 (get V7.chksum b)) (compute_checksum b).0).1
          (b' ' ∷ []) in
      omega (arith, length-take 7 (get V7.chksum b), length-take 8 (drop 148 b), length-drop 148 b)

  -- The checksum of a block of bytes is read back from its field, and it is the block's own.
  pub get-put_checksum :
      All IsByte b
      → (parse_octal none (get V7.chksum (put_checksum b)) ≡ ((compute_checksum b).0, none))
        × ((compute_checksum (put_checksum b)).0 ≡ (compute_checksum b).0)
  unfolding put_checksum checksum_field compute_checksum
  get-put_checksum bytes =
      let old = take 7 (get V7.chksum b) in
      let x = unsigned_from 0 b in
      let bound = unsigned_from-le 0 b bytes in
      let small : x ≤ 255 * 512 = omega arith in
      let digits_fit = octal_digits-le x small in
      let l : length old ≡ 7 =
        omega
          (arith, length-take 7 (get V7.chksum b), length-take 8 (drop 148 b), length-drop 148 b) in
      let (_, read) = parse_octal-format_octal none none old x (omega arith) (omega arith) in
      let g = get-put V7.chksum (checksum_field b) b (omega arith) length-checksum_field in
      (
        ap (λ t. parse_octal none t) g ∙ parse_octal_space none _ ∙ read,
        compute_checksum-put b whole (checksum_field b) length-checksum_field,
      )
