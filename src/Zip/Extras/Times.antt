-- ===== src/Zip/Extras/Times.antt =====
-- The time that an extra field gives, by its layout, and what `readDirectoryHeader` (zip/reader.go)
-- reads of every field but the zip64 one.
use arkive.Common.{
  ℕ, suc, ◌+◌, ◌*◌, ◌%◌, ◌^◌, ◌≤◌, ◌<◌, ◌≡◌, refl, ap, sym, subst, take_all, drop_all, ◌∙◌, ◌≢◌,
  ◌⊎◌, inl, inr, ◌/◌, if◌then◌else◌, false, ◌||◌, Option, some, List, [], ◌∷◌, arith, Bytes, ltb,
  ◌==◌, Bool-cases, length, take, drop, length-drop, drop-drop,
}
use arkive.Common.Words.{sub64, sign_bit, is_neg}
use arkive.Zip.Buf.{uint32}
use arkive.Common.Go.{ok}
use arkive.Zip.Buf.{uint8, uint16, uint64, sub}
use arkive.Zip.Extras.{
  zip64_extra_id, Extras, windows_time, ntfs_attribute, ntfs_attributes, ntfs_extra, unix_extra,
  ext_time_extra, read_extra,
}

-- The number whose bytes these are, the lowest first.
abbrev pub value : Bytes → ℕ
value [] = 0
value (c ∷ b) = c + 256 * value b

uint16-value : (b : Bytes) → 2 ≤ length b → uint16 b ≡ ok (value (take 2 b), drop 2 b)
unfolding uint16 uint8
uint16-value [] h = absurd (omega arith)
uint16-value (x ∷ []) h = absurd (omega arith)
uint16-value (x ∷ y ∷ b) h = ap (λ (v : ℕ). ok (v, b)) (omega arith)

uint32-value : (b : Bytes) → 4 ≤ length b → uint32 b ≡ ok (value (take 4 b), drop 4 b)
unfolding uint32 uint16 uint8
uint32-value [] h = absurd (omega arith)
uint32-value (x ∷ []) h = absurd (omega arith)
uint32-value (x ∷ y ∷ []) h = absurd (omega arith)
uint32-value (x ∷ y ∷ z ∷ []) h = absurd (omega arith)
uint32-value (x ∷ y ∷ z ∷ w ∷ b) h = ap (λ (v : ℕ). ok (v, b)) (omega arith)

uint64-value : (b : Bytes) → 8 ≤ length b → uint64 b ≡ ok (value (take 8 b), drop 8 b)
unfolding uint64 uint32 uint16 uint8
uint64-value [] h = absurd (omega arith)
uint64-value (x ∷ []) h = absurd (omega arith)
uint64-value (x ∷ y ∷ []) h = absurd (omega arith)
uint64-value (x ∷ y ∷ z ∷ []) h = absurd (omega arith)
uint64-value (x ∷ y ∷ z ∷ w ∷ []) h = absurd (omega arith)
uint64-value (x ∷ y ∷ z ∷ w ∷ x₁ ∷ []) h = absurd (omega arith)
uint64-value (x ∷ y ∷ z ∷ w ∷ x₁ ∷ y₁ ∷ []) h = absurd (omega arith)
uint64-value (x ∷ y ∷ z ∷ w ∷ x₁ ∷ y₁ ∷ z₁ ∷ []) h = absurd (omega arith)
uint64-value (x ∷ y ∷ z ∷ w ∷ x₁ ∷ y₁ ∷ z₁ ∷ w₁ ∷ b) h = ap (λ (v : ℕ). ok (v, b)) (omega arith)

-- The time of an NTFS field: 100 nanoseconds since 1601, as seconds and nanoseconds since 1970.
abbrev pub time_of_ticks : ℕ → ℕ × ℕ
time_of_ticks ticks = (sub64 (ticks / 10000000) 11644473600, 100 * (ticks % 10000000))

-- The time behind a field, by the layout of the field: the modification time of an NTFS field (0x0a),
-- of a UNIX field (0x0d or 0x5855) of eight bytes at least, and of an extended timestamp (0x5455) with
-- its lowest flag set. Every other field leaves the time as it was.
abbrev pub field_time : ℕ × Bytes → Option (ℕ × ℕ) → Option (ℕ × ℕ)
field_time (tag, b) t =
    if tag == 0x0a
    then some (time_of_ticks (value (take 8 (drop 8 b))))
    else if (tag == 0x0d) || (tag == 0x5855)
    then (if ltb (length b) 8 then t else some (value (take 4 (drop 4 b)), 0))
    else if tag == 0x5455
    then (if ltb (length b) 5 || (value (take 1 b) % 2 == 0)
        then t
        else some (value (take 4 (drop 1 b)), 0))
    else t

abbrev pub extra_time : List (ℕ × Bytes) → Option (ℕ × ℕ) → Option (ℕ × ℕ)
extra_time [] t = t
extra_time (f ∷ fields) t = extra_time fields (field_time f t)

-- An NTFS field as its writers make it: four reserved bytes and one attribute, the three times.
abbrev pub IsNtfs : Bytes → Type 0
IsNtfs b =
    (length b ≡ 32)
    × (value (take 2 (drop 4 b)) ≡ 1)
    × (value (take 2 (drop 6 b)) ≡ 24)
    × (value (take 8 (drop 8 b)) < sign_bit)

abbrev pub IsField : ℕ × Bytes → Type 0
IsField f =
    (f.0 < 2 ^ 16) × (length f.1 < 2 ^ 16) × (f.0 ≢ zip64_extra_id) × ((f.0 ≢ 0x0a) ⊎ IsNtfs f.1)

ntfs_attribute-time :
    (attr : Bytes) (x : Extras)
    → length attr ≡ 24
    → value (take 8 attr) < sign_bit
    → ntfs_attribute 1 24 attr x
      ≡ ok (record x { time = some (time_of_ticks (value (take 8 attr))) })
unfolding ntfs_attribute windows_time
ntfs_attribute-time attr x h small =
    let n : is_neg (value (take 8 attr)) ≡ false = ground arith in
    rw (uint64-value attr (omega arith)) (rw (n) refl)

ntfs_attributes-time :
    (c : Bytes) (fuel : ℕ) (x : Extras)
    → length c ≡ 28
    → value (take 2 c) ≡ 1
    → value (take 2 (drop 2 c)) ≡ 24
    → value (take 8 (drop 2 (drop 2 c))) < sign_bit
    → ntfs_attributes (suc (suc fuel)) c x
      ≡ ok (record x { time = some (time_of_ticks (value (take 8 (drop 2 (drop 2 c))))) })
unfolding ntfs_attributes sub
ntfs_attributes-time c fuel x l tag size small =
    let attr : Bytes = drop 2 (drop 2 c) in
    let m : length attr ≡ 24 = omega (arith, l, length-drop 2 c, length-drop 2 (drop 2 c)) in
    let four : ltb (length c) 4 ≡ false = ground (arith, l) in
    let whole : ltb (length attr) 24 ≡ false = ground (arith, m) in
    rw (four, uint16-value c (omega (arith, l)), tag)
      (rw (uint16-value (drop 2 c) (omega (arith, l, length-drop 2 c)), size)
        (rw (whole, take_all attr 24 (omega (arith, m)), drop_all attr 24 (omega (arith, m)))
          (rw (ntfs_attribute-time attr x m small) refl)))

ntfs_extra-time :
    (b : Bytes) (x : Extras)
    → IsNtfs b
    → ntfs_extra b x ≡ ok (record x { time = some (time_of_ticks (value (take 8 (drop 8 b)))) })
unfolding ntfs_extra
ntfs_extra-time b x (l, tag, size, small) =
    let four : ltb (length b) 4 ≡ false = ground (arith, l) in
    let m : length (drop 4 b) ≡ 28 = omega (arith, l, length-drop 4 b) in
    let d6 : drop 2 (drop 4 b) ≡ drop 6 b = drop-drop 4 2 b in
    let d8 : drop 2 (drop 2 (drop 4 b)) ≡ drop 8 b = ap (drop 2) d6 ∙ drop-drop 6 2 b in
    rw (four, uint32-value b (omega (arith, l)), m)
      (ntfs_attributes-time (drop 4 b) 26 x m tag (ap (λ s. value (take 2 s)) d6 ∙ size)
          (subst (λ s. value (take 8 s) < sign_bit) (sym d8) small)
        ∙ ap (λ s. ok (record x { time = some (time_of_ticks (value (take 8 s))) })) d8)

unix_extra-time :
    (b : Bytes) (x : Extras)
    → unix_extra b x
      ≡ ok (record x {
        time = if ltb (length b) 8 then x.time else some (value (take 4 (drop 4 b)), 0);
      })
unfolding unix_extra
unix_extra-time b x = elim (Bool-cases (ltb (length b) 8)) [
  | inl h ↦ rw (h) refl
  | inr h ↦
      let l = length-drop 4 b in
      rw (h, uint32-value b (ground arith)) (rw (uint32-value (drop 4 b) (ground arith)) refl)
]

ext_time_extra-time :
    (b : Bytes) (x : Extras)
    → ext_time_extra b x
      ≡ ok (record x {
        time =
            if ltb (length b) 5 || (value (take 1 b) % 2 == 0)
            then x.time
            else some (value (take 4 (drop 1 b)), 0);
      })
unfolding ext_time_extra uint8
ext_time_extra-time [] x = refl
ext_time_extra-time (c ∷ b) x = elim (Bool-cases (ltb (length (c ∷ b)) 5)) [
  | inl h ↦ rw (h) refl
  | inr h ↦
      let one : c + 256 * 0 ≡ c = omega arith in
      elim (Bool-cases (c % 2 == 0)) [
        | inl k ↦ rw (h, one, k) refl
        | inr k ↦ rw (h, one, k, uint32-value b (ground arith)) refl
      ]
]

-- Every field but the zip64 one.
pub read_extra-time :
    (tag : ℕ) (b : Bytes) (x : Extras)
    → tag ≢ zip64_extra_id
    → (tag ≢ 0x0a) ⊎ IsNtfs b
    → read_extra tag b x ≡ ok (record x { time = field_time (tag, b) x.time })
unfolding read_extra
read_extra-time tag b x h n =
    let z : (tag == zip64_extra_id) ≡ false = ground arith in
    elim (Bool-cases (tag == 0x0a)) [
      | inl k ↦ elim n [
        | inl m ↦ absurd (m (ground arith))
        | inr m ↦ rw (z, k) (ntfs_extra-time b x m)
      ]
      | inr k ↦ elim (Bool-cases ((tag == 0x0d) || (tag == 0x5855))) [
        | inl l ↦ rw (z, k, l) (unix_extra-time b x)
        | inr l ↦ elim (Bool-cases (tag == 0x5455)) [
          | inl m ↦ rw (z, k, l, m) (ext_time_extra-time b x)
          | inr m ↦ rw (z, k, l, m) refl
        ]
      ]
    ]
