-- ===== src/Zip/Buf/Laws.antt =====
-- What is written by a writer is read back by the reader of the same width.
use arkive.Common.{
  ℕ, suc, ◌+◌, ◌*◌, ◌%◌, ◌^◌, ◌≤◌, ◌≡◌, refl, ap, [], ◌∷◌, ◌++◌, arith, Bytes, length, take, drop,
  replicate, length-append, length-replicate, take_append, drop_append,
}
use arkive.Common.Go.{ok}
use arkive.Zip.Buf.{
  uint8, uint16, uint32, uint64, sub, skip, put_uint8, put_uint16, put_uint32, put_uint64,
  put_zeros,
}

pub uint8-put : (v : ℕ) (rest : Bytes) → uint8 (put_uint8 v rest) ≡ ok (v % 256, rest)
unfolding uint8 put_uint8
uint8-put v rest = refl

pub uint16-put : (v : ℕ) (rest : Bytes) → uint16 (put_uint16 v rest) ≡ ok (v % 2 ^ 16, rest)
unfolding uint16 put_uint16
uint16-put v rest = ap (λ (n : ℕ). ok (n, rest)) (omega arith)

pub uint32-put : (v : ℕ) (rest : Bytes) → uint32 (put_uint32 v rest) ≡ ok (v % 2 ^ 32, rest)
unfolding uint32 put_uint32
uint32-put v rest = rw (uint16-put, uint16-put) (ap (λ (n : ℕ). ok (n, rest)) (omega arith))

pub uint64-put : (v : ℕ) (rest : Bytes) → uint64 (put_uint64 v rest) ≡ ok (v % 2 ^ 64, rest)
unfolding uint64 put_uint64
uint64-put v rest = rw (uint32-put, uint32-put) (ap (λ (n : ℕ). ok (n, rest)) (omega arith))

pub skip-append : (n : ℕ) (front rest : Bytes) → n ≡ length front → skip n (front ++ rest) ≡ ok rest
unfolding skip
skip-append n front rest e = ground (arith, length-append front rest, drop_append front rest n e)

pub sub-append :
    (n : ℕ) (front rest : Bytes) → n ≡ length front → sub n (front ++ rest) ≡ ok (front, rest)
unfolding sub
sub-append n front rest e =
    ground (arith, length-append front rest, drop_append front rest n e, take_append front rest n e)

pub skip-put_zeros : (n : ℕ) (rest : Bytes) → skip n (put_zeros n rest) ≡ ok rest
unfolding put_zeros
skip-put_zeros n rest =
    skip-append n (replicate n 0) rest (omega (arith, length-replicate {A = ℕ} n 0))

pub length-put_uint8 : (v : ℕ) (rest : Bytes) → length (put_uint8 v rest) ≡ 1 + length rest
unfolding put_uint8
length-put_uint8 v rest = omega arith

pub length-put_uint16 : (v : ℕ) (rest : Bytes) → length (put_uint16 v rest) ≡ 2 + length rest
unfolding put_uint16
length-put_uint16 v rest = omega arith

pub length-put_uint32 : (v : ℕ) (rest : Bytes) → length (put_uint32 v rest) ≡ 4 + length rest
unfolding put_uint32
length-put_uint32 v rest = omega (arith, length-put_uint16)

pub length-put_uint64 : (v : ℕ) (rest : Bytes) → length (put_uint64 v rest) ≡ 8 + length rest
unfolding put_uint64
length-put_uint64 v rest = omega (arith, length-put_uint32)

pub length-put_zeros : (n : ℕ) (rest : Bytes) → length (put_zeros n rest) ≡ n + length rest
unfolding put_zeros
length-put_zeros n rest =
    omega (arith, length-append (replicate n 0) rest, length-replicate {A = ℕ} n 0)

pub ruleset put_lengths =
    (length-put_uint8, length-put_uint16, length-put_uint32, length-put_uint64, length-put_zeros)

pub skip-put_uint32 : (v : ℕ) (rest : Bytes) → skip 4 (put_uint32 v rest) ≡ ok rest
unfolding skip put_uint32 put_uint16
skip-put_uint32 v rest = ground arith

-- Reading a field that a writer has put in front.
pub ruleset read_put =
    (uint8-put, uint16-put, uint32-put, uint64-put, skip-put_uint32, skip-put_zeros)

-- Two skipped uint16 fields.
pub put_zeros_four : (rest : Bytes) → put_zeros 4 rest ≡ put_uint16 0 (put_uint16 0 rest)
unfolding put_zeros put_uint16
put_zeros_four rest = refl

-- A read of a slice that is long enough succeeds.
pub uint32_total : (b : Bytes) → 4 ≤ length b → (v : ℕ) × (uint32 b ≡ ok (v, drop 4 b))
unfolding uint32 uint16
uint32_total (x ∷ y ∷ z ∷ w ∷ b) h = (x + 256 * y + 2 ^ 16 * (z + 256 * w), refl)
uint32_total [] h = absurd (omega arith)
uint32_total (x ∷ []) h = absurd (omega arith)
uint32_total (x ∷ y ∷ []) h = absurd (omega arith)
uint32_total (x ∷ y ∷ z ∷ []) h = absurd (omega arith)

-- The size and the two versions of the zip64 end record.
pub skip-put_versions :
    (a b c : ℕ) (rest : Bytes) → skip 12 (put_uint64 a (put_uint16 b (put_uint16 c rest))) ≡ ok rest
unfolding skip put_uint64 put_uint32 put_uint16
skip-put_versions a b c rest = ground arith

-- A cut behind the field does not change what is read.
pub uint32-take :
    (b : Bytes) (k : ℕ)
    → 4 ≤ length b
    → (v : ℕ) × (uint32 b ≡ ok (v, drop 4 b))
      × (uint32 (take (suc (suc (suc (suc k)))) b) ≡ ok (v, take k (drop 4 b)))
unfolding uint32 uint16
uint32-take (x ∷ y ∷ z ∷ w ∷ b) k h = (x + 256 * y + 2 ^ 16 * (z + 256 * w), refl, refl)
uint32-take [] k h = absurd (omega arith)
uint32-take (x ∷ []) k h = absurd (omega arith)
uint32-take (x ∷ y ∷ []) k h = absurd (omega arith)
uint32-take (x ∷ y ∷ z ∷ []) k h = absurd (omega arith)
