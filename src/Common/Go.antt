-- ===== src/Common/Go.antt =====
-- Results of fallible Go code. `panic` is a run-time panic, such as a slice index out of range.
-- `stuck` is no Go result: a loop of the model ran out of fuel.
use mathlib.Core.Path.{◌≡◌, refl}
use mathlib.Core.Logic.{◌≢◌}

pub data Error : Type 0 where
  eof unexpected_eof : Error
  err_header err_field_too_long err_write_too_long err_write_after_close err_invalid_header : Error
  err_format err_checksum err_algorithm err_long_name err_long_extra : Error
  comment_length too_many_files negative_offset missed_bytes closed_twice write_closed : Error
  device : Error

pub data Result {ℓ} (A : Type ℓ) : Type ℓ where
  panic stuck : Result A
  err : Error → Result A
  ok : A → Result A

module _ {ℓ κ} {A : Type ℓ} {B : Type κ} where
  infixl 5 ◌>>=◌ ◌>>◌
  abbrev pub ◌>>=◌ : Result A → (A → Result B) → Result B
  panic >>= next = panic
  stuck >>= next = stuck
  err e >>= next = err e
  ok a >>= next = next a

  abbrev pub ◌>>◌ : Result A → Result B → Result B
  m >> later = m >>= λ _. later

  -- A chain that succeeds has parts that succeed.
  pub >>=-eq-ok :
      (first : Result A) (next : A → Result B) {last : B}
      → (first >>= next) ≡ ok last
      → (middle : A) × (first ≡ ok middle) × (next middle ≡ ok last)
  >>=-eq-ok panic next e = cc
  >>=-eq-ok stuck next e = cc
  >>=-eq-ok (err x) next e = cc
  >>=-eq-ok (ok middle) next e = (middle, refl, e)

  -- A bind gets stuck only where one of its parts does.
  pub >>=-ne-stuck :
      (first : Result A) (next : A → Result B)
      → first ≢ stuck
      → ((middle : A) → first ≡ ok middle → next middle ≢ stuck)
      → (first >>= next) ≢ stuck
  >>=-ne-stuck panic next h k e = cc
  >>=-ne-stuck stuck next h k e = h refl
  >>=-ne-stuck (err x) next h k e = cc
  >>=-ne-stuck (ok middle) next h k e = k middle refl e
