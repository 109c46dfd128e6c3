-- ===== src/Tar/PaxHeaders/Tests.antt =====
-- Extended headers at concrete values.
use arkive.Common.{◌^◌, ◌<◌, ◌≡◌, refl, ◌≢◌, none, [], ◌∷◌, arith, bytes_eq, length, All}
use arkive.Common.Digits.{format_uint, format_int}
use arkive.Common.Text.{lookup}
use arkive.Common.Go.{ok, stuck}
use arkive.Tar.PaxHeaders.Lookup.{last_value, parse_pax-lookup}
use arkive.Tar.Pax.{record_text, format_pax_record}
use arkive.Tar.PaxHeaders.{Headers, parse_pax}
use arkive.Tar.PaxHeaders.Parse.{parse_pax-ne-stuck, pax_body, IsPaxPair}

abbrev pairs : Headers
pairs = (b'a' ∷ [], b'1' ∷ []) ∷ (b'b' ∷ [], b'2' ∷ []) ∷ (b'a' ∷ [], []) ∷ []

parse_pax-ne-stuck_example : parse_pax (b'5' ∷ b' ' ∷ []) ≢ stuck
parse_pax-ne-stuck_example = parse_pax-ne-stuck (b'5' ∷ b' ' ∷ [])

pairs-IsPaxPair : All IsPaxPair pairs
unfolding bytes_eq
pairs-IsPaxPair = (
  (omega arith, (λ e. omega arith, tt), refl, omega arith),
  (
    (omega arith, (λ e. omega arith, tt), refl, omega arith),
    ((omega arith, (λ e. omega arith, tt), refl, omega arith), tt),
  ),
)

body_small : length (pax_body pairs) < 2 ^ 59
unfolding format_pax_record format_int format_uint record_text
body_small = omega arith

parse_pax-lookup_example :
    (m : Headers) × (parse_pax (pax_body pairs) ≡ ok m)
    × (lookup (b'b' ∷ []) m ≡ last_value (b'b' ∷ []) none pairs)
parse_pax-lookup_example = parse_pax-lookup pairs (b'b' ∷ []) pairs-IsPaxPair body_small
