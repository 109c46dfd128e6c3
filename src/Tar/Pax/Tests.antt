-- ===== src/Tar/Pax/Tests.antt =====
-- PAX records at concrete values.
use arkive.Common.{◌≡◌, refl, [], ◌∷◌, ◌++◌, arith, Bytes, length, replicate}
use arkive.Common.Digits.{format_uint}
use arkive.Common.Go.{ok, panic}
use arkive.Tar.Pax.{format_pax_record, parse_pax_record}
use arkive.Tar.Pax.Record.{Lacks, parse_pax_record-format_pax_record, parse_pax_record_panics}

abbrev a_key : Bytes
a_key = b'p' ∷ b'a' ∷ b't' ∷ b'h' ∷ []

abbrev a_value : Bytes
a_value = b'x' ∷ b'/' ∷ b'y' ∷ []

a_key-Lacks : Lacks b'=' a_key
a_key-Lacks = (λ e. omega arith, (λ e. omega arith, (λ e. omega arith, (λ e. omega arith, tt))))

parse_pax_record-format_pax_record_example :
    parse_pax_record (format_pax_record a_key a_value ++ a_value)
    ≡ ok (record { key = a_key; value = a_value; rest = a_value })
parse_pax_record-format_pax_record_example =
    parse_pax_record-format_pax_record a_key a_value a_value (omega arith) a_key-Lacks (omega arith)

one_digit : length (format_uint 10 6) ≡ 1
unfolding format_uint
one_digit = refl

-- `00006` and then a space and any text.
parse_pax_record_panics_example :
    parse_pax_record ((replicate 4 b'0' ++ format_uint 10 6) ++ b' ' ∷ a_value) ≡ panic
parse_pax_record_panics_example =
    parse_pax_record_panics 4 6 a_value (omega arith) (omega (arith, one_digit))
      (omega (arith, one_digit))
