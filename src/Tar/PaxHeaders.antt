-- ===== src/Tar/PaxHeaders.antt =====
-- `parsePAX` (tar/reader.go): the records of an extended header as a map. The bytes that
-- `ioutil.ReadAll` returns are the argument; the loop's fuel is the length of what is left, and
-- every record takes a byte at least.
pub mod Parse
pub mod Lookup
mod Tests
use arkive.Common.{
  ℕ, zero, suc, ◌+◌, ◌-◌, ◌*◌, ◌/◌, ◌%◌, ◌^◌, ◌≤◌, ◌<◌, min, ◌≡◌, refl, sym, ap, subst, ◌∙◌, ◌≢◌,
  ◌↔◌, ◌⊎◌, inl, inr, Bool, true, false, not, ◌&&◌, ◌||◌, Option, none, some, List, [], ◌∷◌, ◌++◌,
  map, append-nil, append_assoc, arith, Bytes, IsByte, ltb, leb, ◌==◌, if◌then◌else◌, Bool-cases,
  Option-cases, bytes_eq, bytes_eq_iff, length, get_or, take, drop, replicate, length-append,
  take-append-drop, length-take, length-drop, length-replicate, replicate-add, take_append,
  drop_append, take_all, drop_all, drop-drop, drop-append, take-append, get_or-append, All,
}
use arkive.Common.Words.{u16_mod, u32_mod, u64_mod, sign_bit, IsWord, is_neg, add64, sub64, slt}
use arkive.Common.Digits.{
  digits, format_uint, format_int, Parsed, parsed, syntax_error, range_error, is_digit, parse_loop,
  parse_uint, signed, parse_int, All-append, parse_loop-digits, parse_loop-zeros, digits-IsDigit,
  digits-ne-nil, length-digits_mono, length-digits_next, length-digits-le, parse_uint-loop,
  parse_uint-format_uint, parse_int-format_int, parse_int-zeros, digits-zeros,
}
use arkive.Common.Text.{codes, lookup, insert, delete, lookup-insert, lookup-delete}
use arkive.Common.Go.{
  Error, eof, unexpected_eof, err_header, err_field_too_long, err_write_too_long,
  err_write_after_close, err_invalid_header, err_format, err_checksum, err_algorithm, err_long_name,
  err_long_extra, comment_length, too_many_files, negative_offset, missed_bytes, closed_twice,
  write_closed, device, Result, ok, err, panic, stuck, >>=-eq-ok, >>=-ne-stuck, ◌>>=◌, ◌>>◌,
}
use arkive.Tar.Pax.{
  index_byte, slice, record_text, format_pax_record, PaxRecord, split_record, sized_record,
  parse_pax_record,
}

abbrev pub Headers : Type 0
Headers = List (Bytes × Bytes)

abbrev pub pax_gnu_sparse_offset : Bytes
pax_gnu_sparse_offset = codes "GNU.sparse.offset"

abbrev pub pax_gnu_sparse_num_bytes : Bytes
pax_gnu_sparse_num_bytes = codes "GNU.sparse.numbytes"

abbrev pub pax_gnu_sparse_map : Bytes
pax_gnu_sparse_map = codes "GNU.sparse.map"

-- `strings.Contains(value, ",")`
contains : ℕ → Bytes → Bool
contains c [] = false
contains c (d ∷ s) = d == c || contains c s

-- `strings.Join(parts, ",")`
unfoldable pub join : List Bytes → Bytes
join [] = []
join (p ∷ []) = p
join (p ∷ q ∷ ps) = p ++ b',' ∷ join (q ∷ ps)

-- The two variables of the loop beside the bytes left.
pub record PaxState : Type 0 where
  pub sparse_map : List Bytes
  pub ext_hdrs : Headers

-- `case paxGNUSparseOffset, paxGNUSparseNumBytes`
pub sparse_case : PaxState → Bytes → Bytes → Result PaxState
sparse_case s key value =
    let turn = length s.sparse_map % 2 in
    if turn == 0 && not (bytes_eq key pax_gnu_sparse_offset)
      || turn == 1 && not (bytes_eq key pax_gnu_sparse_num_bytes)
      || contains b',' value
    then err err_header
    else ok (record s { sparse_map = s.sparse_map ++ value ∷ [] })

-- `default`: a record with an empty value deletes its key.
unfoldable pub assign : Headers → Bytes → Bytes → Headers
assign m key [] = delete key m
assign m key (c ∷ value) = insert key (c ∷ value) m

abbrev pub is_sparse_key : Bytes → Bool
is_sparse_key key = bytes_eq key pax_gnu_sparse_offset || bytes_eq key pax_gnu_sparse_num_bytes

pub pax_step : PaxState → Bytes → Bytes → Result PaxState
pax_step s key value =
    if is_sparse_key key
    then sparse_case s key value
    else ok (record s { ext_hdrs = assign s.ext_hdrs key value })

-- `if len(sparseMap) > 0` behind the loop.
pub finish_pax : PaxState → Headers
finish_pax s =
    if length s.sparse_map == 0
    then s.ext_hdrs
    else insert pax_gnu_sparse_map (join s.sparse_map) s.ext_hdrs

-- Whatever `parsePAXRecord` answers, a failure is `ErrHeader`.
pub parse_pax_loop : ℕ → PaxState → Bytes → Result Headers
parse_pax_loop fuel s [] = ok (finish_pax s)
parse_pax_loop zero s (c ∷ sbuf) = stuck
parse_pax_loop (suc fuel) s (c ∷ sbuf) = do
  r ← parse_pax_record (c ∷ sbuf)
  s' ← pax_step s r.key r.value
  parse_pax_loop fuel s' r.rest

unfoldable pub parse_pax : Bytes → Result Headers
parse_pax sbuf = parse_pax_loop (length sbuf) (record { sparse_map = []; ext_hdrs = [] }) sbuf
