-- ===== src/Tar/SparseMap.antt =====
-- `readGNUSparseMap0x1` (tar/reader.go): the sparse map in the headers of an entry.
pub mod Split
mod Tests
use arkive.Common.{
  ℕ, zero, suc, ◌+◌, ◌-◌, ◌*◌, ◌/◌, ◌%◌, ◌^◌, ◌≤◌, ◌<◌, min, ◌≡◌, refl, sym, ap, subst, ◌∙◌, ◌≢◌,
  ◌↔◌, ◌⊎◌, inl, inr, Bool, true, false, not, ◌&&◌, ◌||◌, Option, none, some, List, [], ◌∷◌, ◌++◌,
  map, append-nil, append_assoc, arith, Bytes, IsByte, ltb, leb, ◌==◌, if◌then◌else◌, Bool-cases,
  Option-cases, bytes_eq, bytes_eq_iff, length, get_or, take, drop, replicate, length-append,
  take-append-drop, length-take, length-drop, length-replicate, replicate-add, take_append,
  drop_append, take_all, drop_all, drop-drop, drop-append, take-append, get_or-append, All,
}
use arkive.Common.Words.{u16_mod, u32_mod, u64_mod, sign_bit, IsWord, is_neg, add64, sub64, slt}
use arkive.Common.Digits.{
  digits, format_uint, format_int, Parsed, parsed, syntax_error, range_error, is_digit, parse_loop,
  parse_uint, signed, parse_int, All-append, parse_loop-digits, parse_loop-zeros, digits-IsDigit,
  digits-ne-nil, length-digits_mono, length-digits_next, length-digits-le, parse_uint-loop,
  parse_uint-format_uint, parse_int-format_int, parse_int-zeros, digits-zeros,
}
use arkive.Common.Text.{codes, lookup, insert, delete, lookup-insert, lookup-delete}
use arkive.Common.Go.{
  Error, eof, unexpected_eof, err_header, err_field_too_long, err_write_too_long,
  err_write_after_close, err_invalid_header, err_format, err_checksum, err_algorithm, err_long_name,
  err_long_extra, comment_length, too_many_files, negative_offset, missed_bytes, closed_twice,
  write_closed, device, Result, ok, err, panic, stuck, >>=-eq-ok, >>=-ne-stuck, ◌>>=◌, ◌>>◌,
}
use arkive.Tar.PaxHeaders.{
  Headers, pax_gnu_sparse_offset, pax_gnu_sparse_num_bytes, pax_gnu_sparse_map, join, PaxState,
  sparse_case, assign, is_sparse_key, pax_step, finish_pax, parse_pax_loop, parse_pax,
}
use arkive.Tar.FileReader.{
  SparseEntry, SparseFileReader, Outcome, is_eof, on_eof, skip_empty, reg_read, read_hole,
  read_fragment, sparse_read_from, sparse_read, is_bad_entry, has_bad_entry, new_sparse_file_reader,
}

abbrev pub pax_gnu_sparse_num_blocks : Bytes
pax_gnu_sparse_num_blocks = codes "GNU.sparse.numblocks"

-- `m[key]`, which is the empty string where the key is missing.
unfoldable pub value_at : Headers → Bytes → Bytes
value_at m key = elim (lookup key m) [ some v ↦ v | none ↦ [] ]

cons_head : ℕ → List Bytes → List Bytes
cons_head d [] = (d ∷ []) ∷ []
cons_head d (p ∷ ps) = (d ∷ p) ∷ ps

-- `strings.Split(s, ",")`
unfoldable pub split : ℕ → Bytes → List Bytes
unfolding cons_head
split c [] = [] ∷ []
split c (d ∷ s) = let rest = split c s in if d == c then [] ∷ rest else cons_head d rest

unfoldable pub parsed_int : Parsed → Result ℕ
parsed_int (parsed n) = ok n
parsed_int syntax_error = err err_header
parsed_int range_error = err err_header

-- The loop over the entries, two texts at a time; an odd text is an index out of range.
unfoldable pub parse_entries : List Bytes → Result (List SparseEntry)
unfolding parsed_int
parse_entries [] = ok []
parse_entries (a ∷ []) = panic
parse_entries (a ∷ b ∷ rest) = do
  offset ← parsed_int (parse_int 10 a)
  num_bytes ← parsed_int (parse_int 10 b)
  sp ← parse_entries rest
  ok (record { offset = offset; num_bytes = num_bytes } ∷ sp)

-- The body, given the number of blocks and the map as they stand in the headers.
unfoldable pub read_map : Bytes → Bytes → Result (List SparseEntry)
unfolding parse_entries parsed_int
read_map num_blocks text = do
  num_entries ← parsed_int (parse_int 10 num_blocks)
  if is_neg num_entries || slt (add64 num_entries num_entries) num_entries
      then err err_header
      else (let sparse_map = split b',' text in
          if not (length sparse_map == add64 num_entries num_entries)
          then err err_header
          else parse_entries sparse_map)

unfoldable pub read_gnu_sparse_map0x1 : Headers → Result (List SparseEntry)
unfolding read_map
read_gnu_sparse_map0x1 ext_hdrs =
    read_map (value_at ext_hdrs pax_gnu_sparse_num_blocks) (value_at ext_hdrs pax_gnu_sparse_map)
