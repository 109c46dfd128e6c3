-- ===== src/Tar/SparseMap1.antt =====
-- `readGNUSparseMap1x0` (tar/reader.go): the sparse map in front of the data of an entry, a text that
-- fills whole blocks. `io.ReadFull` gives the next bytes of what the reader yields, so the reader is
-- those bytes.
pub mod Lines
pub mod RoundTrip
mod Tests
use arkive.Common.{
  ℕ, zero, suc, ◌+◌, ◌-◌, ◌*◌, ◌/◌, ◌%◌, ◌^◌, ◌≤◌, ◌<◌, min, ◌≡◌, refl, sym, ap, subst, ◌∙◌, ◌≢◌,
  ◌↔◌, ◌⊎◌, inl, inr, Bool, true, false, not, ◌&&◌, ◌||◌, Option, none, some, List, [], ◌∷◌, ◌++◌,
  map, append-nil, append_assoc, arith, Bytes, IsByte, ltb, leb, ◌==◌, if◌then◌else◌, Bool-cases,
  Option-cases, bytes_eq, bytes_eq_iff, length, get_or, take, drop, replicate, length-append,
  take-append-drop, length-take, length-drop, length-replicate, replicate-add, take_append,
  drop_append, take_all, drop_all, drop-drop, drop-append, take-append, get_or-append, All,
}
use arkive.Common.Words.{u16_mod, u32_mod, u64_mod, sign_bit, IsWord, is_neg, add64, sub64, slt}
use arkive.Common.Digits.{
  digits, format_uint, format_int, Parsed, parsed, syntax_error, range_error, is_digit, parse_loop,
  parse_uint, signed, parse_int, All-append, parse_loop-digits, parse_loop-zeros, digits-IsDigit,
  digits-ne-nil, length-digits_mono, length-digits_next, length-digits-le, parse_uint-loop,
  parse_uint-format_uint, parse_int-format_int, parse_int-zeros, digits-zeros,
}
use arkive.Common.Text.{codes, lookup, insert, delete, lookup-insert, lookup-delete}
use arkive.Common.Go.{
  Error, eof, unexpected_eof, err_header, err_field_too_long, err_write_too_long,
  err_write_after_close, err_invalid_header, err_format, err_checksum, err_algorithm, err_long_name,
  err_long_extra, comment_length, too_many_files, negative_offset, missed_bytes, closed_twice,
  write_closed, device, Result, ok, err, panic, stuck, >>=-eq-ok, >>=-ne-stuck, ◌>>=◌, ◌>>◌,
}
use arkive.Tar.Block.{Field, get, put, block_size, name_size, prefix_size}
use arkive.Tar.FileReader.{
  SparseEntry, SparseFileReader, Outcome, is_eof, on_eof, skip_empty, reg_read, read_hole,
  read_fragment, sparse_read_from, sparse_read, is_bad_entry, has_bad_entry, new_sparse_file_reader,
}
use arkive.Tar.SparseMap.{
  pax_gnu_sparse_num_blocks, value_at, split, parsed_int, parse_entries, read_map,
  read_gnu_sparse_map0x1,
}

-- `cntNewline`, `buf`, and what `r` still yields.
pub record Tokens : Type 0 where
  pub newlines : ℕ
  pub buf : Bytes
  pub stream : Bytes

unfoldable pub count_newlines : Bytes → ℕ
count_newlines [] = 0
count_newlines (c ∷ s) = (if c == 10 then 1 else 0) + count_newlines s

unfoldable pub with_block : Tokens → Tokens
unfolding count_newlines
with_block t = record {
  newlines = t.newlines + count_newlines (take block_size t.stream);
  buf = t.buf ++ take block_size t.stream;
  stream = drop block_size t.stream;
}

-- `feedTokens`: the end of the file is unexpected, inside a block and in front of one. Each round
-- takes a block, so one round more than the stream has bytes is fuel enough.
unfoldable pub feed_tokens : ℕ → ℕ → Tokens → Result Tokens
unfolding with_block
feed_tokens zero cnt t = stuck
feed_tokens (suc fuel) cnt t =
    if leb cnt t.newlines
    then ok t
    else if ltb (length t.stream) block_size
    then err unexpected_eof
    else feed_tokens fuel cnt (with_block t)

-- `ReadString`: up to the newline, with it, and the rest.
unfoldable pub read_string : Bytes → Bytes × Bytes
read_string [] = ([], [])
read_string (c ∷ s) =
    let (tok, rest) = read_string s in if c == 10 then (c ∷ [], s) else (c ∷ tok, rest)

-- `tok[:len(tok)-1]`
unfoldable pub cut_last : Bytes → Result Bytes
cut_last [] = panic
cut_last (c ∷ s) = ok (take (length s) (c ∷ s))

unfoldable pub next_token : Tokens → Result (Bytes × Tokens)
unfolding read_string cut_last
next_token t = do
  tok ← cut_last (read_string t.buf).0
  ok (tok, record t { newlines = t.newlines - 1; buf = (read_string t.buf).1 })

-- The loop over the entries.
unfoldable pub read_entries : ℕ → Tokens → Result (List SparseEntry × Tokens)
unfolding next_token
read_entries zero t = ok ([], t)
read_entries (suc n) t = do
  (tok, t) ← next_token t
  offset ← parsed_int (parse_int 10 tok)
  (tok, t) ← next_token t
  num_bytes ← parsed_int (parse_int 10 tok)
  (sp, t) ← read_entries n t
  ok (record { offset = offset; num_bytes = num_bytes } ∷ sp, t)

-- Behind the number of entries, which is an int64.
unfoldable pub read_numbered : ℕ → Tokens → Result (List SparseEntry × Bytes)
unfolding feed_tokens read_entries
read_numbered n t = if is_neg n || slt (add64 n n) n then err err_header else do
  t ← feed_tokens (suc (length t.stream)) (add64 n n) t
  (sp, t) ← read_entries n t
  ok (sp, t.stream)

-- The map, and what the reader still yields.
unfoldable pub read_gnu_sparse_map1x0 : Bytes → Result (List SparseEntry × Bytes)
unfolding feed_tokens next_token read_numbered
read_gnu_sparse_map1x0 r = do
  t ← feed_tokens (suc (length r)) 1 (record { newlines = 0; buf = []; stream = r })
  (tok, t) ← next_token t
  n ← parsed_int (parse_int 10 tok)
  read_numbered n t
