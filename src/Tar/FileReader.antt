-- ===== src/Tar/FileReader.antt =====
-- `regFileReader` and `sparseFileReader` (tar/reader.go). Both read from the archive's one stream,
-- whose state is passed beside theirs. Counts and positions of a reader that passed the checks of
-- `handleRegularFile` and `newSparseFileReader` are not negative, so they are numbers; the entries
-- that are checked are int64 patterns.
pub mod Expand
pub mod Validate
pub mod Reads
pub mod Whole
pub mod Total
pub mod Streams
mod Tests
use arkive.Common.{
  ℕ, zero, suc, ◌+◌, ◌-◌, ◌*◌, ◌/◌, ◌%◌, ◌^◌, ◌≤◌, ◌<◌, min, ◌≡◌, refl, sym, ap, ◌∙◌, ◌≢◌, ◌↔◌, ◌⊎◌,
  inl, inr, Bool, true, false, not, ◌&&◌, ◌||◌, Option, none, some, List, [], ◌∷◌, ◌++◌, map,
  append-nil, append_assoc, arith, Bytes, IsByte, ltb, leb, ◌==◌, if◌then◌else◌, Bool-cases,
  Option-cases, bytes_eq, bytes_eq_iff, length, get_or, take, drop, replicate, length-append,
  take-append-drop, length-take, length-drop, length-replicate, take_append, drop_append, take_all,
  drop_all, drop-drop, drop-append, take-append, get_or-append, All,
}
use arkive.Common.Words.{u16_mod, u32_mod, u64_mod, sign_bit, IsWord, is_neg, add64, sub64, slt}
use arkive.Common.Digits.{
  digits, format_uint, format_int, Parsed, parsed, syntax_error, range_error, is_digit, parse_loop,
  parse_uint, signed, parse_int, All-append, parse_loop-digits, parse_loop-zeros, digits-IsDigit,
  digits-ne-nil, length-digits_mono, length-digits_next, length-digits-le, parse_uint-loop,
  parse_uint-format_uint, parse_int-format_int, parse_int-zeros, digits-zeros,
}
use arkive.Common.Text.{codes, lookup, insert, delete, lookup-insert, lookup-delete}
use arkive.Common.Go.{
  Error, eof, unexpected_eof, err_header, err_field_too_long, err_write_too_long,
  err_write_after_close, err_invalid_header, err_format, err_checksum, err_algorithm, err_long_name,
  err_long_extra, comment_length, too_many_files, negative_offset, missed_bytes, closed_twice,
  write_closed, device, Result, ok, err, panic, stuck, >>=-eq-ok, >>=-ne-stuck, ◌>>=◌, ◌>>◌,
}
use arkive.Tar.Source.{Answer, Source, chunk_read, chunk_read-eof, chunked}

pub record SparseEntry : Type 0 where
  pub offset : ℕ
  pub num_bytes : ℕ

-- The fields of `sparseFileReader`, with the `nb` of the `regFileReader` under it.
pub record SparseFileReader : Type 0 where
  pub nb : ℕ
  pub sp : List SparseEntry
  pub pos : ℕ
  pub total : ℕ

-- The bytes read, the error, the stream and the reader after a call.
pub record Outcome (S R : Type 0) : Type 0 where
  pub bytes : Bytes
  pub error : Option Error
  pub stream : S
  pub reader : R

unfoldable pub is_eof : Option Error → Bool
is_eof (some eof) = true
is_eof _ = false

-- `if err == io.EOF { err = other }`
unfoldable pub on_eof : Option Error → Option Error → Option Error
on_eof e other = if is_eof e then other else e

-- The loop that skips empty fragments.
unfoldable pub skip_empty : List SparseEntry → List SparseEntry
skip_empty [] = []
skip_empty (s ∷ sp) = if s.num_bytes == 0 then skip_empty sp else s ∷ sp

module _ (src : Source) where
  open src use {State, read}

  unfoldable pub reg_read : State → ℕ → ℕ → Outcome State ℕ
  unfolding on_eof
  reg_read st nb n =
      let answer = read st (if ltb nb n then nb else n) in
      let nb' = nb - length answer.bytes in
      if nb == 0
      then record { bytes = []; error = some eof; stream = st; reader = nb }
      else record {
        bytes = answer.bytes;
        error = if ltb 0 nb' then on_eof answer.error (some unexpected_eof) else answer.error;
        stream = answer.state;
        reader = nb';
      }

  -- A hole up to `end`: zeros, as many as there is room for.
  unfoldable pub read_hole : State → SparseFileReader → ℕ → ℕ → Outcome State SparseFileReader
  read_hole st r end n =
      let n64 = if ltb n (end - r.pos) then n else end - r.pos in
      record {
        bytes = replicate n64 0;
        error = none;
        stream = st;
        reader = record r { pos = r.pos + n64 };
      }

  -- In the data fragment `s` in front of the fragments `rest`.
  unfoldable pub read_fragment :
      State → SparseFileReader → SparseEntry → List SparseEntry → ℕ → Outcome State SparseFileReader
  read_fragment st r s rest n =
      let end_pos = s.offset + s.num_bytes in
      let bytes_left = end_pos - r.pos in
      let answer = reg_read st r.nb (if ltb bytes_left n then bytes_left else n) in
      let pos' = r.pos + length answer.bytes in
      record {
        bytes = answer.bytes;
        error =
            if ltb pos' end_pos
            then on_eof answer.error (some unexpected_eof)
            else if ltb pos' r.total
            then on_eof answer.error none
            else answer.error;
        stream = answer.stream;
        reader = record {
          nb = answer.reader;
          sp = if pos' == end_pos then rest else s ∷ rest;
          pos = pos';
          total = r.total;
        };
      }

  unfoldable pub sparse_read_from :
      State → SparseFileReader → List SparseEntry → ℕ → Outcome State SparseFileReader
  sparse_read_from st r [] n =
      if ltb r.pos r.total
      then read_hole st (record r { sp = [] }) r.total n
      else record { bytes = []; error = some eof; stream = st; reader = record r { sp = [] } }
  sparse_read_from st r (s ∷ rest) n =
      if ltb r.pos s.offset
      then read_hole st (record r { sp = s ∷ rest }) s.offset n
      else read_fragment st r s rest n

  unfoldable pub sparse_read : State → SparseFileReader → ℕ → Outcome State SparseFileReader
  unfolding skip_empty
  sparse_read st r n = sparse_read_from st r (skip_empty r.sp) n

-- The checks on entry number `i`; `prev` is the end of the entry before it, if `i > 0`.
unfoldable pub is_bad_entry : ℕ → Option ℕ → SparseEntry → Bool
is_bad_entry total prev s =
    is_neg s.offset
    || is_neg s.num_bytes
    || slt (sub64 (sign_bit - 1) s.num_bytes) s.offset
    || slt total (add64 s.offset s.num_bytes)
    || elim prev [ none ↦ false | some end ↦ slt s.offset end ]

unfoldable pub has_bad_entry : ℕ → Option ℕ → List SparseEntry → Bool
has_bad_entry total prev [] = false
has_bad_entry total prev (s ∷ sp) =
    is_bad_entry total prev s || has_bad_entry total (some (add64 s.offset s.num_bytes)) sp

unfoldable pub new_sparse_file_reader : ℕ → List SparseEntry → ℕ → Result SparseFileReader
unfolding has_bad_entry is_bad_entry
new_sparse_file_reader nb sp total =
    if is_neg total || has_bad_entry total none sp
    then err err_header
    else ok (record { nb = nb; sp = sp; pos = 0; total = total })
