-- ===== src/Tar/Checkpoint.antt =====
-- `SaverReader`, `Checkpoint` and `countingReader` (tar/reader.go).
pub mod Resume
mod Tests
use arkive.Common.{
  ℕ, zero, suc, ◌+◌, ◌-◌, ◌*◌, ◌/◌, ◌%◌, ◌^◌, ◌≤◌, ◌<◌, min, ◌≡◌, refl, sym, ap, subst, ◌∙◌, ◌≢◌,
  ◌↔◌, ◌⊎◌, inl, inr, Bool, true, false, not, ◌&&◌, ◌||◌, Option, none, some, List, [], ◌∷◌, ◌++◌,
  map, append-nil, append_assoc, arith, Bytes, IsByte, ltb, leb, ◌==◌, if◌then◌else◌, Bool-cases,
  Option-cases, bytes_eq, bytes_eq_iff, length, get_or, take, drop, replicate, length-append,
  take-append-drop, length-take, length-drop, length-replicate, take_append, drop_append, take_all,
  drop_all, drop-drop, drop-append, take-append, get_or-append, All,
}
use arkive.Common.Words.{u16_mod, u32_mod, u64_mod, sign_bit, IsWord, is_neg, add64, sub64, slt}
use arkive.Common.Digits.{
  digits, format_uint, format_int, Parsed, parsed, syntax_error, range_error, is_digit, parse_loop,
  parse_uint, signed, parse_int, All-append, parse_loop-digits, parse_loop-zeros, digits-IsDigit,
  digits-ne-nil, length-digits_mono, length-digits_next, length-digits-le, parse_uint-loop,
  parse_uint-format_uint, parse_int-format_int, parse_int-zeros, digits-zeros,
}
use arkive.Common.Text.{codes, lookup, insert, delete, lookup-insert, lookup-delete}
use arkive.Common.Go.{
  Error, eof, unexpected_eof, err_header, err_field_too_long, err_write_too_long,
  err_write_after_close, err_invalid_header, err_format, err_checksum, err_algorithm, err_long_name,
  err_long_extra, comment_length, too_many_files, negative_offset, missed_bytes, closed_twice,
  write_closed, device, Result, ok, err, panic, stuck, >>=-eq-ok, >>=-ne-stuck, ◌>>=◌, ◌>>◌,
}
use arkive.Tar.Source.{Answer, Source, chunk_read, chunk_read-eof, chunked}
use arkive.Tar.FileReader.{
  SparseEntry, SparseFileReader, Outcome, is_eof, on_eof, skip_empty, reg_read, read_hole,
  read_fragment, sparse_read_from, sparse_read, is_bad_entry, has_bad_entry, new_sparse_file_reader,
}
use arkive.Tar.Reader.{
  Current, TarReader, new_reader, num_bytes, keep_error, tar_read_current, tar_read,
  is_header_only_type, handle_regular_file, keep_error-none, no_file, regular, sparse,
}

pub record Counted (S : Type 0) : Type 0 where
  pub inner : S
  pub count : ℕ

-- `countingReader`: a reader again, whose state has the count beside the stream under it.
module _ (src : Source) where
  open src use {State, read, contents, read_bytes, read_room, read_eof}

  abbrev pub counting_read : Counted State → ℕ → Answer (Counted State)
  counting_read s n =
      let a = read s.inner n in
      record {
        bytes = a.bytes;
        error = a.error;
        state = record { inner = a.state; count = s.count + length a.bytes };
      }

  abbrev pub counting : Source
  counting = record {
    State = Counted State;
    read = counting_read;
    contents = λ s. contents s.inner;
    read_bytes = λ s n. read_bytes s.inner n;
    read_room = λ s n. read_room s.inner n;
    read_eof = λ s n. read_eof s.inner n;
  }

-- `CurrType` with the fields that each type uses; `SparseSp` holds the entries one by one.
pub data CurrType : Type 0 where
  curr_none : CurrType
  curr_reg : ℕ → CurrType
  curr_sparse : ℕ → List SparseEntry → ℕ → ℕ → CurrType

pub record Checkpoint : Type 0 where
  pub roffset : ℕ
  pub pad : ℕ
  pub curr_type : CurrType

unfoldable pub save_curr : Current → CurrType
save_curr no_file = curr_none
save_curr (regular nb) = curr_reg nb
save_curr (sparse r) = curr_sparse r.nb r.sp r.pos r.total

unfoldable pub resume_curr : CurrType → Current
resume_curr curr_none = no_file
resume_curr (curr_reg nb) = regular nb
resume_curr (curr_sparse nb sp pos total) =
    sparse (record { nb = nb; sp = sp; pos = pos; total = total })

module _ (src : Source) where
  open src use {State}

  -- `NewSaverReader`
  unfoldable pub new_saver_reader : State → TarReader (Counted State)
  new_saver_reader st = new_reader (record { inner = st; count = 0 })

  unfoldable pub save : TarReader (Counted State) → Checkpoint
  unfolding save_curr
  save tr = record { roffset = tr.stream.count; pad = tr.pad; curr_type = save_curr tr.curr }

  unfoldable pub resume : Checkpoint → State → TarReader (Counted State)
  unfolding resume_curr
  resume c st = record {
    stream = record { inner = st; count = c.roffset };
    pad = c.pad;
    curr = resume_curr c.curr_type;
    error = none;
  }
