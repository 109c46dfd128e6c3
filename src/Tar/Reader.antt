-- ===== src/Tar/Reader.antt =====
-- `Reader` (tar/reader.go): the state between calls, `Read`, `numBytes` and `handleRegularFile`.
pub mod Entry
mod Tests
use arkive.Common.{
  ℕ, ◌%◌, ◌≡◌, refl, inl, inr, Bool, ◌||◌, Option, none, some, [], ◌==◌, if◌then◌else◌, Bool-cases,
}
use arkive.Common.Words.{is_neg, sub64}
use arkive.Common.Go.{Error, eof, err_header, Result, ok, err}
use arkive.Tar.Source.{Source}
use arkive.Tar.Block.{block_size}
use arkive.Tar.FileReader.{SparseFileReader, Outcome, is_eof, reg_read, sparse_read}

-- `numBytesReader`, as `curr` holds one or `nil`.
pub data Current : Type 0 where
  no_file : Current
  regular : ℕ → Current
  sparse : SparseFileReader → Current

-- The stream that `r` names is part of the state. `pad` is below the block size.
pub record TarReader (S : Type 0) : Type 0 where
  pub stream : S
  pub pad : ℕ
  pub curr : Current
  pub error : Option Error

abbrev pub new_reader : {S : Type 0} → S → TarReader S
new_reader st = record { stream = st; pad = 0; curr = no_file; error = none }

unfoldable pub num_bytes : Current → ℕ
num_bytes no_file = 0
num_bytes (regular nb) = nb
num_bytes (sparse r) = r.nb

-- A persistent error is kept: `if err != nil && err != io.EOF { tr.err = err }`
unfoldable pub keep_error : Option Error → Option Error
keep_error e = if is_eof e then none else e

module _ (src : Source) where
  open src use {State}

  unfoldable pub tar_read_current : TarReader State → Current → ℕ → Outcome State (TarReader State)
  unfolding keep_error
  tar_read_current tr no_file n = record {
    bytes = [];
    error = some eof;
    stream = tr.stream;
    reader = tr;
  }
  tar_read_current tr (regular nb) n =
      let o = reg_read src tr.stream nb n in
      record {
        bytes = o.bytes;
        error = o.error;
        stream = o.stream;
        reader = record tr {
          stream = o.stream;
          curr = regular o.reader;
          error = keep_error o.error;
        };
      }
  tar_read_current tr (sparse r) n =
      let o = sparse_read src tr.stream r n in
      record {
        bytes = o.bytes;
        error = o.error;
        stream = o.stream;
        reader = record tr {
          stream = o.stream;
          curr = sparse o.reader;
          error = keep_error o.error;
        };
      }

  unfoldable pub tar_read_if : Option Error → TarReader State → ℕ → Outcome State (TarReader State)
  unfolding tar_read_current
  tar_read_if none tr n = tar_read_current tr tr.curr n
  tar_read_if (some e) tr n = record { bytes = []; error = some e; stream = tr.stream; reader = tr }

  unfoldable pub tar_read : TarReader State → ℕ → Outcome State (TarReader State)
  unfolding tar_read_if
  tar_read tr n = tar_read_if tr.error tr n

-- `isHeaderOnlyType`: link, symlink, character and block device, directory and FIFO.
pub is_header_only_type : ℕ → Bool
is_header_only_type flag =
    flag == b'1' || flag == b'2' || flag == b'3' || flag == b'4' || flag == b'5' || flag == b'6'

-- The size is an int64; `-nb & (blockSize - 1)` keeps the nine low bits of the negated number.
unfoldable pub handle_regular_file : {S : Type 0} → TarReader S → ℕ → ℕ → Result (TarReader S)
unfolding is_header_only_type
handle_regular_file tr flag size =
    let nb = if is_header_only_type flag then 0 else size in
    if is_neg nb
    then err err_header
    else ok (record tr { pad = sub64 0 nb % block_size; curr = regular nb })

pub keep_error-none : (e : Option Error) → e ≡ none → keep_error e ≡ none
unfolding keep_error
keep_error-none e h =
    rw (h) (elim (Bool-cases (is_eof none)) [ inl k ↦ rw (k) refl | inr k ↦ rw (k) refl ])
