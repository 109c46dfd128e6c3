-- ===== src/Tar/Checkpoint/Tests.antt =====
-- An entry read across a checkpoint.
use arkive.Common.{ℕ, ◌≡◌, refl, none, some, [], ◌∷◌, ◌++◌, arith, Bytes, drop}
use arkive.Common.Go.{eof}
use arkive.Tar.Source.{Source, chunked}
use arkive.Tar.FileReader.{is_eof, on_eof, reg_read}
use arkive.Tar.Reader.{TarReader, keep_error, tar_read_current, tar_read_if, tar_read, regular}
use arkive.Tar.Checkpoint.{Counted, counting, save_curr, resume_curr, save, resume}
use arkive.Tar.Checkpoint.Resume.{
  IsEntry, IsCounted, rest_of, Reads, IsInUse, resume-Reads, done, next,
}

-- A header of one byte, an entry of five bytes, and its padding.
abbrev whole : Bytes
whole = 9 ∷ b'h' ∷ b'e' ∷ b'l' ∷ b'l' ∷ b'o' ∷ 0 ∷ 0 ∷ []

abbrev source : Source
source = chunked 4

abbrev other_source : Source
other_source = chunked 2

abbrev in_entry : ℕ → ℕ → TarReader (Counted Bytes)
in_entry at left = record {
  stream = record { inner = drop at whole; count = at };
  pad = 2;
  curr = regular left;
  error = none;
}

in_entry-IsInUse : IsInUse source whole (in_entry 1 5)
unfolding IsInUse IsCounted IsEntry
in_entry-IsInUse = (refl, (omega arith, refl), tt)

first_read : Reads source (in_entry 1 5) ((b'h' ∷ b'e' ∷ b'l' ∷ []) ++ []) (in_entry 4 2)
unfolding tar_read tar_read_if tar_read_current reg_read on_eof is_eof keep_error
first_read = next (in_entry 1 5) 3 [] (in_entry 4 2) refl (done (in_entry 4 2))

second_read :
    Reads other_source
      (resume other_source (save source (in_entry 4 2)) (drop 4 whole))
      ((b'l' ∷ b'o' ∷ []) ++ [])
      (in_entry 6 0)
unfolding tar_read tar_read_if tar_read_current reg_read on_eof is_eof keep_error resume resume_curr
    save save_curr
second_read = next (in_entry 4 2) 7 [] (in_entry 6 0) refl (done (in_entry 6 0))

entry_end : (tar_read (counting other_source) (in_entry 6 0) 7).error ≡ some eof
unfolding tar_read tar_read_if tar_read_current reg_read
entry_end = refl

at_checkpoint : drop 4 whole ≡ drop (save source (in_entry 4 2)).roffset whole
unfolding save
at_checkpoint = refl

resume-Reads_example :
    rest_of source (in_entry 1 5)
    ≡ (b'h' ∷ b'e' ∷ b'l' ∷ [])
      ++ ((b'l' ∷ b'o' ∷ []) ++ (tar_read (counting other_source) (in_entry 6 0) 7).bytes)
resume-Reads_example =
    resume-Reads source other_source whole (in_entry 1 5) (b'h' ∷ b'e' ∷ b'l' ∷ []) (in_entry 4 2)
      (drop 4 whole) (b'l' ∷ b'o' ∷ []) (in_entry 6 0) 7 in_entry-IsInUse first_read at_checkpoint
      second_read entry_end
