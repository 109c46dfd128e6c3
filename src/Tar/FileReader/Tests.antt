-- ===== src/Tar/FileReader/Tests.antt =====
-- Sparse files at concrete maps.
use arkive.Common.{
  ◌≤◌, ◌<◌, ◌≡◌, refl, ◌↔◌, inl, some, List, [], ◌∷◌, ◌++◌, arith, Bytes, length, take, All,
}
use arkive.Common.Words.{sign_bit}
use arkive.Common.Go.{eof, ok}
use arkive.Tar.Source.{Source, chunked}
use arkive.Tar.FileReader.{
  SparseEntry, SparseFileReader, is_eof, on_eof, skip_empty, reg_read, read_hole, read_fragment,
  sparse_read_from, sparse_read, is_bad_entry, has_bad_entry, new_sparse_file_reader,
}
use arkive.Tar.FileReader.Validate.{IsEntryWords, IsInOrder, new_sparse_file_reader_iff}
use arkive.Tar.FileReader.Expand.{expand, data_length, IsPosition}
use arkive.Tar.FileReader.Reads.{remaining, sparse_read-next}
use arkive.Tar.FileReader.Whole.{read_sizes, read_sizes-new_sparse_file_reader}
use arkive.Tar.FileReader.Total.{read_sizes-total}

-- The example of the source: "abcdefgh", with fragments at 2 and at 18 of 25 bytes.
abbrev compact_data : Bytes
compact_data = b'a' ∷ b'b' ∷ b'c' ∷ b'd' ∷ b'e' ∷ b'f' ∷ b'g' ∷ b'h' ∷ []

abbrev fragments : List SparseEntry
fragments = record { offset = 2; num_bytes = 5 } ∷ record { offset = 18; num_bytes = 3 } ∷ []

abbrev at_start : SparseFileReader
at_start = record { nb = 8; sp = fragments; pos = 0; total = 25 }

fragments-IsEntryWords : All IsEntryWords fragments
unfolding IsEntryWords
fragments-IsEntryWords = ((omega arith, omega arith), ((omega arith, omega arith), tt))

at_start-IsPosition : IsPosition 25 0 fragments
unfolding IsPosition IsInOrder
at_start-IsPosition = (inl (omega arith), omega arith, (omega arith, omega arith, tt))

abbrev source : Source
source = chunked 4

accepted : new_sparse_file_reader 8 fragments 25 ≡ ok at_start
unfolding new_sparse_file_reader has_bad_entry is_bad_entry
accepted = refl

to_end :
    (read_sizes source (10 ∷ 10 ∷ 10 ∷ 10 ∷ 10 ∷ 10 ∷ 10 ∷ 10 ∷ []) compact_data at_start).error
    ≡ some eof
unfolding sparse_read sparse_read_from read_hole read_fragment reg_read on_eof skip_empty is_eof
to_end = refl

new_sparse_file_reader_iff_example :
    (new_sparse_file_reader 8 fragments 25 ≡ ok at_start)
    ↔ ((25 < sign_bit) × IsInOrder 25 0 fragments)
new_sparse_file_reader_iff_example =
    new_sparse_file_reader_iff 8 fragments 25 (omega arith) fragments-IsEntryWords

sparse_read-next_example :
    (expand 25 0 fragments compact_data
      ≡ (sparse_read source compact_data at_start 6).bytes
        ++ remaining source
            (sparse_read source compact_data at_start 6).stream
            (sparse_read source compact_data at_start 6).reader)
    × (length (sparse_read source compact_data at_start 6).bytes ≤ 6)
    × IsPosition
        (sparse_read source compact_data at_start 6).reader.total
        (sparse_read source compact_data at_start 6).reader.pos
        (sparse_read source compact_data at_start 6).reader.sp
sparse_read-next_example = sparse_read-next source compact_data at_start 6 at_start-IsPosition

read_sizes-total_example :
    (length
        (read_sizes source (10 ∷ 10 ∷ 10 ∷ 10 ∷ 10 ∷ 10 ∷ 10 ∷ 10 ∷ []) compact_data at_start).bytes
      ≡ 25)
    × (data_length fragments ≤ length (take 8 compact_data))
read_sizes-total_example =
    read_sizes-total source (10 ∷ 10 ∷ 10 ∷ 10 ∷ 10 ∷ 10 ∷ 10 ∷ 10 ∷ []) compact_data 8 fragments 25
      at_start (omega arith) fragments-IsEntryWords accepted to_end

read_sizes-new_sparse_file_reader_example :
    (read_sizes source (10 ∷ 10 ∷ 10 ∷ 10 ∷ 10 ∷ 10 ∷ 10 ∷ 10 ∷ []) compact_data at_start).bytes
    ≡ expand 25 0 fragments (take 8 compact_data)
read_sizes-new_sparse_file_reader_example =
    read_sizes-new_sparse_file_reader source (10 ∷ 10 ∷ 10 ∷ 10 ∷ 10 ∷ 10 ∷ 10 ∷ 10 ∷ [])
      compact_data 8 fragments 25 at_start (omega arith) fragments-IsEntryWords accepted to_end
