-- ===== src/Tar/SparseMap1/Tests.antt =====
-- A sparse map of version 1.0 at a concrete stream.
use arkive.Common.{◌*◌, ◌≡◌, refl, [], ◌∷◌, ◌++◌, arith, length, All}
use arkive.Common.Digits.{digits, format_uint, format_int}
use arkive.Common.Go.{unexpected_eof, ok, err}
use arkive.Tar.FileReader.{SparseEntry}
use arkive.Tar.FileReader.Validate.{IsEntryWords}
use arkive.Tar.SparseMap1.{read_gnu_sparse_map1x0}
use arkive.Tar.SparseMap1.RoundTrip.{map_text, read_gnu_sparse_map1x0-map_text}

abbrev fragment : SparseEntry
fragment = record { offset = 5; num_bytes = 3 }

fragment-IsEntryWords : All IsEntryWords (fragment ∷ [])
unfolding IsEntryWords
fragment-IsEntryWords = ((omega arith, omega arith), tt)

block_whole : length (map_text (fragment ∷ []) 506) ≡ 512 * 1
unfolding format_int format_uint digits
block_whole = refl

read_gnu_sparse_map1x0-map_text_example :
    read_gnu_sparse_map1x0 (map_text (fragment ∷ []) 506 ++ b'a' ∷ b'b' ∷ b'c' ∷ [])
    ≡ ok (fragment ∷ [], b'a' ∷ b'b' ∷ b'c' ∷ [])
read_gnu_sparse_map1x0-map_text_example =
    read_gnu_sparse_map1x0-map_text (fragment ∷ []) 506 1 (b'a' ∷ b'b' ∷ b'c' ∷ [])
      fragment-IsEntryWords (omega arith) block_whole (omega arith)

-- The end of the file inside the map is unexpected.
cut_run : read_gnu_sparse_map1x0 (b'1' ∷ 10 ∷ []) ≡ err unexpected_eof
unfolding read_gnu_sparse_map1x0
cut_run = refl
