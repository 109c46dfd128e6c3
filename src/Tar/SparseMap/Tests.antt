-- ===== src/Tar/SparseMap/Tests.antt =====
-- A map of one fragment.
use arkive.Common.{◌≡◌, refl, some, [], ◌∷◌, arith, bytes_eq, All}
use arkive.Common.Digits.{format_int}
use arkive.Common.Text.{lookup}
use arkive.Common.Go.{ok}
use arkive.Tar.PaxHeaders.{Headers, pax_gnu_sparse_map, join}
use arkive.Tar.FileReader.{SparseEntry}
use arkive.Tar.FileReader.Validate.{IsEntryWords}
use arkive.Tar.SparseMap.{pax_gnu_sparse_num_blocks, read_gnu_sparse_map0x1}
use arkive.Tar.SparseMap.Split.{numbers, read_gnu_sparse_map0x1-numbers}

abbrev fragment : SparseEntry
fragment = record { offset = 5; num_bytes = 12 }

abbrev headers : Headers
headers =
    (pax_gnu_sparse_num_blocks, format_int 10 1)
    ∷ (pax_gnu_sparse_map, join (numbers (fragment ∷ [])))
    ∷ []

fragment-IsEntryWords : All IsEntryWords (fragment ∷ [])
unfolding IsEntryWords
fragment-IsEntryWords = ((omega arith, omega arith), tt)

count_there : lookup pax_gnu_sparse_num_blocks headers ≡ some (format_int 10 1)
unfolding lookup bytes_eq
count_there = refl

map_there : lookup pax_gnu_sparse_map headers ≡ some (join (numbers (fragment ∷ [])))
unfolding lookup bytes_eq
map_there = refl

read_gnu_sparse_map0x1-numbers_example : read_gnu_sparse_map0x1 headers ≡ ok (fragment ∷ [])
read_gnu_sparse_map0x1-numbers_example =
    read_gnu_sparse_map0x1-numbers headers fragment [] fragment-IsEntryWords (omega arith)
      count_there map_there
