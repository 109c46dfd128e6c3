-- ===== src/Tar/Block/SparseNode.antt =====
-- `sparseArray` and `sparseNode` (tar/format.go).
use arkive.Common.{ℕ, ◌*◌, ◌/◌, Bytes, length, take, drop}
use arkive.Tar.Block.{Field}

-- `Entry(i)`, the slice from the entry on.
abbrev pub entry : ℕ → Bytes → Bytes
entry i s = drop (i * 24) s

abbrev pub max_entries : Bytes → ℕ
max_entries s = length s / 24

abbrev pub is_extended : Bytes → Bytes
is_extended s = take 1 (drop (24 * max_entries s) s)

abbrev pub offset : Field
offset = record { offset = 0; size = 12 }

abbrev pub num_bytes : Field
num_bytes = record { offset = 12; size = 12 }
