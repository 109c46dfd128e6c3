-- ===== src/Tar/OldSparseMap.antt =====
-- `readOldGNUSparseMap` (tar/reader.go): the sparse map in the header block and in the extension
-- blocks behind it. `io.ReadFull` gives the next bytes of what the reader yields, so the reader is
-- those bytes.
pub mod Blocks
mod Tests
use arkive.Common.{
  ℕ, zero, suc, ◌+◌, ◌*◌, ◌≤◌, ◌≡◌, Option, none, some, List, [], ◌∷◌, ◌++◌, Bytes, ltb, ◌==◌,
  if◌then◌else◌, length, get_or, take, drop, Bool, true, false,
}
use arkive.Common.Go.{unexpected_eof, err_header, Result, ok, err, panic, stuck, ◌>>=◌}
use arkive.Tar.Strconv.{Parser, parse_numeric}
use arkive.Tar.Block.{Field, get, block_size}
use arkive.Tar.Block.Gnu
use arkive.Tar.Block.SparseNode
use arkive.Tar.Block.SparseNode.{entry, max_entries, is_extended}
use arkive.Tar.Format.{
  Format, get_format, format_gnu, format_unknown, format_v7, format_star, format_ustar, format_pax,
}
use arkive.Tar.FileReader.{SparseEntry}
use arkive.Tar.Header.{Header}

-- `if p.err != nil`
unfoldable pub checked {ℓ} : {A : Type ℓ} → Parser → A → Result A
checked none a = ok a
checked (some e) a = err e

unfoldable pub read_node : Bytes → Result SparseEntry
unfolding checked
read_node s =
    let (offset, p) = parse_numeric none (get SparseNode.offset s) in
    let (num_bytes, p) = parse_numeric p (get SparseNode.num_bytes s) in
    checked p (record { offset = offset; num_bytes = num_bytes })

-- The loop over the entries of an array, from entry `i` on, with `n` left.
unfoldable pub read_nodes : ℕ → ℕ → Bytes → Result (List SparseEntry)
unfolding read_node
read_nodes zero i s = ok []
read_nodes (suc n) i s =
    if get_or (get SparseNode.offset (entry i s)) 0 0 == 0
    then ok []
    else do e ← read_node (entry i s); sp ← read_nodes n (suc i) s; ok (e ∷ sp)

-- `io.ReadFull` of an extension block, where the end of the file is unexpected.
unfoldable pub read_extension : Bytes → Result (Bytes × Bytes)
read_extension r =
    if ltb (length r) block_size
    then err unexpected_eof
    else ok (take block_size r, drop block_size r)

-- The loop over the arrays, with what the reader still yields. Each round but the last takes a block.
unfoldable pub read_arrays : ℕ → Bytes → Bytes → Result (List SparseEntry × Bytes)
unfolding read_nodes read_extension
read_arrays zero s r = stuck
read_arrays (suc fuel) s r = do
  sp ← read_nodes (max_entries s) 0 s
  if ltb 0 (get_or (is_extended s) 0 0)
      then (do (s, r) ← read_extension r; (more, r) ← read_arrays fuel s r; ok (sp ++ more, r))
      else ok (sp, r)

-- Behind the test of the format: the size of the header is the real size.
unfoldable pub read_real_size : Header → Bytes → Result Header
unfolding checked
read_real_size h b =
    let (size, p) = parse_numeric none (get Gnu.real_size b) in checked p (record h { size = size })

-- `blk.GetFormat() != formatGNU`
unfoldable pub is_gnu : Format → Bool
is_gnu format_gnu = true
is_gnu format_unknown = false
is_gnu format_v7 = false
is_gnu format_star = false
is_gnu format_ustar = false
is_gnu format_pax = false

unfoldable pub read_old_gnu_sparse_map :
    Header → Bytes → Bytes → Result ((Header × List SparseEntry) × Bytes)
unfolding read_arrays read_real_size is_gnu
read_old_gnu_sparse_map h b r =
    if is_gnu (get_format b)
    then (do
      h ← read_real_size h b
      (sp, r) ← read_arrays (suc (length r)) (get Gnu.sparse b) r
      ok ((h, sp), r))
    else err err_header
