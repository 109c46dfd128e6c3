-- ===== src/Tar/FileReader/Streams.antt =====
-- What every call of `Read` on the stream keeps, the readers of tar/reader.go keep.
use arkive.Common.{ℕ, inl, inr, List, [], ◌∷◌, ltb, ◌==◌, if◌then◌else◌, Bool-cases}
use arkive.Tar.Source.{Source}
use arkive.Tar.FileReader.{
  SparseEntry, SparseFileReader, skip_empty, reg_read, read_hole, read_fragment, sparse_read_from,
  sparse_read,
}

module _ (src : Source) (P : src.State → Type 0)
    (kept : (s : src.State) (n : ℕ) → P s → P (src.read s n).state) where
  open src use {State}

  pub reg_read-keeps : (st : State) (nb n : ℕ) → P st → P (reg_read src st nb n).stream
  unfolding reg_read
  reg_read-keeps st nb n p = elim (Bool-cases (nb == 0)) [
    | inl e ↦ rw (e) p
    | inr e ↦ rw (e) (kept st (if ltb nb n then nb else n) p)
  ]

  read_fragment-keeps :
      (st : State) (r : SparseFileReader) (s : SparseEntry) (sp : List SparseEntry) (n : ℕ)
      → P st
      → P (read_fragment src st r s sp n).stream
  unfolding read_fragment
  read_fragment-keeps st r s sp n p = reg_read-keeps st r.nb _ p

  sparse_read_from-keeps :
      (st : State) (r : SparseFileReader) (sp : List SparseEntry) (n : ℕ)
      → P st
      → P (sparse_read_from src st r sp n).stream
  unfolding sparse_read_from read_hole
  sparse_read_from-keeps st r [] n p = elim (Bool-cases (ltb r.pos r.total)) [
    | inl e ↦ rw (e) p
    | inr e ↦ rw (e) p
  ]
  sparse_read_from-keeps st r (s ∷ sp) n p = elim (Bool-cases (ltb r.pos s.offset)) [
    | inl e ↦ rw (e) p
    | inr e ↦ rw (e) (read_fragment-keeps st r s sp n p)
  ]

  pub sparse_read-keeps :
      (st : State) (r : SparseFileReader) (n : ℕ) → P st → P (sparse_read src st r n).stream
  unfolding sparse_read
  sparse_read-keeps st r n p = sparse_read_from-keeps st r (skip_empty r.sp) n p
