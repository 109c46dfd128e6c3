-- ===== src/Tar/FileReader/Total.antt =====
-- How many bytes a whole sparse file delivers (`sparseFileReader`, tar/reader.go), and that an archive
-- which is too short for its map is noticed.
use arkive.Common.{
  ℕ, ◌+◌, ◌-◌, ◌≤◌, ◌≡◌, refl, sym, ap, subst, ◌∙◌, inl, inr, some, List, [], ◌∷◌, arith, ltb,
  length-append, length-replicate, if◌then◌else◌, Bool-cases, Option-cases, length, take, All,
}
use arkive.Common.Words.{IsWord}
use arkive.Common.Go.{eof, ok}
use arkive.Tar.Source.{Source}
use arkive.Tar.FileReader.{
  SparseEntry, SparseFileReader, skip_empty, read_hole, read_fragment, sparse_read_from,
  sparse_read, new_sparse_file_reader,
}
use arkive.Tar.FileReader.Validate.{
  IsEntryWords, new_sparse_file_reader_iff, new_sparse_file_reader-eq-ok,
}
use arkive.Tar.FileReader.Expand.{
  expand, IsPosition, IsPosition-of_IsInOrder, data_length, length-expand-le, data_length-le,
}
use arkive.Tar.FileReader.Reads.{sparse_read-next}
use arkive.Tar.FileReader.Whole.{
  sparse_read-at_eof, followed_by, read_sizes, read_sizes-new_sparse_file_reader,
}

module _ (src : Source) where
  open src use {State, contents}

  -- The position moves on by the bytes that a call delivers.
  sparse_read_from-advances :
      (st : State) (r : SparseFileReader) (sp : List SparseEntry) (n : ℕ)
      → ((sparse_read_from src st r sp n).reader.total ≡ r.total)
        × ((sparse_read_from src st r sp n).reader.pos
            ≡ r.pos + length (sparse_read_from src st r sp n).bytes)
  unfolding sparse_read_from read_hole read_fragment
  sparse_read_from-advances st r [] n = elim (Bool-cases (ltb r.pos r.total)) [
    | inl k ↦
        let m = if ltb n (r.total - r.pos) then n else r.total - r.pos in
        rw (k) (refl, ap (λ x. r.pos + x) (sym (length-replicate {A = ℕ} m 0)))
    | inr k ↦ rw (k) (refl, omega arith)
  ]
  sparse_read_from-advances st r (s ∷ sp) n = elim (Bool-cases (ltb r.pos s.offset)) [
    | inl k ↦
        let m = if ltb n (s.offset - r.pos) then n else s.offset - r.pos in
        rw (k) (refl, ap (λ x. r.pos + x) (sym (length-replicate {A = ℕ} m 0)))
    | inr k ↦ rw (k) (refl, refl)
  ]

  sparse_read-advances :
      (st : State) (r : SparseFileReader) (n : ℕ)
      → ((sparse_read src st r n).reader.total ≡ r.total)
        × ((sparse_read src st r n).reader.pos ≡ r.pos + length (sparse_read src st r n).bytes)
  unfolding sparse_read
  sparse_read-advances st r n = sparse_read_from-advances st r (skip_empty r.sp) n

  read_sizes-reaches :
      (ns : List ℕ) (st : State) (r : SparseFileReader)
      → IsPosition r.total r.pos r.sp
      → (read_sizes src ns st r).error ≡ some eof
      → r.total ≤ r.pos + length (read_sizes src ns st r).bytes
  unfolding sparse_read sparse_read_from
  read_sizes-reaches [] st r h e = absurd cc
  read_sizes-reaches (n ∷ ns) st r h e =
      let (_, room, h') = sparse_read-next src st r n h in
      let o = sparse_read src st r n in
      let (t, p) = sparse_read-advances st r n in
      elim (Option-cases o.error) [
        | inl k ↦
            let q : read_sizes src (n ∷ ns) st r
                ≡ followed_by src o (read_sizes src ns o.stream o.reader) =
              rw (k, read_sizes) refl in
            let d = read_sizes-reaches ns o.stream o.reader h' (ap (λ x. x.error) (sym q) ∙ e) in
            let l : length (read_sizes src (n ∷ ns) st r).bytes
                ≡ length o.bytes + length (read_sizes src ns o.stream o.reader).bytes =
              ap (λ x. length x.bytes) q
              ∙ length-append o.bytes (read_sizes src ns o.stream o.reader).bytes in
            omega (arith, t, p, l, d)
        | inr (x, k) ↦
            let q : read_sizes src (n ∷ ns) st r ≡ o = rw (k, read_sizes) refl in
            let d = (sparse_read-at_eof src st r n h (ap (λ y. y.error) (sym q) ∙ e)).0 in
            omega (arith, p, d, ap (λ y. length y.bytes) q)
      ]

  -- If `newSparseFileReader` accepts a list of int64 entries, then reading with buffers of any sizes
  -- up to `io.EOF` delivers as many bytes as the size of the sparse file, and the archive has the
  -- data of all fragments of the map: an archive that is cut before their end is never taken for the
  -- end of the file.
  pub read_sizes-total :
      (ns : List ℕ) (st : State) (nb : ℕ) (sp : List SparseEntry) (total : ℕ) (r : SparseFileReader)
      → IsWord total
      → All IsEntryWords sp
      → new_sparse_file_reader nb sp total ≡ ok r
      → (read_sizes src ns st r).error ≡ some eof
      → (length (read_sizes src ns st r).bytes ≡ total)
        × (data_length sp ≤ length (take nb (contents st)))
  read_sizes-total ns st nb sp total r ht hs e h =
      let q = new_sparse_file_reader-eq-ok nb sp total e in
      let (t, o) = (new_sparse_file_reader_iff nb sp total ht hs).0 (e ∙ ap ok q) in
      let p =
        subst (λ x. IsPosition x.total x.pos x.sp) (sym q)
          (IsPosition-of_IsInOrder total 0 0 sp (omega arith) (omega arith) o) in
      let d = read_sizes-reaches ns st r p h in
      let d' : total ≤ length (read_sizes src ns st r).bytes =
        omega (arith, d, ap (λ x. x.total) q, ap (λ x. x.pos) q) in
      let b = read_sizes-new_sparse_file_reader src ns st nb sp total r ht hs e h in
      let u = length-expand-le total 0 sp (take nb (contents st)) (omega arith) o in
      let l : length (expand total 0 sp (take nb (contents st))) ≡ total =
        omega (arith, ap length b, d', u) in
      (
        ap length b ∙ l,
        data_length-le total 0 sp (take nb (contents st)) (omega arith) o (omega (arith, l)),
      )
