-- ===== src/Tar/FileReader/Whole.antt =====
-- A whole sparse file through `sparseFileReader` (tar/reader.go), from its map to `io.EOF`.
use arkive.Common.{
  ℕ, ◌+◌, ◌-◌, ◌≤◌, ◌≡◌, refl, sym, ap, subst, ◌∙◌, inl, inr, true, none, some, List, [], ◌∷◌, ◌++◌,
  append-nil, append_assoc, arith, ltb, ◌==◌, if◌then◌else◌, Bool-cases, Option-cases, length, take,
  All,
}
use arkive.Common.Words.{IsWord}
use arkive.Common.Go.{eof, unexpected_eof, ok}
use arkive.Tar.Source.{Source}
use arkive.Tar.FileReader.{
  SparseEntry, SparseFileReader, Outcome, on_eof, skip_empty, reg_read, read_hole, read_fragment,
  sparse_read_from, sparse_read, new_sparse_file_reader,
}
use arkive.Tar.FileReader.Validate.{
  IsEntryWords, IsInOrder, new_sparse_file_reader_iff, new_sparse_file_reader-eq-ok,
}
use arkive.Tar.FileReader.Expand.{
  expand, IsPosition, IsReady, IsPosition-of_IsInOrder, expand-done, expand-skip_empty,
}
use arkive.Tar.FileReader.Reads.{on_eof-ne-eof, remaining, reg_read-next, sparse_read-next}

module _ (src : Source) where
  open src use {State, contents}

  read_fragment-at_eof :
      (st : State) (r : SparseFileReader) (s : SparseEntry) (sp : List SparseEntry) (n : ℕ)
      → s.offset ≤ r.pos
      → IsReady r.total r.pos (s ∷ sp)
      → (read_fragment src st r s sp n).error ≡ some eof
      → (r.total ≤ (read_fragment src st r s sp n).reader.pos)
        × (remaining src
              (read_fragment src st r s sp n).stream
              (read_fragment src st r s sp n).reader
            ≡ [])
  unfolding read_fragment IsReady
  read_fragment-at_eof st r s sp n h₁ (h₂, h₃, h₄) h =
      let end = s.offset + s.num_bytes in
      let left = end - r.pos in
      let m = if ltb left n then left else n in
      let (e, room) = reg_read-next src st r.nb m in
      let m-le : m ≤ left = ground arith in
      let o = reg_read src st r.nb m in
      let pos' = r.pos + length o.bytes in
      elim (Bool-cases (ltb pos' end)) [
        | inl k ↦
            let q : (read_fragment src st r s sp n).error ≡ on_eof o.error (some unexpected_eof) =
              rw (k) refl in
            absurd (on_eof-ne-eof o.error (some unexpected_eof) (λ x. cc) (sym q ∙ h))
        | inr k ↦ elim (Bool-cases (ltb pos' r.total)) [
          | inl j ↦
              let q : (read_fragment src st r s sp n).error ≡ on_eof o.error none =
                rw (k, j) refl in
              absurd (on_eof-ne-eof o.error none (λ x. cc) (sym q ∙ h))
          | inr j ↦
              let p : pos' == end ≡ true = ground arith in
              let p' : end ≡ pos' = ground arith in
              rw (p) (
                ground arith,
                expand-done r.total pos' sp _ (ground arith)
                    (subst (λ x. IsInOrder r.total x sp) p' h₄),
              )
        ]
      ]

  -- Where `sparseFileReader.Read` answers `io.EOF`, it stands at the end and nothing is left.
  pub sparse_read-at_eof :
      (st : State) (r : SparseFileReader) (n : ℕ)
      → IsPosition r.total r.pos r.sp
      → (sparse_read src st r n).error ≡ some eof
      → (r.total ≤ (sparse_read src st r n).reader.pos)
        × (remaining src (sparse_read src st r n).stream (sparse_read src st r n).reader ≡ [])
  unfolding sparse_read sparse_read_from read_hole IsReady
  sparse_read-at_eof st r n h e =
      from_ready (skip_empty r.sp) (expand-skip_empty r.total r.pos r.sp [] h).1 e
    where
      from_ready :
          (sp : List SparseEntry)
          → IsReady r.total r.pos sp
          → (sparse_read_from src st r sp n).error ≡ some eof
          → (r.total ≤ (sparse_read_from src st r sp n).reader.pos)
            × (remaining src
                  (sparse_read_from src st r sp n).stream
                  (sparse_read_from src st r sp n).reader
                ≡ [])
      from_ready [] ready = elim (Bool-cases (ltb r.pos r.total)) [
        | inl k ↦ rw (k) (λ x. absurd cc)
        | inr k ↦
            rw (k) (λ x. let z : r.total - r.pos ≡ 0 = ground arith in (ground arith, rw (z) refl))
      ]
      from_ready (s ∷ sp) ready = elim (Bool-cases (ltb r.pos s.offset)) [
        | inl k ↦ rw (k) (λ x. absurd cc)
        | inr k ↦ rw (k) (read_fragment-at_eof st r s sp n (ground arith) ready)
      ]

  abbrev pub followed_by :
      Outcome State SparseFileReader
      → Outcome State SparseFileReader
      → Outcome State SparseFileReader
  followed_by o later = record later { bytes = o.bytes ++ later.bytes }

  -- A client's calls with buffers of the given sizes, up to the first error.
  abbrev pub read_sizes : List ℕ → State → SparseFileReader → Outcome State SparseFileReader
  read_sizes [] st r = record { bytes = []; error = none; stream = st; reader = r }
  read_sizes (n ∷ ns) st r =
      let o = sparse_read src st r n in
      let later = read_sizes ns o.stream o.reader in
      elim o.error [ none ↦ followed_by o later | some e ↦ o ]

  read_sizes-next :
      (ns : List ℕ) (st : State) (r : SparseFileReader)
      → IsPosition r.total r.pos r.sp
      → remaining src st r
        ≡ (read_sizes ns st r).bytes
          ++ remaining src (read_sizes ns st r).stream (read_sizes ns st r).reader
  unfolding sparse_read sparse_read_from
  read_sizes-next [] st r h = refl
  read_sizes-next (n ∷ ns) st r h =
      let (e, room, h') = sparse_read-next src st r n h in
      let o = sparse_read src st r n in
      elim (Option-cases o.error) [
        | inl k ↦
            let q : read_sizes (n ∷ ns) st r ≡ followed_by o (read_sizes ns o.stream o.reader) =
              rw (k, read_sizes) refl in
            e
            ∙ ap (λ b. o.bytes ++ b) (read_sizes-next ns o.stream o.reader h')
            ∙ sym (append_assoc o.bytes _ _)
            ∙ ap (λ x. x.bytes ++ remaining src x.stream x.reader) (sym q)
        | inr (x, k) ↦
            let q : read_sizes (n ∷ ns) st r ≡ o = rw (k, read_sizes) refl in
            e ∙ ap (λ y. y.bytes ++ remaining src y.stream y.reader) (sym q)
      ]

  read_sizes-at_eof :
      (ns : List ℕ) (st : State) (r : SparseFileReader)
      → IsPosition r.total r.pos r.sp
      → (read_sizes ns st r).error ≡ some eof
      → remaining src (read_sizes ns st r).stream (read_sizes ns st r).reader ≡ []
  unfolding sparse_read sparse_read_from
  read_sizes-at_eof [] st r h e = absurd cc
  read_sizes-at_eof (n ∷ ns) st r h e =
      let (_, room, h') = sparse_read-next src st r n h in
      let o = sparse_read src st r n in
      elim (Option-cases o.error) [
        | inl k ↦
            let q : read_sizes (n ∷ ns) st r ≡ followed_by o (read_sizes ns o.stream o.reader) =
              rw (k, read_sizes) refl in
            ap (λ x. remaining src x.stream x.reader) q
            ∙ read_sizes-at_eof ns o.stream o.reader h' (ap (λ x. x.error) (sym q) ∙ e)
        | inr (x, k) ↦
            let q : read_sizes (n ∷ ns) st r ≡ o = rw (k, read_sizes) refl in
            ap (λ y. remaining src y.stream y.reader) q
            ∙ (sparse_read-at_eof st r n h (ap (λ y. y.error) (sym q) ∙ e)).1
      ]

  -- If `newSparseFileReader` accepts a list of int64 entries, then reading with buffers of any sizes
  -- up to `io.EOF` delivers the sparse file exactly: zeros in the holes of the map, and the file's
  -- data in the archive, in order, in its fragments.
  pub read_sizes-new_sparse_file_reader :
      (ns : List ℕ) (st : State) (nb : ℕ) (sp : List SparseEntry) (total : ℕ) (r : SparseFileReader)
      → IsWord total
      → All IsEntryWords sp
      → new_sparse_file_reader nb sp total ≡ ok r
      → (read_sizes ns st r).error ≡ some eof
      → (read_sizes ns st r).bytes ≡ expand total 0 sp (take nb (contents st))
  read_sizes-new_sparse_file_reader ns st nb sp total r ht hs e h =
      let q = new_sparse_file_reader-eq-ok nb sp total e in
      let (t, o) = (new_sparse_file_reader_iff nb sp total ht hs).0 (e ∙ ap ok q) in
      let p =
        subst (λ x. IsPosition x.total x.pos x.sp) (sym q)
          (IsPosition-of_IsInOrder total 0 0 sp (omega arith) (omega arith) o) in
      let d = read_sizes-next ns st r p in
      sym (append-nil _)
      ∙ ap (λ b. (read_sizes ns st r).bytes ++ b) (sym (read_sizes-at_eof ns st r p h))
      ∙ sym d
      ∙ ap (remaining src st) q
