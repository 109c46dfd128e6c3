-- ===== src/Tar/FileReader/Reads.antt =====
-- `Read` of `regFileReader` and `sparseFileReader` (tar/reader.go) against what the whole file is.
use arkive.Common.{
  ℕ, ◌+◌, ◌-◌, ◌≤◌, ◌<◌, ◌≡◌, refl, sym, ap, ◌∙◌, ◌≢◌, inl, inr, true, false, Option, some, List,
  [], ◌∷◌, ◌++◌, arith, Bytes, ltb, ◌==◌, if◌then◌else◌, Bool-cases, length, take, length-replicate,
}
use arkive.Common.Go.{Error, eof, unexpected_eof}
use arkive.Tar.Source.{Source}
use arkive.Tar.FileReader.{
  SparseEntry, SparseFileReader, is_eof, on_eof, skip_empty, reg_read, read_hole, read_fragment,
  sparse_read_from, sparse_read,
}
use arkive.Tar.FileReader.Validate.{IsInOrder}
use arkive.Tar.FileReader.Expand.{
  expand, IsPosition, IsReady, IsPosition-of_IsInOrder, take-past, expand-zeros, expand-fragment,
  expand-end, expand-skip_empty,
}

pub on_eof-ne-eof : (e other : Option Error) → other ≢ some eof → on_eof e other ≢ some eof
unfolding on_eof is_eof
on_eof-ne-eof e other h e' = elim (Bool-cases (is_eof e)) [
  | inl k ↦ let p : on_eof e other ≡ other = rw (k) refl in h (sym p ∙ e')
  | inr k ↦ let p : on_eof e other ≡ e = rw (k) refl in true-ne-false (ap is_eof (sym e' ∙ p) ∙ k)
]
  where
    true-ne-false : true ≢ false
    true-ne-false q = cc

module _ (src : Source) where
  open src use {State, read, contents, read_bytes, read_room, read_eof}

  -- What a regular file, and what a sparse file, has left to deliver.
  abbrev pub reg_remaining : State → ℕ → Bytes
  reg_remaining st nb = take nb (contents st)

  abbrev pub remaining : State → SparseFileReader → Bytes
  remaining st r = expand r.total r.pos r.sp (reg_remaining st r.nb)

  take-read :
      (st : State) (nb m : ℕ)
      → m ≤ nb
      → take nb (contents st)
        ≡ (read st m).bytes ++ take (nb - length (read st m).bytes) (contents (read st m).state)
  take-read st nb m h =
      ap (λ b. take nb b) (read_bytes st m) ∙ take-past nb _ _ (omega (arith, read_room st m))

  -- A call of `regFileReader.Read` delivers the next of the bytes that the file has left, at most as
  -- many as there is room for, whatever the stream under it answers.
  pub reg_read-next :
      (st : State) (nb n : ℕ)
      → (reg_remaining st nb
          ≡ (reg_read src st nb n).bytes
            ++ reg_remaining (reg_read src st nb n).stream (reg_read src st nb n).reader)
        × (length (reg_read src st nb n).bytes ≤ n)
  unfolding reg_read
  reg_read-next st nb n = elim (Bool-cases (nb == 0)) [
    | inl e ↦ let z : nb ≡ 0 = ground arith in rw (e) (refl, omega arith)
    | inr e ↦ elim (Bool-cases (ltb nb n)) [
      | inl k ↦ rw (e, k) (take-read st nb nb (omega arith), ground (arith, read_room st nb))
      | inr k ↦ let m : n ≤ nb = ground arith in rw (e, k) (take-read st nb n m, read_room st n)
    ]
  ]

  -- It answers `io.EOF` only where the file has no byte left.
  pub reg_read-at_eof :
      (st : State) (nb n : ℕ)
      → (reg_read src st nb n).error ≡ some eof
      → (reg_read src st nb n).reader ≡ 0
  unfolding reg_read
  reg_read-at_eof st nb n h = elim (Bool-cases (nb == 0)) [
    | inl e ↦ rw (e) (ground arith)
    | inr e ↦ elim (Bool-cases (ltb 0 (nb - length (read st (if ltb nb n then nb else n)).bytes))) [
      | inl k ↦
          let q : (reg_read src st nb n).error
              ≡ on_eof (read st (if ltb nb n then nb else n)).error (some unexpected_eof) =
            rw (e, k) refl in
          absurd (on_eof-ne-eof _ (some unexpected_eof) (λ x. cc) (sym q ∙ h))
      | inr k ↦ rw (e) (ground arith)
    ]
  ]

  -- The same inside a fragment of a sparse file.
  read_fragment-next :
      (st : State) (r : SparseFileReader) (s : SparseEntry) (sp : List SparseEntry) (n : ℕ)
      → s.offset ≤ r.pos
      → IsReady r.total r.pos (s ∷ sp)
      → (expand r.total r.pos (s ∷ sp) (reg_remaining st r.nb)
          ≡ (read_fragment src st r s sp n).bytes
            ++ remaining
                (read_fragment src st r s sp n).stream
                (read_fragment src st r s sp n).reader)
        × (length (read_fragment src st r s sp n).bytes ≤ n)
        × IsPosition
            (read_fragment src st r s sp n).reader.total
            (read_fragment src st r s sp n).reader.pos
            (read_fragment src st r s sp n).reader.sp
  unfolding read_fragment IsReady IsPosition
  read_fragment-next st r s sp n h₁ (h₂, h₃, h₄) =
      let left = s.offset + s.num_bytes - r.pos in
      let m = if ltb left n then left else n in
      let (e, room) = reg_read-next st r.nb m in
      let m-le : m ≤ left = ground arith in
      let m-le' : m ≤ n = ground arith in
      let o = reg_read src st r.nb m in
      let f =
        ap (λ b. expand r.total r.pos (s ∷ sp) b) e
        ∙ expand-fragment r.total r.pos s sp o.bytes _ h₁ (omega arith) in
      elim (Bool-cases (r.pos + length o.bytes == s.offset + s.num_bytes)) [
        | inl k ↦
            let k' : r.pos + length o.bytes ≡ s.offset + s.num_bytes = ground arith in
            rw (k) (
              f ∙ ap (λ b. o.bytes ++ b) (rw (k') (expand-end r.total s sp _)),
              omega arith,
              IsPosition-of_IsInOrder r.total _ (s.offset + s.num_bytes) sp (omega arith) h₃ h₄,
            )
        | inr k ↦ rw (k) (f, omega arith, (inr (ground arith), h₃, h₄))
      ]

  -- The position `end` is the start of the next fragment, or the end of the file.
  read_hole-next :
      (st : State) (r : SparseFileReader) (end n : ℕ)
      → r.pos < end
      → end ≤ r.total
      → IsInOrder r.total end r.sp
      → (remaining st r
          ≡ (read_hole src st r end n).bytes
            ++ remaining (read_hole src st r end n).stream (read_hole src st r end n).reader)
        × (length (read_hole src st r end n).bytes ≤ n)
        × IsPosition
            (read_hole src st r end n).reader.total
            (read_hole src st r end n).reader.pos
            (read_hole src st r end n).reader.sp
  unfolding read_hole
  read_hole-next st r end n h₁ h₂ h₃ =
      let m = if ltb n (end - r.pos) then n else end - r.pos in
      let m-le : m ≤ end - r.pos = ground arith in
      let m-le' : m ≤ n = ground arith in
      (
        expand-zeros r.total r.pos m end r.sp _ (omega arith) h₂ h₃,
        omega (arith, length-replicate {A = ℕ} m 0),
        IsPosition-of_IsInOrder r.total _ end r.sp (omega arith) h₂ h₃,
      )

  sparse_read_from-next :
      (st : State) (r : SparseFileReader) (sp : List SparseEntry) (n : ℕ)
      → IsReady r.total r.pos sp
      → (expand r.total r.pos sp (reg_remaining st r.nb)
          ≡ (sparse_read_from src st r sp n).bytes
            ++ remaining
                (sparse_read_from src st r sp n).stream
                (sparse_read_from src st r sp n).reader)
        × (length (sparse_read_from src st r sp n).bytes ≤ n)
        × IsPosition
            (sparse_read_from src st r sp n).reader.total
            (sparse_read_from src st r sp n).reader.pos
            (sparse_read_from src st r sp n).reader.sp
  unfolding sparse_read_from IsReady IsInOrder IsPosition
  sparse_read_from-next st r [] n h = elim (Bool-cases (ltb r.pos r.total)) [
    | inl e ↦
        rw (e) (read_hole-next st (record r { sp = [] }) r.total n (ground arith) (omega arith) tt)
    | inr e ↦ rw (e) (refl, omega arith, h)
  ]
  sparse_read_from-next st r (s ∷ sp) n (h₁, h₂, h₃) = elim (Bool-cases (ltb r.pos s.offset)) [
    | inl e ↦ rw (e) (
        read_hole-next st (record r { sp = s ∷ sp }) s.offset n (ground arith) (omega arith)
          (omega arith, h₂, h₃))
    | inr e ↦ rw (e) (read_fragment-next st r s sp n (ground arith) (h₁, h₂, h₃))
  ]

  -- A call of `sparseFileReader.Read` on a map in order delivers the next bytes of the expansion, at
  -- most as many as there is room for, and its reader again stands at a position of the map.
  pub sparse_read-next :
      (st : State) (r : SparseFileReader) (n : ℕ)
      → IsPosition r.total r.pos r.sp
      → (remaining st r
          ≡ (sparse_read src st r n).bytes
            ++ remaining (sparse_read src st r n).stream (sparse_read src st r n).reader)
        × (length (sparse_read src st r n).bytes ≤ n)
        × IsPosition
            (sparse_read src st r n).reader.total
            (sparse_read src st r n).reader.pos
            (sparse_read src st r n).reader.sp
  unfolding sparse_read
  sparse_read-next st r n h =
      let (e, ready) = expand-skip_empty r.total r.pos r.sp (reg_remaining st r.nb) h in
      let (e', room, position) = sparse_read_from-next st r (skip_empty r.sp) n ready in
      (e ∙ e', room, position)
