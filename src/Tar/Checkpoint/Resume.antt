-- ===== src/Tar/Checkpoint/Resume.antt =====
-- Reading an entry across `Save` and `Resume` (tar/reader.go).
use arkive.Common.{
  ℕ, ◌+◌, ◌≤◌, ◌≡◌, refl, sym, ap, subst, ◌∙◌, none, some, [], ◌++◌, append-nil, append_assoc,
  arith, Bytes, length, take, drop, length-append, length-drop, drop_append, drop-drop,
}
use arkive.Common.Go.{eof}
use arkive.Tar.Source.{Source}
use arkive.Tar.FileReader.Expand.{expand, IsPosition}
use arkive.Tar.FileReader.{reg_read}
use arkive.Tar.FileReader.Reads.{reg_read-next, reg_read-at_eof, sparse_read-next}
use arkive.Tar.FileReader.Whole.{sparse_read-at_eof}
use arkive.Tar.FileReader.Streams.{reg_read-keeps, sparse_read-keeps}
use arkive.Tar.Reader.{
  Current, TarReader, tar_read_current, tar_read_if, tar_read, keep_error-none, no_file, regular,
  sparse,
}
use arkive.Tar.Checkpoint.{Counted, counting_read, counting, save_curr, resume_curr, save, resume}

-- What the current entry has left, and the shape of its reader.
pub entry_remaining : Current → Bytes → Bytes
entry_remaining no_file input = []
entry_remaining (regular nb) input = take nb input
entry_remaining (sparse r) input = expand r.total r.pos r.sp (take r.nb input)

unfoldable pub IsEntry : Current → Type 0
IsEntry no_file = Unit
IsEntry (regular nb) = Unit
IsEntry (sparse r) = IsPosition r.total r.pos r.sp

-- The count is the offset of the stream in the archive `whole`.
unfoldable pub IsCounted : (src : Source) → Bytes → Counted src.State → Type 0
IsCounted src whole s = (s.count ≤ length whole) × (src.contents s.inner ≡ drop s.count whole)

module _ (src : Source) where
  open src use {State, read, contents, read_bytes}

  abbrev pub rest_of : TarReader (Counted State) → Bytes
  rest_of tr = entry_remaining tr.curr (contents tr.stream.inner)

  counting_read-IsCounted :
      (whole : Bytes) (s : Counted State) (n : ℕ)
      → IsCounted src whole s
      → IsCounted src whole (counting_read src s n).state
  unfolding IsCounted
  counting_read-IsCounted whole s n (h, e) =
      let b = read_bytes s.inner n in
      let l = length-append (read s.inner n).bytes (contents (read s.inner n).state) in
      let d = length-drop s.count whole in
      let p : length (drop s.count whole)
          ≡ length (read s.inner n).bytes + length (contents (read s.inner n).state) =
        ap length (sym e ∙ b) ∙ l in
      (
        omega arith,
        sym (drop_append (read s.inner n).bytes _ _ refl)
            ∙ ap (λ x. drop (length (read s.inner n).bytes) x) (sym b ∙ e)
            ∙ drop-drop s.count _ whole,
      )

  -- One call of `Read` on the entry.
  read_current-next :
      (whole : Bytes) (tr : TarReader (Counted State)) (c : Current) (n : ℕ)
      → tr.curr ≡ c
      → IsCounted src whole tr.stream
      → IsEntry c
      → (entry_remaining c (contents tr.stream.inner)
          ≡ (tar_read_current (counting src) tr c n).bytes
            ++ entry_remaining
                (tar_read_current (counting src) tr c n).reader.curr
                (contents (tar_read_current (counting src) tr c n).reader.stream.inner))
        × IsCounted src whole (tar_read_current (counting src) tr c n).reader.stream
        × IsEntry (tar_read_current (counting src) tr c n).reader.curr
  unfolding tar_read_current entry_remaining IsEntry
  read_current-next whole tr no_file n q h k = rw (q) (refl, h, tt)
  read_current-next whole tr (regular nb) n q h k =
      let (e, _) = reg_read-next (counting src) tr.stream nb n in
      (
        e,
        reg_read-keeps (counting src) (IsCounted src whole) (counting_read-IsCounted whole)
            tr.stream nb n h,
        tt,
      )
  read_current-next whole tr (sparse r) n q h k =
      let (e, _, p) = sparse_read-next (counting src) tr.stream r n k in
      (
        e,
        sparse_read-keeps (counting src) (IsCounted src whole) (counting_read-IsCounted whole)
            tr.stream r n h,
        p,
      )

  read_current-at_eof :
      (tr : TarReader (Counted State)) (c : Current) (n : ℕ)
      → tr.curr ≡ c
      → IsEntry c
      → (tar_read_current (counting src) tr c n).error ≡ some eof
      → entry_remaining
          (tar_read_current (counting src) tr c n).reader.curr
          (contents (tar_read_current (counting src) tr c n).reader.stream.inner)
        ≡ []
  unfolding tar_read_current entry_remaining IsEntry
  read_current-at_eof tr no_file n q k e = rw (q) refl
  read_current-at_eof tr (regular nb) n q k e =
      ap (λ x. take x (contents (reg_read (counting src) tr.stream nb n).stream.inner))
        (reg_read-at_eof (counting src) tr.stream nb n e)
  read_current-at_eof tr (sparse r) n q k e =
      (sparse_read-at_eof (counting src) tr.stream r n k e).1

  read_current-error :
      (tr : TarReader (Counted State)) (c : Current) (n : ℕ)
      → tr.error ≡ none
      → (tar_read_current (counting src) tr c n).error ≡ none
      → (tar_read_current (counting src) tr c n).reader.error ≡ none
  unfolding tar_read_current
  read_current-error tr no_file n h e = h
  read_current-error tr (regular nb) n h e = keep_error-none _ e
  read_current-error tr (sparse r) n h e = keep_error-none _ e

  -- Calls of `Read` that answer no error: the reader before, the bytes together, the reader after.
  pub data Reads : TarReader (Counted State) → Bytes → TarReader (Counted State) → Type 0 where
    done : (t : TarReader (Counted State)) → Reads t [] t
    next :
        (t : TarReader (Counted State)) (n : ℕ) (b : Bytes) (t' : TarReader (Counted State))
        → (tar_read (counting src) t n).error ≡ none
        → Reads (tar_read (counting src) t n).reader b t'
        → Reads t ((tar_read (counting src) t n).bytes ++ b) t'

  -- A reader in use: no persistent error, the count right, the entry in order.
  unfoldable pub IsInUse : Bytes → TarReader (Counted State) → Type 0
  IsInUse whole t = (t.error ≡ none) × IsCounted src whole t.stream × IsEntry t.curr

  tar_read-current :
      (t : TarReader (Counted State)) (n : ℕ)
      → t.error ≡ none
      → tar_read_current (counting src) t t.curr n ≡ tar_read (counting src) t n
  unfolding tar_read tar_read_if
  tar_read-current t n h = ap (λ e. tar_read_if (counting src) e t n) (sym h)

  tar_read-next :
      (whole : Bytes) (t : TarReader (Counted State)) (n : ℕ)
      → IsInUse whole t
      → (tar_read (counting src) t n).error ≡ none
      → (rest_of t
          ≡ (tar_read (counting src) t n).bytes ++ rest_of (tar_read (counting src) t n).reader)
        × IsInUse whole (tar_read (counting src) t n).reader
  unfolding IsInUse
  tar_read-next whole t n (h, c, k) =
      subst
        (λ o. o.error ≡ none → (rest_of t ≡ o.bytes ++ rest_of o.reader) × IsInUse whole o.reader)
        (tar_read-current t n h)
        (λ e.
          let (p, c', k') = read_current-next whole t t.curr n refl c k in
          (p, (read_current-error t t.curr n h e, c', k')))

  tar_read-bytes :
      (whole : Bytes) (t : TarReader (Counted State)) (n : ℕ)
      → IsInUse whole t
      → rest_of t
        ≡ (tar_read (counting src) t n).bytes ++ rest_of (tar_read (counting src) t n).reader
  unfolding IsInUse
  tar_read-bytes whole t n (h, c, k) =
      subst (λ o. rest_of t ≡ o.bytes ++ rest_of o.reader) (tar_read-current t n h)
        (read_current-next whole t t.curr n refl c k).0

  tar_read-at_eof :
      (whole : Bytes) (t : TarReader (Counted State)) (n : ℕ)
      → IsInUse whole t
      → (tar_read (counting src) t n).error ≡ some eof
      → rest_of (tar_read (counting src) t n).reader ≡ []
  unfolding IsInUse
  tar_read-at_eof whole t n (h, c, k) =
      subst (λ o. o.error ≡ some eof → rest_of o.reader ≡ []) (tar_read-current t n h)
        (read_current-at_eof t t.curr n refl k)

  Reads-next :
      (whole : Bytes) (t : TarReader (Counted State)) (b : Bytes) (t' : TarReader (Counted State))
      → Reads t b t'
      → IsInUse whole t
      → (rest_of t ≡ b ++ rest_of t') × IsInUse whole t'
  Reads-next whole t b t' (done _) u = (refl, u)
  Reads-next whole t b t' (next _ n b' _ e rs) u =
      let (p, u') = tar_read-next whole t n u e in
      let (q, u'') = Reads-next whole _ b' t' rs u' in
      let a = (tar_read (counting src) t n).bytes in
      (p ∙ ap (λ x. a ++ x) q ∙ sym (append_assoc a b' _), u'')

-- What `Resume` sets up for the entry is what `Save` found.
resume_curr-save_curr : (c : Current) → resume_curr (save_curr c) ≡ c
unfolding resume_curr save_curr
resume_curr-save_curr no_file = refl
resume_curr-save_curr (regular nb) = refl
resume_curr-save_curr (sparse r) = refl

-- A reader that was saved and resumed on a stream is the reader itself on that stream, with the
-- same count, padding and entry; only a persistent error is forgotten.
pub resume-save :
    (src src' : Source) (t : TarReader (Counted src.State)) (st : src'.State)
    → resume src' (save src t) st ≡ record {
      stream = record { inner = st; count = t.stream.count };
      pad = t.pad;
      curr = t.curr;
      error = none;
    }
unfolding resume save
resume-save src src' t st =
    ap
      (λ c. record {
        stream = record { inner = st; count = t.stream.count };
        pad = t.pad;
        curr = c;
        error = none;
      })
      (resume_curr-save_curr t.curr)

-- The resumed reader is in use again, and has the same left to deliver.
resumed :
    (src src' : Source) (whole : Bytes) (t : TarReader (Counted src.State)) (st : src'.State)
    → IsInUse src whole t
    → src'.contents st ≡ drop (save src t).roffset whole
    → (rest_of src' (resume src' (save src t) st) ≡ rest_of src t)
      × IsInUse src' whole (resume src' (save src t) st)
unfolding IsInUse IsCounted save resume
resumed src src' whole t st (h, (c, q), k) o = (
  ap (λ x. entry_remaining x (src'.contents st)) (resume_curr-save_curr t.curr)
      ∙ ap (λ x. entry_remaining t.curr x) (o ∙ sym q),
  (refl, (c, o), subst IsEntry (sym (resume_curr-save_curr t.curr)) k),
)

-- Interrupted reading: some calls of `Read` without an error, a `Save`, a `Resume` on any other
-- stream that holds the archive from the checkpoint's offset on, and calls up to `io.EOF`. The bytes
-- before and behind the interruption are together all that the entry had to deliver at first.
pub resume-Reads :
    (src src' : Source) (whole : Bytes) (t : TarReader (Counted src.State)) (b : Bytes)
    (t' : TarReader (Counted src.State)) (st : src'.State) (b' : Bytes)
    (t'' : TarReader (Counted src'.State)) (n : ℕ)
    → IsInUse src whole t
    → Reads src t b t'
    → src'.contents st ≡ drop (save src t').roffset whole
    → Reads src' (resume src' (save src t') st) b' t''
    → (tar_read (counting src') t'' n).error ≡ some eof
    → rest_of src t ≡ b ++ (b' ++ (tar_read (counting src') t'' n).bytes)
resume-Reads src src' whole t b t' st b' t'' n u rs o rs' e =
    let (p, u') = Reads-next src whole t b t' rs u in
    let (q, v) = resumed src src' whole t' st u' o in
    let (p', v') = Reads-next src' whole _ b' t'' rs' v in
    let last = (tar_read (counting src') t'' n).bytes in
    let z = tar_read-at_eof src' whole t'' n v' e in
    let s : rest_of src' t'' ≡ last =
      tar_read-bytes src' whole t'' n v' ∙ ap (λ x. last ++ x) z ∙ append-nil last in
    p ∙ ap (λ x. b ++ x) (sym q ∙ p' ∙ ap (λ x. b' ++ x) s)
