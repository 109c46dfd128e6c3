-- ===== src/Zip/Checksum/Reads.antt =====
-- What a whole read through `checksumReader` (zip/reader.go) guarantees.
use arkive.Common.{
  ℕ, ◌%◌, ◌≡◌, refl, sym, ap, subst, ◌∙◌, ◌≢◌, ◌⊎◌, inl, inr, Bool, true, false, not, ◌&&◌, Option,
  none, some, [], ◌++◌, append-nil, append_assoc, arith, Bytes, ◌==◌, Bool-cases, length,
  length-append,
}
use arkive.Common.Words.{u64_mod}
use arkive.Common.Go.{Error, eof, unexpected_eof, Result, ok, err, panic, stuck}
use arkive.Tar.Source.{Answer, Source}
use arkive.Zip.Checksum.{
  Hash, read_data_descriptor, Expected, is_end, descriptor_verdict, sum_verdict, at_end, Reader,
  answered, updated, checksum_read_if, checksum_read,
}

descriptor_verdict-eof :
    (r : Result (Unit {0})) (same : Bool) → descriptor_verdict r same ≡ eof → same ≡ true
unfolding descriptor_verdict is_end
descriptor_verdict-eof (ok _) true h = refl
descriptor_verdict-eof (ok _) false h = absurd cc
descriptor_verdict-eof (err e) same h = elim (Bool-cases (is_end (some e))) [
  | inl k ↦
      let p : descriptor_verdict (err e) same ≡ unexpected_eof = rw (k) refl in
      absurd (other (sym p ∙ h))
  | inr k ↦
      let p : descriptor_verdict (err e) same ≡ e = rw (k) refl in
      absurd (true-ne-false (ap (λ x. is_end (some x)) (sym h ∙ p) ∙ k))
]
  where
    other : unexpected_eof ≢ eof
    other q = cc

    true-ne-false : true ≢ false
    true-ne-false q = cc
descriptor_verdict-eof panic same h = absurd cc
descriptor_verdict-eof stuck same h = absurd cc

sum_verdict-eof :
    (d : Option Bytes) (crc sum : ℕ)
    → sum_verdict d crc sum ≡ eof
    → (sum ≡ crc) ⊎ ((crc ≡ 0) × (d ≡ none))
unfolding sum_verdict
sum_verdict-eof none crc sum = elim (Bool-cases (not (crc == 0) && not (sum == crc))) [
  | inl k ↦ rw (k) (λ h. absurd cc)
  | inr k ↦ λ h. elim (Bool-cases (crc == 0)) [
    | inl z ↦ inr (ground arith, refl)
    | inr z ↦ inl (ground arith)
  ]
]
sum_verdict-eof (some d) crc sum = λ h.
    let e = descriptor_verdict-eof (read_data_descriptor d crc) (sum == crc) h in inl (ground arith)

at_end-eof :
    (f : Expected) (n sum : ℕ)
    → at_end f n sum ≡ eof
    → (n ≡ f.uncompressed_size64) × ((sum ≡ f.crc32) ⊎ ((f.crc32 ≡ 0) × (f.descriptor ≡ none)))
unfolding at_end
at_end-eof f n sum = elim (Bool-cases (n == f.uncompressed_size64)) [
  | inr k ↦ rw (k) (λ h. absurd cc)
  | inl k ↦ rw (k) (λ h. (ground arith, sum_verdict-eof f.descriptor f.crc32 sum h))
]

is_end-false : (e : Option Error) → is_end e ≡ false → e ≢ some eof
unfolding is_end
is_end-false e k h = true-ne-false (sym (ap is_end h) ∙ k)
  where
    true-ne-false : true ≢ false
    true-ne-false q = cc

at_end-ne-eof :
    (f : Expected) (n sum : ℕ) → (n == f.uncompressed_size64) ≡ false → at_end f n sum ≢ eof
unfolding at_end
at_end-ne-eof f n sum k = rw (k) (λ h. cc)

module _ (src : Source) (hash : Hash) (f : Expected) where
  open src use {State, read}

  -- A reader that has delivered the bytes `seen`, and no error.
  abbrev IsRead : Bytes → Reader src hash f → Type 0
  IsRead seen r =
      (r.hash ≡ hash.write hash.start seen) × (r.nread ≡ length seen % u64_mod) × (r.error ≡ none)

  updated-IsRead :
      (seen : Bytes) (r : Reader src hash f) (a : Answer State)
      → IsRead seen r
      → IsRead (seen ++ a.bytes) (updated src hash f r a)
  updated-IsRead seen r a (h, n, e) =
      let l = length-append seen a.bytes in
      (
        ap (λ x. hash.write x a.bytes) h ∙ hash.write_append hash.start seen a.bytes,
        grind arith,
        refl,
      )

  answered-next :
      (r : Reader src hash f) (a : Answer State)
      → r.error ≡ none
      → (answered src hash f r a).error ≡ none
      → ((answered src hash f r a).bytes ≡ a.bytes) × ((answered src hash f r a).reader ≡ r)
  unfolding answered
  answered-next r a clean = elim (Bool-cases (is_end a.error)) [
    | inr k ↦ rw (k) (λ h. (refl, ap (λ e. record r { error = e }) (h ∙ sym clean)))
    | inl k ↦ elim (Bool-cases (r.nread == f.uncompressed_size64)) [
      | inl j ↦ rw (k, j) (λ h. absurd cc)
      | inr j ↦ rw (k, j) (λ h. absurd cc)
    ]
  ]

  -- Where the answer is `io.EOF`, the checks at the end have passed.
  answered-eof :
      (r : Reader src hash f) (a : Answer State)
      → (answered src hash f r a).error ≡ some eof
      → ((answered src hash f r a).bytes ≡ a.bytes) × (at_end f r.nread (hash.sum32 r.hash) ≡ eof)
  unfolding answered
  answered-eof r a = elim (Bool-cases (is_end a.error)) [
    | inr k ↦ rw (k) (λ h. absurd (is_end-false a.error k h))
    | inl k ↦ elim (Bool-cases (r.nread == f.uncompressed_size64)) [
      | inl j ↦ rw (k, j) (λ h. (refl, cc))
      | inr j ↦ rw (k, j) (λ h. absurd (at_end-ne-eof f r.nread (hash.sum32 r.hash) j cc))
    ]
  ]

  checksum_read-answered :
      (r : Reader src hash f) (n : ℕ)
      → r.error ≡ none
      → checksum_read src hash f r n
        ≡ answered src hash f (updated src hash f r (read r.stream n)) (read r.stream n)
  unfolding checksum_read checksum_read_if
  checksum_read-answered r n clean = ap (λ e. checksum_read_if src hash f e r n) clean

  -- Calls of `Read` that answer no error: the bytes together, and the reader after.
  pub data Reads : Reader src hash f → Bytes → Reader src hash f → Type 0 where
    done : (r : Reader src hash f) → Reads r [] r
    next :
        (r : Reader src hash f) (n : ℕ) (b : Bytes) (r' : Reader src hash f)
        → (checksum_read src hash f r n).error ≡ none
        → Reads (checksum_read src hash f r n).reader b r'
        → Reads r ((checksum_read src hash f r n).bytes ++ b) r'

  checksum_read-IsRead :
      (seen : Bytes) (r : Reader src hash f) (n : ℕ)
      → IsRead seen r
      → (checksum_read src hash f r n).error ≡ none
      → IsRead (seen ++ (checksum_read src hash f r n).bytes) (checksum_read src hash f r n).reader
  checksum_read-IsRead seen r n u e =
      let a = read r.stream n in
      let eq = checksum_read-answered r n (u.2) in
      let (p, q) = answered-next (updated src hash f r a) a refl (ap (λ o. o.error) (sym eq) ∙ e) in
      let v = updated-IsRead seen r a u in
      subst (λ o. IsRead (seen ++ o.bytes) o.reader) (sym eq)
        (subst (λ b. IsRead (seen ++ b) (answered src hash f (updated src hash f r a) a).reader)
          (sym p) (subst (IsRead (seen ++ a.bytes)) (sym q) v))

  Reads-IsRead :
      (seen b : Bytes) (r r' : Reader src hash f)
      → Reads r b r'
      → IsRead seen r
      → IsRead (seen ++ b) r'
  Reads-IsRead seen b r r' (done _) u = subst (λ x. IsRead x r) (sym (append-nil seen)) u
  Reads-IsRead seen b r r' (next _ n b' _ e rs) u =
      subst (λ x. IsRead x r') (append_assoc seen (checksum_read src hash f r n).bytes b')
        (Reads-IsRead (seen ++ (checksum_read src hash f r n).bytes) b'
          (checksum_read src hash f r n).reader r' rs (checksum_read-IsRead seen r n u e))

  abbrev pub opened : State → Reader src hash f
  opened st = record { stream = st; hash = hash.start; nread = 0; error = none }

  opened-IsRead : (st : State) → IsRead [] (opened st)
  opened-IsRead st = (sym (hash.write_nil hash.start), refl, refl)

  -- Whoever reads an opened file up to `io.EOF` has received, in all calls together, as many bytes
  -- as the header names (counted in 64 bits), and bytes whose sum is the header's, unless that is 0
  -- and there is no data descriptor, however the decompressor cuts its answers.
  pub checksum_read-at_eof :
      (st : State) (b : Bytes) (r : Reader src hash f) (n : ℕ)
      → Reads (opened st) b r
      → (checksum_read src hash f r n).error ≡ some eof
      → (length (b ++ (checksum_read src hash f r n).bytes) % u64_mod ≡ f.uncompressed_size64)
        × ((hash.sum32 (hash.write hash.start (b ++ (checksum_read src hash f r n).bytes))
              ≡ f.crc32)
            ⊎ ((f.crc32 ≡ 0) × (f.descriptor ≡ none)))
  checksum_read-at_eof st b r n rs e =
      let u = Reads-IsRead [] b (opened st) r rs (opened-IsRead st) in
      let a = read r.stream n in
      let eq = checksum_read-answered r n (u.2) in
      let (p, q) = answered-eof (updated src hash f r a) a (ap (λ o. o.error) (sym eq) ∙ e) in
      let (size, sum) = at_end-eof f _ _ q in
      let same : (checksum_read src hash f r n).bytes ≡ a.bytes = ap (λ o. o.bytes) eq ∙ p in
      let (v, w, _) = updated-IsRead b r a u in
      (
        ap (λ x. length (b ++ x) % u64_mod) same ∙ sym w ∙ size,
        subst (λ s. (s ≡ f.crc32) ⊎ ((f.crc32 ≡ 0) × (f.descriptor ≡ none)))
            (ap hash.sum32 v ∙ ap (λ x. hash.sum32 (hash.write hash.start (b ++ x))) (sym same))
            sum,
      )
