-- ===== src/Zip/FileWriter/Totals.antt =====
-- What `fileWriter` (zip/writer.go) records and leaves behind for a whole file.
use arkive.Common.{
  ℕ, ◌+◌, ◌≡◌, refl, sym, ap, subst, ◌∙◌, ◌≢◌, inl, inr, false, none, some, [], ◌++◌, append-nil,
  append_assoc, arith, Bytes, if◌then◌else◌, Bool-cases, Option-cases, length, length-append,
}
use arkive.Common.Go.{Error, write_closed}
use arkive.Zip.Checksum.{Hash, data_descriptor}
use arkive.Zip.FileWriter.{
  Compressor, is_zip64, Writer, write_file, final_sizes, flushed, finished, close_if, close_file,
}

module _ (c : Compressor) (hash : Hash) where
  -- Calls of `Write` that answer no error: the bytes together, and the writer after.
  pub data Writes : Writer c hash → Bytes → Writer c hash → Type 0 where
    done : (w : Writer c hash) → Writes w [] w
    next :
        (w : Writer c hash) (p b : Bytes) (w' : Writer c hash)
        → (write_file c hash w p).error ≡ none
        → Writes (write_file c hash w p).writer b w'
        → Writes w (p ++ b) w'

  -- A writer that has taken the bytes `b` and began when the archive had `start` bytes.
  abbrev pub IsWritten : ℕ → Bytes → Writer c hash → Type 0
  IsWritten start b w =
      (w.crc ≡ hash.write hash.start b)
      × (w.raw_count ≡ length b)
      × (length w.out ≡ start + w.comp_count)
      × (w.closed ≡ false)

  write_file-open :
      (w : Writer c hash) (p : Bytes)
      → w.closed ≡ false
      → write_file c hash w p ≡ record {
        count = c.taken w.comp p;
        error = c.failed w.comp p;
        writer = record w {
          comp = c.after w.comp p;
          crc = hash.write w.crc p;
          raw_count = w.raw_count + c.taken w.comp p;
          comp_count = w.comp_count + length (c.put_out w.comp p);
          out = w.out ++ c.put_out w.comp p;
        };
      }
  unfolding write_file
  write_file-open w p ready =
      ap
        (λ x. if x then record { count = 0; error = some write_closed; writer = w } else record {
          count = c.taken w.comp p;
          error = c.failed w.comp p;
          writer = record w {
            comp = c.after w.comp p;
            crc = hash.write w.crc p;
            raw_count = w.raw_count + c.taken w.comp p;
            comp_count = w.comp_count + length (c.put_out w.comp p);
            out = w.out ++ c.put_out w.comp p;
          };
        })
        ready

  write_file-IsWritten :
      (start : ℕ) (b p : Bytes) (w : Writer c hash)
      → IsWritten start b w
      → (write_file c hash w p).error ≡ none
      → IsWritten start (b ++ p) (write_file c hash w p).writer
  write_file-IsWritten start b p w (h, n, o, ready) e =
      let eq = write_file-open w p ready in
      let t = c.takes_all w.comp p (ap (λ x. x.error) (sym eq) ∙ e) in
      let l = length-append b p in
      let l' = length-append w.out (c.put_out w.comp p) in
      subst (λ x. IsWritten start (b ++ p) x.writer) (sym eq)
        (
          ap (λ x. hash.write x p) h ∙ hash.write_append hash.start b p,
          omega arith,
          omega arith,
          ready,
        )

  Writes-IsWritten :
      (start : ℕ) (b₀ b : Bytes) (w w' : Writer c hash)
      → Writes w b w'
      → IsWritten start b₀ w
      → IsWritten start (b₀ ++ b) w'
  Writes-IsWritten start b₀ b w w' (done _) u =
      subst (λ x. IsWritten start x w) (sym (append-nil b₀)) u
  Writes-IsWritten start b₀ b w w' (next _ p b' _ e rs) u =
      subst (λ x. IsWritten start x w') (append_assoc b₀ p b')
        (Writes-IsWritten start (b₀ ++ p) b' (write_file c hash w p).writer w' rs
          (write_file-IsWritten start b₀ p w u e))

  final_sizes-fields :
      (v s n u : ℕ)
      → ((final_sizes c hash v s n u).crc32 ≡ s)
        × ((final_sizes c hash v s n u).compressed_size64 ≡ n)
        × ((final_sizes c hash v s n u).uncompressed_size64 ≡ u)
  unfolding final_sizes
  final_sizes-fields v s n u = elim (Bool-cases (is_zip64 n u)) [
    | inl k ↦ rw (k) (refl, refl, refl)
    | inr k ↦ rw (k) (refl, refl, refl)
  ]

  -- What a closed writer `x` has of the bytes `b`, with `body` before the descriptor.
  abbrev pub IsClosed : ℕ → Bytes → Bytes → Writer c hash → Type 0
  IsClosed start b body x =
      (x.sizes.crc32 ≡ hash.sum32 (hash.write hash.start b))
      × (x.sizes.uncompressed_size64 ≡ length b)
      × (length body ≡ start + x.sizes.compressed_size64)
      × (x.out
          ≡ body
            ++ data_descriptor x.sizes.crc32 x.sizes.compressed_size64 x.sizes.uncompressed_size64
                (is_zip64 x.sizes.compressed_size64 x.sizes.uncompressed_size64))

  finished-IsClosed :
      (start : ℕ) (b : Bytes) (w : Writer c hash)
      → IsWritten start b w
      → IsClosed start b (w.out ++ c.close_out w.comp) (finished c hash (flushed c hash w))
  unfolding finished
  finished-IsClosed start b w (h, n, o, ready) =
      let (p, q, r) =
        final_sizes-fields w.sizes.reader_version (hash.sum32 w.crc)
          (w.comp_count + length (c.close_out w.comp)) w.raw_count in
      let l = length-append w.out (c.close_out w.comp) in
      (p ∙ ap hash.sum32 h, r ∙ n, omega arith, rw (p, q, r) refl)

  close_file-finished :
      (w : Writer c hash)
      → w.closed ≡ false
      → (close_file c hash w).0 ≡ none
      → close_file c hash w ≡ (none, finished c hash (flushed c hash w))
  unfolding close_file close_if
  close_file-finished w ready e =
      let eq = ap (λ x. close_if c hash x (c.close_failed w.comp) w) ready in
      elim (Option-cases (c.close_failed w.comp)) [
        | inl k ↦ eq ∙ ap (λ x. close_if c hash false x w) k
        | inr (x, k) ↦
            let eq' = eq ∙ ap (λ f. close_if c hash false f w) k in
            absurd (some-ne-none x (ap (λ r. r.0) (sym eq') ∙ e))
      ]
    where
      some-ne-none : (x : Error) → some x ≢ none
      some-ne-none x q = cc

  -- A file of the bytes `b`, written in any cuts to a fresh writer and closed without an error: the
  -- header has the sum and the number of these bytes and the number of the compressed bytes, which
  -- are the ones added to the archive in front of the descriptor of the same three numbers.
  pub close_file-Writes :
      (b : Bytes) (w w' : Writer c hash)
      → w.crc ≡ hash.start
      → w.raw_count ≡ 0
      → w.comp_count ≡ 0
      → w.closed ≡ false
      → Writes w b w'
      → (close_file c hash w').0 ≡ none
      → (((close_file c hash w').1.sizes).crc32 ≡ hash.sum32 (hash.write hash.start b))
        × (((close_file c hash w').1.sizes).uncompressed_size64 ≡ length b)
        × (length (w'.out ++ c.close_out w'.comp)
            ≡ length w.out + ((close_file c hash w').1.sizes).compressed_size64)
        × ((close_file c hash w').1.out
            ≡ (w'.out ++ c.close_out w'.comp)
              ++ data_descriptor
                  ((close_file c hash w').1.sizes).crc32
                  ((close_file c hash w').1.sizes).compressed_size64
                  ((close_file c hash w').1.sizes).uncompressed_size64
                  (is_zip64
                    ((close_file c hash w').1.sizes).compressed_size64
                    ((close_file c hash w').1.sizes).uncompressed_size64))
  close_file-Writes b w w' hc hr hn ready ws e =
      let fresh : IsWritten (length w.out) [] w =
        (hc ∙ sym (hash.write_nil hash.start), hr, omega arith, ready) in
      let u = Writes-IsWritten (length w.out) [] b w w' ws fresh in
      let (_, _, _, ready') = u in
      let eq = close_file-finished w' ready' e in
      subst (λ x. IsClosed (length w.out) b (w'.out ++ c.close_out w'.comp) x.1) (sym eq)
        (finished-IsClosed (length w.out) b w' u)
