-- ===== src/Tar/Writer/Balance.antt =====
-- What `Flush`, `Write` and `Close` (tar/writer.go) put into the archive.
use arkive.Common.{
  ℕ, zero, suc, ◌+◌, ◌-◌, ◌*◌, ◌≤◌, ◌≡◌, refl, sym, ap, subst, ◌∙◌, ◌≢◌, inl, inr, Bool, true,
  false, not, ◌&&◌, ◌||◌, Option, none, some, [], ◌∷◌, ◌++◌, append-nil, append_assoc, arith, Bytes,
  ltb, if◌then◌else◌, Bool-cases, Option-cases, length, take, replicate, length-take,
  length-replicate, replicate-add, take_all,
}
use arkive.Common.Go.{Error, err_write_after_close}
use arkive.Tar.Block.{block_size}
use arkive.Tar.Writer.{
  Sink, Writer, Written, is_none, flush_loop, flush, write_some, write_entry, write_trailer, close,
}

is_none-eq : (e : Option Error) → is_none e ≡ true → e ≡ none
is_none-eq none h = refl
is_none-eq (some e) h = absurd cc

is_none-false : (e : Option Error) → is_none e ≡ false → e ≢ none
is_none-false e h k = true-ne-false (sym (ap is_none k) ∙ h)
  where
    true-ne-false : true ≢ false
    true-ne-false q = cc

module _ (out : Sink) where
  open out use {State, write, written, takes, takes_all, writes}

  -- A write that answers no error has added all its bytes.
  wrote :
      (st : State) (b : Bytes) → (write st b).1 ≡ none → written (write st b).2 ≡ written st ++ b
  wrote st b h =
      writes st b
      ∙ ap (λ x. written st ++ x) (take_all b (write st b).0 (omega (arith, takes_all st b h)))

  flush_loop-error :
      (fuel : ℕ) (st : State) (n : ℕ) (x : Error) → (flush_loop out fuel st n (some x)).1 ≡ some x
  unfolding flush_loop
  flush_loop-error zero st n x = refl
  flush_loop-error (suc fuel) st zero x = refl
  flush_loop-error (suc fuel) st (suc n) x = refl

  flush_loop-pads :
      (fuel : ℕ) (st : State) (n : ℕ) (e : Option Error)
      → n ≤ fuel
      → (flush_loop out fuel st n e).1 ≡ none
      → written (flush_loop out fuel st n e).0 ≡ written st ++ replicate n 0
  unfolding flush_loop
  flush_loop-pads zero st zero e h k = sym (append-nil _)
  flush_loop-pads zero st (suc n) e h k = absurd (omega arith)
  flush_loop-pads (suc fuel) st zero e h k = sym (append-nil _)
  flush_loop-pads (suc fuel) st (suc n) (some e) h k = absurd cc
  flush_loop-pads (suc fuel) st (suc n) none h k =
      let nr = if ltb block_size (suc n) then block_size else suc n in
      let nr-le : nr ≤ suc n = ground arith in
      let nr-pos : 1 ≤ nr = ground arith in
      let zeros : Bytes = replicate nr 0 in
      elim (Option-cases (write st zeros).1) [
        | inl done ↦
            let all : (write st zeros).0 ≡ nr =
              takes_all st zeros done ∙ length-replicate {A = ℕ} nr 0 in
            let left : nr + (suc n - (write st zeros).0) ≡ suc n = omega arith in
            flush_loop-pads fuel (write st zeros).2 (suc n - (write st zeros).0) (write st zeros).1
              (omega arith) k
            ∙ ap (λ x. x ++ replicate (suc n - (write st zeros).0) 0) (wrote st zeros done)
            ∙ append_assoc (written st) zeros _
            ∙ ap (λ x. written st ++ x)
                (sym (replicate-add {A = ℕ} nr (suc n - (write st zeros).0) 0)
                  ∙ ap (λ x. replicate x 0) left)
        | inr (x, failed) ↦
            let f = flush_loop-error fuel (write st zeros).2 (suc n - (write st zeros).0) x in
            absurd (
              some-ne-none x (
                sym f
                ∙ ap
                    (λ e. (flush_loop out fuel (write st zeros).2 (suc n - (write st zeros).0) e).1)
                    (sym failed)
                ∙ k))
      ]
    where
      some-ne-none : (x : Error) → some x ≢ none
      some-ne-none x e = cc

  -- `Flush` without an error, with every byte of the entry written, has added the padding of the
  -- entry and nothing else, and the entry is done; its loop ends by itself.
  pub flush-pads :
      (tw : Writer State)
      → (flush out tw).error ≡ none
      → (written (flush out tw).sink ≡ written tw.sink ++ replicate tw.pad 0)
        × (tw.nb ≡ 0)
        × ((flush out tw).pad ≡ 0)
  unfolding flush
  flush-pads tw = elim (Bool-cases (ltb 0 tw.nb)) [
    | inl h ↦ rw (h) (λ e. absurd cc)
    | inr h ↦
        rw (h) (λ e.
          (flush_loop-pads tw.pad tw.sink tw.pad tw.error (omega arith) e, ground arith, refl))
  ]

  write_some-adds :
      (tw : Writer State) (over : Bool) (b : Bytes)
      → length b ≤ tw.nb
      → (written (write_some out tw over b).writer.sink
          ≡ written tw.sink ++ take (write_some out tw over b).count b)
        × ((write_some out tw over b).count ≤ length b)
        × ((write_some out tw over b).count + (write_some out tw over b).writer.nb ≡ tw.nb)
  unfolding write_some
  write_some-adds tw over b room =
      let t = takes tw.sink b in
      elim (Bool-cases (over && is_none (write tw.sink b).1)) [
        | inl h ↦ rw (h) (writes tw.sink b, t, omega arith)
        | inr h ↦ rw (h) (writes tw.sink b, t, omega arith)
      ]

  write_entry-some :
      (tw : Writer State) (b : Bytes)
      → tw.closed ≡ false
      → write_entry out tw b
        ≡ write_some out tw
            (ltb tw.nb (length b))
            (if ltb tw.nb (length b) then take tw.nb b else b)
  unfolding write_entry
  write_entry-some tw b ready =
      let over = ltb tw.nb (length b) in
      ap
        (λ c.
          if c
          then record { count = 0; error = some err_write_after_close; writer = tw }
          else write_some out tw over (if over then take tw.nb b else b))
        ready

  IsBalanced : Writer State → Bytes → Written State → Type 0
  IsBalanced tw b o =
      (written o.writer.sink ≡ written tw.sink ++ take o.count b)
      × (o.count ≤ length b)
      × (o.count + o.writer.nb ≡ tw.nb)

  write_some-cut :
      (tw : Writer State) (b : Bytes) (over : Bool)
      → ltb tw.nb (length b) ≡ over
      → IsBalanced tw b (write_some out tw over (if over then take tw.nb b else b))
  unfolding IsBalanced
  write_some-cut tw b false fits = write_some-adds tw false b (ground arith)
  write_some-cut tw b true over =
      let l = length-take tw.nb b in
      let (p, q, r) = write_some-adds tw true (take tw.nb b) (omega arith) in
      let n = (write_some out tw true (take tw.nb b)).count in
      let small : n ≤ tw.nb = omega arith in
      (p ∙ ap (λ x. written tw.sink ++ x) (take-take n tw.nb b small), omega arith, r)
    where
      take-take : (m n : ℕ) (s : Bytes) → m ≤ n → take m (take n s) ≡ take m s
      take-take zero n s h = refl
      take-take (suc m) zero s h = absurd (omega arith)
      take-take (suc m) (suc n) [] h = refl
      take-take (suc m) (suc n) (c ∷ s) h = ap (◌∷◌ c) (take-take m n s (omega arith))

  -- A call of `Write` on an open archive adds a prefix of its bytes to the archive, at most as many
  -- as the entry has room for, and the room that is left shrinks by their number, on every branch.
  pub write_entry-adds :
      (tw : Writer State) (b : Bytes)
      → tw.closed ≡ false
      → (written (write_entry out tw b).writer.sink
          ≡ written tw.sink ++ take (write_entry out tw b).count b)
        × ((write_entry out tw b).count ≤ length b)
        × ((write_entry out tw b).count + (write_entry out tw b).writer.nb ≡ tw.nb)
  unfolding IsBalanced
  write_entry-adds tw b ready =
      subst (IsBalanced tw b) (sym (write_entry-some tw b ready))
        (write_some-cut tw b (ltb tw.nb (length b)) refl)

  write_trailer-adds :
      (tw : Writer State)
      → (write_trailer out tw).error ≡ none
      → (written (write_trailer out tw).sink ≡ written tw.sink ++ replicate (2 * block_size) 0)
        × ((write_trailer out tw).closed ≡ tw.closed)
  unfolding write_trailer
  write_trailer-adds tw =
      let z = replicate block_size 0 in
      let st = (write tw.sink z).2 in
      elim (Bool-cases (is_none (write tw.sink z).1)) [
        | inl h ↦ rw (h) (λ e. (
          wrote st z e
              ∙ ap (λ x. x ++ z) (wrote tw.sink z (is_none-eq _ h))
              ∙ append_assoc (written tw.sink) z z,
          refl,
        ))
        | inr h ↦ rw (h) (λ e. absurd (is_none-false _ h e))
      ]

  close-flush :
      (tw : Writer State)
      → tw.error ≡ none
      → tw.closed ≡ false
      → close out tw ≡ (
          if is_none (flush out tw).error
          then write_trailer out (record (flush out tw) { closed = true })
          else record (flush out tw) { closed = true })
  unfolding close
  close-flush tw clean ready =
      let guard : (not (is_none tw.error) || tw.closed) ≡ false = rw (clean, ready) refl in
      ap
        (λ c.
          if c
          then tw
          else if is_none (flush out tw).error
          then write_trailer out (record (flush out tw) { closed = true })
          else record (flush out tw) { closed = true })
        guard

  -- `Close` on an open archive with no error before and none after ends it: every byte of the last
  -- entry was written, its padding follows, and two blocks of zeros.
  pub close-ends :
      (tw : Writer State)
      → tw.error ≡ none
      → tw.closed ≡ false
      → (close out tw).error ≡ none
      → (written (close out tw).sink ≡ written tw.sink ++ replicate (tw.pad + 2 * block_size) 0)
        × (tw.nb ≡ 0)
        × ((close out tw).closed ≡ true)
  close-ends tw clean ready e =
      let flushed = record (flush out tw) { closed = true } in
      let eq = close-flush tw clean ready in
      elim (Bool-cases (is_none (flush out tw).error)) [
        | inl h ↦
            let eq' = eq ∙ ap (λ c. if c then write_trailer out flushed else flushed) h in
            let (p, q, r) = flush-pads tw (is_none-eq _ h) in
            let (p', c) = write_trailer-adds flushed (ap (λ x. x.error) (sym eq') ∙ e) in
            (
              ap (λ x. written x.sink) eq'
                  ∙ p'
                  ∙ ap (λ x. x ++ replicate (2 * block_size) 0) p
                  ∙ append_assoc (written tw.sink) _ _
                  ∙ ap (λ x. written tw.sink ++ x)
                      (sym (replicate-add {A = ℕ} tw.pad (2 * block_size) 0)),
              q,
              ap (λ x. x.closed) eq' ∙ c,
            )
        | inr h ↦
            let eq' = eq ∙ ap (λ c. if c then write_trailer out flushed else flushed) h in
            absurd (is_none-false _ h (ap (λ x. x.error) (sym eq') ∙ e))
      ]
