-- ===== src/Pflate/Stream/Runs.antt =====
-- Every interleaving of pflate/pflate.go writes a stream of the data, in its order.
use arkive.Common.{
  ℕ, ◌<◌, ◌≡◌, refl, sym, ap, subst, ◌∙◌, Bool, true, false, none, List, [], ◌∷◌, ◌++◌, append-nil,
  append_assoc, arith, Bytes, length,
}
use arkive.Common.Go.{ok}
use arkive.Pflate.Stream.{Inflater, Chain, inflate-Stream, empty}
use arkive.Pflate.{Slot, Writer, init, new_writer, set_concurrency, end_flush, ready, awaiting}
use arkive.Pflate.Steps.{
  receive, write_failed, Compress, run_job, Internal, Step, Run, receives, compresses, writes,
  fails, internal, write, fills, returns, sends, gives_up, panics, checks, flush, close, sends_last,
  gives_up_last, wakes, here, later,
}
use arkive.Pflate.Bounds.{IsBounded, at_place}
use arkive.Pflate.Bounds.Runs.{Run-IsBounded, set_concurrency-init, set_concurrency-IsBounded}
use arkive.Pflate.Stream.Errors.{Step-error}
use arkive.Pflate.Stream.Invariant.{IsStreaming, IsPhase-at, IsStreaming-moved}
use arkive.Pflate.Stream.Moves.{
  push_error-ne-none, begin_write-IsStreaming, begin_flush-IsStreaming, begin_close-IsStreaming,
  end_flush-IsStreaming, check-IsStreaming, fill-IsStreaming, submit-IsStreaming,
  written-IsStreaming, compress_block-IsStreaming, running,
}

length-zero : {A : Type 0} (xs : List A) → length xs ≡ 0 → xs ≡ []
length-zero [] h = refl
length-zero (x ∷ xs) h = absurd (omega arith)

end_flush-ready : (closed : Bool) (t : Writer) → (end_flush none closed t).caller ≡ ready 0 none
unfolding end_flush
end_flush-ready true t = refl
end_flush-ready false t = refl

module _ (compress : Compress) where
  Internal-IsStreaming :
      {d : Bytes} {z t : Writer}
      → Internal compress z t
      → t.error ≡ none
      → IsStreaming compress d z
      → IsStreaming compress d t
  unfolding receive write_failed
  Internal-IsStreaming {z = z} (receives slot rest l r h) e i = record {
    written_data = i.written_data;
    ended = i.ended;
    sent_data = i.sent_data;
    final = i.final;
    stream = i.stream;
    chain = i.chain;
    data_eq = i.data_eq;
    dict = i.dict;
    count = i.count;
    phase = i.phase;
    fresh = i.fresh;
  }
  Internal-IsStreaming {z = z} (compresses before job behind h) e i =
      compress_block-IsStreaming compress z i (run_job compress job) before job behind h refl e
  Internal-IsStreaming {z = z} (writes slot rest b r h v) e i =
      written-IsStreaming compress z i slot rest b h v
  Internal-IsStreaming {z = z} (fails slot rest b n x r h v) e i =
      absurd (push_error-ne-none x z.error e)

  caller_step :
      {d : Bytes} (t : Writer) → IsStreaming compress d t → IsStreaming compress (d ++ []) t
  caller_step {d = d} t i = subst (λ x. IsStreaming compress x t) (sym (append-nil d)) i

  -- A step that ends without an error keeps the stream.
  pub Step-IsStreaming :
      {d : Bytes} {z : Writer} {c : Bytes} {t : Writer}
      → Step compress z c t
      → z.error ≡ none
      → t.error ≡ none
      → IsBounded z
      → IsStreaming compress d z
      → IsStreaming compress (d ++ c) t
  Step-IsStreaming (internal s) n e b i = caller_step _ (Internal-IsStreaming s e i)
  Step-IsStreaming {z = z} (write m x p h) n e b i =
      caller_step _ (begin_write-IsStreaming compress z i z.error p n (IsPhase-at compress z i _ h))
  Step-IsStreaming {z = z} (fills total c q h) n e b i =
      fill-IsStreaming compress z i total (c ∷ q) (at_place z _ h b) (IsPhase-at compress z i _ h)
        (running compress z i _ h refl)
  Step-IsStreaming {z = z} (returns total h) n e b i =
      caller_step _
        (IsStreaming-moved compress z i _ z.size (IsPhase-at compress z i _ h) (λ s. refl))
  Step-IsStreaming {z = z} (sends total m rest h o q) n e b i =
      let (p, f) = IsPhase-at compress z i _ h in
      caller_step _ (
        submit-IsStreaming compress z i _ _ b (f ∙ sym p ∙ o) (running compress z i _ h refl)
          (p, refl))
  Step-IsStreaming {z = z} (gives_up total m rest x h f) n e b i = absurd cc
  Step-IsStreaming {z = z} (panics total m rest h o) n e b i =
      caller_step _
        (IsStreaming-moved compress z i _ z.size tt (λ s. absurd (running compress z i _ h refl s)))
  Step-IsStreaming {z = z} (checks total m rest h) n e b i = caller_step _ (
      check-IsStreaming compress z i z.error total m rest n (IsPhase-at compress z i _ h)
        (running compress z i _ h refl))
  Step-IsStreaming {z = z} (flush m x h) n e b i =
      caller_step _
        (begin_flush-IsStreaming compress z i z.error z.closed refl n (IsPhase-at compress z i _ h))
  Step-IsStreaming {z = z} (close m x h) n e b i =
      caller_step _
        (begin_close-IsStreaming compress z i z.error z.closed refl n (IsPhase-at compress z i _ h))
  Step-IsStreaming {z = z} (sends_last h o q) n e b i =
      let (p, f) = IsPhase-at compress z i _ h in
      caller_step _
        (submit-IsStreaming compress z i _ _ b f (running compress z i _ h refl) (o, refl, refl))
  Step-IsStreaming {z = z} (gives_up_last x h f) n e b i = absurd cc
  Step-IsStreaming {z = z} (wakes m h lt) n e b i =
      let (p, f, k) = IsPhase-at compress z i _ h in
      caller_step _ (
        end_flush-IsStreaming compress z i z.error z.closed refl n (p, f)
          (running compress z i _ h refl))

  pub Run-IsStreaming :
      {z : Writer} {d : Bytes} {t : Writer}
      → Run compress z d t
      → IsBounded z
      → IsStreaming compress [] z
      → t.error ≡ none
      → IsStreaming compress d t
  Run-IsStreaming here b i e = i
  Run-IsStreaming (later r s) b i e =
      let n = Step-error compress s e in
      Step-IsStreaming s n e (Run-IsBounded compress r b) (Run-IsStreaming r b i n)

  Chain-extends :
      (e : Bool) (h : Bytes) (slots : List Slot) (e' : Bool) (h' : Bytes)
      → Chain compress e h slots e' h'
      → (rest : Bytes) × (h ++ rest ≡ h')
  Chain-extends e h [] e' h' (p, q) = ([], append-nil h ∙ q)
  Chain-extends e h (slot ∷ slots) e' h' (p, q, r, c) =
      let (rest, eq) = Chain-extends slot.job.final (h ++ slot.job.block) slots e' h' c in
      (slot.job.block ++ rest, sym (append_assoc h slot.job.block rest) ∙ eq)

  init-IsStreaming : (size blocks : ℕ) → IsStreaming compress [] (init size blocks)
  unfolding init
  init-IsStreaming size blocks = record {
    written_data = [];
    ended = false;
    sent_data = [];
    final = false;
    stream = empty;
    chain = (refl, refl);
    data_eq = refl;
    dict = ([], refl);
    count = omega arith;
    phase = (refl, refl);
    fresh = λ e. (refl, refl);
  }

  module _ (inf : Inflater compress) (size blocks : ℕ) {z t : Writer} {d : Bytes} where
    streaming :
        set_concurrency size blocks new_writer ≡ ok z
        → Run compress z d t
        → t.error ≡ none
        → IsStreaming compress d t
    streaming c r e =
        let (large, many, p) = set_concurrency-init size blocks z c in
        Run-IsStreaming r (set_concurrency-IsBounded size blocks z c)
          (subst (IsStreaming compress []) p (init-IsStreaming size blocks)) e

    -- At any moment, in any interleaving: as long as no error is set, the output so far inflates to
    -- a prefix of all the bytes that were copied from the caller, in their order.
    pub inflate-Run_prefix :
        set_concurrency size blocks new_writer ≡ ok z
        → Run compress z d t
        → t.error ≡ none
        → (rest : Bytes) × (d ≡ inf.inflate [] t.out ++ rest)
    inflate-Run_prefix c r e =
        let i = streaming c r e in
        let (more, eq) = Chain-extends i.ended i.written_data t.slots i.final i.sent_data i.chain in
        let p = inflate-Stream compress inf i.stream in
        (
          more ++ t.current,
          sym i.data_eq
              ∙ ap (λ x. x ++ t.current) (sym eq ∙ ap (λ x. x ++ more) (sym p))
              ∙ append_assoc _ more t.current,
        )

    -- Where a Flush or Close has sent its part and waits for it, so that it was called on a writer
    -- that was not closed yet, and the part was written with no error set, in any interleaving of the
    -- goroutines: the call returns nil, and the output inflates to all the bytes that were copied
    -- from the caller, in their order. On a closed writer Flush returns nil with no such promise.
    pub inflate-Run :
        (n : ℕ)
        → set_concurrency size blocks new_writer ≡ ok z
        → Run compress z d t
        → t.caller ≡ awaiting n
        → n < t.notified
        → t.error ≡ none
        → ((end_flush t.error t.closed t).caller ≡ ready 0 none) × (inf.inflate [] t.out ≡ d)
    inflate-Run n c r a lt e =
        let i = streaming c r e in
        let b = Run-IsBounded compress r (set_concurrency-IsBounded size blocks z c) in
        let none_left : length t.current ≡ 0 = at_place t (awaiting n) a b in
        let (p, f, k) = IsPhase-at compress t i (awaiting n) a in
        let m = i.count in
        let no_slots : length t.slots ≡ 0 = omega (arith, k, m, lt) in
        let written : i.written_data ≡ i.sent_data =
          (subst (λ s. Chain compress i.ended i.written_data s i.final i.sent_data)
            (length-zero t.slots no_slots) i.chain).1 in
        (
          ap (λ x. (end_flush x t.closed t).caller) e ∙ end_flush-ready t.closed t,
          inflate-Stream compress inf i.stream
              ∙ written
              ∙ sym (append-nil i.sent_data)
              ∙ ap (λ x. i.sent_data ++ x) (sym (length-zero t.current none_left))
              ∙ i.data_eq,
        )
