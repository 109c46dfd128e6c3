-- ===== src/Pflate/Stream/Moves.antt =====
-- What each call and each goroutine of pflate/pflate.go does to the stream.
use arkive.Common.{
  ℕ, suc, ◌+◌, ◌*◌, ◌<◌, ◌≡◌, refl, sym, ap, subst, ◌∙◌, ◌≢◌, ◌⊎◌, inl, inr, Bool, true, false,
  Option, none, some, List, ◌∷◌, ◌++◌, arith, Bytes, ltb, leb, Bool-cases, length, take,
}
use arkive.Common.Go.{Error}
use arkive.Pflate.{
  Job, Answer, Slot, Caller, Writer, begin_write, chunk_length, chunk, fill_with, fill, submit,
  check, begin_flush, begin_close, end_flush, push_error, pending, compressed, no_value,
}
use arkive.Pflate.Steps.{value_of, written, compress_block, Compress, run_job}
use arkive.Pflate.Bounds.{IsBounded}
use arkive.Pflate.Bounds.Runs.{length_replace}
use arkive.Pflate.Stream.{Stream, IsAnswer, Chain, Chain-answer, block}
use arkive.Pflate.Stream.Invariant.{
  IsPhase, at_rest, busy, IsStreaming, IsStreaming-moved, IsStreaming-start, IsStreaming-submit_all,
  IsStreaming-copied,
}

pub push_error-ne-none : (e : Error) (o : Option Error) → push_error e o ≢ none
unfolding push_error
push_error-ne-none e none h = cc
push_error-ne-none e (some f) h = cc

module _ (compress : Compress) where
  pub answer-run :
      (job : Job) (a : Answer) (b : Bytes)
      → value_of a ≡ some b
      → IsAnswer compress job a
      → run_job compress job ≡ inr b
  unfolding value_of
  answer-run job pending b v h = cc
  answer-run job (compressed x) b v h = cc
  answer-run job no_value b v h = absurd h

  module _ {d : Bytes} (z : Writer) (i : IsStreaming compress d z) where
    pub begin_write-IsStreaming :
        (o : Option Error) (p : Bytes)
        → o ≡ none
        → (z.results_closed ≡ z.closed) × (i.final ≡ z.closed)
        → IsStreaming compress d (begin_write o p z)
    unfolding begin_write
    begin_write-IsStreaming (some e) p n h = absurd cc
    begin_write-IsStreaming none p n h = IsStreaming-start compress z i z.started z.closed _ refl h

    pub begin_flush-IsStreaming :
        (o : Option Error) (closed : Bool)
        → z.closed ≡ closed
        → o ≡ none
        → (z.results_closed ≡ z.closed) × (i.final ≡ z.closed)
        → IsStreaming compress d (begin_flush o closed z)
    unfolding begin_flush
    begin_flush-IsStreaming (some e) closed c n h = absurd cc
    begin_flush-IsStreaming none true c n h = IsStreaming-moved compress z i _ z.size h (λ s. refl)
    begin_flush-IsStreaming none false c n (p, q) =
        IsStreaming-start compress z i z.started z.closed _ refl (p ∙ c, q ∙ c)

    pub begin_close-IsStreaming :
        (o : Option Error) (closed : Bool)
        → z.closed ≡ closed
        → o ≡ none
        → (z.results_closed ≡ z.closed) × (i.final ≡ z.closed)
        → IsStreaming compress d (begin_close o closed z)
    unfolding begin_close
    begin_close-IsStreaming (some e) closed c n h = absurd cc
    begin_close-IsStreaming none true c n h = IsStreaming-moved compress z i _ z.size h (λ s. refl)
    begin_close-IsStreaming none false c n (p, q) =
        IsStreaming-start compress z i z.started true _ refl (p ∙ c, q ∙ c)

    pub end_flush-IsStreaming :
        (o : Option Error) (closed : Bool)
        → z.closed ≡ closed
        → o ≡ none
        → (z.results_closed ≡ false) × (i.final ≡ z.closed)
        → z.started ≢ false
        → IsStreaming compress d (end_flush o closed z)
    unfolding end_flush
    end_flush-IsStreaming (some e) closed c n h s = absurd cc
    end_flush-IsStreaming none false c n (p, q) s =
        IsStreaming-moved compress z i _ z.size (p ∙ sym c, q) (λ s. refl)
    end_flush-IsStreaming none true c n (p, q) s = record {
      written_data = i.written_data;
      ended = i.ended;
      sent_data = i.sent_data;
      final = i.final;
      stream = i.stream;
      chain = i.chain;
      data_eq = i.data_eq;
      dict = i.dict;
      count = i.count;
      phase = (sym c, q);
      fresh = λ e. absurd (s e);
    }

    pub check-IsStreaming :
        (o : Option Error) (total n : ℕ) (rest : Bytes)
        → o ≡ none
        → (z.results_closed ≡ z.closed) × (i.final ≡ z.closed)
        → z.started ≢ false
        → IsStreaming compress d (check o total n rest z)
    unfolding check
    check-IsStreaming (some e) total n rest m h s = absurd cc
    check-IsStreaming none total n rest m h s =
        IsStreaming-moved compress z i _ (z.size + n) h (λ e. absurd (s e))

    pub fill-IsStreaming :
        (total : ℕ) (q : Bytes)
        → length z.current < z.block_size
        → (z.results_closed ≡ z.closed) × (i.final ≡ z.closed)
        → z.started ≢ false
        → IsStreaming compress (d ++ chunk z q) (fill total q z)
    unfolding fill fill_with chunk
    fill-IsStreaming total q lt h s =
        let k : ltb z.block_size (length z.current) ≡ false = ground arith in
        let p : Bytes = take (chunk_length z q) q in
        elim (Bool-cases (leb z.block_size (length (z.current ++ p)))) [
          | inl m ↦ rw (k, m) (IsStreaming-copied compress z i p _ z.size s h)
          | inr m ↦ rw (k, m) (IsStreaming-copied compress z i p _ _ s h)
        ]

    pub submit-IsStreaming :
        (again next : Caller)
        → IsBounded z
        → i.final ≡ false
        → z.started ≢ false
        → IsPhase next z.closed z.results_closed z.closed (suc z.sent)
        → IsStreaming compress d (submit again next z)
    unfolding submit
    submit-IsStreaming again next b f s p =
        let buffer = b.buffer in
        let positive = b.positive in
        let k : ltb (z.block_size * 2) (length z.current) ≡ false = ground arith in
        rw (k) (IsStreaming-submit_all compress z i next f s p)

    pub written-IsStreaming :
        (slot : Slot) (rest : List Slot) (b : Bytes)
        → z.slots ≡ slot ∷ rest
        → value_of slot.answer ≡ some b
        → IsStreaming compress d (written b rest z)
    unfolding written
    written-IsStreaming slot rest b h v =
        let (e, suf, a, c) =
          subst (λ s. Chain compress i.ended i.written_data s i.final i.sent_data) h i.chain in
        let l = ap length h in
        let n = i.count in
        let st = subst (λ e. Stream compress e i.written_data z.out) e i.stream in
        record {
          written_data = i.written_data ++ slot.job.block;
          ended = slot.job.final;
          sent_data = i.sent_data;
          final = i.final;
          stream = block slot.job st suf (answer-run slot.job slot.answer b v a);
          chain = c;
          data_eq = i.data_eq;
          dict = i.dict;
          count = omega (arith, n, l);
          phase = i.phase;
          fresh = i.fresh;
        }

    pub compress_block-IsStreaming :
        (r : Error ⊎ Bytes) (before : List Slot) (job : Job) (behind : List Slot)
        → z.slots ≡ before ++ (record { job = job; answer = pending }) ∷ behind
        → run_job compress job ≡ r
        → (compress_block r before job behind z).error ≡ none
        → IsStreaming compress d (compress_block r before job behind z)
    unfolding compress_block
    compress_block-IsStreaming (inl e) before job behind h r n =
        absurd (push_error-ne-none e z.error n)
    compress_block-IsStreaming (inr b) before job behind h r n =
        let l =
          ap length h
          ∙ length_replace before _ (record { job = job; answer = compressed b }) behind in
        let m = i.count in
        let c =
          subst (λ s. Chain compress i.ended i.written_data s i.final i.sent_data) h i.chain in
        record {
          written_data = i.written_data;
          ended = i.ended;
          sent_data = i.sent_data;
          final = i.final;
          stream = i.stream;
          chain =
              Chain-answer compress i.ended i.written_data before job behind b i.final i.sent_data c
                r;
          data_eq = i.data_eq;
          dict = i.dict;
          count = omega (arith, m, l);
          phase = i.phase;
          fresh = i.fresh;
        }

    pub running : (c : Caller) → z.caller ≡ c → at_rest c ≡ false → z.started ≢ false
    running c h r s = busy z.caller c h r ((i.fresh s).1)
