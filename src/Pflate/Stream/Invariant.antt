-- ===== src/Pflate/Stream/Invariant.antt =====
-- What every step of pflate/pflate.go keeps of the data, as long as there is no error.
use arkive.Common.{
  ℕ, suc, ◌+◌, ◌-◌, ◌≡◌, sym, ap, subst, ◌∙◌, ◌≢◌, inl, inr, Bool, true, false, [], ◌++◌,
  append-nil, append_assoc, arith, Bytes, ltb, Bool-cases, length, take, take-append-drop,
}
use arkive.Pflate.{
  tail_size, Caller, Writer, start, tail_of, submit_job, submit_all, pending, ready, filling,
  sending, checking, flushing, awaiting, crashed,
}
use arkive.Pflate.Steps.{Compress}
use arkive.Pflate.Bounds.Runs.{length_snoc}
use arkive.Pflate.Stream.{IsSuffix, Stream, Chain, Chain-snoc}

-- The closing of the writer, of the channel and of the stream, where the caller is.
abbrev pub IsPhase : Caller → Bool → Bool → Bool → ℕ → Type 0
IsPhase flushing closed shut final sent = (shut ≡ false) × (final ≡ false)
IsPhase (awaiting n) closed shut final sent = (shut ≡ false) × (final ≡ closed) × (suc n ≡ sent)
IsPhase crashed closed shut final sent = Unit
IsPhase (ready n e) closed shut final sent = (shut ≡ closed) × (final ≡ closed)
IsPhase (filling total q) closed shut final sent = (shut ≡ closed) × (final ≡ closed)
IsPhase (sending total n q) closed shut final sent = (shut ≡ closed) × (final ≡ closed)
IsPhase (checking total n q) closed shut final sent = (shut ≡ closed) × (final ≡ closed)

abbrev pub at_rest : Caller → Bool
at_rest (ready n e) = true
at_rest (filling total q) = false
at_rest (sending total n q) = false
at_rest (checking total n q) = false
at_rest flushing = false
at_rest (awaiting n) = false
at_rest crashed = false

pub busy : {A : Type 0} (c c' : Caller) → c ≡ c' → at_rest c' ≡ false → at_rest c ≡ true → A
busy c c' h b r = absurd (false-ne-true (sym b ∙ ap at_rest (sym h) ∙ r))
  where
    false-ne-true : false ≢ true
    false-ne-true e = cc

-- The data `d` that was copied: written, sent, and in the buffer.
pub record IsStreaming (compress : Compress) (d : Bytes) (z : Writer) : Type 0 where
  pub written_data : Bytes
  pub ended : Bool
  pub sent_data : Bytes
  pub final : Bool
  pub stream : Stream compress ended written_data z.out
  pub chain : Chain compress ended written_data z.slots final sent_data
  pub data_eq : sent_data ++ z.current ≡ d
  pub dict : IsSuffix z.prev_tail sent_data
  pub count : z.sent ≡ z.notified + length z.slots
  pub phase : IsPhase z.caller z.closed z.results_closed final z.sent
  pub fresh : z.started ≡ false → (z.current ≡ []) × (at_rest z.caller ≡ true)

module _ (compress : Compress) {d : Bytes} (z : Writer) (i : IsStreaming compress d z) where
  pub IsPhase-at : (c : Caller) → z.caller ≡ c → IsPhase c z.closed z.results_closed i.final z.sent
  IsPhase-at c h = subst (λ c. IsPhase c z.closed z.results_closed i.final z.sent) h i.phase

  -- Only the caller moves.
  pub IsStreaming-moved :
      (c : Caller) (n : ℕ)
      → IsPhase c z.closed z.results_closed i.final z.sent
      → (z.started ≡ false → at_rest c ≡ true)
      → IsStreaming compress d (record z { size = n; caller = c })
  IsStreaming-moved c n p f = record {
    written_data = i.written_data;
    ended = i.ended;
    sent_data = i.sent_data;
    final = i.final;
    stream = i.stream;
    chain = i.chain;
    data_eq = i.data_eq;
    dict = i.dict;
    count = i.count;
    phase = p;
    fresh = λ s. ((i.fresh s).0, f s);
  }

  pub IsStreaming-start :
      (s closed : Bool) (c : Caller)
      → z.started ≡ s
      → IsPhase c closed z.results_closed i.final z.sent
      → IsStreaming compress d (record (start s (record z { closed = closed })) { caller = c })
  unfolding start
  IsStreaming-start true closed c h p = record {
    written_data = i.written_data;
    ended = i.ended;
    sent_data = i.sent_data;
    final = i.final;
    stream = i.stream;
    chain = i.chain;
    data_eq = i.data_eq;
    dict = i.dict;
    count = i.count;
    phase = p;
    fresh = λ e. absurd cc;
  }
  IsStreaming-start false closed c h p = record {
    written_data = i.written_data;
    ended = i.ended;
    sent_data = i.sent_data;
    final = i.final;
    stream = i.stream;
    chain = i.chain;
    data_eq = ap (λ x. i.sent_data ++ x) (sym ((i.fresh h).0)) ∙ i.data_eq;
    dict = i.dict;
    count = i.count;
    phase = p;
    fresh = λ e. absurd cc;
  }

  -- The buffer is sent.
  pub IsStreaming-submit_all :
      (next : Caller)
      → i.final ≡ false
      → z.started ≢ false
      → IsPhase next z.closed z.results_closed z.closed (suc z.sent)
      → IsStreaming compress d (submit_all next z)
  unfolding submit_all submit_job tail_of
  IsStreaming-submit_all next f s p = record {
    written_data = i.written_data;
    ended = i.ended;
    sent_data = i.sent_data ++ z.current;
    final = z.closed;
    stream = i.stream;
    chain =
        Chain-snoc compress i.ended i.written_data z.slots i.sent_data _
          (subst (λ f. Chain compress i.ended i.written_data z.slots f i.sent_data) f i.chain)
          i.dict;
    data_eq = append-nil _ ∙ i.data_eq;
    dict = elim (Bool-cases (ltb tail_size (length z.current))) [
      | inl h ↦ rw (h) (
        i.sent_data ++ take (length z.current - tail_size) z.current,
        ap (λ x. i.sent_data ++ x) (sym (take-append-drop (length z.current - tail_size) z.current))
            ∙ sym (append_assoc i.sent_data _ _),
      )
      | inr h ↦ rw (h) (i.sent_data ++ z.current, sym (append-nil _))
    ];
    count =
        let c = i.count in
        let l = length_snoc z.slots (record {
          job = record { block = z.current; dict = z.prev_tail; final = z.closed };
          answer = pending;
        }) in
        omega (arith, c, l);
    phase = p;
    fresh = λ e. absurd (s e);
  }

  -- Bytes are copied into the buffer.
  pub IsStreaming-copied :
      (q : Bytes) (c : Caller) (n : ℕ)
      → z.started ≢ false
      → IsPhase c z.closed z.results_closed i.final z.sent
      → IsStreaming compress (d ++ q) (record z { current = z.current ++ q; size = n; caller = c })
  IsStreaming-copied q c n s p = record {
    written_data = i.written_data;
    ended = i.ended;
    sent_data = i.sent_data;
    final = i.final;
    stream = i.stream;
    chain = i.chain;
    data_eq = sym (append_assoc i.sent_data z.current q) ∙ ap (λ x. x ++ q) i.data_eq;
    dict = i.dict;
    count = i.count;
    phase = p;
    fresh = λ e. absurd (s e);
  }
