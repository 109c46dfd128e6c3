-- ===== src/Pflate/Progress/Moves.antt =====
-- What each call of pflate/pflate.go leaves for the listener.
use arkive.Common.{
  ℕ, suc, ◌+◌, ◌*◌, ◌≡◌, refl, ap, ◌∙◌, ◌≢◌, ◌⊎◌, inl, inr, Bool, true, false, Option, none, some,
  List, ◌∷◌, ◌++◌, arith, Bytes, ltb, leb, Bool-cases, length, take,
}
use arkive.Common.Go.{Error}
use arkive.Pflate.{
  Job, Slot, Caller, Writer, start, begin_write, chunk_length, fill_with, fill, submit_job,
  submit_part, submit_all, submit, check, begin_flush, begin_close, end_flush, push_error, pending,
  compressed, no_value,
}
use arkive.Pflate.Steps.{compress_block}
use arkive.Pflate.Bounds.Runs.{length_replace, length_snoc}
use arkive.Pflate.Stream.Invariant.{at_rest}
use arkive.Pflate.Progress.{IsAlive, IsLast, IsLive}

pub keeps_error : (e : Error) (o : Option Error) → (x : Error) × (push_error e o ≡ some x)
unfolding push_error
keeps_error e none = (e, refl)
keeps_error e (some x) = (x, refl)

pub still-IsAlive :
    {s l : Bool} (e : Error) (o : Option Error) → IsAlive s l o → IsAlive s l (push_error e o)
still-IsAlive e o a h = inr (keeps_error e o)

pub moved :
    (z : Writer) (c : Caller) (n : ℕ) (shut : Bool)
    → IsLive z
    → IsLast c z.sent
    → (z.started ≡ false → at_rest c ≡ true)
    → IsLive (record z { caller = c; size = n; results_closed = shut })
moved z c n shut i l f = record {
  count = i.count;
  alive = i.alive;
  held = i.held;
  last = l;
  fresh = f;
}

pub started :
    (s closed : Bool) (z : Writer) (c : Caller)
    → z.started ≡ s
    → IsLive z
    → IsLast c z.sent
    → IsLive (record (start s (record z { closed = closed })) { caller = c })
unfolding start
started true closed z c h i l = record {
  count = i.count;
  alive = i.alive;
  held = i.held;
  last = l;
  fresh = λ e. absurd cc;
}
started false closed z c h i l = record {
  count = i.count;
  alive = λ e. inl refl;
  held = i.held;
  last = l;
  fresh = λ e. absurd cc;
}

pub begin_write-IsLive :
    (o : Option Error) (p : Bytes) (z : Writer) → IsLive z → IsLive (begin_write o p z)
unfolding begin_write
begin_write-IsLive (some e) p z i = moved z _ z.size z.results_closed i tt (λ s. refl)
begin_write-IsLive none p z i = started z.started z.closed z _ refl i tt

pub begin_flush-IsLive :
    (o : Option Error) (c : Bool) (z : Writer) → IsLive z → IsLive (begin_flush o c z)
unfolding begin_flush
begin_flush-IsLive (some e) c z i = moved z _ z.size z.results_closed i tt (λ s. refl)
begin_flush-IsLive none true z i = moved z _ z.size z.results_closed i tt (λ s. refl)
begin_flush-IsLive none false z i = started z.started z.closed z _ refl i tt

pub begin_close-IsLive :
    (o : Option Error) (c : Bool) (z : Writer) → IsLive z → IsLive (begin_close o c z)
unfolding begin_close
begin_close-IsLive (some e) c z i = moved z _ z.size z.results_closed i tt (λ s. refl)
begin_close-IsLive none true z i = moved z _ z.size z.results_closed i tt (λ s. refl)
begin_close-IsLive none false z i = started z.started true z _ refl i tt

pub end_flush-IsLive :
    (o : Option Error) (c : Bool) (z : Writer) → IsLive z → IsLive (end_flush o c z)
unfolding end_flush
end_flush-IsLive (some e) c z i = moved z _ z.size z.results_closed i tt (λ s. refl)
end_flush-IsLive none true z i = moved z _ z.size true i tt (λ s. refl)
end_flush-IsLive none false z i = moved z _ z.size z.results_closed i tt (λ s. refl)

pub check-IsLive :
    (o : Option Error) (total n : ℕ) (rest : Bytes) (z : Writer)
    → z.started ≢ false
    → IsLive z
    → IsLive (check o total n rest z)
unfolding check
check-IsLive (some e) total n rest z s i = moved z _ z.size z.results_closed i tt (λ _. refl)
check-IsLive none total n rest z s i =
    moved z _ (z.size + n) z.results_closed i tt (λ e. absurd (s e))

pub copied :
    (z : Writer) (c : Caller) (n : ℕ) (buffer tail : Bytes) (job : Job)
    → z.started ≢ false
    → IsLive z
    → IsLast c (suc z.sent)
    → IsLive (record (submit_job job z) { caller = c; prev_tail = tail; current = buffer })
unfolding submit_job
copied z c n buffer tail job s i l =
    let m = i.count in
    let k = length_snoc z.slots (record { job = job; answer = pending }) in
    record {
      count = omega (arith, m, k);
      alive = i.alive;
      held = λ r. omega (arith, k);
      last = l;
      fresh = λ e. absurd (s e);
    }

pub fill-IsLive :
    (total : ℕ) (q : Bytes) (z : Writer) → z.started ≢ false → IsLive z → IsLive (fill total q z)
unfolding fill fill_with
fill-IsLive total q z s i = elim (Bool-cases (ltb z.block_size (length z.current))) [
  | inl h ↦ rw (h) record {
    count = i.count;
    alive = i.alive;
    held = i.held;
    last = tt;
    fresh = λ e. absurd (s e);
  }
  | inr h ↦ elim (Bool-cases (leb z.block_size (length (z.current ++ take (chunk_length z q) q)))) [
    | inl k ↦
        rw (h, k)
          record {
            count = i.count;
            alive = i.alive;
            held = i.held;
            last = tt;
            fresh = λ e. absurd (s e);
          }
    | inr k ↦
        rw (h, k)
          record {
            count = i.count;
            alive = i.alive;
            held = i.held;
            last = tt;
            fresh = λ e. absurd (s e);
          }
  ]
]

pub submit-IsLive :
    (again next : Caller) (z : Writer)
    → z.started ≢ false
    → IsLast again (suc z.sent)
    → IsLast next (suc z.sent)
    → IsLive z
    → IsLive (submit again next z)
unfolding submit submit_part submit_all
submit-IsLive again next z s l m i = elim (Bool-cases (ltb (z.block_size * 2) (length z.current))) [
  | inl h ↦ rw (h) (copied z again z.size _ _ _ s i l)
  | inr h ↦ rw (h) (copied z next z.size _ _ _ s i m)
]

pub compress_block-IsLive :
    (r : Error ⊎ Bytes) (before : List Slot) (job : Job) (behind : List Slot) (z : Writer)
    → z.slots ≡ before ++ (record { job = job; answer = pending }) ∷ behind
    → IsLive z
    → IsLive (compress_block r before job behind z)
unfolding compress_block
compress_block-IsLive (inr b) before job behind z h i =
    let m = i.count in
    let k =
      ap length h ∙ length_replace before _ (record { job = job; answer = compressed b }) behind in
    record {
      count = omega (arith, m, k);
      alive = i.alive;
      held = λ r. let p = i.held r in omega (arith, p, k);
      last = i.last;
      fresh = i.fresh;
    }
compress_block-IsLive (inl e) before job behind z h i =
    let m = i.count in
    let k =
      ap length h ∙ length_replace before _ (record { job = job; answer = no_value }) behind in
    record {
      count = omega (arith, m, k);
      alive = still-IsAlive {s = z.started} {l = z.listening} e z.error i.alive;
      held = λ r. let p = i.held r in omega (arith, p, k);
      last = i.last;
      fresh = i.fresh;
    }
