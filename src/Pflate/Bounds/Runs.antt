-- ===== src/Pflate/Bounds/Runs.antt =====
-- Every step of pflate/pflate.go keeps the sizes, so every interleaving does.
use arkive.Common.{
  ℕ, suc, ◌-◌, ◌*◌, ◌≤◌, ◌<◌, ◌≡◌, refl, ap, subst, ◌∙◌, ◌⊎◌, inl, inr, Bool, true, false, ◌&&◌,
  Option, none, some, List, [], ◌∷◌, ◌++◌, arith, Bytes, ltb, leb, ◌==◌, Bool-cases, length, All,
}
use arkive.Common.Go.{Error, ok}
use arkive.Pflate.{
  tail_size, default_block_size, default_blocks, Job, Slot, Caller, Writer, init, new_writer,
  set_concurrency, submit_job, submit_all, submit, push_error, queued, pending, ready, filling,
  sending, checking, flushing, awaiting, crashed,
}
use arkive.Pflate.Steps.{
  receive, written, write_failed, compress_block, Compress, run_job, Internal, Step, Run, receives,
  compresses, writes, fails, internal, write, fills, returns, sends, gives_up, panics, checks,
  flush, close, sends_last, gives_up_last, wakes, here, later,
}
use arkive.Pflate.Bounds.{
  HasRoom, IsBounded, at_place, moved, begin_write-IsBounded, begin_flush-IsBounded,
  begin_close-IsBounded, end_flush-IsBounded, check-IsBounded, fill-IsBounded,
}

module _ {ℓ} {A : Type ℓ} where
  pub All-replace {κ} :
      (P : A → Type κ) (xs : List A) {a b : A} (ys : List A)
      → (P a → P b)
      → All P (xs ++ a ∷ ys)
      → All P (xs ++ b ∷ ys)
  All-replace P [] ys k (p, ps) = (k p, ps)
  All-replace P (x ∷ xs) ys k (p, ps) = (p, All-replace P xs ys k ps)

  pub All-snoc {κ} : (P : A → Type κ) (xs : List A) {a : A} → All P xs → P a → All P (xs ++ a ∷ [])
  All-snoc P [] ps p = (p, tt)
  All-snoc P (x ∷ xs) (q, ps) p = (q, All-snoc P xs ps p)

  pub length_replace :
      (xs : List A) (a b : A) (ys : List A) → length (xs ++ a ∷ ys) ≡ length (xs ++ b ∷ ys)
  length_replace [] a b ys = refl
  length_replace (x ∷ xs) a b ys = ap suc (length_replace xs a b ys)

  pub length_snoc : (xs : List A) (a : A) → length (xs ++ a ∷ []) ≡ suc (length xs)
  length_snoc [] a = refl
  length_snoc (x ∷ xs) a = ap suc (length_snoc xs a)

queued-length : (r : Bool) (xs ys : List Slot) → length xs ≡ length ys → queued r xs ≡ queued r ys
unfolding queued
queued-length true xs ys h = ap (λ n. n - 1) h
queued-length false xs ys h = h

queued_snoc :
    (r : Bool) (xs : List Slot) (a : Slot) (n : ℕ) → queued r xs < n → queued r (xs ++ a ∷ []) ≤ n
unfolding queued
queued_snoc true xs a n h = omega (arith, length_snoc xs a)
queued_snoc false xs a n h = omega (arith, length_snoc xs a)

submit-IsBounded :
    (again next : Caller) (z : Writer)
    → IsBounded z
    → queued z.received z.slots < z.blocks
    → HasRoom next 0 z.block_size z.error z.results_closed
    → IsBounded (submit again next z)
unfolding submit submit_all submit_job
submit-IsBounded again next z b q place =
    let buffer = b.buffer in
    let k : ltb (z.block_size * 2) (length z.current) ≡ false = ground arith in
    rw (k) record {
      positive = b.positive;
      buffer = omega arith;
      queue = queued_snoc z.received _ _ _ q;
      jobs = All-snoc _ _ b.jobs buffer;
      place = place;
    }

-- An error that is pushed takes no room away.
HasRoom-push_error :
    (c : Caller) (e : Error) (o : Option Error) (used size : ℕ) (closed : Bool)
    → HasRoom c used size o closed
    → HasRoom c used size (push_error e o) closed
unfolding push_error
HasRoom-push_error (ready n x) e none used size closed h = λ k. cc
HasRoom-push_error (ready n x) e (some f) used size closed h = h
HasRoom-push_error (filling total q) e o used size closed h = h
HasRoom-push_error (sending total n rest) e o used size closed h = h
HasRoom-push_error (checking total n rest) e none used size closed h = λ k. cc
HasRoom-push_error (checking total n rest) e (some f) used size closed h = h
HasRoom-push_error flushing e none used size closed h = λ k. cc
HasRoom-push_error flushing e (some f) used size closed h = h
HasRoom-push_error (awaiting n) e o used size closed h = h
HasRoom-push_error crashed e o used size closed h = h

compress_block-IsBounded :
    (r : Error ⊎ Bytes) (before : List Slot) (job : Job) (behind : List Slot) (z : Writer)
    → z.slots ≡ before ++ (record { job = job; answer = pending }) ∷ behind
    → IsBounded z
    → IsBounded (compress_block r before job behind z)
unfolding compress_block
compress_block-IsBounded (inr out) before job behind z h b = record {
  positive = b.positive;
  buffer = b.buffer;
  queue =
      subst (λ n. n ≤ z.blocks)
        (queued-length z.received _ _ (ap length h ∙ length_replace before _ _ behind)) b.queue;
  jobs = All-replace _ before behind (λ p. p) (subst (All _) h b.jobs);
  place = b.place;
}
compress_block-IsBounded (inl e) before job behind z h b = record {
  positive = b.positive;
  buffer = b.buffer;
  queue =
      subst (λ n. n ≤ z.blocks)
        (queued-length z.received _ _ (ap length h ∙ length_replace before _ _ behind)) b.queue;
  jobs = All-replace _ before behind (λ p. p) (subst (All _) h b.jobs);
  place = HasRoom-push_error z.caller e z.error _ _ _ b.place;
}

module _ (compress : Compress) where
  Internal-IsBounded : {z t : Writer} → Internal compress z t → IsBounded z → IsBounded t
  unfolding receive written write_failed queued
  Internal-IsBounded {z = z} (receives slot rest l r h) b =
      let q : queued false z.slots ≤ z.blocks =
        subst (λ r. queued r z.slots ≤ z.blocks) r b.queue in
      record {
        positive = b.positive;
        buffer = b.buffer;
        queue = omega (arith, q);
        jobs = b.jobs;
        place = b.place;
      }
  Internal-IsBounded {z = z} (compresses before job behind h) b =
      compress_block-IsBounded (run_job compress job) before job behind z h b
  Internal-IsBounded {z = z} (writes slot rest out r h v) b =
      let q : queued true z.slots ≤ z.blocks = subst (λ r. queued r z.slots ≤ z.blocks) r b.queue in
      let l = ap length h in
      record {
        positive = b.positive;
        buffer = b.buffer;
        queue = omega (arith, q, l);
        jobs = (subst (All _) h b.jobs).1;
        place = b.place;
      }
  Internal-IsBounded {z = z} (fails slot rest out n e r h v) b =
      let q : queued true z.slots ≤ z.blocks = subst (λ r. queued r z.slots ≤ z.blocks) r b.queue in
      let l = ap length h in
      record {
        positive = b.positive;
        buffer = b.buffer;
        queue = omega (arith, q, l);
        jobs = (subst (All _) h b.jobs).1;
        place = HasRoom-push_error z.caller e z.error _ _ _ b.place;
      }

  pub Step-IsBounded : {z t : Writer} {c : Bytes} → Step compress z c t → IsBounded z → IsBounded t
  Step-IsBounded {z = z} (internal i) b = Internal-IsBounded i b
  Step-IsBounded {z = z} (write n e p h) b =
      begin_write-IsBounded z.error p z refl b (at_place z _ h b)
  Step-IsBounded {z = z} (fills total c q h) b = fill-IsBounded total (c ∷ q) z b (at_place z _ h b)
  Step-IsBounded {z = z} (returns total h) b = moved z _ b (λ _. at_place z _ h b)
  Step-IsBounded {z = z} (sends total n rest h o q) b = submit-IsBounded _ _ z b q (λ _. b.positive)
  Step-IsBounded {z = z} (gives_up total n rest e h f) b = moved z _ b (λ n. cc)
  Step-IsBounded {z = z} (panics total n rest h o) b = moved z _ b o
  Step-IsBounded {z = z} (checks total n rest h) b =
      check-IsBounded z.error total n rest z refl b (at_place z _ h b)
  Step-IsBounded {z = z} (flush n e h) b =
      begin_flush-IsBounded z.error z.closed z refl b (at_place z _ h b)
  Step-IsBounded {z = z} (close n e h) b =
      begin_close-IsBounded z.error z.closed z refl b (at_place z _ h b)
  Step-IsBounded {z = z} (sends_last h o q) b = submit-IsBounded _ _ z b q refl
  Step-IsBounded {z = z} (gives_up_last e h f) b =
      end_flush-IsBounded z.error z.closed z refl b (at_place z _ h b)
  Step-IsBounded {z = z} (wakes n h lt) b =
      let empty = at_place z _ h b in
      let positive = b.positive in
      end_flush-IsBounded z.error z.closed z refl b (λ _. omega (arith, empty, positive))

  pub Run-IsBounded : {z t : Writer} {d : Bytes} → Run compress z d t → IsBounded z → IsBounded t
  Run-IsBounded here b = b
  Run-IsBounded (later r s) b = Step-IsBounded s (Run-IsBounded r b)

init-IsBounded : (size blocks : ℕ) → 0 < size → IsBounded (init size blocks)
unfolding init queued
init-IsBounded size blocks h = record {
  positive = h;
  buffer = omega arith;
  queue = omega arith;
  jobs = tt;
  place = λ _. h;
}

-- Sizes that `SetConcurrency` accepts give the writer that has them.
pub set_concurrency-init :
    (size blocks : ℕ) (z : Writer)
    → set_concurrency size blocks new_writer ≡ ok z
    → (0 < size) × (0 < blocks) × (init size blocks ≡ z)
unfolding set_concurrency new_writer init tail_size default_block_size default_blocks
set_concurrency-init size blocks z = elim (Bool-cases (leb size tail_size)) [
  | inl h ↦ rw (h) (λ e. absurd cc)
  | inr h ↦ elim (Bool-cases (leb blocks 0)) [
    | inl k ↦ rw (h, k) (λ e. absurd cc)
    | inr k ↦
        let large : 0 < size = ground arith in
        let many : 0 < blocks = ground arith in
        elim (Bool-cases ((size == default_block_size) && (blocks == default_blocks))) [
          | inl m ↦
              rw (h, k, m)
                (λ e.
                  let p : init default_block_size default_blocks ≡ z = cc in
                  let q : size ≡ default_block_size = ground arith in
                  let r : blocks ≡ default_blocks = ground arith in
                  (large, many, ap (λ s. init s blocks) q ∙ ap (init default_block_size) r ∙ p))
          | inr m ↦ rw (h, k, m) (λ e. let p : init size blocks ≡ z = cc in (large, many, p))
        ]
  ]
]

-- A writer whose sizes `SetConcurrency` accepted is within its bounds.
pub set_concurrency-IsBounded :
    (size blocks : ℕ) (z : Writer) → set_concurrency size blocks new_writer ≡ ok z → IsBounded z
set_concurrency-IsBounded size blocks z e =
    let (large, many, p) = set_concurrency-init size blocks z e in
    subst IsBounded p (init-IsBounded size blocks large)

module _ (compress : Compress) where
  -- In every interleaving, from a writer whose sizes were accepted: the buffer has at most a block,
  -- so `compressCurrent` never has to split it, the channel holds at most `blocks` results, no block
  -- in flight is longer than the block size, and the writer has panicked only if it was closed.
  pub Run-sizes :
      (size blocks : ℕ) {z t : Writer} {d : Bytes}
      → set_concurrency size blocks new_writer ≡ ok z
      → Run compress z d t
      → (length t.current ≤ t.block_size)
        × (queued t.received t.slots ≤ t.blocks)
        × All (λ slot. length slot.job.block ≤ t.block_size) t.slots
        × (t.caller ≡ crashed → t.results_closed ≡ true)
  Run-sizes size blocks {z = z} {t = t} c r =
      let b = Run-IsBounded compress r (set_concurrency-IsBounded size blocks z c) in
      (b.buffer, b.queue, b.jobs, λ h. at_place t crashed h b)
