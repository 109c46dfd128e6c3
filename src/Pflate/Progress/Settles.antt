-- ===== src/Pflate/Progress/Settles.antt =====
-- A call of Flush or Close does not wait for ever, unless the listener stops at an error.
use arkive.Common.{
  ℕ, zero, suc, ◌+◌, ◌≤◌, ◌<◌, ◌≡◌, refl, sym, ap, subst, ◌∙◌, ◌⊎◌, inl, inr, Bool, true, false,
  some, List, [], ◌∷◌, ◌++◌, arith, Bytes, ltb, Bool-cases, length,
}
use arkive.Common.Go.{Error, ok}
use arkive.Pflate.Progress.Runs.{Internal-IsLive, Run-IsLive}
use arkive.Pflate.{
  Job, Answer, Slot, Writer, init, new_writer, set_concurrency, pending, compressed, no_value,
  awaiting,
}
use arkive.Pflate.Steps.{
  value_of, receive, written, write_failed, compress_block, Compress, run_job, Internal, Run,
  receives, compresses, writes, fails,
}
use arkive.Pflate.Bounds.Runs.{set_concurrency-init}
use arkive.Pflate.Stream.Invariant.{busy}
use arkive.Pflate.Progress.{IsLast, IsLive}

pending_one : Answer → ℕ
pending_one pending = 1
pending_one (compressed b) = 0
pending_one no_value = 0

-- What is left to do for the slots.
pub work : List Slot → ℕ
unfolding pending_one
work [] = 0
work (slot ∷ slots) = 3 + pending_one slot.answer + work slots

module _ (compress : Compress) where
  -- Whatever the goroutines do, and in whatever order, they come to a state where the call that
  -- waits for slot `n` is woken, or where the listener has stopped and an error is set.
  pub data Settles (n : ℕ) : Writer → Type 0 where
    woken : {z : Writer} → n < z.notified → Settles n z
    stopped : {z : Writer} (e : Error) → z.error ≡ some e → z.listening ≡ false → Settles n z
    goes_on :
        {z : Writer} (t : Writer)
        → Internal compress z t
        → ((u : Writer) → Internal compress z u → Settles n u)
        → Settles n z

  left : Bool → List Slot → ℕ
  left true slots = work slots
  left false slots = suc (work slots)

  work-answered :
      (before : List Slot) (job : Job) (a : Answer) (behind : List Slot)
      → pending_one a ≡ 0
      → work (before ++ (record { job = job; answer = a }) ∷ behind)
        < work (before ++ (record { job = job; answer = pending }) ∷ behind)
  unfolding work pending_one
  work-answered [] job a behind h = omega (arith, h)
  work-answered (slot ∷ before) job a behind h = omega (arith, work-answered before job a behind h)

  left-answered : (r : Bool) (xs ys : List Slot) → work xs < work ys → left r xs < left r ys
  unfolding left
  left-answered true xs ys h = h
  left-answered false xs ys h = omega (arith, h)

  left-bounds : (r : Bool) (xs : List Slot) → (work xs ≤ left r xs) × (left r xs ≤ suc (work xs))
  unfolding left
  left-bounds true xs = (omega arith, omega arith)
  left-bounds false xs = (omega arith, omega arith)

  compress_block-left :
      (r : Error ⊎ Bytes) (before : List Slot) (job : Job) (behind : List Slot) (z : Writer)
      → z.slots ≡ before ++ (record { job = job; answer = pending }) ∷ behind
      → let t = compress_block r before job behind z in
        (left t.received t.slots < left z.received z.slots)
        × (t.sent ≡ z.sent)
        × (t.started ≡ z.started)
  unfolding compress_block pending_one
  compress_block-left (inr b) before job behind z h = (
    subst
        (λ s.
          left z.received (before ++ (record { job = job; answer = compressed b }) ∷ behind)
          < left z.received s)
        (sym h)
        (left-answered z.received _ _ (work-answered before job (compressed b) behind refl)),
    refl,
    refl,
  )
  compress_block-left (inl e) before job behind z h = (
    subst
        (λ s.
          left z.received (before ++ (record { job = job; answer = no_value }) ∷ behind)
          < left z.received s)
        (sym h) (left-answered z.received _ _ (work-answered before job no_value behind refl)),
    refl,
    refl,
  )

  -- Each step of the goroutines leaves less to do, and sends nothing.
  Internal-left :
      {z t : Writer}
      → Internal compress z t
      → (left t.received t.slots < left z.received z.slots)
        × (t.sent ≡ z.sent)
        × (t.started ≡ z.started)
  unfolding receive written write_failed left work
  Internal-left {z = z} (receives slot rest l r h) =
      (subst (λ b. work z.slots < left b z.slots) (sym r) (omega arith), refl, refl)
  Internal-left {z = z} (compresses before job behind h) =
      compress_block-left (run_job compress job) before job behind z h
  Internal-left {z = z} (writes slot rest b r h v) =
      let p = (left-bounds z.received z.slots).0 in
      let q = ap work h in (omega (arith, p, q), refl, refl)
  Internal-left {z = z} (fails slot rest b n e r h v) =
      let p = (left-bounds z.received z.slots).0 in
      let q = ap work h in (omega (arith, p, q), refl, refl)

  first_slot : (xs : List Slot) → 0 < length xs → (x : Slot) × (rest : List Slot) × (xs ≡ x ∷ rest)
  first_slot [] h = absurd (omega arith)
  first_slot (x ∷ xs) h = (x, xs, refl)

  value_or_pending : (a : Answer) → (a ≡ pending) ⊎ ((b : Bytes) × (value_of a ≡ some b))
  unfolding value_of
  value_or_pending pending = inl refl
  value_or_pending (compressed b) = inr (b, refl)
  value_or_pending no_value = inr ([], refl)

  -- While the listener runs and a slot is left, a goroutine can go on.
  enabled :
      (z : Writer) → z.listening ≡ true → 0 < length z.slots → (t : Writer) × Internal compress z t
  enabled z l p =
      let (slot, rest, h) = first_slot z.slots p in
      elim (Bool-cases z.received) [
        | inl r ↦ elim (value_or_pending slot.answer) [
          | inl w ↦ (
            _,
            compresses [] slot.job rest
                (h ∙ ap (λ a. (record { job = slot.job; answer = a }) ∷ rest) w),
          )
          | inr (b, v) ↦ (_, writes slot rest b r h v)
        ]
        | inr r ↦ (_, receives slot rest l r h)
      ]

  settles :
      (fuel n : ℕ) (z : Writer)
      → left z.received z.slots < fuel
      → suc n ≡ z.sent
      → z.started ≡ true
      → IsLive z
      → Settles n z
  settles zero n z h k s i = absurd (omega arith)
  settles (suc fuel) n z h k s i = elim (Bool-cases (ltb n z.notified)) [
    | inl lt ↦ woken (ground arith)
    | inr ge ↦
        let le : z.notified ≤ n = ground arith in
        let c = i.count in
        elim (Bool-cases z.listening) [
          | inl l ↦
              let (t, step) = enabled z l (omega (arith, c, k, le)) in
              goes_on t step (λ u st.
                let (less, p, q) = Internal-left st in
                settles fuel n u (omega (arith, less, h)) (k ∙ sym p) (q ∙ s)
                  (Internal-IsLive compress st i))
          | inr l ↦ elim (i.alive s) [ inl m ↦ absurd cc | inr (e, f) ↦ stopped e f l ]
        ]
  ]

  init-IsLive : (size blocks : ℕ) → IsLive (init size blocks)
  unfolding init
  init-IsLive size blocks = record {
    count = omega arith;
    alive = λ s. absurd cc;
    held = λ r. absurd cc;
    last = tt;
    fresh = λ s. refl;
  }

  -- Flush and Close return: in whatever state they wait for slot `n`, and whatever order the
  -- goroutines run in, the wait ends after finitely many of their steps, or the listener has
  -- stopped and an error is set.
  pub Settles-Run :
      (size blocks n : ℕ) {z t : Writer} {d : Bytes}
      → set_concurrency size blocks new_writer ≡ ok z
      → Run compress z d t
      → t.caller ≡ awaiting n
      → Settles n t
  Settles-Run size blocks n {z = z} {t = t} c r a =
      let (large, many, p) = set_concurrency-init size blocks z c in
      let i = Run-IsLive compress r (subst IsLive p (init-IsLive size blocks)) in
      settles _ n t (self _) (subst (λ c. IsLast c t.sent) a i.last)
        (elim (Bool-cases t.started) [ inl s ↦ s | inr s ↦ busy t.caller _ a refl (i.fresh s) ]) i
    where
      self : (n : ℕ) → n < suc n
      self n = omega arith
