-- ===== src/Pflate/Progress/Hangs.antt =====
-- Where the listener of pflate/pflate.go has stopped, a call that waits for a later slot waits for
-- ever.
use arkive.Common.{ℕ, ◌≤◌, ◌<◌, ◌≡◌, refl, ◌∙◌, ◌⊎◌, inl, inr, false, List, arith, Bytes}
use arkive.Common.Go.{Error}
use arkive.Pflate.{Job, Slot, Writer, awaiting}
use arkive.Pflate.Steps.{
  write_failed, compress_block, Compress, run_job, Internal, Step, Run, receives, compresses,
  writes, fails, internal, write, fills, returns, sends, gives_up, panics, checks, flush, close,
  sends_last, gives_up_last, wakes, here, later,
}

compress_block-keeps :
    (r : Error ⊎ Bytes) (before : List Slot) (job : Job) (behind : List Slot) (z : Writer)
    → let t = compress_block r before job behind z in
      (t.listening ≡ z.listening)
      × (t.received ≡ z.received)
      × (t.caller ≡ z.caller)
      × (t.notified ≡ z.notified)
unfolding compress_block
compress_block-keeps (inr b) before job behind z = (refl, refl, refl, refl)
compress_block-keeps (inl e) before job behind z = (refl, refl, refl, refl)

-- The caller waits for slot `n`, and nobody is left to wake it.
abbrev pub IsHung : ℕ → Writer → Type 0
IsHung n z =
    (z.listening ≡ false) × (z.received ≡ false) × (z.caller ≡ awaiting n) × (z.notified ≤ n)

module _ (compress : Compress) where
  Internal-IsHung : {z t : Writer} (n : ℕ) → Internal compress z t → IsHung n z → IsHung n t
  Internal-IsHung n (receives slot rest l r h) (p, q, a, k) = absurd cc
  Internal-IsHung {z = z} n (compresses before job behind h) (p, q, a, k) =
      let (p', q', a', k') = compress_block-keeps (run_job compress job) before job behind z in
      (p' ∙ p, q' ∙ q, a' ∙ a, omega (arith, k', k))
  Internal-IsHung n (writes slot rest b r h v) (p, q, a, k) = absurd cc
  Internal-IsHung n (fails slot rest b m e r h v) (p, q, a, k) = absurd cc

  Step-IsHung : {z t : Writer} {c : Bytes} (n : ℕ) → Step compress z c t → IsHung n z → IsHung n t
  Step-IsHung n (internal s) hung = Internal-IsHung n s hung
  Step-IsHung n (write m x b h) (p, q, a, k) = absurd cc
  Step-IsHung n (fills total c b h) (p, q, a, k) = absurd cc
  Step-IsHung n (returns total h) (p, q, a, k) = absurd cc
  Step-IsHung n (sends total m rest h o l) (p, q, a, k) = absurd cc
  Step-IsHung n (gives_up total m rest x h f) (p, q, a, k) = absurd cc
  Step-IsHung n (panics total m rest h o) (p, q, a, k) = absurd cc
  Step-IsHung n (checks total m rest h) (p, q, a, k) = absurd cc
  Step-IsHung n (flush m x h) (p, q, a, k) = absurd cc
  Step-IsHung n (close m x h) (p, q, a, k) = absurd cc
  Step-IsHung n (sends_last h o l) (p, q, a, k) = absurd cc
  Step-IsHung n (gives_up_last x h f) (p, q, a, k) = absurd cc
  Step-IsHung n (wakes m h lt) (p, q, a, k) =
      let same : m ≡ n = cc in absurd (omega (arith, same, lt, k))

  Run-IsHung : {z t : Writer} {d : Bytes} (n : ℕ) → IsHung n z → Run compress z d t → IsHung n t
  Run-IsHung n hung here = hung
  Run-IsHung n hung (later r s) = Step-IsHung n s (Run-IsHung n hung r)

  -- Where Flush or Close waits for slot `n` and the device fails at an earlier slot, the call never
  -- returns: whatever steps follow, the caller still waits and its slot is not notified.
  pub write_failed-hangs :
      (z : Writer) {t : Writer} {d : Bytes} (n : ℕ) (e : Error) (m : ℕ) (b : Bytes)
      (rest : List Slot)
      → z.caller ≡ awaiting n
      → z.notified < n
      → Run compress (write_failed e m b rest z) d t
      → (t.caller ≡ awaiting n) × (t.notified ≤ n)
  unfolding write_failed
  write_failed-hangs z n e m b rest a lt r =
      let (p, q, a', k) = Run-IsHung n (refl, refl, a, omega (arith, lt)) r in (a', k)
