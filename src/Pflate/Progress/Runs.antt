-- ===== src/Pflate/Progress/Runs.antt =====
-- Every step of pflate/pflate.go keeps what a waiting call counts on.
use arkive.Common.{refl, ap, inr, ◌∷◌, arith, Bytes, length}
use arkive.Pflate.{Writer}
use arkive.Pflate.Steps.{
  receive, written, write_failed, Compress, run_job, Internal, Step, Run, receives, compresses,
  writes, fails, internal, write, fills, returns, sends, gives_up, panics, checks, flush, close,
  sends_last, gives_up_last, wakes, here, later,
}
use arkive.Pflate.Stream.Invariant.{busy}
use arkive.Pflate.Progress.{IsLive}
use arkive.Pflate.Progress.Moves.{
  keeps_error, moved, begin_write-IsLive, begin_flush-IsLive, begin_close-IsLive, end_flush-IsLive,
  check-IsLive, fill-IsLive, submit-IsLive, compress_block-IsLive,
}

module _ (compress : Compress) where
  pub Internal-IsLive : {z t : Writer} → Internal compress z t → IsLive z → IsLive t
  unfolding receive written write_failed
  Internal-IsLive {z = z} (receives slot rest l r h) i =
      let k = ap length h in
      record {
        count = i.count;
        alive = i.alive;
        held = λ _. omega (arith, k);
        last = i.last;
        fresh = i.fresh;
      }
  Internal-IsLive {z = z} (compresses before job behind h) i =
      compress_block-IsLive (run_job compress job) before job behind z h i
  Internal-IsLive {z = z} (writes slot rest b r h v) i =
      let k = ap length h in
      let m = i.count in
      record {
        count = omega (arith, m, k);
        alive = i.alive;
        held = λ r. absurd cc;
        last = i.last;
        fresh = i.fresh;
      }
  Internal-IsLive {z = z} (fails slot rest b n e r h v) i =
      let k = ap length h in
      let m = i.count in
      record {
        count = omega (arith, m, k);
        alive = λ _. inr (keeps_error e z.error);
        held = λ r. absurd cc;
        last = i.last;
        fresh = i.fresh;
      }

  Step-IsLive : {z t : Writer} {c : Bytes} → Step compress z c t → IsLive z → IsLive t
  Step-IsLive (internal s) i = Internal-IsLive s i
  Step-IsLive {z = z} (write m x p h) i = begin_write-IsLive z.error p z i
  Step-IsLive {z = z} (fills total c q h) i =
      fill-IsLive total (c ∷ q) z (λ s. busy z.caller _ h refl (i.fresh s)) i
  Step-IsLive {z = z} (returns total h) i = moved z _ z.size z.results_closed i tt (λ s. refl)
  Step-IsLive {z = z} (sends total m rest h o q) i =
      submit-IsLive _ _ z (λ s. busy z.caller _ h refl (i.fresh s)) tt tt i
  Step-IsLive {z = z} (gives_up total m rest x h f) i =
      moved z _ z.size z.results_closed i tt (λ s. busy z.caller _ h refl (i.fresh s))
  Step-IsLive {z = z} (panics total m rest h o) i =
      moved z _ z.size z.results_closed i tt (λ s. busy z.caller _ h refl (i.fresh s))
  Step-IsLive {z = z} (checks total m rest h) i =
      check-IsLive z.error total m rest z (λ s. busy z.caller _ h refl (i.fresh s)) i
  Step-IsLive {z = z} (flush m x h) i = begin_flush-IsLive z.error z.closed z i
  Step-IsLive {z = z} (close m x h) i = begin_close-IsLive z.error z.closed z i
  Step-IsLive {z = z} (sends_last h o q) i =
      submit-IsLive _ _ z (λ s. busy z.caller _ h refl (i.fresh s)) tt refl i
  Step-IsLive {z = z} (gives_up_last x h f) i = end_flush-IsLive z.error z.closed z i
  Step-IsLive {z = z} (wakes m h lt) i = end_flush-IsLive z.error z.closed z i

  pub Run-IsLive : {z t : Writer} {d : Bytes} → Run compress z d t → IsLive z → IsLive t
  Run-IsLive here i = i
  Run-IsLive (later r s) i = Step-IsLive s (Run-IsLive r i)
