-- ===== src/Pflate/Tests.antt =====
-- Runs of the writer of pflate/pflate.go, with a simple compressor: a token 1 in front of each byte,
-- and a token 0 at the end.
use arkive.Common.{
  zero, suc, ◌≤◌, ◌≡◌, refl, sym, ap, ◌∙◌, ◌⊎◌, inr, true, false, none, [], ◌∷◌, ◌++◌, append-nil,
  arith, Bytes, length, drop, All,
}
use arkive.Common.Go.{Error, device, ok}
use arkive.Pflate.{
  Writer, init, new_writer, set_concurrency, begin_write, chunk, fill, submit, check, begin_close,
  queued, awaiting, crashed,
}
use arkive.Pflate.Steps.{
  value_of, receive, written, write_failed, compress_block, Compress, run_job, Run, receives,
  compresses, writes, internal, write, fills, returns, sends, checks, close, sends_last, here,
  later,
}
use arkive.Pflate.{end_flush, ready}
use arkive.Pflate.Stream.{Inflater}
use arkive.Pflate.Bounds.Runs.{Run-sizes}
use arkive.Pflate.Stream.Runs.{inflate-Run_prefix, inflate-Run}
use arkive.Pflate.Progress.Settles.{Settles, Settles-Run}
use arkive.Pflate.Progress.Hangs.{write_failed-hangs}

abbrev tokens : Bytes → Bytes
tokens [] = []
tokens (c ∷ p) = 1 ∷ c ∷ tokens p

abbrev toy : Compress
toy dict p true = inr (tokens p ++ 0 ∷ [])
toy dict p false = inr (tokens p)

abbrev untoken : Bytes → Bytes
untoken [] = []
untoken (zero ∷ s) = []
untoken (suc n ∷ []) = []
untoken (suc n ∷ c ∷ s) = c ∷ untoken s

untoken-tokens : (p rest : Bytes) → untoken (tokens p ++ rest) ≡ p ++ untoken rest
untoken-tokens [] rest = refl
untoken-tokens (c ∷ p) rest = ap (◌∷◌ c) (untoken-tokens p rest)

inr-injective : {b c : Bytes} → ◌≡◌ {A = Error ⊎ Bytes} (inr b) (inr c) → b ≡ c
inr-injective e = cc

abbrev toy_inflater : Inflater toy
toy_inflater = record {
  inflate = λ h s. untoken s;
  inflate_nil = λ h. refl;
  inflate_flushed = λ h dict p b rest s e.
      ap (λ x. untoken (x ++ rest)) (sym (inr-injective e)) ∙ untoken-tokens p rest;
  inflate_closed = λ h dict p b s e.
      ap untoken (sym (inr-injective e)) ∙ untoken-tokens p (0 ∷ []) ∙ append-nil p;
}

abbrev small : Writer
small = init 20000 2

set_small : set_concurrency 20000 2 new_writer ≡ ok small
unfolding set_concurrency new_writer init
set_small = refl

-- Write two bytes, close; the goroutine and the listener do their part.
abbrev closing : (d : Bytes) × (t : Writer) × Run toy small d t
unfolding init begin_write fill begin_close queued submit receive compress_block run_job value_of
closing = (
  _,
  _,
  later
      (later
        (later
          (later
            (later
              (later (later (later here (write 0 none (7 ∷ 8 ∷ []) refl)) (fills 2 7 (8 ∷ []) refl))
                (returns 2 refl))
              (close 2 none refl))
            (sends_last refl refl (omega arith)))
          (internal (receives _ [] refl refl refl)))
        (internal (compresses [] _ [] refl)))
      (internal (writes _ [] _ refl refl refl)),
)

Run-sizes_example :
    (length closing.1.current ≤ closing.1.block_size)
    × (queued closing.1.received closing.1.slots ≤ closing.1.blocks)
    × All (λ slot. length slot.job.block ≤ closing.1.block_size) closing.1.slots
    × (closing.1.caller ≡ crashed → closing.1.results_closed ≡ true)
unfolding closing init begin_write fill begin_close queued submit receive compress_block run_job
    value_of written chunk
Run-sizes_example = Run-sizes toy 20000 2 set_small closing.2

inflate-Run_example :
    ((end_flush closing.1.error closing.1.closed closing.1).caller ≡ ready 0 none)
    × (untoken closing.1.out ≡ 7 ∷ 8 ∷ [])
unfolding closing init begin_write fill begin_close queued submit receive compress_block run_job
    value_of written chunk
inflate-Run_example =
    inflate-Run toy toy_inflater 20000 2 0 set_small closing.2 refl (omega arith) refl

inflate-Run_prefix_example : (rest : Bytes) × (7 ∷ 8 ∷ [] ≡ untoken closing.1.out ++ rest)
unfolding closing init begin_write fill begin_close queued submit receive compress_block run_job
    value_of written chunk
inflate-Run_prefix_example = inflate-Run_prefix toy toy_inflater 20000 2 set_small closing.2 refl

Settles-Run_example : Settles toy 0 closing.1
unfolding closing init begin_write fill begin_close queued submit receive compress_block run_job
    value_of written chunk
Settles-Run_example = Settles-Run toy 20000 2 0 set_small closing.2 refl

-- The second call waits while the first block is in the channel.
abbrev waiting : (d : Bytes) × (t : Writer) × Run toy (init 2 2) d t
unfolding init begin_write fill begin_close queued submit receive compress_block run_job value_of
    check
waiting = (
  _,
  _,
  later
      (later
        (later
          (later
            (later
              (later
                (later
                  (later (later here (write 0 none (7 ∷ 8 ∷ []) refl)) (fills 2 7 (8 ∷ []) refl))
                  (sends 2 2 [] refl refl (omega arith)))
                (checks 2 2 [] refl))
              (returns 2 refl))
            (close 2 none refl))
          (sends_last refl refl (omega arith)))
        (internal (receives _ _ refl refl refl)))
      (internal (compresses [] _ _ refl)),
)

-- The device fails at the first block, and the goroutine of the second goes on.
abbrev device_failed : Writer
unfolding waiting
device_failed = write_failed device 0 (1 ∷ 7 ∷ 1 ∷ 8 ∷ []) (drop 1 waiting.1.slots) waiting.1

abbrev hung : (t : Writer) × Run toy device_failed [] t
unfolding waiting init begin_write fill begin_close queued submit receive compress_block run_job
    value_of check write_failed device_failed
hung = (
  _,
  later here (internal (compresses [] (record { block = []; dict = []; final = true }) [] refl)),
)

write_failed-hangs_example : (hung.0.caller ≡ awaiting 1) × (hung.0.notified ≤ 1)
unfolding waiting init begin_write fill begin_close queued submit receive compress_block run_job
    value_of check write_failed device_failed hung
write_failed-hangs_example =
    write_failed-hangs toy waiting.1 1 device 0 (1 ∷ 7 ∷ 1 ∷ 8 ∷ []) (drop 1 waiting.1.slots) refl
      (omega arith) hung.1
