-- ===== src/Pflate/Steps.antt =====
-- The goroutines of pflate/pflate.go and their interleavings: the caller, one goroutine per block
-- that compresses it, and the listener that writes results in the order of the channel. A step is
-- what one of them does up to its next call, channel operation or test of the shared error.
-- A slot's goroutine starts in the step that sends the slot: until it does, it only delays.
use arkive.Common.{
  ℕ, suc, ◌<◌, ◌≡◌, ◌⊎◌, inl, inr, Bool, true, false, Option, none, some, List, [], ◌∷◌, ◌++◌,
  Bytes, take,
}
use arkive.Common.Go.{Error}
use arkive.Pflate.{
  Job, Answer, Slot, Writer, begin_write, chunk, fill, submit, check, begin_flush, begin_close,
  end_flush, push_error, queued, pending, compressed, no_value, ready, filling, sending, checking,
  flushing, awaiting, crashed,
}

-- The value that the listener takes from `r.result`; a closed channel gives nil.
unfoldable pub value_of : Answer → Option Bytes
value_of pending = none
value_of (compressed b) = some b
value_of no_value = some []

unfoldable pub receive : Writer → Writer
receive z = record z { received = true }

unfoldable pub written : Bytes → List Slot → Writer → Writer
written b rest z = record z {
  out = z.out ++ b;
  slots = rest;
  received = false;
  notified = suc z.notified;
}

-- The device took `n` bytes of `b`, and failed or came short.
unfoldable pub write_failed : Error → ℕ → Bytes → List Slot → Writer → Writer
unfolding push_error
write_failed e n b rest z = record z {
  out = z.out ++ take n b;
  error = push_error e z.error;
  slots = rest;
  received = false;
  listening = false;
  notified = suc z.notified;
}

-- The end of `compressBlock`, for the slot between `before` and `behind`.
unfoldable pub compress_block : Error ⊎ Bytes → List Slot → Job → List Slot → Writer → Writer
unfolding push_error
compress_block (inr b) before job behind z = record z {
  slots = before ++ (record { job = job; answer = compressed b }) ∷ behind;
}
compress_block (inl e) before job behind z = record z {
  slots = before ++ (record { job = job; answer = no_value }) ∷ behind;
  error = push_error e z.error;
}

-- `compress dict block final` is `ResetDict`, `Write`, `Flush`, and `Close` for the final block, of
-- the flate package.
abbrev pub Compress : Type 0
Compress = Bytes → Bytes → Bool → Error ⊎ Bytes

unfoldable pub run_job : Compress → Job → Error ⊎ Bytes
run_job compress job = compress job.dict job.block job.final

module _ (compress : Compress) where
  -- What goroutines other than the caller's do.
  pub data Internal (z : Writer) : Writer → Type 0 where
    receives :
        (slot : Slot) (rest : List Slot)
        → z.listening ≡ true
        → z.received ≡ false
        → z.slots ≡ slot ∷ rest
        → Internal z (receive z)
    compresses :
        (before : List Slot) (job : Job) (behind : List Slot)
        → z.slots ≡ before ++ (record { job = job; answer = pending }) ∷ behind
        → Internal z (compress_block (run_job compress job) before job behind z)
    writes :
        (slot : Slot) (rest : List Slot) (b : Bytes)
        → z.received ≡ true
        → z.slots ≡ slot ∷ rest
        → value_of slot.answer ≡ some b
        → Internal z (written b rest z)
    fails :
        (slot : Slot) (rest : List Slot) (b : Bytes) (n : ℕ) (e : Error)
        → z.received ≡ true
        → z.slots ≡ slot ∷ rest
        → value_of slot.answer ≡ some b
        → Internal z (write_failed e n b rest z)

  -- A step, with the bytes that it copies from the caller into the buffer.
  pub data Step (z : Writer) : Bytes → Writer → Type 0 where
    internal : {t : Writer} → Internal z t → Step z [] t
    write :
        (n : ℕ) (e : Option Error) (p : Bytes)
        → z.caller ≡ ready n e
        → Step z [] (begin_write z.error p z)
    fills :
        (total c : ℕ) (q : Bytes)
        → z.caller ≡ filling total (c ∷ q)
        → Step z (chunk z (c ∷ q)) (fill total (c ∷ q) z)
    returns :
        (total : ℕ)
        → z.caller ≡ filling total []
        → Step z [] (record z { caller = ready total z.error })
    sends :
        (total n : ℕ) (rest : Bytes)
        → z.caller ≡ sending total n rest
        → z.results_closed ≡ false
        → queued z.received z.slots < z.blocks
        → Step z [] (submit (sending total n rest) (checking total n rest) z)
    gives_up :
        (total n : ℕ) (rest : Bytes) (e : Error)
        → z.caller ≡ sending total n rest
        → z.error ≡ some e
        → Step z [] (record z { caller = checking total n rest })
    panics :
        (total n : ℕ) (rest : Bytes)
        → z.caller ≡ sending total n rest
        → z.results_closed ≡ true
        → Step z [] (record z { caller = crashed })
    checks :
        (total n : ℕ) (rest : Bytes)
        → z.caller ≡ checking total n rest
        → Step z [] (check z.error total n rest z)
    flush :
        (n : ℕ) (e : Option Error)
        → z.caller ≡ ready n e
        → Step z [] (begin_flush z.error z.closed z)
    close :
        (n : ℕ) (e : Option Error)
        → z.caller ≡ ready n e
        → Step z [] (begin_close z.error z.closed z)
    sends_last :
        z.caller ≡ flushing
        → z.results_closed ≡ false
        → queued z.received z.slots < z.blocks
        → Step z [] (submit flushing (awaiting z.sent) z)
    gives_up_last :
        (e : Error)
        → z.caller ≡ flushing
        → z.error ≡ some e
        → Step z [] (end_flush z.error z.closed z)
    wakes :
        (n : ℕ) → z.caller ≡ awaiting n → n < z.notified → Step z [] (end_flush z.error z.closed z)

  -- A run from `z`, with all bytes that were copied.
  pub data Run (z : Writer) : Bytes → Writer → Type 0 where
    here : Run z [] z
    later : {d c : Bytes} {t u : Writer} → Run z d t → Step t c u → Run z (d ++ c) u
