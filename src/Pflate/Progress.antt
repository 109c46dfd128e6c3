-- ===== src/Pflate/Progress.antt =====
-- Flush and Close of pflate/pflate.go wait for the listener: what the waiting counts on.
pub mod Moves
pub mod Runs
pub mod Settles
pub mod Hangs
use arkive.Common.{
  ℕ, zero, suc, ◌+◌, ◌-◌, ◌*◌, ◌/◌, ◌%◌, ◌^◌, ◌≤◌, ◌<◌, min, ◌≡◌, refl, sym, ap, subst, ◌∙◌, ◌≢◌,
  ◌↔◌, ◌⊎◌, inl, inr, Bool, true, false, not, ◌&&◌, ◌||◌, Option, none, some, List, [], ◌∷◌, ◌++◌,
  map, append-nil, append_assoc, arith, Bytes, IsByte, ltb, leb, ◌==◌, if◌then◌else◌, Bool-cases,
  Option-cases, bytes_eq, bytes_eq_iff, length, get_or, take, drop, replicate, length-append,
  take-append-drop, length-take, length-drop, length-replicate, replicate-add, take_append,
  drop_append, take_all, drop_all, drop-drop, drop-append, take-append, get_or-append, All,
}
use arkive.Common.Words.{u16_mod, u32_mod, u64_mod, sign_bit, IsWord, is_neg, add64, sub64, slt}
use arkive.Common.Digits.{
  digits, format_uint, format_int, Parsed, parsed, syntax_error, range_error, is_digit, parse_loop,
  parse_uint, signed, parse_int, All-append, parse_loop-digits, parse_loop-zeros, digits-IsDigit,
  digits-ne-nil, length-digits_mono, length-digits_next, length-digits-le, parse_uint-loop,
  parse_uint-format_uint, parse_int-format_int, parse_int-zeros, digits-zeros,
}
use arkive.Common.Text.{codes, lookup, insert, delete, lookup-insert, lookup-delete}
use arkive.Common.Go.{
  Error, eof, unexpected_eof, err_header, err_field_too_long, err_write_too_long,
  err_write_after_close, err_invalid_header, err_format, err_checksum, err_algorithm, err_long_name,
  err_long_extra, comment_length, too_many_files, negative_offset, missed_bytes, closed_twice,
  write_closed, device, Result, ok, err, panic, stuck, >>=-eq-ok, >>=-ne-stuck, ◌>>=◌, ◌>>◌,
}
use arkive.Pflate.{
  tail_size, default_block_size, default_blocks, Job, Answer, Slot, Caller, Writer, init,
  new_writer, set_concurrency, start, begin_write, chunk_length, chunk, fill_with, fill, tail_of,
  submit_job, submit_part, submit_all, submit, check, begin_flush, begin_close, end_flush,
  push_error, queued, pending, compressed, no_value, ready, filling, sending, checking, flushing,
  awaiting, crashed,
}
use arkive.Pflate.Steps.{
  value_of, receive, written, write_failed, compress_block, Compress, run_job, Internal, Step, Run,
  receives, compresses, writes, fails, internal, write, fills, returns, sends, gives_up, panics,
  checks, flush, close, sends_last, gives_up_last, wakes, here, later,
}
use arkive.Pflate.Bounds.Runs.{
  All-replace, All-snoc, length_replace, length_snoc, Step-IsBounded, Run-IsBounded,
  set_concurrency-init, set_concurrency-IsBounded, Run-sizes,
}
use arkive.Pflate.Stream.Invariant.{
  IsPhase, at_rest, busy, IsStreaming, IsPhase-at, IsStreaming-moved, IsStreaming-start,
  IsStreaming-submit_all, IsStreaming-copied,
}

-- The listener goes on until there is an error.
abbrev pub IsAlive : Bool → Bool → Option Error → Type 0
IsAlive started listening error =
    started ≡ true → (listening ≡ true) ⊎ ((e : Error) × (error ≡ some e))

abbrev pub IsHeld : Bool → List Slot → Type 0
IsHeld received slots = received ≡ true → 0 < length slots

abbrev pub IsLast : Caller → ℕ → Type 0
IsLast (awaiting n) sent = suc n ≡ sent
IsLast (ready n e) sent = Unit
IsLast (filling total q) sent = Unit
IsLast (sending total n q) sent = Unit
IsLast (checking total n q) sent = Unit
IsLast flushing sent = Unit
IsLast crashed sent = Unit

-- This holds with an error and without one.
pub record IsLive (z : Writer) : Type 0 where
  pub count : z.sent ≡ z.notified + length z.slots
  pub alive : IsAlive z.started z.listening z.error
  pub held : IsHeld z.received z.slots
  pub last : IsLast z.caller z.sent
  pub fresh : z.started ≡ false → at_rest z.caller ≡ true
