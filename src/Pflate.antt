-- ===== src/Pflate.antt =====
-- The parallel deflate writer (pflate/pflate.go): its state, and what the caller's goroutine does.
-- The goroutines that compress blocks, the one that writes them, and how all interleave are the
-- steps of Pflate/Steps.
use arkive.Common.{
  ℕ, zero, suc, ◌+◌, ◌-◌, ◌*◌, ◌/◌, ◌%◌, ◌^◌, ◌≤◌, ◌<◌, min, ◌≡◌, refl, sym, ap, subst, ◌∙◌, ◌≢◌,
  ◌↔◌, ◌⊎◌, inl, inr, Bool, true, false, not, ◌&&◌, ◌||◌, Option, none, some, List, [], ◌∷◌, ◌++◌,
  map, append-nil, append_assoc, arith, Bytes, IsByte, ltb, leb, ◌==◌, if◌then◌else◌, Bool-cases,
  Option-cases, bytes_eq, bytes_eq_iff, length, get_or, take, drop, replicate, length-append,
  take-append-drop, length-take, length-drop, length-replicate, replicate-add, take_append,
  drop_append, take_all, drop_all, drop-drop, drop-append, take-append, get_or-append, All,
}
use arkive.Common.Words.{u16_mod, u32_mod, u64_mod, sign_bit, IsWord, is_neg, add64, sub64, slt}
use arkive.Common.Digits.{
  digits, format_uint, format_int, Parsed, parsed, syntax_error, range_error, is_digit, parse_loop,
  parse_uint, signed, parse_int, All-append, parse_loop-digits, parse_loop-zeros, digits-IsDigit,
  digits-ne-nil, length-digits_mono, length-digits_next, length-digits-le, parse_uint-loop,
  parse_uint-format_uint, parse_int-format_int, parse_int-zeros, digits-zeros,
}
use arkive.Common.Text.{codes, lookup, insert, delete, lookup-insert, lookup-delete}
use arkive.Common.Go.{
  Error, eof, unexpected_eof, err_header, err_field_too_long, err_write_too_long,
  err_write_after_close, err_invalid_header, err_format, err_checksum, err_algorithm, err_long_name,
  err_long_extra, comment_length, too_many_files, negative_offset, missed_bytes, closed_twice,
  write_closed, device, Result, ok, err, panic, stuck, >>=-eq-ok, >>=-ne-stuck, ◌>>=◌, ◌>>◌,
}
pub mod Steps
pub mod Bounds
pub mod Stream
pub mod Progress
mod Tests

unfoldable pub tail_size : ℕ
tail_size = 16384

unfoldable pub default_block_size : ℕ
default_block_size = 256 * 1024

unfoldable pub default_blocks : ℕ
default_blocks = 16

-- What `compressBlock` is started with.
pub record Job : Type 0 where
  pub block : Bytes
  pub dict : Bytes
  pub final : Bool

-- The channel `r.result`: no value so far, a value, or closed with none after an error.
pub data Answer : Type 0 where
  pending : Answer
  compressed : Bytes → Answer
  no_value : Answer

pub record Slot : Type 0 where
  pub job : Job
  pub answer : Answer

-- Where the caller is. `ready` has the answer of the last call, its count as an int64; `filling` is
-- the head of the loop of `Write`, with the length of `p` and with `q`; `sending` and `flushing` are
-- the select of `compressCurrent`, called by `Write` and by `Flush` or `Close`; `checking` is the
-- test behind it in `Write`, with `length` and `q[length:]`; `awaiting n` waits for the `notifyWritten`
-- of slot `n`; `crashed` is a run-time panic.
pub data Caller : Type 0 where
  ready : ℕ → Option Error → Caller
  filling : ℕ → Bytes → Caller
  sending : ℕ → ℕ → Bytes → Caller
  checking : ℕ → ℕ → Bytes → Caller
  flushing : Caller
  awaiting : ℕ → Caller
  crashed : Caller

-- The writer, and the goroutines around it. `slots` are those that were sent and are not written:
-- what the channel `results` holds, behind the one that the listener has received where `received`
-- is true. `sent` slots were sent, and the `notifyWritten` of the first `notified` ones is closed.
pub record Writer : Type 0 where
  pub block_size : ℕ
  pub blocks : ℕ
  pub started : Bool
  pub closed : Bool
  pub current : Bytes
  pub prev_tail : Bytes
  pub size : ℕ
  pub error : Option Error
  pub slots : List Slot
  pub received : Bool
  pub listening : Bool
  pub results_closed : Bool
  pub sent : ℕ
  pub notified : ℕ
  pub out : Bytes
  pub caller : Caller

-- `init`, with the sizes that `SetConcurrency` has set.
unfoldable pub init : ℕ → ℕ → Writer
init block_size blocks = record {
  block_size = block_size;
  blocks = blocks;
  started = false;
  closed = false;
  current = [];
  prev_tail = [];
  size = 0;
  error = none;
  slots = [];
  received = false;
  listening = false;
  results_closed = false;
  sent = 0;
  notified = 0;
  out = [];
  caller = ready 0 none;
}

-- `NewWriter`, at a valid level.
unfoldable pub new_writer : Writer
unfolding init default_block_size default_blocks
new_writer = init default_block_size default_blocks

-- `SetConcurrency`, on a writer that was not written to: the channel that it replaces is empty.
unfoldable pub set_concurrency : ℕ → ℕ → Writer → Result Writer
unfolding tail_size
set_concurrency block_size blocks z =
    if leb block_size tail_size
    then err err_format
    else if leb blocks 0
    then err err_format
    else if (block_size == z.block_size) && (blocks == z.blocks)
    then ok z
    else ok (record z { block_size = block_size; blocks = blocks })

-- What the first `Write` does: the listener starts.
unfoldable pub start : Bool → Writer → Writer
start true z = z
start false z = record z { started = true; listening = true; current = [] }

unfoldable pub begin_write : Option Error → Bytes → Writer → Writer
unfolding start
begin_write (some e) p z = record z { caller = ready 0 (some e) }
begin_write none p z = record (start z.started z) { caller = filling (length p) p }

-- `length` in the loop of `Write`, where the difference is not negative.
unfoldable pub chunk_length : Writer → Bytes → ℕ
chunk_length z q =
    if ltb z.block_size (length q + length z.current)
    then z.block_size - length z.current
    else length q

unfoldable pub chunk : Writer → Bytes → Bytes
unfolding chunk_length
chunk z q = take (chunk_length z q) q

-- One round of the loop up to `compressCurrent`; a slice of negative length panics.
unfoldable pub fill_with : ℕ → ℕ → Bytes → Writer → Writer
fill_with n total q z =
    if leb z.block_size (length (z.current ++ take n q))
    then record z { current = z.current ++ take n q; caller = sending total n (drop n q) }
    else record z {
      current = z.current ++ take n q;
      size = z.size + n;
      caller = filling total (drop n q);
    }

unfoldable pub fill : ℕ → Bytes → Writer → Writer
unfolding fill_with chunk_length
fill total q z =
    if ltb z.block_size (length z.current)
    then record z { caller = crashed }
    else fill_with (chunk_length z q) total q z

unfoldable pub tail_of : Bytes → Bytes
unfolding tail_size
tail_of c = drop (length c - tail_size) c

-- `compressCurrent` behind its select. A buffer of more than two blocks is split, and the call
-- repeated from `here`; else `next` says how the caller goes on.
unfoldable pub submit_job : Job → Writer → Writer
submit_job job z = record z {
  slots = z.slots ++ (record { job = job; answer = pending }) ∷ [];
  sent = suc z.sent;
}

unfoldable pub submit_part : Caller → Writer → Writer
unfolding submit_job tail_of
submit_part here z =
    record (submit_job
      (record { block = take z.block_size z.current; dict = z.prev_tail; final = false }) z) {
        prev_tail = tail_of (take z.block_size z.current);
        current = drop z.block_size z.current;
        caller = here;
      }

unfoldable pub submit_all : Caller → Writer → Writer
unfolding submit_job tail_of tail_size
submit_all next z =
    record (submit_job (record { block = z.current; dict = z.prev_tail; final = z.closed }) z) {
      prev_tail = if ltb tail_size (length z.current) then tail_of z.current else [];
      current = [];
      caller = next;
    }

unfoldable pub submit : Caller → Caller → Writer → Writer
unfolding submit_part submit_all
submit here next z =
    if ltb (z.block_size * 2) (length z.current) then submit_part here z else submit_all next z

-- `checkError` behind `compressCurrent` in `Write`; `rest` is `q[length:]`.
unfoldable pub check : Option Error → ℕ → ℕ → Bytes → Writer → Writer
check (some e) total n rest z = record z {
  caller = ready (sub64 (sub64 total (n + length rest)) n) (some e);
}
check none total n rest z = record z { size = z.size + n; caller = filling total rest }

unfoldable pub begin_flush : Option Error → Bool → Writer → Writer
unfolding start
begin_flush (some e) closed z = record z { caller = ready 0 (some e) }
begin_flush none true z = record z { caller = ready 0 none }
begin_flush none false z = record (start z.started z) { caller = flushing }

unfoldable pub begin_close : Option Error → Bool → Writer → Writer
unfolding start
begin_close (some e) closed z = record z { caller = ready 0 (some e) }
begin_close none true z = record z { caller = ready 0 none }
begin_close none false z = record (start z.started (record z { closed = true })) {
  caller = flushing;
}

-- The end of `Flush`, or of `Close` where the writer is closed.
unfoldable pub end_flush : Option Error → Bool → Writer → Writer
end_flush (some e) closed z = record z { caller = ready 0 (some e) }
end_flush none false z = record z { caller = ready 0 none }
end_flush none true z = record z { results_closed = true; caller = ready 0 none }

-- `pushError` keeps the first error.
unfoldable pub push_error : Error → Option Error → Option Error
push_error e (some first) = some first
push_error e none = some e

-- How many slots the channel holds.
unfoldable pub queued : Bool → List Slot → ℕ
queued true slots = length slots - 1
queued false slots = length slots
