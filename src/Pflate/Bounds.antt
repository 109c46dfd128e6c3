-- ===== src/Pflate/Bounds.antt =====
-- The sizes that a writer keeps: the buffer, the blocks, and the channel of results.
pub mod Runs
use arkive.Common.{
  ℕ, zero, suc, ◌+◌, ◌-◌, ◌*◌, ◌/◌, ◌%◌, ◌^◌, ◌≤◌, ◌<◌, min, ◌≡◌, refl, sym, ap, subst, ◌∙◌, ◌≢◌,
  ◌↔◌, ◌⊎◌, inl, inr, Bool, true, false, not, ◌&&◌, ◌||◌, Option, none, some, List, [], ◌∷◌, ◌++◌,
  map, append-nil, append_assoc, arith, Bytes, IsByte, ltb, leb, ◌==◌, if◌then◌else◌, Bool-cases,
  Option-cases, bytes_eq, bytes_eq_iff, length, get_or, take, drop, replicate, length-append,
  take-append-drop, length-take, length-drop, length-replicate, replicate-add, take_append,
  drop_append, take_all, drop_all, drop-drop, drop-append, take-append, get_or-append, All,
}
use arkive.Common.Words.{u16_mod, u32_mod, u64_mod, sign_bit, IsWord, is_neg, add64, sub64, slt}
use arkive.Common.Digits.{
  digits, format_uint, format_int, Parsed, parsed, syntax_error, range_error, is_digit, parse_loop,
  parse_uint, signed, parse_int, All-append, parse_loop-digits, parse_loop-zeros, digits-IsDigit,
  digits-ne-nil, length-digits_mono, length-digits_next, length-digits-le, parse_uint-loop,
  parse_uint-format_uint, parse_int-format_int, parse_int-zeros, digits-zeros,
}
use arkive.Common.Text.{codes, lookup, insert, delete, lookup-insert, lookup-delete}
use arkive.Common.Go.{
  Error, eof, unexpected_eof, err_header, err_field_too_long, err_write_too_long,
  err_write_after_close, err_invalid_header, err_format, err_checksum, err_algorithm, err_long_name,
  err_long_extra, comment_length, too_many_files, negative_offset, missed_bytes, closed_twice,
  write_closed, device, Result, ok, err, panic, stuck, >>=-eq-ok, >>=-ne-stuck, ◌>>=◌, ◌>>◌,
}
use arkive.Pflate.{
  tail_size, default_block_size, default_blocks, Job, Answer, Slot, Caller, Writer, init,
  new_writer, set_concurrency, start, begin_write, chunk_length, chunk, fill_with, fill, tail_of,
  submit_job, submit_part, submit_all, submit, check, begin_flush, begin_close, end_flush,
  push_error, queued, pending, compressed, no_value, ready, filling, sending, checking, flushing,
  awaiting, crashed,
}

-- How much of the buffer is in use where the caller is.
abbrev pub HasRoom : Caller → ℕ → ℕ → Option Error → Bool → Type 0
HasRoom (ready n e) used size error closed = error ≡ none → used < size
HasRoom (filling total q) used size error closed = used < size
HasRoom (sending total n rest) used size error closed = used ≤ size
HasRoom (checking total n rest) used size error closed = error ≡ none → used < size
HasRoom flushing used size error closed = error ≡ none → used < size
HasRoom (awaiting n) used size error closed = used ≡ 0
HasRoom crashed used size error closed = closed ≡ true

pub record IsBounded (z : Writer) : Type 0 where
  pub positive : 0 < z.block_size
  pub buffer : length z.current ≤ z.block_size
  pub queue : queued z.received z.slots ≤ z.blocks
  pub jobs : All (λ slot. length slot.job.block ≤ z.block_size) z.slots
  pub place : HasRoom z.caller (length z.current) z.block_size z.error z.results_closed

pub at_place :
    (z : Writer) (c : Caller)
    → z.caller ≡ c
    → IsBounded z
    → HasRoom c (length z.current) z.block_size z.error z.results_closed
at_place z c h b =
    subst (λ c. HasRoom c (length z.current) z.block_size z.error z.results_closed) h b.place

moved :
    (z : Writer) (c : Caller)
    → IsBounded z
    → HasRoom c (length z.current) z.block_size z.error z.results_closed
    → IsBounded (record z { caller = c })
moved z c b h = record {
  positive = b.positive;
  buffer = b.buffer;
  queue = b.queue;
  jobs = b.jobs;
  place = h;
}

started :
    (s closed : Bool) (z : Writer) (c : Caller)
    → IsBounded z
    → (z.error ≡ none)
    → length z.current < z.block_size
    → ((n : ℕ) → n < z.block_size → HasRoom c n z.block_size z.error z.results_closed)
    → IsBounded (record (start s (record z { closed = closed })) { caller = c })
unfolding start
started true closed z c b h lt k = record {
  positive = b.positive;
  buffer = b.buffer;
  queue = b.queue;
  jobs = b.jobs;
  place = k _ lt;
}
started false closed z c b h lt k = record {
  positive = b.positive;
  buffer = omega arith;
  queue = b.queue;
  jobs = b.jobs;
  place = k 0 b.positive;
}

begin_write-IsBounded :
    (o : Option Error) (p : Bytes) (z : Writer)
    → z.error ≡ o
    → IsBounded z
    → (z.error ≡ none → length z.current < z.block_size)
    → IsBounded (begin_write o p z)
unfolding begin_write
begin_write-IsBounded (some e) p z h b lt = moved z _ b (λ n. cc)
begin_write-IsBounded none p z h b lt = started z.started z.closed z _ b h (lt h) (λ n m. m)

begin_flush-IsBounded :
    (o : Option Error) (closed : Bool) (z : Writer)
    → z.error ≡ o
    → IsBounded z
    → (z.error ≡ none → length z.current < z.block_size)
    → IsBounded (begin_flush o closed z)
unfolding begin_flush
begin_flush-IsBounded (some e) closed z h b lt = moved z _ b (λ n. cc)
begin_flush-IsBounded none true z h b lt = moved z _ b lt
begin_flush-IsBounded none false z h b lt = started z.started z.closed z _ b h (lt h) (λ n m _. m)

begin_close-IsBounded :
    (o : Option Error) (closed : Bool) (z : Writer)
    → z.error ≡ o
    → IsBounded z
    → (z.error ≡ none → length z.current < z.block_size)
    → IsBounded (begin_close o closed z)
unfolding begin_close
begin_close-IsBounded (some e) closed z h b lt = moved z _ b (λ n. cc)
begin_close-IsBounded none true z h b lt = moved z _ b lt
begin_close-IsBounded none false z h b lt = started z.started true z _ b h (lt h) (λ n m _. m)

end_flush-IsBounded :
    (o : Option Error) (closed : Bool) (z : Writer)
    → z.error ≡ o
    → IsBounded z
    → (z.error ≡ none → length z.current < z.block_size)
    → IsBounded (end_flush o closed z)
unfolding end_flush
end_flush-IsBounded (some e) closed z h b lt = moved z _ b (λ n. cc)
end_flush-IsBounded none false z h b lt = moved z _ b lt
end_flush-IsBounded none true z h b lt = record {
  positive = b.positive;
  buffer = b.buffer;
  queue = b.queue;
  jobs = b.jobs;
  place = lt;
}

check-IsBounded :
    (o : Option Error) (total n : ℕ) (rest : Bytes) (z : Writer)
    → z.error ≡ o
    → IsBounded z
    → (z.error ≡ none → length z.current < z.block_size)
    → IsBounded (check o total n rest z)
unfolding check
check-IsBounded (some e) total n rest z h b lt = moved z _ b (λ n. cc)
check-IsBounded none total n rest z h b lt = record {
  positive = b.positive;
  buffer = b.buffer;
  queue = b.queue;
  jobs = b.jobs;
  place = lt h;
}

length-chunk :
    (z : Writer) (q : Bytes)
    → length z.current < z.block_size
    → length (z.current ++ take (chunk_length z q) q) ≤ z.block_size
unfolding chunk_length
length-chunk z q lt =
    let e1 = length-append z.current (take (chunk_length z q) q) in
    let e2 = length-take (chunk_length z q) q in
    elim (Bool-cases (ltb z.block_size (length q + length z.current))) [
      | inl h ↦
          let k : chunk_length z q ≡ z.block_size - length z.current = rw h refl in
          omega (arith, e1, e2, k)
      | inr h ↦
          let k : chunk_length z q ≡ length q = rw h refl in
          let m : length q + length z.current ≤ z.block_size = ground arith in
          omega (arith, e1, e2, k, m)
    ]

fill-IsBounded :
    (total : ℕ) (q : Bytes) (z : Writer)
    → IsBounded z
    → length z.current < z.block_size
    → IsBounded (fill total q z)
unfolding fill fill_with
fill-IsBounded total q z b lt =
    let now : Bytes = z.current ++ take (chunk_length z q) q in
    let k : ltb z.block_size (length z.current) ≡ false = ground arith in
    let bound : length now ≤ z.block_size = length-chunk z q lt in
    elim (Bool-cases (leb z.block_size (length now))) [
      | inl h ↦
          rw (k, h)
            record {
              positive = b.positive;
              buffer = bound;
              queue = b.queue;
              jobs = b.jobs;
              place = bound;
            }
      | inr h ↦
          rw (k, h)
            record {
              positive = b.positive;
              buffer = bound;
              queue = b.queue;
              jobs = b.jobs;
              place = ground arith;
            }
    ]
