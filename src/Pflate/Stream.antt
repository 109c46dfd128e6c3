-- ===== src/Pflate/Stream.antt =====
-- What the blocks of pflate/pflate.go must be for a reader to get the data back: each is compressed
-- with a dictionary that ends the data in front of it, and the final one is the last.
pub mod Errors
pub mod Invariant
pub mod Moves
pub mod Runs
use arkive.Common.{
  ℕ, zero, suc, ◌+◌, ◌-◌, ◌*◌, ◌/◌, ◌%◌, ◌^◌, ◌≤◌, ◌<◌, min, ◌≡◌, refl, sym, ap, subst, ◌∙◌, ◌≢◌,
  ◌↔◌, ◌⊎◌, inl, inr, Bool, true, false, not, ◌&&◌, ◌||◌, Option, none, some, List, [], ◌∷◌, ◌++◌,
  map, append-nil, append_assoc, arith, Bytes, IsByte, ltb, leb, ◌==◌, if◌then◌else◌, Bool-cases,
  Option-cases, bytes_eq, bytes_eq_iff, length, get_or, take, drop, replicate, length-append,
  take-append-drop, length-take, length-drop, length-replicate, replicate-add, take_append,
  drop_append, take_all, drop_all, drop-drop, drop-append, take-append, get_or-append, All,
}
use arkive.Common.Words.{u16_mod, u32_mod, u64_mod, sign_bit, IsWord, is_neg, add64, sub64, slt}
use arkive.Common.Digits.{
  digits, format_uint, format_int, Parsed, parsed, syntax_error, range_error, is_digit, parse_loop,
  parse_uint, signed, parse_int, All-append, parse_loop-digits, parse_loop-zeros, digits-IsDigit,
  digits-ne-nil, length-digits_mono, length-digits_next, length-digits-le, parse_uint-loop,
  parse_uint-format_uint, parse_int-format_int, parse_int-zeros, digits-zeros,
}
use arkive.Common.Text.{codes, lookup, insert, delete, lookup-insert, lookup-delete}
use arkive.Common.Go.{
  Error, eof, unexpected_eof, err_header, err_field_too_long, err_write_too_long,
  err_write_after_close, err_invalid_header, err_format, err_checksum, err_algorithm, err_long_name,
  err_long_extra, comment_length, too_many_files, negative_offset, missed_bytes, closed_twice,
  write_closed, device, Result, ok, err, panic, stuck, >>=-eq-ok, >>=-ne-stuck, ◌>>=◌, ◌>>◌,
}
use arkive.Pflate.{
  tail_size, default_block_size, default_blocks, Job, Answer, Slot, Caller, Writer, init,
  new_writer, set_concurrency, start, begin_write, chunk_length, chunk, fill_with, fill, tail_of,
  submit_job, submit_part, submit_all, submit, check, begin_flush, begin_close, end_flush,
  push_error, queued, pending, compressed, no_value, ready, filling, sending, checking, flushing,
  awaiting, crashed,
}
use arkive.Pflate.Steps.{
  value_of, receive, written, write_failed, compress_block, Compress, run_job, Internal, Step, Run,
  receives, compresses, writes, fails, internal, write, fills, returns, sends, gives_up, panics,
  checks, flush, close, sends_last, gives_up_last, wakes, here, later,
}

abbrev pub IsSuffix : Bytes → Bytes → Type 0
IsSuffix t h = (front : Bytes) × (h ≡ front ++ t)

-- A decompressor, as DEFLATE documents it: `inflate h s` is what it gives for the stream `s` when
-- `h` is the data in front. A flushed block gives its data and the stream goes on behind it; a
-- closed block ends the stream.
pub record Inflater (compress : Compress) : Type 0 where
  pub inflate : Bytes → Bytes → Bytes
  pub inflate_nil : (h : Bytes) → inflate h [] ≡ []
  pub inflate_flushed :
      (h dict p b rest : Bytes)
      → IsSuffix dict h
      → compress dict p false ≡ inr b
      → inflate h (b ++ rest) ≡ p ++ inflate (h ++ p) rest
  pub inflate_closed :
      (h dict p b : Bytes) → IsSuffix dict h → compress dict p true ≡ inr b → inflate h b ≡ p

module _ (compress : Compress) where
  -- The blocks of a stream, closed or not, with their data.
  pub data Stream : Bool → Bytes → Bytes → Type 0 where
    empty : Stream false [] []
    block :
        {h s b : Bytes} (job : Job)
        → Stream false h s
        → IsSuffix job.dict h
        → run_job compress job ≡ inr b
        → Stream job.final (h ++ job.block) (s ++ b)

  -- An answer that there is, is the block compressed.
  abbrev pub IsAnswer : Job → Answer → Type 0
  IsAnswer job pending = Unit
  IsAnswer job (compressed b) = run_job compress job ≡ inr b
  IsAnswer job no_value = ⊥

  -- The slots that were sent and are not written, behind the data `h`.
  abbrev pub Chain : Bool → Bytes → List Slot → Bool → Bytes → Type 0
  Chain e h [] e' h' = (e ≡ e') × (h ≡ h')
  Chain e h (slot ∷ slots) e' h' =
      (e ≡ false)
      × IsSuffix slot.job.dict h
      × IsAnswer slot.job slot.answer
      × Chain slot.job.final (h ++ slot.job.block) slots e' h'

  pub Chain-snoc :
      (e : Bool) (h : Bytes) (slots : List Slot) (h' : Bytes) (job : Job)
      → Chain e h slots false h'
      → IsSuffix job.dict h'
      → Chain e h
          (slots ++ (record { job = job; answer = pending }) ∷ [])
          job.final
          (h' ++ job.block)
  Chain-snoc e h [] h' job (p, q) s =
      (p, subst (IsSuffix job.dict) (sym q) s, tt, (refl, ap (λ x. x ++ job.block) q))
  Chain-snoc e h (slot ∷ slots) h' job (p, q, r, c) s =
      (p, q, r, Chain-snoc slot.job.final (h ++ slot.job.block) slots h' job c s)

  pub Chain-answer :
      (e : Bool) (h : Bytes) (before : List Slot) (job : Job) (behind : List Slot) (b : Bytes)
      (e' : Bool) (h' : Bytes)
      → Chain e h (before ++ (record { job = job; answer = pending }) ∷ behind) e' h'
      → run_job compress job ≡ inr b
      → Chain e h (before ++ (record { job = job; answer = compressed b }) ∷ behind) e' h'
  Chain-answer e h [] job behind b e' h' (p, q, r, c) eq = (p, q, eq, c)
  Chain-answer e h (slot ∷ before) job behind b e' h' (p, q, r, c) eq =
      (p, q, r, Chain-answer slot.job.final (h ++ slot.job.block) before job behind b e' h' c eq)

  module _ (inf : Inflater compress) where
    inflate-flushed :
        (job : Job) (h b rest : Bytes)
        → IsSuffix job.dict h
        → run_job compress job ≡ inr b
        → job.final ≡ false
        → inf.inflate h (b ++ rest) ≡ job.block ++ inf.inflate (h ++ job.block) rest
    unfolding run_job
    inflate-flushed job h b rest suf eq f =
        inf.inflate_flushed h job.dict job.block b rest suf
          (subst (λ f. compress job.dict job.block f ≡ inr b) f eq)

    inflate-closed :
        (job : Job) (h b : Bytes)
        → IsSuffix job.dict h
        → run_job compress job ≡ inr b
        → job.final ≡ true
        → inf.inflate h b ≡ job.block
    unfolding run_job
    inflate-closed job h b suf eq f =
        inf.inflate_closed h job.dict job.block b suf
          (subst (λ f. compress job.dict job.block f ≡ inr b) f eq)

    inflate-Stream_open :
        {h s : Bytes} {e : Bool}
        → Stream e h s
        → e ≡ false
        → (rest : Bytes) → inf.inflate [] (s ++ rest) ≡ h ++ inf.inflate h rest
    inflate-Stream_open empty eq rest = refl
    inflate-Stream_open (block {h = h} {s = s} {b = b} job st suf run) eq rest =
        ap (inf.inflate []) (append_assoc s b rest)
        ∙ inflate-Stream_open st refl (b ++ rest)
        ∙ ap (λ x. h ++ x) (inflate-flushed job h b rest suf run eq)
        ∙ sym (append_assoc h job.block _)

    -- A stream gives the data of its blocks back.
    pub inflate-Stream : {h s : Bytes} {e : Bool} → Stream e h s → inf.inflate [] s ≡ h
    inflate-Stream empty = inf.inflate_nil []
    inflate-Stream (block {h = h} {s = s} {b = b} job st suf run) =
        inflate-Stream_open st refl b
        ∙ ap (λ x. h ++ x)
            (elim (Bool-cases job.final) [
              | inl f ↦ inflate-closed job h b suf run f
              | inr f ↦
                  ap (inf.inflate h) (sym (append-nil b))
                  ∙ inflate-flushed job h b [] suf run f
                  ∙ ap (λ x. job.block ++ x) (inf.inflate_nil _)
                  ∙ append-nil job.block
            ])
