-- ===== src/Tar/Writer.antt =====
-- `Writer` (tar/writer.go): `Flush`, `Write` and `Close`, and the split of a long path.
pub mod Balance
pub mod Split
mod Tests
use arkive.Common.{
  ℕ, zero, suc, ◌+◌, ◌-◌, ◌*◌, ◌/◌, ◌%◌, ◌^◌, ◌≤◌, ◌<◌, min, ◌≡◌, refl, sym, ap, subst, ◌∙◌, ◌≢◌,
  ◌↔◌, ◌⊎◌, inl, inr, Bool, true, false, not, ◌&&◌, ◌||◌, Option, none, some, List, [], ◌∷◌, ◌++◌,
  map, append-nil, append_assoc, arith, Bytes, IsByte, ltb, leb, ◌==◌, if◌then◌else◌, Bool-cases,
  Option-cases, bytes_eq, bytes_eq_iff, length, get_or, take, drop, replicate, length-append,
  take-append-drop, length-take, length-drop, length-replicate, replicate-add, take_append,
  drop_append, take_all, drop_all, drop-drop, drop-append, take-append, get_or-append, All,
}
use arkive.Common.Words.{u16_mod, u32_mod, u64_mod, sign_bit, IsWord, is_neg, add64, sub64, slt}
use arkive.Common.Digits.{
  digits, format_uint, format_int, Parsed, parsed, syntax_error, range_error, is_digit, parse_loop,
  parse_uint, signed, parse_int, All-append, parse_loop-digits, parse_loop-zeros, digits-IsDigit,
  digits-ne-nil, length-digits_mono, length-digits_next, length-digits-le, parse_uint-loop,
  parse_uint-format_uint, parse_int-format_int, parse_int-zeros, digits-zeros,
}
use arkive.Common.Text.{codes, lookup, insert, delete, lookup-insert, lookup-delete}
use arkive.Common.Go.{
  Error, eof, unexpected_eof, err_header, err_field_too_long, err_write_too_long,
  err_write_after_close, err_invalid_header, err_format, err_checksum, err_algorithm, err_long_name,
  err_long_extra, comment_length, too_many_files, negative_offset, missed_bytes, closed_twice,
  write_closed, device, Result, ok, err, panic, stuck, >>=-eq-ok, >>=-ne-stuck, ◌>>=◌, ◌>>◌,
}
use arkive.Tar.Strconv.{
  is_ascii, to_ascii, Parser, Formatter, parse_string, format_string, trim, parse_octal,
  format_octal, fits_in_base256, shift_right, big_endian, format_numeric, parse_numeric,
}
use arkive.Tar.Block.{Field, get, put, block_size, name_size, prefix_size}

-- What the writer under it answers: how many bytes it took, an error, and the writer after. By the
-- contract of `io.Writer` an answer without an error has taken all of them.
pub record Sink : Type 1 where
  pub State : Type 0
  pub write : State → Bytes → ℕ × Option Error × State
  pub written : State → Bytes
  pub takes : (s : State) (b : Bytes) → (write s b).0 ≤ length b
  pub takes_all : (s : State) (b : Bytes) → (write s b).1 ≡ none → (write s b).0 ≡ length b
  pub writes : (s : State) (b : Bytes) → written (write s b).2 ≡ written s ++ take (write s b).0 b

-- The fields of `Writer` that its operations below read; the counts are not negative.
pub record Writer (S : Type 0) : Type 0 where
  pub sink : S
  pub nb : ℕ
  pub pad : ℕ
  pub error : Option Error
  pub closed : Bool

-- The answer of a call of `Write`: the count, the error, and the writer after it.
pub record Written (S : Type 0) : Type 0 where
  pub count : ℕ
  pub error : Option Error
  pub writer : Writer S

-- `err == nil`
abbrev pub is_none : Option Error → Bool
is_none none = true
is_none (some e) = false

module _ (out : Sink) where
  open out use {State, write}

  -- The loop of `Flush` over `n` bytes of padding. A call that takes nothing answers an error.
  unfoldable pub flush_loop : ℕ → State → ℕ → Option Error → State × Option Error
  flush_loop zero st n e = (st, e)
  flush_loop (suc fuel) st zero e = (st, e)
  flush_loop (suc fuel) st (suc n) (some e) = (st, some e)
  flush_loop (suc fuel) st (suc n) none =
      let nr = if ltb block_size (suc n) then block_size else suc n in
      let (nw, e, st') = write st (replicate nr 0) in flush_loop fuel st' (suc n - nw) e

  unfoldable pub flush : Writer State → Writer State
  unfolding flush_loop
  flush tw =
      let (st, e) = flush_loop tw.pad tw.sink tw.pad tw.error in
      if ltb 0 tw.nb
      then record tw { error = some missed_bytes }
      else record tw { sink = st; nb = 0; pad = 0; error = e }

  -- `Write` behind the test of `closed`; `over` is the source's `overwrite`.
  unfoldable pub write_some : Writer State → Bool → Bytes → Written State
  write_some tw over b =
      let (n, e, st) = write tw.sink b in
      if over && is_none e
      then record {
        count = n;
        error = some err_write_too_long;
        writer = record tw { sink = st; nb = tw.nb - n };
      }
      else record {
        count = n;
        error = e;
        writer = record tw { sink = st; nb = tw.nb - n; error = e };
      }

  unfoldable pub write_entry : Writer State → Bytes → Written State
  unfolding write_some
  write_entry tw b =
      let over = ltb tw.nb (length b) in
      if tw.closed
      then record { count = 0; error = some err_write_after_close; writer = tw }
      else write_some tw over (if over then take tw.nb b else b)

  -- The trailer: two zero blocks, the second only behind the first.
  unfoldable pub write_trailer : Writer State → Writer State
  write_trailer tw =
      let (_, e, st) = write tw.sink (replicate block_size 0) in
      let (_, e', st') = write st (replicate block_size 0) in
      if is_none e then record tw { sink = st'; error = e' } else record tw { sink = st; error = e }

  unfoldable pub close : Writer State → Writer State
  unfolding flush write_trailer
  close tw =
      let tw' = record (flush tw) { closed = true } in
      if not (is_none tw.error) || tw.closed
      then tw
      else if is_none tw'.error
      then write_trailer tw'
      else tw'

later_index : ℕ → ℕ → Option ℕ → Option ℕ
later_index c d none = if d == c then some 0 else none
later_index c d (some i) = some (suc i)

-- `strings.LastIndex(s, "/")`; `none` stands for -1.
unfoldable pub last_index : ℕ → Bytes → Option ℕ
unfolding later_index
last_index c [] = none
last_index c (d ∷ s) = later_index c d (last_index c s)

-- How much of the name is searched for the last slash.
unfoldable pub searched : Bytes → ℕ
searched name =
    let len = length name in
    if ltb (prefix_size + 1) len
    then prefix_size + 1
    else if get_or name (len - 1) 0 == b'/'
    then len - 1
    else len

unfoldable pub split_at : Bytes → Option ℕ → Option (Bytes × Bytes)
split_at name none = none
split_at name (some i) =
    let nlen = length name - i - 1 in
    if i == 0 || ltb name_size nlen || nlen == 0 || ltb prefix_size i
    then none
    else some (take i name, drop (suc i) name)

-- The prefix and the suffix, or `none` for the result `false`.
unfoldable pub split_ustar_path : Bytes → Option (Bytes × Bytes)
unfolding last_index searched split_at
split_ustar_path name =
    if leb (length name) name_size || not (is_ascii name)
    then none
    else split_at name (last_index b'/' (take (searched name) name))
