-- ===== src/Pflate/Stream/Errors.antt =====
-- No step of pflate/pflate.go takes an error back.
use arkive.Common.{
  ℕ, ◌*◌, ◌≡◌, refl, sym, ◌∙◌, ◌⊎◌, inl, inr, Bool, true, false, Option, none, some, List, ◌∷◌,
  ◌++◌, Bytes, ltb, leb, Bool-cases, length, take,
}
use arkive.Common.Go.{Error}
use arkive.Pflate.{
  Job, Slot, Caller, Writer, start, begin_write, chunk_length, fill_with, fill, submit_job,
  submit_part, submit_all, submit, check, begin_flush, begin_close, end_flush, push_error,
}
use arkive.Pflate.Steps.{
  receive, written, write_failed, compress_block, Compress, run_job, Internal, Step, receives,
  compresses, writes, fails, internal, write, fills, returns, sends, gives_up, panics, checks,
  flush, close, sends_last, gives_up_last, wakes,
}

start-error : (s : Bool) (z : Writer) → (start s z).error ≡ z.error
unfolding start
start-error true z = refl
start-error false z = refl

begin_write-error :
    (o : Option Error) (p : Bytes) (z : Writer) → (begin_write o p z).error ≡ z.error
unfolding begin_write
begin_write-error none p z = start-error z.started z
begin_write-error (some e) p z = refl

begin_flush-error : (o : Option Error) (c : Bool) (z : Writer) → (begin_flush o c z).error ≡ z.error
unfolding begin_flush
begin_flush-error none true z = refl
begin_flush-error none false z = start-error z.started z
begin_flush-error (some e) c z = refl

begin_close-error : (o : Option Error) (c : Bool) (z : Writer) → (begin_close o c z).error ≡ z.error
unfolding begin_close
begin_close-error none true z = refl
begin_close-error none false z = start-error z.started (record z { closed = true })
begin_close-error (some e) c z = refl

end_flush-error : (o : Option Error) (c : Bool) (z : Writer) → (end_flush o c z).error ≡ z.error
unfolding end_flush
end_flush-error none true z = refl
end_flush-error none false z = refl
end_flush-error (some e) c z = refl

check-error :
    (o : Option Error) (total n : ℕ) (rest : Bytes) (z : Writer)
    → (check o total n rest z).error ≡ z.error
unfolding check
check-error none total n rest z = refl
check-error (some e) total n rest z = refl

fill-error : (total : ℕ) (q : Bytes) (z : Writer) → (fill total q z).error ≡ z.error
unfolding fill fill_with
fill-error total q z = elim (Bool-cases (ltb z.block_size (length z.current))) [
  | inl h ↦ rw (h) refl
  | inr h ↦ elim (Bool-cases (leb z.block_size (length (z.current ++ take (chunk_length z q) q)))) [
    | inl k ↦ rw (h, k) refl
    | inr k ↦ rw (h, k) refl
  ]
]

submit-error : (again next : Caller) (z : Writer) → (submit again next z).error ≡ z.error
unfolding submit submit_part submit_all submit_job
submit-error again next z = elim (Bool-cases (ltb (z.block_size * 2) (length z.current))) [
  | inl h ↦ rw (h) refl
  | inr h ↦ rw (h) refl
]

push_error-none : (e : Error) (o : Option Error) → push_error e o ≡ none → o ≡ none
unfolding push_error
push_error-none e none h = refl
push_error-none e (some f) h = h

compress_block-none :
    (r : Error ⊎ Bytes) (before : List Slot) (job : Job) (behind : List Slot) (z : Writer)
    → (compress_block r before job behind z).error ≡ none
    → z.error ≡ none
unfolding compress_block
compress_block-none (inl e) before job behind z h = push_error-none e z.error h
compress_block-none (inr b) before job behind z h = h

module _ (compress : Compress) where
  pub Internal-error : {z t : Writer} → Internal compress z t → t.error ≡ none → z.error ≡ none
  unfolding receive written write_failed
  Internal-error (receives slot rest l r h) e = e
  Internal-error {z = z} (compresses before job behind h) e =
      compress_block-none (run_job compress job) before job behind z e
  Internal-error (writes slot rest b r h v) e = e
  Internal-error {z = z} (fails slot rest b n x r h v) e = push_error-none x z.error e

  -- Where there is no error behind a step, there was none in front of it.
  pub Step-error :
      {z t : Writer} {c : Bytes} → Step compress z c t → t.error ≡ none → z.error ≡ none
  Step-error (internal i) e = Internal-error i e
  Step-error {z = z} (write n x p h) e = sym (begin_write-error z.error p z) ∙ e
  Step-error {z = z} (fills total c q h) e = sym (fill-error total (c ∷ q) z) ∙ e
  Step-error (returns total h) e = e
  Step-error {z = z} (sends total n rest h o q) e = sym (submit-error _ _ z) ∙ e
  Step-error (gives_up total n rest x h f) e = e
  Step-error (panics total n rest h o) e = e
  Step-error {z = z} (checks total n rest h) e = sym (check-error z.error total n rest z) ∙ e
  Step-error {z = z} (flush n x h) e = sym (begin_flush-error z.error z.closed z) ∙ e
  Step-error {z = z} (close n x h) e = sym (begin_close-error z.error z.closed z) ∙ e
  Step-error {z = z} (sends_last h o q) e = sym (submit-error _ _ z) ∙ e
  Step-error {z = z} (gives_up_last x h f) e = sym (end_flush-error z.error z.closed z) ∙ e
  Step-error {z = z} (wakes n h lt) e = sym (end_flush-error z.error z.closed z) ∙ e
