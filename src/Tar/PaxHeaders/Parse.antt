-- ===== src/Tar/PaxHeaders/Parse.antt =====
-- `parsePAX` ends on every input, and reads the records of `formatPAXRecord` as assignments in order.
use arkive.Common.{
  ℕ, zero, suc, ◌+◌, ◌-◌, ◌^◌, ◌≤◌, ◌<◌, ◌≡◌, refl, ap, ◌∙◌, ◌≢◌, inl, inr, false, ◌||◌, [], ◌∷◌,
  ◌++◌, arith, Bytes, Bool-cases, Option-cases, length, drop, length-append, length-drop, All,
}
use arkive.Common.Words.{slt}
use arkive.Common.Digits.{Parsed, parsed, syntax_error, range_error}
use arkive.Common.Go.{ok, stuck, >>=-eq-ok, >>=-ne-stuck}
use arkive.Tar.Pax.{
  index_byte, slice, format_pax_record, PaxRecord, split_record, sized_record, parse_pax_record,
}
use arkive.Tar.Pax.Record.{Lacks, parse_pax_record-format_pax_record}
use arkive.Tar.Pax.Size.{length-record_text, format_pax_record-size}
use arkive.Tar.PaxHeaders.{
  Headers, PaxState, sparse_case, assign, is_sparse_key, pax_step, finish_pax, parse_pax_loop,
  parse_pax,
}

split_record-rest :
    (rec nl rem : Bytes) {r : PaxRecord} → split_record rec nl rem ≡ ok r → r.rest ≡ rem
unfolding split_record
split_record-rest rec nl rem e = ground arith

sized_record-rest :
    (s : Bytes) (sp : ℕ) (p : Parsed) {r : PaxRecord}
    → sized_record s sp p ≡ ok r
    → (n : ℕ) × (1 ≤ n) × (r.rest ≡ drop n s)
unfolding sized_record
sized_record-rest s sp (parsed n) e = elim (Bool-cases (slt n 5 || slt (length s) n)) [
  | inl outside ↦ cc (rw outside at e)
  | inr inside ↦
      let (rec, _, e') = >>=-eq-ok (slice (sp + 1) (n - 1) s) _ (rw inside at e) in
      let (nl, _, e'') = >>=-eq-ok (slice (n - 1) n s) _ e' in
      (n, ground arith, split_record-rest rec nl (drop n s) e'')
]
sized_record-rest s sp syntax_error e = cc
sized_record-rest s sp range_error e = cc

-- What is left behind a record is shorter.
parse_pax_record-shorter :
    (c : ℕ) (s : Bytes) {r : PaxRecord} → parse_pax_record (c ∷ s) ≡ ok r → length r.rest ≤ length s
unfolding parse_pax_record
parse_pax_record-shorter c s e = elim (Option-cases (index_byte b' ' (c ∷ s))) [
  | inl none_found ↦ cc (rw (none_found, parse_pax_record) at e)
  | inr (sp, found) ↦
      let (n, low, rest) = sized_record-rest (c ∷ s) sp _ (rw (found, parse_pax_record) at e) in
      rw rest (omega (arith, length-drop n (c ∷ s)))
]

sized_record-ne-stuck : (s : Bytes) (sp : ℕ) (p : Parsed) → sized_record s sp p ≢ stuck
unfolding sized_record split_record slice
sized_record-ne-stuck s sp (parsed n) e = ground arith
sized_record-ne-stuck s sp syntax_error e = cc
sized_record-ne-stuck s sp range_error e = cc

parse_pax_record-ne-stuck : (s : Bytes) → parse_pax_record s ≢ stuck
unfolding parse_pax_record
parse_pax_record-ne-stuck s e = elim (Option-cases (index_byte b' ' s)) [
  | inl none_found ↦ cc (rw (none_found, parse_pax_record) at e)
  | inr (sp, found) ↦ sized_record-ne-stuck s sp _ (rw (found, parse_pax_record) at e)
]

pax_step-ne-stuck : (s : PaxState) (k v : Bytes) → pax_step s k v ≢ stuck
unfolding pax_step sparse_case
pax_step-ne-stuck s k v e = ground arith

parse_pax_loop-ne-stuck :
    (fuel : ℕ) (s : PaxState) (b : Bytes) → length b ≤ fuel → parse_pax_loop fuel s b ≢ stuck
unfolding parse_pax_loop
parse_pax_loop-ne-stuck fuel s [] h = λ e. cc
parse_pax_loop-ne-stuck zero s (c ∷ b) h = absurd (omega arith)
parse_pax_loop-ne-stuck (suc fuel) s (c ∷ b) h =
    >>=-ne-stuck (parse_pax_record (c ∷ b)) _ (parse_pax_record-ne-stuck (c ∷ b)) λ r read.
      >>=-ne-stuck (pax_step s r.key r.value) _ (pax_step-ne-stuck s r.key r.value) λ s' done.
        parse_pax_loop-ne-stuck fuel s' r.rest (omega (arith, parse_pax_record-shorter c b read))

-- `parsePAX` ends on every input: its loop never runs out of fuel.
pub parse_pax-ne-stuck : (b : Bytes) → parse_pax b ≢ stuck
unfolding parse_pax
parse_pax-ne-stuck b = parse_pax_loop-ne-stuck (length b) _ b (omega arith)

-- The body of an extended header: the records of some pairs, one after the other.
abbrev pub pax_body : Headers → Bytes
pax_body [] = []
pax_body ((k, v) ∷ m) = format_pax_record k v ++ pax_body m

-- Pairs that a header can hold: a key with no equals sign that is not one of the sparse keys.
abbrev pub IsPaxPair : Bytes × Bytes → Type 0
IsPaxPair p =
    (1 ≤ length p.0)
    × Lacks b'=' p.0
    × (is_sparse_key p.0 ≡ false)
    × (length p.0 + length p.1 < 2 ^ 59)

abbrev pub assign_all : Headers → Headers → Headers
assign_all m [] = m
assign_all m ((k, v) ∷ ps) = assign_all (assign m k v) ps

parse_pax_loop_step :
    (fuel : ℕ) (s s' : PaxState) (b : Bytes) {r : PaxRecord}
    → 1 ≤ length b
    → parse_pax_record b ≡ ok r
    → pax_step s r.key r.value ≡ ok s'
    → parse_pax_loop (suc fuel) s b ≡ parse_pax_loop fuel s' r.rest
unfolding parse_pax_loop
parse_pax_loop_step fuel s s' [] h e e' = absurd (omega arith)
parse_pax_loop_step fuel s s' (c ∷ b) h e e' = rw e (rw e')

length-format_pax_record-le :
    (k v : Bytes) → length k + length v < 2 ^ 60 → 1 ≤ length (format_pax_record k v)
length-format_pax_record-le k v fits =
    let printed = ap (λ (s : Bytes). length s) (format_pax_record-size k v fits) in
    omega (arith, printed, length-record_text (length (format_pax_record k v)) k v)

parse_pax_loop-pax_body :
    (ps : Headers) (fuel : ℕ) (m : Headers)
    → All IsPaxPair ps
    → length (pax_body ps) < 2 ^ 59
    → length (pax_body ps) ≤ fuel
    → parse_pax_loop fuel (record { sparse_map = []; ext_hdrs = m }) (pax_body ps)
      ≡ ok (assign_all m ps)
parse_pax_loop-pax_body [] fuel m h small enough = unfold parse_pax_loop finish_pax in refl
parse_pax_loop-pax_body ((k, v) ∷ ps) zero m (h, hs) small enough = absurd (
    omega (
      arith,
      length-append (format_pax_record k v) (pax_body ps),
      length-format_pax_record-le k v (omega arith),
    ))
parse_pax_loop-pax_body ((k, v) ∷ ps) (suc fuel) m ((key, lacks, plain, size), hs) small enough =
    let split = length-append (format_pax_record k v) (pax_body ps) in
    let some_byte = length-format_pax_record-le k v (omega arith) in
    parse_pax_loop_step fuel (record { sparse_map = []; ext_hdrs = m })
      (record { sparse_map = []; ext_hdrs = assign m k v }) (format_pax_record k v ++ pax_body ps)
      (omega (arith, split))
      (parse_pax_record-format_pax_record k v (pax_body ps) key lacks (omega (arith, split)))
      (unfold pax_step in rw plain)
    ∙ parse_pax_loop-pax_body ps fuel (assign m k v) hs (omega (arith, split))
        (omega (arith, split))

-- The records that `formatPAXRecord` prints for a list of pairs are read as these pairs assigned in
-- order; a pair with an empty value deletes its key.
pub parse_pax-pax_body :
    (ps : Headers)
    → All IsPaxPair ps
    → length (pax_body ps) < 2 ^ 59
    → parse_pax (pax_body ps) ≡ ok (assign_all [] ps)
unfolding parse_pax
parse_pax-pax_body ps h small = parse_pax_loop-pax_body ps _ [] h small (omega arith)
