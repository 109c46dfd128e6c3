-- ===== src/Zip/Extras/Fields.antt =====
-- Extra fields one behind the other are read one after the other (`readDirectoryHeader`,
-- zip/reader.go): only the zip64 field has the sizes, the others change the time and nothing else.
use arkive.Common.{
  ℕ, suc, ◌+◌, ◌-◌, ◌^◌, ◌≤◌, ◌<◌, ◌≡◌, refl, ap, ◌∙◌, false, List, [], ◌∷◌, ◌++◌, arith, Bytes,
  ltb, length, length-append, All,
}
use arkive.Common.Go.{◌>>=◌}
use native.Mathlib.Nat.{mod-eq_of_lt}
use arkive.Zip.Buf.{put_uint16}
use arkive.Zip.Buf.Laws.{sub-append, length-put_uint16, read_put}
use arkive.Zip.Extras.{Extras, read_extra, parse_extras}
use arkive.Zip.Extras.Times.{field_time, extra_time, IsField, read_extra-time}

-- Extra fields, each with its tag and its size, in front of `rest`.
abbrev pub put_extras : List (ℕ × Bytes) → Bytes → Bytes
put_extras [] rest = rest
put_extras ((tag, b) ∷ fields) rest =
    put_uint16 tag (put_uint16 (length b) (b ++ put_extras fields rest))

-- One round of the loop.
pub parse_extras-put :
    (tag : ℕ) (b rest : Bytes) (fuel : ℕ) (x : Extras)
    → tag < 2 ^ 16
    → length b < 2 ^ 16
    → parse_extras (suc fuel) (put_uint16 tag (put_uint16 (length b) (b ++ rest))) x
      ≡ (read_extra tag b x >>= parse_extras fuel rest)
unfolding parse_extras
parse_extras-put tag b rest fuel x ht hb =
    let k : ltb (length (put_uint16 tag (put_uint16 (length b) (b ++ rest)))) 4 ≡ false = ground (
      arith,
      length-put_uint16 tag (put_uint16 (length b) (b ++ rest)),
      length-put_uint16 (length b) (b ++ rest),
    ) in
    let m : ltb (length (b ++ rest)) (length b) ≡ false = ground (arith, length-append b rest) in
    rw (k)
      (simp (read_put, mod-eq_of_lt ht, mod-eq_of_lt hb, m, sub-append (length b) b rest refl) refl)

-- The loop over such fields goes on at what is behind them, with the time that they give.
pub parse_extras-put_extras :
    (fields : List (ℕ × Bytes)) (rest : Bytes) (fuel : ℕ) (x : Extras)
    → All IsField fields
    → length (put_extras fields rest) ≤ fuel
    → (k : ℕ) × (length rest ≤ k)
      × (parse_extras fuel (put_extras fields rest) x
          ≡ parse_extras k rest (record x { time = extra_time fields x.time }))
parse_extras-put_extras [] rest fuel x hs le = (fuel, le, refl)
parse_extras-put_extras ((tag, b) ∷ fields) rest fuel x ((ht, hb, hz, hn), hs) le =
    let behind : Bytes = put_extras fields rest in
    let l = length-append b behind in
    let long : 4 + length behind ≤ fuel = omega (
      arith,
      le,
      l,
      length-put_uint16 tag (put_uint16 (length b) (b ++ behind)),
      length-put_uint16 (length b) (b ++ behind),
    ) in
    let one : fuel ≡ suc (fuel - 1) = omega (arith, long) in
    let e = read_extra-time tag b x hz hn in
    let (k, m, f) =
      parse_extras-put_extras fields rest (fuel - 1)
        (record x { time = field_time (tag, b) x.time }) hs (omega (arith, long)) in
    (
      k,
      m,
      ap (λ n. parse_extras n (put_uint16 tag (put_uint16 (length b) (b ++ behind))) x) one
          ∙ parse_extras-put tag b behind (fuel - 1) x ht hb
          ∙ ap (λ r. r >>= parse_extras (fuel - 1) behind) e
          ∙ f,
    )
