-- ===== src/Tar/Block/Splice.antt =====
-- Fields that are written and read back, in tar header blocks (tar/format.go).
use arkive.Common.{
  ◌+◌, ◌-◌, ◌≤◌, ◌≡◌, sym, ap, ◌∙◌, ◌++◌, append_assoc, arith, Bytes, length, take, drop,
  length-append, take-append-drop, length-take, length-drop, take_append, drop_append, drop-drop,
  drop-append, take-append,
}
use arkive.Tar.Block.{Field, get, put}

module _ (f : Field) (s b : Bytes) (fits : f.offset + f.size ≤ length b)
    (whole : length s ≡ f.size) where
  pub length-put : length (put f s b) ≡ length b
  length-put = omega (
    arith,
    length-append (take f.offset b) (s ++ drop (f.offset + f.size) b),
    length-append s (drop (f.offset + f.size) b),
    length-take f.offset b,
    length-drop (f.offset + f.size) b,
  )

  pub get-put : get f (put f s b) ≡ s
  get-put =
      let e =
        drop_append (take f.offset b) (s ++ drop (f.offset + f.size) b) f.offset
          (omega (arith, length-take f.offset b)) in
      ap (λ x. take f.size x) e ∙ take_append s _ f.size (omega arith)

  -- A field that ends where the other begins, or before.
  pub get-put_behind : (g : Field) → g.offset + g.size ≤ f.offset → get g (put f s b) ≡ get g b
  get-put_behind g h =
      let p =
        drop-append g.offset (take f.offset b) (s ++ drop (f.offset + f.size) b)
          (omega (arith, length-take f.offset b)) in
      let q =
        drop-append g.offset (take f.offset b) (drop f.offset b)
          (omega (arith, length-take f.offset b)) in
      let l = length-drop g.offset (take f.offset b) in
      let m = length-take f.offset b in
      ap (λ x. take g.size x) p
      ∙ take-append g.size (drop g.offset (take f.offset b)) _ (omega arith)
      ∙ sym (take-append g.size (drop g.offset (take f.offset b)) (drop f.offset b) (omega arith))
      ∙ ap (λ x. take g.size x) (sym q)
      ∙ ap (λ x. take g.size (drop g.offset x)) (take-append-drop f.offset b)

  -- A field that begins where the other ends, or further on.
  pub get-put_before : (g : Field) → f.offset + f.size ≤ g.offset → get g (put f s b) ≡ get g b
  get-put_before g h =
      let j = g.offset - (f.offset + f.size) in
      let front = take f.offset b ++ s in
      let l = length-append (take f.offset b) s in
      let m = length-take f.offset b in
      let e : f.offset + f.size + j ≡ g.offset = omega arith in
      ap (λ x. get g x) (sym (append_assoc (take f.offset b) s (drop (f.offset + f.size) b)))
      ∙ ap (λ i. take g.size (drop i (front ++ drop (f.offset + f.size) b))) (sym e)
      ∙ ap (λ x. take g.size x)
          (sym (drop-drop (f.offset + f.size) j (front ++ drop (f.offset + f.size) b))
            ∙ ap (λ x. drop j x) (drop_append front (drop (f.offset + f.size) b) _ (omega arith))
            ∙ drop-drop (f.offset + f.size) j b
            ∙ ap (λ i. drop i b) e)
