-- ===== src/Tar/Format/Detect.antt =====
-- A format that is set is detected again (tar/format.go).
use arkive.Common.{
  ℕ, zero, suc, ◌+◌, ◌≤◌, ◌≡◌, refl, sym, ap, subst, ◌∙◌, Bool, true, ◌&&◌, [], ◌∷◌, arith, Bytes,
  IsByte, ltb, ◌==◌, if◌then◌else◌, bytes_eq, length, take, drop, All,
}
use arkive.Common.Digits.{All-append}
use arkive.Common.Go.{ok, >>=-eq-ok}
use arkive.Tar.Block.{Field, get, put, block_size}
use arkive.Tar.Block.V7
use arkive.Tar.Block.Gnu
use arkive.Tar.Block.Star
use arkive.Tar.Block.Ustar
use arkive.Tar.Block.Splice.{length-put, get-put, get-put_behind, get-put_before}
use arkive.Tar.Format.{
  Format, magic_gnu, version_gnu, magic_ustar, version_ustar, trailer_star, unsigned_from,
  compute_checksum, guess_magic, guess_format, get_format, put_magic, checksum_field, put_checksum,
  set_format, format_unknown, format_v7, format_gnu, format_star, format_ustar, format_pax,
}
use arkive.Tar.Format.Checksum.{length-checksum_field, get-put_checksum}

All-take : (n : ℕ) (b : Bytes) → All IsByte b → All IsByte (take n b)
All-take zero b h = tt
All-take (suc n) [] h = tt
All-take (suc n) (c ∷ b) (hc, h) = (hc, All-take n b h)

All-drop : (n : ℕ) (b : Bytes) → All IsByte b → All IsByte (drop n b)
All-drop zero b h = h
All-drop (suc n) [] h = tt
All-drop (suc n) (c ∷ b) (hc, h) = All-drop n b h

All-put : (f : Field) (s b : Bytes) → All IsByte s → All IsByte b → All IsByte (put f s b)
All-put f s b hs hb =
    All-append IsByte (take f.offset b) _ (All-take f.offset b hb)
      (All-append IsByte s _ hs (All-drop (f.offset + f.size) b hb))

true_of_same : (n : ℕ) → (n == n) ≡ true
true_of_same n = ground arith

guess_magic-same :
    {m m' v v' t t' : Bytes} → m ≡ m' → v ≡ v' → t ≡ t' → guess_magic m v t ≡ guess_magic m' v' t'
guess_magic-same p q r = cc

-- Neither field of the magic values meets the checksum's field.
guess_format-put_checksum :
    (b : Bytes) → length b ≡ block_size → guess_format (put_checksum b) ≡ guess_format b
unfolding put_checksum guess_format
guess_format-put_checksum b whole =
    let written = length-checksum_field b whole in
    let s = checksum_field b in
    let kept =
      λ (g : Field) (h : 156 ≤ g.offset). get-put_before V7.chksum s b (omega arith) written g h in
    guess_magic-same (kept Ustar.magic (omega arith)) (kept Ustar.version (omega arith))
      (kept Star.trailer (omega arith))

get_format-put_checksum :
    (b : Bytes)
    → length b ≡ block_size
    → All IsByte b
    → get_format (put_checksum b) ≡ guess_format b
unfolding get_format compute_checksum
get_format-put_checksum b whole bytes =
    let (read, same) = get-put_checksum b whole bytes in
    let e : (unsigned_from 0 b == unsigned_from 0 (put_checksum b)) ≡ true = ground (arith, same) in
    rw (read, e) (guess_format-put_checksum b whole)

-- The format that `GetFormat` finds in a block that had these bytes before `SetFormat`.
pub detected : Format → Bytes → Format
detected format_unknown b = format_unknown
detected format_v7 b = guess_format b
detected format_gnu b = format_gnu
detected format_star b = format_star
detected format_ustar b =
    if bytes_eq (get Star.trailer b) trailer_star then format_star else format_ustar
detected format_pax b =
    if bytes_eq (get Star.trailer b) trailer_star then format_star else format_ustar

abbrev pub all_bytes : Bytes → Bool
all_bytes [] = true
all_bytes (c ∷ b) = ltb c 256 && all_bytes b

pub IsByte-list : (b : Bytes) → all_bytes b ≡ true → All IsByte b
IsByte-list [] h = tt
IsByte-list (c ∷ b) h = (ground arith, IsByte-list b (ground arith))

module _ (b : Bytes) (whole : length b ≡ block_size) where
  guess_format-ustar :
      guess_format (put Ustar.version version_ustar (put Ustar.magic magic_ustar b))
      ≡ detected format_ustar b
  unfolding guess_format guess_magic detected bytes_eq
  guess_format-ustar =
      let l = length-put Ustar.magic magic_ustar b (omega arith) refl in
      let b' = put Ustar.magic magic_ustar b in
      let m =
        get-put_behind Ustar.version version_ustar b' (omega arith) refl Ustar.magic (omega arith)
        ∙ get-put Ustar.magic magic_ustar b (omega arith) refl in
      let v = get-put Ustar.version version_ustar b' (omega arith) refl in
      let t =
        get-put_before Ustar.version version_ustar b' (omega arith) refl Star.trailer (omega arith)
        ∙ get-put_before Ustar.magic magic_ustar b (omega arith) refl Star.trailer (omega arith) in
      guess_magic-same m v t ∙ refl

  guess_format-gnu :
      guess_format (put Gnu.version version_gnu (put Gnu.magic magic_gnu b)) ≡ format_gnu
  unfolding guess_format guess_magic bytes_eq
  guess_format-gnu =
      let l = length-put Gnu.magic magic_gnu b (omega arith) refl in
      let b' = put Gnu.magic magic_gnu b in
      let m =
        get-put_behind Gnu.version version_gnu b' (omega arith) refl Ustar.magic (omega arith)
        ∙ get-put Gnu.magic magic_gnu b (omega arith) refl in
      let v = get-put Gnu.version version_gnu b' (omega arith) refl in
      let t =
        get-put_before Gnu.version version_gnu b' (omega arith) refl Star.trailer (omega arith) in
      guess_magic-same m v t ∙ refl

  guess_format-star :
      guess_format (
        put Star.trailer trailer_star
          (put Star.version version_ustar (put Star.magic magic_ustar b)))
      ≡ format_star
  unfolding guess_format guess_magic bytes_eq
  guess_format-star =
      let l = length-put Star.magic magic_ustar b (omega arith) refl in
      let b' = put Star.magic magic_ustar b in
      let l' = length-put Star.version version_ustar b' (omega arith) refl in
      let b'' = put Star.version version_ustar b' in
      let m =
        get-put_behind Star.trailer trailer_star b'' (omega arith) refl Ustar.magic (omega arith)
        ∙ get-put_behind Star.version version_ustar b' (omega arith) refl Ustar.magic (omega arith)
        ∙ get-put Star.magic magic_ustar b (omega arith) refl in
      let v =
        get-put_behind Star.trailer trailer_star b'' (omega arith) refl Ustar.version (omega arith)
        ∙ get-put Star.version version_ustar b' (omega arith) refl in
      let t = get-put Star.trailer trailer_star b'' (omega arith) refl in
      guess_magic-same m v t ∙ refl

  abbrev pub IsBlock : Format → Bytes → Type 0
  IsBlock fmt b' = (length b' ≡ block_size) × All IsByte b' × (guess_format b' ≡ detected fmt b)

  of_ok : (fmt : Format) (x : Bytes) {b' : Bytes} → IsBlock fmt x → ok x ≡ ok b' → IsBlock fmt b'
  of_ok fmt x h e = let p : x ≡ _ = cc in subst (IsBlock fmt) p h

  ustar-IsBlock :
      All IsByte b
      → IsBlock format_ustar (put Ustar.version version_ustar (put Ustar.magic magic_ustar b))
  ustar-IsBlock bytes =
      let l = length-put Ustar.magic magic_ustar b (omega arith) refl in
      let b' = put Ustar.magic magic_ustar b in
      let l' = length-put Ustar.version version_ustar b' (omega arith) refl in
      let h = All-put Ustar.magic magic_ustar b (IsByte-list magic_ustar refl) bytes in
      (
        l' ∙ l ∙ whole,
        All-put Ustar.version version_ustar b' (IsByte-list version_ustar refl) h,
        guess_format-ustar,
      )

  -- The block with the magic values is a block of bytes of the same length.
  put_magic-IsBlock :
      (fmt : Format) {b' : Bytes} → All IsByte b → put_magic fmt b ≡ ok b' → IsBlock fmt b'
  unfolding put_magic detected
  put_magic-IsBlock format_unknown bytes = λ e. absurd cc
  put_magic-IsBlock format_v7 bytes = of_ok format_v7 b (whole, bytes, refl)
  put_magic-IsBlock format_gnu bytes =
      let l = length-put Gnu.magic magic_gnu b (omega arith) refl in
      let b' = put Gnu.magic magic_gnu b in
      let l' = length-put Gnu.version version_gnu b' (omega arith) refl in
      let h = All-put Gnu.magic magic_gnu b (IsByte-list magic_gnu refl) bytes in
      of_ok format_gnu _ (
        l' ∙ l ∙ whole,
        All-put Gnu.version version_gnu b' (IsByte-list version_gnu refl) h,
        guess_format-gnu,
      )
  put_magic-IsBlock format_star bytes =
      let l = length-put Star.magic magic_ustar b (omega arith) refl in
      let b' = put Star.magic magic_ustar b in
      let l' = length-put Star.version version_ustar b' (omega arith) refl in
      let b'' = put Star.version version_ustar b' in
      let l'' = length-put Star.trailer trailer_star b'' (omega arith) refl in
      let h = All-put Star.magic magic_ustar b (IsByte-list magic_ustar refl) bytes in
      let h' = All-put Star.version version_ustar b' (IsByte-list version_ustar refl) h in
      of_ok format_star _ (
        l'' ∙ l' ∙ l ∙ whole,
        All-put Star.trailer trailer_star b'' (IsByte-list trailer_star refl) h',
        guess_format-star,
      )
  put_magic-IsBlock format_ustar bytes = of_ok format_ustar _ (ustar-IsBlock bytes)
  put_magic-IsBlock format_pax bytes = of_ok format_pax _ (ustar-IsBlock bytes)

-- A block of 512 bytes whose format is set has that format when it is read: GNU and STAR as such,
-- USTAR and PAX as USTAR, or as STAR where the block already ends in the STAR trailer, and V7 as
-- whatever the magic values were that stand in the block already. The checksum is always accepted.
pub get_format-set_format :
    (fmt : Format) (b b' : Bytes)
    → length b ≡ block_size
    → All IsByte b
    → set_format fmt b ≡ ok b'
    → get_format b' ≡ detected fmt b
unfolding set_format
get_format-set_format fmt b b' whole bytes e =
    let (m, magic, done) = >>=-eq-ok (put_magic fmt b) _ e in
    let (l, h, g) = put_magic-IsBlock b whole fmt bytes magic in
    let p : put_checksum m ≡ b' = cc in ap get_format (sym p) ∙ get_format-put_checksum m l h ∙ g
