-- ===== src/Zip/Encoding.antt =====
-- `detectUTF8` (zip/writer.go), over `utf8.DecodeRuneInString` of Go's library.
use arkive.Common.{
  ℕ, zero, suc, ◌+◌, ◌-◌, ◌*◌, Bool, true, false, not, ◌&&◌, ◌||◌, [], ◌∷◌, Bytes, ltb, leb, ◌==◌,
  if◌then◌else◌, length, drop,
}

abbrev pub rune_error : ℕ
rune_error = 0xfffd

-- Is the byte in the range?
unfoldable pub between : ℕ → ℕ → ℕ → Bool
between lo hi c = leb lo c && leb c hi

-- The range of the second byte behind the first byte `c`.
unfoldable pub second_low : ℕ → ℕ
second_low c = if c == 0xe0 then 0xa0 else if c == 0xf0 then 0x90 else 0x80

unfoldable pub second_high : ℕ → ℕ
second_high c = if c == 0xed then 0x9f else if c == 0xf4 then 0x8f else 0xbf

unfoldable pub is_second : ℕ → ℕ → Bool
unfolding between second_low second_high
is_second c x = between (second_low c) (second_high c) x

-- The rune and the number of its bytes; (RuneError, 1) for an encoding that is not valid.
unfoldable pub decode_multi : ℕ → Bytes → ℕ × ℕ
unfolding between is_second
decode_multi c [] = (rune_error, 1)
decode_multi c (x ∷ []) =
    if between 0xc2 0xdf c && is_second c x
    then (64 * (c - 0xc0) + (x - 0x80), 2)
    else (rune_error, 1)
decode_multi c (x ∷ y ∷ []) =
    if between 0xc2 0xdf c && is_second c x
    then (64 * (c - 0xc0) + (x - 0x80), 2)
    else if between 0xe0 0xef c && is_second c x && between 0x80 0xbf y
    then (4096 * (c - 0xe0) + 64 * (x - 0x80) + (y - 0x80), 3)
    else (rune_error, 1)
decode_multi c (x ∷ y ∷ z ∷ s) =
    if between 0xc2 0xdf c && is_second c x
    then (64 * (c - 0xc0) + (x - 0x80), 2)
    else if between 0xe0 0xef c && is_second c x && between 0x80 0xbf y
    then (4096 * (c - 0xe0) + 64 * (x - 0x80) + (y - 0x80), 3)
    else if between 0xf0 0xf4 c && is_second c x && between 0x80 0xbf y && between 0x80 0xbf z
    then (262144 * (c - 0xf0) + 4096 * (x - 0x80) + 64 * (y - 0x80) + (z - 0x80), 4)
    else (rune_error, 1)

unfoldable pub decode_rune : Bytes → ℕ × ℕ
unfolding decode_multi
decode_rune [] = (rune_error, 0)
decode_rune (c ∷ s) = if ltb c 0x80 then (c, 1) else decode_multi c s

-- What the loop does with a rune: not valid, or valid and whether it requires UTF-8. The decoder
-- gives valid runes only, so the first test of the source is always passed.
unfoldable pub is_plain : ℕ → Bool
is_plain r = not (ltb r 0x20 || ltb 0x7d r || (r == 0x5c))

-- The loop, with `require` so far; each rune takes a byte at least.
unfoldable pub detect_loop : ℕ → Bytes → Bool → Bool × Bool
unfolding decode_rune is_plain
detect_loop zero s require = (true, require)
detect_loop (suc fuel) [] require = (true, require)
detect_loop (suc fuel) (c ∷ s) require =
    let (r, size) = decode_rune (c ∷ s) in
    let rest = detect_loop fuel (drop size (c ∷ s)) in
    if is_plain r
    then rest require
    else if (r == rune_error) && (size == 1)
    then (false, false)
    else rest true

-- Whether the string is valid UTF-8, and whether it must be taken for UTF-8.
unfoldable pub detect_utf8 : Bytes → Bool × Bool
unfolding detect_loop
detect_utf8 s = detect_loop (length s) s false
