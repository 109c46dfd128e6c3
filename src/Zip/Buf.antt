-- ===== src/Zip/Buf.antt =====
-- `readBuf` (zip/reader.go) and `writeBuf` (zip/writer.go): little-endian cursors over a slice.
-- A read cursor is the slice that is left; a read past its end is a run-time panic. A write cursor
-- fills a buffer of fixed size from the front, so it is given by the bytes written, in front of the
-- bytes that the later writes put there.
pub mod Laws
use arkive.Common.{
  ℕ, suc, zero, ◌+◌, ◌*◌, ◌/◌, ◌%◌, ◌^◌, List, [], ◌∷◌, ◌++◌, length, take, drop, ltb, replicate,
  if◌then◌else◌, Bytes,
}
use arkive.Common.Go.{Result, ok, panic, ◌>>=◌}

abbrev pub ReadBuf : Type 0 → Type 0
ReadBuf A = Bytes → Result (A × Bytes)

unfoldable pub uint8 : ReadBuf ℕ
uint8 [] = panic
uint8 (c ∷ b) = ok (c, b)

-- `binary.LittleEndian.Uint16`, then `*b = (*b)[2:]`.
unfoldable pub uint16 : ReadBuf ℕ
unfolding uint8
uint16 b = do (lo, b) ← uint8 b; (hi, b) ← uint8 b; ok (lo + 256 * hi, b)

unfoldable pub uint32 : ReadBuf ℕ
uint32 b = do (lo, b) ← uint16 b; (hi, b) ← uint16 b; ok (lo + 2 ^ 16 * hi, b)

unfoldable pub uint64 : ReadBuf ℕ
uint64 b = do (lo, b) ← uint32 b; (hi, b) ← uint32 b; ok (lo + 2 ^ 32 * hi, b)

-- `sub n` splits off the next `n` bytes.
unfoldable pub sub : ℕ → ReadBuf Bytes
sub n b = if ltb (length b) n then panic else ok (take n b, drop n b)

-- `b = b[n:]`.
unfoldable pub skip : ℕ → Bytes → Result Bytes
skip n b = if ltb (length b) n then panic else ok (drop n b)

-- The arguments of the writers are converted to the width by Go, as in `uint16(v)`.
unfoldable pub put_uint8 : ℕ → Bytes → Bytes
put_uint8 v rest = v % 256 ∷ rest

unfoldable pub put_uint16 : ℕ → Bytes → Bytes
unfolding put_uint8
put_uint16 v rest = put_uint8 v (put_uint8 (v / 256) rest)

unfoldable pub put_uint32 : ℕ → Bytes → Bytes
put_uint32 v rest = put_uint16 v (put_uint16 (v / 2 ^ 16) rest)

unfoldable pub put_uint64 : ℕ → Bytes → Bytes
put_uint64 v rest = put_uint32 v (put_uint32 (v / 2 ^ 32) rest)

-- `b = b[n:]` on a fresh buffer leaves zeros.
unfoldable pub put_zeros : ℕ → Bytes → Bytes
put_zeros n rest = replicate n 0 ++ rest
