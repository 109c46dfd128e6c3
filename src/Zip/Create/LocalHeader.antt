-- ===== src/Zip/Create/LocalHeader.antt =====
-- The local header that `writeHeader` (zip/writer.go) writes, read by `findBodyOffset`
-- (zip/reader.go), and the flags read by `readDirectoryHeader`.
use arkive.Common.{
  ℕ, ◌+◌, ◌/◌, ◌%◌, ◌^◌, ◌<◌, ◌≡◌, refl, sym, ap, ◌∙◌, inl, inr, Bool, true, false, not, ◌&&◌, ◌||◌,
  [], ◌++◌, append_assoc, arith, Bytes, ltb, ◌==◌, Bool-cases, length, length-append, take_append,
  drop_append,
}
use arkive.Common.Words.{sign_bit, is_neg}
use arkive.Common.Go.{ok}
use arkive.Zip.Buf.{skip, put_uint8, put_uint16, put_uint32}
use arkive.Zip.Buf.Laws.{put_lengths, read_put}
use native.Mathlib.Nat.{mod-eq_of_lt}
use arkive.Zip.EndRecord.{uint16max, read_at}
use arkive.Zip.Checksum.{file_header_signature, file_header_len, find_body_offset}
use arkive.Zip.Directory.{FileHeader, is_non_utf8}
use arkive.Zip.Create.{set_bit, clear_bit, create_flags, put_file_header, write_header}

bit-set_bit : (x : ℕ) → (set_bit 0x800 x / 0x800 % 2 == 0) ≡ false
unfolding set_bit
bit-set_bit x = ground arith

bit-clear_bit : (x : ℕ) → (clear_bit 0x800 x / 0x800 % 2 == 0) ≡ true
unfolding clear_bit
bit-clear_bit x = ground arith

-- A header that CreateHeader has prepared is read as not UTF-8 exactly where a name or a comment is
-- not valid UTF-8, or where one needs UTF-8 and the caller has asked for another encoding.
pub is_non_utf8-create_flags :
    (asked valid1 require1 valid2 require2 : Bool) (flags : ℕ)
    → is_non_utf8
        (valid1, require1)
        (valid2, require2)
        (create_flags asked (valid1, require1) (valid2, require2) flags)
      ≡ not (valid1 && valid2) || ((require1 || require2) && asked)
unfolding is_non_utf8 create_flags
is_non_utf8-create_flags asked false require1 valid2 require2 flags = refl
is_non_utf8-create_flags asked true require1 false require2 flags = refl
is_non_utf8-create_flags asked true false true false flags = refl
is_non_utf8-create_flags true true true true require2 flags = bit-clear_bit (set_bit 8 flags)
is_non_utf8-create_flags false true true true require2 flags = bit-set_bit (set_bit 8 flags)
is_non_utf8-create_flags true true false true true flags = bit-clear_bit (set_bit 8 flags)
is_non_utf8-create_flags false true false true true flags = bit-set_bit (set_bit 8 flags)

-- The fixed part of a local header.
local_part : FileHeader → Bytes → Bytes
local_part h rest = put_uint32 file_header_signature (
    put_uint16 h.reader_version (
      put_uint16 h.flags (
        put_uint16 h.method (
          put_uint16 h.modified_time (
            put_uint16 h.modified_date (
              put_uint32 0 (
                put_uint32 0 (
                  put_uint32 0
                    (put_uint16 (length h.name) (put_uint16 (length h.extra) rest))))))))))

local_part-append : (h : FileHeader) (rest : Bytes) → local_part h rest ≡ local_part h [] ++ rest
unfolding local_part put_uint32 put_uint16 put_uint8
local_part-append h rest = refl

length-local_part : (h : FileHeader) → length (local_part h []) ≡ file_header_len
unfolding local_part
length-local_part h = simp put_lengths refl

skip-local :
    (a b c d e : ℕ) (rest : Bytes)
    → skip 22 (
        put_uint16 a (
          put_uint16 b (
            put_uint16 c
              (put_uint16 d (put_uint16 e (put_uint32 0 (put_uint32 0 (put_uint32 0 rest))))))))
      ≡ ok rest
unfolding skip put_uint32 put_uint16 put_uint8
skip-local a b c d e rest = ground arith

find_body_offset-local :
    (h : FileHeader) (file : Bytes) (at : ℕ)
    → length h.name < 2 ^ 16
    → length h.extra < 2 ^ 16
    → read_at file at file_header_len ≡ ok (local_part h [])
    → find_body_offset file at ≡ ok (file_header_len + length h.name + length h.extra)
unfolding find_body_offset local_part
find_body_offset-local h file at hn hx e =
    rw (e) (simp (read_put, skip-local, mod-eq_of_lt hn, mod-eq_of_lt hx) refl)

write_header-local :
    (h : FileHeader) (b : Bytes)
    → write_header h ≡ ok b
    → (length h.name < 2 ^ 16) × (length h.extra < 2 ^ 16) × (b ≡ local_part h (h.name ++ h.extra))
unfolding write_header put_file_header local_part
write_header-local h b e = elim (Bool-cases (ltb uint16max (length h.name))) [
  | inl k ↦ absurd (cc (rw k at e))
  | inr k ↦ elim (Bool-cases (ltb uint16max (length h.extra))) [
    | inl m ↦ absurd (cc (rw (k, m) at e))
    | inr m ↦ (ground arith, ground arith, cc (rw (k, m) at e))
  ]
]

-- Where a local header was written, in a file and with anything behind it, and its end is an int64,
-- `findBodyOffset` gives its length: the body starts right behind it.
pub find_body_offset-write_header :
    (h : FileHeader) (front b rest : Bytes)
    → write_header h ≡ ok b
    → length front + length b < sign_bit
    → find_body_offset (front ++ (b ++ rest)) (length front) ≡ ok (length b)
unfolding read_at
find_body_offset-write_header h front b rest e fits =
    let (hn, hx, eb) = write_header-local h b e in
    let names : Bytes = h.name ++ h.extra in
    let split : b ++ rest ≡ local_part h [] ++ (names ++ rest) =
      ap (λ s. s ++ rest) (eb ∙ local_part-append h names)
      ∙ append_assoc (local_part h []) names rest in
    let fixed = length-local_part h in
    let total : length b ≡ file_header_len + length h.name + length h.extra = omega (
      arith,
      ap length (eb ∙ local_part-append h names),
      fixed,
      length-append (local_part h []) names,
      length-append h.name h.extra,
    ) in
    let place : is_neg (length front) ≡ false = ground (arith, fits) in
    let l = length-append front (b ++ rest) in
    let l' = length-append b rest in
    let enough : ltb (length (front ++ (b ++ rest))) (length front + file_header_len) ≡ false =
      ground (arith, l, l', total) in
    let read : read_at (front ++ (b ++ rest)) (length front) file_header_len
        ≡ ok (local_part h []) =
      rw
        (
          place,
          enough,
          drop_append front (b ++ rest) (length front) refl,
          split,
          take_append (local_part h []) (names ++ rest) file_header_len (sym fixed),
        )
        refl in
    find_body_offset-local h (front ++ (b ++ rest)) (length front) hn hx read
    ∙ ap (λ (n : ℕ). ok n) (sym total)
