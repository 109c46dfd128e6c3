-- ===== src/Tar/Source.antt =====
-- The `io.Reader` that an archive is read from: what the program assumes of it.
use arkive.Common.{
  ℕ, ◌≤◌, min, ◌≡◌, refl, sym, Option, none, some, [], ◌∷◌, ◌++◌, arith, Bytes, ◌==◌, if◌then◌else◌,
  length, take, drop, take-append-drop, length-take,
}
use arkive.Common.Go.{Error, eof}

-- What a call `Read(b)` answers: the bytes that it put into `b`, the error, and the reader after it.
pub record Answer (S : Type 0) : Type 0 where
  pub bytes : Bytes
  pub error : Option Error
  pub state : S

-- A reader over a finite stream. By the contract of `io.Reader` a call returns the next bytes of
-- the stream, at most as many as there is room for, and `io.EOF` only at the end of the stream.
pub record Source : Type 1 where
  pub State : Type 0
  pub read : State → ℕ → Answer State
  pub contents : State → Bytes
  pub read_bytes : (s : State) (n : ℕ) → contents s ≡ (read s n).bytes ++ contents (read s n).state
  pub read_room : (s : State) (n : ℕ) → length (read s n).bytes ≤ n
  pub read_eof : (s : State) (n : ℕ) → (read s n).error ≡ some eof → contents (read s n).state ≡ []

-- A reader over a slice that gives at most `chunk` bytes at a time, and `io.EOF` with the last ones.
abbrev pub chunk_read : ℕ → Bytes → ℕ → Answer Bytes
chunk_read chunk s n =
    let m = min chunk n in
    record {
      bytes = take m s;
      error = if length (drop m s) == 0 then some eof else none;
      state = drop m s;
    }

length-eq-zero : (s : Bytes) → length s ≡ 0 → s ≡ []
length-eq-zero [] e = refl
length-eq-zero (c ∷ s) e = absurd (omega arith)

pub chunk_read-eof :
    (chunk : ℕ) (s : Bytes) (n : ℕ)
    → (chunk_read chunk s n).error ≡ some eof
    → (chunk_read chunk s n).state ≡ []
chunk_read-eof chunk s n e = length-eq-zero _ (ground arith)

abbrev pub chunked : ℕ → Source
chunked chunk = record {
  State = Bytes;
  read = chunk_read chunk;
  contents = λ s. s;
  read_bytes = λ s n. sym (take-append-drop (min chunk n) s);
  read_room = λ s n. omega (arith, length-take (min chunk n) s);
  read_eof = chunk_read-eof chunk;
}
