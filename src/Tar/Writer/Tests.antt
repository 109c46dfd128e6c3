-- ===== src/Tar/Writer/Tests.antt =====
-- The writer over a growing buffer.
use arkive.Common.{
  ℕ, ◌+◌, ◌*◌, ◌≤◌, ◌<◌, ◌≡◌, refl, sym, ap, true, false, none, some, [], ◌∷◌, ◌++◌, arith, Bytes,
  length, take, replicate, take_all,
}
use arkive.Tar.Strconv.{is_ascii}
use arkive.Tar.Block.{block_size, name_size, prefix_size}
use arkive.Tar.Writer.{
  Sink, Writer, flush_loop, flush, write_entry, write_trailer, close, last_index, searched,
  split_at, split_ustar_path, later_index,
}
use arkive.Tar.Writer.Balance.{write_entry-adds, close-ends}
use arkive.Tar.Writer.Split.{split_ustar_path-splits}

abbrev buffer : Sink
buffer = record {
  State = Bytes;
  write = λ s b. (length b, none, s ++ b);
  written = λ s. s;
  takes = λ s b. omega arith;
  takes_all = λ s b h. refl;
  writes = λ s b. ap (λ x. s ++ x) (sym (take_all b (length b) (omega arith)));
}

abbrev in_entry : ℕ → Writer Bytes
in_entry left = record { sink = b'a' ∷ b'b' ∷ []; nb = left; pad = 2; error = none; closed = false }

flushed : (flush buffer (in_entry 0)).error ≡ none
unfolding flush flush_loop
flushed = refl

ended : (close buffer (in_entry 0)).error ≡ none
unfolding close flush flush_loop write_trailer
ended = refl

write_entry-adds_example :
    ((write_entry buffer (in_entry 1) (b'c' ∷ b'd' ∷ [])).writer.sink
      ≡ (b'a' ∷ b'b' ∷ [])
        ++ take (write_entry buffer (in_entry 1) (b'c' ∷ b'd' ∷ [])).count (b'c' ∷ b'd' ∷ []))
    × ((write_entry buffer (in_entry 1) (b'c' ∷ b'd' ∷ [])).count ≤ 2)
    × ((write_entry buffer (in_entry 1) (b'c' ∷ b'd' ∷ [])).count
          + (write_entry buffer (in_entry 1) (b'c' ∷ b'd' ∷ [])).writer.nb
        ≡ 1)
write_entry-adds_example = write_entry-adds buffer (in_entry 1) (b'c' ∷ b'd' ∷ []) refl

close-ends_example :
    ((close buffer (in_entry 0)).sink ≡ (b'a' ∷ b'b' ∷ []) ++ replicate (2 + 2 * block_size) 0)
    × ((in_entry 0).nb ≡ 0)
    × ((close buffer (in_entry 0)).closed ≡ true)
close-ends_example = close-ends buffer (in_entry 0) refl refl ended

-- A directory of 60 letters and a file of 60.
abbrev directory : Bytes
directory = replicate 60 b'd'

abbrev file : Bytes
file = replicate 60 b'f'

abbrev long_name : Bytes
long_name = directory ++ b'/' ∷ file

long_name_split : split_ustar_path long_name ≡ some (directory, file)
unfolding split_ustar_path split_at searched last_index later_index is_ascii
long_name_split = refl

split_ustar_path-splits_example :
    (long_name ≡ directory ++ b'/' ∷ file)
    × (1 ≤ length directory)
    × (length directory ≤ prefix_size)
    × (1 ≤ length file)
    × (length file ≤ name_size)
    × (is_ascii long_name ≡ true)
    × (name_size < length long_name)
split_ustar_path-splits_example = split_ustar_path-splits long_name directory file long_name_split
