-- ===== src/Zip/FileWriter/Tests.antt =====
-- A file of two writes, stored without compression.
use arkive.Common.{
  ℕ, ◌+◌, ◌≡◌, refl, false, none, [], ◌∷◌, ◌++◌, append-nil, append_assoc, Bytes, length,
}
use arkive.Zip.Checksum.{Hash}
use arkive.Zip.FileWriter.{Compressor, Sizes, Writer, write_file, close_if, close_file}
use arkive.Zip.FileWriter.Totals.{Writes, IsClosed, close_file-Writes, done, next}

sum_of : Bytes → ℕ
sum_of [] = 0
sum_of (d ∷ b) = d + sum_of b

abbrev plain_sum : Hash
plain_sum = record {
  State = Bytes;
  start = [];
  write = λ s b. s ++ b;
  sum32 = sum_of;
  write_nil = append-nil;
  write_append = append_assoc;
}

-- Puts out what it is given, and one byte at the end.
abbrev storing : Compressor
storing = record {
  State = Unit {0};
  taken = λ s p. length p;
  failed = λ s p. none;
  put_out = λ s p. p;
  after = λ s p. s;
  close_failed = λ s. none;
  close_out = λ s. 0 ∷ [];
  takes_all = λ s p h. refl;
}

abbrev no_sizes : Sizes
no_sizes = record {
  reader_version = 20;
  crc32 = 0;
  compressed_size64 = 0;
  uncompressed_size64 = 0;
  compressed_size = 0;
  uncompressed_size = 0;
}

abbrev file_writer : Bytes → Writer storing plain_sum
file_writer b = record {
  comp = tt;
  crc = b;
  raw_count = length b;
  comp_count = length b;
  out = 9 ∷ b;
  closed = false;
  sizes = no_sizes;
}

two-Writes :
    Writes storing plain_sum
      (file_writer [])
      ((1 ∷ 2 ∷ []) ++ ((3 ∷ []) ++ []))
      (file_writer (1 ∷ 2 ∷ 3 ∷ []))
unfolding write_file
two-Writes =
    next (file_writer []) (1 ∷ 2 ∷ []) ((3 ∷ []) ++ []) (file_writer (1 ∷ 2 ∷ 3 ∷ [])) refl (
      next (file_writer (1 ∷ 2 ∷ [])) (3 ∷ []) [] (file_writer (1 ∷ 2 ∷ 3 ∷ [])) refl
        (done (file_writer (1 ∷ 2 ∷ 3 ∷ []))))

closes : (close_file storing plain_sum (file_writer (1 ∷ 2 ∷ 3 ∷ []))).0 ≡ none
unfolding close_file close_if
closes = refl

close_file-Writes_example :
    IsClosed storing plain_sum 1
      (1 ∷ 2 ∷ 3 ∷ [])
      (9 ∷ 1 ∷ 2 ∷ 3 ∷ 0 ∷ [])
      (close_file storing plain_sum (file_writer (1 ∷ 2 ∷ 3 ∷ []))).1
close_file-Writes_example =
    close_file-Writes storing plain_sum (1 ∷ 2 ∷ 3 ∷ []) (file_writer [])
      (file_writer (1 ∷ 2 ∷ 3 ∷ [])) refl refl refl refl two-Writes closes
