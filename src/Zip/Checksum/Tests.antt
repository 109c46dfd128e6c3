-- ===== src/Zip/Checksum/Tests.antt =====
-- A file of three bytes whose sum is the sum of its bytes.
use arkive.Common.{
  ℕ, ◌+◌, ◌%◌, ◌≡◌, ◌⊎◌, refl, true, none, some, [], ◌∷◌, ◌++◌, append-nil, append_assoc, arith,
  Bytes, length, take,
}
use arkive.Common.Words.{u64_mod}
use arkive.Common.Go.{eof, err_checksum, err}
use arkive.Zip.Checksum.Descriptor.{read_data_descriptor-data_descriptor}
use arkive.Tar.Source.{Source, chunked}
use arkive.Zip.Checksum.{
  Hash, read_data_descriptor, data_descriptor, Expected, is_end, at_end, Reader, answered,
  checksum_read_if, checksum_read,
}
use arkive.Zip.Checksum.Reads.{Reads, opened, checksum_read-at_eof, done, next}

sum_of : Bytes → ℕ
sum_of [] = 0
sum_of (c ∷ b) = c + sum_of b

abbrev plain_sum : Hash
plain_sum = record {
  State = Bytes;
  start = [];
  write = λ s b. s ++ b;
  sum32 = sum_of;
  write_nil = append-nil;
  write_append = append_assoc;
}

abbrev header : Expected
header = record { uncompressed_size64 = 3; crc32 = 6; descriptor = none }

abbrev file_bytes : Bytes
file_bytes = 1 ∷ 2 ∷ 3 ∷ []

abbrev source : Source
source = chunked 2

abbrev half_read : Reader source plain_sum header
half_read = record { stream = 3 ∷ []; hash = 1 ∷ 2 ∷ []; nread = 2; error = none }

first_half :
    Reads source plain_sum header
      (opened source plain_sum header file_bytes)
      ((1 ∷ 2 ∷ []) ++ [])
      half_read
unfolding checksum_read checksum_read_if answered is_end
first_half = next (opened source plain_sum header file_bytes) 10 [] half_read refl (done half_read)

last_half : (checksum_read source plain_sum header half_read 10).error ≡ some eof
unfolding checksum_read checksum_read_if answered at_end sum_of
last_half = refl

checksum_read-at_eof_example :
    (length ((1 ∷ 2 ∷ []) ++ (checksum_read source plain_sum header half_read 10).bytes) % u64_mod
      ≡ 3)
    × ((sum_of ([] ++ ((1 ∷ 2 ∷ []) ++ (checksum_read source plain_sum header half_read 10).bytes))
          ≡ 6)
        ⊎ ((header.crc32 ≡ 0) × (header.descriptor ≡ none)))
checksum_read-at_eof_example =
    checksum_read-at_eof source plain_sum header file_bytes (1 ∷ 2 ∷ []) half_read 10 first_half
      last_half

read_data_descriptor-data_descriptor_example :
    read_data_descriptor (take 16 (data_descriptor 77 10 20 true)) 78 ≡ err err_checksum
read_data_descriptor-data_descriptor_example =
    read_data_descriptor-data_descriptor 77 10 20 78 true (omega arith)
