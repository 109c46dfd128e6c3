-- ===== src/Zip/EndRecord/Tests.antt =====
-- Runs of the end record's reader, and its theorems at concrete archives.
use arkive.Common.{ℕ, ◌≡◌, refl, ◌≢◌, ◌↔◌, some, [], ◌∷◌, ◌++◌, arith, Bytes, drop}
use arkive.Common.Go.{err_format, ok, err}
use arkive.Zip.Buf.{uint16, uint32, skip, put_uint16, put_uint32, put_zeros}
use arkive.Zip.EndRecord.{
  directory64_end_signature, uint16max, uint32max, find_signature_in_block, find_directory64_end,
  read_end_fields, find_zip64, adjust_offset, check_offset, place_directory, place_found,
  read_end_at, read_directory_end, put_end_record, put_end64_record, end_records,
}
use arkive.Zip.EndRecord.Search.{IsLastEnd, find_signature_in_block_iff}
use arkive.Zip.EndRecord.Fields.{end_fields, put_end_record_alone}
use arkive.Zip.EndRecord.RoundTrip.{read_directory_end-end_records}
use arkive.Zip.EndRecord.RoundTrip64.{
  large_file, read_directory_end_zip64, read_directory_end_padded_zip64,
}

abbrev front : Bytes
front = 0x7f ∷ b'E' ∷ b'L' ∷ 1 ∷ 2 ∷ 3 ∷ 4 ∷ []

-- Three bytes of padding, two of data and two of directory.
padded_run :
    read_directory_end (front ++ put_end_record 1 2 2 (b'h' ∷ b'i' ∷ []))
    ≡ ok (record (end_fields 1 2 2 (b'h' ∷ b'i' ∷ [])) { directory_offset = 5; start_skip_len = 3 })
unfolding read_directory_end find_signature_in_block read_end_at read_end_fields place_found
    find_zip64 find_directory64_end place_directory adjust_offset check_offset put_end_record
    put_uint32 put_uint16 put_zeros skip uint32 uint16
padded_run = refl

-- A truncated file is refused.
truncated_run : read_directory_end front ≡ err err_format
unfolding read_directory_end find_signature_in_block
truncated_run = refl

read_directory_end-end_records_example :
    read_directory_end (front ++ end_records 1 2 4 [])
    ≡ ok (record (end_fields 1 2 2 []) { directory_offset = 5; start_skip_len = 3 })
read_directory_end-end_records_example =
    read_directory_end-end_records 1 3 2 2 [] front (omega arith) refl (omega arith) (omega arith)
      (put_end_record_alone 1 2 2) (λ h. absurd (omega arith))

find_signature_in_block_iff_example : (find_signature_in_block front ≡ some 2) ↔ IsLastEnd front 2
find_signature_in_block_iff_example = find_signature_in_block_iff front 2

read_directory_end_zip64_example :
    read_directory_end (large_file (1 ∷ 2 ∷ 3 ∷ []) 70000 2 1 []) ≡ ok (end_fields 70000 1 2 [])
read_directory_end_zip64_example =
    read_directory_end_zip64 (1 ∷ 2 ∷ 3 ∷ []) 70000 2 1 [] (omega arith) refl (omega arith)
      (omega arith) (omega arith) (put_end_record_alone uint16max uint32max uint32max)

-- The record stands one byte further on than the locator says.
no_record_at_three :
    (sig : ℕ) (rest : Bytes)
    → uint32 (drop 3 (large_file (0 ∷ 1 ∷ 2 ∷ 3 ∷ []) 70000 2 1 [])) ≡ ok (sig, rest)
    → sig ≢ directory64_end_signature
unfolding end_records put_end64_record put_uint32 put_uint16 uint32 uint16
no_record_at_three sig rest e = ground arith

read_directory_end_padded_zip64_example :
    read_directory_end (large_file (0 ∷ 1 ∷ 2 ∷ 3 ∷ []) 70000 2 1 []) ≡ err err_format
read_directory_end_padded_zip64_example =
    read_directory_end_padded_zip64 (0 ∷ 1 ∷ 2 ∷ 3 ∷ []) 70000 2 1 [] (omega arith) refl
      (omega arith) (omega arith) (put_end_record_alone uint16max uint32max uint32max)
      no_record_at_three
