-- ===== src/Tar/Reader/Tests.antt =====
-- An entry of five bytes.
use arkive.Common.{◌+◌, ◌%◌, ◌<◌, ◌≡◌, refl, none, [], arith, Bytes, if◌then◌else◌}
use arkive.Common.Words.{sign_bit}
use arkive.Common.Go.{ok}
use arkive.Tar.Block.{block_size}
use arkive.Tar.Reader.{
  TarReader, new_reader, num_bytes, is_header_only_type, handle_regular_file, regular,
}
use arkive.Tar.Reader.Entry.{handle_regular_file-aligned}

abbrev five_bytes : TarReader Bytes
five_bytes = record (new_reader []) { pad = 507; curr = regular 5 }

accepted : handle_regular_file (new_reader {S = Bytes} []) b'0' 5 ≡ ok five_bytes
unfolding handle_regular_file is_header_only_type
accepted = refl

handle_regular_file-aligned_example :
    (num_bytes (regular 5) ≡ (if is_header_only_type b'0' then 0 else 5))
    × (num_bytes (regular 5) < sign_bit)
    × ((num_bytes (regular 5) + 507) % block_size ≡ 0)
    × (507 < block_size)
    × (five_bytes.stream ≡ [])
    × (five_bytes.error ≡ none)
handle_regular_file-aligned_example =
    handle_regular_file-aligned (new_reader []) five_bytes b'0' 5 (omega arith) accepted
