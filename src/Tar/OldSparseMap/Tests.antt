-- ===== src/Tar/OldSparseMap/Tests.antt =====
-- Old sparse maps at concrete blocks.
use arkive.Common.{bytes_eq, ℕ, List, ◌≡◌, refl, none, [], ◌∷◌, ◌++◌, Bytes, replicate}
use arkive.Common.Go.{unexpected_eof, ok, err}
use arkive.Common.Digits.{parse_uint, format_int}
use arkive.Tar.Strconv.{parse_numeric, parse_octal, trim, parse_string, format_octal, format_string}
use arkive.Tar.Format.{magic_gnu, version_gnu, put_checksum, get_format}
use arkive.Tar.Block.{put, block_size}
use arkive.Tar.Block.Gnu
use arkive.Tar.FileReader.{SparseEntry}
use arkive.Tar.Header.{Header}
use arkive.Tar.OldSparseMap.{read_arrays, read_old_gnu_sparse_map}
use arkive.Tar.OldSparseMap.Blocks.{Gives, TakesBlocks, read_old_gnu_sparse_map-Gives}

abbrev old_header : Header
old_header = record {
  name = b'a' ∷ [];
  mode = 0;
  uid = 0;
  gid = 0;
  size = 1;
  mod_time = none;
  type_flag = b'S';
  link_name = [];
  user_name = [];
  group_name = [];
  dev_major = 0;
  dev_minor = 0;
  access_time = none;
  change_time = none;
  xattrs = [];
}

-- A field of 12 bytes with an octal digit.
abbrev field_of : ℕ → Bytes
field_of d = replicate 10 b'0' ++ d ∷ 0 ∷ []

abbrev node : Bytes
node = field_of b'5' ++ field_of b'3'

-- One entry in the header and one in the extension block, then the data.
array_run :
    read_arrays 600 (node ++ replicate 72 0 ++ 1 ∷ []) (node ++ replicate 488 0 ++ b'x' ∷ [])
    ≡ ok (
      record { offset = 5; num_bytes = 3 } ∷ record { offset = 5; num_bytes = 3 } ∷ [],
      b'x' ∷ [],
    )
unfolding read_arrays parse_numeric parse_octal trim parse_uint parse_string
array_run = refl

-- The extension block is missing.
cut_run : read_arrays 2 (node ++ replicate 72 0 ++ 1 ∷ []) [] ≡ err unexpected_eof
unfolding read_arrays parse_numeric parse_octal trim parse_uint parse_string
cut_run = refl

abbrev sparse_block : Bytes
sparse_block = put_checksum (
    put Gnu.version version_gnu (
      put Gnu.magic magic_gnu (
        put Gnu.real_size (field_of b'7')
          (put Gnu.sparse (node ++ replicate 73 0) (replicate block_size 0)))))

-- The whole of it, for a block in the format of GNU.
block_run :
    read_old_gnu_sparse_map old_header sparse_block (b'x' ∷ [])
    ≡ ok ((record old_header { size = 7 }, record { offset = 5; num_bytes = 3 } ∷ []), b'x' ∷ [])
unfolding read_old_gnu_sparse_map parse_numeric parse_octal trim parse_uint parse_string get_format
    put_checksum format_octal format_string format_int bytes_eq
block_run = refl

read_old_gnu_sparse_map-Gives_example :
    Gives
      (λ (x : (Header × List SparseEntry) × Bytes).
        (x.0.0 ≡ record old_header { size = x.0.0.size }) × TakesBlocks 4 (b'x' ∷ []) x.0.1 x.1)
      (read_old_gnu_sparse_map old_header sparse_block (b'x' ∷ []))
read_old_gnu_sparse_map-Gives_example =
    read_old_gnu_sparse_map-Gives old_header sparse_block (b'x' ∷ [])
