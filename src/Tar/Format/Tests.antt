-- ===== src/Tar/Format/Tests.antt =====
-- The GNU format of an empty block.
use arkive.Common.{◌≡◌, refl, Bytes, replicate}
use arkive.Common.Go.{ok}
use arkive.Tar.Block.{put, block_size}
use arkive.Tar.Block.Gnu
use arkive.Tar.Format.{
  magic_gnu, version_gnu, get_format, put_magic, put_checksum, set_format, format_gnu,
}
use arkive.Tar.Format.Detect.{detected, IsByte-list, get_format-set_format}

abbrev zero_block : Bytes
zero_block = replicate block_size 0

abbrev gnu_block : Bytes
gnu_block = put_checksum (put Gnu.version version_gnu (put Gnu.magic magic_gnu zero_block))

gnu_set : set_format format_gnu zero_block ≡ ok gnu_block
unfolding set_format put_magic
gnu_set = refl

get_format-set_format_example : get_format gnu_block ≡ detected format_gnu zero_block
get_format-set_format_example =
    get_format-set_format format_gnu zero_block gnu_block refl (IsByte-list zero_block refl) gnu_set
