-- ===== src/Tar/Header.antt =====
-- `Header` (tar/common.go) and `readHeader` (tar/reader.go). `io.ReadFull` gives the next bytes of
-- what the reader yields, however it yields them, so the stream is those bytes. A time is its number
-- of seconds since the Unix epoch, or `none` for the zero time.
pub mod End
mod Tests
use arkive.Common.{
  ℕ, zero, suc, ◌+◌, ◌-◌, ◌*◌, ◌/◌, ◌%◌, ◌^◌, ◌≤◌, ◌<◌, min, ◌≡◌, refl, sym, ap, subst, ◌∙◌, ◌≢◌,
  ◌↔◌, ◌⊎◌, inl, inr, Bool, true, false, not, ◌&&◌, ◌||◌, Option, none, some, List, [], ◌∷◌, ◌++◌,
  map, append-nil, append_assoc, arith, Bytes, IsByte, ltb, leb, ◌==◌, if◌then◌else◌, Bool-cases,
  Option-cases, bytes_eq, bytes_eq_iff, length, get_or, take, drop, replicate, length-append,
  take-append-drop, length-take, length-drop, length-replicate, replicate-add, take_append,
  drop_append, take_all, drop_all, drop-drop, drop-append, take-append, get_or-append, All,
}
use arkive.Common.Words.{u16_mod, u32_mod, u64_mod, sign_bit, IsWord, is_neg, add64, sub64, slt}
use arkive.Common.Digits.{
  digits, format_uint, format_int, Parsed, parsed, syntax_error, range_error, is_digit, parse_loop,
  parse_uint, signed, parse_int, All-append, parse_loop-digits, parse_loop-zeros, digits-IsDigit,
  digits-ne-nil, length-digits_mono, length-digits_next, length-digits-le, parse_uint-loop,
  parse_uint-format_uint, parse_int-format_int, parse_int-zeros, digits-zeros,
}
use arkive.Common.Text.{codes, lookup, insert, delete, lookup-insert, lookup-delete}
use arkive.Common.Go.{
  Error, eof, unexpected_eof, err_header, err_field_too_long, err_write_too_long,
  err_write_after_close, err_invalid_header, err_format, err_checksum, err_algorithm, err_long_name,
  err_long_extra, comment_length, too_many_files, negative_offset, missed_bytes, closed_twice,
  write_closed, device, Result, ok, err, panic, stuck, >>=-eq-ok, >>=-ne-stuck, ◌>>=◌, ◌>>◌,
}
use arkive.Tar.Strconv.{
  is_ascii, to_ascii, Parser, Formatter, parse_string, format_string, trim, parse_octal,
  format_octal, fits_in_base256, shift_right, big_endian, format_numeric, parse_numeric,
}
use arkive.Tar.Block.{Field, get, put, block_size, name_size, prefix_size}
use arkive.Tar.Format.{
  Format, magic_gnu, version_gnu, magic_ustar, version_ustar, trailer_star, counted, sign_extended,
  unsigned_from, signed_from, compute_checksum, guess_magic, guess_format, has_checksum, get_format,
  put_magic, checksum_field, put_checksum, set_format, format_unknown, format_v7, format_gnu,
  format_star, format_ustar, format_pax,
}
use arkive.Tar.Block.V7
use arkive.Tar.Block.Ustar
use arkive.Tar.Block.Star
use arkive.Tar.Block.Gnu

pub record Header : Type 0 where
  pub name : Bytes
  pub mode : ℕ
  pub uid : ℕ
  pub gid : ℕ
  pub size : ℕ
  pub mod_time : Option ℕ
  pub type_flag : ℕ
  pub link_name : Bytes
  pub user_name : Bytes
  pub group_name : Bytes
  pub dev_major : ℕ
  pub dev_minor : ℕ
  pub access_time : Option ℕ
  pub change_time : Option ℕ
  pub xattrs : List (Bytes × Bytes)

-- `io.ReadFull` of a block.
unfoldable pub read_block : Bytes → Result (Bytes × Bytes)
read_block s =
    if ltb (length s) block_size
    then err (if length s == 0 then eof else unexpected_eof)
    else ok (take block_size s, drop block_size s)

unfoldable pub zero_block : Bytes
zero_block = replicate block_size 0

unfoldable pub is_zero_block : Bytes → Bool
is_zero_block b = bytes_eq b zero_block

-- The fields that all formats have.
unfoldable pub unpack_v7 : Bytes → Header × Parser
unpack_v7 b =
    let (mode, p) = parse_numeric none (get V7.mode b) in
    let (uid, p) = parse_numeric p (get V7.uid b) in
    let (gid, p) = parse_numeric p (get V7.gid b) in
    let (size, p) = parse_numeric p (get V7.size_field b) in
    let (time, p) = parse_numeric p (get V7.mod_time b) in
    (
      record {
        name = parse_string (get V7.name b);
        mode = mode;
        uid = uid;
        gid = gid;
        size = size;
        mod_time = some time;
        type_flag = get_or (get V7.type_flag b) 0 0;
        link_name = parse_string (get V7.link_name b);
        user_name = [];
        group_name = [];
        dev_major = 0;
        dev_minor = 0;
        access_time = none;
        change_time = none;
        xattrs = [];
      },
      p,
    )

-- The device numbers, of a character or block device.
unfoldable pub unpack_device : Bytes → Header × Parser → Header × Parser
unpack_device b (h, p) =
    if h.type_flag == b'3' || h.type_flag == b'4'
    then (let (major, p) = parse_numeric p (get Ustar.dev_major b) in
        let (minor, p) = parse_numeric p (get Ustar.dev_minor b) in
        (record h { dev_major = major; dev_minor = minor }, p))
    else (h, p)

-- `tryParseTime`, with a parser of its own.
unfoldable pub parsed_time : ℕ → ℕ × Parser → Option ℕ
parsed_time first (n, none) = if first == 0 then none else some n
parsed_time first (n, some e) = none

unfoldable pub try_parse_time : Bytes → Option ℕ
unfolding parsed_time
try_parse_time b = parsed_time (get_or b 0 0) (parse_numeric none b)

-- `hdr.Name = prefix + "/" + hdr.Name`, for a prefix that is not empty.
unfoldable pub add_prefix : Bytes → Header → Header
add_prefix [] h = h
add_prefix (c ∷ prefix) h = record h { name = (c ∷ prefix) ++ b'/' ∷ h.name }

-- The fields of the format; of what `GetFormat` gives, `format_pax` is not.
unfoldable pub unpack_format : Format → Bytes → Header × Parser → Header × Parser
unfolding add_prefix try_parse_time
unpack_format format_ustar b (h, p) = (add_prefix (parse_string (get Ustar.prefix b)) h, p)
unpack_format format_star b (h, p) =
    let (access, p) = parse_numeric p (get Star.access_time b) in
    let (change, p) = parse_numeric p (get Star.change_time b) in
    (
      add_prefix (parse_string (get Star.prefix b))
          (record h { access_time = some access; change_time = some change }),
      p,
    )
unpack_format format_gnu b (h, p) = (
  record h {
    access_time = try_parse_time (get Gnu.access_time b);
    change_time = try_parse_time (get Gnu.change_time b);
  },
  p,
)
unpack_format format_pax b x = x
unpack_format format_v7 b x = x
unpack_format format_unknown b x = x

-- `if format > formatV7`
unfoldable pub unpack_names : Bytes → Header × Parser → Header × Parser
unpack_names b (h, p) = (
  record h {
    user_name = parse_string (get Ustar.user_name b);
    group_name = parse_string (get Ustar.group_name b);
  },
  p,
)

-- The header, or the error of the parser; the block goes with it.
unfoldable pub answer : Bytes → Header × Parser → Result (Header × Bytes)
answer b (h, none) = ok (h, b)
answer b (h, some e) = err e

unfoldable pub unpack : Format → Bytes → Result (Header × Bytes)
unfolding unpack_v7 unpack_device unpack_names unpack_format answer
unpack format_unknown b = err err_header
unpack format_v7 b = answer b (unpack_v7 b)
unpack format_gnu b =
    answer b (unpack_format format_gnu b (unpack_device b (unpack_names b (unpack_v7 b))))
unpack format_star b =
    answer b (unpack_format format_star b (unpack_device b (unpack_names b (unpack_v7 b))))
unpack format_ustar b =
    answer b (unpack_format format_ustar b (unpack_device b (unpack_names b (unpack_v7 b))))
unpack format_pax b =
    answer b (unpack_format format_pax b (unpack_device b (unpack_names b (unpack_v7 b))))

-- Behind a block of zeros.
unfoldable pub read_second : Bytes → Result ((Header × Bytes) × Bytes)
unfolding read_block is_zero_block
read_second s = do (b, s) ← read_block s; if is_zero_block b then err eof else err err_header

unfoldable pub read_header : Bytes → Result ((Header × Bytes) × Bytes)
unfolding read_second read_block is_zero_block unpack get_format
read_header s = do
  (b, s) ← read_block s
  if is_zero_block b then read_second s else do header ← unpack (get_format b) b; ok (header, s)
