-- ===== src/Zip/FileWriter.antt =====
-- `fileWriter` and `countWriter` (zip/writer.go), over a buffer that takes every write.
pub mod Totals
mod Tests
use arkive.Common.{
  ℕ, zero, suc, ◌+◌, ◌-◌, ◌*◌, ◌/◌, ◌%◌, ◌^◌, ◌≤◌, ◌<◌, min, ◌≡◌, refl, sym, ap, subst, ◌∙◌, ◌≢◌,
  ◌↔◌, ◌⊎◌, inl, inr, Bool, true, false, not, ◌&&◌, ◌||◌, Option, none, some, List, [], ◌∷◌, ◌++◌,
  map, append-nil, append_assoc, arith, Bytes, IsByte, ltb, leb, ◌==◌, if◌then◌else◌, Bool-cases,
  Option-cases, bytes_eq, bytes_eq_iff, length, get_or, take, drop, replicate, length-append,
  take-append-drop, length-take, length-drop, length-replicate, replicate-add, take_append,
  drop_append, take_all, drop_all, drop-drop, drop-append, take-append, get_or-append, All,
}
use arkive.Common.Words.{u16_mod, u32_mod, u64_mod, sign_bit, IsWord, is_neg, add64, sub64, slt}
use arkive.Common.Digits.{
  digits, format_uint, format_int, Parsed, parsed, syntax_error, range_error, is_digit, parse_loop,
  parse_uint, signed, parse_int, All-append, parse_loop-digits, parse_loop-zeros, digits-IsDigit,
  digits-ne-nil, length-digits_mono, length-digits_next, length-digits-le, parse_uint-loop,
  parse_uint-format_uint, parse_int-format_int, parse_int-zeros, digits-zeros,
}
use arkive.Common.Text.{codes, lookup, insert, delete, lookup-insert, lookup-delete}
use arkive.Common.Go.{
  Error, eof, unexpected_eof, err_header, err_field_too_long, err_write_too_long,
  err_write_after_close, err_invalid_header, err_format, err_checksum, err_algorithm, err_long_name,
  err_long_extra, comment_length, too_many_files, negative_offset, missed_bytes, closed_twice,
  write_closed, device, Result, ok, err, panic, stuck, >>=-eq-ok, >>=-ne-stuck, ◌>>=◌, ◌>>◌,
}
use arkive.Zip.EndRecord.{
  DirectoryEnd, directory_end_signature, directory64_loc_signature, directory64_end_signature,
  directory_end_len, directory64_loc_len, directory64_end_len, zip_version45, uint16max, uint32max,
  minus_one, byte_at, has_end_record, find_down, find_signature_in_block, read_at,
  find_directory64_end, read_directory64_end, read_end_fields, probably_zip64, find_zip64,
  adjust_offset, check_offset, place_directory, place_found, read_end_at, block_start,
  read_directory_end, put_end_record, put_end64_record, put_locator, needs_zip64, end_records,
}
use arkive.Zip.Checksum.{
  Hash, data_descriptor_signature, file_header_signature, file_header_len, read_full,
  read_data_descriptor, data_descriptor, find_body_offset, Expected, is_end, descriptor_verdict,
  sum_verdict, at_end, ChecksumReader, ChecksumAnswer, Reader, answered, updated, checksum_read_if,
  checksum_read,
}

-- A compressor: how many bytes it took, an error, what it put out, and its next state. By the
-- contract of `io.Writer` a call without an error has taken all bytes.
pub record Compressor : Type 1 where
  pub State : Type 0
  pub taken : State → Bytes → ℕ
  pub failed : State → Bytes → Option Error
  pub put_out : State → Bytes → Bytes
  pub after : State → Bytes → State
  pub close_failed : State → Option Error
  pub close_out : State → Bytes
  pub takes_all : (s : State) (p : Bytes) → failed s p ≡ none → taken s p ≡ length p

-- The fields of the header that `close` updates.
pub record Sizes : Type 0 where
  pub reader_version : ℕ
  pub crc32 : ℕ
  pub compressed_size64 : ℕ
  pub uncompressed_size64 : ℕ
  pub compressed_size : ℕ
  pub uncompressed_size : ℕ

pub record FileWriter (C H : Type 0) : Type 0 where
  pub comp : C
  pub crc : H
  pub raw_count : ℕ
  pub comp_count : ℕ
  pub out : Bytes
  pub closed : Bool
  pub sizes : Sizes

pub record Wrote (C H : Type 0) : Type 0 where
  pub count : ℕ
  pub error : Option Error
  pub writer : FileWriter C H

-- `isZip64`
abbrev pub is_zip64 : ℕ → ℕ → Bool
is_zip64 compressed uncompressed = leb uint32max compressed || leb uint32max uncompressed

module _ (c : Compressor) (hash : Hash) where
  abbrev pub Writer : Type 0
  Writer = FileWriter c.State hash.State

  unfoldable pub write_file : Writer → Bytes → Wrote c.State hash.State
  write_file w p =
      if w.closed then record { count = 0; error = some write_closed; writer = w } else record {
        count = c.taken w.comp p;
        error = c.failed w.comp p;
        writer = record w {
          comp = c.after w.comp p;
          crc = hash.write w.crc p;
          raw_count = w.raw_count + c.taken w.comp p;
          comp_count = w.comp_count + length (c.put_out w.comp p);
          out = w.out ++ c.put_out w.comp p;
        };
      }

  -- The header's fields, from the reader version that it had, the sum and the counts.
  unfoldable pub final_sizes : ℕ → ℕ → ℕ → ℕ → Sizes
  final_sizes reader_version sum compressed uncompressed =
      if is_zip64 compressed uncompressed
      then record {
        reader_version = zip_version45;
        crc32 = sum;
        compressed_size64 = compressed;
        uncompressed_size64 = uncompressed;
        compressed_size = uint32max;
        uncompressed_size = uint32max;
      }
      else record {
        reader_version = reader_version;
        crc32 = sum;
        compressed_size64 = compressed;
        uncompressed_size64 = uncompressed;
        compressed_size = compressed % u32_mod;
        uncompressed_size = uncompressed % u32_mod;
      }

  abbrev pub flushed : Writer → Writer
  flushed w = record w {
    closed = true;
    comp_count = w.comp_count + length (c.close_out w.comp);
    out = w.out ++ c.close_out w.comp;
  }

  -- Behind the flush of the compressor: the header, and the descriptor in the archive.
  unfoldable pub finished : Writer → Writer
  unfolding final_sizes
  finished w =
      let sum = hash.sum32 w.crc in
      record w {
        sizes = final_sizes w.sizes.reader_version sum w.comp_count w.raw_count;
        out =
            w.out
            ++ data_descriptor sum w.comp_count w.raw_count (is_zip64 w.comp_count w.raw_count);
      }

  unfoldable pub close_if : Bool → Option Error → Writer → Option Error × Writer
  unfolding finished
  close_if true failed w = (some closed_twice, w)
  close_if false (some e) w = (some e, flushed w)
  close_if false none w = (none, finished (flushed w))

  unfoldable pub close_file : Writer → Option Error × Writer
  unfolding close_if
  close_file w = close_if w.closed (c.close_failed w.comp) w
