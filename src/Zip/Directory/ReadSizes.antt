-- ===== src/Zip/Directory/ReadSizes.antt =====
-- The loop over the extra fields of a header that `Writer.Close` has written (zip/reader.go): the
-- sizes, the offset and the time that it gives.
use arkive.Common.{ℕ, ◌<◌, ◌≡◌, ap, ◌∙◌, false, Option, none, [], ◌++◌, arith, Bytes, ◌==◌, length}
use arkive.Common.Go.{ok, ◌>>=◌}
use arkive.Zip.EndRecord.{uint32max}
use arkive.Zip.FileWriter.{is_zip64}
use arkive.Zip.Extras.{Extras, parse_extras}
use arkive.Zip.Extras.Fields.{put_extras, parse_extras-put_extras}
use arkive.Zip.Extras.Times.{extra_time}
use arkive.Zip.Directory.{
  FileHeader, finish_header, first_extras, read_extras, needs_zip64_extra, put_zip64_extra,
  offset32,
}
use arkive.Zip.Directory.Sizes.{
  IsHeader, put_extras-append, zip64_extra-sizes, parse_extras-nil, parse_extras-zip64,
  finish_header-plain, length-put_zip64_extra, offset32-eq,
}

module _ (g h : FileHeader) (offset : ℕ) (i : IsHeader h offset) where
  -- The extra fields of a header with a zip64 block.
  pub read_extras-zip64 :
      read_extras
        (record g {
          compressed_size = uint32max;
          uncompressed_size = uint32max;
          extra = h.extra ++ put_zip64_extra h offset [];
        })
        (offset32 offset)
      ≡ ok (
        record g {
          compressed_size = uint32max;
          uncompressed_size = uint32max;
          extra = h.extra ++ put_zip64_extra h offset [];
          compressed_size64 = h.compressed_size64;
          uncompressed_size64 = h.uncompressed_size64;
          modified = extra_time i.fields none;
        },
        offset,
      )
  unfolding read_extras first_extras finish_header
  read_extras-zip64 =
      let z : Bytes = put_zip64_extra h offset [] in
      let b : Bytes = h.extra ++ z in
      let hd : FileHeader = record g {
        compressed_size = uint32max;
        uncompressed_size = uint32max;
        extra = b;
      } in
      let x : Extras = first_extras hd (offset32 offset) in
      let e : b ≡ put_extras i.fields z =
        ap (λ s. s ++ z) i.extra_eq ∙ put_extras-append i.fields z in
      let t : Option (ℕ × ℕ) = extra_time i.fields none in
      let (k, le, p) =
        parse_extras-put_extras i.fields z (length b) x i.fields_ok (omega (arith, ap length e)) in
      let q : parse_extras (length b) b x
          ≡ ok (record {
            need_usize = false;
            need_csize = false;
            need_offset = false;
            usize = h.uncompressed_size64;
            csize = h.compressed_size64;
            header_offset = offset;
            time = t;
          }) =
        ap (λ s. parse_extras (length b) s x) e
        ∙ p
        ∙ parse_extras-zip64 h offset k (record x { time = t })
            (omega (arith, le, length-put_zip64_extra h offset))
        ∙ zip64_extra-sizes h offset uint32max uint32max (offset32 offset)
            (offset32 offset == uint32max) t i.uncompressed i.compressed i.start
            (offset32-eq offset) in
      ap (λ r. r >>= finish_header hd) q

  -- The extra fields of a header without one.
  pub read_extras-plain :
      needs_zip64_extra h offset ≡ false
      → read_extras
          (record g {
            compressed_size = h.compressed_size;
            uncompressed_size = h.uncompressed_size;
            extra = h.extra;
          })
          (offset32 offset)
        ≡ ok (
          record g {
            compressed_size = h.compressed_size;
            uncompressed_size = h.uncompressed_size;
            extra = h.extra;
            compressed_size64 = h.compressed_size64;
            uncompressed_size64 = h.uncompressed_size64;
            modified = extra_time i.fields none;
          },
          offset,
        )
  unfolding read_extras first_extras finish_header needs_zip64_extra offset32
  read_extras-plain k =
      let small : (h.compressed_size64 < uint32max)
          × (h.uncompressed_size64 < uint32max)
          × (offset < uint32max) =
        ground arith in
      let (sc, su, so) = small in
      let no_zip64 : is_zip64 h.compressed_size64 h.uncompressed_size64 ≡ false = ground arith in
      let c : h.compressed_size ≡ h.compressed_size64 = i.compressed_eq no_zip64 in
      let u : h.uncompressed_size ≡ h.uncompressed_size64 = i.uncompressed_eq no_zip64 in
      let o : offset32 offset ≡ offset = ground arith in
      let hd : FileHeader = record g {
        compressed_size = h.compressed_size;
        uncompressed_size = h.uncompressed_size;
        extra = h.extra;
      } in
      let x : Extras = first_extras hd (offset32 offset) in
      let t : Option (ℕ × ℕ) = extra_time i.fields none in
      let (n, le, p) =
        parse_extras-put_extras i.fields [] (length h.extra) x i.fields_ok
          (omega (arith, ap length i.extra_eq)) in
      let q : parse_extras (length h.extra) h.extra x ≡ ok (record x { time = t }) =
        ap (λ s. parse_extras (length h.extra) s x) i.extra_eq ∙ p ∙ parse_extras-nil n _ in
      let nc : (h.compressed_size == uint32max) ≡ false = ground (arith, c, sc) in
      let no : (offset32 offset == uint32max) ≡ false = ground (arith, o, so) in
      ap (λ r. r >>= finish_header hd) q
      ∙ finish_header-plain hd (record x { time = t }) nc no
      ∙ ap
          (λ (n : ℕ). ok (
            record hd {
              compressed_size64 = n;
              uncompressed_size64 = h.uncompressed_size;
              modified = t;
            },
            offset32 offset,
          ))
          c
      ∙ ap
          (λ (n : ℕ). ok (
            record hd {
              compressed_size64 = h.compressed_size64;
              uncompressed_size64 = n;
              modified = t;
            },
            offset32 offset,
          ))
          u
      ∙ ap
          (λ (n : ℕ). ok (
            record hd {
              compressed_size64 = h.compressed_size64;
              uncompressed_size64 = h.uncompressed_size64;
              modified = t;
            },
            n,
          ))
          o
