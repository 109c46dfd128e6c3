-- ===== src/Zip/Directory/RoundTrip.antt =====
-- A header of the central directory that `Writer.Close` (zip/writer.go) has written is read back.
use arkive.Common.{
  ℕ, ◌+◌, ◌^◌, ◌<◌, ◌≡◌, refl, sym, ap, ◌∙◌, inl, inr, false, Option, none, [], ◌++◌, append_assoc,
  arith, Bytes, ltb, Bool-cases, length, take, drop, length-append, take_append, drop_append,
  drop-drop,
}
use arkive.Common.Go.{Result, ok, ◌>>=◌}
use arkive.Zip.Buf.{put_uint8, put_uint16, put_uint32, put_zeros}
use arkive.Zip.Buf.Laws.{put_lengths, read_put}
use native.Mathlib.Nat.{mod-eq_of_lt}
use arkive.Zip.EndRecord.{uint32max}
use arkive.Zip.FileWriter.{is_zip64}
use arkive.Zip.Extras.Times.{extra_time}
use arkive.Zip.Checksum.{read_full}
use arkive.Zip.Encoding.{detect_utf8}
use arkive.Zip.Directory.{
  FileHeader, directory_header_len, is_non_utf8, read_extras, with_names, read_names, read_fixed,
  read_directory_header, needs_zip64_extra, put_zip64_extra, written_header, offset32, put_fixed,
  put_directory_header,
}
use arkive.Zip.Directory.Sizes.{IsHeader, as_read, length-put_zip64_extra}
use arkive.Zip.Directory.ReadSizes.{read_extras-zip64, read_extras-plain}

-- The fixed part of a header.
abbrev fixed_part : FileHeader → FileHeader
fixed_part w = record w {
  name = [];
  comment = [];
  non_utf8 = false;
  modified = none;
  compressed_size64 = w.compressed_size;
  uncompressed_size64 = w.uncompressed_size;
  extra = [];
}

read_fixed-put :
    (w : FileHeader) (o : ℕ) (r : Bytes)
    → w.creator_version < 2 ^ 16
    → w.reader_version < 2 ^ 16
    → w.flags < 2 ^ 16
    → w.method < 2 ^ 16
    → w.modified_time < 2 ^ 16
    → w.modified_date < 2 ^ 16
    → w.crc32 < 2 ^ 32
    → w.external_attrs < 2 ^ 32
    → w.compressed_size < 2 ^ 32
    → w.uncompressed_size < 2 ^ 32
    → o < 2 ^ 32
    → length w.name < 2 ^ 16
    → length w.extra < 2 ^ 16
    → length w.comment < 2 ^ 16
    → read_fixed (put_fixed w o []) r
      ≡ read_names (fixed_part w) (length w.name) (length w.extra) (length w.comment) o r
unfolding read_fixed put_fixed
read_fixed-put w o r h1 h2 h3 h4 h5 h6 h7 h8 h9 h10 h11 h12 h13 h14 =
    simp
      (
        read_put,
        mod-eq_of_lt h1,
        mod-eq_of_lt h2,
        mod-eq_of_lt h3,
        mod-eq_of_lt h4,
        mod-eq_of_lt h5,
        mod-eq_of_lt h6,
        mod-eq_of_lt h7,
        mod-eq_of_lt h8,
        mod-eq_of_lt h9,
        mod-eq_of_lt h10,
        mod-eq_of_lt h11,
        mod-eq_of_lt h12,
        mod-eq_of_lt h13,
        mod-eq_of_lt h14,
      )
      refl

pub put_fixed-append :
    (w : FileHeader) (o : ℕ) (rest : Bytes) → put_fixed w o rest ≡ put_fixed w o [] ++ rest
unfolding put_fixed put_uint32 put_uint16 put_uint8 put_zeros
put_fixed-append w o rest = refl

pub length-put_fixed : (w : FileHeader) (o : ℕ) → length (put_fixed w o []) ≡ directory_header_len
unfolding put_fixed
length-put_fixed w o = simp put_lengths refl

-- Reading what was put in front.
read_full-append :
    (n : ℕ) (front rest : Bytes) → n ≡ length front → read_full n (front ++ rest) ≡ ok (front, rest)
unfolding read_full
read_full-append n front rest e =
    let k : ltb (length (front ++ rest)) n ≡ false = ground (arith, length-append front rest) in
    rw (k, take_append front rest n e, drop_append front rest n e) refl

read_names-put :
    (hd : FileHeader) (o : ℕ) (name extra comment rest : Bytes)
    → read_names hd
        (length name)
        (length extra)
        (length comment)
        o
        (name ++ (extra ++ (comment ++ rest)))
      ≡ (read_extras (with_names hd name extra comment) o >>= λ header. ok (header, rest))
unfolding read_names
read_names-put hd o name extra comment rest =
    let d : Bytes = name ++ (extra ++ comment) in
    let e : name ++ (extra ++ (comment ++ rest)) ≡ d ++ rest =
      ap (λ s. name ++ s) (sym (append_assoc extra comment rest))
      ∙ sym (append_assoc name _ rest) in
    let l : length name + length extra + length comment ≡ length d =
      omega (arith, length-append name (extra ++ comment), length-append extra comment) in
    let f : drop (length name + length extra) d ≡ comment =
      sym (drop-drop (length name) (length extra) d)
      ∙ ap (drop (length extra)) (drop_append name _ (length name) refl)
      ∙ drop_append extra comment (length extra) refl in
    let g : take (length extra) (drop (length name) d) ≡ extra =
      ap (take (length extra)) (drop_append name _ (length name) refl)
      ∙ take_append extra comment (length extra) refl in
    rw (e, read_full-append (length name + length extra + length comment) d rest l)
      (rw (take_append name (extra ++ comment) (length name) refl, g, f) refl)

module _ (h : FileHeader) (offset : ℕ) (i : IsHeader h offset) (rest : Bytes) where
  -- A header with bounds on what was changed.
  read_directory_header-fixed :
      (w : FileHeader) (o : ℕ)
      → w.creator_version < 2 ^ 16
      → w.reader_version < 2 ^ 16
      → w.flags < 2 ^ 16
      → w.method < 2 ^ 16
      → w.modified_time < 2 ^ 16
      → w.modified_date < 2 ^ 16
      → w.crc32 < 2 ^ 32
      → w.external_attrs < 2 ^ 32
      → w.compressed_size < 2 ^ 32
      → w.uncompressed_size < 2 ^ 32
      → o < 2 ^ 32
      → length w.name < 2 ^ 16
      → length w.extra < 2 ^ 16
      → length w.comment < 2 ^ 16
      → read_directory_header (put_fixed w o (w.name ++ (w.extra ++ (w.comment ++ rest)))) ≡ (
          read_extras (with_names (fixed_part w) w.name w.extra w.comment) o >>= λ header.
          ok (header, rest))
  unfolding read_directory_header
  read_directory_header-fixed w o h1 h2 h3 h4 h5 h6 h7 h8 h9 h10 h11 h12 h13 h14 =
      let s : Bytes = w.name ++ (w.extra ++ (w.comment ++ rest)) in
      ap read_directory_header (put_fixed-append w o s)
      ∙ ap (λ r. r >>= λ x. read_fixed x.0 x.1)
          (read_full-append directory_header_len (put_fixed w o []) s (sym (length-put_fixed w o)))
      ∙ read_fixed-put w o s h1 h2 h3 h4 h5 h6 h7 h8 h9 h10 h11 h12 h13 h14
      ∙ read_names-put (fixed_part w) o w.name w.extra w.comment rest

  offset32-fits : offset32 offset < 2 ^ 32
  unfolding offset32
  offset32-fits = ground arith

  plain_sizes :
      needs_zip64_extra h offset ≡ false
      → (h.compressed_size < 2 ^ 32) × (h.uncompressed_size < 2 ^ 32)
  unfolding needs_zip64_extra
  plain_sizes k =
      let no_zip64 : is_zip64 h.compressed_size64 h.uncompressed_size64 ≡ false = ground arith in
      let small : (h.compressed_size64 < uint32max) × (h.uncompressed_size64 < uint32max) =
        ground arith in
      (
        omega (arith, i.compressed_eq no_zip64, small.0),
        omega (arith, i.uncompressed_eq no_zip64, small.1),
      )

  -- A header of the central directory that Close has written, with a zip64 block where it needs
  -- one, is read back with its sizes, its offset and its names, with the time that its extra fields
  -- give by their layout, and with whether name and comment are taken for UTF-8. Its fields must fit,
  -- its extra fields be complete and leave room for a zip64 block, with no zip64 field among them and
  -- NTFS fields of one attribute whose time is not negative, and its 32-bit sizes be its sizes where
  -- these need no zip64 block.
  pub read_directory_header-put :
      read_directory_header (put_directory_header h offset rest)
      ≡ ok ((as_read h offset (extra_time i.fields none), offset), rest)
  unfolding put_directory_header written_header with_names
  read_directory_header-put =
      let written : FileHeader → Bytes =
        λ w. put_fixed w (offset32 offset) (w.name ++ (w.extra ++ (w.comment ++ rest))) in
      let t : Option (ℕ × ℕ) = extra_time i.fields none in
      let done : FileHeader → Option (ℕ × ℕ) → Result ((FileHeader × ℕ) × Bytes) = λ w t. ok (
        (
          record w {
            non_utf8 = is_non_utf8 (detect_utf8 h.name) (detect_utf8 h.comment) h.flags;
            modified = t;
          },
          offset,
        ),
        rest,
      ) in
      elim (Bool-cases (needs_zip64_extra h offset)) [
        | inl k ↦
            let w : FileHeader = record h {
              compressed_size = uint32max;
              uncompressed_size = uint32max;
              extra = h.extra ++ put_zip64_extra h offset [];
            } in
            let same : written_header h offset ≡ w = rw (k) refl in
            let room = i.extra_fits in
            let long : length w.extra < 2 ^ 16 = omega (
              arith,
              length-append h.extra (put_zip64_extra h offset []),
              length-put_zip64_extra h offset,
              room,
            ) in
            let e =
              read_extras-zip64 (with_names (fixed_part w) w.name w.extra w.comment) h offset i in
            ap (λ w. read_directory_header (written w)) same
            ∙ read_directory_header-fixed w (offset32 offset) i.creator i.reader i.flags i.method
                i.time i.date i.sum i.attrs (omega arith) (omega arith) offset32-fits i.name_fits
                long i.comment_fits
            ∙ ap (λ r. r >>= λ header. ok (header, rest)) e
            ∙ ap (λ w. done w t) (sym same)
        | inr k ↦
            let same : written_header h offset ≡ h = rw (k) refl in
            let room = i.extra_fits in
            let (ce, ue) = plain_sizes k in
            let e =
              read_extras-plain (with_names (fixed_part h) h.name h.extra h.comment) h offset i k in
            ap (λ w. read_directory_header (written w)) same
            ∙ read_directory_header-fixed h (offset32 offset) i.creator i.reader i.flags i.method
                i.time i.date i.sum i.attrs ce ue offset32-fits i.name_fits (omega (arith, room))
                i.comment_fits
            ∙ ap (λ r. r >>= λ header. ok (header, rest)) e
            ∙ ap (λ w. done w t) (sym same)
      ]
