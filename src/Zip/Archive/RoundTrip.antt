-- ===== src/Zip/Archive/RoundTrip.antt =====
-- The archive that Writer.Close has written is opened by Reader.init.
use arkive.Common.{
  ℕ, zero, suc, ◌+◌, ◌*◌, ◌/◌, ◌%◌, ◌^◌, ◌≤◌, ◌<◌, ◌≡◌, refl, sym, ap, ◌∙◌, inl, inr, true, false,
  none, List, [], ◌∷◌, ◌++◌, append_assoc, arith, Bytes, ltb, ◌==◌, Bool-cases, length, drop,
  length-append, drop_append, All,
}
use arkive.Common.Words.{u16_mod, sign_bit, add64}
use arkive.Common.Go.{Error, unexpected_eof, err_format, ok, err, ◌>>=◌}
use arkive.Zip.Buf.{uint8, uint16, uint32, put_uint8, put_uint16, put_uint32}
use arkive.Zip.EndRecord.{
  DirectoryEnd, has_end_record, read_directory_end, put_end_record, needs_zip64, end_records,
}
use arkive.Zip.EndRecord.Fields.{length-put_end_record}
use arkive.Zip.EndRecord.RoundTrip.{HasNoLocator, end_records_plain, read_directory_end-end_records}
use arkive.Zip.Checksum.{file_header_len, read_full}
use arkive.Zip.Directory.{
  FileHeader, directory_header_len, read_fixed, read_directory_header, ends_directory,
  stop_directory, read_on, read_headers, written_header, offset32, put_fixed, put_directory_header,
  put_directory,
}
use arkive.Zip.Directory.Sizes.{IsHeader, as_read}
use arkive.Zip.Extras.Times.{extra_time}
use arkive.Zip.Directory.RoundTrip.{put_fixed-append, length-put_fixed, read_directory_header-put}
use arkive.Zip.Archive.{Normalize, checked_files, init_reader}

-- The headers that are read for the files that were written, `skip_len` bytes further on.
abbrev pub read_back :
    ℕ → (files : List (FileHeader × ℕ)) → All (λ f. IsHeader f.0 f.1) files → List (FileHeader × ℕ)
read_back skip_len [] hs = []
read_back skip_len ((h, offset) ∷ files) (i, hs) =
    (as_read h offset (extra_time i.fields none), add64 offset skip_len)
    ∷ read_back skip_len files hs

length-read_back :
    (skip_len : ℕ) (files : List (FileHeader × ℕ)) (hs : All (λ f. IsHeader f.0 f.1) files)
    → length (read_back skip_len files hs) ≡ length files
length-read_back skip_len [] hs = refl
length-read_back skip_len ((h, offset) ∷ files) (i, hs) =
    ap suc (length-read_back skip_len files hs)

put_directory-append :
    (files : List (FileHeader × ℕ)) (rest : Bytes)
    → put_directory files [] ++ rest ≡ put_directory files rest
unfolding put_directory put_directory_header
put_directory-append [] rest = refl
put_directory-append ((h, offset) ∷ files) rest =
    let w : FileHeader = written_header h offset in
    let o : ℕ = offset32 offset in
    let s : Bytes = put_directory files [] in
    let names : Bytes → Bytes = λ s. w.name ++ (w.extra ++ (w.comment ++ s)) in
    let moved : names s ++ rest ≡ names (put_directory files rest) =
      append_assoc w.name _ rest
      ∙ ap (λ s. w.name ++ s)
          (append_assoc w.extra _ rest
            ∙ ap (λ s. w.extra ++ s)
                (append_assoc w.comment s rest
                  ∙ ap (λ s. w.comment ++ s) (put_directory-append files rest))) in
    ap (λ s. s ++ rest) (put_fixed-append w o (names s))
    ∙ append_assoc (put_fixed w o []) (names s) rest
    ∙ ap (λ s. put_fixed w o [] ++ s) moved
    ∙ sym (put_fixed-append w o (names (put_directory files rest)))

length-put_directory :
    (files : List (FileHeader × ℕ)) (rest : Bytes)
    → 46 * length files ≤ length (put_directory files rest)
unfolding put_directory put_directory_header
length-put_directory [] rest = omega arith
length-put_directory ((h, offset) ∷ files) rest =
    let w : FileHeader = written_header h offset in
    let s : Bytes = put_directory files rest in
    let t : Bytes = w.comment ++ s in
    omega (
      arith,
      ap length (put_fixed-append w (offset32 offset) (w.name ++ (w.extra ++ t))),
      length-append (put_fixed w (offset32 offset) []) (w.name ++ (w.extra ++ t)),
      length-put_fixed w (offset32 offset),
      length-append w.name (w.extra ++ t),
      length-append w.extra t,
      length-append w.comment s,
      length-put_directory files rest,
    )

-- The loop reads the headers, and stops at what is no header.
read_headers-put_directory :
    (files : List (FileHeader × ℕ)) (rest : Bytes) (e : Error) (fuel skip_len : ℕ)
    → (hs : All (λ f. IsHeader f.0 f.1) files) → read_directory_header rest ≡ err e
    → ends_directory e ≡ true
    → length files < fuel
    → read_headers fuel skip_len (put_directory files rest) ≡ ok (read_back skip_len files hs, e)
unfolding read_headers read_on stop_directory put_directory
read_headers-put_directory files rest e zero skip_len hs r x le = absurd (omega arith)
read_headers-put_directory [] rest e (suc fuel) skip_len hs r x le = rw (r, x) refl
read_headers-put_directory ((h, offset) ∷ files) rest e (suc fuel) skip_len (i, hs) r x le =
    let g : FileHeader × ℕ = (as_read h offset (extra_time i.fields none), add64 offset skip_len) in
    let p = read_directory_header-put h offset i (put_directory files rest) in
    let q = read_headers-put_directory files rest e fuel skip_len hs r x (omega (arith, le)) in
    ap (λ r. read_on skip_len r (read_headers fuel skip_len)) p
    ∙ ap (λ r. r >>= λ x. ok (g ∷ x.0, x.1)) q

-- An end record is no header of a file.
read_directory_header-end :
    (records size offset : ℕ) (comment : Bytes)
    → (e : Error) × (read_directory_header (put_end_record records size offset comment) ≡ err e)
      × (ends_directory e ≡ true)
unfolding read_directory_header read_full read_fixed put_end_record put_uint32 put_uint16 put_uint8
    uint32 uint16 uint8 ends_directory
read_directory_header-end records size offset comment =
    elim (Bool-cases
      (ltb (length (put_end_record records size offset comment)) directory_header_len)) [
        | inl h ↦
            let some_bytes : (length (put_end_record records size offset comment) == 0) ≡ false =
              ground (arith, length-put_end_record records size offset comment) in
            (unexpected_eof, rw (h, some_bytes) refl, refl)
        | inr h ↦ (err_format, rw (h) refl, refl)
      ]

-- The parts of `init_reader`, put together.
init_reader_parts :
    (normalize : Normalize) (file : Bytes) (d : DirectoryEnd) (out : List (FileHeader × ℕ))
    (e : Error)
    → read_directory_end file ≡ ok d
    → ltb (length file / file_header_len) d.directory_records ≡ false
    → read_headers (suc (length file)) d.start_skip_len (drop d.directory_offset file) ≡ ok (out, e)
    → (length out % u16_mod == d.directory_records % u16_mod) ≡ true
    → init_reader normalize file ≡ (normalize out >>= λ files. ok (files, d.comment))
unfolding init_reader checked_files
init_reader_parts normalize file d out e p few q same = rw (p) (rw (few, q) (rw (same) refl))

module _ (normalize : Normalize) (files : List (FileHeader × ℕ)) (pad offset : ℕ)
    (before comment : Bytes) where
  -- Take files whose fields fit the format, whose extra fields are complete and leave room for a
  -- zip64 block, with no zip64 field among them and NTFS fields of one attribute whose time is not
  -- negative, and whose 32-bit sizes are their sizes where these need no zip64 block. Let there be
  -- `offset` bytes written in front of their directory, no need for zip64 end records, and `pad`
  -- bytes in front of the archive, which all together is an int64 with 2^17 to spare, and let the
  -- comment fit its length field. If the end record is the last in the file and no zip64 locator
  -- stands before it, Reader.init finds the end record and the
  -- directory that Writer.Close wrote, and reads back every header, with the time that its extra
  -- fields give by their layout and its offset moved by `pad`, in order, and the comment; the
  -- encoding detection sees just these files.
  pub init_reader-put_directory :
      (hs : All (λ f. IsHeader f.0 f.1) files)
      → length before ≡ pad + offset
      → needs_zip64 (length files) (length (put_directory files [])) offset ≡ false
      → length (before ++ put_directory files []) + 2 ^ 17 < sign_bit
      → length comment < 2 ^ 16
      → ((j : ℕ)
          → 0 < j
          → has_end_record
              (put_end_record (length files) (length (put_directory files [])) offset comment)
              j
            ≡ false)
      → HasNoLocator (before ++ put_directory files [])
      → init_reader normalize (
          (before ++ put_directory files [])
          ++ end_records (length files) offset (offset + length (put_directory files [])) comment)
        ≡ (normalize (read_back pad files hs) >>= λ files. ok (files, comment))
  unfolding init_reader checked_files
  init_reader-put_directory hs place small fits hc alone absent =
      let n : ℕ = length files in
      let size : ℕ = length (put_directory files []) in
      let rec : Bytes = put_end_record n size offset comment in
      let file : Bytes = (before ++ put_directory files []) ++ rec in
      let plain = end_records_plain n size offset comment small in
      let l = length-append before (put_directory files []) in
      let end =
        read_directory_end-end_records n pad offset size comment (before ++ put_directory files [])
          (omega (arith, l, place)) small fits hc alone absent in
      let d = length-put_directory files [] in
      let l' = length-append (before ++ put_directory files []) rec in
      let few : ltb (length file / file_header_len) n ≡ false = ground (arith, l, l', d) in
      let at : drop (pad + offset) file ≡ put_directory files rec =
        ap (drop (pad + offset)) (append_assoc before (put_directory files []) rec)
        ∙ drop_append before _ (pad + offset) (sym place)
        ∙ put_directory-append files rec in
      let (e, f, x) = read_directory_header-end n size offset comment in
      let out : List (FileHeader × ℕ) = read_back pad files hs in
      let r =
        read_headers-put_directory files rec e (suc (length file)) pad hs f x
          (omega (arith, l, l', d)) in
      let same : (length out % u16_mod == n % u16_mod) ≡ true =
        ground (arith, length-read_back pad files hs) in
      ap (λ s. init_reader normalize ((before ++ put_directory files []) ++ s)) plain
      ∙ init_reader_parts normalize file _ out e
          (sym (ap (λ s. read_directory_end ((before ++ put_directory files []) ++ s)) plain) ∙ end)
          few (ap (read_headers (suc (length file)) pad) at ∙ r) same
