-- ===== src/Zip/Directory/Sizes.antt =====
-- The extra fields of a header that `Writer.Close` (zip/writer.go) has written are read back.
use arkive.Common.{
  ℕ, zero, suc, ◌+◌, ◌-◌, ◌^◌, ◌≤◌, ◌<◌, ◌≡◌, refl, sym, ap, ◌∙◌, ◌≢◌, inl, inr, Bool, true, false,
  ◌||◌, Option, List, [], ◌∷◌, ◌++◌, append-nil, append_assoc, arith, Bytes, ltb, ◌==◌,
  if◌then◌else◌, Bool-cases, length, All,
}
use arkive.Common.Go.{err_format, Result, ok, err, panic, stuck, ◌>>=◌}
use arkive.Zip.Buf.{put_uint8, put_uint16, put_uint64}
use arkive.Zip.Buf.Laws.{length-put_uint64, put_lengths, read_put}
use native.Mathlib.Nat.{mod-eq_of_lt}
use arkive.Zip.EndRecord.{uint32max}
use arkive.Zip.FileWriter.{is_zip64}
use arkive.Zip.Encoding.{detect_utf8}
use arkive.Zip.Extras.{Extras, take_size64, zip64_extra, read_extra, parse_extras}
use arkive.Zip.Extras.Fields.{put_extras, parse_extras-put}
use arkive.Zip.Extras.Times.{IsField}
use arkive.Zip.Directory.{
  FileHeader, is_non_utf8, finish_header, put_zip64_extra, written_header, offset32,
}

-- A header that `Close` can write: each field fits, the extra fields are complete and hold no zip64
-- block, an NTFS field has its usual layout, and the 32-bit sizes of a file whose sizes fit there are
-- these sizes; those of a larger file are free.
pub record IsHeader (h : FileHeader) (offset : ℕ) : Type 0 where
  pub fields : List (ℕ × Bytes)
  pub extra_eq : h.extra ≡ put_extras fields []
  pub fields_ok : All IsField fields
  pub creator : h.creator_version < 2 ^ 16
  pub reader : h.reader_version < 2 ^ 16
  pub flags : h.flags < 2 ^ 16
  pub method : h.method < 2 ^ 16
  pub time : h.modified_time < 2 ^ 16
  pub date : h.modified_date < 2 ^ 16
  pub sum : h.crc32 < 2 ^ 32
  pub attrs : h.external_attrs < 2 ^ 32
  pub compressed : h.compressed_size64 < 2 ^ 64
  pub uncompressed : h.uncompressed_size64 < 2 ^ 64
  pub start : offset < 2 ^ 64
  pub name_fits : length h.name < 2 ^ 16
  pub extra_fits : length h.extra + 28 < 2 ^ 16
  pub comment_fits : length h.comment < 2 ^ 16
  pub compressed_eq :
      is_zip64 h.compressed_size64 h.uncompressed_size64 ≡ false
      → h.compressed_size ≡ h.compressed_size64
  pub uncompressed_eq :
      is_zip64 h.compressed_size64 h.uncompressed_size64 ≡ false
      → h.uncompressed_size ≡ h.uncompressed_size64

-- The header that the reader gives, with the time `t`.
abbrev pub as_read : FileHeader → ℕ → Option (ℕ × ℕ) → FileHeader
as_read h offset t =
    let w = written_header h offset in
    record w {
      non_utf8 = is_non_utf8 (detect_utf8 h.name) (detect_utf8 h.comment) h.flags;
      modified = t;
    }

put_append16 : (v : ℕ) (a b : Bytes) → put_uint16 v a ++ b ≡ put_uint16 v (a ++ b)
unfolding put_uint16 put_uint8
put_append16 v a b = refl

pub put_extras-append :
    (fields : List (ℕ × Bytes)) (rest : Bytes)
    → put_extras fields [] ++ rest ≡ put_extras fields rest
put_extras-append [] rest = refl
put_extras-append ((tag, b) ∷ fields) rest =
    put_append16 tag _ rest
    ∙ ap (put_uint16 tag) (
        put_append16 (length b) _ rest
        ∙ ap (put_uint16 (length b))
            (append_assoc b _ rest ∙ ap (λ s. b ++ s) (put_extras-append fields rest)))

abbrev sizes : FileHeader → ℕ → Bytes
sizes h offset =
    put_uint64 h.uncompressed_size64 (put_uint64 h.compressed_size64 (put_uint64 offset []))

length-sizes : (h : FileHeader) (offset : ℕ) → length (sizes h offset) ≡ 24
length-sizes h offset = simp put_lengths refl

take_size64-put :
    (v old : ℕ) (rest : Bytes)
    → v < 2 ^ 64
    → take_size64 true old (put_uint64 v rest) ≡ ok (v, rest)
unfolding take_size64
take_size64-put v old rest h =
    let k : ltb (length (put_uint64 v rest)) 8 ≡ false = ground (arith, length-put_uint64 v rest) in
    rw (k) (simp (read_put, mod-eq_of_lt h) refl)

-- The zip64 block gives the sizes, and the offset where the header had no room for it.
pub zip64_extra-sizes :
    (h : FileHeader) (offset usize csize o : ℕ) (n : Bool) (t : Option (ℕ × ℕ))
    → h.uncompressed_size64 < 2 ^ 64
    → h.compressed_size64 < 2 ^ 64
    → offset < 2 ^ 64
    → (n ≡ false → o ≡ offset)
    → zip64_extra (sizes h offset) (record {
      need_usize = true;
      need_csize = true;
      need_offset = n;
      usize = usize;
      csize = csize;
      header_offset = o;
      time = t;
    })
      ≡ ok (record {
        need_usize = false;
        need_csize = false;
        need_offset = false;
        usize = h.uncompressed_size64;
        csize = h.compressed_size64;
        header_offset = offset;
        time = t;
      })
unfolding zip64_extra
zip64_extra-sizes h offset usize csize o true t hu hc ho e =
    rw (take_size64-put h.uncompressed_size64 usize _ hu) (
      rw (take_size64-put h.compressed_size64 csize _ hc)
        (rw (take_size64-put offset o [] ho) refl))
zip64_extra-sizes h offset usize csize o false t hu hc ho e =
    rw (take_size64-put h.uncompressed_size64 usize _ hu) (
      rw (take_size64-put h.compressed_size64 csize _ hc) (
        ap
          (λ (o : ℕ). ok (record {
            need_usize = false;
            need_csize = false;
            need_offset = false;
            usize = h.uncompressed_size64;
            csize = h.compressed_size64;
            header_offset = o;
            time = t;
          }))
          (e refl)))

pub parse_extras-nil : (k : ℕ) (x : Extras) → parse_extras k [] x ≡ ok x
unfolding parse_extras
parse_extras-nil zero x = refl
parse_extras-nil (suc k) x = refl

>>=-nil : (r : Result Extras) (k : ℕ) → (r >>= parse_extras k []) ≡ r
>>=-nil panic k = refl
>>=-nil stuck k = refl
>>=-nil (err e) k = refl
>>=-nil (ok x) k = parse_extras-nil k x

pub parse_extras-zip64 :
    (h : FileHeader) (offset k : ℕ) (x : Extras)
    → 28 ≤ k
    → parse_extras k (put_zip64_extra h offset []) x ≡ zip64_extra (sizes h offset) x
unfolding put_zip64_extra read_extra
parse_extras-zip64 h offset k x le =
    let one : k ≡ suc (k - 1) = omega (arith, le) in
    let l = length-sizes h offset in
    ap (λ n. parse_extras n (put_zip64_extra h offset []) x) one
    ∙ ap (λ s. parse_extras (suc (k - 1)) (put_uint16 1 s) x)
        (ap (λ n. put_uint16 n (sizes h offset)) (sym l)
          ∙ ap (put_uint16 (length (sizes h offset))) (sym (append-nil (sizes h offset))))
    ∙ parse_extras-put 1 (sizes h offset) [] (k - 1) x (omega arith) (omega (arith, l))
    ∙ >>=-nil (zip64_extra (sizes h offset) x) (k - 1)

-- A header whose sizes and offset are known.
pub finish_header-plain :
    (h : FileHeader) (x : Extras)
    → x.need_csize ≡ false
    → x.need_offset ≡ false
    → finish_header h x
      ≡ ok (
        record h { uncompressed_size64 = x.usize; compressed_size64 = x.csize; modified = x.time },
        x.header_offset,
      )
unfolding finish_header
finish_header-plain h x c o =
    ap
      (λ b.
        if b || x.need_offset
        then err err_format
        else ok (
          record h {
            uncompressed_size64 = x.usize;
            compressed_size64 = x.csize;
            modified = x.time;
          },
          x.header_offset,
        ))
      c
    ∙ ap
        (λ b.
          if b
          then err err_format
          else ok (
            record h {
              uncompressed_size64 = x.usize;
              compressed_size64 = x.csize;
              modified = x.time;
            },
            x.header_offset,
          ))
        o

pub length-put_zip64_extra :
    (h : FileHeader) (offset : ℕ) → length (put_zip64_extra h offset []) ≡ 28
unfolding put_zip64_extra
length-put_zip64_extra h offset = simp put_lengths refl

pub offset32-eq : (offset : ℕ) → (offset32 offset == uint32max) ≡ false → offset32 offset ≡ offset
unfolding offset32
offset32-eq offset h = elim (Bool-cases (ltb uint32max offset)) [
  | inl k ↦
      absurd (true-ne-false (sym (ap (λ c. (if c then uint32max else offset) == uint32max) k) ∙ h))
  | inr k ↦ rw (k) refl
]
  where
    true-ne-false : true ≢ false
    true-ne-false e = cc
