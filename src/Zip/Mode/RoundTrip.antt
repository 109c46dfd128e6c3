-- ===== src/Zip/Mode/RoundTrip.antt =====
-- The mode that SetMode (zip/struct.go) has set is the one that Mode gives.
use arkive.Common.{
  ℕ, ◌+◌, ◌*◌, ◌/◌, ◌%◌, ◌≤◌, ◌<◌, ◌≡◌, refl, ap, Bool, true, false, ◌||◌, arith, ◌==◌,
  if◌then◌else◌,
}
use arkive.Zip.Directory.{FileHeader}
use arkive.Zip.Mode.{
  FileMode, bit, type_code, file_mode_to_unix_mode, mode_by_creator, ends_in_slash, header_mode,
  set_mode, s_ifreg, s_ifsock, s_iflnk, s_ifblk, s_ifdir, s_ifchr, s_ififo, unix_mode_to_file_mode,
  plain_mode,
}

pub data Kind : Type 0 where
  regular_file directory link pipe socket_file block_file character_file : Kind

-- The modes that have one type.
abbrev pub mode_of : Kind → Bool → Bool → Bool → ℕ → FileMode
mode_of regular_file s g t p = record (plain_mode p) { setuid = s; setgid = g; sticky = t }
mode_of directory s g t p = record (plain_mode p) { dir = true; setuid = s; setgid = g; sticky = t }
mode_of link s g t p = record (plain_mode p) { symlink = true; setuid = s; setgid = g; sticky = t }
mode_of pipe s g t p = record (plain_mode p) {
  named_pipe = true;
  setuid = s;
  setgid = g;
  sticky = t;
}
mode_of socket_file s g t p = record (plain_mode p) {
  socket = true;
  setuid = s;
  setgid = g;
  sticky = t;
}
mode_of block_file s g t p = record (plain_mode p) {
  device = true;
  setuid = s;
  setgid = g;
  sticky = t;
}
mode_of character_file s g t p = record (plain_mode p) {
  device = true;
  char_device = true;
  setuid = s;
  setgid = g;
  sticky = t;
}

-- The kind that a reader sees.
abbrev pub seen : Bool → Kind → Kind
seen true character_file = regular_file
seen false character_file = character_file
seen _ k = k

bit-eq : (b : Bool) → (bit b == 1) ≡ b
unfolding bit
bit-eq true = refl
bit-eq false = refl

bit-le : (b : Bool) → bit b ≤ 1
unfolding bit
bit-le true = omega arith
bit-le false = omega arith

-- A Unix mode taken apart.
parts :
    (code s g t p : ℕ)
    → code < 16
    → s ≤ 1
    → g ≤ 1
    → t ≤ 1
    → p < 512
    → let u = code * 4096 + s * 2048 + g * 1024 + t * 512 + p in
      (u / 4096 % 16 ≡ code)
      × (u / 2048 % 2 ≡ s)
      × (u / 1024 % 2 ≡ g)
      × (u / 512 % 2 ≡ t)
      × (u % 512 ≡ p)
      × (u < 65536)
parts code s g t p h hs hg ht hp =
    (omega arith, omega arith, omega arith, omega arith, omega arith, omega arith)

-- The mode with the type of `code`.
abbrev coded : ℕ → Bool → Bool → Bool → ℕ → FileMode
coded code s g t p = record {
  dir = code == s_ifdir;
  symlink = code == s_iflnk;
  named_pipe = code == s_ififo;
  socket = code == s_ifsock;
  device = code == s_ifblk || code == s_ifchr;
  char_device = code == s_ifchr;
  setuid = s;
  setgid = g;
  sticky = t;
  perm = p;
}

unix_mode_to_file_mode-coded :
    (code : ℕ) (s g t : Bool) (p : ℕ)
    → code < 16
    → p < 512
    → let u = code * 4096 + bit s * 2048 + bit g * 1024 + bit t * 512 + p in
      (u < 65536) × (unix_mode_to_file_mode u ≡ coded code s g t p)
unfolding unix_mode_to_file_mode
unix_mode_to_file_mode-coded code s g t p h hp =
    let (c, a, b, d, e, f) =
      parts code (bit s) (bit g) (bit t) p h (bit-le s) (bit-le g) (bit-le t) hp in
    (f, rw (c, a, b, d, e, bit-eq s, bit-eq g, bit-eq t) refl)

-- The code that `set_mode` writes.
abbrev pub code_of : Kind → ℕ
code_of regular_file = s_ifreg
code_of directory = s_ifdir
code_of link = s_iflnk
code_of pipe = s_ififo
code_of socket_file = s_ifsock
code_of block_file = s_ifblk
code_of character_file = s_ifchr

code_of-le : (k : Kind) → code_of k < 16
code_of-le regular_file = omega arith
code_of-le directory = omega arith
code_of-le link = omega arith
code_of-le pipe = omega arith
code_of-le socket_file = omega arith
code_of-le block_file = omega arith
code_of-le character_file = omega arith

coded-code_of : (k : Kind) (s g t : Bool) (p : ℕ) → coded (code_of k) s g t p ≡ mode_of k s g t p
coded-code_of regular_file s g t p = refl
coded-code_of directory s g t p = refl
coded-code_of link s g t p = refl
coded-code_of pipe s g t p = refl
coded-code_of socket_file s g t p = refl
coded-code_of block_file s g t p = refl
coded-code_of character_file s g t p = refl

file_mode_to_unix_mode-mode_of :
    (char_in_type : Bool) (k : Kind) (s g t : Bool) (p : ℕ)
    → file_mode_to_unix_mode char_in_type (mode_of k s g t p)
      ≡ code_of (seen char_in_type k) * 4096 + bit s * 2048 + bit g * 1024 + bit t * 512 + p
unfolding file_mode_to_unix_mode type_code
file_mode_to_unix_mode-mode_of true regular_file s g t p = refl
file_mode_to_unix_mode-mode_of false regular_file s g t p = refl
file_mode_to_unix_mode-mode_of true directory s g t p = refl
file_mode_to_unix_mode-mode_of false directory s g t p = refl
file_mode_to_unix_mode-mode_of true link s g t p = refl
file_mode_to_unix_mode-mode_of false link s g t p = refl
file_mode_to_unix_mode-mode_of true pipe s g t p = refl
file_mode_to_unix_mode-mode_of false pipe s g t p = refl
file_mode_to_unix_mode-mode_of true socket_file s g t p = refl
file_mode_to_unix_mode-mode_of false socket_file s g t p = refl
file_mode_to_unix_mode-mode_of true block_file s g t p = refl
file_mode_to_unix_mode-mode_of false block_file s g t p = refl
file_mode_to_unix_mode-mode_of true character_file s g t p = refl
file_mode_to_unix_mode-mode_of false character_file s g t p = refl

-- The mode that the fields of the header hold, whatever its name is.
mode_by_creator-unix :
    (c u d r : ℕ)
    → u < 65536
    → d ≤ 1
    → r ≤ 1
    → mode_by_creator ((c % 256 + 3 * 256) / 256) (u * 65536 + d * 16 + r)
      ≡ unix_mode_to_file_mode u
unfolding mode_by_creator
mode_by_creator-unix c u d r hu hd hr =
    let e : (c % 256 + 3 * 256) / 256 ≡ 3 = omega arith in
    let f : (u * 65536 + d * 16 + r) / 65536 ≡ u = omega arith in rw (e, f) refl

read_only-le : (n : ℕ) → (if n == 0 then 1 else 0) ≤ 1
read_only-le n = ground arith

-- The fields that SetMode has written.
mode_by_creator-set_mode :
    (char_in_type : Bool) (k : Kind) (s g t : Bool) (p : ℕ) (h : FileHeader)
    → p < 512
    → let written = set_mode char_in_type (mode_of k s g t p) h in
      mode_by_creator (written.creator_version / 256) written.external_attrs
      ≡ mode_of (seen char_in_type k) s g t p
unfolding set_mode
mode_by_creator-set_mode c k s g t p h hp =
    let m = mode_of k s g t p in
    let l = seen c k in
    let (hu, e) = unix_mode_to_file_mode-coded (code_of l) s g t p (code_of-le l) hp in
    let f =
      mode_by_creator-unix h.creator_version
        (code_of l * 4096 + bit s * 2048 + bit g * 1024 + bit t * 512 + p) (bit m.dir)
        (if m.perm / 128 % 2 == 0 then 1 else 0) hu (bit-le m.dir)
        (read_only-le (m.perm / 128 % 2)) in
    rw (file_mode_to_unix_mode-mode_of c k s g t p, f, e) (coded-code_of l s g t p)

-- What SetMode has written, Mode reads: for a mode with one type and permission bits below 512, the
-- same mode; only a character device, where `os.ModeType` holds its flag, is read as a regular
-- file. A name that ends in a slash makes the mode one of a directory as well.
pub header_mode-set_mode :
    (char_in_type : Bool) (k : Kind) (s g t : Bool) (p : ℕ) (h : FileHeader)
    → p < 512
    → let mode = mode_of (seen char_in_type k) s g t p in
      header_mode (set_mode char_in_type (mode_of k s g t p) h)
      ≡ (if ends_in_slash h.name then record mode { dir = true } else mode)
unfolding header_mode set_mode
header_mode-set_mode c k s g t p h hp =
    ap (λ (m : FileMode). if ends_in_slash h.name then record m { dir = true } else m)
      (mode_by_creator-set_mode c k s g t p h hp)
