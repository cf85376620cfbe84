-- ===== src/Zip/Extraction.antt =====
-- Which archives are accepted, and what is kept of them.
use mathlib.Core.List.{reverse}
use kotoji.Prelude.{
  ltb, if◌then◌else◌, length, ok, ℕ, ◌+◌, ◌*◌, ◌/◌, ◌≤◌, ◌<◌, ◌≡◌, refl, ◌↔◌, true, false, Option,
  none, some, List, arith,
}
use kotoji.Action.{given}
use kotoji.Site.Paths.{clean_path, join}
use kotoji.Text.{Folding, Bytes}
use kotoji.Zip.{
  ZipError, ZipConfig, slips, is_bomb, read_file, File, zip_ext_allowed, read_checked, read_limited,
  check_file,
}
use kotoji.Zip.Naming.{slips-LeadsInside, slips_iff, LeadsInside}

-- The compressed size, where none is declared that of one byte.
abbrev pub stored_size : File → ℕ
stored_size f = if ltb 0 f.compressed_size then f.compressed_size else 1

abbrev pub AreSizesFine : ZipConfig → File → Type 0
AreSizesFine cfg f =
    (f.uncompressed_size ≤ cfg.max_entry_uncompressed)
    × (f.uncompressed_size < (cfg.max_compression_ratio + 1) * stored_size f)

div_le_iff : (u c r : ℕ) → 0 < c → (ltb r (u / c) ≡ false) ↔ (u < (r + 1) * c)
div_le_iff u c r h = grind arith

is_bomb_iff :
    (cfg : ZipConfig) (f : File)
    → (is_bomb cfg f ≡ false)
      ↔ (f.uncompressed_size < (cfg.max_compression_ratio + 1) * stored_size f)
is_bomb_iff cfg f =
    ground (arith, div_le_iff f.uncompressed_size f.compressed_size cfg.max_compression_ratio)

-- An entry that may be kept with this content, where its name leads.
pub record IsAdmitted (fold : Folding) (cfg : ZipConfig) (f : File) (content : Bytes) : Type 0 where
  pub is_file : (f.is_symlink ≡ false) × (f.is_regular ≡ true)
  pub inside : (to : List Bytes) × LeadsInside f.name to × (clean_path f.name ≡ join (reverse to))
  pub extension : zip_ext_allowed fold cfg (clean_path f.name) ≡ true
  pub sizes : AreSizesFine cfg f
  pub inflated : (f.opens ≡ true) × (f.read (cfg.max_entry_uncompressed + 1) ≡ some content)
  pub fits : length content ≤ cfg.max_entry_uncompressed

check_file-parts :
    (fold : Folding) (cfg : ZipConfig) (f : File)
    → (check_file fold cfg f ≡ none) ↔ (
        (f.is_symlink ≡ false)
        × (f.is_regular ≡ true)
        × (slips f.name ≡ false)
        × (zip_ext_allowed fold cfg (clean_path f.name) ≡ true)
        × (ltb cfg.max_entry_uncompressed f.uncompressed_size ≡ false)
        × (is_bomb cfg f ≡ false)
        × (f.opens ≡ true))
unfolding check_file
check_file-parts fold cfg f = ground arith

read_limited-ok :
    (cfg : ZipConfig) (r : Option Bytes) (content : Bytes)
    → (read_limited cfg r ≡ ok content)
      ↔ ((r ≡ some content) × (length content ≤ cfg.max_entry_uncompressed))
read_limited-ok cfg none content = ground arith
read_limited-ok cfg (some x) content = ground arith

read_checked-ok :
    (cfg : ZipConfig) (f : File) (c : Option ZipError) (content : Bytes)
    → (read_checked cfg f c ≡ ok content) ↔ (
        (c ≡ none)
        × (f.read (cfg.max_entry_uncompressed + 1) ≡ some content)
        × (length content ≤ cfg.max_entry_uncompressed))
read_checked-ok cfg f none content =
    let (sound, complete) = read_limited-ok cfg (f.read (cfg.max_entry_uncompressed + 1)) content in
    (
      λ h. let (given, fits) = sound h in (refl, given, fits),
      λ (e, given, fits). complete (given, fits),
    )
read_checked-ok cfg f (some e) content = ground arith

pub read_file-IsAdmitted :
    (fold : Folding) (cfg : ZipConfig) (f : File) (content : Bytes)
    → read_file fold cfg f ≡ ok content
    → IsAdmitted fold cfg f content
unfolding read_file
read_file-IsAdmitted fold cfg f content h =
    let (checked, given, fits) = (read_checked-ok cfg f (check_file fold cfg f) content).0 h in
    let (link, regular, name, ext, size, bomb, opens) = (check_file-parts fold cfg f).0 checked in
    record {
      is_file = (link, regular);
      inside = slips-LeadsInside f.name name;
      extension = ext;
      sizes = (ground arith, (is_bomb_iff cfg f).0 bomb);
      inflated = (opens, given);
      fits = fits;
    }

pub IsAdmitted-read_file :
    (fold : Folding) (cfg : ZipConfig) (f : File) (content : Bytes)
    → IsAdmitted fold cfg f content
    → read_file fold cfg f ≡ ok content
unfolding read_file
IsAdmitted-read_file fold cfg f content a =
    let (to, inside, spelled) = a.inside in
    let (small, dense) = a.sizes in
    let checked = (check_file-parts fold cfg f).1 (
      a.is_file.0,
      a.is_file.1,
      (slips_iff f.name).1 (to, inside),
      a.extension,
      ground arith,
      (is_bomb_iff cfg f).1 dense,
      a.inflated.0,
    ) in
    (read_checked-ok cfg f (check_file fold cfg f) content).1 (checked, a.inflated.1, a.fits)
