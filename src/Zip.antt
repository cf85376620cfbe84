-- ===== src/Zip.antt =====
-- backend/internal/site/zip.go: which files of an uploaded archive are accepted, before anything is
-- written. Opening the archive and inflating an entry are the package archive/zip: an entry is what
-- its central directory declares, whether it opens, and what reading it under a limit gives. Sizes
-- are natural numbers: the caps are positive and far below 2^63, and the source compares the declared
-- sizes as uint64, without a cast that wraps.
pub mod Naming
pub mod Extraction
pub mod Archive
use kotoji.Prelude.{
  ltb, if◌then◌else◌, length, Result, ok, err, ◌>>=◌, ℕ, ◌+◌, ◌/◌, String, Bool, true, false, ◌||◌,
  not, Option, none, some, List, [], ◌∷◌,
}
use kotoji.Site.Paths.{
  segments, is_local, dotdot, git_dir_segment, dot, clean_path, ext_after, ext_allowed_for_upload,
}
use kotoji.Text.{Bytes, codes, Folding, bytes_eq, to_lower, has_prefix, contains, has_suffix}

-- The caps of `ZipConfig`, with the allowed extensions, none of which means `MIMEByExt`.
pub record ZipConfig : Type 0 where
  pub max_upload_bytes : ℕ
  pub max_entries : ℕ
  pub max_uncompressed_bytes : ℕ
  pub max_entry_uncompressed : ℕ
  pub max_compression_ratio : ℕ
  pub allowed_ext : List Bytes

-- `zip.File`. `is_dir`, `is_symlink` and `is_regular` are the tests of its mode.
pub record File : Type 0 where
  pub name : Bytes
  pub is_dir : Bool
  pub is_symlink : Bool
  pub is_regular : Bool
  pub uncompressed_size : ℕ
  pub compressed_size : ℕ
  pub opens : Bool
  pub read : ℕ → Option Bytes

-- `zipEntry`.
pub record ZipEntry : Type 0 where
  pub path : Bytes
  pub content : Bytes

pub data ZipError : Type 0 where
  slip bad_type too_large too_many_files : ZipError
  invalid_zip : (reason : String) → ZipError

unfoldable pub any_fold : Folding → Bytes → List Bytes → Bool
any_fold fold ext [] = false
any_fold fold ext (a ∷ rest) = fold.equal_fold a ext || any_fold fold ext rest

-- `zipExtAllowed`.
unfoldable pub zip_ext_allowed : Folding → ZipConfig → Bytes → Bool
unfolding any_fold ext_after
zip_ext_allowed fold cfg p = elim cfg.allowed_ext [
  | [] ↦ ext_allowed_for_upload fold.tables p
  | a ∷ rest ↦ any_fold fold (to_lower fold.tables (ext_after [] p)) (a ∷ rest)
]

-- A directory of the archive, which is passed over.
abbrev pub is_directory : File → Bool
is_directory f = has_suffix f.name (codes "/") || f.is_dir

-- The loop over the elements of the cleaned name.
unfoldable pub has_bad_segment : List Bytes → Bool
has_bad_segment [] = false
has_bad_segment (s ∷ ss) = bytes_eq s dotdot || bytes_eq s git_dir_segment || has_bad_segment ss

-- The tests of the name against an escape.
unfoldable pub slips : Bytes → Bool
unfolding has_bad_segment
slips name =
    let clean = clean_path name in
    not (is_local name)
    || (bytes_eq clean dot || has_prefix clean (codes "../") || contains clean (codes "/../"))
    || has_bad_segment (segments clean)

-- The test of the declared sizes against the compression ratio.
abbrev pub is_bomb : ZipConfig → File → Bool
is_bomb cfg f =
    if ltb 0 f.compressed_size
    then ltb cfg.max_compression_ratio (f.uncompressed_size / f.compressed_size)
    else ltb cfg.max_compression_ratio f.uncompressed_size

-- The tests of an entry that come before it is read.
unfoldable pub check_file : Folding → ZipConfig → File → Option ZipError
check_file fold cfg f =
    if f.is_symlink
    then some slip
    else if not f.is_regular
    then some slip
    else if slips f.name
    then some slip
    else if not (zip_ext_allowed fold cfg (clean_path f.name))
    then some bad_type
    else if ltb cfg.max_entry_uncompressed f.uncompressed_size
    then some too_large
    else if is_bomb cfg f
    then some too_large
    else if not f.opens
    then some (invalid_zip "cannot open entry")
    else none

abbrev pub read_limited : ZipConfig → Option Bytes → Result ZipError Bytes
read_limited cfg none = err (invalid_zip "cannot read entry")
read_limited cfg (some content) =
    if ltb cfg.max_entry_uncompressed (length content) then err too_large else ok content

abbrev pub read_checked : ZipConfig → File → Option ZipError → Result ZipError Bytes
read_checked cfg f (some e) = err e
read_checked cfg f none = read_limited cfg (f.read (cfg.max_entry_uncompressed + 1))

-- What one entry contributes.
unfoldable pub read_file : Folding → ZipConfig → File → Result ZipError Bytes
read_file fold cfg f = read_checked cfg f (check_file fold cfg f)

abbrev pub put_first : ZipEntry → Result ZipError (List ZipEntry) → Result ZipError (List ZipEntry)
put_first z (ok zs) = ok (z ∷ zs)
put_first z (err e) = err e

-- The loop over the entries, with the bytes so far.
unfoldable pub read_files : Folding → ZipConfig → ℕ → List File → Result ZipError (List ZipEntry)
read_files fold cfg total [] = ok []
read_files fold cfg total (f ∷ fs) = elim (is_directory f) [
  | true ↦ read_files fold cfg total fs
  | false ↦ elim (read_file fold cfg f) [
    | err e ↦ err e
    | ok content ↦
        let total' = total + length content in
        if ltb cfg.max_uncompressed_bytes total'
        then err too_large
        else put_first (record { path = clean_path f.name; content = content })
            (read_files fold cfg total' fs)
  ]
]

abbrev pub some_entries : List ZipEntry → Result ZipError (List ZipEntry)
some_entries [] = err (invalid_zip "archive contains no allowable files")
some_entries (z ∷ zs) = ok (z ∷ zs)

-- `validateAndReadZip`.
unfoldable pub validate_and_read_zip :
    Folding → ZipConfig → List File → Result ZipError (List ZipEntry)
validate_and_read_zip fold cfg fs = read_files fold cfg 0 fs >>= some_entries

-- `zipEntriesBytes`.
unfoldable pub zip_entries_bytes : List ZipEntry → ℕ
zip_entries_bytes [] = 0
zip_entries_bytes (z ∷ zs) = length z.content + zip_entries_bytes zs

-- `ZipSource`: its declared size, whether there is a reader, and what `zip.NewReader` makes of it.
pub record ZipSource : Type 0 where
  pub filename : Bytes
  pub size : ℕ
  pub has_reader : Bool
  pub files : Option (List File)

abbrev pub opened : ZipConfig → Option (List File) → Result ZipError (List File)
opened cfg none = err (invalid_zip "not a valid zip archive")
opened cfg (some fs) = if ltb cfg.max_entries (length fs) then err too_many_files else ok fs

-- What `ImportZip` and `extractZipToWorktree` begin with.
unfoldable pub read_archive : Folding → ZipConfig → ZipSource → Result ZipError (List ZipEntry)
read_archive fold cfg src =
    if ltb cfg.max_upload_bytes src.size
    then err too_large
    else if not src.has_reader
    then err (invalid_zip "no archive reader")
    else (opened cfg src.files >>= validate_and_read_zip fold cfg)
