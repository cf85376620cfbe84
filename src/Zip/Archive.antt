-- ===== src/Zip/Archive.antt =====
-- Which archives are accepted, and what is kept of them.
use kotoji.Prelude.{
  ltb, Bool-cases, length, All, Result, ok, err, ◌>>=◌, Result-cases, then-ok, ℕ, ◌+◌, ◌≤◌, ◌≡◌,
  refl, subst, ◌≢◌, ◌↔◌, inl, inr, true, false, Option, none, some, List, [], ◌∷◌, arith,
}
use kotoji.Site.Paths.{clean_path}
use kotoji.Site.Paths.Walk.{IsOutside}
use kotoji.Text.{Bytes, Folding}
use kotoji.Zip.{
  zip_entries_bytes, validate_and_read_zip, ZipError, read_files, ZipSource, some_entries, File,
  read_file, opened, ZipEntry, too_large, put_first, read_archive, is_directory, ZipConfig,
}
use kotoji.Zip.Extraction.{read_file-IsAdmitted, IsAdmitted-read_file, IsAdmitted}
use kotoji.Zip.Naming.{cleaned-IsOutside}

abbrev pub kept : File → Bytes → ZipEntry
kept f content = record { path = clean_path f.name; content = content }

-- What is kept of the entries, with the bytes so far: of a directory nothing, and of each other entry,
-- which is admitted, its content under its cleaned name.
pub data Extracts (fold : Folding) (cfg : ZipConfig) : ℕ → List File → List ZipEntry → Type 0 where
  done : {total : ℕ} → Extracts fold cfg total [] []
  skipped :
      {total : ℕ} {f : File} {fs : List File} {zs : List ZipEntry}
      → is_directory f ≡ true
      → Extracts fold cfg total fs zs
      → Extracts fold cfg total (f ∷ fs) zs
  taken :
      {total : ℕ} {f : File} {content : Bytes} {fs : List File} {zs : List ZipEntry}
      → is_directory f ≡ false
      → IsAdmitted fold cfg f content
      → total + length content ≤ cfg.max_uncompressed_bytes
      → Extracts fold cfg (total + length content) fs zs
      → Extracts fold cfg total (f ∷ fs) (kept f content ∷ zs)

put_first-ok :
    (z : ZipEntry) (r : Result ZipError (List ZipEntry)) (zs : List ZipEntry)
    → put_first z r ≡ ok zs
    → (rest : List ZipEntry) × (r ≡ ok rest) × (z ∷ rest ≡ zs)
put_first-ok z (ok rest) zs h = (rest, refl, ground arith)
put_first-ok z (err e) zs h = ground arith

module _ (fold : Folding) (cfg : ZipConfig) where
  read_files-Extracts :
      (total : ℕ) (fs : List File) (zs : List ZipEntry)
      → read_files fold cfg total fs ≡ ok zs
      → Extracts fold cfg total fs zs
  unfolding read_files
  read_files-Extracts total [] zs h =
      let e : [] ≡ zs = ground arith in subst (Extracts fold cfg total []) e done
  read_files-Extracts total (f ∷ fs) zs h = elim (Bool-cases (is_directory f)) [
    | inl d ↦ skipped d (read_files-Extracts total fs zs (rw (read_files, d) at h))
    | inr d ↦ elim (Result-cases (read_file fold cfg f)) [
      | inr (x, e) ↦ absurd (not_ok x (rw (read_files, d, e) at h))
      | inl (content, e) ↦
          elim (Bool-cases (ltb cfg.max_uncompressed_bytes (total + length content))) [
            | inl b ↦ absurd (not_ok too_large (rw (read_files, d, e, b) at h))
            | inr b ↦
                let (rest, r, same) =
                  put_first-ok (kept f content) (read_files fold cfg (total + length content) fs) zs
                    (rw (read_files, d, e, b) at h) in
                subst (Extracts fold cfg total (f ∷ fs)) same (
                  taken d (read_file-IsAdmitted fold cfg f content e) (ground arith)
                    (read_files-Extracts (total + length content) fs rest r))
          ]
    ]
  ]
    where
      not_ok : (x : ZipError) → err x ≢ ok zs
      not_ok x e = ground arith

  Extracts-read_files :
      {total : ℕ} {fs : List File} {zs : List ZipEntry}
      → Extracts fold cfg total fs zs
      → read_files fold cfg total fs ≡ ok zs
  unfolding read_files
  Extracts-read_files done = refl
  Extracts-read_files (skipped d x) = rw (read_files, d) (Extracts-read_files x)
  Extracts-read_files (taken {total} {f} {content} d a fits x) =
      let e = IsAdmitted-read_file fold cfg f content a in
      let b : ltb cfg.max_uncompressed_bytes (total + length content) ≡ false = ground arith in
      rw (read_files, d, e, b, Extracts-read_files x) refl

  some_entries-ok :
      (r : Result ZipError (List ZipEntry)) (zs : List ZipEntry)
      → ((r >>= some_entries) ≡ ok zs) ↔ ((r ≡ ok zs) × (zs ≢ []))
  some_entries-ok (ok []) zs = (λ h. ground arith, λ (e, n). absurd (n (ground arith)))
  some_entries-ok (ok (z ∷ rest)) zs = (λ h. (h, λ e. ground arith), λ (e, n). e)
  some_entries-ok (err x) zs = ground arith

  -- The entries of an archive are accepted, and give these files, exactly if every entry that is not a
  -- directory is admitted - a regular file whose name leads to a place inside the site that is not in
  -- its ".git", whose extension is allowed, whose declared and real sizes are within the caps and
  -- whose ratio is - the real sizes together stay within the cap, and there is at least one file.
  pub validate_and_read_zip_iff :
      (fs : List File) (zs : List ZipEntry)
      → (validate_and_read_zip fold cfg fs ≡ ok zs) ↔ (Extracts fold cfg 0 fs zs × (zs ≢ []))
  unfolding validate_and_read_zip
  validate_and_read_zip_iff fs zs =
      let (sound, complete) = some_entries-ok (read_files fold cfg 0 fs) zs in
      (
        λ h. let (r, some_file) = sound h in (read_files-Extracts 0 fs zs r, some_file),
        λ (x, some_file). complete (Extracts-read_files x, some_file),
      )

  -- No more is kept than the caps allow.
  Extracts-bytes :
      {total : ℕ} {fs : List File} {zs : List ZipEntry}
      → Extracts fold cfg total fs zs
      → total ≤ cfg.max_uncompressed_bytes
      → (total + zip_entries_bytes zs ≤ cfg.max_uncompressed_bytes)
        × (length zs ≤ length fs)
        × All (λ z. length z.content ≤ cfg.max_entry_uncompressed) zs
  unfolding zip_entries_bytes
  Extracts-bytes (done {total}) h = (omega arith, omega arith, tt)
  Extracts-bytes (skipped {total} {f} {fs} d x) h =
      let (sum, count, each) = Extracts-bytes x h in (sum, omega arith, each)
  Extracts-bytes (taken {total} {f} {content} {fs} {zs} d a fits x) h =
      let (sum, count, each) = Extracts-bytes x fits in (omega arith, omega arith, (a.fits, each))

  opened-ok :
      (src : Option (List File)) (fs : List File)
      → opened cfg src ≡ ok fs
      → length fs ≤ cfg.max_entries
  opened-ok none fs h = ground arith
  opened-ok (some gs) fs h = elim (Bool-cases (ltb cfg.max_entries (length gs))) [
    | inl b ↦ ground arith
    | inr b ↦
        let e : gs ≡ fs = ground arith in subst (λ x. length x ≤ cfg.max_entries) e (ground arith)
  ]

  -- An upload that is accepted is within every cap: what was uploaded, the number of files, the bytes of
  -- each file, whatever its header declares, and the bytes of all of them.
  pub read_archive_bounded :
      (src : ZipSource) (zs : List ZipEntry)
      → read_archive fold cfg src ≡ ok zs
      → (src.size ≤ cfg.max_upload_bytes)
        × (length zs ≤ cfg.max_entries)
        × All (λ z. length z.content ≤ cfg.max_entry_uncompressed) zs
        × (zip_entries_bytes zs ≤ cfg.max_uncompressed_bytes)
  unfolding read_archive
  read_archive_bounded src zs h =
      let gate : (ltb cfg.max_upload_bytes src.size ≡ false)
          × ((opened cfg src.files >>= validate_and_read_zip fold cfg) ≡ ok zs) =
        ground arith in
      let (fs, o, v) = then-ok (opened cfg src.files) (validate_and_read_zip fold cfg) zs gate.1 in
      let (x, _) = (validate_and_read_zip_iff fs zs).0 v in
      let (sum, count, each) = Extracts-bytes x (omega arith) in
      let few = opened-ok src.files fs o in (ground arith, omega arith, each, omega arith)

  Extracts-IsOutside :
      {total : ℕ} {fs : List File} {zs : List ZipEntry}
      → Extracts fold cfg total fs zs
      → All (λ z. IsOutside z.path) zs
  Extracts-IsOutside done = tt
  Extracts-IsOutside (skipped d x) = Extracts-IsOutside x
  Extracts-IsOutside (taken {f = f} d a fits x) =
      let (to, inside, spelled) = a.inside in
      (cleaned-IsOutside f.name to inside, Extracts-IsOutside x)

  -- What is kept is written outside the repository's own directory.
  pub read_archive-IsOutside :
      (src : ZipSource) (zs : List ZipEntry)
      → read_archive fold cfg src ≡ ok zs
      → All (λ z. IsOutside z.path) zs
  unfolding read_archive
  read_archive-IsOutside src zs h =
      let gate : (opened cfg src.files >>= validate_and_read_zip fold cfg) ≡ ok zs = ground arith in
      let (fs, o, v) = then-ok (opened cfg src.files) (validate_and_read_zip fold cfg) zs gate in
      let (x, _) = (validate_and_read_zip_iff fs zs).0 v in Extracts-IsOutside x
