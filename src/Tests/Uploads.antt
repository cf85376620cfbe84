-- ===== src/Tests/Uploads.antt =====
-- An archive of two pages and a directory, and its import.
use kotoji.Prelude.{
  length, take, All, ok, err, ◌≤◌, String, ◌≡◌, refl, ◌≢◌, ◌↔◌, true, false, none, some, List, [],
  ◌∷◌, arith,
}
use kotoji.Action.{◌>>=◌}
use kotoji.Label.{label_re}
use kotoji.Repo.{not_found, commit_staged, checkout_branch, enforce_quota, check_base_sha}
use kotoji.Repo.Importing.{
  clear_worktree, ImportInput, take_branch, import_zip, replace_worktree, write_entries,
  ImportConfig,
}
use kotoji.Repo.Laws.{names_object, IsRef}
use kotoji.Repo.Locking.{Grown}
use kotoji.Repo.Merging.{published-IsRef}
use kotoji.Repo.Replacing.{import_zip-Grown, import_zip-absent, import_zip-isolated}
use kotoji.Resolve.{published, validate_branch}
use kotoji.Resolve.Grammar.{validate_branch_iff}
use kotoji.Site.Paths.{ext_allowed_for_upload, join, is_local}
use kotoji.Tests.{plain, draft}
use kotoji.Tests.Repos.{small_git, small_git-IsGit}
use kotoji.Tests.Writes.{
  small_site, first_sha, ann, published-ne-draft, fine_answers, draft-IsRef, info_of,
}
use kotoji.Text.{mem, to_lower, codes, has_suffix, has_prefix, contains, Bytes, bytes_eq, Folding}
use kotoji.Zip.{
  zip_ext_allowed, ZipSource, read_archive, zip_entries_bytes, slip, read_file,
  validate_and_read_zip, read_files, slips, too_large, check_file, File, ZipConfig, ZipEntry,
}
use kotoji.Zip.Archive.{read_archive_bounded, validate_and_read_zip_iff, Extracts}

abbrev ascii : Folding
ascii = record { tables = plain; equal_fold = bytes_eq }

abbrev caps : ZipConfig
caps = record {
  max_upload_bytes = 1000;
  max_entries = 3;
  max_uncompressed_bytes = 6;
  max_entry_uncompressed = 4;
  max_compression_ratio = 10;
  allowed_ext = [];
}

abbrev page : String → Bytes → File
page name content = record {
  name = codes name;
  is_dir = false;
  is_symlink = false;
  is_regular = true;
  uncompressed_size = length content;
  compressed_size = 1;
  opens = true;
  read = λ n. some (take n content);
}

abbrev folder : String → File
folder name = record (page name []) { is_dir = true; is_regular = false }

abbrev pages : List File
pages = page "index.html" (codes "hi") ∷ folder "a/" ∷ page "a/./b.css" (codes "b{}") ∷ []

abbrev upload : List File → ZipSource
upload fs = record {
  filename = codes "small_site.zip";
  size = 100;
  has_reader = true;
  files = some fs;
}

abbrev unpacked : List ZipEntry
unpacked =
    record { path = codes "index.html"; content = codes "hi" }
    ∷ record { path = codes "a/b.css"; content = codes "b{}" }
    ∷ []

pages_read : read_archive ascii caps (upload pages) ≡ ok unpacked
unfolding read_archive validate_and_read_zip read_files has_suffix read_file check_file slips
    is_local has_prefix mem join contains zip_ext_allowed ext_allowed_for_upload to_lower
pages_read = refl

-- A declared size of nothing does not help: what is read counts.
abbrev liar : File
liar = record (page "index.html" (codes "hello")) { uncompressed_size = 0 }

liar_refused : read_archive ascii caps (upload (liar ∷ [])) ≡ err too_large
unfolding read_archive validate_and_read_zip read_files has_suffix read_file check_file slips
    is_local has_prefix mem join contains zip_ext_allowed ext_allowed_for_upload to_lower
liar_refused = refl

climber_refused : read_archive ascii caps (upload (page "a/../../b.css" [] ∷ [])) ≡ err slip
unfolding read_archive validate_and_read_zip read_files has_suffix read_file check_file slips
    is_local has_prefix mem join contains zip_ext_allowed ext_allowed_for_upload to_lower
climber_refused = refl

-- The trees that are served lie below "served", where an entry may go.
served_accepted :
    read_archive ascii caps (upload (page "served/published/index.html" (codes "hi") ∷ []))
    ≡ ok (record { path = codes "served/published/index.html"; content = codes "hi" } ∷ [])
unfolding read_archive validate_and_read_zip read_files has_suffix read_file check_file slips
    is_local has_prefix mem join contains zip_ext_allowed ext_allowed_for_upload to_lower
served_accepted = refl

validate_and_read_zip_iff_example :
    (validate_and_read_zip ascii caps pages ≡ ok unpacked)
    ↔ (Extracts ascii caps 0 pages unpacked × (unpacked ≢ []))
validate_and_read_zip_iff_example = validate_and_read_zip_iff ascii caps pages unpacked

read_archive_bounded_example :
    (100 ≤ 1000)
    × (2 ≤ 3)
    × All (λ z. length z.content ≤ 4) unpacked
    × (zip_entries_bytes unpacked ≤ 6)
unfolding read_archive validate_and_read_zip read_files has_suffix read_file check_file slips
    is_local has_prefix mem join contains zip_ext_allowed ext_allowed_for_upload to_lower
    zip_entries_bytes
read_archive_bounded_example = read_archive_bounded ascii caps (upload pages) unpacked pages_read

abbrev rules : ImportConfig
rules = record { folding = ascii; zip = caps; site_quota = 0 }

abbrev import_into : Bytes → Bytes → List File → ImportInput
import_into branch base fs = record {
  branch = branch;
  base_sha = base;
  archive = upload fs;
  actor = ann;
}

abbrev to_draft : ImportInput
to_draft = import_into draft first_sha pages

import_done :
    (import_zip small_git rules fine_answers to_draft small_site).0 ≡ ok (info_of (0 ∷ first_sha))
unfolding read_archive validate_and_read_zip read_files has_suffix read_file check_file slips
    is_local has_prefix mem join contains zip_ext_allowed ext_allowed_for_upload to_lower import_zip
    ◌>>=◌ bytes_eq clear_worktree replace_worktree take_branch write_entries check_base_sha
    checkout_branch commit_staged enforce_quota
import_done = refl

import_zip-isolated_example :
    (import_zip small_git rules fine_answers to_draft small_site).1.repo.refs published
    ≡ small_site.repo.refs published
unfolding bytes_eq
import_zip-isolated_example =
    import_zip-isolated small_git small_git-IsGit published rules fine_answers to_draft small_site
      published-IsRef published-ne-draft refl

import_zip-Grown_example :
    (first_sha ≡ first_sha)
    × Grown small_git small_git-IsGit draft draft-IsRef first_sha
        (import_zip small_git rules fine_answers to_draft small_site).1
unfolding bytes_eq
import_zip-Grown_example =
    import_zip-Grown small_git small_git-IsGit rules fine_answers to_draft first_sha
      (info_of (0 ∷ first_sha)) small_site draft-IsRef refl import_done

-- A name that no branch has, with no base: the import fails, and moves the branch that is checked out.
abbrev typo : Bytes
typo = codes "typo"

abbrev misplaced : ImportInput
misplaced = import_into typo [] pages

misplaced_fails : (import_zip small_git rules fine_answers misplaced small_site).0 ≡ err not_found
unfolding read_archive validate_and_read_zip read_files has_suffix read_file check_file slips
    is_local has_prefix mem join contains zip_ext_allowed ext_allowed_for_upload to_lower import_zip
    ◌>>=◌ bytes_eq clear_worktree replace_worktree take_branch write_entries check_base_sha
    checkout_branch commit_staged enforce_quota
misplaced_fails = refl

misplaced_moves_draft :
    (import_zip small_git rules fine_answers misplaced small_site).1.repo.refs draft
    ≡ some (0 ∷ first_sha)
unfolding read_archive validate_and_read_zip read_files has_suffix read_file check_file slips
    is_local has_prefix mem join contains zip_ext_allowed ext_allowed_for_upload to_lower import_zip
    ◌>>=◌ bytes_eq clear_worktree replace_worktree take_branch write_entries check_base_sha
    checkout_branch commit_staged enforce_quota
misplaced_moves_draft = refl

typo_routed : validate_branch plain typo ≡ none
unfolding validate_branch bytes_eq to_lower contains label_re
typo_routed = refl

typo-IsRef : IsRef typo
unfolding names_object
typo-IsRef = ((validate_branch_iff plain typo).0 typo_routed, refl)

typo-ne-draft : typo ≢ draft
typo-ne-draft e = ground arith

import_zip-absent_example :
    (import_zip small_git rules fine_answers misplaced small_site).0 ≢ ok (info_of first_sha)
unfolding bytes_eq
import_zip-absent_example =
    import_zip-absent small_git small_git-IsGit rules fine_answers misplaced draft
      (info_of first_sha) small_site typo-IsRef refl typo-ne-draft refl
