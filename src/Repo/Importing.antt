-- ===== src/Repo/Importing.antt =====
-- backend/internal/site/zip.go, `ImportZip` and `replaceWorktree`: an upload replaces the tree of a
-- branch.
use kotoji.Prelude.{if◌then◌else◌, Result, ok, err, ℕ, Bool, true, false, ◌||◌, List, [], ◌∷◌, ◌++◌}
use kotoji.Action.{◌>>=◌, ◌>>◌, pure, check_none, gets}
use kotoji.Repo.{
  CommitInfo, zip_refused, settle, require_site, Call, commit_staged, Git, Env, RepoError, git,
  asks, enforce_quota, Actor, refuse_protected_branch, check_base_sha, checkout_branch,
  require_text,
}
use kotoji.Repo.Writes.{changed}
use kotoji.Site.Paths.{git_dir_segment}
use kotoji.Text.{bytes_eq, Bytes, is_empty, Folding, codes}
use kotoji.Zip.{ZipSource, ZipConfig, read_archive, zip_entries_bytes, ZipEntry, ZipError}

pub record ImportInput : Type 0 where
  pub branch : Bytes
  pub base_sha : Bytes
  pub archive : ZipSource
  pub actor : Actor

-- The rules for uploads, and the quota of a site.
pub record ImportConfig : Type 0 where
  pub folding : Folding
  pub zip : ZipConfig
  pub site_quota : ℕ

abbrev pub import_message : Bytes → Bytes
import_message filename =
    if is_empty filename then codes "Import archive" else codes "Import " ++ filename

abbrev pub or_refused : Result ZipError (List ZipEntry) → Result RepoError (List ZipEntry)
or_refused (ok zs) = ok zs
or_refused (err e) = err (zip_refused e)

abbrev pub read_upload : ImportConfig → ZipSource → Result RepoError (List ZipEntry)
read_upload cfg src = or_refused (read_archive cfg.folding cfg.zip src)

abbrev pub is_spared : Bytes → Bool
is_spared n = bytes_eq n git_dir_segment || bytes_eq n (codes "served")

module _ (G : Git) where
  abbrev pub clear_entry : Bytes → Bool → Call G (Unit {0})
  clear_entry n true = pure tt
  clear_entry n false = git G (G.remove_all n)

  -- The loop that removes what is in the worktree.
  unfoldable pub clear_worktree : List Bytes → Call G (Unit {0})
  clear_worktree [] = pure tt
  clear_worktree (n ∷ ns) = clear_entry n (is_spared n) >> clear_worktree ns

  -- The loop that writes the entries.
  unfoldable pub write_entries : List ZipEntry → Call G (Unit {0})
  write_entries [] = pure tt
  write_entries (z ∷ zs) = git G (G.write_blob z.path z.content) >> write_entries zs

  -- `replaceWorktree`.
  unfoldable pub replace_worktree : List ZipEntry → Call G (Unit {0})
  replace_worktree zs = do names ← asks G G.read_dir; clear_worktree names; write_entries zs

  -- The optimistic lock, for a branch that is there.
  unfoldable pub take_branch : Bytes → Bytes → Bool → Call G (Unit {0})
  take_branch branch base false = pure tt
  take_branch branch base true = do
    check_none (require_text base "baseSha" "required for an existing branch")
    check_base_sha G branch base []
    checkout_branch G branch

  abbrev pub collect_garbage : Call G (Unit {0})
  collect_garbage w = (ok tt, record w { repo = G.gc w.repo })

  -- What is done under the lock, once the branch is taken.
  abbrev pub import_body : ℕ → ImportInput → List ZipEntry → Call G CommitInfo
  import_body quota i zs = do
    enforce_quota G quota (zip_entries_bytes zs)
    replace_worktree zs
    git G G.add_all
    dirty ← asks G G.status
    gets (λ w. changed G dirty)
    commit_staged G i.branch i.actor (import_message i.archive.filename)

  -- `ImportZip`.
  unfoldable pub import_zip : ImportConfig → Env → ImportInput → Call G CommitInfo
  import_zip cfg env i = do
    check_none (refuse_protected_branch i.branch)
    zs ← gets (λ w. read_upload cfg i.archive)
    require_site G env
    exists ← asks G (λ s. G.show_ref s i.branch)
    take_branch i.branch i.base_sha exists
    ci ← import_body cfg.site_quota i zs
    collect_garbage
    settle G i.branch
    pure ci
