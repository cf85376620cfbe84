-- ===== src/Repo/Branches.antt =====
-- Branches are made and removed.
use kotoji.Prelude.{
  if◌then◌else◌, Result, ok, err, String, Bool, true, false, ◌||◌, Option, none, some,
}
use kotoji.Action.{◌>>=◌, ◌>>◌, check_none, gets}
use kotoji.Repo.{
  branch_exists, not_found, rev_parse, require_site, to_repo_error, Git, branch_draft, RepoError,
  Env, or_default, commit_info, liveness, git, CommitInfo, field_error, Call, asks,
}
use kotoji.Resolve.{published}
use kotoji.Site.Handle.{validate_branch_name}
use kotoji.Text.{bytes_eq, Unicode, Bytes}

abbrev reserved_branch : Bytes → String → Option RepoError
reserved_branch name reason =
    if bytes_eq name published || bytes_eq name branch_draft
    then some (field_error "branch" reason)
    else none

module _ (G : Git) where
  abbrev pub absent : Bool → Result RepoError (Unit {0})
  absent true = err branch_exists
  absent false = ok tt

  abbrev pub present : Bool → Result RepoError (Unit {0})
  present true = ok tt
  present false = err not_found

  -- `CreateBranch`; the branch is known by its tip.
  unfoldable pub create_branch : Unicode → Env → Bytes → Bytes → Call G CommitInfo
  create_branch u env name from = do
    check_none (to_repo_error (validate_branch_name u name))
    check_none (reserved_branch name "reserved branch name")
    require_site G env
    exists ← asks G (λ s. G.show_ref s name)
    gets (λ w. absent exists)
    sha ← rev_parse G (or_default from branch_draft)
    git G (G.create_branch name sha)
    commit_info G sha

  -- `DeleteBranch` does not ask whether the site is deleted.
  unfoldable pub delete_branch : Env → Bytes → Call G (Unit {0})
  delete_branch env name = do
    check_none (reserved_branch name "cannot delete the published or draft branch")
    (λ w. check_none (liveness G env.load_error w.found) w)
    exists ← asks G (λ s. G.show_ref s name)
    gets (λ w. present exists)
    git G (G.delete_branch name)
