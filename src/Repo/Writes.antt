-- ===== src/Repo/Writes.antt =====
-- The calls that commit to a working branch.
use kotoji.Prelude.{
  if◌then◌else◌, length, take, Result, ok, err, ℕ, Bool, true, false, Option, none, some, List, [],
  ◌∷◌, ◌++◌,
}
use kotoji.Action.{◌>>=◌, ◌>>◌, gets, pure, raise, checks}
use kotoji.Repo.{
  not_found, nothing_to_commit, asks, checkout_branch, CommitInfo, require_site, Env, settle, git,
  Call, RepoError, Git, to_repo_error, or_default, Actor, check_base_sha, commit_staged,
  enforce_quota, require_text, refuse_protected_branch, rev_parse,
}
use kotoji.Site.Handle.{HandleError}
use kotoji.Site.Paths.{validate_read_path, validate_mcp_write_path, validate_path}
use kotoji.Text.{Bytes, codes, Unicode}

pub record WriteFileInput : Type 0 where
  pub branch : Bytes
  pub path : Bytes
  pub content : Bytes
  pub base_sha : Bytes
  pub message : Bytes
  pub actor : Actor

abbrev base_required : Bytes → Option RepoError
base_required base = require_text base "baseSha" "required (never treated as force)"

abbrev pub check_write_path : Unicode → Bool → Bytes → Option HandleError
check_write_path u via_mcp path =
    if via_mcp then validate_mcp_write_path u path else validate_path u path

abbrev pub write_path_error : Unicode → WriteFileInput → Option RepoError
write_path_error u i = to_repo_error (check_write_path u i.actor.via_mcp i.path)

-- A write by its arguments.
pub data Write : Type 0 where
  writes : ℕ → WriteFileInput → Write
  deletes : (branch path base : Bytes) → Actor → Write
  saves : (branch base message : Bytes) → Actor → Write
  rolls_back : (branch to base : Bytes) → Actor → Write

abbrev pub target_branch : Write → Bytes
target_branch (writes quota i) = i.branch
target_branch (deletes branch path base actor) = branch
target_branch (saves branch base message actor) = branch
target_branch (rolls_back branch to base actor) = branch

abbrev pub base_of : Write → Bytes
base_of (writes quota i) = i.base_sha
base_of (deletes branch path base actor) = base
base_of (saves branch base message actor) = base
base_of (rolls_back branch to base actor) = base

module _ (G : Git) where
  abbrev pub check_all : List (Option RepoError) → Call G (Unit {0})
  check_all [] = pure tt
  check_all (none ∷ es) = check_all es
  check_all (some e ∷ es) = raise e

  -- What all four calls have in common: the checks on the arguments, then under the lock the site, the
  -- optimistic lock and the body, and after it the served tree and the mirror.
  unfoldable pub commit_on :
      List (Option RepoError)
      → Env
      → Bytes
      → Bytes
      → List Bytes
      → Call G CommitInfo
      → Call G CommitInfo
  commit_on checks env branch base hint body = do
    check_all checks
    require_site G env
    check_base_sha G branch base hint
    ci ← body
    settle G branch
    pure ci

  abbrev pub write_body : ℕ → WriteFileInput → Call G CommitInfo
  write_body quota i = do
    checkout_branch G i.branch
    enforce_quota G quota (length i.content)
    git G (G.write_blob i.path i.content)
    git G (G.add i.path)
    commit_staged G i.branch i.actor (or_default i.message (codes "Update " ++ i.path))

  -- `WriteFile`.
  unfoldable pub write_file : Unicode → ℕ → Env → WriteFileInput → Call G CommitInfo
  write_file u quota env i =
      commit_on
        (refuse_protected_branch i.branch ∷ write_path_error u i ∷ base_required i.base_sha ∷ [])
        env i.branch i.base_sha (i.path ∷ []) (write_body quota i)

  -- `git rm`, whose failure is a missing file.
  abbrev pub remove_file : Bytes → Call G (Unit {0})
  remove_file path w =
      let (r, s) = G.remove path w.repo in
      (elim r [ ok a ↦ ok a | err e ↦ err not_found ], record w { repo = s })

  abbrev pub delete_body : Bytes → Bytes → Actor → Call G CommitInfo
  delete_body branch path actor = do
    checkout_branch G branch
    remove_file path
    commit_staged G branch actor (codes "Delete " ++ path)

  -- `DeleteFile`.
  unfoldable pub delete_file : Env → Bytes → Bytes → Bytes → Actor → Call G CommitInfo
  delete_file env branch path base actor =
      commit_on
        (refuse_protected_branch branch
          ∷ to_repo_error (validate_read_path path)
          ∷ base_required base
          ∷ [])
        env branch base (path ∷ []) (delete_body branch path actor)

  abbrev pub changed : Bool → Result RepoError (Unit {0})
  changed true = ok tt
  changed false = err nothing_to_commit

  abbrev pub save_body : Bytes → Bytes → Actor → Call G CommitInfo
  save_body branch message actor = do
    checkout_branch G branch
    dirty ← asks G G.status
    gets (λ w. changed dirty)
    git G G.add_all
    commit_staged G branch actor (or_default message (codes "Save"))

  -- `Commit`.
  unfoldable pub save : Env → Bytes → Bytes → Bytes → Actor → Call G CommitInfo
  save env branch base message actor =
      commit_on (refuse_protected_branch branch ∷ base_required base ∷ []) env branch base []
        (save_body branch message actor)

  abbrev pub reachable : Bool → Result RepoError (Unit {0})
  reachable true = ok tt
  reachable false = err not_found

  abbrev pub rollback_body : Bytes → Bytes → Actor → Call G CommitInfo
  rollback_body branch to actor = do
    target ← rev_parse G to
    gets (λ w. reachable (G.is_ancestor w.repo target branch))
    checkout_branch G branch
    git G (G.read_tree target)
    git G G.checkout_index
    git G G.clean
    commit_staged G branch actor (codes "Rollback to " ++ take 7 target)

  -- `Rollback`.
  unfoldable pub rollback : Env → Bytes → Bytes → Bytes → Actor → Call G CommitInfo
  rollback env branch to base actor =
      commit_on
        (refuse_protected_branch branch
          ∷ require_text base "baseSha" "required"
          ∷ require_text to "toSha" "required"
          ∷ [])
        env branch base [] (rollback_body branch to actor)

  unfoldable pub apply_write : Unicode → Env → Write → Call G CommitInfo
  unfolding write_file delete_file save rollback
  apply_write u env (writes quota i) = write_file u quota env i
  apply_write u env (deletes branch path base actor) = delete_file env branch path base actor
  apply_write u env (saves branch base message actor) = save env branch base message actor
  apply_write u env (rolls_back branch to base actor) = rollback env branch to base actor
