-- ===== src/Repo.antt =====
-- backend/internal/site/git_service.go and git_helpers.go: what the service does to a site's
-- repository and to its row. Git and the files are the parameter `Git`, with one field for each
-- command that the service runs; a call of the store is what it answers, in `Env`. The lock of a site
-- makes a call one step.
pub mod Writes
pub mod Branches
pub mod Publishing
pub mod Laws
pub mod Steps
pub mod Bodies
pub mod Merging
pub mod Taking
pub mod Locking
pub mod Isolation
pub mod Published
pub mod Advance
pub mod Republish
pub mod Creation
pub mod Importing
pub mod Imported
pub mod Imports
pub mod Replacing
use kotoji.Prelude.{
  ltb, ◌==◌, if◌then◌else◌, Result, ok, err, ℕ, ◌+◌, String, Bool, false, ◌&&◌, not, Option, none,
  some, List, [], ◌∷◌,
}
use kotoji.Action.{◌>>=◌, ◌>>◌, Action, check_none, gets, pure, then}
use kotoji.Resolve.{published}
use kotoji.Site.Handle.{HandleError, validation_error, text}
use kotoji.Text.{bytes_eq, Bytes, is_empty, codes}
use kotoji.Zip.{ZipError}

-- The committer, and the source of a write.
pub record Actor : Type 0 where
  pub name : Bytes
  pub via_mcp : Bool

-- Of a commit's metadata the sha.
pub record CommitInfo : Type 0 where
  pub sha : Bytes

pub data MergeOutcome : Type 0 where
  merged : MergeOutcome
  conflicted : (paths : List Bytes) → (reason : String) → MergeOutcome

pub data RepoError : Type 0 where
  validation : HandleError → RepoError
  zip_refused : ZipError → RepoError
  not_found branch_exists nothing_to_commit quota_exceeded : RepoError
  conflict : (branch expected actual : Bytes) → (changed_paths : List Bytes) → RepoError
  publish_conflict : (paths : List Bytes) → RepoError
  git_error : String → RepoError

abbrev pub field_error : String → String → RepoError
field_error field reason = validation (validation_error field (text reason))

-- Commands with their arguments. `rev_parse` answers for `ref^{commit}`, `show` with the commit's own
-- sha. `worktree_add` makes a temporary directory and a worktree in it, `attached` is the branch that is
-- checked out there, and `merge` with its two companions runs there; `worktree_prune` removes the
-- directory as well. Of the files, `read_dir` lists the repository's own directory, and `write_blob` makes the directories of a
-- path as well. What comes of `gc`, `refresh_served` and `mirror` is not asked.
pub record Git : Type 1 where
  pub State : Type 0
  pub rev_parse : State → Bytes → Option Bytes
  pub show_ref : State → Bytes → Result String Bool
  pub head : State → Option Bytes
  pub status : State → Result String Bool
  pub disk_size : State → Result String ℕ
  pub read_dir : State → Result String (List Bytes)
  pub diff_names : State → Bytes → Bytes → List Bytes
  pub show : State → Bytes → Result String CommitInfo
  pub is_ancestor : State → Bytes → Bytes → Bool
  pub checkout : Bytes → Action State String (Unit {0})
  pub write_blob : Bytes → Bytes → Action State String (Unit {0})
  pub remove_all : Bytes → Action State String (Unit {0})
  pub add : Bytes → Action State String (Unit {0})
  pub add_all : Action State String (Unit {0})
  pub remove : Bytes → Action State String (Unit {0})
  pub read_tree : Bytes → Action State String (Unit {0})
  pub checkout_index : Action State String (Unit {0})
  pub clean : Action State String (Unit {0})
  pub commit : Actor → Bytes → Action State String (Unit {0})
  pub update_ref : Bytes → Bytes → Action State String (Unit {0})
  pub create_branch : Bytes → Bytes → Action State String (Unit {0})
  pub delete_branch : Bytes → Action State String (Unit {0})
  pub attached : State → Option Bytes
  pub worktree_add : Bytes → Action State String (Unit {0})
  pub merge : Actor → Bytes → Bytes → Action State String (Unit {0})
  pub conflict_paths : State → List Bytes
  pub merge_abort : State → State
  pub worktree_remove : State → State
  pub worktree_prune : State → State
  pub gc : State → State
  pub refresh_served : Bytes → State → State
  pub mirror : Bytes → State → State

-- What the store answers during one call.
pub record Env : Type 0 where
  pub load_error : Option String
  pub set_published_error : Option String

abbrev pub branch_draft : Bytes
branch_draft = codes "draft"

-- `refuseProtectedBranch`.
abbrev pub refuse_protected_branch : Bytes → Option RepoError
refuse_protected_branch branch =
    if bytes_eq branch published
    then some (field_error "branch" "cannot write directly to the published branch")
    else if is_empty branch
    then some (field_error "branch" "required")
    else none

abbrev pub require_text : Bytes → String → String → Option RepoError
require_text value field reason = if is_empty value then some (field_error field reason) else none

abbrev pub or_default : Bytes → Bytes → Bytes
or_default value default = if is_empty value then default else value

abbrev pub to_repo_error : Option HandleError → Option RepoError
to_repo_error none = none
to_repo_error (some e) = some (validation e)

module _ (G : Git) where
  -- A site: its repository, and its row, of which `GetSiteByID` may find none.
  pub record Site : Type 0 where
    pub repo : G.State
    pub found : Bool
    pub deleted : Bool
    pub published_commit_sha : Option Bytes

  abbrev pub Call : Type 0 → Type 0
  Call A = Action Site RepoError A

  abbrev pub wrap_git : {A : Type 0} → Result String A → Result RepoError A
  wrap_git (ok a) = ok a
  wrap_git (err e) = err (git_error e)

  -- `g.run` with `wrapGit` on its error.
  abbrev pub git : {A : Type 0} → Action G.State String A → Call A
  git c w = let (r, s) = c w.repo in (wrap_git r, record w { repo = s })

  abbrev pub asks : {A : Type 0} → (G.State → Result String A) → Call A
  asks f w = (wrap_git (f w.repo), w)

  abbrev pub found_or : {A : Type 0} → Option A → RepoError → Result RepoError A
  found_or none e = err e
  found_or (some a) e = ok a

  -- `revParse`.
  abbrev pub rev_parse : Bytes → Call Bytes
  rev_parse ref w = (found_or (G.rev_parse w.repo ref) not_found, w)

  abbrev pub liveness : Option String → Bool → Option RepoError
  liveness (some e) live = some (git_error e)
  liveness none live = if live then none else some not_found

  -- `requireSite`.
  abbrev pub require_site : Env → Call (Unit {0})
  require_site env w = check_none (liveness env.load_error (w.found && not w.deleted)) w

  abbrev pub or_hint : List Bytes → List Bytes → List Bytes
  or_hint [] hint = hint
  or_hint (p ∷ ps) hint = p ∷ ps

  abbrev pub compare_base : Bytes → Bytes → List Bytes → Bytes → Call (Unit {0})
  compare_base branch base hint tip w =
      if bytes_eq tip base
      then (ok tt, w)
      else (err (conflict branch base tip (or_hint (G.diff_names w.repo base tip) hint)), w)

  -- `checkBaseSHA`.
  unfoldable pub check_base_sha : Bytes → Bytes → List Bytes → Call (Unit {0})
  check_base_sha branch base hint = do tip ← rev_parse branch; compare_base branch base hint tip

  abbrev pub is_head : Option Bytes → Bytes → Bool
  is_head none branch = false
  is_head (some h) branch = bytes_eq h branch

  -- `checkoutBranch`.
  unfoldable pub checkout_branch : Bytes → Call (Unit {0})
  checkout_branch branch w =
      if is_head (G.head w.repo) branch then (ok tt, w) else git (G.checkout branch) w

  -- `commitInfo`.
  abbrev pub commit_info : Bytes → Call CommitInfo
  commit_info sha = asks (λ s. G.show s sha)

  -- `commitStaged`.
  unfoldable pub commit_staged : Bytes → Actor → Bytes → Call CommitInfo
  commit_staged branch actor message = do
    git (G.commit actor message)
    tip ← rev_parse branch
    commit_info tip

  -- `refreshServed`.
  abbrev pub refresh : Bytes → Call (Unit {0})
  refresh branch w = (ok tt, record w { repo = G.refresh_served branch w.repo })

  -- `bestEffortMirror`.
  abbrev pub mirror : Bytes → Call (Unit {0})
  mirror branch w = (ok tt, record w { repo = G.mirror branch w.repo })

  abbrev pub settle : Bytes → Call (Unit {0})
  settle branch = refresh branch >> mirror branch

  abbrev pub quota_left : ℕ → ℕ → ℕ → Result RepoError (Unit {0})
  quota_left quota delta current = if ltb quota (current + delta) then err quota_exceeded else ok tt

  -- `enforceQuota`; a quota of 0 is one that is not positive.
  unfoldable pub enforce_quota : ℕ → ℕ → Call (Unit {0})
  enforce_quota quota delta =
      if quota == 0
      then pure tt
      else (asks G.disk_size >>= λ current. gets (λ w. quota_left quota delta current))
