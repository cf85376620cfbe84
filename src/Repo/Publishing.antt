-- ===== src/Repo/Publishing.antt =====
-- `Publish`: the published branch takes over a branch.
use kotoji.Prelude.{
  if◌then◌else◌, take, Result, ok, err, String, Bool, true, false, Option, none, some, List, [],
  ◌∷◌, ◌++◌,
}
use kotoji.Action.{◌>>=◌, ◌>>◌, raise, Action, pure, check_none}
use kotoji.Repo.{
  publish_conflict, conflict, require_site, Git, RepoError, or_default, asks, git, commit_info,
  git_error, Actor, conflicted, require_text, CommitInfo, Env, mirror, refresh, Call, rev_parse,
  Site, field_error, MergeOutcome, merged, branch_draft,
}
use kotoji.Resolve.{published}
use kotoji.Text.{Bytes, codes, bytes_eq}

pub record PublishInput : Type 0 where
  pub from : Bytes
  pub base_sha : Bytes
  pub message : Bytes
  pub actor : Actor

abbrev pub cannot_publish : Bytes → Option RepoError
cannot_publish from =
    if bytes_eq from published
    then some (field_error "from" "cannot publish from the published branch")
    else none

module _ (G : Git) where
  abbrev pub stored : Option String → Site G → Bytes → Result RepoError (Unit {0}) × Site G
  stored (some e) w sha = (err (git_error e), w)
  stored none w sha = (ok tt, record w { published_commit_sha = some sha })

  -- `finishPublish`.
  abbrev pub finish_publish : Env → Bytes → Call G (Unit {0})
  finish_publish env sha = refresh G published >> λ w. stored env.set_published_error w sha

  abbrev pub same_tip : Bytes → Bytes → Bytes → Call G (Unit {0})
  same_tip from base tip = if bytes_eq tip base then pure tt else raise (conflict from base tip [])

  -- The published ref is moved to the source's tip.
  unfoldable pub move_published : Env → Bytes → Call G CommitInfo
  move_published env tip = do
    git G (G.update_ref published tip)
    ci ← commit_info G tip
    finish_publish env tip
    pure ci

  abbrev pub merge_error : List Bytes → String → RepoError
  merge_error [] reason = git_error reason
  merge_error (p ∷ ps) reason = publish_conflict (p ∷ ps)

  abbrev pub merged_tip : MergeOutcome → Call G Bytes
  merged_tip merged = rev_parse G published
  merged_tip (conflicted paths reason) = raise (merge_error paths reason)

  -- A merge that fails is aborted, after the unmerged paths are listed.
  abbrev pub merge_ended : Result String (Unit {0}) → G.State → Result String MergeOutcome × G.State
  merge_ended (ok a) s = (ok merged, s)
  merge_ended (err e) s = (ok (conflicted (G.conflict_paths s) e), G.merge_abort s)

  abbrev pub merge_attached :
      Actor
      → Bytes
      → Bytes
      → Result String (Unit {0})
      → G.State
      → Result String MergeOutcome × G.State
  merge_attached actor message tip (err e) s = (err e, G.worktree_prune s)
  merge_attached actor message tip (ok a) s =
      let (r, s') = G.merge actor message tip s in
      let (o, s'') = merge_ended r s' in (o, G.worktree_prune (G.worktree_remove s''))

  -- The temporary worktree of `mergeIntoPublished`, with the deferred removal. The tip is read after it.
  unfoldable pub merge_in_worktree : Actor → Bytes → Bytes → Action G.State String MergeOutcome
  merge_in_worktree actor message tip s =
      let (r, s') = G.worktree_add published s in merge_attached actor message tip r s'

  -- `mergeIntoPublished`, and the error that `Publish` makes of its conflicts.
  unfoldable pub merge_into_published : Bytes → Bytes → Actor → Bytes → Call G Bytes
  unfolding merge_in_worktree
  merge_into_published from tip actor message = do
    outcome ← git G (
        merge_in_worktree actor
          (or_default message (codes "publish: " ++ (from ++ (codes "@" ++ take 7 tip)))) tip)
    merged_tip outcome

  unfoldable pub merge_published : Env → Bytes → Bytes → Actor → Bytes → Call G CommitInfo
  unfolding merge_into_published
  merge_published env from tip actor message = do
    sha ← merge_into_published from tip actor message
    ci ← commit_info G sha
    finish_publish env sha
    pure ci

  abbrev pub publish_apart : Bool → Env → Bytes → Bytes → Actor → Bytes → Call G CommitInfo
  publish_apart true env from tip actor message = move_published env tip
  publish_apart false env from tip actor message = merge_published env from tip actor message

  abbrev pub publish_over : Bool → Env → Bytes → Bytes → Actor → Bytes → Bytes → Call G CommitInfo
  publish_over true env from tip actor message pub_tip = commit_info G pub_tip
  publish_over false env from tip actor message pub_tip =
      λ w. publish_apart (G.is_ancestor w.repo published tip) env from tip actor message w

  abbrev pub publish_onto : Bool → Env → Bytes → Bytes → Actor → Bytes → Call G CommitInfo
  publish_onto false env from tip actor message = move_published env tip
  publish_onto true env from tip actor message = do
    pub_tip ← rev_parse G published
    publish_over (bytes_eq pub_tip tip) env from tip actor message pub_tip

  unfoldable pub publish_locked : Env → Bytes → PublishInput → Call G CommitInfo
  unfolding move_published merge_published
  publish_locked env from i = do
    require_site G env
    tip ← rev_parse G from
    same_tip from i.base_sha tip
    exists ← asks G (λ s. G.show_ref s published)
    publish_onto exists env from tip i.actor i.message

  -- `Publish`.
  unfoldable pub publish : Env → PublishInput → Call G CommitInfo
  unfolding publish_locked
  publish env i =
      let from = or_default i.from branch_draft in
      do
        check_none (cannot_publish from)
        check_none (require_text i.base_sha "baseSha" "required (tip of the source branch)")
        ci ← publish_locked env from i
        mirror G published
        pure ci
