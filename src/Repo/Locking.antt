-- ===== src/Repo/Locking.antt =====
-- What a call that commits does to a branch: its own, and the others.
use kotoji.Prelude.{
  All, Result, ok, err, ◌<◌, ◌≡◌, refl, ◌∙◌, ◌≢◌, inr, Bool, true, false, ◌&&◌, not, Option, none,
  some, List, [], ◌∷◌,
}
use kotoji.Action.{given, on_failure, then, Ends, check_none-same, reads, Ensures, pure-Ensures}
use kotoji.Auth.Lockout.{}
use kotoji.Repo.{
  commit_staged, Env, require_site, liveness, Call, Site, Git, settle, CommitInfo, RepoError,
}
use kotoji.Repo.Bodies.{
  rollback_body-Ensures, Commits, save_body-Ensures, write_body-Ensures, delete_body-Ensures,
}
use kotoji.Repo.Laws.{IsGit, IsRef}
use kotoji.Repo.Steps.{gate-none, AtThere, git-cases, check_base_sha-Ensures, At}
use kotoji.Repo.Writes.{
  apply_write, write_file, delete_file, base_of, save, rollback, check_write_path, writes,
  commit_on, WriteFileInput, rolls_back, saves, write_path_error, Write, target_branch, deletes,
  check_all,
}
use kotoji.Site.Paths.{
  ext_allowed_for_upload, validate_mcp_write_path, ext_allowed_for_mcp_write, validate_path,
}
use kotoji.Site.Paths.Walk.{IsOutside, accepted-IsOutside}
use kotoji.Text.{Unicode, Bytes}

module _ (G : Git) (L : IsGit G) (b : Bytes) (named : IsRef b) where
  open L use {Older, depth}

  -- Of the old tip the branch has a descendant.
  abbrev pub Reached : Bytes → Site G → Type 0
  Reached old w = (new : Bytes) × (G.rev_parse w.repo b ≡ some new) × Older old new

  -- The descendant is a new commit.
  abbrev pub Grown : Bytes → Site G → Type 0
  Grown old w =
      (new : Bytes) × (G.rev_parse w.repo b ≡ some new) × Older old new × (depth old < depth new)

  abbrev pub Stable : (Site G → Type 0) → Type 0
  Stable Q = (w w' : Site G) → G.rev_parse w'.repo b ≡ G.rev_parse w.repo b → Q w → Q w'

  pub settle-Ensures :
      {Q X : Site G → Type 0} (c : Bytes) → Stable Q → Ensures Q (settle G c) (λ _. Q) X
  settle-Ensures c k =
      then (record { run = λ w. k w _ (L.refresh_served_quiet c b w.repo named) })
        λ _. record { run = λ w. k w _ (L.mirror_quiet c b w.repo named) }

  -- No check has an error.
  abbrev pub Passed : List (Option RepoError) → Type 0
  Passed = All (λ c. c ≡ none)

  pub check_all-Passed :
      {P : Site G → Type 0} (cs : List (Option RepoError))
      → Ensures P (check_all G cs) (λ _ w. P w × Passed cs) P
  check_all-Passed {P = P} cs = record { run = passed cs }
    where
      also :
          (cs : List (Option RepoError)) (r : Result RepoError (Unit {0}) × Site G)
          → Ends (λ _ w. P w × Passed cs) P r
          → Ends (λ _ w. P w × Passed (none ∷ cs)) P r
      also cs (ok a, w) (p, h) = (p, (refl, h))
      also cs (err e, w) p = p

      passed :
          (cs : List (Option RepoError)) (w : Site G)
          → P w
          → Ends (λ _ w. P w × Passed cs) P (check_all G cs w)
      passed [] w p = (p, tt)
      passed (none ∷ cs) w p = also cs (check_all G cs w) (passed cs w p)
      passed (some e ∷ cs) w p = p

  pub require_site-same : (env : Env) (w : Site G) → (require_site G env w).1 ≡ w
  require_site-same env w = check_none-same (liveness G env.load_error (w.found && not w.deleted)) w

  commit_on-Ensures :
      {P Q X : Site G → Type 0} {c base : Bytes} {body : Call G CommitInfo}
      (cs : List (Option RepoError)) (hint : List Bytes) (env : Env)
      → ((w : Site G) → P w → X w)
      → Stable Q
      → (Passed cs → Ensures (λ w. P w × (G.rev_parse w.repo c ≡ some base)) body (λ _. Q) X)
      → Ensures P (commit_on G cs env c base hint body) (λ _. Q) X
  unfolding commit_on
  commit_on-Ensures {c = c} {base = base} cs hint env rest stable k =
      then (on_failure rest (check_all-Passed cs)) λ _. given λ passed.
        then (on_failure rest (reads (require_site-same env))) λ _.
          then (on_failure rest (check_base_sha-Ensures G _ c base hint))
            λ _. then (k passed) λ ci. then (settle-Ensures c stable) λ _. pure-Ensures

  write_path-IsOutside :
      (u : Unicode) (i : WriteFileInput) → write_path_error u i ≡ none → IsOutside i.path
  write_path-IsOutside u i h = checked_path i.actor.via_mcp (gate-none _ h)
    where
      checked_path : (mcp : Bool) → check_write_path u mcp i.path ≡ none → IsOutside i.path
      checked_path true e =
          accepted-IsOutside i.path (some (ext_allowed_for_mcp_write u))
            (unfold validate_mcp_write_path in e)
      checked_path false e =
          accepted-IsOutside i.path (some (ext_allowed_for_upload u)) (unfold validate_path in e)

  -- A write ensures what its commit does, if the commit finds the branch at the tip `t`, and the fact
  -- `K` that the check of the base has shown.
  module _ (t : Option Bytes) (P Q X : Site G → Type 0) (K : Type 0)
      (rest : (w : Site G) → P w → X w) (at : (w : Site G) → At G L b named t w → X w)
      (stable : Stable Q) (u : Unicode) (env : Env) where
    abbrev Commit : Bytes → Type 0
    Commit = Commits G L b named t (λ _. Q) X at

    -- What the check of the base leaves for the body.
    abbrev Based : Bytes → Bytes → Type 0
    Based c base = (w : Site G) → P w → G.rev_parse w.repo c ≡ some base → At G L b named t w × K

    checked :
        {c base : Bytes} {body : Call G CommitInfo}
        → Based c base
        → IsRef c
        → (K → Ensures (AtThere G L b named t c) body (λ _. Q) X)
        → Ensures (λ w. P w × (G.rev_parse w.repo c ≡ some base)) body (λ _. Q) X
    checked {base = base} k ref h = record {
      run = λ w (p, e). let (now, fact) = k w p e in (h fact).run w (now, inr (ref, (base, e)));
    }

    pub apply_write-Ensures :
        (i : Write)
        → IsRef (target_branch i)
        → Based (target_branch i) (base_of i)
        → (K → Commit (target_branch i))
        → Ensures P (apply_write G u env i) (λ _. Q) X
    unfolding apply_write write_file delete_file save rollback
    apply_write-Ensures (writes quota i) ref k c = commit_on-Ensures _ _ env rest stable (λ passed.
        checked k ref (λ fact.
          write_body-Ensures G L b named t (λ _. Q) X at quota i
            (write_path-IsOutside u i passed.1.0) (c fact)))
    apply_write-Ensures (deletes branch path base actor) ref k c =
        commit_on-Ensures _ _ env rest stable (λ _.
          checked k ref
            (λ fact. delete_body-Ensures G L b named t (λ _. Q) X at branch path actor (c fact)))
    apply_write-Ensures (saves branch base message actor) ref k c =
        commit_on-Ensures _ _ env rest stable (λ _.
          checked k ref
            (λ fact. save_body-Ensures G L b named t (λ _. Q) X at branch message actor (c fact)))
    apply_write-Ensures (rolls_back branch to base actor) ref k c =
        commit_on-Ensures _ _ env rest stable (λ _.
          checked k ref
            (λ fact. rollback_body-Ensures G L b named t (λ _. Q) X at branch to actor (c fact)))

  pub others-Commits :
      (t : Option Bytes) (c : Bytes)
      → b ≢ c
      → Commits G L b named t (λ _. At G L b named t) (At G L b named t) (λ _ p. p) c
  unfolding commit_staged
  others-Commits t c ne a m =
      then
        (record {
          run = λ w (head, at).
              git-cases G (G.commit a m) (λ _. At G L b named t) (At G L b named t) w
                (λ _ _. L.commit_others a m c b w.repo head named ne ∙ at)
                (λ _ _. L.commit_others a m c b w.repo head named ne ∙ at);
        })
        λ _. then (reads (λ _. refl)) λ tip. reads (λ _. refl)

  pub own-Commits :
      (old : Bytes)
      → Commits G L b named
          (some old)
          (λ _. Grown old)
          (Reached old)
          (λ w at. (old, at, L.older_refl old))
          b
  unfolding commit_staged
  own-Commits old a m =
      then {Q = λ _. Grown old}
        (record {
          run = λ w (head, at).
              git-cases G (G.commit a m) (λ _. Grown old) (Reached old) w
                (λ _ k. L.commit_tip a m b old w.repo k head named at)
                (λ x k. (old, L.commit_failed a m b x w.repo k named ∙ at, L.older_refl old));
        })
        λ _.
          then (on_failure (λ w (new, tip, older, _). (new, tip, older)) (reads (λ _. refl)))
            λ tip. on_failure (λ w (new, tip, older, _). (new, tip, older)) (reads (λ _. refl))
