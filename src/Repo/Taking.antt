-- ===== src/Repo/Taking.antt =====
-- How a publish moves the published branch, step by step.
use kotoji.Prelude.{
  Result, ok, err, String, ◌≡◌, refl, sym, ap, ◌∙◌, subst, ◌≢◌, ◌⊎◌, inl, inr, Bool, true, false,
  Option, none, some, List, arith,
}
use kotoji.Action.{
  ◌>>=◌, ◌>>◌, pure, Ensures, on_failure, weaken, raise-Ensures, reads, Ends, then, pure-Ensures,
}
use kotoji.Repo.{
  not_found, Env, Call, Site, MergeOutcome, Git, commit_info, Actor, git, conflicted, found_or,
  RepoError, merged,
}
use kotoji.Repo.Laws.{IsGit, IsRef}
use kotoji.Repo.Merging.{merge_in_worktree-unmerged, merge_in_worktree-tip}
use kotoji.Repo.Publishing.{
  publish_apart, merge_in_worktree, merge_into_published, publish_over, merged_tip, publish_onto,
  move_published, merge_published, stored, finish_publish,
}
use kotoji.Repo.Steps.{git-cases, rev_parse-Ensures, At}
use kotoji.Resolve.{published}
use kotoji.Text.{bytes_eq, Bytes}
use kotoji.Text.Laws.{bytes_eq_iff}

module _ (G : Git) (L : IsGit G) (named : IsRef published) where
  open L use {Older}

  -- A commit on top of what the branch had, if it was there.
  abbrev pub OnTop : Option Bytes → Bytes → Type 0
  OnTop none new = Unit
  OnTop (some old) new = Older old new

  abbrev Now : Bytes → Site G → Type 0
  Now new w = G.rev_parse w.repo published ≡ some new

  -- The branch is where it was, or ahead of it.
  abbrev pub Ahead : Option Bytes → Site G → Type 0
  Ahead none w = Unit
  Ahead (some old) w = (new : Bytes) × Now new w × Older old new

  -- The branch has taken over `base`, and the row's pointer is its tip, or the branch had `base` before.
  abbrev pub Took : Bytes → Option Bytes → Site G → Type 0
  Took base t w =
      (new : Bytes) × Now new w
      × Older base new
      × OnTop t new
      × ((w.published_commit_sha ≡ some new) ⊎ (t ≡ some base))

  Now-Ahead : (t : Option Bytes) (new : Bytes) (w : Site G) → OnTop t new → Now new w → Ahead t w
  Now-Ahead none new w o n = tt
  Now-Ahead (some old) new w o n = (new, n, o)

  pub same-Ahead : (t : Option Bytes) (w : Site G) → At G L published named t w → Ahead t w
  same-Ahead none w e = tt
  same-Ahead (some old) w e = (old, e, L.older_refl old)

  module _ (base : Bytes) (t : Option Bytes) where
    abbrev Tip : Site G → Type 0
    Tip = At G L published named t

    abbrev Ends-well : {A : Type 0} → (Site G → Type 0) → Call G A → Type 0
    Ends-well {A = A} P m = Ensures P m (λ _. Took base t) (Ahead t)

    finish :
        (env : Env) (new : Bytes)
        → Older base new
        → OnTop t new
        → Ensures
            (Now new)
            (commit_info G new >>= λ ci. finish_publish G env new >> pure ci)
            (λ _. Took base t)
            (Ahead t)
    finish env new older top =
        then (on_failure (λ w n. Now-Ahead t new w top n) (reads (λ _. refl))) λ ci.
          then
            (then {Q = λ _. Now new}
              (record { run = λ w n. L.refresh_served_quiet published published w.repo named ∙ n })
              λ _. record { run = λ w n. set env.set_published_error w n })
            λ _. pure-Ensures
      where
        set :
            (o : Option String) (w : Site G)
            → Now new w
            → Ends (λ _. Took base t) (Ahead t) (stored G o w new)
        set none w n = (new, n, older, top, inl refl)
        set (some e) w n = Now-Ahead t new w top n

    moved :
        (env : Env)
        → OnTop t base
        → Ensures Tip (move_published G env base) (λ _. Took base t) (Ahead t)
    unfolding move_published
    moved env top =
        then
          (record {
            run = λ w at.
                git-cases G (G.update_ref published base) (λ _. Now base) (Ahead t) w
                  (λ _ k. L.update_ref_tip published base w.repo k named)
                  (λ x k.
                    same-Ahead t _
                      (L.update_ref_failed published base published x w.repo k named ∙ at));
          })
          λ _. finish env base (L.older_refl base) top

    abbrev Advanced : Bytes → Site G → Type 0
    Advanced new w = Now new w × OnTop t new × Older base new

    abbrev Outcome : MergeOutcome → Site G → Type 0
    Outcome merged w = (new : Bytes) × Advanced new w
    Outcome (conflicted paths reason) w = Ahead t w

    merged_tip-Ensures :
        (o : MergeOutcome) → Ensures (Outcome o) (merged_tip G o) Advanced (Ahead t)
    merged_tip-Ensures merged = record {
      run = λ w (new, (n, top, older)).
          subst (λ o. Ends {E = RepoError} Advanced (Ahead t) (found_or G o not_found, w)) (sym n)
            (n, top, older);
    }
    merged_tip-Ensures (conflicted paths reason) = raise-Ensures

    merge-Outcome :
        (old : Bytes) (a : Actor) (m : Bytes)
        → t ≡ some old
        → Ensures Tip (git G (merge_in_worktree G a m base)) Outcome (Ahead t)
    merge-Outcome old a m had = record {
      run = λ w at.
          git-cases G (merge_in_worktree G a m base) Outcome (Ahead t) w (λ o k. outcome o w at k)
            (λ x k. same-Ahead t _ (
              merge_in_worktree-unmerged G L a m base w.repo (λ e. err_not_ok x (sym k ∙ e)) ∙ at));
    }
      where
        err_not_ok : (x : String) → err x ≢ ok merged
        err_not_ok x e = ground arith

        outcome :
            (o : MergeOutcome) (w : Site G)
            → Tip w
            → (merge_in_worktree G a m base w.repo).0 ≡ ok o
            → Outcome o (record w { repo = (merge_in_worktree G a m base w.repo).1 })
        outcome merged w at k =
            let (new, n, top, older) = merge_in_worktree-tip G L a m base w.repo old k (at ∙ had) in
            (new, (n, subst (λ t'. OnTop t' new) (sym had) top, older))
        outcome (conflicted paths reason) w at k =
            same-Ahead t _
              (merge_in_worktree-unmerged G L a m base w.repo (not_merged paths reason _ k) ∙ at)
          where
            not_merged :
                (paths : List Bytes) (reason : String) (r : Result String MergeOutcome)
                → r ≡ ok (conflicted paths reason)
                → r ≢ ok merged
            not_merged paths reason r k e = ground arith

    merging :
        (env : Env) (old from : Bytes) (a : Actor) (m : Bytes)
        → t ≡ some old
        → Ensures Tip (merge_published G env from base a m) (λ _. Took base t) (Ahead t)
    unfolding merge_published merge_into_published
    merging env old from a m had =
        then (then (merge-Outcome old a _ had) merged_tip-Ensures)
          λ new. record { run = λ w (n, top, older). (finish env new older top).run w n }

    apart :
        (env : Env) (old from : Bytes) (a : Actor) (m : Bytes)
        → t ≡ some old
        → (w : Site G) → Tip w
        → (ff : Bool) → G.is_ancestor w.repo published base ≡ ff
        → Ends (λ _. Took base t) (Ahead t) (publish_apart G ff env from base a m w)
    apart env old from a m had w at false e = (merging env old from a m had).run w at
    apart env old from a m had w at true e =
        (moved env (
            subst (λ t'. OnTop t' base) (sym had)
              (L.is_ancestor_older published old base w.repo e (at ∙ had)))).run
          w at

    over :
        (env : Env) (old from : Bytes) (a : Actor) (m : Bytes)
        → t ≡ some old
        → (same : Bool) → bytes_eq old base ≡ same
        → Ensures Tip (publish_over G same env from base a m old) (λ _. Took base t) (Ahead t)
    over env old from a m had true e =
        weaken (λ _ p. p) (λ _ w at. took w at) (λ w at. same-Ahead t w at)
          (reads {P = Tip} (λ _. refl))
      where
        equal : old ≡ base
        equal = (bytes_eq_iff old base).0 e

        took : (w : Site G) → Tip w → Took base t w
        took w at = (
          old,
          at ∙ had,
          subst (Older base) (sym equal) (L.older_refl base),
          subst (λ t'. OnTop t' old) (sym had) (L.older_refl old),
          inr (had ∙ ap some equal),
        )
    over env old from a m had false e = record {
      run = λ w at. apart env old from a m had w at (G.is_ancestor w.repo published base) refl;
    }

    pub onto :
        (env : Env) (from : Bytes) (a : Actor) (m : Bytes) (exists : Bool)
        → Ensures
            (λ w. Tip w × (G.show_ref w.repo published ≡ ok exists))
            (publish_onto G exists env from base a m)
            (λ _. Took base t)
            (Ahead t)
    onto env from a m false = record {
      run = λ w (at, e).
          (moved env (
              subst (λ t'. OnTop t' base) (sym (L.show_ref_absent published w.repo e named) ∙ at)
                tt)).run
            w at;
    }
    onto env from a m true =
        then
          (weaken (λ _ p. p.0) (λ _ _ q. q) (λ w at. same-Ahead t w at)
            (rev_parse-Ensures G Tip published))
          λ old. record {
            run =
                λ w (at, e). (over env old from a m (sym at ∙ e) (bytes_eq old base) refl).run w at;
          }
