-- ===== src/Repo/Published.antt =====
-- What a publish does to the published branch, and that it leaves the others.
use kotoji.Prelude.{
  Bool-cases, String, ◌≡◌, refl, sym, ◌∙◌, subst, ◌≢◌, inl, inr, Bool, true, false, ◌&&◌, not,
  Option, none, some, [],
}
use kotoji.Action.{
  pure, then, checks, check_none-same, raise-Ensures, pure-Ensures, raise, reads, Ends, Ensures,
  weaken,
}
use kotoji.Repo.{conflict, Git, Call, Env, liveness, merged, MergeOutcome, Actor, Site, conflicted}
use kotoji.Repo.Laws.{IsRef, IsGit}
use kotoji.Repo.Merging.{merge_in_worktree-others}
use kotoji.Repo.Publishing.{
  merge_in_worktree, merge_into_published, publish_over, merge_published, publish, publish_onto,
  finish_publish, merged_tip, publish_apart, move_published, publish_locked, PublishInput, stored,
  same_tip,
}
use kotoji.Repo.Steps.{At, quiet, git-cases}
use kotoji.Resolve.{published}
use kotoji.Text.{Bytes, bytes_eq}
use kotoji.Text.Laws.{bytes_eq_iff}

module _ (G : Git) where
  pub same_tip-Ensures :
      {P : Site G → Type 0} (from base tip : Bytes)
      → Ensures P (same_tip G from base tip) (λ _ w. P w × (tip ≡ base)) P
  same_tip-Ensures {P = P} from base tip = elim (Bool-cases (bytes_eq tip base)) [
    | inl h ↦
        subst (λ m. Ensures P m (λ _ w. P w × (tip ≡ base)) P) (sym (equal h))
          (record { run = λ w p. (p, (bytes_eq_iff tip base).0 h) })
    | inr h ↦ subst (λ m. Ensures P m (λ _ w. P w × (tip ≡ base)) P) (sym (differ h)) raise-Ensures
  ]
    where
      equal : bytes_eq tip base ≡ true → same_tip G from base tip ≡ pure tt
      equal h = simp h

      differ :
          bytes_eq tip base ≡ false → same_tip G from base tip ≡ raise (conflict from base tip [])
      differ h = simp h

  module _ (L : IsGit G) (b : Bytes) (named : IsRef b) (t : Option Bytes) (ne : b ≢ published) where
    abbrev Tip : Site G → Type 0
    Tip = At G L b named t

    reading :
        {A : Type 0} {m : Call G A} → ((w : Site G) → (m w).1 ≡ w) → Ensures Tip m (λ _. Tip) Tip
    reading e = reads e

    finished : (env : Env) (sha : Bytes) → Ensures Tip (finish_publish G env sha) (λ _. Tip) Tip
    finished env sha =
        then (record { run = λ w at. L.refresh_served_quiet published b w.repo named ∙ at })
          λ _. record { run = λ w at. kept env.set_published_error w at }
      where
        kept : (o : Option String) (w : Site G) → Tip w → Ends (λ _. Tip) Tip (stored G o w sha)
        kept none w at = at
        kept (some e) w at = at

    move_published-Tip :
        (env : Env) (tip : Bytes) → Ensures Tip (move_published G env tip) (λ _. Tip) Tip
    unfolding move_published
    move_published-Tip env tip =
        then
          (quiet G L b named t (G.update_ref published tip)
            (λ s. L.update_ref_others published tip b s named ne))
          λ _. then (reading (λ _. refl)) λ ci. then (finished env tip) λ _. pure-Ensures

    merged_tip-Tip : (o : MergeOutcome) → Ensures Tip (merged_tip G o) (λ _. Tip) Tip
    merged_tip-Tip merged = reading (λ _. refl)
    merged_tip-Tip (conflicted paths reason) = raise-Ensures

    merge_published-Tip :
        (env : Env) (from tip : Bytes) (a : Actor) (m : Bytes)
        → Ensures Tip (merge_published G env from tip a m) (λ _. Tip) Tip
    unfolding merge_published merge_into_published
    merge_published-Tip env from tip a m =
        then
          (then
            (record {
              run = λ w at.
                  git-cases G (merge_in_worktree G a _ tip) (λ _. Tip) Tip w
                    (λ _ _. merge_in_worktree-others G L a _ tip w.repo b named ne ∙ at)
                    (λ _ _. merge_in_worktree-others G L a _ tip w.repo b named ne ∙ at);
            })
            merged_tip-Tip)
          λ sha. then (reading (λ _. refl)) λ ci. then (finished env sha) λ _. pure-Ensures

    publish_apart-Tip :
        (ff : Bool) (env : Env) (from tip : Bytes) (a : Actor) (m : Bytes)
        → Ensures Tip (publish_apart G ff env from tip a m) (λ _. Tip) Tip
    publish_apart-Tip true env from tip a m = move_published-Tip env tip
    publish_apart-Tip false env from tip a m = merge_published-Tip env from tip a m

    publish_over-Tip :
        (same : Bool) (env : Env) (from tip : Bytes) (a : Actor) (m pub_tip : Bytes)
        → Ensures Tip (publish_over G same env from tip a m pub_tip) (λ _. Tip) Tip
    publish_over-Tip true env from tip a m pub_tip = reading (λ _. refl)
    publish_over-Tip false env from tip a m pub_tip = record {
      run = λ w. (publish_apart-Tip (G.is_ancestor w.repo published tip) env from tip a m).run w;
    }

    publish_onto-Tip :
        (exists : Bool) (env : Env) (from tip : Bytes) (a : Actor) (m : Bytes)
        → Ensures Tip (publish_onto G exists env from tip a m) (λ _. Tip) Tip
    publish_onto-Tip false env from tip a m = move_published-Tip env tip
    publish_onto-Tip true env from tip a m =
        then (reading (λ _. refl))
          λ pub_tip. publish_over-Tip (bytes_eq pub_tip tip) env from tip a m pub_tip

    pub publish-Tip : (env : Env) (i : PublishInput) → Ensures Tip (publish G env i) (λ _. Tip) Tip
    unfolding publish publish_locked
    publish-Tip env i = then (checks _) λ _. then (checks _) λ _.
        then
          (then
            (reading
              (λ w. check_none-same (liveness G env.load_error (w.found && not w.deleted)) w))
            λ _. then (reading (λ _. refl)) λ tip.
              then (weaken (λ _ p. p) (λ _ _ p. p.0) (λ _ p. p) (same_tip-Ensures _ i.base_sha tip))
                λ _.
                  then (reading (λ _. refl))
                    λ exists. publish_onto-Tip exists env _ tip i.actor i.message)
          λ ci.
            then (record { run = λ w at. L.mirror_quiet published b w.repo named ∙ at })
              λ _. pure-Ensures
