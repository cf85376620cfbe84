-- ===== src/Repo/Republish.antt =====
-- A publish of what is published already.
use kotoji.Prelude.{
  Result, ok, err, ◌≡◌, refl, sym, ◌∙◌, subst, ◌≢◌, Bool, true, false, ◌&&◌, not, Option, none,
  some, arith,
}
use kotoji.Action.{
  Ends, Ensures, reads, pure-Ensures, on_failure, checks, check_none-same, then, weaken,
}
use kotoji.Repo.{
  branch_draft, commit_info, CommitInfo, Git, or_default, RepoError, Env, liveness, Site,
}
use kotoji.Repo.Laws.{IsRef, IsGit}
use kotoji.Repo.Published.{same_tip-Ensures}
use kotoji.Repo.Publishing.{PublishInput, publish_over, publish_locked, publish_onto, publish}
use kotoji.Repo.Steps.{asks-Ensures, rev_parse-Ensures}
use kotoji.Resolve.{published}
use kotoji.Text.{Bytes, bytes_eq}
use kotoji.Text.Laws.{bytes_eq-false}

module _ (G : Git) (L : IsGit G) (named : IsRef published) (env : Env) (i : PublishInput)
    (row : Option Bytes) where
  abbrev Kept : Site G → Type 0
  Kept w = (G.rev_parse w.repo published ≡ some i.base_sha) × (w.published_commit_sha ≡ row)

  over-same :
      (from old : Bytes) (w : Site G)
      → G.rev_parse w.repo published ≡ some old
      → Kept w
      → (same : Bool) → bytes_eq old i.base_sha ≡ same
      → Ends (λ _. Kept) Kept (publish_over G same env from i.base_sha i.actor i.message old w)
  over-same from old w e p true h = (reads {P = Kept} {m = commit_info G old} (λ _. refl)).run w p
  over-same from old w e p false h = elim (differ (sym e ∙ p.0)) [ ]
    where
      differ : some old ≢ some i.base_sha
      differ same = grind (arith, bytes_eq-false old i.base_sha h)

  onto-same :
      (exists : Bool) (from : Bytes)
      → Ensures
          (λ w. Kept w × (G.show_ref w.repo published ≡ ok exists))
          (publish_onto G exists env from i.base_sha i.actor i.message)
          (λ _. Kept)
          Kept
  onto-same false from = record {
    run =
        λ w (p, e). elim (absent-some (sym (L.show_ref_absent published w.repo e named) ∙ p.0)) [ ];
  }
    where
      absent-some : none ≢ some i.base_sha
      absent-some e = ground arith
  onto-same true from =
      then (weaken (λ _ p. p.0) (λ _ _ q. q) (λ _ x. x) (rev_parse-Ensures G Kept published))
        λ old. record { run = λ w (p, e). over-same from old w e p (bytes_eq old i.base_sha) refl }

  publish-Kept : Ensures Kept (publish G env i) (λ _. Kept) Kept
  unfolding publish publish_locked
  publish-Kept = then (checks _) λ _. then (checks _) λ _.
      then {Q = λ _. Kept}
        (then
          (reads (λ w. check_none-same (liveness G env.load_error (w.found && not w.deleted)) w))
          λ _. then (reads (λ _. refl)) λ tip.
            then (same_tip-Ensures G (or_default i.from branch_draft) i.base_sha tip) λ _.
              then (on_failure (λ w p. p.0) (asks-Ensures G _ (λ s. G.show_ref s published)))
                λ exists. record {
                  run = λ w ((p, same), shown).
                      subst
                        (λ x.
                          Ends (λ _. Kept) Kept
                            (publish_onto G exists env (or_default i.from branch_draft) x i.actor
                              i.message w))
                        (sym same)
                        ((onto-same exists (or_default i.from branch_draft)).run w (p, shown));
                })
        λ ci.
          then
            (record { run = λ w (n, r). (L.mirror_quiet published published w.repo named ∙ n, r) })
            λ _. pure-Ensures

-- A publish of a tip that is published already leaves the row's pointer as it is, also when an earlier
-- publish moved the branch and could not store the pointer.
pub publish_repeated :
    (G : Git) (L : IsGit G) (named : IsRef published) (env : Env) (i : PublishInput) (w : Site G)
    → G.rev_parse w.repo published ≡ some i.base_sha
    → (publish G env i w).1.published_commit_sha ≡ w.published_commit_sha
publish_repeated G L named env i w e =
    kept (publish G env i w) ((publish-Kept G L named env i w.published_commit_sha).run w (e, refl))
  where
    kept :
        (o : Result RepoError CommitInfo × Site G)
        → Ends
            (λ _. Kept G L named env i w.published_commit_sha)
            (Kept G L named env i w.published_commit_sha)
            o
        → o.1.published_commit_sha ≡ w.published_commit_sha
    kept (ok x, w') p = p.1
    kept (err x, w') p = p.1
