-- ===== src/Repo/Advance.antt =====
-- Where a publish leaves the published branch and the row's pointer.
use kotoji.Prelude.{
  Result, ok, err, ◌≡◌, refl, sym, ap, ◌∙◌, subst, Bool, ◌&&◌, not, Option, some, arith,
}
use kotoji.Action.{
  Ensures, pure-Ensures, checks, on_failure, Ends, reads, weaken, check_none-same, then,
}
use kotoji.Repo.{CommitInfo, branch_draft, RepoError, or_default, Git, Env, liveness, Site}
use kotoji.Repo.Laws.{IsGit, IsRef}
use kotoji.Repo.Published.{same_tip-Ensures}
use kotoji.Repo.Publishing.{publish_locked, PublishInput, publish, publish_onto}
use kotoji.Repo.Steps.{rev_parse-Ensures, At, asks-Ensures}
use kotoji.Repo.Taking.{onto, Ahead, Took, same-Ahead}
use kotoji.Resolve.{published}
use kotoji.Text.{Bytes}

module _ (G : Git) (L : IsGit G) (named : IsRef published) where
  module _ (env : Env) (i : PublishInput) where
    -- `from` may be left out.
    abbrev source : Bytes
    source = or_default i.from branch_draft

    publish-Ensures :
        (s t : Option Bytes)
        → Ensures
            (λ w. At G L published named t w × (G.rev_parse w.repo source ≡ s))
            (publish G env i)
            (λ _ w. (s ≡ some i.base_sha) × Took G L named i.base_sha t w)
            (Ahead G L named t)
    unfolding publish publish_locked
    publish-Ensures s t = then (on_failure at (checks _)) λ _. then (on_failure at (checks _)) λ _.
        then {Q = λ _. Won}
          (then
            (on_failure at (
              reads
                (λ w. check_none-same (liveness G env.load_error (w.found && not w.deleted)) w)))
            λ _. then (on_failure at (rev_parse-Ensures G _ source)) λ tip.
              then (on_failure (λ w p. at w p.0) (same_tip-Ensures G source i.base_sha tip)) λ _.
                then
                  (on_failure (λ w p. at w p.0.0) (asks-Ensures G _ (λ s. G.show_ref s published)))
                  λ exists. record {
                    run = λ w (((p, e), same), shown).
                        taken tip exists same (sym p.1 ∙ e) w (p.0, shown);
                  })
          λ ci.
            then
              (record {
                run = λ w (was, (new, n, older, top, row)). (
                  was,
                  (new, L.mirror_quiet published published w.repo named ∙ n, older, top, row),
                );
              })
              λ _. pure-Ensures
      where
        Start : Site G → Type 0
        Start w = At G L published named t w × (G.rev_parse w.repo source ≡ s)

        at : (w : Site G) → Start w → Ahead G L named t w
        at w p = same-Ahead G L named t w p.0

        Won : Site G → Type 0
        Won w = (s ≡ some i.base_sha) × Took G L named i.base_sha t w

        taken :
            (tip : Bytes) (exists : Bool)
            → tip ≡ i.base_sha
            → s ≡ some tip
            → (w : Site G) → At G L published named t w × (G.show_ref w.repo published ≡ ok exists)
            → Ends
                (λ _. Won)
                (Ahead G L named t)
                (publish_onto G exists env source tip i.actor i.message w)
        taken tip exists same was w p =
            (weaken (λ _ p. p) (λ _ _ q. (was ∙ ap some same, q)) (λ _ x. x)
                (subst
                  (λ x.
                    Ensures
                      (λ w. At G L published named t w × (G.show_ref w.repo published ≡ ok exists))
                      (publish_onto G exists env source x i.actor i.message)
                      (λ _. Took G L named i.base_sha t) (Ahead G L named t))
                  (sym same) (onto G L named i.base_sha t env source i.actor i.message exists))).run
              w p

    -- A publish that succeeds was given the tip of its source. It leaves the published branch at a
    -- commit with that tip and the old published tip among its ancestors, and the row's pointer at that
    -- commit, unless the source's tip was published already.
    pub publish_sound :
        (ci : CommitInfo) (w : Site G)
        → (publish G env i w).0 ≡ ok ci
        → (G.rev_parse w.repo source ≡ some i.base_sha)
          × Took G L named i.base_sha (G.rev_parse w.repo published) (publish G env i w).1
    publish_sound ci w r = won (publish G env i w) r (
        (publish-Ensures (G.rev_parse w.repo source) (G.rev_parse w.repo published)).run w
          (refl, refl))
      where
        Won : Site G → Type 0
        Won w' =
            (G.rev_parse w.repo source ≡ some i.base_sha)
            × Took G L named i.base_sha (G.rev_parse w.repo published) w'

        won :
            (o : Result RepoError CommitInfo × Site G)
            → o.0 ≡ ok ci
            → Ends (λ _. Won) (Ahead G L named (G.rev_parse w.repo published)) o
            → Won o.1
        won (ok x, w') e p = p
        won (err x, w') e p = ground arith

    -- No publish, whether it succeeds or not, takes the published branch back behind its tip.
    pub publish_forward :
        (old : Bytes) (w : Site G)
        → G.rev_parse w.repo published ≡ some old
        → Ahead G L named (some old) (publish G env i w).1
    publish_forward old w e =
        ahead (publish G env i w)
          ((publish-Ensures (G.rev_parse w.repo source) (some old)).run w (e, refl))
      where
        ahead :
            (o : Result RepoError CommitInfo × Site G)
            → Ends
                (λ _ w'.
                  (G.rev_parse w.repo source ≡ some i.base_sha)
                  × Took G L named i.base_sha (some old) w')
                (Ahead G L named (some old))
                o
            → Ahead G L named (some old) o.1
        ahead (ok x, w') (was, (new, n, older, top, row)) = (new, n, top)
        ahead (err x, w') p = p
