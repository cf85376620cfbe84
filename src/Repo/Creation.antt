-- ===== src/Repo/Creation.antt =====
-- What the making and the removal of a branch do to the branches.
use kotoji.Prelude.{
  Result, ok, err, ◌≡◌, refl, sym, ◌∙◌, ◌≢◌, Bool, true, false, ◌&&◌, not, Option, none, some,
  arith,
}
use kotoji.Action.{check_none-same, on_failure, Ends, Ensures, then, reads, checks, check_none}
use kotoji.Repo.{
  branch_draft, to_repo_error, liveness, CommitInfo, RepoError, or_default, Site, Env, Git,
  require_site,
}
use kotoji.Repo.Branches.{delete_branch, create_branch, absent}
use kotoji.Repo.Laws.{IsRef, IsGit, names_object}
use kotoji.Repo.Steps.{quiet, At, gate-none, git-cases, asks-Ensures, rev_parse-Ensures}
use kotoji.Site.Handle.{validate_branch_name}
use kotoji.Site.Naming.{validate_branch_name_iff}
use kotoji.Text.{Bytes, Unicode}

module _ (G : Git) (L : IsGit G) where
  checked-none :
      {P X : Site G → Type 0} (c : Option RepoError)
      → ((w : Site G) → P w → X w)
      → Ensures P (check_none c) (λ _ w. P w × (c ≡ none)) X
  checked-none none k = record { run = λ w p. (p, refl) }
  checked-none (some e) k = record { run = λ w p. k w p }

  site-same : (env : Env) (w : Site G) → (require_site G env w).1 ≡ w
  site-same env w = check_none-same (liveness G env.load_error (w.found && not w.deleted)) w

  -- The refs of a site, of which the calls move only the named one.
  create_branch-others :
      (b : Bytes) (named : IsRef b) (t : Option Bytes) (u : Unicode) (env : Env) (name from : Bytes)
      → b ≢ name
      → Ensures
          (At G L b named t)
          (create_branch G u env name from)
          (λ _. At G L b named t)
          (At G L b named t)
  unfolding create_branch
  create_branch-others b named t u env name from ne = then (checks _) λ _. then (checks _) λ _.
      then (reads (site-same env)) λ _. then (reads (λ _. refl)) λ exists.
        then (reads (λ _. refl)) λ _. then (reads (λ _. refl)) λ sha.
          then
            (quiet G L b named t (G.create_branch name sha)
              (λ s. L.create_branch_others name sha b s named ne))
            λ _. reads (λ _. refl)

  delete_branch-others :
      (b : Bytes) (named : IsRef b) (t : Option Bytes) (env : Env) (name : Bytes)
      → b ≢ name
      → Ensures
          (At G L b named t)
          (delete_branch G env name)
          (λ _. At G L b named t)
          (At G L b named t)
  unfolding delete_branch
  delete_branch-others b named t env name ne = then (checks _) λ _.
      then (reads (λ w. check_none-same (liveness G env.load_error w.found) w)) λ _.
        then (reads (λ _. refl)) λ exists. then (reads (λ _. refl)) λ _.
          quiet G L b named t (G.delete_branch name) (λ s. L.delete_branch_others name b s named ne)

  module _ (u : Unicode) (env : Env) (name from : Bytes) where
    abbrev Start : Option Bytes → Option Bytes → Site G → Type 0
    Start s t w =
        (G.rev_parse w.repo (or_default from branch_draft) ≡ s) × (G.rev_parse w.repo name ≡ t)

    -- The name is a branch that was not there, and now has the tip that `from` had.
    abbrev pub Created : Option Bytes → Option Bytes → Site G → Type 0
    Created s t w =
        IsRef name
        × (t ≡ none)
        × ((sha : Bytes) × (s ≡ some sha) × (G.rev_parse w.repo name ≡ some sha))

    create_branch-Created :
        (s t : Option Bytes)
        → names_object name ≡ false
        → Ensures (Start s t) (create_branch G u env name from) (λ _. Created s t) (λ _. Unit {0})
    unfolding create_branch
    create_branch-Created s t plain = then (checked-none _ (λ _ _. tt)) λ _.
        then (on_failure (λ _ _. tt) (checks _)) λ _.
          then (on_failure (λ _ _. tt) (reads (site-same env))) λ _.
            then (on_failure (λ _ _. tt) (asks-Ensures G _ (λ s. G.show_ref s name))) λ exists.
              then
                {Q = λ _ w.
                  (Start s t w × (to_repo_error (validate_branch_name u name) ≡ none)) × (t ≡ none)}
                (record { run = λ w ((start, gate), shown). absent_then exists w start gate shown })
                λ _.
                  then
                    (on_failure (λ _ _. tt) (rev_parse-Ensures G _ (or_default from branch_draft)))
                    λ sha.
                      then {Q = λ _. Created s t}
                        (record {
                          run = λ w (((start, gate), gone), tip).
                              git-cases G (G.create_branch name sha) (λ _. Created s t)
                                (λ _. Unit {0}) w
                                (λ _ k. (
                                  branch gate,
                                  gone,
                                  (
                                    sha,
                                    sym start.0 ∙ tip,
                                    L.create_branch_tip name sha w.repo k (branch gate),
                                  ),
                                ))
                                (λ _ _. tt);
                        })
                        λ _. on_failure (λ _ _. tt) (reads (λ _. refl))
      where
        branch : to_repo_error (validate_branch_name u name) ≡ none → IsRef name
        branch gate = ((validate_branch_name_iff u name).0 (gate-none _ gate), plain)

        absent_then :
            (exists : Bool) (w : Site G)
            → Start s t w
            → to_repo_error (validate_branch_name u name) ≡ none
            → G.show_ref w.repo name ≡ ok exists
            → Ends {E = RepoError} {A = Unit {0}}
                (λ _ w.
                  (Start s t w × (to_repo_error (validate_branch_name u name) ≡ none)) × (t ≡ none))
                (λ _. Unit {0})
                (absent G exists, w)
        absent_then true w start gate shown = tt
        absent_then false w start gate shown =
            ((start, gate), sym start.1 ∙ L.show_ref_absent name w.repo shown (branch gate))

    -- A branch that is made, under a name that does not read as the hash of an object, has a name of the
    -- grammar that was free, and the tip that its source had.
    pub create_branch_sound :
        (ci : CommitInfo) (w : Site G)
        → names_object name ≡ false
        → (create_branch G u env name from w).0 ≡ ok ci
        → Created
            (G.rev_parse w.repo (or_default from branch_draft))
            (G.rev_parse w.repo name)
            (create_branch G u env name from w).1
    create_branch_sound ci w plain r = made (create_branch G u env name from w) r (
        (create_branch-Created (G.rev_parse w.repo (or_default from branch_draft))
            (G.rev_parse w.repo name) plain).run
          w (refl, refl))
      where
        made :
            (o : Result RepoError CommitInfo × Site G)
            → o.0 ≡ ok ci
            → Ends
                (λ _.
                  Created
                    (G.rev_parse w.repo (or_default from branch_draft))
                    (G.rev_parse w.repo name))
                (λ _. Unit {0})
                o
            → Created
                (G.rev_parse w.repo (or_default from branch_draft))
                (G.rev_parse w.repo name)
                o.1
        made (ok x, w') e p = p
        made (err x, w') e p = ground arith

  -- Whether they succeed or not, the making and the removal of a branch leave the tips of the others.
  pub branch_calls-isolated :
      (b : Bytes) (u : Unicode) (env : Env) (name from : Bytes) (w : Site G)
      → IsRef b
      → b ≢ name
      → (G.rev_parse (create_branch G u env name from w).1.repo b ≡ G.rev_parse w.repo b)
        × (G.rev_parse (delete_branch G env name w).1.repo b ≡ G.rev_parse w.repo b)
  branch_calls-isolated b u env name from w named ne = (
    ended (create_branch G u env name from w)
        ((create_branch-others b named t u env name from ne).run w refl),
    ended (delete_branch G env name w) ((delete_branch-others b named t env name ne).run w refl),
  )
    where
      t : Option Bytes
      t = G.rev_parse w.repo b

      ended :
          {A : Type 0} (r : Result RepoError A × Site G)
          → Ends (λ _. At G L b named t) (At G L b named t) r
          → G.rev_parse r.1.repo b ≡ t
      ended (ok a, w') p = p
      ended (err e, w') p = p
