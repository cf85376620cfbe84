-- ===== src/Repo/Isolation.antt =====
-- Writes and publishes in any order, and the branches that they leave alone.
use kotoji.Prelude.{
  Bool-cases, All, Result, ok, err, ◌≤◌, ◌<◌, ◌≡◌, refl, sym, ap, ◌∙◌, subst, ◌≢◌, inl, inr, Option,
  some, List, [], ◌∷◌, arith,
}
use kotoji.Action.{Ends, Ensures, weaken}
use kotoji.Repo.{Git, Env, commit_staged, CommitInfo, Site, RepoError}
use kotoji.Repo.Laws.{IsGit, IsRef}
use kotoji.Repo.Locking.{apply_write-Ensures, others-Commits, Reached, Grown, own-Commits}
use kotoji.Repo.Published.{publish-Tip}
use kotoji.Repo.Publishing.{PublishInput, publish}
use kotoji.Repo.Steps.{At, OnHead}
use kotoji.Repo.Writes.{base_of, apply_write, target_branch, Write}
use kotoji.Resolve.{published}
use kotoji.Text.{Bytes, bytes_eq, Unicode}
use kotoji.Text.Laws.{bytes_eq_iff, bytes_eq-false}

-- A call with its arguments, and what the store answers to it.
pub data Step : Type 0 where
  write : Env → Write → Step
  publishing : Env → PublishInput → Step

module _ (G : Git) where
  unfoldable pub step : Unicode → Step → Site G → Site G
  step u (write env i) w = (apply_write G u env i w).1
  step u (publishing env i) w = (publish G env i w).1

  -- A write names a branch.
  abbrev pub IsNamed : Step → Type 0
  IsNamed (write env i) = IsRef (target_branch i)
  IsNamed (publishing env i) = Unit {0}

  unfoldable pub run_all : Unicode → List Step → Site G → Site G
  run_all u [] w = w
  run_all u (s ∷ ss) w = run_all u ss (step u s w)

  module _ (L : IsGit G) (b : Bytes) (named : IsRef b) where
    abbrev Tip : Option Bytes → Site G → Type 0
    Tip t = At G L b named t

    ended :
        {A : Type 0} (P : Site G → Type 0) (r : Result RepoError A × Site G)
        → Ends (λ _. P) P r
        → P r.1
    ended P (ok a, w) p = p
    ended P (err e, w) p = p

    -- A write to a branch leaves every other branch where it is, whether it succeeds or not. The names of
    -- both are of the grammar of branches and do not read as the hash of an object.
    pub write-isolated :
        (u : Unicode) (env : Env) (i : Write) (w : Site G)
        → IsRef (target_branch i)
        → b ≢ target_branch i
        → G.rev_parse (apply_write G u env i w).1.repo b ≡ G.rev_parse w.repo b
    write-isolated u env i w ref ne = ended (Tip t) (apply_write G u env i w) (
        (apply_write-Ensures G L b named t (Tip t) (Tip t) (Tip t) (Unit {0}) (λ _ p. p) (λ _ p. p)
            (λ _ _ e p. e ∙ p) u env i ref (λ _ p _. (p, tt))
            (λ _. others-Commits G L b named t _ ne)).run
          w refl)
      where
        t : Option Bytes
        t = G.rev_parse w.repo b

    abbrev Reaches : Bytes → Site G → Type 0
    Reaches old = Reached G L b named old

    stays-Reached : (old : Bytes) (w : Site G) → Tip (some old) w → Reaches old w
    stays-Reached old w e = (old, e, L.older_refl old)

    own_write-Reached :
        (u : Unicode) (env : Env) (i : Write) (old : Bytes) (w : Site G)
        → b ≡ target_branch i
        → Tip (some old) w
        → Reaches old (apply_write G u env i w).1
    own_write-Reached u env i old w q e = ended (Reaches old) (apply_write G u env i w) (
        (apply_write-Ensures G L b named (some old) (Tip (some old)) (Reaches old) (Reaches old)
            (Unit {0}) (stays-Reached old) (stays-Reached old)
            (λ _ _ e (new, tip, older). (new, e ∙ tip, older)) u env i (subst IsRef q named)
            (λ _ p _. (p, tt))
            (λ _ a m.
              subst
                (λ c.
                  Ensures (OnHead G L b named (some old) c) (commit_staged G c a m)
                    (λ _. Reaches old) (Reaches old))
                q
                (weaken (λ _ p. p) (λ _ _ (new, tip, older, _). (new, tip, older)) (λ _ x. x)
                  (own-Commits G L b named old a m)))).run
          w e)

    -- On a branch with a tip, no write and no publish goes back behind it.
    step-Reached :
        (u : Unicode) (s : Step) (old : Bytes) (w : Site G)
        → IsNamed s
        → b ≢ published
        → G.rev_parse w.repo b ≡ some old
        → Reached G L b named old (step u s w)
    unfolding step
    step-Reached u (publishing env i) old w ref ne e = (
      old,
      ended (Tip (some old)) (publish G env i w)
          ((publish-Tip G L b named (some old) ne env i).run w e),
      L.older_refl old,
    )
    step-Reached u (write env i) old w ref ne e = elim (Bool-cases (bytes_eq b (target_branch i))) [
      | inl h ↦ own_write-Reached u env i old w ((bytes_eq_iff b (target_branch i)).0 h) e
      | inr h ↦ (
        old,
        write-isolated u env i w ref (bytes_eq-false b (target_branch i) h) ∙ e,
        L.older_refl old,
      )
    ]

    pub run_all-Reached :
        (u : Unicode) (ss : List Step) (old : Bytes) (w : Site G)
        → All IsNamed ss
        → b ≢ published
        → Reaches old w
        → Reaches old (run_all u ss w)
    unfolding run_all
    run_all-Reached u [] old w refs ne r = r
    run_all-Reached u (s ∷ ss) old w refs ne (new, tip, older) =
        let (newer, tip', older') = step-Reached u s new w refs.0 ne tip in
        run_all-Reached u ss old (step u s w) refs.1 ne
          (newer, tip', L.older_trans old new newer older older')

    succeeded :
        {A : Type 0} (P X : Site G → Type 0) (r : Result RepoError A × Site G) (a : A)
        → r.0 ≡ ok a
        → Ends (λ _. P) X r
        → P r.1
    succeeded P X (ok x, w) a e p = p
    succeeded P X (err x, w) a e p = ground arith

    -- A write that succeeds had the tip of its branch as its base, and leaves a new commit on top of it.
    pub write-Grown :
        (u : Unicode) (env : Env) (i : Write) (ci : CommitInfo) (w : Site G)
        → b ≡ target_branch i
        → (apply_write G u env i w).0 ≡ ok ci
        → (G.rev_parse w.repo b ≡ some (base_of i))
          × Grown G L b named (base_of i) (apply_write G u env i w).1
    write-Grown u env i ci w q r =
        succeeded Ending (λ _. Unit {0}) (apply_write G u env i w) ci r
          ((apply_write-Ensures G L b named (some base) (Tip t) Ending (λ _. Unit {0})
              (t ≡ some base) (λ _ _. tt) (λ _ _. tt)
              (λ _ _ e (was, (new, tip, older, deeper)). (was, (new, e ∙ tip, older, deeper))) u env
              i (subst IsRef q named)
              (λ w e h. (
                subst (λ c. G.rev_parse w.repo c ≡ some base) (sym q) h,
                sym e ∙ subst (λ c. G.rev_parse w.repo c ≡ some base) (sym q) h,
              ))
              (λ fact a m.
                subst
                  (λ c.
                    Ensures (OnHead G L b named (some base) c) (commit_staged G c a m) (λ _. Ending)
                      (λ _. Unit {0}))
                  q
                  (weaken (λ _ p. p) (λ _ _ grown. (fact, grown)) (λ _ _. tt)
                    (own-Commits G L b named base a m)))).run
            w refl)
      where
        base : Bytes
        base = base_of i

        t : Option Bytes
        t = G.rev_parse w.repo b

        Ending : Site G → Type 0
        Ending w' = (t ≡ some base) × Grown G L b named base w'

    -- The optimistic lock. Once a write has succeeded on a branch, other than published, no later write
    -- of that branch with the same base succeeds, if nothing but writes to branches and publishes comes
    -- between the two. The names of the branches do not read as the hash of an object.
    pub no_lost_update :
        (u : Unicode) (env env' : Env) (i j : Write) (ci cj : CommitInfo) (ss : List Step)
        (w : Site G)
        → All IsNamed ss
        → b ≢ published
        → b ≡ target_branch i
        → b ≡ target_branch j
        → base_of j ≡ base_of i
        → (apply_write G u env i w).0 ≡ ok ci
        → (apply_write G u env' j (run_all u ss (apply_write G u env i w).1)).0 ≢ ok cj
    no_lost_update u env env' i j ci cj ss w refs ne q q' same first again =
        let (new, tip, older, deeper) = (write-Grown u env i ci w q first).1 in
        let (newer, tip', older') =
          run_all-Reached u ss new (apply_write G u env i w).1 refs ne
            (new, tip, L.older_refl new) in
        let at_base =
          (write-Grown u env' j cj (run_all u ss (apply_write G u env i w).1) q' again).0 in
        stale newer (sym tip' ∙ at_base ∙ ap some same) (L.depth_older new newer older') deeper
      where
        stale :
            {new : Bytes} (newer : Bytes)
            → some newer ≡ some (base_of i)
            → L.depth new ≤ L.depth newer
            → L.depth (base_of i) < L.depth new
            → ⊥
        stale {new = new} newer e le lt = grind arith
