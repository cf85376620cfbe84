-- ===== src/Repo/Replacing.antt =====
-- `ImportZip` and the branches: its own, the others, and one that is not there.
use kotoji.Prelude.{
  Result, ok, err, String, ◌≡◌, refl, sym, ◌∙◌, ◌≢◌, ◌⊎◌, inl, inr, Bool, true, false, Option, none,
  some, List, arith,
}
use kotoji.Action.{Ends, checks, on_failure, Ensures, given, check_none, gets, reads, then, weaken}
use kotoji.Auth.Lockout.{}
use kotoji.Repo.{
  CommitInfo, Env, refuse_protected_branch, commit_staged, Site, Git, Actor, RepoError,
}
use kotoji.Repo.Imported.{upload-Ensures}
use kotoji.Repo.Importing.{take_branch, ImportConfig, ImportInput, or_refused, import_zip}
use kotoji.Repo.Imports.{import_body-Ensures, import_zip-Ensures}
use kotoji.Repo.Laws.{IsRef, IsGit}
use kotoji.Repo.Locking.{require_site-same, own-Commits, others-Commits, Grown}
use kotoji.Repo.Steps.{rev_parse-Ensures, git-cases, asks-Ensures, OnHead, At}
use kotoji.Resolve.{published}
use kotoji.Text.{Bytes}
use kotoji.Text.Laws.{bytes_eq_refl}
use kotoji.Zip.{ZipEntry, ZipError, read_archive}

differ : {r : Result String Bool} → r ≡ ok true → r ≢ ok false
differ e k = ground arith

module _ (G : Git) (L : IsGit G) where
  ended :
      {A : Type 0} (P : Site G → Type 0) (r : Result RepoError A × Site G)
      → Ends (λ _. P) P r
      → P r.1
  ended P (ok a, w) p = p
  ended P (err e, w) p = p

  succeeded :
      {A : Type 0} (P X : Site G → Type 0) (r : Result RepoError A × Site G) (a : A)
      → r.0 ≡ ok a
      → Ends (λ _. P) X r
      → P r.1
  succeeded P X (ok x, w) a e p = p
  succeeded P X (err x, w) a e p = ground arith

  -- An import into a branch that is there leaves every other branch, whose name is of the grammar and
  -- does not read as the hash of an object, where it is, whether it succeeds or not: what it removes
  -- and writes is never in the repository's own directory.
  pub import_zip-isolated :
      (b : Bytes) (cfg : ImportConfig) (env : Env) (i : ImportInput) (w : Site G)
      → IsRef b
      → b ≢ i.branch
      → G.show_ref w.repo i.branch ≡ ok true
      → G.rev_parse (import_zip G cfg env i w).1.repo b ≡ G.rev_parse w.repo b
  import_zip-isolated b cfg env i w named ne shown = ended Tip (import_zip G cfg env i w) (
      (import_zip-Ensures G L b named t P Tip Tip (Unit {0}) (λ _ p. p.0) (λ _ p. p)
          (λ _ _ e p. e ∙ p) i (λ w' p q. differ p.1 q) (λ _ p _. (p.0, tt)) cfg env
          (λ _. others-Commits G L b named t i.branch ne)).run
        w (refl, shown))
    where
      t : Option Bytes
      t = G.rev_parse w.repo b

      Tip : Site G → Type 0
      Tip = At G L b named t

      P : Site G → Type 0
      P w' = Tip w' × (G.show_ref w'.repo i.branch ≡ ok true)

  -- An import that succeeds on a branch with a tip, whose name is of the grammar and does not read as
  -- the hash of an object, had that tip as its base, and leaves a new commit on top of it.
  pub import_zip-Grown :
      (cfg : ImportConfig) (env : Env) (i : ImportInput) (old : Bytes) (ci : CommitInfo)
      (w : Site G) (named : IsRef i.branch)
      → G.rev_parse w.repo i.branch ≡ some old
      → (import_zip G cfg env i w).0 ≡ ok ci
      → (old ≡ i.base_sha) × Grown G L i.branch named old (import_zip G cfg env i w).1
  import_zip-Grown cfg env i old ci w named tip imported =
      succeeded Ending (λ _. Unit {0}) (import_zip G cfg env i w) ci imported
        ((import_zip-Ensures G L i.branch named (some old) (At G L i.branch named (some old)) Ending
            (λ _. Unit {0}) (old ≡ i.base_sha) (λ _ _. tt) (λ _ _. tt)
            (λ _ _ e (was, (new, p, older, deeper)). (was, (new, e ∙ p, older, deeper))) i
            (λ w' p q. gone (sym (L.show_ref_absent i.branch w'.repo q named) ∙ p))
            (λ w' p q. (p, same (sym p ∙ q))) cfg env
            (λ fact a m.
              weaken (λ _ p. p) (λ _ _ grown. (fact, grown)) (λ _ _. tt)
                (own-Commits G L i.branch named old a m))).run
          w tip)
    where
      Ending : Site G → Type 0
      Ending w' = (old ≡ i.base_sha) × Grown G L i.branch named old w'

      gone : none ≢ some old
      gone e = ground arith

      same : {x : Bytes} → some old ≡ some x → old ≡ x
      same e = ground arith

  module _ (i : ImportInput) (h : Bytes) (named : IsRef i.branch) (ne : i.branch ≢ h) where
    abbrev Away : Site G → Type 0
    Away = OnHead G L i.branch named none h

    -- The commit goes to the branch of HEAD, and the branch of the import is still not there.
    commit-Away :
        (a : Actor) (m : Bytes)
        → Ensures Away (commit_staged G i.branch a m) (λ _ _. ⊥) (λ _. Unit {0})
    unfolding commit_staged
    commit-Away a m =
        then {Q = λ _. At G L i.branch named none}
          (record {
            run = λ w (head, at).
                git-cases G (G.commit a m) (λ _. At G L i.branch named none) (λ _. Unit {0}) w
                  (λ _ _. L.commit_others a m h i.branch w.repo head named ne ∙ at) (λ _ _. tt);
          })
          λ _.
            then (on_failure (λ _ _. tt) (rev_parse-Ensures G _ i.branch))
              λ tip. record { run = λ w (p, e). absurd (gone (sym p ∙ e)) }
      where
        gone : {x : Bytes} → none ≢ some x
        gone e = ground arith

    take_branch-Away :
        (exists : Bool)
        → Ensures
            (λ w.
              (Away w × (G.show_ref w.repo i.branch ≡ ok false))
              × (G.show_ref w.repo i.branch ≡ ok exists))
            (take_branch G i.branch i.base_sha exists)
            (λ _. Away)
            (λ _. Unit {0})
    unfolding take_branch
    take_branch-Away false = record { run = λ w p. p.0.0 }
    take_branch-Away true = record { run = λ w p. absurd (differ p.1 p.0.1) }

    import_zip-Away :
        (cfg : ImportConfig) (env : Env)
        → Ensures
            (λ w. Away w × (G.show_ref w.repo i.branch ≡ ok false))
            (import_zip G cfg env i)
            (λ _ _. ⊥)
            (λ _. Unit {0})
    unfolding import_zip
    import_zip-Away cfg env = then (on_failure (λ _ _. tt) (checks _)) λ _.
        then (on_failure (λ _ _. tt) (upload-Ensures G _ cfg i.archive)) λ zs. given λ out.
          then (on_failure (λ _ _. tt) (reads (require_site-same G L i.branch named env))) λ _.
            then (on_failure (λ _ _. tt) (asks-Ensures G _ (λ s. G.show_ref s i.branch))) λ exists.
              then (take_branch-Away exists) λ _.
                then
                  (import_body-Ensures G L i.branch named none (λ _. ⊥) (λ _. Unit {0}) (λ _ _. tt)
                    i h cfg.site_quota zs out commit-Away)
                  λ ci. record { run = λ w p. absurd p }

  -- An import into a branch that is not there, while another branch is checked out, never succeeds, if
  -- the name is of the grammar of branches and does not read as the hash of an object.
  pub import_zip-absent :
      (cfg : ImportConfig) (env : Env) (i : ImportInput) (h : Bytes) (ci : CommitInfo) (w : Site G)
      → IsRef i.branch
      → G.head w.repo ≡ some h
      → i.branch ≢ h
      → G.show_ref w.repo i.branch ≡ ok false
      → (import_zip G cfg env i w).0 ≢ ok ci
  import_zip-absent cfg env i h ci w named head ne shown imported =
      succeeded (λ _. ⊥) (λ _. Unit {0}) (import_zip G cfg env i w) ci imported
        ((import_zip-Away i h named ne cfg env).run w
          ((head, L.show_ref_absent i.branch w.repo shown named), shown))

  module _ (cfg : ImportConfig) (env : Env) (i : ImportInput) (w : Site G) where
    -- What is refused before the lock is taken.
    abbrev pub IsRefused : Type 0
    IsRefused =
        (i.branch ≡ published)
        ⊎ ((e : ZipError) × (read_archive cfg.folding cfg.zip i.archive ≡ err e))

    abbrev Same : Site G → Type 0
    Same w' = w' ≡ w

    unread :
        (r : Result ZipError (List ZipEntry)) (e : ZipError)
        → r ≡ err e
        → Ensures Same (gets (λ _. or_refused r)) (λ _ _. ⊥) Same
    unread (ok zs) e q = absurd (ground arith)
    unread (err x) e q = record { run = λ w' p. p }

    protected :
        (b : Bytes)
        → b ≡ published
        → Ensures Same (check_none (refuse_protected_branch b)) (λ _ _. ⊥) Same
    protected b q = record { run = λ w' p. rw (q, bytes_eq_refl published) p }

    refused : IsRefused → Ensures Same (import_zip G cfg env i) (λ _ _. ⊥) Same
    unfolding import_zip
    refused (inl q) = then (protected i.branch q) λ _. record { run = λ w' p. absurd p }
    refused (inr (e, q)) = then (checks _) λ _.
        then (unread (read_archive cfg.folding cfg.zip i.archive) e q)
          λ _. record { run = λ w' p. absurd p }

    -- An import into the published branch, or of an archive that is not accepted, fails and changes
    -- nothing: the checks on all entries come before anything is written.
    pub import_zip-refused :
        IsRefused
        → ((ci : CommitInfo) → (import_zip G cfg env i w).0 ≢ ok ci)
          × ((import_zip G cfg env i w).1 ≡ w)
    import_zip-refused h = fails (import_zip G cfg env i w) ((refused h).run w refl)
      where
        fails :
            (r : Result RepoError CommitInfo × Site G)
            → Ends (λ _ _. ⊥) Same r
            → ((ci : CommitInfo) → r.0 ≢ ok ci) × (r.1 ≡ w)
        fails (ok x, w') p = absurd p
        fails (err e, w') p = (λ ci k. ground arith, p)
