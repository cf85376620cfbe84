-- ===== src/Repo/Imports.antt =====
-- What an import ensures of a branch that is there.
use kotoji.Prelude.{All, ok, ℕ, ◌≡◌, refl, ◌≢◌, inl, Bool, true, false, Option, some, List, []}
use kotoji.Action.{reads, on_failure, weaken, then, Ensures, given, checks, pure-Ensures}
use kotoji.Repo.{Env, Site, commit_staged, Actor, Git}
use kotoji.Repo.Bodies.{Commits}
use kotoji.Repo.Imported.{replace_worktree-Ensures, upload-Ensures}
use kotoji.Repo.Importing.{
  take_branch, import_message, ImportConfig, ImportInput, import_zip, import_body,
}
use kotoji.Repo.Laws.{IsGit, IsRef}
use kotoji.Repo.Locking.{require_site-same, Stable, settle-Ensures}
use kotoji.Repo.Steps.{
  asks-Ensures, enforce_quota-Ensures, checkout_branch-Ensures, OnHead, check_base_sha-Ensures,
  quiet_head, At,
}
use kotoji.Site.Paths.Walk.{IsOutside}
use kotoji.Text.{Bytes}
use kotoji.Zip.{ZipEntry, zip_entries_bytes}

module _ (G : Git) (L : IsGit G) (b : Bytes) (named : IsRef b) (t : Option Bytes) where
  abbrev Here : Site G → Type 0
  Here = At G L b named t

  -- What is done once a branch is taken, on a HEAD that need not be the branch of the import.
  module _ (Q X : Site G → Type 0) (at : (w : Site G) → Here w → X w) (i : ImportInput)
      (h : Bytes) where
    pub import_body-Ensures :
        (quota : ℕ) (zs : List ZipEntry)
        → All (λ z. IsOutside z.path) zs
        → ((a : Actor) (m : Bytes)
            → Ensures (OnHead G L b named t h) (commit_staged G i.branch a m) (λ _. Q) X)
        → Ensures (OnHead G L b named t h) (import_body G quota i zs) (λ _. Q) X
    import_body-Ensures quota zs out k =
        then (on_failure (λ w p. at w p.1) (enforce_quota-Ensures G quota (zip_entries_bytes zs)))
          λ _. then (on_failure at (replace_worktree-Ensures G L b named t h zs out)) λ _.
            then
              (on_failure at (
                quiet_head G L b named t G.add_all (λ s. L.add_all_quiet b s named) L.add_all_head))
              λ _. then (on_failure (λ w p. at w p.1) (reads (λ _. refl))) λ dirty.
                then (on_failure (λ w p. at w p.1) (reads (λ _. refl)))
                  λ _. k i.actor (import_message i.archive.filename)

  -- An import ensures what its commit does, if the branch that is taken is there, and the commit finds
  -- the branch at the tip `t`, and the fact `K` that the check of the base has shown.
  module _ (P Q X : Site G → Type 0) (K : Type 0) (rest : (w : Site G) → P w → X w)
      (at : (w : Site G) → Here w → X w) (stable : Stable G L b named Q) (i : ImportInput)
      (there : (w : Site G) → P w → G.show_ref w.repo i.branch ≢ ok false)
      (based : (w : Site G)
        → P w
        → G.rev_parse w.repo i.branch ≡ some i.base_sha
        → Here w × K) where
    abbrev Taken : Site G → Type 0
    Taken w = OnHead G L b named t i.branch w × K

    take_branch-Ensures :
        (exists : Bool)
        → Ensures
            (λ w. P w × (G.show_ref w.repo i.branch ≡ ok exists))
            (take_branch G i.branch i.base_sha exists)
            (λ _. Taken)
            X
    unfolding take_branch
    take_branch-Ensures false = record { run = λ w (p, e). absurd (there w p e) }
    take_branch-Ensures true = then (on_failure (λ w p. rest w p.0) (checks _)) λ _.
        then
          (weaken (λ w p. p)
            (λ _ w ((p, listed), e). let (now, fact) = based w p e in ((now, inl listed), fact))
            (λ w p. rest w p.0)
            (check_base_sha-Ensures G (λ w. P w × (G.show_ref w.repo i.branch ≡ ok true)) i.branch
              i.base_sha []))
          λ _. given (λ fact.
            weaken (λ _ p. p) (λ _ _ p. (p, fact)) at
              (checkout_branch-Ensures G L b named t i.branch))

    pub import_zip-Ensures :
        (cfg : ImportConfig) (env : Env)
        → (K → Commits G L b named t (λ _. Q) X at i.branch)
        → Ensures P (import_zip G cfg env i) (λ _. Q) X
    unfolding import_zip
    import_zip-Ensures cfg env k = then (on_failure rest (checks _)) λ _.
        then (on_failure rest (upload-Ensures G P cfg i.archive)) λ zs. given λ out.
          then (on_failure rest (reads (require_site-same G L b named env))) λ _.
            then (on_failure rest (asks-Ensures G P (λ s. G.show_ref s i.branch))) λ exists.
              then (take_branch-Ensures exists) λ _. given λ fact.
                then (import_body-Ensures Q X at i i.branch cfg.site_quota zs out (k fact)) λ ci.
                  then (record { run = λ w. stable w _ (L.gc_quiet b w.repo named) })
                    λ _. then (settle-Ensures G L b named i.branch stable) λ _. pure-Ensures
