-- ===== src/Repo/Bodies.antt =====
-- The four calls that commit, by what they do up to the commit and what the commit itself ensures.
use kotoji.Prelude.{length, take, Result, ok, err, ℕ, String, ◌≡◌, refl, ◌∙◌, Option, some, ◌++◌}
use kotoji.Action.{on_failure, Ends, then, Ensures, reads}
use kotoji.Auth.Lockout.{}
use kotoji.Repo.{
  not_found, RepoError, Site, Call, CommitInfo, or_default, commit_staged, Git, Actor,
}
use kotoji.Repo.Laws.{IsGit, IsRef}
use kotoji.Repo.Steps.{
  AtThere, OnHead, quiet_head, checkout_branch-Ensures, enforce_quota-Ensures, At,
}
use kotoji.Repo.Writes.{
  write_body, save_body, remove_file, delete_body, WriteFileInput, rollback_body,
}
use kotoji.Site.Paths.Walk.{IsOutside}
use kotoji.Text.{codes, Bytes}

module _ (G : Git) (L : IsGit G) (b : Bytes) (named : IsRef b) (t : Option Bytes) where
  abbrev Here : Site G → Type 0
  Here = At G L b named t

  abbrev Headed : Bytes → Site G → Type 0
  Headed = OnHead G L b named t

  abbrev There : Bytes → Site G → Type 0
  There = AtThere G L b named t

  -- The calls, by what they do up to the commit and what the commit itself ensures.
  module _ (Q : CommitInfo → Site G → Type 0) (X : Site G → Type 0)
      (rest : (w : Site G) → Here w → X w) where
    abbrev pub Commits : Bytes → Type 0
    Commits c = (a : Actor) (m : Bytes) → Ensures (Headed c) (commit_staged G c a m) Q X

    pub or_rest :
        {A : Type 0} {P : Site G → Type 0} {R : A → Site G → Type 0} {m : Call G A}
        → Ensures P m R Here
        → Ensures P m R X
    or_rest h = on_failure rest h

    pub read_step :
        {A : Type 0} {P : Site G → Type 0} {m : Call G A}
        → ((w : Site G) → P w → Here w)
        → ((w : Site G) → (m w).1 ≡ w)
        → Ensures P m (λ _. P) X
    read_step k e = on_failure (λ w p. rest w (k w p)) (reads e)

    pub write_body-Ensures :
        (quota : ℕ) (i : WriteFileInput)
        → IsOutside i.path
        → Commits i.branch
        → Ensures (There i.branch) (write_body G quota i) Q X
    write_body-Ensures quota i outside k =
        then (or_rest (checkout_branch-Ensures G L b named t i.branch)) λ _.
          then (on_failure (λ w p. rest w p.1) (enforce_quota-Ensures G quota (length i.content)))
            λ _.
              then
                (or_rest (
                  quiet_head G L b named t (G.write_blob i.path i.content)
                    (λ s. L.write_blob_quiet _ _ b s outside named)
                    (λ s. L.write_blob_head _ _ s outside)))
                λ _.
                  then
                    (or_rest (
                      quiet_head G L b named t (G.add i.path) (λ s. L.add_quiet _ b s named)
                        (L.add_head _)))
                    λ _. k i.actor (or_default i.message (codes "Update " ++ i.path))

    removed : (h path : Bytes) → Ensures (Headed h) (remove_file G path) (λ _. Headed h) Here
    removed h path = record {
      run = λ w (head, at).
          done w (G.remove path w.repo).0 (L.remove_head path w.repo ∙ head)
            (L.remove_quiet path b w.repo named ∙ at);
    }
      where
        done :
            (w : Site G) (r : Result String (Unit {0}))
            → G.head (G.remove path w.repo).1 ≡ some h
            → G.rev_parse (G.remove path w.repo).1 b ≡ t
            → Ends {E = RepoError}
                (λ _. Headed h)
                Here
                (
                  elim r [ ok a ↦ ok a | err e ↦ err not_found ],
                  record w { repo = (G.remove path w.repo).1 },
                )
        done w (ok a) head at = (head, at)
        done w (err e) head at = at

    pub delete_body-Ensures :
        (c path : Bytes) (a : Actor) → Commits c → Ensures (There c) (delete_body G c path a) Q X
    delete_body-Ensures c path a k =
        then (or_rest (checkout_branch-Ensures G L b named t c))
          λ _. then (or_rest (removed c path)) λ _. k a (codes "Delete " ++ path)

    pub save_body-Ensures :
        (c message : Bytes) (a : Actor)
        → Commits c
        → Ensures (There c) (save_body G c message a) Q X
    save_body-Ensures c message a k = then (or_rest (checkout_branch-Ensures G L b named t c)) λ _.
        then (read_step (λ _ p. p.1) (λ _. refl)) λ dirty.
          then (read_step (λ _ p. p.1) (λ _. refl)) λ _.
            then
              (or_rest (
                quiet_head G L b named t G.add_all (λ s. L.add_all_quiet b s named) L.add_all_head))
              λ _. k a (or_default message (codes "Save"))

    pub rollback_body-Ensures :
        (c to : Bytes) (a : Actor) → Commits c → Ensures (There c) (rollback_body G c to a) Q X
    rollback_body-Ensures c to a k = then (read_step (λ _ p. p.0) (λ _. refl)) λ target.
        then (read_step (λ _ p. p.0) (λ _. refl)) λ _.
          then (or_rest (checkout_branch-Ensures G L b named t c)) λ _.
            then
              (or_rest (
                quiet_head G L b named t (G.read_tree target) (λ s. L.read_tree_quiet _ b s named)
                  (L.read_tree_head _)))
              λ _.
                then
                  (or_rest (
                    quiet_head G L b named t G.checkout_index
                      (λ s. L.checkout_index_quiet b s named) L.checkout_index_head))
                  λ _.
                    then
                      (or_rest (
                        quiet_head G L b named t G.clean (λ s. L.clean_quiet b s named)
                          L.clean_head))
                      λ _. k a (codes "Rollback to " ++ take 7 target)
