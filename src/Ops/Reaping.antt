-- ===== src/Ops/Reaping.antt =====
-- What a pass of the reaper may do to a site, whatever fails on the way.
use kotoji.Prelude.{
  Result, ok, err, ℕ, String, ◌≡◌, refl, ◌∙◌, ◌≢◌, ◌⊎◌, inl, inr, Bool, true, false, Option, none,
  some, arith,
}
use kotoji.Action.{◌>>=◌, checks, Ensures, check_none, Action, Ends, then}
use kotoji.Ops.{on_host, bundle, Config, configured, reap_one, Pass, Host, reap_existing}
use kotoji.Ops.Laws.{IsHost}
use kotoji.Text.{Bytes}

module _ (H : Host) where
  on_host-cases :
      (Q X : Pass H → Type 0) (c : Action H.State String (Unit {0})) (p : Pass H)
      → ((c p.host).0 ≡ ok tt → Q (record p { host = (c p.host).1 }))
      → ((e : String) → (c p.host).0 ≡ err e → X (record p { host = (c p.host).1 }))
      → Ends (λ _. Q) X (on_host H c p)
  on_host-cases Q X c p h k = decided (c p.host).0 h k
    where
      decided :
          (r : Result String (Unit {0}))
          → (r ≡ ok tt → Q (record p { host = (c p.host).1 }))
          → ((e : String) → r ≡ err e → X (record p { host = (c p.host).1 }))
          → Ends {E = String} (λ _. Q) X (r, record p { host = (c p.host).1 })
      decided (ok a) h k = h refl
      decided (err e) h k = k e refl

  exists-cases :
      (Q X : Pass H → Type 0) (cfg : Config) (i : Bytes) (p : Pass H)
      → ((e : String) → H.exists p.host i ≡ err e → X p)
      → ((b : Bool) → H.exists p.host i ≡ ok b → Ends (λ _. Q) X (reap_existing H cfg i b p))
      → Ends (λ _. Q) X (reap_one H cfg i p)
  unfolding reap_one ◌>>=◌
  exists-cases Q X cfg i p h k = decided (H.exists p.host i) h k
    where
      decided :
          (r : Result String Bool)
          → ((e : String) → r ≡ err e → X p)
          → ((b : Bool) → r ≡ ok b → Ends (λ _. Q) X (reap_existing H cfg i b p))
          → Ends {E = String} {A = Unit {0}}
              (λ _. Q)
              X
              (elim r [ ok a ↦ reap_existing H cfg i a p | err e ↦ (err e, p) ])
      decided (ok b) h k = k b refl
      decided (err e) h k = h e refl

  module _ (L : IsHost H) (id : Bytes) where
    open L use {row, repo}

    -- The site's row and whether its repository is there.
    abbrev pub Same : Option (Option ℕ) → Bool → Pass H → Type 0
    Same r d p = (row p.host id ≡ r) × (repo p.host id ≡ d)

    -- The row is there, or the repository is gone.
    abbrev pub NoOrphan : H.State → Type 0
    NoOrphan s = ((x : Option ℕ) × (row s id ≡ some x)) ⊎ (repo s id ≡ false)

    -- Neither the row nor the repository is left.
    abbrev pub IsPurged : H.State → Type 0
    IsPurged s = (row s id ≡ none) × (repo s id ≡ false)

    abbrev pub Safe : Pass H → Type 0
    Safe p = NoOrphan p.host

    abbrev pub Purged : Pass H → Type 0
    Purged p = IsPurged p.host

    pub others-Same :
        (cfg : Config) (i : Bytes) (r : Option (Option ℕ)) (d : Bool)
        → id ≢ i
        → Ensures (Same r d) (reap_one H cfg i) (λ _. Same r d) (Same r d)
    unfolding bundle
    others-Same cfg i r d ne = record {
      run =
          λ p at. exists-cases (Same r d) (Same r d) cfg i p (λ _ _. at) (λ b _. (rest b).run p at);
    }
      where
        removed : Ensures (Same r d) (on_host H (H.hard_delete i)) (λ _. Same r d) (Same r d)
        removed = record {
          run = λ p (x, y).
              on_host-cases (Same r d) (Same r d) (H.hard_delete i) p
                (λ _. (L.delete_others p.host i id ne ∙ x, L.delete_repo p.host i id ∙ y))
                (λ _ _. (L.delete_others p.host i id ne ∙ x, L.delete_repo p.host i id ∙ y));
        }

        rest : (b : Bool) → Ensures (Same r d) (reap_existing H cfg i b) (λ _. Same r d) (Same r d)
        rest false = then removed λ _. record { run = λ p at. at }
        rest true =
            then {Q = λ _. Same r d}
              (then (checks _) λ _.
                then
                  (record {
                    run = λ p (x, y).
                        on_host-cases (Same r d) (Same r d) (H.mkdir_backup i) p
                          (λ _. (L.mkdir_row p.host i id ∙ x, L.mkdir_repo p.host i id ∙ y))
                          (λ _ _. (L.mkdir_row p.host i id ∙ x, L.mkdir_repo p.host i id ∙ y));
                  })
                  λ _. record {
                    run = λ p (x, y). (
                      L.bundle_row p.host i (H.now p.host) id ∙ x,
                      L.bundle_repo p.host i (H.now p.host) id ∙ y,
                    );
                  })
              λ _.
                then
                  (record {
                    run = λ p (x, y).
                        on_host-cases (Same r d) (Same r d) (H.remove_all i) p
                          (λ _. (L.remove_row p.host i id ∙ x, L.remove_others p.host i id ne ∙ y))
                          (λ _ _.
                            (L.remove_row p.host i id ∙ x, L.remove_others p.host i id ne ∙ y));
                  })
                  λ _. then removed λ _.
                    then {Q = λ _. Same r d} (record { run = λ p at. at })
                      λ _. record {
                        run =
                            λ p (x, y). (L.audit_row p.host i id ∙ x, L.audit_repo p.host i id ∙ y);
                      }

    abbrev pub Gone : Pass H → Type 0
    Gone p = repo p.host id ≡ false

    abbrev HasRow : Pass H → Type 0
    HasRow p = (x : Option ℕ) × (row p.host id ≡ some x)

    -- What a failure leaves, which is `Safe` or, where the calls do not fail, nothing.
    module _ (X : Pass H → Type 0) (cfg : Config)
        (stat_failed : (p : Pass H) (e : String) → Safe p → H.exists p.host id ≡ err e → X p)
        (unconfigured : (p : Pass H) (e : String)
          → Safe p
          → configured H cfg.backup_dir ≡ some e
          → X p)
        (mkdir_failed : (p : Pass H) (e : String)
          → Safe (record p { host = (H.mkdir_backup id p.host).1 })
          → (H.mkdir_backup id p.host).0 ≡ err e
          → X (record p { host = (H.mkdir_backup id p.host).1 }))
        (remove_failed : (p : Pass H) (e : String)
          → Safe (record p { host = (H.remove_all id p.host).1 })
          → (H.remove_all id p.host).0 ≡ err e
          → X (record p { host = (H.remove_all id p.host).1 }))
        (delete_failed : (p : Pass H) (e : String)
          → Safe (record p { host = (H.hard_delete id p.host).1 })
          → (H.hard_delete id p.host).0 ≡ err e
          → X (record p { host = (H.hard_delete id p.host).1 })) where
      purged : Ensures Gone (on_host H (H.hard_delete id)) (λ _. Purged) X
      purged = record {
        run = λ p gone.
            on_host-cases Purged X (H.hard_delete id) p
              (λ k. (L.delete_gone p.host id k, L.delete_repo p.host id id ∙ gone))
              (λ e k. delete_failed p e (inr (L.delete_repo p.host id id ∙ gone)) k);
      }

      cfg-checked : Ensures HasRow (check_none (configured H cfg.backup_dir)) (λ _. HasRow) X
      cfg-checked = record { run = λ p has. decided (configured H cfg.backup_dir) p refl has }
        where
          decided :
              (c : Option String) (p : Pass H)
              → configured H cfg.backup_dir ≡ c
              → HasRow p
              → Ends (λ _. HasRow) X (check_none c p)
          decided none p k has = has
          decided (some e) p k has = unconfigured p e (inl has) k

      pub own : Ensures Safe (reap_one H cfg id) (λ _. Purged) X
      unfolding bundle
      own = record {
        run = λ p safe.
            exists-cases Purged X cfg id p (λ e k. stat_failed p e safe k)
              (λ b k. rest b p safe (L.exists_repo p.host id b k));
      }
        where
          existing : Ensures HasRow (reap_existing H cfg id true) (λ _. Purged) X
          existing =
              then {Q = λ _. HasRow}
                (then cfg-checked λ _.
                  then
                    (record {
                      run = λ p (x, has).
                          on_host-cases HasRow X (H.mkdir_backup id) p
                            (λ _. (x, L.mkdir_row p.host id id ∙ has))
                            (λ e k. mkdir_failed p e (inl (x, L.mkdir_row p.host id id ∙ has)) k);
                    })
                    λ _. record {
                      run = λ p (x, has). (x, L.bundle_row p.host id (H.now p.host) id ∙ has);
                    })
                λ _.
                  then
                    (record {
                      run = λ p (x, has).
                          on_host-cases Gone X (H.remove_all id) p (λ k. L.remove_gone p.host id k)
                            (λ e k. remove_failed p e (inl (x, L.remove_row p.host id id ∙ has)) k);
                    })
                    λ _. then purged λ _.
                      then {Q = λ _. Purged} (record { run = λ p q. q })
                        λ _. record {
                          run = λ p (x, y).
                              (L.audit_row p.host id id ∙ x, L.audit_repo p.host id id ∙ y);
                        }

          purging : Ensures Gone (reap_existing H cfg id false) (λ _. Purged) X
          purging = then purged λ _. record { run = λ p q. q }

          has_row : (p : Pass H) → Safe p → repo p.host id ≡ true → HasRow p
          has_row p (inl has) k = has
          has_row p (inr gone) k = ground arith

          rest :
              (b : Bool) (p : Pass H)
              → Safe p
              → repo p.host id ≡ b
              → Ends (λ _. Purged) X (reap_existing H cfg id b p)
          rest true p safe k = existing.run p (has_row p safe k)
          rest false p safe k = purging.run p k
