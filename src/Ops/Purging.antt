-- ===== src/Ops/Purging.antt =====
-- A pass of the reaper gets through.
use kotoji.Prelude.{
  if◌then◌else◌, Bool-cases, All, Result, ok, err, ℕ, ◌-◌, ◌<◌, String, ◌≡◌, sym, ap, ◌∙◌, subst,
  ◌≢◌, inl, inr, Bool, true, false, none, some, List, [], ◌∷◌, map, arith,
}
use kotoji.Action.{weaken, Ends, Ensures}
use kotoji.Ops.{
  SoftDeletedSite, Config, Pass, reap_listed, Host, reap_all, collect, no_result, reap, reap_one,
}
use kotoji.Ops.Laws.{IsHost}
use kotoji.Ops.Reaping.{Purged, IsPurged, others-Same, Safe, NoOrphan, own}
use kotoji.Ops.Safety.{reap_all-kept, one-Safe, ended, collected, All-every}
use kotoji.Text.{bytes_eq, Bytes, mem, is_empty}
use kotoji.Text.Laws.{bytes_eq-false, bytes_eq_iff}

-- The calls for this site succeed, and the passes are not cancelled.
pub record IsHealthy (H : Host) (id : Bytes) : Type 0 where
  pub never_cancelled : (s : H.State) → H.cancelled s ≡ false
  pub stats : (s : H.State) → (b : Bool) × (H.exists s id ≡ ok b)
  pub makes : (s : H.State) → (H.mkdir_backup id s).0 ≡ ok tt
  pub removes : (s : H.State) → (H.remove_all id s).0 ≡ ok tt
  pub deletes : (s : H.State) → (H.hard_delete id s).0 ≡ ok tt

module _ (H : Host) (L : IsHost H) (id : Bytes) (healthy : IsHealthy H id) (cfg : Config)
    (set : is_empty cfg.backup_dir ≡ false) where
  not-err : {A : Type 0} (r : Result String A) (a : A) (e : String) → r ≡ ok a → r ≢ err e
  not-err r a e h k = ground arith

  own-Purged : Ensures (Safe H L id) (reap_one H cfg id) (λ _. Purged H L id) (Purged H L id)
  own-Purged =
      own H L id (Purged H L id) cfg
        (λ p e _ k. elim (not-err _ (healthy.stats p.host).0 e (healthy.stats p.host).1 k) [ ])
        (λ p e _ k. ground arith) (λ p e _ k. elim (not-err _ tt e (healthy.makes p.host) k) [ ])
        (λ p e _ k. elim (not-err _ tt e (healthy.removes p.host) k) [ ])
        (λ p e _ k. elim (not-err _ tt e (healthy.deletes p.host) k) [ ])

  one-Purged :
      (s : SoftDeletedSite)
      → Ensures (Purged H L id) (reap_one H cfg s.id) (λ _. Purged H L id) (Purged H L id)
  one-Purged s = elim (Bool-cases (bytes_eq id s.id)) [
    | inl h ↦
        subst (λ i. Ensures (Purged H L id) (reap_one H cfg i) (λ _. Purged H L id) (Purged H L id))
          ((bytes_eq_iff id s.id).0 h) (weaken (λ _ p. inr p.1) (λ _ _ q. q) (λ _ x. x) own-Purged)
    | inr h ↦ others-Same H L id cfg s.id none false (bytes_eq-false id s.id h)
  ]

  mem-tail :
      (x : SoftDeletedSite) (ss : List SoftDeletedSite)
      → mem id (map (λ s. s.id) (x ∷ ss)) ≡ true
      → bytes_eq id x.id ≡ false
      → mem id (map (λ s. s.id) ss) ≡ true
  unfolding mem
  mem-tail x ss m h = ground arith

  reaches :
      (ss : List SoftDeletedSite) (p : Pass H)
      → mem id (map (λ s. s.id) ss) ≡ true
      → Safe H L id p
      → Purged H L id (reap_all H cfg ss p).1
  unfolding reap_all mem
  reaches [] p m safe = ground arith
  reaches (s ∷ ss) p m safe =
      subst
        (λ c.
          Purged H L id
            (if c
              then (err "context canceled", p)
              else reap_all H cfg ss (collect H s (reap_one H cfg s.id p))).1)
        (sym (healthy.never_cancelled p.host))
        (next (reaches ss (collect H s (reap_one H cfg s.id p))))
    where
      rest : Result String (Unit {0}) × Pass H
      rest = reap_all H cfg ss (collect H s (reap_one H cfg s.id p))

      next :
          (mem id (map (λ s. s.id) ss) ≡ true
            → Safe H L id (collect H s (reap_one H cfg s.id p))
            → Purged H L id rest.1)
          → Purged H L id rest.1
      next later = elim (Bool-cases (bytes_eq id s.id)) [
        | inl h ↦ ended H L id (Purged H L id) rest (
            (reap_all-kept H L id (Purged H L id) cfg ss (λ _ _ at. at)
                (All-every H L id _ ss one-Purged)).run
              _
              (collected H L id (Purged H L id) (λ _ _ at. at) s (reap_one H cfg s.id p)
                (subst (λ i. Ends (λ _. Purged H L id) (Purged H L id) (reap_one H cfg i p))
                  ((bytes_eq_iff id s.id).0 h) (own-Purged.run p safe))))
        | inr h ↦ later (mem-tail s ss m h) (
            collected H L id (Safe H L id) (λ _ _ at. at) s (reap_one H cfg s.id p)
              ((one-Safe H L id cfg s).run p safe))
      ]

  -- The reaper gets through: a site that the store lists has neither row nor repository after the pass,
  -- if a backup directory is configured, the pass is not cancelled, and the calls for this site succeed
  -- whenever they are made, whatever happens to the other sites.
  pub reap_purges :
      (s : H.State) (ss : List SoftDeletedSite)
      → H.list_past_grace s (H.now s - cfg.grace) ≡ ok ss
      → mem id (map (λ x. x.id) ss) ≡ true
      → IsPurged H L id (reap H cfg s).1.host
  unfolding reap mem
  reap_purges s ss e m =
      subst
        (λ l. IsPurged H L id (reap_listed H cfg l (record { host = s; res = no_result })).1.host)
        (sym e)
        (reaches ss (record { host = s; res = no_result }) m
          (listed_row ss m (L.listed s (H.now s - cfg.grace) ss e)))
    where
      listed_row :
          (ss : List SoftDeletedSite)
          → mem id (map (λ x. x.id) ss) ≡ true
          → All (λ x. (d : ℕ) × (L.row s x.id ≡ some (some d)) × (d < H.now s - cfg.grace)) ss
          → NoOrphan H L id s
      listed_row [] m ls = ground arith
      listed_row (x ∷ ss) m ((d, e, lt), ls) = elim (Bool-cases (bytes_eq id x.id)) [
        | inl h ↦ inl (some d, ap (L.row s) ((bytes_eq_iff id x.id).0 h) ∙ e)
        | inr h ↦ listed_row ss (mem-tail x ss m h) ls
      ]
