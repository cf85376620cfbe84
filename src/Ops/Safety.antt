-- ===== src/Ops/Safety.antt =====
-- What a pass of the reaper keeps, whatever fails.
use kotoji.Prelude.{
  if◌then◌else◌, Bool-cases, All, Result, ok, err, ℕ, ◌-◌, ◌≤◌, ◌<◌, String, ◌≡◌, refl, ap, ◌∙◌,
  subst, ◌≢◌, inl, inr, Bool, true, false, some, List, [], ◌∷◌, arith,
}
use kotoji.Action.{Ends, Ensures, weaken}
use kotoji.Ops.{
  no_result, Host, SoftDeletedSite, reap_all, reap_one, collect, Config, reap, Pass, reap_listed,
  ReapResult,
}
use kotoji.Ops.Laws.{IsHost}
use kotoji.Ops.Reaping.{Safe, own, Same, others-Same, NoOrphan}
use kotoji.Text.{bytes_eq, Bytes}
use kotoji.Text.Laws.{bytes_eq-false, bytes_eq_iff}

module _ (H : Host) (L : IsHost H) (id : Bytes) where
  open L use {row, repo}

  pub collected :
      (P : Pass H → Type 0)
      → ((p : Pass H) (res : ReapResult) → P p → P (record p { res = res }))
      → (s : SoftDeletedSite) (r : Result String (Unit {0}) × Pass H) → Ends (λ _. P) P r
      → P (collect H s r)
  collected P res s (ok a, p) at = at
  collected P res s (err e, p) at = res p _ at

  pub ended :
      (P : Pass H → Type 0) (r : Result String (Unit {0}) × Pass H) → Ends (λ _. P) P r → P r.1
  ended P (ok a, p) at = at
  ended P (err e, p) at = at

  pub All-every : {A : Type 0} (P : A → Type 0) (xs : List A) → ((x : A) → P x) → All P xs
  All-every P [] k = tt
  All-every P (x ∷ xs) k = (k x, All-every P xs k)

  -- A property that every site of the list keeps, the pass keeps.
  pub reap_all-kept :
      (P : Pass H → Type 0) (cfg : Config) (ss : List SoftDeletedSite)
      → ((p : Pass H) (res : ReapResult) → P p → P (record p { res = res }))
      → All (λ s. Ensures P (reap_one H cfg s.id) (λ _. P) P) ss
      → Ensures P (reap_all H cfg ss) (λ _. P) P
  unfolding reap_all
  reap_all-kept P cfg [] res ks = record { run = λ p at. at }
  reap_all-kept P cfg (s ∷ ss) res (k, ks) = record {
    run = λ p at. step p at (H.cancelled p.host) _ (
        (reap_all-kept P cfg ss res ks).run _
          (collected P res s (reap_one H cfg s.id p) (k.run p at)));
  }
    where
      step :
          (p : Pass H)
          → P p
          → (c : Bool) (rest : Result String (Unit {0}) × Pass H) → Ends (λ _. P) P rest
          → Ends (λ _. P) P (if c then (err "context canceled", p) else rest)
      step p at true rest next = at
      step p at false rest next = next

  pub one-Safe :
      (cfg : Config) (s : SoftDeletedSite)
      → Ensures (Safe H L id) (reap_one H cfg s.id) (λ _. Safe H L id) (Safe H L id)
  one-Safe cfg s = elim (Bool-cases (bytes_eq id s.id)) [
    | inl h ↦
        subst (λ i. Ensures (Safe H L id) (reap_one H cfg i) (λ _. Safe H L id) (Safe H L id))
          ((bytes_eq_iff id s.id).0 h)
          (weaken (λ _ p. p) (λ _ _ q. inr q.1) (λ _ x. x)
            (own H L id (Safe H L id) cfg (λ _ _ safe _. safe) (λ _ _ safe _. safe)
              (λ _ _ safe _. safe) (λ _ _ safe _. safe) (λ _ _ safe _. safe)))
    | inr h ↦ record {
      run = λ p safe.
          (weaken (λ _ q. q) (λ _ p' at. kept p p' safe at) (λ p' at. kept p p' safe at)
              (others-Same H L id cfg s.id (row p.host id) (repo p.host id)
                (bytes_eq-false id s.id h))).run
            p (refl, refl);
    }
  ]
    where
      kept :
          (p p' : Pass H)
          → Safe H L id p
          → Same H L id (row p.host id) (repo p.host id) p'
          → Safe H L id p'
      kept p p' (inl (x, e)) at = inl (x, at.0 ∙ e)
      kept p p' (inr gone) at = inr (at.1 ∙ gone)

  -- A pass of the reaper never leaves a repository whose row is gone, whatever call fails and when:
  -- if a site has its row or no repository before the pass, it has its row or no repository after it.
  pub reap_safe :
      (cfg : Config) (s : H.State) → NoOrphan H L id s → NoOrphan H L id (reap H cfg s).1.host
  unfolding reap
  reap_safe cfg s safe = go (H.list_past_grace s (H.now s - cfg.grace))
    where
      go :
          (l : Result String (List SoftDeletedSite))
          → NoOrphan H L id (reap_listed H cfg l (record { host = s; res = no_result })).1.host
      go (err e) = safe
      go (ok ss) = ended (Safe H L id) _ (
          (reap_all-kept (Safe H L id) cfg ss (λ _ _ at. at)
              (All-every _ ss (λ x. one-Safe cfg x))).run
            _ safe)

  -- A pass leaves the row and the repository of every site that is not deleted, or was deleted no
  -- longer ago than the grace period.
  pub reap_spares :
      (cfg : Config) (s : H.State)
      → ((d : ℕ) → row s id ≡ some (some d) → H.now s - cfg.grace ≤ d)
      → (row (reap H cfg s).1.host id ≡ row s id) × (repo (reap H cfg s).1.host id ≡ repo s id)
  unfolding reap
  reap_spares cfg s kept = go (H.list_past_grace s (H.now s - cfg.grace)) refl
    where
      cutoff : ℕ
      cutoff = H.now s - cfg.grace

      P : Pass H → Type 0
      P = Same H L id (row s id) (repo s id)

      apart : (x : SoftDeletedSite) (d : ℕ) → row s x.id ≡ some (some d) → d < cutoff → id ≢ x.id
      apart x d e lt same = omega (arith, kept d (ap (row s) same ∙ e), lt)

      spared :
          (ss : List SoftDeletedSite)
          → All (λ x. (d : ℕ) × (row s x.id ≡ some (some d)) × (d < cutoff)) ss
          → All (λ x. Ensures P (reap_one H cfg x.id) (λ _. P) P) ss
      spared [] ls = tt
      spared (x ∷ ss) ((d, e, lt), ls) =
          (others-Same H L id cfg x.id (row s id) (repo s id) (apart x d e lt), spared ss ls)

      go :
          (l : Result String (List SoftDeletedSite))
          → H.list_past_grace s cutoff ≡ l
          → P (reap_listed H cfg l (record { host = s; res = no_result })).1
      go (err e) k = (refl, refl)
      go (ok ss) k = ended P _ (
          (reap_all-kept P cfg ss (λ _ _ at. at) (spared ss (L.listed s cutoff ss k))).run _
            (refl, refl))
