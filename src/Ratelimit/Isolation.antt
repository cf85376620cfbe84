-- ===== src/Ratelimit/Isolation.antt =====
-- One key's traffic does not count against another's.
use mathlib.Core.Path.{transport}
use kotoji.Prelude.{
  if◌then◌else◌, Bool-cases, ℕ, ◌+◌, ◌<◌, ◌≡◌, refl, sym, ◌∙◌, subst, inl, inr, Bool, true, false,
  Option, none, some, List, [], ◌∷◌, arith,
}
use kotoji.Ratelimit.Limiter.{
  allow_request, sweep, RateLib, allow_unless, take_token, Limiter, bucket_or_new, allow_requests,
  Entry,
}
use kotoji.Text.{Bytes, bytes_eq}
use kotoji.Text.Laws.{bytes_eq_refl, bytes_eq_iff}

module _ (lib : RateLib) where
  -- The key is not idle for as long as its state is kept.
  abbrev pub IsActive : ℕ → Option (Entry lib) → ℕ → Type 0
  IsActive ttl none now = Unit
  IsActive ttl (some e) now = now < e.last_seen + ttl

  -- Two limiters that treat the key `j` alike.
  record Agree (j : Bytes) (l m : Limiter lib) : Type 0 where
    same_rps : l.rps ≡ m.rps
    same_burst : l.burst ≡ m.burst
    same_ttl : l.ttl ≡ m.ttl
    same_disabled : l.disabled ≡ m.disabled
    same_bucket : l.buckets j ≡ m.buckets j

  sweep-active :
      (l : Limiter lib) (now : ℕ) (j : Bytes)
      → IsActive l.ttl (l.buckets j) now
      → (sweep lib l now).buckets j ≡ l.buckets j
  unfolding sweep
  sweep-active l now j h = ground arith

  sweep-Agree :
      (j : Bytes) (l m : Limiter lib) (now : ℕ)
      → IsActive l.ttl (l.buckets j) now
      → Agree j l m
      → Agree j (sweep lib l now) m
  sweep-Agree j l m now h a =
      let kept = sweep-active l now j h in
      record {
        same_rps = unfold sweep in ground arith;
        same_burst = unfold sweep in ground arith;
        same_ttl = unfold sweep in ground arith;
        same_disabled = unfold sweep in ground arith;
        same_bucket = kept ∙ a.same_bucket;
      }

  other-Agree :
      (d : Bool) (j k : Bytes) (l m : Limiter lib) (now : ℕ)
      → bytes_eq k j ≡ false
      → IsActive l.ttl (l.buckets j) now
      → Agree j l m
      → Agree j (allow_unless lib d l k now).0 m
  other-Agree true j k l m now n h a = a
  other-Agree false j k l m now n h a =
      let b = sweep-Agree j l m now h a in
      record {
        same_rps = b.same_rps;
        same_burst = b.same_burst;
        same_ttl = b.same_ttl;
        same_disabled = b.same_disabled;
        same_bucket = rw n b.same_bucket;
      }

  -- What a call of the key itself does to its bucket.
  abbrev next_token : Limiter lib → Bytes → ℕ → RateLib.Bucket lib × Bool
  next_token l j now = RateLib.allow_at lib (bucket_or_new lib l.rps l.burst (l.buckets j)) now

  next_token-Agree :
      (j : Bytes) (l m : Limiter lib) (now : ℕ)
      → Agree j l m
      → next_token l j now ≡ next_token m j now
  next_token-Agree j l m now a = λ i.
      RateLib.allow_at lib (bucket_or_new lib (a.same_rps i) (a.same_burst i) (a.same_bucket i)) now

  token-Agree :
      (j : Bytes) (l m : Limiter lib) (now : ℕ)
      → Agree j l m
      → Agree j (take_token lib l j now).0 (take_token lib m j now).0
        × ((take_token lib l j now).1 ≡ (take_token lib m j now).1)
  token-Agree j l m now a =
      let p = next_token-Agree j l m now a in
      (
        record {
          same_rps = a.same_rps;
          same_burst = a.same_burst;
          same_ttl = a.same_ttl;
          same_disabled = a.same_disabled;
          same_bucket =
              rw (bytes_eq_refl j) (λ i. some (record { lim = (p i).0; last_seen = now }));
        },
        λ i. (p i).1,
      )

  Agree-symm : (j : Bytes) (l m : Limiter lib) → Agree j l m → Agree j m l
  Agree-symm j l m a = record {
    same_rps = sym a.same_rps;
    same_burst = sym a.same_burst;
    same_ttl = sym a.same_ttl;
    same_disabled = sym a.same_disabled;
    same_bucket = sym a.same_bucket;
  }

  IsActive-Agree :
      (j : Bytes) (l m : Limiter lib) (now : ℕ)
      → Agree j l m
      → IsActive l.ttl (l.buckets j) now
      → IsActive m.ttl (m.buckets j) now
  IsActive-Agree j l m now a h = transport (λ i. IsActive (a.same_ttl i) (a.same_bucket i) now) h

  self-Agree :
      (d : Bool) (j : Bytes) (l m : Limiter lib) (now : ℕ)
      → IsActive l.ttl (l.buckets j) now
      → Agree j l m
      → Agree j (allow_unless lib d l j now).0 (allow_unless lib d m j now).0
        × ((allow_unless lib d l j now).1 ≡ (allow_unless lib d m j now).1)
  self-Agree true j l m now h a = (a, refl)
  self-Agree false j l m now h a =
      let b = sweep-Agree j l m now h a in
      let c =
        sweep-Agree j m (sweep lib l now) now (IsActive-Agree j l m now a h)
          (Agree-symm j (sweep lib l now) m b) in
      token-Agree j (sweep lib l now) (sweep lib m now) now
        (Agree-symm j (sweep lib m now) (sweep lib l now) c)

  call-Agree :
      (j : Bytes) (l m : Limiter lib) (now : ℕ)
      → IsActive l.ttl (l.buckets j) now
      → Agree j l m
      → Agree j (allow_request lib l j now).0 (allow_request lib m j now).0
        × ((allow_request lib l j now).1 ≡ (allow_request lib m j now).1)
  unfolding allow_request
  call-Agree j l m now h a =
      subst
        (λ d.
          Agree j (allow_request lib l j now).0 (allow_unless lib d m j now).0
          × ((allow_request lib l j now).1 ≡ (allow_unless lib d m j now).1))
        a.same_disabled (self-Agree l.disabled j l m now h a)

  -- The calls of one key.
  abbrev pub only : Bytes → List (ℕ × Bytes) → List (ℕ × Bytes)
  only j [] = []
  only j ((now, k) ∷ calls) = if bytes_eq k j then (now, k) ∷ only j calls else only j calls

  -- Whenever anybody calls, the state of `j` is fresh enough to be kept.
  abbrev pub StaysActive : Bytes → Limiter lib → List (ℕ × Bytes) → Type 0
  StaysActive j l [] = Unit
  StaysActive j l ((now, k) ∷ calls) =
      IsActive l.ttl (l.buckets j) now × StaysActive j (allow_request lib l k now).0 calls

  run-Agree :
      (j : Bytes) (l m : Limiter lib) (calls : List (ℕ × Bytes))
      → StaysActive j l calls
      → Agree j l m
      → Agree j (allow_requests lib l calls) (allow_requests lib m (only j calls))
  unfolding allow_requests
  run-Agree j l m [] h a = a
  run-Agree j l m ((now, k) ∷ calls) (h, hs) a = elim (Bool-cases (bytes_eq k j)) [
    | inl q ↦
        let same = (bytes_eq_iff k j).0 q in
        let next : Agree j (allow_request lib l k now).0 (allow_request lib m k now).0 =
          subst (λ x. Agree j (allow_request lib l x now).0 (allow_request lib m x now).0)
            (sym same) (call-Agree j l m now h a).0 in
        rw q (run-Agree j (allow_request lib l k now).0 (allow_request lib m k now).0 calls hs next)
    | inr q ↦ rw q (
        run-Agree j (allow_request lib l k now).0 m calls hs
          (unfold allow_request in other-Agree l.disabled j k l m now q h a))
  ]

  -- A key is answered as if it were alone: the calls of all other keys can be left out of the history
  -- without any effect on its next answer, if its state is never idle for the time to live.
  pub keys_isolated :
      (l : Limiter lib) (j : Bytes) (calls : List (ℕ × Bytes)) (now : ℕ)
      → StaysActive j l calls
      → IsActive (allow_requests lib l calls).ttl ((allow_requests lib l calls).buckets j) now
      → (allow_request lib (allow_requests lib l calls) j now).1
        ≡ (allow_request lib (allow_requests lib l (only j calls)) j now).1
  keys_isolated l j calls now h k =
      let start : Agree j l l = record {
        same_rps = refl;
        same_burst = refl;
        same_ttl = refl;
        same_disabled = refl;
        same_bucket = refl;
      } in
      (call-Agree j (allow_requests lib l calls) (allow_requests lib l (only j calls)) now k
        (run-Agree j l l calls h start)).1
