-- ===== src/Auth/Lockout/Counting.antt =====
-- Consecutive failures are counted, and a success starts the count again.
use native.Mathlib.Nat.{add-zero, add-suc, suc-add}
use native.Mathlib.Numerals.{add-one}
use kotoji.Prelude.{
  ltb, if◌then◌else◌, length, ℕ, suc, ◌+◌, ◌-◌, ◌*◌, ◌^◌, ◌<◌, min, ◌≡◌, refl, ap, ◌∙◌, false,
  Option, none, some, List, [], ◌∷◌, arith,
}
use kotoji.Auth.Lockout.{
  apply, lockout_base_delay, lockout_entry_ttl, LoginLockout, maybe_sweep, lockout_threshold, run,
  lockout_max_delay, failure, record_failure, LockoutEntry, failure_delay, Op, fail_entry, or_new,
}
use kotoji.Auth.Lockout.Backoff.{failure_delay_lem}
use kotoji.Auth.Lockout.Holding.{maybe_sweep-SameConfig, SameConfig, apply-SameConfig}
use kotoji.Text.{Bytes, is_empty}
use kotoji.Text.Laws.{bytes_eq_refl}

-- The lockout that the `n`-th consecutive failure starts.
abbrev pub lockout_delay : ℕ → ℕ
lockout_delay n =
    if ltb n lockout_threshold
    then 0
    else min (lockout_base_delay * 2 ^ (n - lockout_threshold)) lockout_max_delay

-- `n` failures so far, the last seen at `last`.
abbrev Counted : ℕ → ℕ → Option LockoutEntry → Type 0
Counted n last none = ⊥
Counted n last (some e) = (e.failures ≡ n) × (e.last_seen ≡ last)

pub record IsStandard (l : LoginLockout) : Type 0 where
  pub threshold : l.threshold ≡ lockout_threshold
  pub base : l.base ≡ lockout_base_delay
  pub max : l.max ≡ lockout_max_delay
  pub ttl : l.ttl ≡ lockout_entry_ttl

maybe_sweep-Counted :
    (l : LoginLockout) (n last now : ℕ) (key : Bytes)
    → now < last + l.ttl
    → Counted n last (l.entries key)
    → Counted n last ((maybe_sweep l now).entries key)
unfolding maybe_sweep
maybe_sweep-Counted l n last now key h k = ground arith

failure_delay-standard :
    (l : LoginLockout) (n : ℕ)
    → IsStandard l
    → failure_delay l n ≡ min (lockout_base_delay * 2 ^ (n - lockout_threshold)) lockout_max_delay
failure_delay-standard l n s = failure_delay_lem l n ∙ rw (s.threshold, s.base, s.max) refl

fail_entry-Counted :
    (l : LoginLockout) (n last now : ℕ) (key : Bytes) (e : LockoutEntry)
    → IsStandard l
    → e.failures ≡ n
    → Counted (n + 1) now ((fail_entry l key now e).0.entries key)
      × ((fail_entry l key now e).1 ≡ lockout_delay (n + 1))
fail_entry-Counted l n last now key e s k =
    ground (arith, bytes_eq_refl key, failure_delay-standard l (n + 1) s)

IsStandard-of-SameConfig : (l l' : LoginLockout) → IsStandard l → SameConfig l l' → IsStandard l'
IsStandard-of-SameConfig l l' s c = ground arith

Counted-failures :
    (n last : ℕ) (o : Option LockoutEntry) → Counted n last o → (or_new o).failures ≡ n
Counted-failures n last none k = absurd k
Counted-failures n last (some e) k = k.0

record_failure-Counted :
    (l : LoginLockout) (n last now : ℕ) (key : Bytes)
    → is_empty key ≡ false
    → IsStandard l
    → now < last + lockout_entry_ttl
    → Counted n last (l.entries key)
    → Counted (n + 1) now ((record_failure l key now).0.entries key)
      × ((record_failure l key now).1 ≡ lockout_delay (n + 1))
unfolding record_failure
record_failure-Counted l n last now key z s h k =
    let l' = maybe_sweep l now in
    let counted = maybe_sweep-Counted l n last now key (omega arith) k in
    rw z (
      fail_entry-Counted l' n last now key (or_new (l'.entries key))
        (IsStandard-of-SameConfig l l' s (maybe_sweep-SameConfig l now))
        (Counted-failures n last (l'.entries key) counted))

maybe_sweep-absent :
    (l : LoginLockout) (now : ℕ) (key : Bytes)
    → l.entries key ≡ none
    → (or_new ((maybe_sweep l now).entries key)).failures ≡ 0
unfolding maybe_sweep
maybe_sweep-absent l now key e = ground arith

first_failure :
    (l : LoginLockout) (now : ℕ) (key : Bytes)
    → is_empty key ≡ false
    → IsStandard l
    → l.entries key ≡ none
    → Counted 1 now ((record_failure l key now).0.entries key)
      × ((record_failure l key now).1 ≡ lockout_delay 1)
unfolding record_failure
first_failure l now key z s e =
    let l' = maybe_sweep l now in
    rw z (
      fail_entry-Counted l' 0 0 now key (or_new (l'.entries key))
        (IsStandard-of-SameConfig l l' s (maybe_sweep-SameConfig l now))
        (maybe_sweep-absent l now key e))

-- Each failure comes within the retention of an idle entry after the one before.
abbrev pub IsSteady : ℕ → List ℕ → Type 0
IsSteady last [] = Unit
IsSteady last (now ∷ ts) = (now < last + lockout_entry_ttl) × IsSteady now ts

abbrev pub failing : Bytes → List ℕ → List (ℕ × Op)
failing key [] = []
failing key (now ∷ ts) = (now, failure key) ∷ failing key ts

abbrev pub last_of : ℕ → List ℕ → ℕ
last_of last [] = last
last_of last (now ∷ ts) = last_of now ts

record_failure-IsStandard :
    (l : LoginLockout) (now : ℕ) (key : Bytes)
    → IsStandard l
    → IsStandard (record_failure l key now).0
unfolding apply
record_failure-IsStandard l now key s =
    IsStandard-of-SameConfig l _ s (apply-SameConfig l now (failure key))

run-Counted :
    (l : LoginLockout) (n last : ℕ) (key : Bytes) (ts : List ℕ)
    → is_empty key ≡ false
    → IsStandard l
    → IsSteady last ts
    → Counted n last (l.entries key)
    → Counted (n + length ts) (last_of last ts) ((run l (failing key ts)).entries key)
      × IsStandard (run l (failing key ts))
unfolding run apply
run-Counted l n last key [] z s h k = (rw add-zero k, s)
run-Counted l n last key (now ∷ ts) z s h k =
    rw (add-suc n (length ts), ← suc-add n (length ts))
      (run-Counted (record_failure l key now).0 (suc n) now key ts z
        (record_failure-IsStandard l now key s) h.1
        (rw add-one at (record_failure-Counted l n last now key z s h.0 k).0))

-- After `n` consecutive failures of a key, none more than 30 minutes after the one before, the next
-- one starts a lockout of `lockout_delay (n + 1)`: none for the first four, then one second, doubled
-- with each failure, up to 15 minutes.
pub consecutive_failures :
    (l : LoginLockout) (key : Bytes) (first now : ℕ) (ts : List ℕ)
    → is_empty key ≡ false
    → IsStandard l
    → l.entries key ≡ none
    → IsSteady first ts
    → now < last_of first ts + lockout_entry_ttl
    → (record_failure (run l (failing key (first ∷ ts))) key now).1 ≡ lockout_delay (length ts + 2)
unfolding run apply
consecutive_failures l key first now ts z s e h g =
    let (counted, _) = first_failure l first key z s e in
    let (many, standard) =
      run-Counted (record_failure l key first).0 1 first key ts z
        (record_failure-IsStandard l first key s) h counted in
    let m : 1 + length ts + 1 ≡ length ts + 2 = omega arith in
    (record_failure-Counted _ (1 + length ts) (last_of first ts) now key z standard g many).1
    ∙ ap lockout_delay m
