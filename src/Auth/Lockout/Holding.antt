-- ===== src/Auth/Lockout/Holding.antt =====
-- A lockout that has started holds until its end, whatever calls come in between.
use kotoji.Prelude.{
  ltb, Bool-cases, All, ℕ, ◌+◌, ◌≤◌, ◌<◌, ◌≡◌, refl, sym, ap, ◌∙◌, subst, ◌≢◌, inl, inr, true,
  false, Option, none, some, List, [], ◌∷◌, arith,
}
use kotoji.Auth.Lockout.{
  failure, apply, LoginLockout, locked, record_failure, success, failure_delay, maybe_sweep, check,
  record_success, Op, run, LockoutEntry, fail_entry, locked_entry, or_new,
}
use kotoji.Auth.Lockout.Backoff.{failure_delay_mono, failure_delay_lem}
use kotoji.Text.{Bytes, bytes_eq, is_empty}
use kotoji.Text.Laws.{bytes_eq_iff, bytes_eq_refl}

-- The configuration of a tracker, which no call changes.
pub record SameConfig (l l' : LoginLockout) : Type 0 where
  pub threshold : l'.threshold ≡ l.threshold
  pub base : l'.base ≡ l.base
  pub max : l'.max ≡ l.max
  pub ttl : l'.ttl ≡ l.ttl

pub maybe_sweep-SameConfig : (l : LoginLockout) (now : ℕ) → SameConfig l (maybe_sweep l now)
unfolding maybe_sweep
maybe_sweep-SameConfig l now = ground arith

pub apply-SameConfig : (l : LoginLockout) (now : ℕ) (op : Op) → SameConfig l (apply l now op)
unfolding apply locked record_failure record_success
apply-SameConfig l now (check key) = ground (arith, maybe_sweep-SameConfig l now)
apply-SameConfig l now (failure key) = ground (arith, maybe_sweep-SameConfig l now)
apply-SameConfig l now (success key) = ground arith

-- At least `f` failures, and locked until `t` or later.
abbrev pub Holds : ℕ → ℕ → Option LockoutEntry → Type 0
Holds f t none = ⊥
Holds f t (some e) = (f ≤ e.failures) × (t ≤ e.locked_until)

maybe_sweep-Holds :
    (l : LoginLockout) (now f t : ℕ) (key : Bytes)
    → now < t
    → Holds f t (l.entries key)
    → Holds f t ((maybe_sweep l now).entries key)
unfolding maybe_sweep
maybe_sweep-Holds l now f t key h k = ground arith

locked_entry-Holds :
    (l : LoginLockout) (now f t : ℕ) (key other : Bytes) (o : Option LockoutEntry)
    → l.entries other ≡ o
    → Holds f t (l.entries key)
    → Holds f t ((locked_entry l other now o).0.entries key)
locked_entry-Holds l now f t key other none e k = k
locked_entry-Holds l now f t key other (some x) e k = elim (Bool-cases (bytes_eq other key)) [
  | inl q ↦
      let same = (bytes_eq_iff other key).0 q in
      let mine : Holds f t (some x) = subst (Holds f t) (ap l.entries (sym same) ∙ e) k in rw q mine
  | inr q ↦ rw q k
]

locked-Holds :
    (l : LoginLockout) (now f t : ℕ) (key other : Bytes)
    → now < t
    → Holds f t (l.entries key)
    → Holds f t ((locked l other now).0.entries key)
unfolding locked
locked-Holds l now f t key other h k = elim (Bool-cases (is_empty other)) [
  | inl z ↦ rw z k
  | inr z ↦
      let l' = maybe_sweep l now in
      rw z (
        locked_entry-Holds l' now f t key other (l'.entries other) refl
          (maybe_sweep-Holds l now f t key h k))
]

own_failure-Holds :
    (l : LoginLockout) (now f t : ℕ) (key : Bytes) (o : Option LockoutEntry)
    → l.threshold ≤ f
    → t ≤ now + failure_delay l f
    → Holds f t o
    → Holds f t ((fail_entry l key now (or_new o)).0.entries key)
own_failure-Holds l now f t key none g m h = absurd h
own_failure-Holds l now f t key (some x) g m h =
    ground (arith, bytes_eq_refl key, failure_delay_mono l f (x.failures + 1))

-- A failure of the key itself starts a lockout that ends no earlier.
fail_entry-Holds :
    (l : LoginLockout) (now f t : ℕ) (key other : Bytes) (o : Option LockoutEntry)
    → l.entries other ≡ o
    → l.threshold ≤ f
    → t ≤ now + failure_delay l f
    → Holds f t (l.entries key)
    → Holds f t ((fail_entry l other now (or_new o)).0.entries key)
fail_entry-Holds l now f t key other o e g m k = elim (Bool-cases (bytes_eq other key)) [
  | inl q ↦
      let same = (bytes_eq_iff other key).0 q in
      let mine : Holds f t o = subst (Holds f t) (ap l.entries (sym same) ∙ e) k in
      subst (λ x. Holds f t ((fail_entry l other now (or_new o)).0.entries x)) same
        (own_failure-Holds l now f t other o g m mine)
  | inr q ↦ ground arith
]

failure_delay-SameConfig :
    (l l' : LoginLockout) (f : ℕ) → SameConfig l l' → failure_delay l' f ≡ failure_delay l f
failure_delay-SameConfig l l' f s =
    failure_delay_lem l' f ∙ rw (s.base, s.threshold, s.max) (sym (failure_delay_lem l f))

record_failure-Holds :
    (l : LoginLockout) (now f t : ℕ) (key other : Bytes)
    → now < t
    → l.threshold ≤ f
    → t ≤ now + failure_delay l f
    → Holds f t (l.entries key)
    → Holds f t ((record_failure l other now).0.entries key)
unfolding record_failure
record_failure-Holds l now f t key other h g m k = elim (Bool-cases (is_empty other)) [
  | inl z ↦ rw z k
  | inr z ↦
      let l' = maybe_sweep l now in
      let s = maybe_sweep-SameConfig l now in
      rw z (
        fail_entry-Holds l' now f t key other (l'.entries other) refl (omega arith)
          (omega (arith, failure_delay-SameConfig l l' f s)) (maybe_sweep-Holds l now f t key h k))
]

record_success-Holds :
    (l : LoginLockout) (f t : ℕ) (key other : Bytes)
    → other ≢ key
    → Holds f t (l.entries key)
    → Holds f t ((record_success l other).entries key)
unfolding record_success
record_success-Holds l f t key other n k = ground (arith, bytes_eq_iff other key)

-- What may happen during a lockout of `key` that started at `now` and ends at `t`: anything but a
-- successful login with that key.
abbrev pub IsDuring : Bytes → ℕ → ℕ → ℕ × Op → Type 0
IsDuring key now t (at, op) = (now ≤ at) × (at < t) × (op ≢ success key)

apply-Holds :
    (l : LoginLockout) (now f t : ℕ) (key : Bytes) (at : ℕ) (op : Op)
    → l.threshold ≤ f
    → t ≤ now + failure_delay l f
    → IsDuring key now t (at, op)
    → Holds f t (l.entries key)
    → Holds f t ((apply l at op).entries key)
unfolding apply
apply-Holds l now f t key at (check other) g m d k = locked-Holds l at f t key other d.1 k
apply-Holds l now f t key at (failure other) g m d k =
    record_failure-Holds l at f t key other d.1 g (omega arith) k
apply-Holds l now f t key at (success other) g m d k =
    record_success-Holds l f t key other (λ e. d.2 (ap success e)) k

run-Holds :
    (l : LoginLockout) (now f t : ℕ) (key : Bytes) (ops : List (ℕ × Op))
    → l.threshold ≤ f
    → t ≤ now + failure_delay l f
    → All (IsDuring key now t) ops
    → Holds f t (l.entries key)
    → Holds f t ((run l ops).entries key)
unfolding run
run-Holds l now f t key [] g m d k = k
run-Holds l now f t key ((at, op) ∷ ops) g m d k =
    let s = apply-SameConfig l at op in
    run-Holds (apply l at op) now f t key ops (omega arith)
      (omega (arith, failure_delay-SameConfig l (apply l at op) f s)) d.1
      (apply-Holds l now f t key at op g m d.0 k)

-- What a failure that starts a lockout leaves behind.
abbrev Started : Bytes → ℕ → LoginLockout × ℕ → Type 0
Started key now r =
    (f : ℕ) × (r.0.threshold ≤ f)
    × (r.1 ≡ failure_delay r.0 f)
    × Holds f (now + r.1) (r.0.entries key)

fail_entry-Started :
    (l : LoginLockout) (key : Bytes) (now : ℕ) (e : LockoutEntry)
    → 0 < (fail_entry l key now e).1
    → Started key now (fail_entry l key now e)
fail_entry-Started l key now e h = elim (Bool-cases (ltb (e.failures + 1) l.threshold)) [
  | inl below ↦ absurd (ground arith)
  | inr past ↦ rw past (
    e.failures + 1,
    ground arith,
    failure_delay-SameConfig _ l (e.failures + 1) (omega arith),
    ground (arith, bytes_eq_refl key),
  )
]

record_failure-Started :
    (l : LoginLockout) (key : Bytes) (now : ℕ)
    → 0 < (record_failure l key now).1
    → (is_empty key ≡ false) × Started key now (record_failure l key now)
unfolding record_failure
record_failure-Started l key now h = elim (Bool-cases (is_empty key)) [
  | inl z ↦ absurd (ground arith)
  | inr z ↦
      let l' = maybe_sweep l now in
      (z, rw z (fail_entry-Started l' key now (or_new (l'.entries key)) (rw z at h)))
]

locked-of-Holds :
    (l : LoginLockout) (key : Bytes) (now f t : ℕ)
    → is_empty key ≡ false
    → now < t
    → Holds f t (l.entries key)
    → ((locked l key now).1 ≡ true) × (t ≤ now + (locked l key now).2)
unfolding locked
locked-of-Holds l key now f t z h k =
    let l' = maybe_sweep l now in
    rw z (held l' (l'.entries key) (maybe_sweep-Holds l now f t key h k))
  where
    held :
        (l : LoginLockout) (o : Option LockoutEntry)
        → Holds f t o
        → ((locked_entry l key now o).1 ≡ true) × (t ≤ now + (locked_entry l key now o).2)
    held l none k = absurd k
    held l (some e) k = ground arith

-- Once a failure has started a lockout of `d`, the key is locked at every instant before `now + d`
-- and for at least the rest of it, whatever checks, failures and sweeps come in between and whatever
-- other keys do, unless that key logs in successfully.
pub lockout_holds :
    (l : LoginLockout) (key : Bytes) (now later : ℕ) (ops : List (ℕ × Op))
    → 0 < (record_failure l key now).1
    → All (IsDuring key now (now + (record_failure l key now).1)) ops
    → later < now + (record_failure l key now).1
    → ((locked (run (record_failure l key now).0 ops) key later).1 ≡ true)
      × (now + (record_failure l key now).1
          ≤ later + (locked (run (record_failure l key now).0 ops) key later).2)
lockout_holds l key now later ops h d before =
    let (named, started) = record_failure-Started l key now h in
    let (f, reached, delay, held) = started in
    let (l', t) = record_failure l key now in
    locked-of-Holds (run l' ops) key later f (now + t) named before
      (run-Holds l' now f (now + t) key ops reached (omega arith) d held)
