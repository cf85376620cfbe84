-- ===== src/Auth/Lockout.antt =====
-- backend/internal/auth/lockout.go: the failure tracker of the password login. An instant is the
-- number of nanoseconds since Go's zero `time.Time`, so the zero value of a field is 0; each call of
-- the clock is the argument `now`. A method returns the new state first. The mutex makes each
-- method one step.
pub mod Backoff
pub mod Holding
pub mod Counting
use kotoji.Prelude.{
  ltb, leb, if◌then◌else◌, ℕ, zero, suc, ◌+◌, ◌-◌, ◌*◌, Bool, false, ◌&&◌, not, Option, none, some,
  List, [], ◌∷◌,
}
use kotoji.Table.{Table, empty, update, delete, keep}
use kotoji.Text.{Bytes, is_empty}

abbrev pub second : ℕ
second = 1_000_000_000

abbrev pub lockout_threshold : ℕ
lockout_threshold = 5

abbrev pub lockout_base_delay : ℕ
lockout_base_delay = second

abbrev pub lockout_max_delay : ℕ
lockout_max_delay = 900 * second

abbrev pub lockout_entry_ttl : ℕ
lockout_entry_ttl = 1800 * second

pub record LockoutEntry : Type 0 where
  pub failures : ℕ
  pub locked_until : ℕ
  pub last_seen : ℕ

pub record LoginLockout : Type 0 where
  pub entries : Table LockoutEntry
  pub last_sweep : ℕ
  pub threshold : ℕ
  pub base : ℕ
  pub max : ℕ
  pub ttl : ℕ

unfoldable pub new_login_lockout : ℕ → LoginLockout
new_login_lockout now = record {
  entries = empty;
  last_sweep = now;
  threshold = lockout_threshold;
  base = lockout_base_delay;
  max = lockout_max_delay;
  ttl = lockout_entry_ttl;
}

-- `now.Sub(lastSeen) >= ttl && !now.Before(lockedUntil)`, as sums.
abbrev pub is_idle : ℕ → ℕ → LockoutEntry → Bool
is_idle ttl now e = leb (e.last_seen + ttl) now && leb e.locked_until now

-- `maybeSweepLocked`.
unfoldable pub maybe_sweep : LoginLockout → ℕ → LoginLockout
maybe_sweep l now =
    if ltb now (l.last_sweep + l.ttl)
    then l
    else record l { entries = keep (λ e. not (is_idle l.ttl now e)) l.entries; last_sweep = now }

abbrev seen : LoginLockout → Bytes → ℕ → LockoutEntry → LoginLockout
seen l key now e = record l { entries = update l.entries key (record e { last_seen = now }) }

abbrev locked_entry : LoginLockout → Bytes → ℕ → Option LockoutEntry → LoginLockout × Bool × ℕ
locked_entry l key now none = (l, false, 0)
locked_entry l key now (some e) = (
  seen l key now e,
  ltb now e.locked_until,
  if ltb now e.locked_until then e.locked_until - now else 0,
)

-- `locked`: is the key locked out, and for how long?
unfoldable pub locked : LoginLockout → Bytes → ℕ → LoginLockout × Bool × ℕ
locked l key now =
    if is_empty key
    then (l, false, 0)
    else let l' = maybe_sweep l now in locked_entry l' key now (l'.entries key)

-- The loop of `recordFailure`, by the rounds that are left.
unfoldable pub backoff : ℕ → ℕ → ℕ → ℕ
backoff zero max delay = delay
backoff (suc rounds) max delay =
    let longer = backoff rounds max (delay * 2) in if ltb delay max then longer else delay

-- The delay after a number of failures that has reached the threshold.
unfoldable pub failure_delay : LoginLockout → ℕ → ℕ
unfolding backoff
failure_delay l failures =
    let delay = backoff (failures - l.threshold) l.max l.base in
    if ltb l.max delay then l.max else delay

abbrev or_new : Option LockoutEntry → LockoutEntry
or_new none = record { failures = 0; locked_until = 0; last_seen = 0 }
or_new (some e) = e

abbrev fail_entry : LoginLockout → Bytes → ℕ → LockoutEntry → LoginLockout × ℕ
fail_entry l key now e =
    let failures = e.failures + 1 in
    let delay = failure_delay l failures in
    let counted = record e { failures = failures; last_seen = now } in
    if ltb failures l.threshold then (record l { entries = update l.entries key counted }, 0) else (
      record l { entries = update l.entries key (record counted { locked_until = now + delay }) },
      delay,
    )

-- `recordFailure`: the lockout that starts, 0 below the threshold.
unfoldable pub record_failure : LoginLockout → Bytes → ℕ → LoginLockout × ℕ
record_failure l key now =
    if is_empty key
    then (l, 0)
    else let l' = maybe_sweep l now in fail_entry l' key now (or_new (l'.entries key))

-- `recordSuccess`.
unfoldable pub record_success : LoginLockout → Bytes → LoginLockout
record_success l key = if is_empty key then l else record l { entries = delete l.entries key }

-- The calls that the login makes, with the instants at which they read the clock.
pub data Op : Type 0 where
  check : Bytes → Op
  failure : Bytes → Op
  success : Bytes → Op

unfoldable pub apply : LoginLockout → ℕ → Op → LoginLockout
apply l now (check key) = (locked l key now).0
apply l now (failure key) = (record_failure l key now).0
apply l now (success key) = record_success l key

unfoldable pub run : LoginLockout → List (ℕ × Op) → LoginLockout
run l [] = l
run l ((now, op) ∷ ops) = run (apply l now op) ops
