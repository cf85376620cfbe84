-- ===== src/Auth/SingleUse.antt =====
-- backend/internal/auth/singleuse.go: the in-memory guard against a replayed login state. An instant
-- is a number of nanoseconds; each call of the clock is the argument `now`. The mutex makes
-- `consume` one step. The map is a list of entries, one for each key.
pub mod Entries
pub mod Replay
pub mod Bounds
use kotoji.Prelude.{
  ltb, leb, if◌then◌else◌, length, ℕ, ◌+◌, Bool, true, false, not, Option, none, some, List, [],
  ◌∷◌,
}
use kotoji.Text.{bytes_eq, Bytes}

abbrev pub Entries : Type 0
Entries = List (Bytes × ℕ)

abbrev pub single_use_max_entries : ℕ
single_use_max_entries = 100_000

-- One minute.
abbrev pub single_use_sweep_interval : ℕ
single_use_sweep_interval = 60_000_000_000

pub record MemSingleUseStore : Type 0 where
  pub entries : Entries
  pub last_sweep : ℕ
  pub max_entries : ℕ
  pub sweep_interval : ℕ

unfoldable pub new_mem_single_use_store : ℕ → MemSingleUseStore
new_mem_single_use_store now = record {
  entries = [];
  last_sweep = now;
  max_entries = single_use_max_entries;
  sweep_interval = single_use_sweep_interval;
}

unfoldable pub expiry : Bytes → Entries → Option ℕ
expiry key [] = none
expiry key ((k, exp) ∷ es) = if bytes_eq k key then some exp else expiry key es

unfoldable pub store : Bytes → ℕ → Entries → Entries
store key exp [] = (key, exp) ∷ []
store key exp ((k, e) ∷ es) = if bytes_eq k key then (k, exp) ∷ es else (k, e) ∷ store key exp es

-- The loop of `evictExpiredLocked`: an entry stays while `now` is before its expiry.
unfoldable pub unexpired : ℕ → Entries → Entries
unexpired now [] = []
unexpired now ((k, exp) ∷ es) =
    let rest = unexpired now es in if ltb now exp then (k, exp) ∷ rest else rest

unfoldable pub evict_expired : MemSingleUseStore → ℕ → MemSingleUseStore
evict_expired s now = record s { entries = unexpired now s.entries }

-- `now.Sub(lastSweep) < sweepInterval`, as a sum.
unfoldable pub maybe_sweep_expired : MemSingleUseStore → ℕ → MemSingleUseStore
unfolding evict_expired
maybe_sweep_expired s now =
    if ltb now (s.last_sweep + s.sweep_interval)
    then s
    else record (evict_expired s now) { last_sweep = now }

abbrev pub is_live : ℕ → Option ℕ → Bool
is_live now none = false
is_live now (some exp) = ltb now exp

abbrev is_full : MemSingleUseStore → Bool
is_full s = leb s.max_entries (length s.entries)

-- `Consume` after its sweep.
unfoldable pub consume_swept : MemSingleUseStore → Bytes → ℕ → ℕ → MemSingleUseStore × Bool
unfolding evict_expired
consume_swept s key ttl now =
    let evicted = evict_expired s now in
    let recorded =
      λ (t : MemSingleUseStore). record t { entries = store key (now + ttl) t.entries } in
    if is_live now (expiry key s.entries)
    then (s, false)
    else if not (is_full s)
    then (recorded s, true)
    else if is_full evicted
    then (evicted, false)
    else (recorded evicted, true)

-- `Consume`: is this the first use of the key? The error is always nil.
unfoldable pub consume : MemSingleUseStore → Bytes → ℕ → ℕ → MemSingleUseStore × Bool
unfolding consume_swept maybe_sweep_expired
consume s key ttl now = consume_swept (maybe_sweep_expired s now) key ttl now

pub record Call : Type 0 where
  pub key : Bytes
  pub ttl : ℕ
  pub now : ℕ

unfoldable pub consume_all : MemSingleUseStore → List Call → MemSingleUseStore
consume_all s [] = s
consume_all s (c ∷ cs) = consume_all (consume s c.key c.ttl c.now).0 cs
