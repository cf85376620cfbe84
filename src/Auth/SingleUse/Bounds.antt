-- ===== src/Auth/SingleUse/Bounds.antt =====
-- The store never grows past its cap, and while it has room every fresh state is accepted.
use kotoji.Prelude.{
  ltb, leb, Bool-cases, length, ℕ, ◌+◌, ◌≤◌, ◌<◌, ◌≡◌, ◌↔◌, inl, inr, true, false, List, [], ◌∷◌,
  arith,
}
use kotoji.Auth.SingleUse.{
  new_mem_single_use_store, MemSingleUseStore, is_live, store, consume_swept, unexpired,
  maybe_sweep_expired, consume_all, Call, consume, expiry,
}
use kotoji.Auth.SingleUse.Entries.{
  length-unexpired, unexpired-IsUnique, store-IsUnique, live-unexpired, IsUnique, unexpired_idem,
  length-store,
}
use kotoji.Text.{Bytes}

-- One entry for each key, and no more entries than the cap.
pub record IsWellFormed (s : MemSingleUseStore) : Type 0 where
  pub unique : IsUnique s.entries
  pub bounded : length s.entries ≤ s.max_entries

maybe_sweep_expired-IsWellFormed :
    (s : MemSingleUseStore) (now : ℕ) → IsWellFormed s → IsWellFormed (maybe_sweep_expired s now)
unfolding maybe_sweep_expired
maybe_sweep_expired-IsWellFormed s now w =
    elim (Bool-cases (ltb now (s.last_sweep + s.sweep_interval))) [
      | inl e ↦ rw e w
      | inr e ↦ rw e (record {
        unique = unexpired-IsUnique now s.entries w.unique;
        bounded = omega (arith, length-unexpired now s.entries);
      })
    ]

recorded-IsWellFormed :
    (s : MemSingleUseStore) (key : Bytes) (exp : ℕ)
    → IsUnique s.entries
    → length s.entries < s.max_entries
    → IsWellFormed (record s { entries = store key exp s.entries })
recorded-IsWellFormed s key exp u b = record {
  unique = store-IsUnique key exp s.entries u;
  bounded = omega (arith, length-store key exp s.entries);
}

evicted-IsWellFormed :
    (s : MemSingleUseStore) (now : ℕ)
    → IsWellFormed s
    → IsWellFormed (record s { entries = unexpired now s.entries })
evicted-IsWellFormed s now w = record {
  unique = unexpired-IsUnique now s.entries w.unique;
  bounded = omega (arith, length-unexpired now s.entries);
}

consume_swept-IsWellFormed :
    (s : MemSingleUseStore) (key : Bytes) (ttl now : ℕ)
    → IsWellFormed s
    → IsWellFormed (consume_swept s key ttl now).0
unfolding consume_swept
consume_swept-IsWellFormed s key ttl now w =
    let e = evicted-IsWellFormed s now w in
    elim (Bool-cases (is_live now (expiry key s.entries))) [
      | inl live ↦ rw live w
      | inr fresh ↦ elim (Bool-cases (leb s.max_entries (length s.entries))) [
        | inr room ↦
            rw (fresh, room) (recorded-IsWellFormed s key (now + ttl) w.unique (ground arith))
        | inl full ↦ elim (Bool-cases (leb s.max_entries (length (unexpired now s.entries)))) [
          | inl still ↦ rw (fresh, full, still) e
          | inr room ↦
              rw (fresh, full, room)
                (recorded-IsWellFormed (record s { entries = unexpired now s.entries }) key
                  (now + ttl) e.unique (ground arith))
        ]
      ]
    ]

consume_all-IsWellFormed :
    (s : MemSingleUseStore) (cs : List Call) → IsWellFormed s → IsWellFormed (consume_all s cs)
unfolding consume_all consume
consume_all-IsWellFormed s [] w = w
consume_all-IsWellFormed s (c ∷ cs) w =
    consume_all-IsWellFormed (consume s c.key c.ttl c.now).0 cs (
      consume_swept-IsWellFormed (maybe_sweep_expired s c.now) c.key c.ttl c.now
        (maybe_sweep_expired-IsWellFormed s c.now w))

-- Whatever calls are made on a new store, it lists each key once and never more than 100,000.
pub consume_all_bounded :
    (start : ℕ) (cs : List Call) → IsWellFormed (consume_all (new_mem_single_use_store start) cs)
consume_all_bounded start cs =
    consume_all-IsWellFormed (new_mem_single_use_store start) cs
      (unfold new_mem_single_use_store in record { unique = tt; bounded = omega arith })

abbrev Accepts : MemSingleUseStore → Bytes → ℕ → Type 0
Accepts s key now =
    (is_live now (expiry key s.entries) ≡ false)
    × (length (unexpired now s.entries) < s.max_entries)

consume_swept_iff :
    (s : MemSingleUseStore) (key : Bytes) (ttl now : ℕ)
    → ((consume_swept s key ttl now).1 ≡ true) ↔ Accepts s key now
unfolding consume_swept
consume_swept_iff s key ttl now = ground (arith, length-unexpired now s.entries)

-- A call is accepted exactly if no entry of its key is live and the live entries leave room: sweeps
-- change neither, and the guard refuses nothing else.
pub consume_iff :
    (s : MemSingleUseStore) (key : Bytes) (ttl now : ℕ)
    → IsWellFormed s
    → ((consume s key ttl now).1 ≡ true) ↔ (
        (is_live now (expiry key s.entries) ≡ false)
        × (length (unexpired now s.entries) < s.max_entries))
unfolding consume maybe_sweep_expired
consume_iff s key ttl now w = ground (
  arith,
  consume_swept_iff s key ttl now,
  consume_swept_iff (maybe_sweep_expired s now) key ttl now,
  live-unexpired key now s.entries w.unique,
  unexpired_idem now s.entries,
)
