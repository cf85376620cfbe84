-- ===== src/Auth/SingleUse/Replay.antt =====
-- A login state is accepted at most once within its lifetime, and the map stays bounded.
use kotoji.Prelude.{All, ℕ, ◌+◌, ◌<◌, ◌≡◌, true, false, some, List, [], ◌∷◌, arith}
use kotoji.Auth.SingleUse.{
  Call, MemSingleUseStore, consume_swept, consume, unexpired, maybe_sweep_expired, consume_all,
  expiry,
}
use kotoji.Auth.SingleUse.Entries.{expiry-store, expiry-unexpired}
use kotoji.Text.{Bytes}
use kotoji.Text.Laws.{bytes_eq_iff, bytes_eq_refl}

abbrev Live : Bytes → ℕ → MemSingleUseStore → Type 0
Live key exp s = expiry key s.entries ≡ some exp

maybe_sweep_expired-Live :
    (s : MemSingleUseStore) (key : Bytes) (exp now : ℕ)
    → now < exp
    → Live key exp s
    → Live key exp (maybe_sweep_expired s now)
unfolding maybe_sweep_expired
maybe_sweep_expired-Live s key exp now h l =
    ground (arith, expiry-unexpired key now exp s.entries l h)

consume_swept-Live :
    (s : MemSingleUseStore) (key other : Bytes) (exp ttl now : ℕ)
    → now < exp
    → Live key exp s
    → Live key exp (consume_swept s other ttl now).0
unfolding consume_swept
consume_swept-Live s key other exp ttl now h l = ground (
  arith,
  expiry-unexpired key now exp s.entries l h,
  expiry-store other key (now + ttl) s.entries,
  expiry-store other key (now + ttl) (unexpired now s.entries),
  bytes_eq_iff other key,
)

consume-Live :
    (s : MemSingleUseStore) (key other : Bytes) (exp ttl now : ℕ)
    → now < exp
    → Live key exp s
    → Live key exp (consume s other ttl now).0
unfolding consume
consume-Live s key other exp ttl now h l =
    consume_swept-Live (maybe_sweep_expired s now) key other exp ttl now h
      (maybe_sweep_expired-Live s key exp now h l)

consume_all-Live :
    (s : MemSingleUseStore) (key : Bytes) (exp : ℕ) (cs : List Call)
    → All (λ c. c.now < exp) cs
    → Live key exp s
    → Live key exp (consume_all s cs)
unfolding consume_all
consume_all-Live s key exp [] h l = l
consume_all-Live s key exp (c ∷ cs) (h, hs) l =
    consume_all-Live (consume s c.key c.ttl c.now).0 key exp cs hs
      (consume-Live s key c.key exp c.ttl c.now h l)

consume_swept-accepted :
    (s : MemSingleUseStore) (key : Bytes) (ttl now : ℕ)
    → (consume_swept s key ttl now).1 ≡ true
    → Live key (now + ttl) (consume_swept s key ttl now).0
unfolding consume_swept
consume_swept-accepted s key ttl now h = ground (
  arith,
  expiry-store key key (now + ttl) s.entries,
  expiry-store key key (now + ttl) (unexpired now s.entries),
  bytes_eq_refl key,
)

consume_swept-of-Live :
    (s : MemSingleUseStore) (key : Bytes) (exp ttl now : ℕ)
    → now < exp
    → Live key exp s
    → (consume_swept s key ttl now).1 ≡ false
unfolding consume_swept
consume_swept-of-Live s key exp ttl now h l = ground arith

-- A login state that was accepted is rejected at every later call before its expiry, whatever calls
-- come in between and however full the store gets.
pub replay_rejected :
    (s : MemSingleUseStore) (key : Bytes) (ttl now again later : ℕ) (cs : List Call)
    → (consume s key ttl now).1 ≡ true
    → All (λ c. c.now < now + ttl) cs
    → later < now + ttl
    → (consume (consume_all (consume s key ttl now).0 cs) key again later).1 ≡ false
unfolding consume
replay_rejected s key ttl now again later cs h between before =
    let s' = (consume s key ttl now).0 in
    let live = consume_swept-accepted (maybe_sweep_expired s now) key ttl now h in
    let kept = consume_all-Live s' key (now + ttl) cs between live in
    consume_swept-of-Live (maybe_sweep_expired (consume_all s' cs) later) key (now + ttl) again
      later before (maybe_sweep_expired-Live (consume_all s' cs) key (now + ttl) later before kept)
