-- ===== src/Auth/Lockout/Backoff.antt =====
-- The loop of doublings against its closed form.
use native.Mathlib.Nat.{
  pow-suc, mul_assoc, mul_comm, one-le-pow, mul-le-mul_left, pow-le-pow_right, mul-one,
}
use kotoji.Prelude.{ltb, if◌then◌else◌, ℕ, zero, suc, ◌-◌, ◌*◌, ◌^◌, ◌≤◌, min, ◌≡◌, refl, arith}
use kotoji.Auth.Lockout.{LoginLockout, backoff, failure_delay}

abbrev capped : ℕ → ℕ → ℕ
capped max d = if ltb max d then max else d

doubled : (d n : ℕ) → d * 2 ^ suc n ≡ d * 2 * 2 ^ n
doubled d n = rw (pow-suc, mul_comm (2 ^ n) 2, ← mul_assoc d 2 (2 ^ n)) refl

grown : (d n : ℕ) → d ≤ d * 2 ^ n
grown d n = rw (mul-one d) at (mul-le-mul_left d (one-le-pow n 2 (omega arith)))

capped-backoff : (n max d : ℕ) → capped max (backoff n max d) ≡ min (d * 2 ^ n) max
unfolding backoff
capped-backoff zero max d = ground arith
capped-backoff (suc n) max d =
    ground (arith, capped-backoff n max (d * 2), doubled d n, grown d (suc n))

-- The delay is the base doubled with each failure past the threshold, up to the cap, for every
-- configuration.
pub failure_delay_lem :
    (l : LoginLockout) (f : ℕ) → failure_delay l f ≡ min (l.base * 2 ^ (f - l.threshold)) l.max
unfolding failure_delay
failure_delay_lem l f = capped-backoff (f - l.threshold) l.max l.base

-- More failures never shorten the lockout.
pub failure_delay_mono :
    (l : LoginLockout) (f g : ℕ) → f ≤ g → failure_delay l f ≤ failure_delay l g
failure_delay_mono l f g h =
    let powers = mul-le-mul_left l.base (
      pow-le-pow_right {n = 2} (omega arith) {i = f - l.threshold} {j = g - l.threshold}
        (omega arith)) in
    omega (arith, failure_delay_lem l f, failure_delay_lem l g, powers)
