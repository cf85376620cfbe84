-- ===== src/Auth/SingleUse/Entries.antt =====
-- Laws of the map of entries.
use kotoji.Prelude.{
  ltb, if◌then◌else◌, Bool-cases, length, ℕ, ◌+◌, ◌≤◌, ◌<◌, ◌≡◌, refl, inl, inr, none, some, [],
  ◌∷◌, arith,
}
use kotoji.Auth.SingleUse.{expiry, store, Entries, is_live, unexpired}
use kotoji.Text.{bytes_eq, Bytes}
use kotoji.Text.Laws.{bytes_eq_iff}

pub expiry-store :
    (key j : Bytes) (exp : ℕ) (es : Entries)
    → expiry j (store key exp es) ≡ (if bytes_eq key j then some exp else expiry j es)
unfolding expiry store
expiry-store key j exp [] = refl
expiry-store key j exp ((k, e) ∷ es) =
    ground
      (arith, bytes_eq_iff k key, bytes_eq_iff k j, bytes_eq_iff key j, expiry-store key j exp es)

-- The key is not listed.
abbrev pub IsAbsent : Bytes → Entries → Type 0
IsAbsent key es = expiry key es ≡ none

pub length-store :
    (key : Bytes) (exp : ℕ) (es : Entries) → length (store key exp es) ≤ length es + 1
unfolding store
length-store key exp [] = omega arith
length-store key exp ((k, e) ∷ es) = ground (arith, length-store key exp es)

pub length-unexpired : (now : ℕ) (es : Entries) → length (unexpired now es) ≤ length es
unfolding unexpired
length-unexpired now [] = omega arith
length-unexpired now ((k, e) ∷ es) = ground (arith, length-unexpired now es)

-- A live entry survives an eviction.
pub expiry-unexpired :
    (key : Bytes) (now exp : ℕ) (es : Entries)
    → expiry key es ≡ some exp
    → now < exp
    → expiry key (unexpired now es) ≡ some exp
unfolding expiry unexpired
expiry-unexpired key now exp [] h l = cc
expiry-unexpired key now exp ((k, e) ∷ es) h l = ground (arith, expiry-unexpired key now exp es)

IsAbsent-unexpired :
    (key : Bytes) (now : ℕ) (es : Entries) → IsAbsent key es → IsAbsent key (unexpired now es)
unfolding expiry unexpired
IsAbsent-unexpired key now [] h = refl
IsAbsent-unexpired key now ((k, e) ∷ es) h = ground (arith, IsAbsent-unexpired key now es)

-- Each key is listed once.
abbrev pub IsUnique : Entries → Type 0
IsUnique [] = Unit
IsUnique ((k, e) ∷ es) = IsAbsent k es × IsUnique es

pub unexpired-IsUnique : (now : ℕ) (es : Entries) → IsUnique es → IsUnique (unexpired now es)
unfolding unexpired
unexpired-IsUnique now [] h = tt
unexpired-IsUnique now ((k, e) ∷ es) (a, h) = elim (Bool-cases (ltb now e)) [
  | inl live ↦ rw live (IsAbsent-unexpired k now es a, unexpired-IsUnique now es h)
  | inr gone ↦ rw gone (unexpired-IsUnique now es h)
]

pub store-IsUnique :
    (key : Bytes) (exp : ℕ) (es : Entries) → IsUnique es → IsUnique (store key exp es)
unfolding store
store-IsUnique key exp [] h = (unfold expiry in refl, tt)
store-IsUnique key exp ((k, e) ∷ es) (a, h) = elim (Bool-cases (bytes_eq k key)) [
  | inl q ↦ rw q (a, h)
  | inr q ↦ rw q (
    ground (arith, expiry-store key k exp es, bytes_eq_iff key k, bytes_eq_iff k key),
    store-IsUnique key exp es h,
  )
]

pub live-unexpired :
    (key : Bytes) (now : ℕ) (es : Entries)
    → IsUnique es
    → is_live now (expiry key (unexpired now es)) ≡ is_live now (expiry key es)
unfolding expiry unexpired
live-unexpired key now [] h = refl
live-unexpired key now ((k, e) ∷ es) (a, h) =
    ground (arith, live-unexpired key now es h, bytes_eq_iff k key, IsAbsent-unexpired k now es a)

pub unexpired_idem : (now : ℕ) (es : Entries) → unexpired now (unexpired now es) ≡ unexpired now es
unfolding unexpired
unexpired_idem now [] = refl
unexpired_idem now ((k, e) ∷ es) = ground (arith, unexpired_idem now es)
