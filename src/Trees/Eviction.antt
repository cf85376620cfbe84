-- ===== src/Trees/Eviction.antt =====
-- What the operations do to the entries.
use mathlib.Core.Option.{some-injective}
use kotoji.Prelude.{
  ltb, Bool-cases, length, All, ℕ, ◌+◌, ◌≤◌, ◌<◌, ◌≡◌, refl, sym, ap, subst, ◌≢◌, ◌⊎◌, inl, inr,
  Bool, true, false, ◌||◌, some, [], ◌∷◌, arith,
}
use kotoji.Serve.{TreeHandle}
use kotoji.Text.{bytes_eq, Bytes, is_empty}
use kotoji.Text.Laws.{bytes_eq_iff}
use kotoji.Trees.{
  CacheEntry, touch, delete_entry, CacheEntries, victim, evict_if_needed, CachingTreeProvider,
  store_entry, entry_of,
}

-- A property that the keys and the stored trees keep, whenever they were used last.
module _ {ℓ} (P : Bytes → TreeHandle → ℕ → Type ℓ) where
  abbrev pub HoldsEntry : Bytes × CacheEntry → Type ℓ
  HoldsEntry (k, e) = P k e.th e.expires

  pub touch-All :
      (key : Bytes) (used : ℕ) (es : CacheEntries)
      → All HoldsEntry es
      → All HoldsEntry (touch key used es)
  unfolding touch
  touch-All key used [] h = tt
  touch-All key used ((k, e) ∷ es) h = elim (Bool-cases (bytes_eq k key)) [
    | inl q ↦ rw q h
    | inr q ↦ rw q (h.0, touch-All key used es h.1)
  ]

  pub store_entry-All :
      (key : Bytes) (new : CacheEntry) (es : CacheEntries)
      → HoldsEntry (key, new)
      → All HoldsEntry es
      → All HoldsEntry (store_entry key new es)
  unfolding store_entry
  store_entry-All key new [] n h = (n, tt)
  store_entry-All key new ((k, e) ∷ es) n h = elim (Bool-cases (bytes_eq k key)) [
    | inl q ↦ rw q (subst (λ x. P x new.th new.expires) (sym ((bytes_eq_iff k key).0 q)) n, h.1)
    | inr q ↦ rw q (h.0, store_entry-All key new es n h.1)
  ]

  pub delete_entry-All :
      (key : Bytes) (es : CacheEntries) → All HoldsEntry es → All HoldsEntry (delete_entry key es)
  unfolding delete_entry
  delete_entry-All key [] h = tt
  delete_entry-All key ((k, e) ∷ es) h = elim (Bool-cases (bytes_eq k key)) [
    | inl q ↦ rw q (delete_entry-All key es h.1)
    | inr q ↦ rw q (h.0, delete_entry-All key es h.1)
  ]

  pub entry_of-All :
      (key : Bytes) (es : CacheEntries) (e : CacheEntry)
      → All HoldsEntry es
      → entry_of key es ≡ some e
      → P key e.th e.expires
  unfolding entry_of
  entry_of-All key [] e h q = ground arith
  entry_of-All key ((k, e') ∷ es) e h q = elim (Bool-cases (bytes_eq k key)) [
    | inl z ↦
        let same : e' ≡ e = some-injective _ _ (rw z at q) in
        subst (λ x. P x e.th e.expires) ((bytes_eq_iff k key).0 z)
          (subst (λ (x : CacheEntry). P k x.th x.expires) same h.0)
    | inr z ↦ entry_of-All key es e h.1 (rw z at q)
  ]

pub length-touch :
    (key : Bytes) (used : ℕ) (es : CacheEntries) → length (touch key used es) ≡ length es
unfolding touch
length-touch key used [] = refl
length-touch key used ((k, e) ∷ es) = ground (arith, length-touch key used es)

pub length-store_entry :
    (key : Bytes) (new : CacheEntry) (es : CacheEntries)
    → length (store_entry key new es) ≤ length es + 1
unfolding store_entry
length-store_entry key new [] = omega arith
length-store_entry key new ((k, e) ∷ es) = ground (arith, length-store_entry key new es)

length-delete_entry : (key : Bytes) (es : CacheEntries) → length (delete_entry key es) ≤ length es
unfolding delete_entry
length-delete_entry key [] = omega arith
length-delete_entry key ((k, e) ∷ es) = ground (arith, length-delete_entry key es)

unfoldable has_key : Bytes → CacheEntries → Bool
has_key key [] = false
has_key key ((k, e) ∷ es) = bytes_eq k key || has_key key es

delete_entry-shorter :
    (key : Bytes) (es : CacheEntries)
    → has_key key es ≡ true
    → length (delete_entry key es) < length es
unfolding delete_entry has_key
delete_entry-shorter key [] h = ground arith
delete_entry-shorter key ((k, e) ∷ es) h =
    ground (arith, delete_entry-shorter key es, length-delete_entry key es)

-- The victim is the key at hand or one of the entries.
victim-among :
    (key : Bytes) (time : ℕ) (es : CacheEntries)
    → (victim key time es ≡ key) ⊎ (has_key (victim key time es) es ≡ true)
unfolding victim has_key
victim-among key time [] = inl refl
victim-among key time ((k, e) ∷ es) = ground (
  arith,
  victim-among key time es,
  victim-among k e.last_used es,
  bytes_eq_iff k (victim k e.last_used es),
)

has_key-filled :
    (key : Bytes) (es : CacheEntries)
    → All (λ x. is_empty x.0 ≡ false) es
    → has_key key es ≡ true
    → is_empty key ≡ false
unfolding has_key
has_key-filled key [] h q = ground arith
has_key-filled key ((k, e) ∷ es) h q = elim (Bool-cases (bytes_eq k key)) [
  | inl z ↦ subst (λ x. is_empty x ≡ false) ((bytes_eq_iff k key).0 z) h.0
  | inr z ↦ has_key-filled key es h.1 (rw z at q)
]

-- The victim of a cache that is not empty is one of its entries.
victim-has_key : (es : CacheEntries) → es ≢ [] → has_key (victim [] 0 es) es ≡ true
unfolding victim has_key
victim-has_key [] n = absurd (n refl)
victim-has_key ((k, e) ∷ es) n =
    ground (arith, victim-among k e.last_used es, bytes_eq_iff k (victim k e.last_used es))

-- There is room after an eviction.
pub evict_if_needed-length :
    (c : CachingTreeProvider)
    → All (λ x. is_empty x.0 ≡ false) c.entries
    → 0 < c.max
    → length c.entries ≤ c.max
    → length (evict_if_needed c).entries < c.max
unfolding evict_if_needed
evict_if_needed-length c h p b = elim (Bool-cases (ltb (length c.entries) c.max)) [
  | inl e ↦ rw e (ground arith)
  | inr e ↦
      let full : c.entries ≢ [] = λ z. let k = ap length z in ground (arith, k) in
      let here = victim-has_key c.entries full in
      rw (e, has_key-filled (victim [] 0 c.entries) c.entries h here)
        (omega (arith, delete_entry-shorter (victim [] 0 c.entries) c.entries here))
]

pub evict_if_needed-All :
    (P : Bytes → TreeHandle → ℕ → Type 0) (c : CachingTreeProvider)
    → All (HoldsEntry P) c.entries
    → All (HoldsEntry P) (evict_if_needed c).entries
unfolding evict_if_needed
evict_if_needed-All P c h = elim (Bool-cases (ltb (length c.entries) c.max)) [
  | inl e ↦ rw e h
  | inr e ↦ elim (Bool-cases (is_empty (victim [] 0 c.entries))) [
    | inl z ↦ rw (e, z) h
    | inr z ↦ rw (e, z) (delete_entry-All P (victim [] 0 c.entries) c.entries h)
  ]
]
