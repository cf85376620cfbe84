-- ===== src/Trees/History.antt =====
-- The cache over any number of calls.
use kotoji.Prelude.{
  ltb, Bool-cases, Option-cases, length, All, Result, ok, err, ok-injective, ℕ, ◌+◌, ◌≤◌, ◌<◌, ◌≡◌,
  refl, ap, ◌∙◌, subst, ◌⊎◌, inl, inr, true, false, List, [], ◌∷◌, ◌++◌, arith,
}
use kotoji.Resolve.{Target}
use kotoji.Serve.{TreeError, TreeHandle}
use kotoji.Text.{is_empty, Bytes}
use kotoji.Trees.{
  CachingTreeProvider, TreeCall, or_read, new_caching_tree_provider, bypasses, tree_key,
  after_calls, entry_of, read_answer, cached_or_read, CacheEntries, store_tree, cached_tree,
  evict_if_needed,
}
use kotoji.Trees.Eviction.{
  HoldsEntry, length-store_entry, length-touch, entry_of-All, store_entry-All, evict_if_needed-All,
  touch-All, evict_if_needed-length,
}

-- One of the calls stored the tree under the key, until the instant.
abbrev pub WasRead : ℕ → List TreeCall → Bytes → TreeHandle → ℕ → Type 0
WasRead ttl [] k th exp = ⊥
WasRead ttl (call ∷ earlier) k th exp =
    ((tree_key call.target ≡ k) × (call.inner ≡ ok th) × (exp ≡ call.stored + ttl))
    ⊎ WasRead ttl earlier k th exp

abbrev Stored : ℕ → List TreeCall → Bytes → TreeHandle → ℕ → Type 0
Stored ttl calls k th exp = (is_empty k ≡ false) × WasRead ttl calls k th exp

record IsCache (ttl max : ℕ) (calls : List TreeCall) (c : CachingTreeProvider) : Type 0 where
  same_ttl : c.ttl ≡ ttl
  same_max : c.max ≡ max
  stored : All (HoldsEntry (Stored ttl calls)) c.entries
  bounded : length c.entries ≤ max

tree_key-filled : (h b : Bytes) → is_empty (h ++ 0 ∷ b) ≡ false
tree_key-filled [] b = refl
tree_key-filled (c ∷ h) b = refl

module _ (ttl max : ℕ) (calls : List TreeCall) (call : TreeCall) where
  later :
      (es : CacheEntries)
      → All (HoldsEntry (Stored ttl calls)) es
      → All (HoldsEntry (Stored ttl (call ∷ calls))) es
  later [] h = tt
  later ((k, e) ∷ es) h = ((h.0.0, inr h.0.1), later es h.1)

  IsCache-later :
      (c : CachingTreeProvider) → IsCache ttl max calls c → IsCache ttl max (call ∷ calls) c
  IsCache-later c w = record {
    same_ttl = w.same_ttl;
    same_max = w.same_max;
    stored = later c.entries w.stored;
    bounded = w.bounded;
  }

  filled_keys :
      (es : CacheEntries)
      → All (HoldsEntry (Stored ttl calls)) es
      → All (λ x. is_empty x.0 ≡ false) es
  filled_keys [] h = tt
  filled_keys ((k, e) ∷ es) h = (h.0.0, filled_keys es h.1)

  evicted-ttl : (c : CachingTreeProvider) → (evict_if_needed c).ttl ≡ c.ttl
  unfolding evict_if_needed
  evicted-ttl c = ground arith

  evicted-max : (c : CachingTreeProvider) → (evict_if_needed c).max ≡ c.max
  unfolding evict_if_needed
  evicted-max c = ground arith

  store_tree-IsCache :
      (c : CachingTreeProvider) (th : TreeHandle)
      → 0 < max
      → call.inner ≡ ok th
      → IsCache ttl max calls c
      → IsCache ttl max (call ∷ calls) (store_tree c (tree_key call.target) th call.stored)
  unfolding store_tree
  store_tree-IsCache c th p e w =
      let kept = IsCache-later c w in
      let key = tree_key call.target in
      let room = evict_if_needed c in
      let filled = tree_key-filled call.target.handle call.target.branch in
      let shorter =
        evict_if_needed-length c (filled_keys c.entries w.stored) (rw w.same_max p)
          (rw w.same_max w.bounded) in
      record {
        same_ttl = evicted-ttl c ∙ w.same_ttl;
        same_max = evicted-max c ∙ w.same_max;
        stored =
            store_entry-All (Stored ttl (call ∷ calls)) key _ room.entries
              (filled, inl (refl, e, ap (λ t. call.stored + t) w.same_ttl))
              (evict_if_needed-All (Stored ttl (call ∷ calls)) c kept.stored);
        bounded =
            let same = w.same_max in
            omega (
              arith,
              shorter,
              same,
              length-store_entry key
                  (record { th = th; expires = call.stored + c.ttl; last_used = call.stored })
                  room.entries,
            );
      }

  read_answer-IsCache :
      (c : CachingTreeProvider) (r : Result TreeError TreeHandle)
      → 0 < max
      → call.inner ≡ r
      → IsCache ttl max calls c
      → IsCache ttl max (call ∷ calls) (read_answer c call r).0
  read_answer-IsCache c (err x) p e w = IsCache-later c w
  read_answer-IsCache c (ok th) p e w = store_tree-IsCache c th p e w

  or_read-IsCache :
      (c : CachingTreeProvider)
      → 0 < max
      → IsCache ttl max calls c
      → IsCache ttl max
          (call ∷ calls)
          (or_read call (cached_tree c (tree_key call.target) call.now call.used)).0
  unfolding cached_tree
  or_read-IsCache c p w = elim (Option-cases (entry_of (tree_key call.target) c.entries)) [
    | inl z ↦ rw z (read_answer-IsCache c call.inner p refl w)
    | inr (e, z) ↦ elim (Bool-cases (ltb call.now e.expires)) [
      | inl fresh ↦
          rw (z, fresh)
            (record {
              same_ttl = w.same_ttl;
              same_max = w.same_max;
              stored =
                  touch-All (Stored ttl (call ∷ calls)) (tree_key call.target) call.used c.entries
                    (IsCache-later c w).stored;
              bounded = rw (length-touch (tree_key call.target) call.used c.entries) w.bounded;
            })
      | inr stale ↦ rw (z, stale) (read_answer-IsCache c call.inner p refl w)
    ]
  ]

  cached_or_read-IsCache :
      (c : CachingTreeProvider)
      → IsCache ttl max calls c
      → IsCache ttl max (call ∷ calls) (cached_or_read c call).0
  unfolding cached_or_read
  cached_or_read-IsCache c w = elim (Bool-cases (bypasses c call.target)) [
    | inl e ↦ rw e (IsCache-later c w)
    | inr e ↦ let same = w.same_max in rw e (or_read-IsCache c (ground (arith, same)) w)
  ]

after_calls-IsCache :
    (ttl max : ℕ) (calls : List TreeCall)
    → IsCache ttl max calls (after_calls (new_caching_tree_provider ttl max) calls)
unfolding after_calls
after_calls-IsCache ttl max [] = record {
  same_ttl = refl;
  same_max = refl;
  stored = tt;
  bounded = omega arith;
}
after_calls-IsCache ttl max (call ∷ earlier) =
    cached_or_read-IsCache ttl max earlier call
      (after_calls (new_caching_tree_provider ttl max) earlier)
      (after_calls-IsCache ttl max earlier)

-- However often it is called, the cache holds no more trees than its maximum.
pub after_calls_bounded :
    (ttl max : ℕ) (calls : List TreeCall)
    → length (after_calls (new_caching_tree_provider ttl max) calls).entries ≤ max
after_calls_bounded ttl max calls = (after_calls-IsCache ttl max calls).bounded

-- Where an answer comes from: from the inner provider, or, for a preview, from a call for the same
-- key that stored the tree less than the time to live ago.
abbrev pub IsFresh : ℕ → List TreeCall → TreeCall → TreeHandle → Type 0
IsFresh ttl calls call th =
    (call.inner ≡ ok th)
    ⊎ ((call.target.is_preview ≡ true)
        × ((exp : ℕ) × WasRead ttl calls (tree_key call.target) th exp × (call.now < exp)))

read_answer-inner :
    (c : CachingTreeProvider) (call : TreeCall) (r : Result TreeError TreeHandle) (th : TreeHandle)
    → (read_answer c call r).1 ≡ ok th
    → r ≡ ok th
read_answer-inner c call (err e) th h = h
read_answer-inner c call (ok x) th h = h

previewed : (c : CachingTreeProvider) (t : Target) → bypasses c t ≡ false → t.is_preview ≡ true
previewed c t e = ground arith

-- After any calls, a tree that is answered is the one that the inner provider has now, or that of a
-- preview which a call for the same handle and branch was given by it less than the time to live
-- before.
pub after_calls-IsFresh :
    (ttl max : ℕ) (calls : List TreeCall) (call : TreeCall) (th : TreeHandle)
    → (cached_or_read (after_calls (new_caching_tree_provider ttl max) calls) call).1 ≡ ok th
    → IsFresh ttl calls call th
unfolding cached_or_read cached_tree
after_calls-IsFresh ttl max calls call th h =
    let c = after_calls (new_caching_tree_provider ttl max) calls in
    let w = after_calls-IsCache ttl max calls in
    elim (Bool-cases (bypasses c call.target)) [
      | inl e ↦ inl (rw e at h)
      | inr e ↦ elim (Option-cases (entry_of (tree_key call.target) c.entries)) [
        | inl z ↦ inl (read_answer-inner c call call.inner th (rw (e, z) at h))
        | inr (x, z) ↦ elim (Bool-cases (ltb call.now x.expires)) [
          | inl fresh ↦
              let same : x.th ≡ th = ok-injective _ _ (rw (e, z, fresh) at h) in
              let stored =
                entry_of-All (Stored ttl calls) (tree_key call.target) c.entries x w.stored z in
              inr (
                previewed c call.target e,
                (
                  x.expires,
                  subst (λ y. WasRead ttl calls (tree_key call.target) y x.expires) same stored.1,
                  ground arith,
                ),
              )
          | inr stale ↦ inl (read_answer-inner c call call.inner th (rw (e, z, stale) at h))
        ]
      ]
    ]
