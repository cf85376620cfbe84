-- ===== src/TlsEdge/Cache.antt =====
-- What the cache holds: answers of the store, for as long as they may be trusted.
use mathlib.Core.List.{Memᴰ}
use kotoji.Prelude.{
  Bool-cases, All, Result, ok, err, ℕ, ◌+◌, ◌<◌, String, ◌≡◌, refl, sym, ap, ◌∙◌, subst, inl, inr,
  Bool, true, false, Option, none, some, List, [], ◌∷◌, arith,
}
use kotoji.Text.{bytes_eq, Bytes}
use kotoji.Text.Laws.{bytes_eq_iff, bytes_eq_refl}
use kotoji.TlsEdge.{
  ttl_of, Handshake, CacheEntry, exists_cached, Cache, fresh, remember, answer, look_up,
}

-- The store gave this answer at a handshake of the list, and it is trusted for its time.
pub record Asked (hs : List Handshake) (handle : Bytes) (e : CacheEntry) : Type 0 where
  pub handshake : Handshake
  pub listed : Memᴰ handshake hs
  pub answered : handshake.site_exists handle ≡ ok e.exists
  pub trusted : e.expires ≡ handshake.now + ttl_of e.exists

abbrev pub IsGenuine : List Handshake → Cache → Type 0
IsGenuine hs cache = (handle : Bytes) (e : CacheEntry) → cache handle ≡ some e → Asked hs handle e

pub Asked-cons :
    {hs : List Handshake} {handle : Bytes} {e : CacheEntry} (h : Handshake)
    → Asked hs handle e
    → Asked (h ∷ hs) handle e
Asked-cons h a = record {
  handshake = a.handshake;
  listed = Memᴰ.tail a.listed;
  answered = a.answered;
  trusted = a.trusted;
}

remember-IsGenuine :
    (hs : List Handshake) (cache : Cache) (h : Handshake) (handle : Bytes)
    → IsGenuine hs cache
    → (r : Result String Bool) → h.site_exists handle ≡ r
    → IsGenuine (h ∷ hs) (remember cache h handle r).0
remember-IsGenuine hs cache h handle g (err x) a k e q = Asked-cons h (g k e q)
remember-IsGenuine hs cache h handle g (ok b) a k e q = elim (Bool-cases (bytes_eq handle k)) [
  | inl same ↦
      let eq : record { exists = b; expires = h.now + ttl_of b } ≡ e = ground arith in
      record {
        handshake = h;
        listed = Memᴰ.head refl;
        answered = rw (← (bytes_eq_iff handle k).0 same) (a ∙ ap (λ x. ok x.exists) eq);
        trusted = ground arith;
      }
  | inr other ↦ Asked-cons h (g k e (ground arith))
]

look_up-IsGenuine :
    (hs : List Handshake) (cache : Cache) (h : Handshake) (handle : Bytes) (c : Option String)
    → IsGenuine hs cache
    → IsGenuine (h ∷ hs) (look_up cache h handle c).0
look_up-IsGenuine hs cache h handle (some x) g = λ k e q. Asked-cons h (g k e q)
look_up-IsGenuine hs cache h handle none g =
    remember-IsGenuine hs cache h handle g (h.site_exists handle) refl

answer-IsGenuine :
    (hs : List Handshake) (cache : Cache) (h : Handshake) (handle : Bytes) (f : Option Bool)
    → IsGenuine hs cache
    → IsGenuine (h ∷ hs) (answer cache h handle f).0
answer-IsGenuine hs cache h handle (some b) g = λ k e q. Asked-cons h (g k e q)
answer-IsGenuine hs cache h handle none g = look_up-IsGenuine hs cache h handle h.ctx_err g

pub exists_cached-IsGenuine :
    (hs : List Handshake) (cache : Cache) (h : Handshake) (handle : Bytes)
    → IsGenuine hs cache
    → IsGenuine (h ∷ hs) (exists_cached cache h handle).0
unfolding exists_cached
exists_cached-IsGenuine hs cache h handle g =
    answer-IsGenuine hs cache h handle (fresh h.now (cache handle)) g

-- An answer of the store that may be trusted now.
abbrev pub Answered : List Handshake → Handshake → Bytes → Bool → Type 0
Answered hs h handle b =
    (e : CacheEntry) × (e.exists ≡ b) × (h.now < e.expires) × Asked (h ∷ hs) handle e

cached-Answered :
    (hs : List Handshake) (h : Handshake) (handle : Bytes) (o : Option CacheEntry) {b : Bool}
    → ((e : CacheEntry) → o ≡ some e → Asked hs handle e)
    → fresh h.now o ≡ some b
    → Answered hs h handle b
cached-Answered hs h handle none g e = ground arith
cached-Answered hs h handle (some x) g e = (x, ground arith, ground arith, Asked-cons h (g x refl))

ttl_of-pos : (b : Bool) → 0 < ttl_of b
ttl_of-pos true = omega arith
ttl_of-pos false = omega arith

remember-Answered :
    (hs : List Handshake) (cache : Cache) (h : Handshake) (handle : Bytes) (r : Result String Bool)
    {b : Bool}
    → h.site_exists handle ≡ r
    → (remember cache h handle r).1 ≡ ok b
    → Answered hs h handle b
remember-Answered hs cache h handle (err x) a e = ground arith
remember-Answered hs cache h handle (ok c) a e = (
  record { exists = c; expires = h.now + ttl_of c },
  ground arith,
  omega (arith, ttl_of-pos c),
  record { handshake = h; listed = Memᴰ.head refl; answered = a; trusted = refl },
)

look_up-Answered :
    (hs : List Handshake) (cache : Cache) (h : Handshake) (handle : Bytes) (c : Option String)
    {b : Bool}
    → (look_up cache h handle c).1 ≡ ok b
    → Answered hs h handle b
look_up-Answered hs cache h handle (some x) e = ground arith
look_up-Answered hs cache h handle none e =
    remember-Answered hs cache h handle (h.site_exists handle) refl e

answer-Answered :
    (hs : List Handshake) (cache : Cache) (h : Handshake) (handle : Bytes) (f : Option Bool)
    {b : Bool}
    → IsGenuine hs cache
    → fresh h.now (cache handle) ≡ f
    → (answer cache h handle f).1 ≡ ok b
    → Answered hs h handle b
answer-Answered hs cache h handle (some c) g q e =
    cached-Answered hs h handle (cache handle) (g handle) (ground arith)
answer-Answered hs cache h handle none g q e = look_up-Answered hs cache h handle h.ctx_err e

-- Whatever is answered, the store said it, now or so lately that it may be trusted.
pub exists_cached-Answered :
    (hs : List Handshake) (cache : Cache) (h : Handshake) (handle : Bytes) {b : Bool}
    → IsGenuine hs cache
    → (exists_cached cache h handle).1 ≡ ok b
    → Answered hs h handle b
unfolding exists_cached
exists_cached-Answered hs cache h handle g e =
    answer-Answered hs cache h handle (fresh h.now (cache handle)) g refl e

-- An entry that answers without the store.
abbrev pub Holds : Cache → Bytes → Bool → ℕ → Type 0
Holds cache handle b until = cache handle ≡ some (record { exists = b; expires = until })

exists_cached-Holds :
    (cache : Cache) (h : Handshake) (handle other : Bytes) (b : Bool) (until : ℕ)
    → h.now < until
    → Holds cache handle b until
    → Holds (exists_cached cache h other).0 handle b until
unfolding exists_cached
exists_cached-Holds cache h handle other b until l k = elim (Bool-cases (bytes_eq other handle)) [
  | inl q ↦
      subst (λ x. Holds (exists_cached cache h x).0 handle b until)
        (sym ((bytes_eq_iff other handle).0 q)) (own cache h handle b until l k)
  | inr q ↦ ground arith
]
  where
    own :
        (cache : Cache) (h : Handshake) (handle : Bytes) (b : Bool) (until : ℕ)
        → h.now < until
        → Holds cache handle b until
        → Holds (exists_cached cache h handle).0 handle b until
    own cache h handle b until l k = ground arith

exists_cached-answers :
    (cache : Cache) (h : Handshake) (handle : Bytes) (b : Bool) (until : ℕ)
    → h.now < until
    → Holds cache handle b until
    → ((exists_cached cache h handle).1 ≡ ok b) × ((exists_cached cache h handle).2 ≡ false)
unfolding exists_cached
exists_cached-answers cache h handle b until l k = ground arith

exists_cached-asked :
    (cache : Cache) (h : Handshake) (handle : Bytes) (b : Bool)
    → (exists_cached cache h handle).2 ≡ true
    → (exists_cached cache h handle).1 ≡ ok b
    → Holds (exists_cached cache h handle).0 handle b (h.now + ttl_of b)
unfolding exists_cached
exists_cached-asked cache h handle b q e = ground (arith, bytes_eq_refl handle)

-- The lookups that handshakes make, each for the handle that its host resolves to.
unfoldable pub exists_cached_all : Cache → List (Handshake × Bytes) → Cache
exists_cached_all cache [] = cache
exists_cached_all cache ((h, handle) ∷ hs) = exists_cached_all (exists_cached cache h handle).0 hs

exists_cached_all-Holds :
    (cache : Cache) (hs : List (Handshake × Bytes)) (handle : Bytes) (b : Bool) (until : ℕ)
    → All (λ p. p.0.now < until) hs
    → Holds cache handle b until
    → Holds (exists_cached_all cache hs) handle b until
unfolding exists_cached_all
exists_cached_all-Holds cache [] handle b until l k = k
exists_cached_all-Holds cache ((h, other) ∷ hs) handle b until (l, ls) k =
    exists_cached_all-Holds (exists_cached cache h other).0 hs handle b until ls
      (exists_cached-Holds cache h handle other b until l k)

-- Once the store has answered for a handle, every probe of that handle within the time that the
-- answer is trusted gets the same answer without asking the store, whatever other probes come in
-- between: 30 seconds if the site exists, 10 seconds if it does not.
pub probes_cached :
    (cache : Cache) (h later : Handshake) (handle : Bytes) (b : Bool)
    (hs : List (Handshake × Bytes))
    → (exists_cached cache h handle).2 ≡ true
    → (exists_cached cache h handle).1 ≡ ok b
    → All (λ p. p.0.now < h.now + ttl_of b) hs
    → later.now < h.now + ttl_of b
    → let after = exists_cached_all (exists_cached cache h handle).0 hs in
      ((exists_cached after later handle).1 ≡ ok b) × ((exists_cached after later handle).2 ≡ false)
probes_cached cache h later handle b hs asked e between before =
    let until : ℕ = h.now + ttl_of b in
    exists_cached-answers _ later handle b until before (
      exists_cached_all-Holds (exists_cached cache h handle).0 hs handle b until between
        (exists_cached-asked cache h handle b asked e))
