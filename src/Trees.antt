-- ===== src/Trees.antt =====
-- backend/internal/serve/treeprovider.go: the cache of preview trees. An instant is a number of
-- nanoseconds. The mutex makes the lookup and the insertion a step each, and the inner provider is
-- asked between them. The map is a list of entries, one for each key, in an order of its own.
pub mod Eviction
pub mod History
use kotoji.Prelude.{
  ltb, ◌==◌, if◌then◌else◌, length, Result, ok, err, ℕ, ◌+◌, ◌*◌, Bool, ◌||◌, not, Option, none,
  some, List, [], ◌∷◌, ◌++◌,
}
use kotoji.Resolve.{Target}
use kotoji.Serve.{TreeHandle, TreeError}
use kotoji.Text.{bytes_eq, Bytes, is_empty}

-- `cacheEntry`.
pub record CacheEntry : Type 0 where
  pub th : TreeHandle
  pub expires : ℕ
  pub last_used : ℕ

abbrev pub CacheEntries : Type 0
CacheEntries = List (Bytes × CacheEntry)

-- A ttl or a max that is not positive is 0.
pub record CachingTreeProvider : Type 0 where
  pub ttl : ℕ
  pub max : ℕ
  pub entries : CacheEntries
  pub lru_order : List Bytes

abbrev pub new_caching_tree_provider : ℕ → ℕ → CachingTreeProvider
new_caching_tree_provider ttl max = record { ttl = ttl; max = max; entries = []; lru_order = [] }

-- The key of a target.
abbrev pub tree_key : Target → Bytes
tree_key t = t.handle ++ 0 ∷ t.branch

unfoldable pub entry_of : Bytes → CacheEntries → Option CacheEntry
entry_of key [] = none
entry_of key ((k, e) ∷ es) = if bytes_eq k key then some e else entry_of key es

-- `e.lastUsed = c.now()`.
unfoldable pub touch : Bytes → ℕ → CacheEntries → CacheEntries
touch key used [] = []
touch key used ((k, e) ∷ es) =
    if bytes_eq k key then (k, record e { last_used = used }) ∷ es else (k, e) ∷ touch key used es

unfoldable pub store_entry : Bytes → CacheEntry → CacheEntries → CacheEntries
store_entry key new [] = (key, new) ∷ []
store_entry key new ((k, e) ∷ es) =
    if bytes_eq k key then (k, new) ∷ es else (k, e) ∷ store_entry key new es

unfoldable pub delete_entry : Bytes → CacheEntries → CacheEntries
delete_entry key [] = []
delete_entry key ((k, e) ∷ es) =
    let rest = delete_entry key es in if bytes_eq k key then rest else (k, e) ∷ rest

-- The loop for the entry that was used the longest ago.
unfoldable pub victim : Bytes → ℕ → CacheEntries → Bytes
victim key time [] = key
victim key time ((k, e) ∷ es) =
    if is_empty key || ltb e.last_used time then victim k e.last_used es else victim key time es

-- `evictIfNeededLocked`.
unfoldable pub evict_if_needed : CachingTreeProvider → CachingTreeProvider
evict_if_needed c =
    let oldest = victim [] 0 c.entries in
    if ltb (length c.entries) c.max then c else record c {
      entries = if is_empty oldest then c.entries else delete_entry oldest c.entries;
      lru_order = if ltb (4 * c.max) (length c.lru_order) then [] else c.lru_order;
    }

-- The first locked part of `Tree`: a fresh entry is touched, where the clock is read once more.
abbrev pub touch_fresh :
    CachingTreeProvider
    → Bytes
    → ℕ
    → ℕ
    → Option CacheEntry
    → CachingTreeProvider × Option TreeHandle
touch_fresh c key now used none = (c, none)
touch_fresh c key now used (some e) =
    if ltb now e.expires
    then (record c { entries = touch key used c.entries }, some e.th)
    else (c, none)

unfoldable pub cached_tree :
    CachingTreeProvider → Bytes → ℕ → ℕ → CachingTreeProvider × Option TreeHandle
cached_tree c key now used = touch_fresh c key now used (entry_of key c.entries)

-- The second: the tree that was read is stored.
unfoldable pub store_tree : CachingTreeProvider → Bytes → TreeHandle → ℕ → CachingTreeProvider
store_tree c key th now =
    let room = evict_if_needed c in
    record room {
      entries =
          store_entry key (record { th = th; expires = now + c.ttl; last_used = now }) room.entries;
      lru_order = room.lru_order ++ (key ∷ []);
    }

-- A published tree and a switched off cache go straight to the inner provider.
abbrev pub bypasses : CachingTreeProvider → Target → Bool
bypasses c t = not t.is_preview || c.ttl == 0 || c.max == 0

-- What a call of `Tree` meets: the instants it reads, and what the inner provider answers.
pub record TreeCall : Type 0 where
  pub target : Target
  pub now : ℕ
  pub used : ℕ
  pub stored : ℕ
  pub inner : Result TreeError TreeHandle

abbrev pub read_answer :
    CachingTreeProvider
    → TreeCall
    → Result TreeError TreeHandle
    → CachingTreeProvider × Result TreeError TreeHandle
read_answer c call (err e) = (c, err e)
read_answer c call (ok th) = (store_tree c (tree_key call.target) th call.stored, ok th)

abbrev pub or_read :
    TreeCall
    → CachingTreeProvider × Option TreeHandle
    → CachingTreeProvider × Result TreeError TreeHandle
or_read call (c, some th) = (c, ok th)
or_read call (c, none) = read_answer c call call.inner

-- `CachingTreeProvider.Tree`.
unfoldable pub cached_or_read :
    CachingTreeProvider → TreeCall → CachingTreeProvider × Result TreeError TreeHandle
cached_or_read c call =
    if bypasses c call.target
    then (c, call.inner)
    else or_read call (cached_tree c (tree_key call.target) call.now call.used)

-- The provider after its calls, the latest first.
unfoldable pub after_calls : CachingTreeProvider → List TreeCall → CachingTreeProvider
unfolding cached_or_read
after_calls c [] = c
after_calls c (call ∷ earlier) = (cached_or_read (after_calls c earlier) call).0
