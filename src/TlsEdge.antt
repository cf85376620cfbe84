-- ===== src/TlsEdge.antt =====
-- backend/internal/tlsedge/decision.go: may a certificate be obtained for a host? The seams of the
-- `Decider` are what the environment answers during one handshake: the clock, the control host, the
-- context's error and the site lookup. The resolver is a parameter. One call is one step: the
-- mutex covers each access of the cache, and the lookup between two of them is the handshake's own.
pub mod Cache
pub mod Gate
pub mod Issuable
use kotoji.Prelude.{
  ltb, ◌==◌, if◌then◌else◌, take, Result, ok, err, ℕ, ◌+◌, String, Bool, true, false, ◌&&◌, not,
  Option, none, some, List, [], ◌∷◌,
}
use kotoji.Resolve.{Target, Request, ResolveError}
use kotoji.Table.{update, Table}
use kotoji.Text.{
  last_index_byte, index_byte, contains, bytes_eq, codes, is_empty, Unicode, Bytes, lower_trim,
}

-- In nanoseconds.
abbrev pub exists_cache_ttl : ℕ
exists_cache_ttl = 30_000_000_000

abbrev pub exists_neg_cache_ttl : ℕ
exists_neg_cache_ttl = 10_000_000_000

pub record CacheEntry : Type 0 where
  pub exists : Bool
  pub expires : ℕ

abbrev pub Cache : Type 0
Cache = Table CacheEntry

abbrev pub Resolver : Type 0
Resolver = Request → Result ResolveError Target

pub record Handshake : Type 0 where
  pub name : Bytes
  pub now : ℕ
  pub control_host : Bytes
  pub ctx_err : Option String
  pub site_exists : Bytes → Result String Bool

-- What wraps `errRefused`.
pub data Refusal : Type 0 where
  empty_host : Refusal
  unresolved : ResolveError → Refusal
  not_project : Bytes → Refusal
  check_failed : Bytes → String → Refusal
  no_site : Bytes → Refusal

abbrev pub ttl_of : Bool → ℕ
ttl_of true = exists_cache_ttl
ttl_of false = exists_neg_cache_ttl

abbrev fresh : ℕ → Option CacheEntry → Option Bool
fresh now none = none
fresh now (some e) = if ltb now e.expires then some e.exists else none

-- The state, the answer, and whether the store was asked.
abbrev remember : Cache → Handshake → Bytes → Result String Bool → Cache × Result String Bool × Bool
remember cache h handle (err e) = (cache, err e, true)
remember cache h handle (ok b) =
    (update cache handle (record { exists = b; expires = h.now + ttl_of b }), ok b, true)

abbrev look_up : Cache → Handshake → Bytes → Option String → Cache × Result String Bool × Bool
look_up cache h handle (some e) = (cache, err e, false)
look_up cache h handle none = remember cache h handle (h.site_exists handle)

abbrev answer : Cache → Handshake → Bytes → Option Bool → Cache × Result String Bool × Bool
answer cache h handle (some b) = (cache, ok b, false)
answer cache h handle none = look_up cache h handle h.ctx_err

-- `existsCached`.
unfoldable pub exists_cached : Cache → Handshake → Bytes → Cache × Result String Bool × Bool
exists_cached cache h handle = answer cache h handle (fresh h.now (cache handle))

abbrev up_to_bracket : Option ℕ → Bytes → Bytes
up_to_bracket none h = h
up_to_bracket (some i) h = take (i + 1) h

-- Only a port is cut off: with another ':' before the last one the host is a bare IPv6 address.
abbrev before_port : Option ℕ → Bytes → Bytes
before_port none h = h
before_port (some i) h = if contains (take i h) (codes ":") then h else take i h

unfoldable pub strip_host : Bytes → Bytes
strip_host [] = []
strip_host (c ∷ s) =
    if c == b'['
    then up_to_bracket (index_byte (c ∷ s) b']') (c ∷ s)
    else before_port (last_index_byte (c ∷ s) b':') (c ∷ s)

-- `normalizeHost`.
unfoldable pub normalize_host : Unicode → Bytes → Bytes
unfolding strip_host
normalize_host u h = strip_host (lower_trim u h)

-- `syntheticRequest`: a host and no header.
abbrev pub synthetic_request : Bytes → Request
synthetic_request host = record { forwarded_host = []; host = host; url_host = host }

abbrev verdict : Bytes → Result String Bool → Option Refusal
verdict handle (err e) = some (check_failed handle e)
verdict handle (ok false) = some (no_site handle)
verdict handle (ok true) = none

abbrev allow_target : Cache → Handshake → Bytes → Target → Cache × Option Refusal
allow_target cache h host t =
    if t.is_control
    then (cache, none)
    else if is_empty t.handle
    then (cache, some (not_project host))
    else let (cache', found, asked) = exists_cached cache h t.handle in
      (cache', verdict t.handle found)

abbrev allow_resolved :
    Cache → Handshake → Bytes → Result ResolveError Target → Cache × Option Refusal
allow_resolved cache h host (err e) = (cache, some (unresolved e))
allow_resolved cache h host (ok t) = allow_target cache h host t

-- `Allow`, on the normalised names; `none` lets the certificate be issued.
unfoldable pub allow_host : Resolver → Cache → Handshake → Bytes → Bytes → Cache × Option Refusal
allow_host resolver cache h host control =
    if is_empty host
    then (cache, some empty_host)
    else if not (is_empty control) && bytes_eq host control
    then (cache, none)
    else allow_resolved cache h host (resolver (synthetic_request host))

unfoldable pub allow : Unicode → Resolver → Cache → Handshake → Cache × Option Refusal
unfolding allow_host
allow u resolver cache h =
    allow_host resolver cache h (normalize_host u h.name) (normalize_host u h.control_host)

unfoldable pub allow_all : Unicode → Resolver → Cache → List Handshake → Cache
allow_all u resolver cache [] = cache
allow_all u resolver cache (h ∷ hs) = allow_all u resolver (allow u resolver cache h).0 hs
