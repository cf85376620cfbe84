-- ===== src/Ratelimit/Limiter.antt =====
-- The keyed limiter. The token bucket of golang.org/x/time/rate and the floating-point rate are the
-- parameter `RateLib`; an instant is a number of nanoseconds; each call of the clock is the argument
-- `now`. The mutex makes `allow` one step.
use kotoji.Prelude.{
  ltb, leb, ◌==◌, if◌then◌else◌, ℕ, ◌+◌, Bool, true, false, not, Option, none, some, List, [], ◌∷◌,
}
use kotoji.Table.{keep, Table, empty, update}
use kotoji.Text.{is_empty, Bytes}

pub record RateLib : Type 1 where
  pub Rate : Type 0
  pub is_positive : Rate → Bool
  pub truncate : Rate → ℕ  -- `int(r)`
  pub below : ℕ → Rate → Bool  -- `float64(n) < r`
  pub Bucket : Type 0
  pub new_bucket : Rate → ℕ → Bucket
  pub allow_at : Bucket → ℕ → Bucket × Bool

-- Ten minutes.
abbrev pub default_ttl : ℕ
default_ttl = 600_000_000_000

module _ (lib : RateLib) where
  open lib use {Rate, is_positive, truncate, below, Bucket, new_bucket, allow_at}

  -- A burst or a time to live of 0 is one that is not positive.
  pub record LimiterConfig : Type 0 where
    pub rps : Rate
    pub burst : ℕ
    pub ttl : ℕ

  pub record Entry : Type 0 where
    pub lim : Bucket
    pub last_seen : ℕ

  pub record Limiter : Type 0 where
    pub buckets : Table Entry
    pub rps : Rate
    pub burst : ℕ
    pub ttl : ℕ
    pub disabled : Bool
    pub last_sweep : ℕ

  -- At least one request, and the rate rounded up.
  unfoldable pub default_burst : Rate → ℕ
  default_burst rps =
      let whole = truncate rps in
      let up = if below whole rps then whole + 1 else whole in if ltb up 1 then 1 else up

  unfoldable pub new_limiter : LimiterConfig → ℕ → Limiter
  unfolding default_burst
  new_limiter cfg now = record {
    buckets = empty;
    rps = cfg.rps;
    burst = if cfg.burst == 0 then default_burst cfg.rps else cfg.burst;
    ttl = if cfg.ttl == 0 then default_ttl else cfg.ttl;
    disabled = not (is_positive cfg.rps);
    last_sweep = now;
  }

  -- `evictLocked`, at most once per time to live.
  unfoldable pub sweep : Limiter → ℕ → Limiter
  sweep l now =
      if leb (l.last_sweep + l.ttl) now
      then record l {
        buckets = keep (λ e. not (leb (e.last_seen + l.ttl) now)) l.buckets;
        last_sweep = now;
      }
      else l

  abbrev pub bucket_or_new : Rate → ℕ → Option Entry → Bucket
  bucket_or_new rps burst none = new_bucket rps burst
  bucket_or_new rps burst (some e) = e.lim

  abbrev pub take_token : Limiter → Bytes → ℕ → Limiter × Bool
  take_token l key now =
      let (lim, passed) = allow_at (bucket_or_new l.rps l.burst (l.buckets key)) now in
      (record l { buckets = update l.buckets key (record { lim = lim; last_seen = now }) }, passed)

  abbrev pub allow_unless : Bool → Limiter → Bytes → ℕ → Limiter × Bool
  allow_unless true l key now = (l, true)
  allow_unless false l key now = take_token (sweep l now) key now

  -- `Allow`.
  unfoldable pub allow_request : Limiter → Bytes → ℕ → Limiter × Bool
  allow_request l key now = allow_unless l.disabled l key now

  unfoldable pub allow_requests : Limiter → List (ℕ × Bytes) → Limiter
  allow_requests l [] = l
  allow_requests l ((now, key) ∷ calls) = allow_requests (allow_request l key now).0 calls

  -- `Middleware`: is the request handed on? An empty key opts out.
  unfoldable pub passes : Limiter → Bytes → ℕ → Limiter × Bool
  passes l key now = if is_empty key then (l, true) else allow_request l key now
