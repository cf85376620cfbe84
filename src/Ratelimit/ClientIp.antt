-- ===== src/Ratelimit/ClientIp.antt =====
-- The per-address key: `ClientIP` and the scan of X-Forwarded-For from the right.
use mathlib.Core.List.{reverse}
use kotoji.Prelude.{
  ◌==◌, if◌then◌else◌, length, take, drop, ℕ, zero, suc, ◌+◌, Bool, false, ◌||◌, not, Option, none,
  some, [], ◌∷◌,
}
use kotoji.Text.{last_index_byte, index_byte, is_empty, is_some, Bytes}

-- What of a request the key is made of; a header that is missing is empty.
pub record Origin : Type 0 where
  pub forwarded_for : Bytes
  pub real_ip : Bytes
  pub remote_addr : Bytes

abbrev pub is_comma_at : Bytes → ℕ → Bool
is_comma_at [] i = false
is_comma_at (c ∷ s) zero = c == b','
is_comma_at (c ∷ s) (suc i) = is_comma_at s i

-- `lastIndexComma(s, end)`; `none` is -1.
unfoldable pub last_index_comma : Bytes → ℕ → Option ℕ
last_index_comma s zero = none
last_index_comma s (suc i) = if is_comma_at s i then some i else last_index_comma s i

abbrev pub is_blank : ℕ → Bool
is_blank c = c == 32 || c == 9

unfoldable pub trim_left : Bytes → Bytes
trim_left [] = []
trim_left (c ∷ s) = if is_blank c then trim_left s else c ∷ s

-- `trimSpace` of this package: spaces and tabs only.
unfoldable pub trim_blanks : Bytes → Bytes
unfolding trim_left
trim_blanks s = reverse (trim_left (reverse (trim_left s)))

abbrev pub after_comma : Option ℕ → Bytes → Bytes
after_comma none s = s
after_comma (some i) s = drop (i + 1) s

-- The loop of `nthFromRight`: `n` tokens to go in `s[:end]`.
unfoldable pub nth_before : ℕ → Bytes → ℕ → Bytes
nth_before zero s end = []
nth_before (suc zero) s end = trim_blanks (after_comma (last_index_comma s end) (take end s))
nth_before (suc (suc n)) s end = elim (last_index_comma s end) [
  | none ↦ []
  | some i ↦ nth_before (suc n) s i
]

unfoldable pub nth_from_right : Bytes → ℕ → Bytes
unfolding nth_before last_index_comma trim_blanks
nth_from_right s n = nth_before n s (length s)

abbrev has_byte : Bytes → ℕ → Bool
has_byte s b = is_some (index_byte s b)

-- The host that `net.SplitHostPort` finds in an address whose last ':' is at `i`; `none` is its
-- error.
abbrev split_bracketed : Bytes → ℕ → Option ℕ → Option Bytes
split_bracketed s i none = none
split_bracketed s i (some end) =
    if not (end + 1 == i)
    then none
    else if has_byte (drop 1 s) b'[' || has_byte (drop (end + 1) s) b']'
    then none
    else some (drop 1 (take end s))

abbrev split_plain : Bytes → ℕ → Option Bytes
split_plain s i =
    if has_byte (take i s) b':' || (has_byte s b'[' || has_byte s b']')
    then none
    else some (take i s)

abbrev starts_bracketed : Bytes → Bool
starts_bracketed [] = false
starts_bracketed (c ∷ s) = c == b'['

abbrev split_at_colon : Bytes → Option ℕ → Option Bytes
split_at_colon s none = none
split_at_colon s (some i) =
    if starts_bracketed s then split_bracketed s i (index_byte s b']') else split_plain s i

unfoldable pub split_host_port : Bytes → Option Bytes
split_host_port s = split_at_colon s (last_index_byte s b':')

abbrev or_whole : Option Bytes → Bytes → Bytes
or_whole none s = s
or_whole (some h) s = h

-- The fallback on the peer's address.
unfoldable pub remote_host : Origin → Bytes
unfolding split_host_port
remote_host r = or_whole (split_host_port r.remote_addr) r.remote_addr

abbrev pub at_least_one : ℕ → ℕ
at_least_one zero = 1
at_least_one (suc n) = suc n

-- `ClientIPHops`; a hop count below 1 is 1.
unfoldable pub client_ip_hops : Origin → Bool → ℕ → Bytes
client_ip_hops r trust_forwarded trusted_hops =
    let hop = nth_from_right r.forwarded_for (at_least_one trusted_hops) in
    if not trust_forwarded
    then remote_host r
    else if not (is_empty r.forwarded_for)
    then (if is_empty hop then remote_host r else hop)
    else if not (is_empty r.real_ip)
    then trim_blanks r.real_ip
    else remote_host r

abbrev pub default_trusted_proxy_hops : ℕ
default_trusted_proxy_hops = 1

-- `ClientIP`.
unfoldable pub client_ip : Origin → Bool → Bytes
unfolding client_ip_hops
client_ip r trust_forwarded = client_ip_hops r trust_forwarded default_trusted_proxy_hops
