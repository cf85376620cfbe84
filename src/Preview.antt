-- ===== src/Preview.antt =====
-- backend/internal/serve/authz.go: who may see a preview, by a signed grant, the cookie that it is
-- exchanged for, or a bearer token. A time is in nanoseconds since 1970. The packages crypto/hmac,
-- encoding/base64, uuid and strconv are the parameter `Codec`; a request is what net/http reads of it.
pub mod Signing
pub mod Splitting
pub mod Sound
pub mod Handoff
pub mod Cookies
pub mod Query
use kotoji.Prelude.{
  ltb, ◌==◌, if◌then◌else◌, length, take, drop, Result, ok, err, ◌>>=◌, ℕ, suc, ◌+◌, ◌*◌, ◌/◌, Bool,
  true, false, ◌&&◌, not, Option, none, some, List, [], ◌∷◌, ◌++◌,
}
use kotoji.Text.{
  Folding, Bytes, bytes_eq, codes, index_byte, last_index_byte, trim_space, join_with, split,
  is_empty,
}

-- HMAC under the secret of the server, base64, the text of an id, and decimal numbers. `parse_int` of
-- a negative number, which is before any time of the clock, is given as 0.
pub record Codec : Type 0 where
  pub mac : Bytes → Bytes
  pub encode : Bytes → Bytes
  pub decode : Bytes → Option Bytes
  pub id_string : Bytes → Bytes
  pub parse_id : Bytes → Option Bytes
  pub format_int : ℕ → Bytes
  pub parse_int : Bytes → Option ℕ

pub data PreviewError : Type 0 where
  unauthorized forbidden : PreviewError

abbrev pub second : ℕ
second = 1000000000

-- `PreviewGrantQueryParam` and `defaultPreviewCookieTTL`.
abbrev pub preview_grant_query_param : Bytes
preview_grant_query_param = codes "kpt"

abbrev pub default_preview_cookie_ttl : ℕ
default_preview_cookie_ttl = 43200 * second

pub record Grant : Type 0 where
  pub site_id : Bytes
  pub branch : Bytes
  pub exp : ℕ

abbrev pub payload : Codec → Bytes → Bytes → ℕ → Bytes
payload k id branch exp = k.id_string id ++ b':' ∷ (branch ++ b':' ∷ k.format_int (exp / second))

-- `SignGrant`.
unfoldable pub sign_grant : Codec → Bytes → Bytes → ℕ → Bytes
sign_grant k id branch exp = let p = payload k id branch exp in p ++ b':' ∷ k.encode (k.mac p)

abbrev pub or_unauthorized : {A : Type 0} → Option A → Result PreviewError A
or_unauthorized none = err unauthorized
or_unauthorized (some a) = ok a

abbrev pub require : Bool → Result PreviewError (Unit {0})
require true = ok tt
require false = err unauthorized

abbrev pub three : List Bytes → Option (Bytes × Bytes × Bytes)
three (a ∷ b ∷ c ∷ []) = some (a, b, c)
three _ = none

-- The fields of a payload whose signature is right.
unfoldable pub parse_payload : Codec → ℕ → Bytes → Result PreviewError Grant
parse_payload k now p = do
  parts ← or_unauthorized (three (split b':' p))
  id ← or_unauthorized (k.parse_id parts.0)
  exp_unix ← or_unauthorized (k.parse_int parts.2)
  _ ← require (ltb now (exp_unix * second))
  ok (record { site_id = id; branch = parts.1; exp = exp_unix * second })

-- `verifyGrant`.
unfoldable pub verify_grant : Codec → ℕ → Bytes → Result PreviewError Grant
verify_grant k now token = do
  last_colon ← or_unauthorized (last_index_byte token b':')
  sig ← or_unauthorized (k.decode (drop (suc last_colon) token))
  _ ← require (bytes_eq sig (k.mac (take last_colon token)))
  parse_payload k now (take last_colon token)

pub record Cookie : Type 0 where
  pub value : Bytes
  pub secure : Bool
  pub max_age : ℕ

-- `Action`; no cookie and an empty redirect ask for nothing.
pub record Effect : Type 0 where
  pub set_cookie : Option Cookie
  pub redirect_to : Bytes

abbrev pub no_effect : Effect
no_effect = record { set_cookie = none; redirect_to = [] }

-- Of a request: the first "kpt" of the query, the preview cookie, the header, and the URI.
pub record PreviewRequest : Type 0 where
  pub kpt : Bytes
  pub cookie : Option Bytes
  pub authorization : Bytes
  pub request_uri : Bytes

-- `GrantAuthzConfig`, as `NewGrantAuthz` leaves it.
pub record GrantConfig : Type 0 where
  pub codec : Codec
  pub cookie_secure : Bool
  pub cookie_ttl : ℕ
  pub bearer : Option (Bytes → Bytes → Option PreviewError)

-- The time to live that `NewGrantAuthz` takes; 0 is one that is not positive.
abbrev pub cookie_ttl_or_default : ℕ → ℕ
cookie_ttl_or_default ttl = if ttl == 0 then default_preview_cookie_ttl else ttl

-- `NewGrantAuthz`: without a secret there is no signer.
unfoldable pub new_grant_authz : Bytes → GrantConfig → Option GrantConfig
new_grant_authz secret cfg =
    if is_empty secret
    then none
    else some (record cfg { cookie_ttl = cookie_ttl_or_default cfg.cookie_ttl })

abbrev pub key_of : Bytes → Option ℕ → Bytes
key_of pair none = pair
key_of pair (some eq) = take eq pair

-- What the loop of `stripGrantParam` keeps.
abbrev pub is_kept_pair : Bytes → Bool
is_kept_pair pair =
    not (is_empty pair)
    && not (bytes_eq (key_of pair (index_byte pair b'=')) preview_grant_query_param)

unfoldable pub kept_pairs : List Bytes → List Bytes
kept_pairs [] = []
kept_pairs (pair ∷ pairs) = if is_kept_pair pair then pair ∷ kept_pairs pairs else kept_pairs pairs

abbrev pub with_query : Bytes → List Bytes → Bytes
with_query base [] = base
with_query base (pair ∷ pairs) = base ++ b'?' ∷ join_with b'&' (pair ∷ pairs)

abbrev pub strip_at : Bytes → Option ℕ → Bytes
strip_at url none = url
strip_at url (some i) = with_query (take i url) (kept_pairs (split b'&' (drop (suc i) url)))

-- `stripGrantParam`.
unfoldable pub strip_grant_param : Bytes → Bytes
unfolding kept_pairs
strip_grant_param url = strip_at url (index_byte url b'?')

-- `bearerToken`.
unfoldable pub bearer_token : Folding → Bytes → Bytes
bearer_token fold h =
    if ltb 7 (length h) && fold.equal_fold (take 7 h) (codes "bearer ")
    then trim_space fold.tables (drop 7 h)
    else []

-- The test that a grant is for this site and branch.
abbrev pub matches : Grant → Bytes → Bytes → Bool
matches g site branch = bytes_eq g.site_id site && bytes_eq g.branch branch

abbrev pub new_cookie : GrantConfig → Bytes → Cookie
new_cookie cfg value = record {
  value = value;
  secure = cfg.cookie_secure;
  max_age = cfg.cookie_ttl / second;
}

module _ (fold : Folding) (cfg : GrantConfig) (now : ℕ) (site branch : Bytes) where
  -- The one-time grant: a cookie, and a redirect without the grant.
  abbrev pub exchange : Bytes → Grant → Result PreviewError Effect
  exchange uri g =
      if matches g site branch
      then ok (record {
        set_cookie =
            some (new_cookie cfg (sign_grant cfg.codec site branch (now + cfg.cookie_ttl)));
        redirect_to = strip_grant_param uri;
      })
      else err forbidden

  abbrev pub admit : Grant → Result PreviewError Effect
  admit g = if matches g site branch then ok no_effect else err forbidden

  abbrev pub bearer_answer : Option PreviewError → Result PreviewError Effect
  bearer_answer none = ok no_effect
  bearer_answer (some e) = err e

  abbrev pub by_token : (Bytes → Bytes → Option PreviewError) → Bytes → Result PreviewError Effect
  by_token validate [] = err unauthorized
  by_token validate (c ∷ token) = bearer_answer (validate (c ∷ token) site)

  abbrev pub by_bearer :
      Option (Bytes → Bytes → Option PreviewError) → Bytes → Result PreviewError Effect
  by_bearer none token = err unauthorized
  by_bearer (some validate) token = by_token validate token

  -- A cookie that is not accepted leaves it to the bearer token.
  abbrev pub or_bearer : PreviewRequest → Result PreviewError Grant → Result PreviewError Effect
  or_bearer r (ok g) = admit g
  or_bearer r (err e) = by_bearer cfg.bearer (bearer_token fold r.authorization)

  abbrev pub by_cookie : PreviewRequest → Option Bytes → Result PreviewError Effect
  by_cookie r none = by_bearer cfg.bearer (bearer_token fold r.authorization)
  by_cookie r (some []) = by_bearer cfg.bearer (bearer_token fold r.authorization)
  by_cookie r (some (c ∷ value)) = or_bearer r (verify_grant cfg.codec now (c ∷ value))

  abbrev pub by_kpt : PreviewRequest → Bytes → Result PreviewError Effect
  by_kpt r [] = by_cookie r r.cookie
  by_kpt r (c ∷ raw) = verify_grant cfg.codec now (c ∷ raw) >>= exchange r.request_uri

  -- `Authorize`.
  unfoldable pub authorize : PreviewRequest → Result PreviewError Effect
  authorize r = by_kpt r r.kpt
