-- ===== src/Location.antt =====
-- backend/internal/serve/static.go: where the redirects of the data plane lead. `ServeRequest` has what
-- they read of a request.
pub mod Former
use mathlib.Core.List.{reverse}
use kotoji.Prelude.{
  ◌==◌, if◌then◌else◌, length, drop, ℕ, Bool, true, false, not, Option, none, some, [], ◌∷◌, ◌++◌,
}
use kotoji.Resolve.{source_path, source_host, Target, source_unknown, Source, first_host_token}
use kotoji.Site.Paths.{join, segments}
use kotoji.Text.{index_byte, codes, Bytes, Unicode, is_empty}

-- `URL.Path` decoded, `URL.RawQuery`, `Host`, X-Forwarded-Host, X-Forwarded-Proto, and whether there
-- is TLS.
pub record ServeRequest : Type 0 where
  pub path : Bytes
  pub raw_query : Bytes
  pub host : Bytes
  pub forwarded_host : Bytes
  pub forwarded_proto : Bytes
  pub has_tls : Bool

abbrev pub raw_query_suffix : Bytes → Bytes
raw_query_suffix q = if is_empty q then [] else b'?' ∷ q

-- `strings.TrimPrefix` of one byte, and `strings.Trim` of slashes.
abbrev pub trim_prefix_byte : ℕ → Bytes → Bytes
trim_prefix_byte b [] = []
trim_prefix_byte b (c ∷ s) = if c == b then s else c ∷ s

unfoldable trim_left_slashes : Bytes → Bytes
trim_left_slashes [] = []
trim_left_slashes (c ∷ s) = if c == b'/' then trim_left_slashes s else c ∷ s

unfoldable trim_slashes : Bytes → Bytes
unfolding trim_left_slashes
trim_slashes s = reverse (trim_left_slashes (reverse (trim_left_slashes s)))

-- `stripDecodedPrefix`: the elements after as many as the prefix has.
unfoldable pub strip_decoded_prefix : Bytes → Bytes → Bytes
unfolding trim_slashes
strip_decoded_prefix decoded prefix =
    b'/'
    ∷ join
        (drop (length (segments (trim_slashes prefix))) (segments (trim_prefix_byte b'/' decoded)))

-- `requestScheme`.
unfoldable pub request_scheme : Unicode → ServeRequest → Bytes
request_scheme u r =
    if not (is_empty r.forwarded_proto)
    then first_host_token u r.forwarded_proto
    else if r.has_tls
    then codes "https"
    else codes "http"

abbrev from_dot : Option ℕ → Bytes → Bytes
from_dot none host = codes "." ++ host
from_dot (some i) host = drop i host

-- The host of which `hostSuffixForRedirect` takes the suffix: the first one of X-Forwarded-Host, if that
-- header is there, whether the proxy is trusted or not.
unfoldable pub redirect_host : Unicode → ServeRequest → Bytes
redirect_host u r =
    if not (is_empty r.forwarded_host) then first_host_token u r.forwarded_host else r.host

-- `hostSuffixForRedirect`.
unfoldable pub host_suffix_for_redirect : Unicode → ServeRequest → Bytes
unfolding redirect_host
host_suffix_for_redirect u r = let host = redirect_host u r in from_dot (index_byte host b'.') host

abbrev pub renamed_label : Target → Bytes → Bytes
renamed_label t new_handle =
    if t.is_preview then new_handle ++ (codes "--" ++ t.branch) else new_handle

abbrev is_source_path : Source → Bool
is_source_path source_unknown = false
is_source_path source_host = false
is_source_path source_path = true

-- `redirectRenamedHandle`: the location.
unfoldable pub redirect_renamed_handle : Unicode → Target → ServeRequest → Bytes → Bytes
unfolding strip_decoded_prefix
redirect_renamed_handle u t r new_handle =
    let label = renamed_label t new_handle in
    let base = trim_prefix_byte b'.' (host_suffix_for_redirect u r) in
    (if is_source_path t.source
      then codes "/host/" ++ (label ++ strip_decoded_prefix r.path t.path_prefix)
      else request_scheme u r ++ (codes "://" ++ (label ++ (codes "." ++ (base ++ r.path)))))
    ++ raw_query_suffix r.raw_query

-- `redirectTrailingSlash`: the location.
unfoldable pub redirect_trailing_slash : Target → ServeRequest → Bytes → Bytes
redirect_trailing_slash t r in_site_path =
    (if is_empty t.path_prefix then in_site_path else t.path_prefix ++ in_site_path)
    ++ raw_query_suffix r.raw_query
