-- ===== src/Resolve.antt =====
-- backend/internal/resolve/resolver.go: from a request's host to a routing target. `error` is
-- `GoError`; a method of `DefaultResolver` takes the record first. Only the headers and hosts that
-- the resolver reads stand in `Request`.
pub mod Grammar
pub mod Hosts
pub mod Sound
pub mod RoundTrip
pub mod Overlong
pub mod Forwarding
use kotoji.Prelude.{
  ltb, ◌==◌, if◌then◌else◌, length, take, drop, Result, ok, err, ◌>>=◌, ℕ, ◌+◌, ◌-◌, String, Bool,
  true, false, ◌&&◌, not, Option, none, some, [], ◌∷◌, ◌++◌,
}
use kotoji.Text.{
  Bytes, codes, Unicode, bytes_eq, is_empty, mem, has_suffix, index, contains, index_byte,
  last_index_byte, to_lower, trim_space, lower_trim,
}
use kotoji.Label.{label_re, double_hyphen, label_max_len, reserved_handles}

pub data Source : Type 0 where
  source_unknown source_host source_path : Source

pub record Target : Type 0 where
  pub handle : Bytes
  pub branch : Bytes
  pub is_preview : Bool
  pub is_control : Bool
  pub source : Source
  pub path_prefix : Bytes

pub record ResolveError : Type 0 where
  pub status : ℕ
  pub code : String
  pub msg : String

-- A `*ResolveError`, or another error by what `Error()` says.
pub data GoError : Type 0 where
  resolve_error : ResolveError → GoError
  other_error : String → GoError

pub record Request : Type 0 where
  pub forwarded_host : Bytes
  pub host : Bytes
  pub url_host : Bytes

pub record Config : Type 0 where
  pub base_domain : Bytes
  pub control_label : Bytes
  pub enable_path_fallback : Bool
  pub trust_forwarded_host : Bool
  pub base_domain_func : Option (Request → Bytes)

abbrev pub Validator : Type 0
Validator = Bytes → Option GoError

pub record DefaultResolver : Type 0 where
  pub cfg : Config
  pub handles : Validator
  pub branches : Validator
  pub base_suffix : Bytes

abbrev pub published : Bytes
published = codes "published"

abbrev pub fail : ℕ → String → String → ResolveError
fail status code msg = record { status = status; code = code; msg = msg }

abbrev reject : ℕ → String → String → Option GoError
reject status code msg = some (resolve_error (fail status code msg))

-- `builtinValidator.ValidateHandle`; `none` is a nil error.
unfoldable pub validate_handle : Unicode → Validator
validate_handle u h =
    if is_empty h
    then reject 400 "bad_handle" "empty handle"
    else if not (bytes_eq h (to_lower u h))
    then reject 400 "bad_handle" "handle must be lowercase"
    else if ltb (length h) 1
    then reject 400 "bad_handle" "handle length out of range"
    else if ltb label_max_len (length h)
    then reject 400 "bad_handle" "handle length out of range"
    else if contains h double_hyphen
    then reject 400 "bad_handle" "handle must not contain \"--\""
    else if not (label_re h)
    then reject 400 "bad_handle" "handle has invalid characters"
    else if mem h reserved_handles
    then reject 404 "not_project_host" "reserved handle"
    else none

unfoldable pub validate_branch : Unicode → Validator
validate_branch u b =
    if is_empty b
    then reject 400 "bad_branch" "empty branch"
    else if not (bytes_eq b (to_lower u b))
    then reject 400 "bad_branch" "branch must be lowercase"
    else if ltb label_max_len (length b)
    then reject 400 "bad_branch" "branch too long"
    else if contains b double_hyphen
    then reject 400 "bad_branch" "branch must not contain \"--\""
    else if not (label_re b)
    then reject 400 "bad_branch" "branch has invalid characters"
    else none

abbrev get_or {ℓ} : {A : Type ℓ} → Option A → A → A
get_or none d = d
get_or (some a) d = a

unfoldable pub new_resolver_with :
    Unicode → Config → Option Validator → Option Validator → DefaultResolver
new_resolver_with u cfg handles branches =
    let base = lower_trim u cfg.base_domain in
    record {
      cfg = record cfg { base_domain = base; control_label = lower_trim u cfg.control_label };
      handles = get_or handles (validate_handle u);
      branches = get_or branches (validate_branch u);
      base_suffix = codes "." ++ base;
    }

unfoldable pub new_resolver : Unicode → Config → DefaultResolver
unfolding new_resolver_with
new_resolver u cfg = new_resolver_with u cfg none none

abbrev first_token : Option ℕ → Bytes → Bytes
first_token none v = v
first_token (some i) v = take i v

unfoldable pub first_host_token : Unicode → Bytes → Bytes
first_host_token u v = trim_space u (first_token (index_byte v b',') v)

-- After lowercasing: an IPv6 literal ends with its bracket, any other host before its last ':'.
abbrev through : Option ℕ → Bytes → Bytes
through none h = h
through (some i) h = take (i + 1) h

unfoldable pub strip_port : Bytes → Bytes
strip_port [] = []
strip_port (c ∷ s) =
    if c == b'['
    then through (index_byte (c ∷ s) b']') (c ∷ s)
    else first_token (last_index_byte (c ∷ s) b':') (c ∷ s)

unfoldable pub lower_strip_port : Unicode → Bytes → Bytes
unfolding strip_port
lower_strip_port u host = strip_port (lower_trim u host)

-- `asResolveError`, on an error that is not nil.
abbrev pub as_resolve_error : GoError → String → ResolveError
as_resolve_error (resolve_error e) default_code = e
as_resolve_error (other_error text) default_code = fail 400 default_code text

abbrev split_at : Option ℕ → Bytes → Bytes × Bytes × Bool
split_at none label = (label, published, false)
split_at (some i) label = (take i label, drop (i + 2) label, true)

-- The handle, the branch, and whether a branch was asked for.
unfoldable pub split_label : Bytes → Bytes × Bytes × Bool
split_label label = split_at (index label double_hyphen) label

abbrev require : Option GoError → String → Result ResolveError (Unit {0})
require none default_code = ok tt
require (some e) default_code = err (as_resolve_error e default_code)

-- What `resolveProjectLabel` tests of a branch that was asked for.
unfoldable pub preview_checks : DefaultResolver → Bytes → Bytes → Result ResolveError (Unit {0})
preview_checks d handle branch =
    if bytes_eq branch published
    then err (fail 400 "bad_branch" "published is not addressable via --")
    else require (d.branches branch) "bad_branch" >>= λ _.
        if ltb label_max_len (length handle + 2 + length branch)
        then err (fail 400 "label_too_long" "handle--branch exceeds 63-char DNS label budget")
        else ok tt

-- The returns with an error of `resolveProjectLabel`, in order.
unfoldable pub project_checks :
    DefaultResolver → Bytes → Bytes → Bool → Result ResolveError (Unit {0})
unfolding preview_checks
project_checks d handle branch is_preview = require (d.handles handle) "bad_handle" >>= λ _.
    (if is_preview then preview_checks d handle branch else ok tt)

abbrev pub project_target : Bytes → Bytes → Bool → Source → Bytes → Target
project_target handle branch is_preview src path_prefix = record {
  handle = handle;
  branch = branch;
  is_preview = is_preview;
  is_control = false;
  source = src;
  path_prefix = path_prefix;
}

unfoldable pub resolve_project_label :
    DefaultResolver → Bytes → Source → Bytes → Result ResolveError Target
unfolding project_checks split_label
resolve_project_label d label src path_prefix =
    let (handle, branch, is_preview) = split_label label in
    project_checks d handle branch is_preview >>= λ _.
    ok (project_target handle branch is_preview src path_prefix)

unfoldable pub effective_host : Unicode → DefaultResolver → Request → Bytes
effective_host u d r =
    if d.cfg.trust_forwarded_host && not (is_empty r.forwarded_host)
    then first_host_token u r.forwarded_host
    else if not (is_empty r.host)
    then r.host
    else r.url_host

-- The base domain of this request, and the suffix of its project hosts.
abbrev base_from : Unicode → DefaultResolver → Option (Request → Bytes) → Request → Bytes × Bytes
base_from u d none r = (d.cfg.base_domain, d.base_suffix)
base_from u d (some f) r =
    let base = lower_trim u (f r) in
    if is_empty base then (d.cfg.base_domain, d.base_suffix) else (base, codes "." ++ base)

unfoldable pub effective_base : Unicode → DefaultResolver → Request → Bytes × Bytes
effective_base u d r = base_from u d d.cfg.base_domain_func r

pub data HostClass : Type 0 where
  host_foreign host_control host_project : HostClass

abbrev classify_label : DefaultResolver → Bytes → Result ResolveError (HostClass × Bytes)
classify_label d label =
    if contains label (codes ".")
    then err (fail 404 "not_project_host" "nested subdomain is not a project host")
    else if not (is_empty d.cfg.control_label) && bytes_eq label d.cfg.control_label
    then ok (host_control, [])
    else ok (host_project, label)

unfoldable pub classify_host :
    DefaultResolver → Bytes → Bytes → Bytes → Result ResolveError (HostClass × Bytes)
classify_host d host base suffix =
    if bytes_eq host base
    then (if is_empty d.cfg.control_label
        then ok (host_control, [])
        else err (
            fail 404 "not_project_host"
              "bare base domain is not a project (control label required)"))
    else if not (has_suffix host suffix)
    then ok (host_foreign, [])
    else classify_label d (take (length host - length suffix) host)

abbrev pub control_target : Target
control_target = record {
  handle = [];
  branch = [];
  is_preview = false;
  is_control = true;
  source = source_host;
  path_prefix = [];
}

-- The `switch` of `Resolve`.
abbrev route : DefaultResolver → HostClass × Bytes → Result ResolveError Target
route d (host_control, label) = ok control_target
route d (host_project, label) = resolve_project_label d label source_host []
route d (host_foreign, label) = err (fail 421 "misdirected_request" "host not under base domain")

unfoldable pub resolve_host : DefaultResolver → Bytes → Bytes × Bytes → Result ResolveError Target
resolve_host d host (base, suffix) =
    if is_empty host
    then err (fail 400 "empty_host" "no host on request")
    else classify_host d host base suffix >>= route d

-- `DefaultResolver.Resolve`.
unfoldable pub resolve : Unicode → DefaultResolver → Request → Result ResolveError Target
unfolding resolve_host
resolve u d r = resolve_host d (lower_strip_port u (effective_host u d r)) (effective_base u d r)
