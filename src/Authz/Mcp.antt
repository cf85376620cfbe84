-- ===== src/Authz/Mcp.antt =====
-- backend/internal/mcpserver/authz.go and the error map of registry.go: a token is capped by the
-- membership of its user.
use Prim.Native.String
use text.Mathlib.Text.{◌==◌ as str_eq}
use kotoji.Prelude.{
  if◌then◌else◌, Result, ok, err, ℕ, String, Bool, true, false, ◌||◌, List, [], ◌∷◌,
}
use kotoji.Authz.{
  editor, handle_taken, zip_too_large, quota_exceeded, conflict, forbidden, zip_too_many_files,
  publish_conflict, SiteInfo, infrastructure, not_found, branch_exists, nothing_to_commit, reserved,
  viewer, no_rows, RoleError, validation, Members, owner, SiteError, SiteRole, store_error, Sites,
  other_role,
}
use kotoji.Text.{is_empty, Bytes}

pub data Scope : Type 0 where
  scope_read scope_write scope_publish : Scope

abbrev pub scope_name : Scope → String
scope_name scope_read = "read"
scope_name scope_write = "write"
scope_name scope_publish = "publish"

unfoldable pub role_scopes : SiteRole → List Scope
role_scopes owner = scope_read ∷ scope_write ∷ scope_publish ∷ []
role_scopes editor = scope_read ∷ scope_write ∷ scope_publish ∷ []
role_scopes viewer = scope_read ∷ []
role_scopes (other_role r) = []

-- `slices.Contains` on strings.
unfoldable pub holds_name : List String → String → Bool
holds_name [] s = false
holds_name (t ∷ ts) s = str_eq t s || holds_name ts s

abbrev pub same_scope : Scope → Scope → Bool
same_scope scope_read scope_read = true
same_scope scope_write scope_write = true
same_scope scope_publish scope_publish = true
same_scope _ _ = false

-- `slices.Contains` on scopes.
unfoldable pub holds_scope : List Scope → Scope → Bool
holds_scope [] s = false
holds_scope (t ∷ ts) s = same_scope t s || holds_scope ts s

-- The loop of `intersectScopes`.
unfoldable pub keep_held : List String → List Scope → List Scope
keep_held token_scopes [] = []
keep_held token_scopes (sc ∷ granted) =
    let rest = keep_held token_scopes granted in
    if holds_name token_scopes (scope_name sc) then sc ∷ rest else rest

unfoldable pub intersect_scopes : List String → SiteRole → List Scope
unfolding keep_held role_scopes
intersect_scopes token_scopes role = keep_held token_scopes (role_scopes role)

pub data Details : Type 0 where
  no_details : Details
  conflict_details : (expected actual current_sha : String) (changed_paths : List String) → Details
  path_details : List String → Details
  scope_details : SiteRole → List Scope → Details

pub record ToolError : Type 0 where
  pub code : String
  pub message : String
  pub details : Details

pub record TokenInfo : Type 0 where
  pub user_id : ℕ
  pub scopes : List String

pub record Authorized : Type 0 where
  pub site : SiteInfo
  pub role : SiteRole
  pub scopes : List Scope

-- A tool error is for the model to read; a Go error is a protocol error with a generic text.
pub data Refusal : Type 0 where
  tool_err : ToolError → Refusal
  go_err : String → Refusal

abbrev pub tool : String → String → Details → Refusal
tool code message details = tool_err (record { code = code; message = message; details = details })

-- `mapError`, on an error that is not nil.
unfoldable pub map_error : SiteError → String → Refusal
map_error (conflict expected actual paths) action =
    tool "conflict" "branch moved since base_sha; re-read and retry"
      (conflict_details expected actual actual paths)
map_error (publish_conflict paths) action =
    tool "publish_conflict" "publish merge conflict" (path_details paths)
map_error not_found action = tool "not_found" "not found" no_details
map_error handle_taken action = tool "handle_taken" "handle already taken" no_details
map_error branch_exists action = tool "branch_exists" "branch already exists" no_details
map_error nothing_to_commit action = tool "nothing_to_commit" "nothing to commit" no_details
map_error forbidden action = tool "forbidden" "forbidden" no_details
map_error reserved action = tool "validation" "handle is reserved" no_details
map_error (validation field reason) action =
    tool "validation" (String.◌++◌ field (String.◌++◌ ": " reason)) no_details
map_error zip_too_large action = tool "too_large" "upload too large" no_details
map_error zip_too_many_files action = tool "too_large" "upload too large" no_details
map_error quota_exceeded action = tool "quota_exceeded" "per-site disk quota exceeded" no_details
map_error (infrastructure e) action = go_err action

abbrev pub is_site_business_error : SiteError → Bool
is_site_business_error not_found = true
is_site_business_error (validation field reason) = true
is_site_business_error reserved = true
is_site_business_error _ = false

abbrev pub unknown_site : Refusal
unknown_site = tool "not_found" "site not found" no_details

abbrev pub with_role :
    TokenInfo → SiteInfo → Scope → Result RoleError SiteRole → Result Refusal Authorized
with_role c st needed (err no_rows) = err unknown_site
with_role c st needed (err (store_error e)) = err (map_error e "authorize_site")
with_role c st needed (ok role) =
    let eff = intersect_scopes c.scopes role in
    if holds_scope eff needed
    then ok (record { site = st; role = role; scopes = eff })
    else err (
        tool "forbidden"
          (String.◌++◌ "your effective access on this site does not grant " (scope_name needed))
          (scope_details role eff))

abbrev pub with_site :
    Members → TokenInfo → Scope → Result SiteError SiteInfo → Result Refusal Authorized
with_site members c needed (err e) =
    if is_site_business_error e then err unknown_site else err (map_error e "authorize_site")
with_site members c needed (ok st) = with_role c st needed (members st.id c.user_id)

-- `authorizeSite`.
unfoldable pub authorize_site :
    Sites → Members → TokenInfo → Bytes → Scope → Result Refusal Authorized
authorize_site sites members c handle needed =
    if is_empty handle
    then err (tool "validation" "site: required" no_details)
    else with_site members c needed (sites handle)
