-- ===== src/Authz/Api.antt =====
-- backend/internal/api/authz.go: the role and capability matrix and the gate of a site's endpoints.
use kotoji.Prelude.{leb, if◌then◌else◌, Result, ok, err, ℕ, String, Bool, Option, none, some}
use kotoji.Authz.{
  RoleError, Sites, editor, other_role, store_error, SiteRole, no_rows, Members, SiteInfo, viewer,
  SiteError, owner,
}
use kotoji.Text.{Bytes}

-- `capability`; a number that is none of the constants is `cap_other`.
pub data Capability : Type 0 where
  cap_read cap_write cap_publish cap_owner cap_other : Capability

abbrev pub role_rank : SiteRole → ℕ
role_rank owner = 3
role_rank editor = 2
role_rank viewer = 1
role_rank (other_role r) = 0

abbrev pub min_rank_for : Capability → ℕ
min_rank_for cap_read = 1
min_rank_for cap_write = 2
min_rank_for cap_publish = 2
min_rank_for cap_owner = 3
min_rank_for cap_other = 3

unfoldable pub role_allows : SiteRole → Capability → Bool
role_allows r c = leb (min_rank_for c) (role_rank r)

pub record SessionUser : Type 0 where
  pub user_id : ℕ
  pub is_admin : Bool

pub record Access : Type 0 where
  pub site : SiteInfo
  pub user : SessionUser
  pub role : SiteRole

-- What `writeError` writes.
pub record HttpError : Type 0 where
  pub status : ℕ
  pub code : String
  pub message : String

abbrev pub http_error : ℕ → String → String → HttpError
http_error status code message = record { status = status; code = code; message = message }

abbrev pub role_of : Bool → Result RoleError SiteRole → Option SiteRole
role_of is_admin (ok role) = some role
role_of is_admin (err no_rows) = if is_admin then some owner else none
role_of is_admin (err (store_error e)) = if is_admin then some owner else none

-- `effectiveRole`; `none` is a caller with no access.
unfoldable pub effective_role : Members → ℕ → SessionUser → Option SiteRole
effective_role members site_id user = role_of user.is_admin (members site_id user.user_id)

abbrev pub site_not_found : HttpError
site_not_found = http_error 404 "not_found" "site not found"

abbrev pub grant : SiteInfo → SessionUser → Capability → Option SiteRole → Result HttpError Access
grant st user cap none = err site_not_found
grant st user cap (some role) =
    if role_allows role cap
    then ok (record { site = st; user = user; role = role })
    else err (http_error 403 "forbidden" "you do not have permission to do that")

abbrev pub on_site :
    Members → SessionUser → Capability → Result SiteError SiteInfo → Result HttpError Access
on_site members user cap (err e) = err site_not_found
on_site members user cap (ok st) = grant st user cap (effective_role members st.id user)

-- `resolveAccess`; the caller is `none` without a session.
unfoldable pub resolve_access :
    Sites → Members → Option SessionUser → Bytes → Capability → Result HttpError Access
resolve_access sites members none handle cap =
    err (http_error 401 "unauthenticated" "authentication required")
resolve_access sites members (some user) handle cap = on_site members user cap (sites handle)
