-- ===== src/Authz.antt =====
-- Who may do what on a site: the roles that backend/internal/api and backend/internal/mcpserver share.
-- The database and the site service are what they answer: `Sites` and `Members`. A UUID is a number
-- that is only compared.
pub mod Api
pub mod Mcp
pub mod Disclosure
pub mod Agreement
pub mod Membership
use kotoji.Prelude.{Result, ℕ, String, List}
use kotoji.Text.{Bytes}

-- `gen.SiteRole`: a string, of which three values are roles.
pub data SiteRole : Type 0 where
  owner editor viewer : SiteRole
  other_role : String → SiteRole

pub record SiteInfo : Type 0 where
  pub id : ℕ
  pub handle : Bytes

-- The sentinel that a service error wraps.
pub data SiteError : Type 0 where
  not_found handle_taken branch_exists nothing_to_commit forbidden reserved : SiteError
  validation : (field reason : String) → SiteError
  conflict : (expected actual : String) (changed_paths : List String) → SiteError
  publish_conflict : (paths : List String) → SiteError
  zip_too_large zip_too_many_files quota_exceeded : SiteError
  infrastructure : String → SiteError

-- `GetSiteByHandle`.
abbrev pub Sites : Type 0
Sites = Bytes → Result SiteError SiteInfo

pub data RoleError : Type 0 where
  no_rows : RoleError
  store_error : SiteError → RoleError

-- `GetRole`, by the site's id and the user's.
abbrev pub Members : Type 0
Members = ℕ → ℕ → Result RoleError SiteRole
