-- ===== src/Tests/Membership.antt =====
-- One site, its editor, and a stranger.
use mathlib.Core.List.{Memᴰ}
use kotoji.Prelude.{◌==◌, if◌then◌else◌, ok, err, ◌≡◌, refl, ◌↔◌, false, some, [], ◌∷◌}
use kotoji.Authz.{Sites, editor, Members, no_rows, SiteInfo, not_found}
use kotoji.Authz.Agreement.{authorize_site-capped}
use kotoji.Authz.Api.{cap_write, SessionUser, resolve_access}
use kotoji.Authz.Disclosure.{resolve_access_iff, IsGranted}
use kotoji.Authz.Mcp.{
  Authorized, holds_name, intersect_scopes, scope_read, TokenInfo, scope_write, holds_scope,
  authorize_site,
}
use kotoji.Tests.{blog}
use kotoji.Text.{bytes_eq}

abbrev site : SiteInfo
site = record { id = 1; handle = blog }

abbrev sites : Sites
sites h = if bytes_eq h blog then ok site else err not_found

abbrev no_sites : Sites
no_sites h = err not_found

-- User 7 is an editor of every site.
abbrev members : Members
members site_id user_id = if user_id == 7 then ok editor else err no_rows

abbrev ann : SessionUser
ann = record { user_id = 7; is_admin = false }

abbrev eve : SessionUser
eve = record { user_id = 8; is_admin = false }

abbrev token : TokenInfo
token = record { user_id = 7; scopes = "read" ∷ "write" ∷ [] }

abbrev authorized : Authorized
authorized = record { site = site; role = editor; scopes = scope_read ∷ scope_write ∷ [] }

token_writes : authorize_site sites members token blog scope_write ≡ ok authorized
unfolding authorize_site bytes_eq holds_scope intersect_scopes holds_name
token_writes = refl

site_found : sites blog ≡ ok site
unfolding bytes_eq
site_found = refl

authorize_site-capped_example :
    Memᴰ "write" token.scopes
    × (resolve_access sites members (some ann) blog cap_write
        ≡ ok (record { site = site; user = ann; role = editor }))
authorize_site-capped_example =
    authorize_site-capped sites members token ann blog scope_write authorized refl token_writes

resolve_access_iff_example :
    (resolve_access sites members (some ann) blog cap_write
      ≡ ok (record { site = site; user = ann; role = editor }))
    ↔ IsGranted sites members
        (some ann)
        blog
        cap_write
        (record { site = site; user = ann; role = editor })
resolve_access_iff_example =
    resolve_access_iff sites members (some ann) blog cap_write
      (record { site = site; user = ann; role = editor })
