-- ===== src/Authz/Agreement.antt =====
-- A token never gets more than its user.
use text.Mathlib.Text.{◌==◌ as str_eq}
use text.Mathlib.TextEquality.{eq_iff}
use mathlib.Core.List.{Memᴰ}
use kotoji.Prelude.{
  Bool-cases, Result, ok, err, String, ◌≡◌, refl, sym, ap, ◌∙◌, ◌↔◌, inl, inr, true, ◌&&◌, some,
  List, [], ◌∷◌, arith,
}
use kotoji.Authz.{
  RoleError, SiteRole, SiteError, Sites, no_rows, store_error, owner, Members, other_role, editor,
  viewer, SiteInfo,
}
use kotoji.Authz.Api.{
  SessionUser, cap_publish, resolve_access, cap_write, Capability, cap_read, role_allows,
}
use kotoji.Authz.Disclosure.{resolve_access_iff, Grants, role_allows_iff}
use kotoji.Authz.Mcp.{
  scope_read, TokenInfo, intersect_scopes, keep_held, scope_name, Scope, with_site, scope_publish,
  role_scopes, Authorized, with_role, authorize_site, holds_scope, holds_name, scope_write,
  is_site_business_error,
}
use kotoji.Text.{Bytes}

-- The capability that a scope stands for.
abbrev pub capability_of : Scope → Capability
capability_of scope_read = cap_read
capability_of scope_write = cap_write
capability_of scope_publish = cap_publish

keep_held-holds :
    (ts : List String) (granted : List Scope) (s : Scope)
    → holds_scope (keep_held ts granted) s ≡ (holds_scope granted s && holds_name ts (scope_name s))
unfolding keep_held holds_scope
keep_held-holds ts [] s = refl
keep_held-holds ts (scope_read ∷ g) scope_read = ground (arith, keep_held-holds ts g scope_read)
keep_held-holds ts (t ∷ g) s = ground (arith, keep_held-holds ts g s)

holds_name→ : (ts : List String) (s : String) → holds_name ts s ≡ true → Memᴰ s ts
unfolding holds_name
holds_name→ [] s h = ground arith
holds_name→ (t ∷ ts) s h = elim (Bool-cases (str_eq t s)) [
  | inl e ↦ Memᴰ.head (sym ((eq_iff t s).0 e))
  | inr e ↦ Memᴰ.tail (holds_name→ ts s (ground arith))
]

holds_name← : {s : String} {ts : List String} → Memᴰ s ts → holds_name ts s ≡ true
unfolding holds_name
holds_name← {s} (Memᴰ.head {x} e) = ground (arith, eq_iff x s)
holds_name← (Memᴰ.tail m) = ground (arith, holds_name← m)

role_scopes_iff :
    (r : SiteRole) (s : Scope) → (holds_scope (role_scopes r) s ≡ role_allows r (capability_of s))
unfolding role_scopes holds_scope role_allows
role_scopes_iff owner scope_read = refl
role_scopes_iff owner scope_write = refl
role_scopes_iff owner scope_publish = refl
role_scopes_iff editor scope_read = refl
role_scopes_iff editor scope_write = refl
role_scopes_iff editor scope_publish = refl
role_scopes_iff viewer scope_read = refl
role_scopes_iff viewer scope_write = refl
role_scopes_iff viewer scope_publish = refl
role_scopes_iff (other_role x) scope_read = refl
role_scopes_iff (other_role x) scope_write = refl
role_scopes_iff (other_role x) scope_publish = refl

-- A scope is effective exactly if the token has it and the role has the capability that it stands
-- for, in the matrix of the REST API.
pub intersect_scopes_iff :
    (ts : List String) (r : SiteRole) (s : Scope)
    → (holds_scope (intersect_scopes ts r) s ≡ true)
      ↔ (Memᴰ (scope_name s) ts × Grants r (capability_of s))
unfolding intersect_scopes
intersect_scopes_iff ts r s = (
  λ h.
      let both = sym (keep_held-holds ts (role_scopes r) s) ∙ h in
      (
        holds_name→ ts (scope_name s) (ground arith),
        (role_allows_iff r (capability_of s)).0 (ground (arith, role_scopes_iff r s)),
      ),
  λ (m, g).
      let held = holds_name← m in
      let allowed = (role_allows_iff r (capability_of s)).1 g in
      ground (arith, keep_held-holds ts (role_scopes r) s, role_scopes_iff r s),
)

with_role-ok :
    (c : TokenInfo) (st : SiteInfo) (needed : Scope) (r : Result RoleError SiteRole)
    {a : Authorized}
    → with_role c st needed r ≡ ok a
    → (r ≡ ok a.role)
      × (a.site ≡ st)
      × (holds_scope (intersect_scopes c.scopes a.role) needed ≡ true)
with_role-ok c st needed (err no_rows) h = ground arith
with_role-ok c st needed (err (store_error e)) h = ground arith
with_role-ok c st needed (ok role) h = ground arith

with_site-ok :
    (members : Members) (c : TokenInfo) (needed : Scope) (r : Result SiteError SiteInfo)
    {a : Authorized}
    → with_site members c needed r ≡ ok a
    → (r ≡ ok a.site)
      × (members a.site.id c.user_id ≡ ok a.role)
      × (holds_scope (intersect_scopes c.scopes a.role) needed ≡ true)
with_site-ok members c needed (err e) h = ground arith
with_site-ok members c needed (ok st) h =
    let (role, same, held) = with_role-ok c st needed (members st.id c.user_id) h in
    (ap ok (sym same), rw same role, held)

-- Whatever a token may do over MCP, its scope allows, and its user may do over the REST API with the
-- same role on the same site.
pub authorize_site-capped :
    (sites : Sites) (members : Members) (c : TokenInfo) (user : SessionUser) (handle : Bytes)
    (needed : Scope) (a : Authorized)
    → user.user_id ≡ c.user_id
    → authorize_site sites members c handle needed ≡ ok a
    → Memᴰ (scope_name needed) c.scopes
      × (resolve_access sites members (some user) handle (capability_of needed)
          ≡ ok (record { site = a.site; user = user; role = a.role }))
unfolding authorize_site
authorize_site-capped sites members c user handle needed a same h =
    let (found, role, held) = with_site-ok members c needed (sites handle) {a = a} (ground arith) in
    let (listed, granted) = (intersect_scopes_iff c.scopes a.role needed).0 held in
    (
      listed,
      (resolve_access_iff sites members (some user) handle (capability_of needed)
            (record { site = a.site; user = user; role = a.role })).1
          (refl, found, inl (rw same role), granted),
    )

-- To a token whose user is no member a site that exists looks like one that does not.
pub authorize_site_no_leak :
    (sites sites' : Sites) (members members' : Members) (c : TokenInfo) (handle : Bytes)
    (needed : Scope) (st : SiteInfo) (x : SiteError)
    → sites handle ≡ ok st
    → members st.id c.user_id ≡ err no_rows
    → sites' handle ≡ err x
    → is_site_business_error x ≡ true
    → authorize_site sites members c handle needed ≡ authorize_site sites' members' c handle needed
unfolding authorize_site
authorize_site_no_leak sites sites' members members' c handle needed st x found row missing b =
    rw (found, missing, row, b) refl
