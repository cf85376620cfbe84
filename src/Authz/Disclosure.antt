-- ===== src/Authz/Disclosure.antt =====
-- Who gets in, and what a caller learns who does not.
use kotoji.Prelude.{
  Result, ok, err, ℕ, ◌≡◌, refl, sym, ap, ◌↔◌, ◌⊎◌, inl, inr, Bool, true, false, Option, none, some,
  arith,
}
use kotoji.Authz.{
  other_role, viewer, no_rows, SiteRole, owner, SiteInfo, SiteError, store_error, RoleError,
  Members, Sites, editor,
}
use kotoji.Authz.Api.{
  grant, site_not_found, role_of, Capability, role_allows, cap_other, SessionUser, effective_role,
  resolve_access, cap_read, on_site, Access, cap_publish, cap_owner, cap_write,
}
use kotoji.Text.{Bytes}

-- The matrix of roles and capabilities.
pub data Grants : SiteRole → Capability → Type 0 where
  owner_all : (c : Capability) → Grants owner c
  editor_reads : Grants editor cap_read
  editor_writes : Grants editor cap_write
  editor_publishes : Grants editor cap_publish
  viewer_reads : Grants viewer cap_read

ruleset matrix = (owner_all, editor_reads, editor_writes, editor_publishes, viewer_reads)

Grants-role_allows : {r : SiteRole} {c : Capability} → Grants r c → role_allows r c ≡ true
unfolding role_allows
Grants-role_allows (owner_all c) = ground arith
Grants-role_allows editor_reads = refl
Grants-role_allows editor_writes = refl
Grants-role_allows editor_publishes = refl
Grants-role_allows viewer_reads = refl

role_allows-Grants : (r : SiteRole) (c : Capability) → role_allows r c ≡ true → Grants r c
unfolding role_allows
role_allows-Grants owner c h = owner_all c
role_allows-Grants editor cap_read h = editor_reads
role_allows-Grants editor cap_write h = editor_writes
role_allows-Grants editor cap_publish h = editor_publishes
role_allows-Grants editor cap_owner h = ground arith
role_allows-Grants editor cap_other h = ground arith
role_allows-Grants viewer cap_read h = viewer_reads
role_allows-Grants viewer cap_write h = ground arith
role_allows-Grants viewer cap_publish h = ground arith
role_allows-Grants viewer cap_owner h = ground arith
role_allows-Grants viewer cap_other h = ground arith
role_allows-Grants (other_role x) c h = ground arith

-- The comparison of ranks is the matrix.
pub role_allows_iff : (r : SiteRole) (c : Capability) → (role_allows r c ≡ true) ↔ Grants r c
role_allows_iff r c = (role_allows-Grants r c, Grants-role_allows)

-- A caller's standing on a site: a member by the row of the database, or, as an owner, an administrator
-- of the instance for whom the row could not be read, be it that there is none or that the store
-- failed.
abbrev pub Stands : Members → ℕ → SessionUser → SiteRole → Type 0
Stands members site_id user role =
    (members site_id user.user_id ≡ ok role)
    ⊎ ((e : RoleError) × (members site_id user.user_id ≡ err e)
        × (user.is_admin ≡ true)
        × (role ≡ owner))

abbrev pub IsGranted : Sites → Members → Option SessionUser → Bytes → Capability → Access → Type 0
IsGranted sites members caller handle cap a =
    (caller ≡ some a.user)
    × (sites handle ≡ ok a.site)
    × Stands members a.site.id a.user a.role
    × Grants a.role cap

role_of-some :
    (b : Bool) (r : Result RoleError SiteRole) (role : SiteRole)
    → (role_of b r ≡ some role)
      ↔ ((r ≡ ok role) ⊎ ((e : RoleError) × (r ≡ err e) × (b ≡ true) × (role ≡ owner)))
role_of-some b (ok x) role = (
  λ h. inl (ground arith),
  λ k. elim k [ inl e ↦ ground arith | inr (e, q, adm, own) ↦ ground arith ],
)
role_of-some b (err no_rows) role = (
  λ h. inr (no_rows, refl, ground arith, ground arith),
  λ k. elim k [ inl e ↦ ground arith | inr (e, q, adm, own) ↦ ground arith ],
)
role_of-some b (err (store_error x)) role = (
  λ h. inr (store_error x, refl, ground arith, ground arith),
  λ k. elim k [ inl e ↦ ground arith | inr (e, q, adm, own) ↦ ground arith ],
)

grant-ok :
    (st : SiteInfo) (user : SessionUser) (cap : Capability) (o : Option SiteRole) (a : Access)
    → (grant st user cap o ≡ ok a)
      ↔ ((o ≡ some a.role) × (role_allows a.role cap ≡ true) × (a.site ≡ st) × (a.user ≡ user))
grant-ok st user cap none a = (λ h. ground arith, λ k. ground arith)
grant-ok st user cap (some r) a = (λ h. ground arith, λ k. ground arith)

on_site-ok :
    (members : Members) (user : SessionUser) (cap : Capability) (r : Result SiteError SiteInfo)
    (a : Access)
    → (on_site members user cap r ≡ ok a) ↔ (
        (r ≡ ok a.site)
        × (effective_role members a.site.id user ≡ some a.role)
        × (role_allows a.role cap ≡ true)
        × (a.user ≡ user))
on_site-ok members user cap (err e) a = (λ h. ground arith, λ k. ground arith)
on_site-ok members user cap (ok st) a = (
  λ h.
      let (role, allowed, same, caller) =
        (grant-ok st user cap (effective_role members st.id user) a).0 h in
      (ap ok (sym same), rw same role, allowed, caller),
  λ (found, role, allowed, caller).
      let same : st ≡ a.site = ground arith in
      (grant-ok st user cap (effective_role members st.id user) a).1
        (rw same role, allowed, sym same, caller),
)

-- The gate lets a request through exactly if the caller is logged in, the handle is a site's, and
-- the caller's standing on that site has the capability: as a member the role of the row, and for an
-- administrator that of an owner if no row was read, also when the store failed.
pub resolve_access_iff :
    (sites : Sites) (members : Members) (caller : Option SessionUser) (handle : Bytes)
    (cap : Capability) (a : Access)
    → (resolve_access sites members caller handle cap ≡ ok a)
      ↔ IsGranted sites members caller handle cap a
unfolding resolve_access effective_role
resolve_access_iff sites members none handle cap a = (λ h. ground arith, λ k. ground arith)
resolve_access_iff sites members (some user) handle cap a = (
  λ h.
      let (found, role, allowed, same) = (on_site-ok members user cap (sites handle) a).0 h in
      (
        ap some (sym same),
        found,
        rw same ((role_of-some user.is_admin (members a.site.id user.user_id) a.role).0 role),
        (role_allows_iff a.role cap).0 allowed,
      ),
  λ (caller, found, stands, granted).
      let same : user ≡ a.user = ground arith in
      (on_site-ok members user cap (sites handle) a).1 (
        found,
        rw same ((role_of-some a.user.is_admin (members a.site.id a.user.user_id) a.role).1 stands),
        (role_allows_iff a.role cap).1 granted,
        sym same,
      ),
)

-- To a caller who is neither a member nor an administrator a site that exists looks like one that
-- does not, also where the database fails: the response is the same for every capability.
pub resolve_access_no_leak :
    (sites sites' : Sites) (members members' : Members) (user : SessionUser) (handle : Bytes)
    (cap : Capability) (st : SiteInfo) (e : RoleError) (x : SiteError)
    → user.is_admin ≡ false
    → sites handle ≡ ok st
    → members st.id user.user_id ≡ err e
    → sites' handle ≡ err x
    → resolve_access sites members (some user) handle cap
      ≡ resolve_access sites' members' (some user) handle cap
unfolding resolve_access effective_role
resolve_access_no_leak sites sites' members members' user handle cap st e x a found row missing =
    rw (found, missing, row) (outside e)
  where
    outside :
        (e : RoleError) → grant st user cap (role_of user.is_admin (err e)) ≡ err site_not_found
    outside no_rows = rw a refl
    outside (store_error y) = rw a refl
