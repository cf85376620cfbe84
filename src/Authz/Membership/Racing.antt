-- ===== src/Authz/Membership/Racing.antt =====
-- Two removals that overlap: each checks the rows before the other one has written.
use kotoji.Prelude.{
  ◌==◌, if◌then◌else◌, ok, ℕ, ◌≡◌, sym, ◌∙◌, ◌≢◌, ◌⊎◌, false, Option, none, some, List, [], ◌∷◌,
  arith,
}
use kotoji.Authz.{Sites, owner}
use kotoji.Authz.Api.{SessionUser, cap_owner, resolve_access, Access}
use kotoji.Authz.Membership.{
  remove_checked, as_members, find_role, MemberRow, drop_member, sole_owner_loop, Answers,
  members_of,
}
use kotoji.Authz.Membership.Counting.{owners, owners_by-two, sole_owner_loop_lem, owner_counted}
use kotoji.Text.{Bytes}
use kotoji.Action.{◌>>=◌}

find_role-drop_member :
    (s user x : ℕ) (ms : List MemberRow)
    → find_role s x (drop_member s user ms) ≡ (if user == x then none else find_role s x ms)
unfolding find_role drop_member
find_role-drop_member s user x [] = ground arith
find_role-drop_member s user x (m ∷ ms) = ground (arith, find_role-drop_member s user x ms)

-- One of two owners is not the only one.
two-spared :
    (s u v : ℕ) (ms : List MemberRow)
    → u ≢ v
    → find_role s u ms ≡ some owner
    → find_role s v ms ≡ some owner
    → sole_owner_loop u (members_of s ms) 0 false ≡ false
two-spared s u v ms ne hu hv =
    let many : (owners s ms == 1) ≡ false =
      ground (arith, owner_counted s u ms hu, owner_counted s v ms hv, owners_by-two s u v ms ne) in
    sole_owner_loop_lem s u ms 0 false ∙ ground arith

module _ (sites : Sites) (handle : Bytes) (ms : List MemberRow) where
  remove_checked-passes :
      (a : Answers) (caller : Option SessionUser) (ac : Access) (u v : ℕ)
      → resolve_access sites (as_members a ms) caller handle cap_owner ≡ ok ac
      → a.list_error ≡ none
      → u ≢ v
      → find_role ac.site.id u ms ≡ some owner
      → find_role ac.site.id v ms ≡ some owner
      → (remove_checked sites a caller handle (some u) ms).0 ≡ ok (ac.site.id, u)
  unfolding remove_checked ◌>>=◌
  remove_checked-passes a caller ac u v access listed ne hu hv =
      ground (arith, access, listed, two-spared ac.site.id u v ms ne hu hv)

  -- When the only two owners of a site are removed by requests of owners that overlap, both checks
  -- pass, and after both statements the site has no owner.
  pub removals_race :
      (a a' : Answers) (caller caller' : Option SessionUser) (ac : Access) (ac' : Access) (u v : ℕ)
      → resolve_access sites (as_members a ms) caller handle cap_owner ≡ ok ac
      → resolve_access sites (as_members a' ms) caller' handle cap_owner ≡ ok ac'
      → ac'.site.id ≡ ac.site.id
      → a.list_error ≡ none
      → a'.list_error ≡ none
      → u ≢ v
      → find_role ac.site.id u ms ≡ some owner
      → find_role ac.site.id v ms ≡ some owner
      → ((x : ℕ) → find_role ac.site.id x ms ≡ some owner → (x ≡ u) ⊎ (x ≡ v))
      → ((remove_checked sites a caller handle (some u) ms).0 ≡ ok (ac.site.id, u))
        × ((remove_checked sites a' caller' handle (some v) ms).0 ≡ ok (ac'.site.id, v))
        × ((x : ℕ)
            → find_role ac.site.id x (drop_member ac.site.id v (drop_member ac.site.id u ms))
              ≢ some owner)
  removals_race a a' caller caller' ac ac' u v access access' same listed listed' ne hu hv only = (
    remove_checked-passes a caller ac u v access listed ne hu hv,
    remove_checked-passes a' caller' ac' v u access' listed' (λ e. ne (sym e)) (rw same hv)
        (rw same hu),
    λ x e. ground (
      arith,
      find_role-drop_member ac.site.id v x (drop_member ac.site.id u ms),
      find_role-drop_member ac.site.id u x ms,
      only x,
    ),
  )
