-- ===== src/Authz/Membership/Keys.antt =====
-- The key of the rows under the three statements that change them.
use kotoji.Prelude.{
  ◌==◌, if◌then◌else◌, Bool-cases, ℕ, ◌≡◌, refl, inl, inr, false, ◌&&◌, none, some, List, [], ◌∷◌,
  arith,
}
use kotoji.Authz.{SiteRole}
use kotoji.Authz.Membership.{set_role, drop_member, is_row, find_role, upsert_member, MemberRow}
use kotoji.Authz.Membership.Counting.{IsKeyed}

-- What an addition leaves.
pub find_role-upsert_member :
    (sid user : ℕ) (role : SiteRole) (s u : ℕ) (ms : List MemberRow)
    → find_role s u (upsert_member sid user role ms)
      ≡ (if (sid == s) && (user == u) then some role else find_role s u ms)
unfolding find_role upsert_member
find_role-upsert_member sid user role s u [] = ground arith
find_role-upsert_member sid user role s u (m ∷ ms) =
    ground (arith, find_role-upsert_member sid user role s u ms)

module _ (sid user : ℕ) where
  -- No statement takes the key of a row twice.
  set_role-absent :
      (s u : ℕ) (role : SiteRole) (ms : List MemberRow)
      → find_role s u ms ≡ none
      → find_role s u (set_role sid user role ms) ≡ none
  unfolding find_role set_role
  set_role-absent s u role [] h = refl
  set_role-absent s u role (m ∷ ms) h = ground (arith, set_role-absent s u role ms)

  drop_member-absent :
      (s u : ℕ) (ms : List MemberRow)
      → find_role s u ms ≡ none
      → find_role s u (drop_member sid user ms) ≡ none
  unfolding find_role drop_member
  drop_member-absent s u [] h = refl
  drop_member-absent s u (m ∷ ms) h = ground (arith, drop_member-absent s u ms)

  upsert_member-absent :
      (s u : ℕ) (role : SiteRole) (ms : List MemberRow)
      → find_role s u ms ≡ none
      → ((s == sid) && (u == user)) ≡ false
      → find_role s u (upsert_member sid user role ms) ≡ none
  unfolding find_role upsert_member
  upsert_member-absent s u role [] h n = ground arith
  upsert_member-absent s u role (m ∷ ms) h n = ground (arith, upsert_member-absent s u role ms)

  pub set_role-IsKeyed :
      (role : SiteRole) (ms : List MemberRow) → IsKeyed ms → IsKeyed (set_role sid user role ms)
  unfolding set_role
  set_role-IsKeyed role [] k = tt
  set_role-IsKeyed role (m ∷ ms) k = elim (Bool-cases (is_row sid user m)) [
    | inl e ↦ rw e (set_role-absent m.site_id m.user_id role ms k.0, set_role-IsKeyed role ms k.1)
    | inr e ↦ rw e (set_role-absent m.site_id m.user_id role ms k.0, set_role-IsKeyed role ms k.1)
  ]

  pub drop_member-IsKeyed : (ms : List MemberRow) → IsKeyed ms → IsKeyed (drop_member sid user ms)
  unfolding drop_member
  drop_member-IsKeyed [] k = tt
  drop_member-IsKeyed (m ∷ ms) k = elim (Bool-cases (is_row sid user m)) [
    | inl e ↦ rw e (drop_member-IsKeyed ms k.1)
    | inr e ↦ rw e (drop_member-absent m.site_id m.user_id ms k.0, drop_member-IsKeyed ms k.1)
  ]

  pub upsert_member-IsKeyed :
      (role : SiteRole) (ms : List MemberRow)
      → IsKeyed ms
      → IsKeyed (upsert_member sid user role ms)
  unfolding upsert_member find_role
  upsert_member-IsKeyed role [] k = (refl, tt)
  upsert_member-IsKeyed role (m ∷ ms) k = elim (Bool-cases (is_row sid user m)) [
    | inl e ↦ rw e (k.0, k.1)
    | inr e ↦
        rw e (
          upsert_member-absent m.site_id m.user_id role ms k.0 e,
          upsert_member-IsKeyed role ms k.1,
        )
  ]
