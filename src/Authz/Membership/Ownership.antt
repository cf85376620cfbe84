-- ===== src/Authz/Membership/Ownership.antt =====
-- No site loses its last owner by a change of a role or a removal, and when one does by an addition.
use kotoji.Prelude.{
  ◌==◌, Bool-cases, ℕ, ◌<◌, ◌≡◌, refl, sym, ap, ◌∙◌, inl, inr, Bool, true, false, ◌&&◌, not, Option,
  none, some, List, arith,
}
use kotoji.Action.{Ends, check_none-same, check_none, Ensures, reads, checks, on_failure, then}
use kotoji.Authz.{SiteRole, Sites, SiteError}
use kotoji.Authz.Api.{SessionUser, HttpError}
use kotoji.Authz.Membership.{
  remove_member, Answers, update_member_role, set_role, writes_rows, refuse_if, MemberRow,
  sole_owner_loop, members_of, is_owner, drop_member, sole_owner_unless,
}
use kotoji.Authz.Membership.Counting.{
  owners-set_role, owners-HasOwner, owners_by, owners-drop_member, owners_by-owners, HasOwner,
  IsKeyed, is_owner→, sole_owner_loop_lem, owners-set_owner, HasOwner-owners, owners-set_role_other,
  owners-drop_member_other, owners, owners_by-le,
}
use kotoji.Authz.Membership.Keys.{set_role-IsKeyed, drop_member-IsKeyed}
use kotoji.Text.{Bytes}

sole-false :
    (sid user : ℕ) (ms : List MemberRow)
    → IsKeyed ms
    → 0 < owners sid ms
    → sole_owner_loop user (members_of sid ms) 0 false ≡ false
    → owners_by sid user ms < owners sid ms
sole-false sid user ms k some_owner h = ground (
  arith,
  sole_owner_loop_lem sid user ms 0 false,
  owners_by-le sid user ms k,
  owners_by-owners sid user ms,
)

demoted :
    (s user : ℕ) (role : SiteRole) (sid : ℕ) (ms : List MemberRow)
    → IsKeyed ms
    → 0 < owners sid ms
    → (not (is_owner role) && sole_owner_loop user (members_of s ms) 0 false) ≡ false
    → 0 < owners sid (set_role s user role ms)
demoted s user role sid ms k some_owner h = elim (Bool-cases (s == sid)) [
  | inr e ↦ rw (owners-set_role_other sid user s role ms e) some_owner
  | inl e ↦
      let same : s ≡ sid = ground arith in
      elim (Bool-cases (is_owner role)) [
        | inl o ↦
            rw (same, is_owner→ role o) (omega (arith, owners-set_owner sid user ms, some_owner))
        | inr o ↦ rw same (lower o (rw (o, same) at h))
      ]
]
  where
    lower :
        is_owner role ≡ false
        → sole_owner_loop user (members_of sid ms) 0 false ≡ false
        → 0 < owners sid (set_role sid user role ms)
    lower o h =
        omega (arith, owners-set_role sid user role ms o, sole-false sid user ms k some_owner h)

dropped :
    (s user sid : ℕ) (ms : List MemberRow)
    → IsKeyed ms
    → 0 < owners sid ms
    → sole_owner_loop user (members_of s ms) 0 false ≡ false
    → 0 < owners sid (drop_member s user ms)
dropped s user sid ms k some_owner h = elim (Bool-cases (s == sid)) [
  | inr e ↦ rw (owners-drop_member_other sid user s ms e) some_owner
  | inl e ↦ let same : s ≡ sid = ground arith in rw same (fewer (rw same at h))
]
  where
    fewer :
        sole_owner_loop user (members_of sid ms) 0 false ≡ false
        → 0 < owners sid (drop_member sid user ms)
    fewer h = omega (arith, owners-drop_member sid user ms, sole-false sid user ms k some_owner h)

-- The key of the rows, and an owner of the site.
abbrev pub IsOwned : ℕ → List MemberRow → Type 0
IsOwned sid ms = IsKeyed ms × HasOwner sid ms

pub counted : (sid : ℕ) (ms : List MemberRow) → IsOwned sid ms → IsKeyed ms × (0 < owners sid ms)
counted sid ms (k, (user, e)) = (k, HasOwner-owners sid user ms e)

pub owned : (sid : ℕ) (ms : List MemberRow) → IsKeyed ms → 0 < owners sid ms → IsOwned sid ms
owned sid ms k some_owner = (k, owners-HasOwner sid ms k some_owner)

-- A guard on the rows, and a statement that changes them.
guards :
    {P : List MemberRow → Type 0} (c : List MemberRow → Bool) (e : HttpError)
    → Ensures P (λ ms. check_none (refuse_if (c ms) e) ms) (λ _ ms. P ms × (c ms ≡ false)) P
guards {P = P} c e = record { run = λ ms p. guarded ms p (c ms) refl }
  where
    guarded :
        (ms : List MemberRow)
        → P ms
        → (b : Bool) → c ms ≡ b
        → Ends (λ _ ms. P ms × (c ms ≡ false)) P (check_none (refuse_if b e) ms)
    guarded ms p true q = p
    guarded ms p false q = (p, q)

pub rows-Ensures :
    {Q P : List MemberRow → Type 0} (e : Option SiteError) (f : List MemberRow → List MemberRow)
    → ((ms : List MemberRow) → Q ms → P ms)
    → ((ms : List MemberRow) → Q ms → P (f ms))
    → Ensures Q (writes_rows e f) (λ _. P) P
rows-Ensures none f k j = record { run = j }
rows-Ensures (some e) f k j = record { run = k }

module _ (sid : ℕ) (sites : Sites) (a : Answers) (listed : a.list_error ≡ none)
    (caller : Option SessionUser) (handle : Bytes) where
  abbrev Kept : List MemberRow → Type 0
  Kept = IsOwned sid

  unguarded :
      (s user : ℕ) (ms : List MemberRow)
      → sole_owner_unless a.list_error s user ms ≡ sole_owner_loop user (members_of s ms) 0 false
  unguarded s user ms = rw listed refl

  pub update_member_role-Kept :
      (user : Option ℕ) (role : Option SiteRole)
      → Ensures Kept (update_member_role sites a caller handle user role) (λ _. Kept) Kept
  unfolding update_member_role
  update_member_role-Kept u r = then (reads (λ _. refl)) λ ac. then (reads (λ _. refl)) λ user.
      then (reads (λ _. refl)) λ role. then (checks _) λ _.
        then
          (guards (λ ms. not (is_owner role) && sole_owner_unless a.list_error ac.site.id user ms)
            _)
          λ _. then (on_failure (λ _ p. p.0) (reads (λ ms. check_none-same _ ms))) λ _.
            then
              (rows-Ensures a.write_error (set_role ac.site.id user role) (λ _ p. p.0)
                (λ ms (p, h).
                  let (k, some_owner) = counted sid ms p in
                  owned sid _ (set_role-IsKeyed ac.site.id user role ms k) (
                    demoted ac.site.id user role sid ms k some_owner (
                      ap (λ t. not (is_owner role) && t) (sym (unguarded ac.site.id user ms))
                      ∙ h))))
              λ _. checks _

  pub remove_member-Kept :
      (user : Option ℕ) → Ensures Kept (remove_member sites a caller handle user) (λ _. Kept) Kept
  unfolding remove_member
  remove_member-Kept u =
      then {Q = λ t ms. Kept ms × (sole_owner_unless a.list_error t.0 t.1 ms ≡ false)}
        (then (reads (λ _. refl)) λ ac. then (reads (λ _. refl)) λ user.
          then (guards (λ ms. sole_owner_unless a.list_error ac.site.id user ms) _)
            λ _. record { run = λ ms p. p })
        λ t.
          rows-Ensures a.write_error (drop_member t.0 t.1) (λ _ p. p.0)
            (λ ms (p, h).
              let (k, some_owner) = counted sid ms p in
              owned sid _ (drop_member-IsKeyed t.0 t.1 ms k)
                (dropped t.0 t.1 sid ms k some_owner (sym (unguarded t.0 t.1 ms) ∙ h)))
