-- ===== src/Authz/Membership/Counting.antt =====
-- The rows of a site, and how many of them are an owner's.
use kotoji.Prelude.{
  ltb, ◌==◌, Bool-cases, ℕ, ◌+◌, ◌≤◌, ◌<◌, ◌≡◌, refl, ◌≢◌, inl, inr, Bool, true, false, ◌&&◌, ◌||◌,
  Option, none, some, List, [], ◌∷◌, arith,
}
use kotoji.Authz.{SiteRole, editor, other_role, owner, viewer}
use kotoji.Authz.Membership.{
  set_role, MemberRow, find_role, is_row, sole_owner_loop, drop_member, upsert_member, is_owner,
  members_of,
}

-- No two rows have the same key.
abbrev pub IsKeyed : List MemberRow → Type 0
IsKeyed [] = Unit
IsKeyed (m ∷ ms) = (find_role m.site_id m.user_id ms ≡ none) × IsKeyed ms

-- Somebody's role is owner.
abbrev pub HasOwner : ℕ → List MemberRow → Type 0
HasOwner sid ms = (user : ℕ) × (find_role sid user ms ≡ some owner)

abbrev one_if : Bool → ℕ
one_if true = 1
one_if false = 0

pub owners : ℕ → List MemberRow → ℕ
owners sid [] = 0
owners sid (m ∷ ms) = one_if ((m.site_id == sid) && is_owner m.role) + owners sid ms

pub owners_by : ℕ → ℕ → List MemberRow → ℕ
owners_by sid user [] = 0
owners_by sid user (m ∷ ms) = one_if (is_row sid user m && is_owner m.role) + owners_by sid user ms

pub is_owner→ : (r : SiteRole) → is_owner r ≡ true → r ≡ owner
is_owner→ owner h = refl
is_owner→ editor h = ground arith
is_owner→ viewer h = ground arith
is_owner→ (other_role x) h = ground arith

owners_by-absent :
    (sid user : ℕ) (ms : List MemberRow) → find_role sid user ms ≡ none → owners_by sid user ms ≡ 0
unfolding owners_by find_role
owners_by-absent sid user [] h = refl
owners_by-absent sid user (m ∷ ms) h = ground (arith, owners_by-absent sid user ms)

same_key :
    (sid user : ℕ) (m : MemberRow) (ms : List MemberRow)
    → is_row sid user m ≡ true
    → find_role m.site_id m.user_id ms ≡ none
    → find_role sid user ms ≡ none
same_key sid user m ms h k =
    let s : m.site_id ≡ sid = ground arith in
    let u : m.user_id ≡ user = ground arith in rw (s, u) at k

pub owners_by-le : (sid user : ℕ) (ms : List MemberRow) → IsKeyed ms → owners_by sid user ms ≤ 1
unfolding owners_by
owners_by-le sid user [] k = omega arith
owners_by-le sid user (m ∷ ms) k = elim (Bool-cases (is_row sid user m)) [
  | inl e ↦
      let none_left = owners_by-absent sid user ms (same_key sid user m ms e k.0) in
      ground (arith, none_left)
  | inr e ↦ ground (arith, owners_by-le sid user ms k.1)
]

pub owners_by-owners : (sid user : ℕ) (ms : List MemberRow) → owners_by sid user ms ≤ owners sid ms
unfolding owners_by owners
owners_by-owners sid user [] = omega arith
owners_by-owners sid user (m ∷ ms) = ground (arith, owners_by-owners sid user ms)

-- What the loop counts.
pub sole_owner_loop_lem :
    (sid user : ℕ) (ms : List MemberRow) (n : ℕ) (target : Bool)
    → sole_owner_loop user (members_of sid ms) n target
      ≡ ((target || ltb 0 (owners_by sid user ms)) && (n + owners sid ms == 1))
unfolding sole_owner_loop members_of owners owners_by
sole_owner_loop_lem sid user [] n target = ground arith
sole_owner_loop_lem sid user (m ∷ ms) n target = ground (
  arith,
  sole_owner_loop_lem sid user ms (n + 1) (m.user_id == user || target),
  sole_owner_loop_lem sid user ms n target,
)

pub owner→ : (r : SiteRole) → is_owner r ≡ false → r ≢ owner
owner→ owner h e = ground arith
owner→ editor h e = ground arith
owner→ viewer h e = ground arith
owner→ (other_role x) h e = ground arith

pub HasOwner-owners :
    (sid user : ℕ) (ms : List MemberRow) → find_role sid user ms ≡ some owner → 0 < owners sid ms
unfolding find_role owners
HasOwner-owners sid user [] h = ground arith
HasOwner-owners sid user (m ∷ ms) h = ground (arith, owner→ m.role, HasOwner-owners sid user ms)

pub owner_counted :
    (s x : ℕ) (ms : List MemberRow) → find_role s x ms ≡ some owner → 0 < owners_by s x ms
unfolding find_role owners_by
owner_counted s x [] h = ground arith
owner_counted s x (m ∷ ms) h = ground (arith, owner_counted s x ms)

pub owners_by-two :
    (s u v : ℕ) (ms : List MemberRow) → u ≢ v → owners_by s u ms + owners_by s v ms ≤ owners s ms
unfolding owners_by owners
owners_by-two s u v [] ne = omega arith
owners_by-two s u v (m ∷ ms) ne = ground (arith, owners_by-two s u v ms ne)

pub owners-HasOwner :
    (sid : ℕ) (ms : List MemberRow) → IsKeyed ms → 0 < owners sid ms → HasOwner sid ms
unfolding find_role owners
owners-HasOwner sid [] k h = ground arith
owners-HasOwner sid (m ∷ ms) k h = elim (Bool-cases ((m.site_id == sid) && is_owner m.role)) [
  | inl e ↦ (m.user_id, ground (arith, is_owner→ m.role))
  | inr e ↦
      let (user, found) = owners-HasOwner sid ms k.1 (ground arith) in
      elim (Bool-cases (is_row sid user m)) [
        | inl q ↦ absurd (clash (same_key sid user m ms q k.0) found)
        | inr q ↦ (user, rw q found)
      ]
]
  where
    clash : {o : Option SiteRole} {r : SiteRole} → o ≡ none → o ≢ some r
    clash e k = ground arith

module _ (sid user : ℕ) where
  -- Who is not an owner any more is one owner less.
  pub owners-set_role :
      (role : SiteRole) (ms : List MemberRow)
      → is_owner role ≡ false
      → owners sid (set_role sid user role ms) + owners_by sid user ms ≡ owners sid ms
  unfolding owners owners_by set_role
  owners-set_role role [] h = refl
  owners-set_role role (m ∷ ms) h = ground (arith, owners-set_role role ms h)

  pub owners-set_owner :
      (ms : List MemberRow) → owners sid ms ≤ owners sid (set_role sid user owner ms)
  unfolding owners set_role
  owners-set_owner [] = omega arith
  owners-set_owner (m ∷ ms) = ground (arith, owners-set_owner ms)

  pub owners-drop_member :
      (ms : List MemberRow)
      → owners sid (drop_member sid user ms) + owners_by sid user ms ≡ owners sid ms
  unfolding owners owners_by drop_member
  owners-drop_member [] = refl
  owners-drop_member (m ∷ ms) = ground (arith, owners-drop_member ms)

  pub owners-set_role_other :
      (s : ℕ) (role : SiteRole) (ms : List MemberRow)
      → (s == sid) ≡ false
      → owners sid (set_role s user role ms) ≡ owners sid ms
  unfolding owners set_role
  owners-set_role_other s role [] h = refl
  owners-set_role_other s role (m ∷ ms) h = ground (arith, owners-set_role_other s role ms h)

  pub owners-drop_member_other :
      (s : ℕ) (ms : List MemberRow)
      → (s == sid) ≡ false
      → owners sid (drop_member s user ms) ≡ owners sid ms
  unfolding owners drop_member
  owners-drop_member_other s [] h = refl
  owners-drop_member_other s (m ∷ ms) h = ground (arith, owners-drop_member_other s ms h)

  pub owners-upsert_owner :
      (s : ℕ) (ms : List MemberRow) → owners sid ms ≤ owners sid (upsert_member s user owner ms)
  unfolding owners upsert_member
  owners-upsert_owner s [] = omega arith
  owners-upsert_owner s (m ∷ ms) = ground (arith, owners-upsert_owner s ms)
