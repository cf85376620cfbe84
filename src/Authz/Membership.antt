-- ===== src/Authz/Membership.antt =====
-- backend/internal/api/members.go, on the rows of internal/db/queries/members.sql: who is added to a
-- site, who gets another role, and who is removed. The rows are one list; what the store answers to
-- one request is in `Answers`. The handlers take no lock and no transaction: a handler here is what it
-- does when no other one runs between its statements, and Racing lets two of them overlap.
pub mod Counting
pub mod Keys
pub mod Ownership
pub mod Requests
pub mod Adding
pub mod Racing
use kotoji.Prelude.{
  ◌==◌, if◌then◌else◌, Result, ok, err, ℕ, ◌+◌, Bool, true, false, ◌&&◌, ◌||◌, not, Option, none,
  some, List, [], ◌∷◌,
}
use kotoji.Action.{◌>>=◌, ◌>>◌, then, pure, Action, check_none, gets}
use kotoji.Authz.{
  viewer, editor, store_error, RoleError, Sites, other_role, owner, SiteError, SiteRole, no_rows,
  Members,
}
use kotoji.Authz.Api.{HttpError, Access, SessionUser, http_error, resolve_access, cap_owner}
use kotoji.Text.{Bytes}

-- A row of `site_members`, whose key is the site and the user.
pub record MemberRow : Type 0 where
  pub site_id : ℕ
  pub user_id : ℕ
  pub role : SiteRole

abbrev pub is_owner : SiteRole → Bool
is_owner owner = true
is_owner _ = false

abbrev pub is_row : ℕ → ℕ → MemberRow → Bool
is_row sid user m = (m.site_id == sid) && (m.user_id == user)

-- `GetRole` and `GetMember`.
unfoldable pub find_role : ℕ → ℕ → List MemberRow → Option SiteRole
find_role sid user [] = none
find_role sid user (m ∷ ms) = if is_row sid user m then some m.role else find_role sid user ms

-- `AddMember`: an insert, or else an update of the role.
unfoldable pub upsert_member : ℕ → ℕ → SiteRole → List MemberRow → List MemberRow
upsert_member sid user role [] = record { site_id = sid; user_id = user; role = role } ∷ []
upsert_member sid user role (m ∷ ms) =
    if is_row sid user m then record m { role = role } ∷ ms else m ∷ upsert_member sid user role ms

-- `UpdateMemberRole`.
unfoldable pub set_role : ℕ → ℕ → SiteRole → List MemberRow → List MemberRow
set_role sid user role [] = []
set_role sid user role (m ∷ ms) =
    (if is_row sid user m then record m { role = role } else m) ∷ set_role sid user role ms

-- `RemoveMember`.
unfoldable pub drop_member : ℕ → ℕ → List MemberRow → List MemberRow
drop_member sid user [] = []
drop_member sid user (m ∷ ms) =
    if is_row sid user m then drop_member sid user ms else m ∷ drop_member sid user ms

-- What `ListMembers` gives of the rows.
unfoldable pub members_of : ℕ → List MemberRow → List MemberRow
members_of sid [] = []
members_of sid (m ∷ ms) = if m.site_id == sid then m ∷ members_of sid ms else members_of sid ms

-- The loop of `isSoleOwner`, with the owners so far, and whether the target is one.
unfoldable pub sole_owner_loop : ℕ → List MemberRow → ℕ → Bool → Bool
sole_owner_loop user [] owners target = target && (owners == 1)
sole_owner_loop user (m ∷ ms) owners target =
    if is_owner m.role
    then sole_owner_loop user ms (owners + 1) (m.user_id == user || target)
    else sole_owner_loop user ms owners target

abbrev pub valid_role : SiteRole → Bool
valid_role owner = true
valid_role editor = true
valid_role viewer = true
valid_role (other_role r) = false

-- What the store answers to one request, where it is not the rows.
pub record Answers : Type 0 where
  pub role_error : Option SiteError
  pub list_error : Option SiteError
  pub get_error : Option SiteError
  pub write_error : Option SiteError
  pub user_error : Option SiteError
  pub user_by_email : Bytes → Result RoleError ℕ

-- An error of the endpoint's own, or what `writeServiceError` makes of the store's.
pub data MemberError : Type 0 where
  refused : HttpError → MemberError
  failed : SiteError → MemberError

-- The rows, as the gate of the endpoints reads them.
abbrev pub role_answer : Option SiteError → Option SiteRole → Result RoleError SiteRole
role_answer (some e) o = err (store_error e)
role_answer none none = err no_rows
role_answer none (some r) = ok r

abbrev pub as_members : Answers → List MemberRow → Members
as_members a ms sid user = role_answer a.role_error (find_role sid user ms)

-- `isSoleOwner`, where an error of the store counts as no.
abbrev pub sole_owner_unless : Option SiteError → ℕ → ℕ → List MemberRow → Bool
sole_owner_unless (some e) sid user ms = false
sole_owner_unless none sid user ms = sole_owner_loop user (members_of sid ms) 0 false

abbrev pub Rows : Type 0 → Type 0
Rows A = Action (List MemberRow) MemberError A

abbrev pub or_refused_access : Result HttpError Access → Result MemberError Access
or_refused_access (ok ac) = ok ac
or_refused_access (err e) = err (refused e)

abbrev pub owner_access : Sites → Answers → Option SessionUser → Bytes → Rows Access
owner_access sites a caller handle =
    gets (λ ms. or_refused_access (resolve_access sites (as_members a ms) caller handle cap_owner))

abbrev pub given_or : {A : Type 0} → Option A → HttpError → Result MemberError A
given_or none e = err (refused e)
given_or (some x) e = ok x

abbrev pub to_failed : Option SiteError → Option MemberError
to_failed none = none
to_failed (some e) = some (failed e)

abbrev pub malformed : HttpError
malformed = http_error 400 "validation" "malformed body"

abbrev pub invalid_role : HttpError
invalid_role = http_error 422 "validation" "invalid role"

abbrev pub invalid_user_id : HttpError
invalid_user_id = http_error 422 "validation" "invalid user id"

abbrev pub refuse_if : Bool → HttpError → Option MemberError
refuse_if true e = some (refused e)
refuse_if false e = none

abbrev pub user_found : Result RoleError ℕ → Result MemberError ℕ
user_found (ok id) = ok id
user_found (err no_rows) =
    err (refused (http_error 422 "validation" "no user with that email has signed in yet"))
user_found (err (store_error e)) = err (failed e)

abbrev pub member_found : Result RoleError SiteRole → Option MemberError
member_found (ok r) = none
member_found (err no_rows) = some (refused (http_error 404 "not_found" "member not found"))
member_found (err (store_error e)) = some (failed e)

-- A statement of the store that changes the rows, if it succeeds.
abbrev pub writes_rows : Option SiteError → (List MemberRow → List MemberRow) → Rows (Unit {0})
writes_rows (some e) f ms = (err (failed e), ms)
writes_rows none f ms = (ok tt, f ms)

pub record NewMember : Type 0 where
  pub email : Bytes
  pub role : SiteRole

-- A request by its caller, the handle, and what follows; `none` is what does not parse.
pub data MemberCall : Type 0 where
  adds : Option NewMember → MemberCall
  changes : (user : Option ℕ) → (role : Option SiteRole) → MemberCall
  removes : (user : Option ℕ) → MemberCall

module _ (sites : Sites) (a : Answers) (caller : Option SessionUser) (handle : Bytes) where
  -- `addMember`.
  unfoldable pub add_member : Option NewMember → Rows (Unit {0})
  add_member body = do
    ac ← owner_access sites a caller handle
    new ← gets (λ ms. given_or body malformed)
    check_none (refuse_if (not (valid_role new.role)) invalid_role)
    target ← gets (λ ms. user_found (a.user_by_email new.email))
    writes_rows a.write_error (upsert_member ac.site.id target new.role)

  -- `updateMemberRole`.
  unfoldable pub update_member_role : Option ℕ → Option SiteRole → Rows (Unit {0})
  update_member_role user_id body = do
    ac ← owner_access sites a caller handle
    user ← gets (λ ms. given_or user_id invalid_user_id)
    role ← gets (λ ms. given_or body malformed)
    check_none (refuse_if (not (valid_role role)) invalid_role)
    λ ms.
        check_none
          (refuse_if (not (is_owner role) && sole_owner_unless a.list_error ac.site.id user ms)
            (http_error 409 "conflict" "cannot demote the sole owner"))
          ms
    λ ms. check_none (member_found (role_answer a.get_error (find_role ac.site.id user ms))) ms
    writes_rows a.write_error (set_role ac.site.id user role)
    check_none (to_failed a.user_error)

  -- `removeMember` up to its statement: the site and the user of the row to remove.
  unfoldable pub remove_checked : Option ℕ → Rows (ℕ × ℕ)
  remove_checked user_id = do
    ac ← owner_access sites a caller handle
    user ← gets (λ ms. given_or user_id invalid_user_id)
    λ ms.
        check_none
          (refuse_if (sole_owner_unless a.list_error ac.site.id user ms)
            (http_error 409 "conflict" "cannot remove the sole owner"))
          ms
    pure (ac.site.id, user)

  -- `removeMember`.
  unfoldable pub remove_member : Option ℕ → Rows (Unit {0})
  unfolding remove_checked
  remove_member user_id = do
    target ← remove_checked user_id
    writes_rows a.write_error (drop_member target.0 target.1)

  unfoldable pub member_call : MemberCall → Rows (Unit {0})
  unfolding add_member update_member_role remove_member
  member_call (adds body) = add_member body
  member_call (changes user role) = update_member_role user role
  member_call (removes user) = remove_member user

-- A request, with its caller and what the store answers to it.
pub record MemberRequest : Type 0 where
  pub answers : Answers
  pub caller : Option SessionUser
  pub handle : Bytes
  pub call : MemberCall

unfoldable pub after_requests : Sites → List MemberRequest → List MemberRow → List MemberRow
after_requests sites [] ms = ms
after_requests sites (r ∷ rs) ms =
    after_requests sites rs (member_call sites r.answers r.caller r.handle r.call ms).1
