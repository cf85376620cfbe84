-- ===== src/Tests/Roles.antt =====
-- A site with one owner and an editor.
use kotoji.Prelude.{
  if◌then◌else◌, ok, err, ℕ, ◌≡◌, refl, ◌≢◌, false, Option, none, some, List, [], ◌∷◌, arith,
}
use kotoji.Action.{◌>>=◌}
use kotoji.Authz.{viewer, Sites, SiteInfo, not_found, SiteRole, editor, owner}
use kotoji.Authz.Api.{resolve_access, effective_role, SessionUser, role_allows, Access}
use kotoji.Authz.Membership.{
  MemberCall, members_of, sole_owner_loop, find_role, Answers, after_requests, upsert_member,
  add_member, set_role, MemberRequest, member_call, changes, MemberRow, adds, NewMember,
}
use kotoji.Authz.Membership.Adding.{IsOwnerHere, member_call_gated, add_member_ownerless}
use kotoji.Authz.Membership.Counting.{HasOwner, IsKeyed}
use kotoji.Authz.Membership.Requests.{after_requests-owned}
use kotoji.Tests.{blog}
use kotoji.Text.{bytes_eq, codes}

abbrev row : ℕ → SiteRole → MemberRow
row user role = record { site_id = 1; user_id = user; role = role }

abbrev rows : List MemberRow
rows = row 7 owner ∷ row 8 editor ∷ []

abbrev the_site : SiteInfo
the_site = record { id = 1; handle = blog }

abbrev the_sites : Sites
the_sites h = if bytes_eq h blog then ok the_site else err not_found

abbrev fine : Answers
fine = record {
  role_error = none;
  list_error = none;
  get_error = none;
  write_error = none;
  user_error = none;
  user_by_email = λ email. ok 7;
}

abbrev owner_caller : Option SessionUser
owner_caller = some (record { user_id = 7; is_admin = false })

abbrev request : MemberCall → MemberRequest
request c = record { answers = fine; caller = owner_caller; handle = blog; call = c }

-- The owner makes the editor an owner, and then steps back.
abbrev handover : List MemberRequest
handover =
    request (changes (some 7) (some viewer))
    ∷ request (changes (some 8) (some owner))
    ∷ request (changes (some 7) (some viewer))
    ∷ []

rows-IsKeyed : IsKeyed rows
unfolding find_role
rows-IsKeyed = (refl, (refl, tt))

after_requests-owned_example : HasOwner 1 (after_requests the_sites handover rows)
unfolding find_role
after_requests-owned_example =
    after_requests-owned 1 the_sites handover rows (refl, (refl, (refl, tt))) rows-IsKeyed (7, refl)

handed_on : after_requests the_sites handover rows ≡ row 7 viewer ∷ row 8 owner ∷ []
unfolding after_requests member_call ◌>>=◌ resolve_access bytes_eq effective_role find_role
    role_allows sole_owner_loop members_of set_role
handed_on = refl

abbrev again : NewMember
again = record { email = codes "ann@example.org"; role = viewer }

abbrev re_added : List MemberRow
re_added = (member_call the_sites fine owner_caller blog (adds (some again)) rows).1

re_added_changed : re_added ≡ row 7 viewer ∷ row 8 editor ∷ []
unfolding member_call ◌>>=◌ resolve_access bytes_eq effective_role find_role role_allows
    upsert_member
re_added_changed = refl

re_added_differs : re_added ≢ rows
re_added_differs e = ground (arith, re_added_changed)

member_call_gated_example : (ac : Access) × IsOwnerHere the_sites fine owner_caller blog rows ac
member_call_gated_example =
    member_call_gated the_sites fine owner_caller blog rows (adds (some again)) re_added_differs

ok_again : (add_member the_sites fine owner_caller blog (some again) rows).0 ≡ ok tt
unfolding add_member ◌>>=◌ resolve_access bytes_eq effective_role find_role role_allows
ok_again = refl

viewer-ne-owner : viewer ≢ owner
viewer-ne-owner e = ground arith

only_seven : (user : ℕ) → find_role 1 user rows ≡ some owner → user ≡ 7
unfolding find_role
only_seven user h = ground arith

add_member_ownerless_example :
    find_role 1 7 (add_member the_sites fine owner_caller blog (some again) rows).1 ≢ some owner
unfolding bytes_eq
add_member_ownerless_example =
    add_member_ownerless the_sites fine owner_caller blog rows again the_site 7 refl refl ok_again
      viewer-ne-owner only_seven 7
