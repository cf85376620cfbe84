-- ===== src/Authz/Membership/Requests.antt =====
-- Requests in any order, each of which ends before the next begins.
use kotoji.Prelude.{All, Result, ok, err, ℕ, ◌≡◌, refl, Option, none, some, List, [], ◌∷◌, arith}
use kotoji.Action.{then, Ends, Ensures, checks, given, reads}
use kotoji.Authz.{Sites, owner}
use kotoji.Authz.Api.{SessionUser}
use kotoji.Authz.Membership.{
  MemberRow, add_member, MemberRequest, after_requests, MemberError, adds, removes, upsert_member,
  MemberCall, changes, member_call, NewMember, Answers,
}
use kotoji.Authz.Membership.Counting.{owners-upsert_owner, IsKeyed, HasOwner}
use kotoji.Authz.Membership.Keys.{upsert_member-IsKeyed}
use kotoji.Authz.Membership.Ownership.{
  counted, owned, IsOwned, remove_member-Kept, rows-Ensures, update_member_role-Kept,
}
use kotoji.Text.{Bytes}

-- A request that may not take the last owner away: a change or a removal for which the list of the
-- members is read, or an addition of an owner.
abbrev pub IsSparing : Answers → MemberCall → Type 0
IsSparing a (adds none) = Unit {0}
IsSparing a (adds (some new)) = new.role ≡ owner
IsSparing a (changes user role) = a.list_error ≡ none
IsSparing a (removes user) = a.list_error ≡ none

module _ (sid : ℕ) (sites : Sites) where
  add_owner-Kept :
      (a : Answers) (caller : Option SessionUser) (handle : Bytes) (body : Option NewMember)
      → IsSparing a (adds body)
      → Ensures
          (IsOwned sid)
          (add_member sites a caller handle body)
          (λ _. IsOwned sid)
          (IsOwned sid)
  unfolding add_member
  add_owner-Kept a caller handle none h = then (reads (λ _. refl)) λ ac.
      then {Q = λ _ _. ⊥} (record { run = λ ms p. p }) λ new. record { run = λ ms p. absurd p }
  add_owner-Kept a caller handle (some new) h = then (reads (λ _. refl)) λ ac.
      then {Q = λ x ms. IsOwned sid ms × (x.role ≡ owner)} (record { run = λ ms p. (p, h) })
        λ x. given λ is_owner. then (checks _) λ _. then (reads (λ _. refl)) λ target.
          rows-Ensures a.write_error (upsert_member ac.site.id target x.role) (λ _ p. p)
            (λ ms p.
              let (k, some_owner) = counted sid ms p in
              owned sid _ (upsert_member-IsKeyed ac.site.id target x.role ms k) (
                rw is_owner
                  (omega (arith, owners-upsert_owner sid target ac.site.id ms, some_owner))))

  member_call-Kept :
      (a : Answers) (caller : Option SessionUser) (handle : Bytes) (c : MemberCall)
      → IsSparing a c
      → Ensures (IsOwned sid) (member_call sites a caller handle c) (λ _. IsOwned sid) (IsOwned sid)
  unfolding member_call
  member_call-Kept a caller handle (adds body) h = add_owner-Kept a caller handle body h
  member_call-Kept a caller handle (changes user role) h =
      update_member_role-Kept sid sites a h caller handle user role
  member_call-Kept a caller handle (removes user) h =
      remove_member-Kept sid sites a h caller handle user

  ended :
      {A : Type 0} (P : List MemberRow → Type 0) (r : Result MemberError A × List MemberRow)
      → Ends (λ _. P) P r
      → P r.1
  ended P (ok x, ms) p = p
  ended P (err e, ms) p = p

  -- A site that has an owner has one after any requests that come one after the other, whoever makes
  -- them and whether they succeed or not, if the list of the members is read for each change and
  -- removal, and each addition is of an owner. Nothing is said of requests that overlap.
  pub after_requests-owned :
      (rs : List MemberRequest) (ms : List MemberRow)
      → All (λ r. IsSparing r.answers r.call) rs
      → IsKeyed ms
      → HasOwner sid ms
      → HasOwner sid (after_requests sites rs ms)
  unfolding after_requests
  after_requests-owned [] ms h k o = o
  after_requests-owned (r ∷ rs) ms h k o =
      let (k', o') =
        ended (IsOwned sid) (member_call sites r.answers r.caller r.handle r.call ms)
          ((member_call-Kept r.answers r.caller r.handle r.call h.0).run ms (k, o)) in
      after_requests-owned rs (member_call sites r.answers r.caller r.handle r.call ms).1 h.1 k' o'
