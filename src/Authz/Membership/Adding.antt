-- ===== src/Authz/Membership/Adding.antt =====
-- Who may change the rows, and what an addition leaves.
use kotoji.Prelude.{
  Result, ok, err, ok-injective, ℕ, ◌≡◌, refl, sym, ap, ◌∙◌, subst, ◌≢◌, ◌⊎◌, inl, inr, Option,
  none, some, List, arith,
}
use kotoji.Action.{◌>>=◌, Ends, check_none-same, checks, reads, Ensures, on_failure, then}
use kotoji.Authz.{Sites, SiteError, owner, SiteInfo}
use kotoji.Authz.Api.{cap_owner, HttpError, resolve_access, Access, SessionUser}
use kotoji.Authz.Disclosure.{IsGranted, resolve_access_iff}
use kotoji.Authz.Membership.{
  Rows, as_members, upsert_member, removes, user_found, adds, NewMember, writes_rows,
  update_member_role, MemberRow, find_role, add_member, MemberCall, Answers, changes, remove_member,
  member_call, MemberError, owner_access, or_refused_access,
}
use kotoji.Authz.Membership.Keys.{find_role-upsert_member}
use kotoji.Text.{Bytes}

module _ (sites : Sites) (a : Answers) (caller : Option SessionUser) (handle : Bytes)
    (ms : List MemberRow) where
  abbrev Same : List MemberRow → Type 0
  Same ms' = ms' ≡ ms

  -- The caller has the rights of an owner on the site of the handle.
  abbrev pub IsOwnerHere : Access → Type 0
  IsOwnerHere ac = IsGranted sites (as_members a ms) caller handle cap_owner ac

  abbrev Gated : List MemberRow → Type 0
  Gated ms' = (ms' ≡ ms) ⊎ ((ac : Access) × IsOwnerHere ac)

  anyway :
      {A : Type 0} (R : List MemberRow → Type 0) (r : Result MemberError A × List MemberRow)
      → ((ms' : List MemberRow) → R ms')
      → Ends (λ _. R) R r
  anyway R (ok x, ms') h = h ms'
  anyway R (err e, ms') h = h ms'

  gate :
      Ensures Same (owner_access sites a caller handle) (λ ac ms'. Same ms' × IsOwnerHere ac) Same
  gate = record {
    run = λ ms' e.
        subst
          (λ x.
            Ends (λ ac ms'. Same ms' × IsOwnerHere ac) Same (owner_access sites a caller handle x))
          (sym e) (decided _ refl);
  }
    where
      decided :
          (r : Result HttpError Access)
          → resolve_access sites (as_members a ms) caller handle cap_owner ≡ r
          → Ends {E = MemberError}
              (λ ac ms'. Same ms' × IsOwnerHere ac)
              Same
              (or_refused_access r, ms)
      decided (ok ac) e = (refl, (resolve_access_iff _ _ caller handle cap_owner ac).0 e)
      decided (err x) e = refl

  gated :
      {A : Type 0} (k : Access → Rows A)
      → Ensures Same (owner_access sites a caller handle >>= k) (λ _. Gated) Gated
  gated k =
      then (on_failure (λ _ e. inl e) gate)
        λ ac. record { run = λ ms' (e, f). anyway Gated (k ac ms') (λ _. inr (ac, f)) }

  member_call-Gated :
      (c : MemberCall) → Ensures Same (member_call sites a caller handle c) (λ _. Gated) Gated
  unfolding member_call add_member update_member_role remove_member
  member_call-Gated (adds body) = gated _
  member_call-Gated (changes user role) = gated _
  member_call-Gated (removes user) =
      then {Q = λ _ ms'. Same ms' × ((ac : Access) × IsOwnerHere ac)}
        (then (on_failure (λ _ e. inl e) gate) λ ac.
          then (on_failure (λ _ p. inl p.0) (reads (λ _. refl))) λ u.
            then (on_failure (λ _ p. inl p.0) (reads (λ ms'. check_none-same _ ms')))
              λ _. record { run = λ ms' (e, f). (e, (ac, f)) })
        λ t. record {
          run = λ ms' (e, f). anyway Gated (writes_rows a.write_error _ ms') (λ _. inr f);
        }

  -- Whoever adds a member, changes a role or removes a member has the rights of an owner on the site:
  -- the role of an owner, or an administrator's account for which no role was read, because there is
  -- none or because the store failed.
  pub member_call_gated :
      (c : MemberCall)
      → (member_call sites a caller handle c ms).1 ≢ ms
      → (ac : Access) × IsOwnerHere ac
  member_call_gated c h =
      changed (member_call sites a caller handle c ms) h ((member_call-Gated c).run ms refl)
    where
      changed :
          (r : Result MemberError (Unit {0}) × List MemberRow)
          → r.1 ≢ ms
          → Ends (λ _. Gated) Gated r
          → (ac : Access) × IsOwnerHere ac
      changed (ok x, ms') h (inl e) = absurd (h e)
      changed (ok x, ms') h (inr f) = f
      changed (err x, ms') h (inl e) = absurd (h e)
      changed (err x, ms') h (inr f) = f

  module _ (new : NewMember) (st : SiteInfo) (target : ℕ) (found : sites handle ≡ ok st)
      (known : a.user_by_email new.email ≡ ok target) where
    abbrev Added : List MemberRow → Type 0
    Added ms' = ms' ≡ upsert_member st.id target new.role ms

    add_member-Added :
        Ensures Same (add_member sites a caller handle (some new)) (λ _. Added) (λ _. Unit {0})
    unfolding add_member
    add_member-Added = then (on_failure (λ _ _. tt) gate) λ ac.
        then {Q = λ x ms'. (Same ms' × (ac.site ≡ st)) × (x ≡ new)}
          (record { run = λ ms' (e, (c, f, s, g)). ((e, same ac f), refl) })
          λ x. then (on_failure (λ _ _. tt) (checks _)) λ _.
            then {Q = λ t ms'. ((Same ms' × (ac.site ≡ st)) × (x ≡ new)) × (t ≡ target)}
              (record { run = λ ms' p. looked_up (λ ms'. Same ms' × (ac.site ≡ st)) x ms' p })
              λ t. record { run = λ ms' (((e, f), g), h). written ac x t ms' e f g h }
      where
        looked_up :
            (P : List MemberRow → Type 0) (x : NewMember) (ms' : List MemberRow)
            → P ms' × (x ≡ new)
            → Ends
                (λ t ms'. (P ms' × (x ≡ new)) × (t ≡ target))
                (λ _. Unit {0})
                (user_found (a.user_by_email x.email), ms')
        looked_up P x ms' (p, e) =
            let answer : user_found (a.user_by_email x.email) ≡ ok target =
              ap (λ (y : NewMember). user_found (a.user_by_email y.email)) e
              ∙ ap user_found known in
            subst (λ r. Ends (λ t ms'. (P ms' × (x ≡ new)) × (t ≡ target)) (λ _. Unit {0}) (r, ms'))
              (sym answer) ((p, e), refl)

        written :
            (ac : Access) (x : NewMember) (t : ℕ) (ms' : List MemberRow)
            → Same ms'
            → ac.site ≡ st
            → x ≡ new
            → t ≡ target
            → Ends
                (λ _. Added)
                (λ _. Unit {0})
                (writes_rows a.write_error (upsert_member ac.site.id t x.role) ms')
        written ac x t ms' e f g h = stored a.write_error
          where
            stored :
                (o : Option SiteError)
                → Ends
                    (λ _. Added)
                    (λ _. Unit {0})
                    (writes_rows o (upsert_member ac.site.id t x.role) ms')
            stored (some y) = tt
            stored none = cc (e, f, g, h)

        same : (ac : Access) → sites handle ≡ ok ac.site → ac.site ≡ st
        same ac f = ok-injective _ _ (sym f ∙ found)

    -- Adding a user who is a member already sets the role: a site whose only owner is added again with
    -- another role has no owner any more.
    pub add_member_ownerless :
        (add_member sites a caller handle (some new) ms).0 ≡ ok tt
        → new.role ≢ owner
        → ((user : ℕ) → find_role st.id user ms ≡ some owner → user ≡ target)
        → (user : ℕ)
        → find_role st.id user (add_member sites a caller handle (some new) ms).1 ≢ some owner
    add_member_ownerless added other sole user again =
        succeeded (add_member sites a caller handle (some new) ms) added
          (add_member-Added.run ms refl) again
      where
        owner_left : find_role st.id user (upsert_member st.id target new.role ms) ≢ some owner
        owner_left e =
            ground
              (arith, find_role-upsert_member st.id target new.role st.id user ms, sole user, other)

        succeeded :
            (r : Result MemberError (Unit {0}) × List MemberRow)
            → r.0 ≡ ok tt
            → Ends (λ _. Added) (λ _. Unit {0}) r
            → find_role st.id user r.1 ≢ some owner
        succeeded (ok x, ms') d e q = owner_left (ap (find_role st.id user) (sym e) ∙ q)
        succeeded (err x, ms') d e q = ground arith
