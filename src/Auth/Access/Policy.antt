-- ===== src/Auth/Access/Policy.antt =====
-- The policy against its meaning: an identity is let in exactly if a list of the operator names it.
use mathlib.Core.List.{Memᴰ}
use kotoji.Prelude.{
  Bool-cases, ◌≡◌, refl, sym, ap, ◌∙◌, ◌≢◌, ◌↔◌, ◌⊎◌, inl, inr, Bool, true, false, ◌&&◌, ◌||◌, not,
  List, [], ◌∷◌, arith,
}
use kotoji.Auth.Access.{
  no_members, email_domain, decide_normal, AccessPolicy, decide, new_access_policy, to_lower_set,
}
use kotoji.Text.{mem, lower_trim, Unicode, Bytes, is_empty, bytes_eq}
use kotoji.Text.Laws.{bytes_eq_iff, bytes_eq_refl}

-- An entry of the operator's list, in whatever case and with white space around it, names `x`. What
-- is blank names nothing.
abbrev pub Names : Unicode → List Bytes → Bytes → Type 0
Names u entries x = (e : Bytes) × Memᴰ e entries × (lower_trim u e ≡ x) × (x ≢ [])

is_empty_iff : (s : Bytes) → (is_empty s ≡ true) ↔ (s ≡ [])
is_empty_iff [] = ground arith
is_empty_iff (c ∷ s) = ground arith

set→ : (u : Unicode) (es : List Bytes) (x : Bytes) → mem x (to_lower_set u es) ≡ true → Names u es x
unfolding to_lower_set mem
set→ u [] x h = ground arith
set→ u (e ∷ es) x h = elim (Bool-cases (is_empty (lower_trim u e))) [
  | inl blank ↦ let (d, m, same, full) = set→ u es x (ground arith) in (d, Memᴰ.tail m, same, full)
  | inr full ↦ elim (Bool-cases (bytes_eq x (lower_trim u e))) [
    | inl q ↦
        let same = (bytes_eq_iff x (lower_trim u e)).0 q in
        (e, Memᴰ.head refl, sym same, λ z. cc ((is_empty_iff (lower_trim u e)).1 (sym same ∙ z)))
    | inr q ↦ let (d, m, same, full) = set→ u es x (ground arith) in (d, Memᴰ.tail m, same, full)
  ]
]

set← :
    (u : Unicode) (x : Bytes) {e : Bytes} {es : List Bytes}
    → Memᴰ e es
    → lower_trim u e ≡ x
    → x ≢ []
    → mem x (to_lower_set u es) ≡ true
unfolding to_lower_set mem
set← u x {e} (Memᴰ.head {x = y} {xs} here) same full =
    let same' : lower_trim u y ≡ x = ap (lower_trim u) (sym here) ∙ same in
    ground (arith, is_empty_iff x, bytes_eq_refl x)
set← u x (Memᴰ.tail {x = y} m) same full = ground (arith, set← u x m same full)

pub to_lower_set_iff :
    (u : Unicode) (es : List Bytes) (x : Bytes) → (mem x (to_lower_set u es) ≡ true) ↔ Names u es x
to_lower_set_iff u es x = (set→ u es x, λ (e, m, same, full). set← u x m same full)

or-cases : (a b : Bool) → (a || b) ≡ true → (a ≡ true) ⊎ (b ≡ true)
or-cases true b h = inl refl
or-cases false b h = inr h

and-right : (a b : Bool) → (a && b) ≡ true → b ≡ true
and-right true b h = h
and-right false b h = cc

mem-no_members : (x : Bytes) (ts : List Bytes) → no_members ts ≡ true → mem x ts ≡ false
unfolding mem
mem-no_members x [] h = refl
mem-no_members x (t ∷ ts) h = cc

abbrev admits : Unicode → AccessPolicy → Bytes → Bytes → Bool
admits u p email hd =
    mem email p.emails
    || (mem (email_domain u email) p.domains || not (is_empty hd) && mem hd p.domains)

decide_normal_lem :
    (u : Unicode) (p : AccessPolicy) (email hd : Bytes)
    → ((decide_normal u p email hd).allow ≡ admits u p email hd)
      × ((decide_normal u p email hd).admin ≡ (admits u p email hd && mem email p.admins))
unfolding decide_normal
decide_normal_lem u p email hd = ground (
  arith,
  mem-no_members email p.emails,
  mem-no_members (email_domain u email) p.domains,
  mem-no_members hd p.domains,
)

-- Who may sign in: the address is on the email list, or its domain or the claimed domain is on the
-- domain list.
abbrev pub IsPermitted : Unicode → List Bytes → List Bytes → Bytes → Bytes → Type 0
IsPermitted u emails domains email hd =
    Names u emails (lower_trim u email)
    ⊎ (Names u domains (email_domain u (lower_trim u email)) ⊎ Names u domains (lower_trim u hd))

module _ (u : Unicode) (emails domains admins : List Bytes) (email hd : Bytes) where
  abbrev policy : AccessPolicy
  policy = new_access_policy u emails domains admins

  admits→ :
      admits u policy (lower_trim u email) (lower_trim u hd) ≡ true
      → IsPermitted u emails domains email hd
  unfolding new_access_policy
  admits→ h = elim (or-cases _ _ h) [
    | inl e ↦ inl ((to_lower_set_iff u emails (lower_trim u email)).0 e)
    | inr rest ↦ elim (or-cases _ _ rest) [
      | inl d ↦ inr (inl ((to_lower_set_iff u domains (email_domain u (lower_trim u email))).0 d))
      | inr d ↦ inr (inr ((to_lower_set_iff u domains (lower_trim u hd)).0 (and-right _ _ d)))
    ]
  ]

  admits← :
      IsPermitted u emails domains email hd
      → admits u policy (lower_trim u email) (lower_trim u hd) ≡ true
  unfolding new_access_policy
  admits← (inl n) = ground (arith, (to_lower_set_iff u emails (lower_trim u email)).1 n)
  admits← (inr (inl n)) =
      ground (arith, (to_lower_set_iff u domains (email_domain u (lower_trim u email))).1 n)
  admits← (inr (inr (e, m, same, full))) = ground (
    arith,
    (to_lower_set_iff u domains (lower_trim u hd)).1 (e, m, same, full),
    is_empty_iff (lower_trim u hd),
  )

  -- Sign-in is allowed exactly if a list names the identity, so with two empty or blank lists nobody
  -- is let in and a malformed address never passes by its domain; the account is an administrator's
  -- exactly if it is allowed and its address is on the list of administrators.
  pub decide_iff :
      (((decide u policy email hd).allow ≡ true) ↔ IsPermitted u emails domains email hd)
      × (((decide u policy email hd).admin ≡ true)
          ↔ (IsPermitted u emails domains email hd × Names u admins (lower_trim u email)))
  unfolding decide new_access_policy
  decide_iff =
      let (allows, promotes) = decide_normal_lem u policy (lower_trim u email) (lower_trim u hd) in
      (
        (λ h. admits→ (sym allows ∙ h), λ k. allows ∙ admits← k),
        (
          λ h.
              let both = sym promotes ∙ h in
              (
                admits→ (ground arith),
                (to_lower_set_iff u admins (lower_trim u email)).0 (ground arith),
              ),
          λ k. ground (arith, admits← k.0, (to_lower_set_iff u admins (lower_trim u email)).1 k.1),
        ),
      )
