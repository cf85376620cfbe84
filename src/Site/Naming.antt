-- ===== src/Site/Naming.antt =====
-- Creation and routing agree on names.
use kotoji.Prelude.{
  leb, Bool-cases, length, length-append, ok, err, ℕ, ◌+◌, ◌≤◌, ◌<◌, ◌≡◌, refl, sym, ap, ◌∙◌, ◌≢◌,
  ◌↔◌, ◌⊎◌, inl, inr, true, false, not, none, [], ◌++◌, arith,
}
use kotoji.Label.{reserved_handles, double_hyphen, label_re}
use kotoji.Label.Laws.{label_re_iff}
use kotoji.Label.Separator.{NoDoubleHyphen-iff}
use kotoji.Resolve.{
  Config, new_resolver, project_target, Request, validate_handle, effective_host, source_host,
  validate_branch, Target, published, resolve,
}
use kotoji.Resolve.Grammar.{
  label_re-lower, validate_branch_iff, IsHandle, not_reserved_iff, validate_handle_iff,
  IsBranch-IsShaped, IsLabel-length, IsBranch,
}
use kotoji.Resolve.Overlong.{resolve-long, label_too_long}
use kotoji.Resolve.RoundTrip.{IsHandle-index, resolve_complete, cut-length, IsStatic}
use kotoji.Resolve.Sound.{host_label, IsProject}
use kotoji.Site.Handle.{
  is_reserved_handle, preview_subdomain, validate_handle_len, split_site_label, validate_new_handle,
  validate_branch_name, validate_handle_for_resolver,
}
use kotoji.Text.{codes, Unicode, contains, bytes_eq, Bytes, mem, lower_trim}
use kotoji.Text.Laws.{bytes_eq_iff, index-none}

reserved-lower :
    (u : Unicode) (h : Bytes) → label_re h ≡ true → is_reserved_handle u h ≡ mem h reserved_handles
unfolding is_reserved_handle
reserved-lower u h e = ap (λ s. mem s reserved_handles) (label_re-lower u h e)

accepted :
    (u : Unicode) (s : Bytes) (n : ℕ) → IsHandle s → n ≤ length s → validate_handle_len u s n ≡ none
unfolding validate_handle_len
accepted u s n k l =
    let shaped = IsBranch-IsShaped u s k.label k.no_double in
    let free = (not_reserved_iff s).1 k.not_reserved in
    ground (arith, shaped, free, reserved-lower u s shaped.matched)

facts :
    (u : Unicode) (s : Bytes) (n : ℕ)
    → validate_handle_len u s n ≡ none
    → (label_re s ≡ true)
      × (contains s double_hyphen ≡ false)
      × (n ≤ length s)
      × (is_reserved_handle u s ≡ false)
unfolding validate_handle_len
facts u s n e = ground arith

-- The gate of the package accepts exactly the labels of the grammar of the minimal length and
-- up to 63 bytes, with no "--" and not reserved.
pub validate_handle_len_iff :
    (u : Unicode) (s : Bytes) (n : ℕ)
    → (validate_handle_len u s n ≡ none) ↔ (IsHandle s × (n ≤ length s))
validate_handle_len_iff u s n = (
  λ e.
      let (matched, single, long, free) = facts u s n e in
      (
        record {
          label = (label_re_iff s).0 matched;
          no_double = (NoDoubleHyphen-iff s).0 single;
          not_reserved = (not_reserved_iff s).0 (sym (reserved-lower u s matched) ∙ free);
        },
        long,
      ),
  λ (k, l). accepted u s n k l,
)

branch_facts :
    (u : Unicode) (s : Bytes)
    → validate_branch_name u s ≡ none
    → (label_re s ≡ true) × (contains s double_hyphen ≡ false)
unfolding validate_branch_name
branch_facts u s e = ground arith

branch_accepted : (u : Unicode) (s : Bytes) → IsBranch s → validate_branch_name u s ≡ none
unfolding validate_branch_name
branch_accepted u s k = ground (arith, IsBranch-IsShaped u s k.label k.no_double)

-- The branch gate accepts exactly the labels of the grammar with no "--".
pub validate_branch_name_iff :
    (u : Unicode) (s : Bytes) → (validate_branch_name u s ≡ none) ↔ IsBranch s
validate_branch_name_iff u s = (
  λ e.
      let (matched, single) = branch_facts u s e in
      record { label = (label_re_iff s).0 matched; no_double = (NoDoubleHyphen-iff s).0 single },
  branch_accepted u s,
)

IsHandle-length : (s : Bytes) → IsHandle s → 1 ≤ length s
IsHandle-length s k = (IsLabel-length s k.label).0

-- The two packages' gates accept the same handles for routing, and the same branches; what is
-- accepted at creation is what is accepted for routing and has three bytes or more.
pub gates_agree :
    (u : Unicode) (s : Bytes)
    → ((validate_handle_for_resolver u s ≡ none) ↔ (validate_handle u s ≡ none))
      × ((validate_branch_name u s ≡ none) ↔ (validate_branch u s ≡ none))
      × ((validate_new_handle u s ≡ none) ↔ ((validate_handle u s ≡ none) × (3 ≤ length s)))
unfolding validate_handle_for_resolver validate_new_handle
gates_agree u s = (
  (
    λ e. (validate_handle_iff u s).1 ((validate_handle_len_iff u s 1).0 e).0,
    λ e.
        let k = (validate_handle_iff u s).0 e in
        (validate_handle_len_iff u s 1).1 (k, IsHandle-length s k),
  ),
  (
    λ e. (validate_branch_iff u s).1 ((validate_branch_name_iff u s).0 e),
    λ e. (validate_branch_name_iff u s).1 ((validate_branch_iff u s).0 e),
  ),
  (
    λ e. let (k, l) = (validate_handle_len_iff u s 3).0 e in ((validate_handle_iff u s).1 k, l),
    λ (e, l). (validate_handle_len_iff u s 3).1 ((validate_handle_iff u s).0 e, l),
  ),
)

-- Splitting the label of a branch gives back the handle and the branch, whatever the branch is.
pub split_site_label-preview_subdomain :
    (u : Unicode) (h b : Bytes)
    → validate_handle_for_resolver u h ≡ none
    → split_site_label (preview_subdomain h b) ≡ (h, b)
unfolding split_site_label preview_subdomain validate_handle_for_resolver
split_site_label-preview_subdomain u h b e =
    let k = ((validate_handle_len_iff u h 1).0 e).0 in
    elim (Bool-cases (bytes_eq b published)) [
      | inl q ↦
          rw (q, index-none h double_hyphen ((NoDoubleHyphen-iff h).1 k.no_double))
            (ground (arith, bytes_eq_iff b published))
      | inr q ↦ rw (q, IsHandle-index h b k, (cut-length h b).0, (cut-length h b).1) refl
    ]

-- A branch and its target, as the data plane sees them.
abbrev pub branch_target : Bytes → Bytes → Target
branch_target h b = project_target h b (not (bytes_eq b published)) source_host []

branch_sized :
    (h b : Bytes)
    → length (preview_subdomain h b) ≤ 63
    → bytes_eq b published ≡ false
    → length h + 2 + length b ≤ 63
unfolding preview_subdomain
branch_sized h b l q =
    let l' : length (h ++ (double_hyphen ++ b)) ≤ 63 = rw q at l in
    omega (arith, length-append h (double_hyphen ++ b))

pub branch_target-IsProject :
    (u : Unicode) (h b : Bytes)
    → validate_new_handle u h ≡ none
    → validate_branch_name u b ≡ none
    → length (preview_subdomain h b) ≤ 63
    → IsProject (branch_target h b) × (host_label (branch_target h b) ≡ preview_subdomain h b)
unfolding validate_new_handle preview_subdomain
branch_target-IsProject u h b eh eb l =
    let k = ((validate_handle_len_iff u h 3).0 eh).0 in
    let branch = (validate_branch_name_iff u b).0 eb in
    elim (Bool-cases (bytes_eq b published)) [
      | inl q ↦ (
        record {
          handle = k;
          served = inl (ground arith, (bytes_eq_iff b published).0 q);
          project = refl;
          from_host = refl;
          no_prefix = refl;
        },
        ground arith,
      )
      | inr q ↦ (
        record {
          handle = k;
          served = inr (
            ground arith,
            branch,
            λ e. ground (arith, bytes_eq_iff b published),
            omega (arith, branch_sized h b l q),
          );
          project = refl;
          from_host = refl;
          no_prefix = refl;
        },
        ground arith,
      )
    ]

pub created_branch-short :
    (u : Unicode) (cfg : Config) (r : Request) (h b : Bytes)
    → IsStatic u cfg
    → validate_new_handle u h ≡ none
    → validate_branch_name u b ≡ none
    → length (preview_subdomain h b) ≤ 63
    → preview_subdomain h b ≢ lower_trim u cfg.control_label
    → effective_host u (new_resolver u cfg) r
      ≡ preview_subdomain h b ++ (codes "." ++ cfg.base_domain)
    → resolve u (new_resolver u cfg) r ≡ ok (branch_target h b)
created_branch-short u cfg r h b k eh eb l c e =
    let (p, same) = branch_target-IsProject u h b eh eb l in
    resolve_complete u cfg r k p (λ q. c (sym same ∙ q))
      (inl (e ∙ ap (λ x. x ++ (codes "." ++ cfg.base_domain)) (sym same)))

created_branch-long :
    (u : Unicode) (cfg : Config) (r : Request) (h b : Bytes)
    → IsStatic u cfg
    → validate_new_handle u h ≡ none
    → validate_branch_name u b ≡ none
    → 63 < length (preview_subdomain h b)
    → preview_subdomain h b ≢ lower_trim u cfg.control_label
    → effective_host u (new_resolver u cfg) r
      ≡ preview_subdomain h b ++ (codes "." ++ cfg.base_domain)
    → resolve u (new_resolver u cfg) r ≡ err label_too_long
unfolding validate_new_handle preview_subdomain
created_branch-long u cfg r h b k eh eb l c e =
    let (handle, short) = (validate_handle_len_iff u h 3).0 eh in
    let branch = (validate_branch_name_iff u b).0 eb in
    elim (Bool-cases (bytes_eq b published)) [
      | inl q ↦
          let l' : 63 < length h = rw q at l in
          absurd (omega (arith, l', IsLabel-length h handle.label))
      | inr q ↦
          let l' : 63 < length (h ++ (double_hyphen ++ b)) = rw q at l in
          resolve-long u cfg r h b k handle branch (λ z. ground (arith, bytes_eq_iff b published))
            (omega (arith, length-append h (double_hyphen ++ b))) (rw q at c) (rw q at e)
    ]

-- A site and a branch that pass the gates at creation are served under the branch's own host name if
-- the label of the handle and the branch fits 63 bytes, and refused there as too long if it does not;
-- for an instance with a static base domain, and a label that is not the one set aside for the
-- control plane.
pub created_branch-resolves :
    (u : Unicode) (cfg : Config) (r : Request) (h b : Bytes)
    → IsStatic u cfg
    → validate_new_handle u h ≡ none
    → validate_branch_name u b ≡ none
    → preview_subdomain h b ≢ lower_trim u cfg.control_label
    → effective_host u (new_resolver u cfg) r
      ≡ preview_subdomain h b ++ (codes "." ++ cfg.base_domain)
    → ((length (preview_subdomain h b) ≤ 63)
        × (resolve u (new_resolver u cfg) r ≡ ok (branch_target h b)))
      ⊎ ((63 < length (preview_subdomain h b))
          × (resolve u (new_resolver u cfg) r ≡ err label_too_long))
created_branch-resolves u cfg r h b k eh eb c e =
    elim (Bool-cases (leb (length (preview_subdomain h b)) 63)) [
      | inl q ↦
          let l : length (preview_subdomain h b) ≤ 63 = ground arith in
          inl (l, created_branch-short u cfg r h b k eh eb l c e)
      | inr q ↦
          let l : 63 < length (preview_subdomain h b) = ground arith in
          inr (l, created_branch-long u cfg r h b k eh eb l c e)
    ]
