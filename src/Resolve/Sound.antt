-- ===== src/Resolve/Sound.antt =====
-- What a resolved target guarantees.
use kotoji.Prelude.{
  if◌then◌else◌, Bool-cases, Option-cases, length, take, drop-add, ok, ◌>>=◌, Result-cases, ◌+◌,
  ◌-◌, ◌≤◌, ◌≡◌, refl, sym, ap, ◌∙◌, subst, ◌≢◌, ◌⊎◌, inl, inr, Bool, true, false, none, [], ◌++◌,
  arith,
}
use kotoji.Text.{Bytes, Unicode, has_suffix, index}
use kotoji.Text.Laws.{index-split, suffix_take, has_suffix_iff, bytes_eq_iff}
use kotoji.Label.{double_hyphen}
use kotoji.Resolve.{
  Target, Config, Request, DefaultResolver, published, control_target, source_host, split_label,
  project_checks, project_target, route, resolve_project_label, classify_host, resolve_host,
  resolve, new_resolver, effective_base, effective_host, lower_strip_port, host_control,
  host_project, host_foreign, HostClass,
}
use kotoji.Resolve.Grammar.{IsHandle, IsBranch, validate_handle_iff, validate_branch_iff}

-- The label under which a target is reached.
abbrev pub host_label : Target → Bytes
host_label t = if t.is_preview then t.handle ++ (double_hyphen ++ t.branch) else t.handle

-- A branch is served under its own label, or it is the published one.
abbrev pub IsServed : Target → Type 0
IsServed t =
    ((t.is_preview ≡ false) × (t.branch ≡ published))
    ⊎ ((t.is_preview ≡ true)
        × IsBranch t.branch
        × (t.branch ≢ published)
        × (length t.handle + 2 + length t.branch ≤ 63))

pub record IsProject (t : Target) : Type 0 where
  pub handle : IsHandle t.handle
  pub served : IsServed t
  pub project : t.is_control ≡ false
  pub from_host : t.source ≡ source_host
  pub no_prefix : t.path_prefix ≡ []

split_label-joins :
    (label : Bytes)
    → let (h, b, preview) = split_label label in
      (if preview then h ++ (double_hyphen ++ b) else h) ≡ label
unfolding split_label
split_label-joins label = elim (Option-cases (index label double_hyphen)) [
  | inl e ↦ rw e refl
  | inr (i, e) ↦ rw e (
      ap (λ t. take i label ++ (double_hyphen ++ t)) (drop-add i 2 label)
      ∙ sym (index-split label double_hyphen i e))
]

split_label-published :
    (label : Bytes) → (split_label label).2 ≡ false → (split_label label).1 ≡ published
unfolding split_label
split_label-published label h = ground arith

classify_host-project :
    (d : DefaultResolver) (host base suffix label : Bytes)
    → classify_host d host base suffix ≡ ok (host_project, label)
    → host ≡ label ++ suffix
unfolding classify_host
classify_host-project d host base suffix label e = elim (Bool-cases (has_suffix host suffix)) [
  | inl h ↦
      let (p, same) = (has_suffix_iff host suffix).0 h in
      let cut : take (length host - length suffix) host ≡ label = ground arith in
      let cut' : take (length (p ++ suffix) - length suffix) (p ++ suffix) ≡ label =
        subst (λ x. take (length x - length suffix) x ≡ label) same cut in
      same ∙ ap (λ q. q ++ suffix) (sym (suffix_take p suffix) ∙ cut')
  | inr h ↦ ground arith
]

module _ (d : DefaultResolver) (handles_sound : (h : Bytes) → d.handles h ≡ none → IsHandle h)
    (branches_sound : (b : Bytes) → d.branches b ≡ none → IsBranch b) where
  project_checks_sound :
      (h b : Bytes) (p : Bool)
      → project_checks d h b p ≡ ok tt
      → (p ≡ false → b ≡ published)
      → IsProject (project_target h b p source_host [])
  unfolding project_checks
  project_checks_sound h b false e k = record {
    handle = handles_sound h (ground arith);
    served = inl (refl, k refl);
    project = refl;
    from_host = refl;
    no_prefix = refl;
  }
  project_checks_sound h b true e k = record {
    handle = handles_sound h (ground arith);
    served = inr (
      refl,
      branches_sound b (ground arith),
      λ same. ground (arith, bytes_eq_iff b published),
      ground arith,
    );
    project = refl;
    from_host = refl;
    no_prefix = refl;
  }

  resolve_parts :
      (label h b : Bytes) (p : Bool) {t : Target}
      → (project_checks d h b p >>= λ _. ok (project_target h b p source_host [])) ≡ ok t
      → (p ≡ false → b ≡ published)
      → (if p then h ++ (double_hyphen ++ b) else h) ≡ label
      → IsProject t × (host_label t ≡ label)
  resolve_parts label h b p {t} e k joins =
      let passed : project_checks d h b p ≡ ok tt = ground arith in
      let same : project_target h b p source_host [] ≡ t = ground arith in
      subst (λ r. IsProject r × (host_label r ≡ label)) same
        (project_checks_sound h b p passed k, joins)

  resolve_project_label_sound :
      (label : Bytes) {t : Target}
      → resolve_project_label d label source_host [] ≡ ok t
      → IsProject t × (host_label t ≡ label)
  unfolding resolve_project_label
  resolve_project_label_sound label e =
      let (h, b, p) = split_label label in
      resolve_parts label h b p e (split_label-published label) (split_label-joins label)

  classified :
      (c : HostClass) (label host suffix : Bytes) {t : Target}
      → (c ≡ host_project → host ≡ label ++ suffix)
      → route d (c, label) ≡ ok t
      → (t ≡ control_target) ⊎ (IsProject t × (host ≡ host_label t ++ suffix))
  classified host_control label host suffix h e = inl (ground arith)
  classified host_foreign label host suffix h e = ground arith
  classified host_project label host suffix h e =
      let (project, same) = resolve_project_label_sound label e in
      inr (project, h refl ∙ ap (λ l. l ++ suffix) (sym same))

  -- A host that is routed is the control plane's, or the target's label before the suffix.
  pub resolve_host_sound :
      (host base suffix : Bytes) {t : Target}
      → resolve_host d host (base, suffix) ≡ ok t
      → (t ≡ control_target) ⊎ (IsProject t × (host ≡ host_label t ++ suffix))
  unfolding resolve_host
  resolve_host_sound host base suffix e = elim (Result-cases (classify_host d host base suffix)) [
    | inl ((c, label), k) ↦
        classified c label host suffix
          (λ p. classify_host-project d host base suffix label (k ∙ ap (λ x. ok (x, label)) p))
          (ground arith)
    | inr (x, k) ↦ ground arith
  ]

-- What resolves is the control plane, or a project whose handle and branch satisfy the grammar and
-- whose label, followed by the suffix of the base domain, is the host of the request.
pub resolve_sound :
    (u : Unicode) (cfg : Config) (r : Request) {t : Target}
    → resolve u (new_resolver u cfg) r ≡ ok t
    → (t ≡ control_target)
      ⊎ (IsProject t
          × (lower_strip_port u (effective_host u (new_resolver u cfg) r)
              ≡ host_label t ++ (effective_base u (new_resolver u cfg) r).1))
unfolding resolve new_resolver
resolve_sound u cfg r e =
    let d = new_resolver u cfg in
    resolve_host_sound d (λ h. (validate_handle_iff u h).0) (λ b. (validate_branch_iff u b).0)
      (lower_strip_port u (effective_host u d r)) (effective_base u d r).0 (effective_base u d r).1
      e
