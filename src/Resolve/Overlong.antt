-- ===== src/Resolve/Overlong.antt =====
-- A label that is too long for the branch of a preview.
use kotoji.Prelude.{
  Bool-cases, length, All, err, ◌+◌, ◌<◌, ◌≡◌, refl, ◌∙◌, ◌≢◌, inl, inr, none, [], ◌++◌, arith,
}
use kotoji.Label.{double_hyphen}
use kotoji.Label.Separator.{IsPlain}
use kotoji.Resolve.{
  Config, source_host, resolve_host, ResolveError, DefaultResolver, effective_host, resolve,
  published, new_resolver, preview_checks, project_checks, Request, fail, resolve_project_label,
}
use kotoji.Resolve.Grammar.{IsHandle, validate_handle_iff, validate_branch_iff, IsBranch}
use kotoji.Resolve.Hosts.{lower_strip_port_id, IsHostByte}
use kotoji.Resolve.RoundTrip.{
  IsHandle-IsPlain, IsBranch-IsPlain, label-ne-nil, split_label-preview, is_empty→, hyphen,
  control_label-new, static_base, IsStatic, classify_host-label,
}
use kotoji.Text.{is_empty, codes, lower_trim, Unicode, Bytes}
use kotoji.Text.Laws.{All-append, All-map, bytes_eq_iff}

-- What the grammar of hosts leaves of a request: its label.
resolve-label :
    (u : Unicode) (cfg : Config) (r : Request) (label : Bytes)
    → IsStatic u cfg
    → All IsPlain label
    → label ≢ lower_trim u cfg.control_label
    → effective_host u (new_resolver u cfg) r ≡ label ++ (codes "." ++ cfg.base_domain)
    → resolve u (new_resolver u cfg) r
      ≡ resolve_project_label (new_resolver u cfg) label source_host []
unfolding resolve resolve_host
resolve-label u cfg r label k plain c e =
    let host = label ++ (codes "." ++ cfg.base_domain) in
    let bytes : All IsHostByte host =
      All-append IsHostByte label (codes "." ++ cfg.base_domain)
        (All-map (λ c q. (q.0, q.1, q.2, q.4, q.6)) label plain) (omega arith, k.base) in
    let found_label =
      classify_host-label (new_resolver u cfg) label cfg.base_domain plain
        (λ q. c (q ∙ control_label-new u cfg)) in
    elim (Bool-cases (is_empty host)) [
      | inl z ↦ absurd (label-ne-nil label cfg.base_domain (is_empty→ _ z))
      | inr z ↦ rw (e, lower_strip_port_id u host bytes, static_base u cfg r k, z, found_label) refl
    ]

-- The answer to a preview whose label does not fit.
abbrev pub label_too_long : ResolveError
label_too_long = fail 400 "label_too_long" "handle--branch exceeds 63-char DNS label budget"

resolve_project_label_long :
    (d : DefaultResolver) (h b : Bytes)
    → IsHandle h
    → d.handles h ≡ none
    → d.branches b ≡ none
    → b ≢ published
    → 63 < length h + 2 + length b
    → resolve_project_label d (h ++ (double_hyphen ++ b)) source_host [] ≡ err label_too_long
unfolding resolve_project_label project_checks preview_checks
resolve_project_label_long d h b k hh hb named sized =
    rw (split_label-preview h b k) (ground (arith, bytes_eq_iff b published))

-- A preview whose label does not fit is refused under its own host name.
pub resolve-long :
    (u : Unicode) (cfg : Config) (r : Request) (h b : Bytes)
    → IsStatic u cfg
    → IsHandle h
    → IsBranch b
    → b ≢ published
    → 63 < length h + 2 + length b
    → h ++ (double_hyphen ++ b) ≢ lower_trim u cfg.control_label
    → effective_host u (new_resolver u cfg) r
      ≡ (h ++ (double_hyphen ++ b)) ++ (codes "." ++ cfg.base_domain)
    → resolve u (new_resolver u cfg) r ≡ err label_too_long
unfolding new_resolver
resolve-long u cfg r h b k kh kb other long c e =
    resolve-label u cfg r (h ++ (double_hyphen ++ b)) k
      (All-append IsPlain h (double_hyphen ++ b) (IsHandle-IsPlain h kh)
        (hyphen, (hyphen, IsBranch-IsPlain b kb)))
      c e
    ∙ resolve_project_label_long (new_resolver u cfg) h b kh ((validate_handle_iff u h).1 kh)
        ((validate_branch_iff u b).1 kb) other long
