-- ===== src/Resolve/RoundTrip.antt =====
-- Every site and branch that the grammar allows is reached under its own host name.
use kotoji.Prelude.{
  Bool-cases, length, take, drop, length-append, All, take-length, drop-length, drop-add, ok, ◌+◌,
  ◌≤◌, ◌≡◌, refl, ap, ◌∙◌, subst, ◌≢◌, ◌⊎◌, inl, inr, true, false, none, some, [], ◌∷◌, ◌++◌, arith,
}
use kotoji.Label.{double_hyphen}
use kotoji.Label.Laws.{label_re_iff}
use kotoji.Label.Separator.{
  label_re-All, label_re-CanPrecede, index-CanPrecede, NoDoubleHyphen-iff, IsPlain, All-IsPlain,
}
use kotoji.Resolve.{
  effective_base, resolve, effective_host, host_project, lower_strip_port, resolve_project_label,
  Request, DefaultResolver, published, source_host, Config, classify_host, project_checks,
  new_resolver, project_target, resolve_host, split_label, Target, preview_checks,
}
use kotoji.Resolve.Grammar.{validate_branch_iff, IsHandle, validate_handle_iff, IsBranch}
use kotoji.Resolve.Hosts.{lower_trim_id, IsHostByte, lower_strip_port_id, lower_strip_port-port}
use kotoji.Resolve.Sound.{IsProject, host_label}
use kotoji.Text.{contains, is_empty, lower_trim, Unicode, bytes_eq, Bytes, codes, index}
use kotoji.Text.Laws.{has_suffix_iff, suffix_take, bytes_eq_iff, All-append, All-map, index-none}

pub IsHandle-index :
    (h b : Bytes) → IsHandle h → index (h ++ (double_hyphen ++ b)) double_hyphen ≡ some (length h)
IsHandle-index h b k =
    index-CanPrecede h b
      (label_re-CanPrecede h ((label_re_iff h).1 k.label) ((NoDoubleHyphen-iff h).1 k.no_double))

pub cut-length :
    (h b : Bytes)
    → (take (length h) (h ++ (double_hyphen ++ b)) ≡ h)
      × (drop (length h + 2) (h ++ (double_hyphen ++ b)) ≡ b)
cut-length h b = (
  take-length h (double_hyphen ++ b),
  drop-add (length h) 2 (h ++ (double_hyphen ++ b))
      ∙ ap (drop 2) (drop-length h (double_hyphen ++ b)),
)

pub split_label-preview :
    (h b : Bytes) → IsHandle h → split_label (h ++ (double_hyphen ++ b)) ≡ (h, b, true)
unfolding split_label
split_label-preview h b k = rw (IsHandle-index h b k, (cut-length h b).0, (cut-length h b).1) refl

split_label-bare : (h : Bytes) → IsHandle h → split_label h ≡ (h, published, false)
unfolding split_label
split_label-bare h k = rw (index-none h double_hyphen ((NoDoubleHyphen-iff h).1 k.no_double))

resolve_project_label_preview :
    (d : DefaultResolver) (h b : Bytes)
    → IsHandle h
    → d.handles h ≡ none
    → d.branches b ≡ none
    → b ≢ published
    → length h + 2 + length b ≤ 63
    → resolve_project_label d (h ++ (double_hyphen ++ b)) source_host []
      ≡ ok (project_target h b true source_host [])
unfolding resolve_project_label project_checks preview_checks
resolve_project_label_preview d h b k hh hb named sized =
    rw (split_label-preview h b k) (ground (arith, bytes_eq_iff b published))

resolve_project_label_bare :
    (d : DefaultResolver) (h : Bytes)
    → IsHandle h
    → d.handles h ≡ none
    → resolve_project_label d h source_host []
      ≡ ok (project_target h published false source_host [])
unfolding resolve_project_label project_checks
resolve_project_label_bare d h k hh = rw (split_label-bare h k) (ground arith)

IsProject-eta :
    {t : Target} → IsProject t → project_target t.handle t.branch t.is_preview source_host [] ≡ t
IsProject-eta p = ground arith

resolve_project_label_complete :
    (u : Unicode) (cfg : Config) {t : Target}
    → IsProject t
    → resolve_project_label (new_resolver u cfg) (host_label t) source_host [] ≡ ok t
unfolding new_resolver
resolve_project_label_complete u cfg {t} p =
    let d = new_resolver u cfg in
    let handle = (validate_handle_iff u t.handle).1 p.handle in
    subst (λ x. resolve_project_label d (host_label t) source_host [] ≡ ok x) (IsProject-eta p)
      (elim p.served [
        | inl (e, named) ↦ rw (e, named) (resolve_project_label_bare d t.handle p.handle handle)
        | inr (e, k, other, sized) ↦ rw e (
            resolve_project_label_preview d t.handle t.branch p.handle handle
              ((validate_branch_iff u t.branch).1 k) other sized)
      ])

-- The bytes of a label.
pub IsHandle-IsPlain : (h : Bytes) → IsHandle h → All IsPlain h
IsHandle-IsPlain h k = All-IsPlain h (label_re-All h ((label_re_iff h).1 k.label))

pub IsBranch-IsPlain : (b : Bytes) → IsBranch b → All IsPlain b
IsBranch-IsPlain b k = All-IsPlain b (label_re-All b ((label_re_iff b).1 k.label))

pub hyphen : IsPlain 45
hyphen = omega arith

pub host_label-IsPlain : {t : Target} → IsProject t → All IsPlain (host_label t)
host_label-IsPlain {t} p = elim p.served [
  | inl (e, _) ↦ rw e (IsHandle-IsPlain t.handle p.handle)
  | inr (e, k, _, _) ↦ rw e (
      All-append IsPlain t.handle (double_hyphen ++ t.branch) (IsHandle-IsPlain t.handle p.handle)
        (hyphen, (hyphen, IsBranch-IsPlain t.branch k)))
]

no_dot : (s : Bytes) → All IsPlain s → contains s (codes ".") ≡ false
unfolding contains index
no_dot [] h = ground arith
no_dot (c ∷ s) h = ground (arith, no_dot s h.1)

longer-ne : (s base : Bytes) → bytes_eq (s ++ (codes "." ++ base)) base ≡ false
longer-ne s base = elim (Bool-cases (bytes_eq (s ++ (codes "." ++ base)) base)) [
  | inl e ↦
      let same = ap length ((bytes_eq_iff (s ++ (codes "." ++ base)) base).0 e) in
      absurd (omega (arith, same, length-append s (codes "." ++ base)))
  | inr e ↦ e
]

-- A label before the suffix is a project, unless it is the control label.
pub classify_host-label :
    (d : DefaultResolver) (label base : Bytes)
    → All IsPlain label
    → label ≢ d.cfg.control_label
    → classify_host d (label ++ (codes "." ++ base)) base (codes "." ++ base)
      ≡ ok (host_project, label)
unfolding classify_host
classify_host-label d label base h c =
    rw
      (
        longer-ne label base,
        suffix_take label (codes "." ++ base),
        (has_suffix_iff (label ++ (codes "." ++ base)) (codes "." ++ base)).1 (label, refl),
      )
      (ground (arith, no_dot label h, bytes_eq_iff label d.cfg.control_label))

-- The host under which a target of this instance is reached, without a port.
abbrev pub host_name : Config → Target → Bytes
host_name cfg t = host_label t ++ (codes "." ++ cfg.base_domain)

-- The host as a client sends it: with a port, or without.
abbrev pub Addresses : Config → Target → Bytes → Type 0
Addresses cfg t host =
    (host ≡ host_name cfg t)
    ⊎ ((port : Bytes) × All IsHostByte port × (host ≡ host_name cfg t ++ b':' ∷ port))

-- A base domain as an operator writes it: lower case, and without a port.
pub record IsStatic (u : Unicode) (cfg : Config) : Type 0 where
  pub base : All IsHostByte cfg.base_domain
  pub no_func : cfg.base_domain_func ≡ none

pub host_name-bytes :
    (u : Unicode) (cfg : Config) {t : Target}
    → IsStatic u cfg
    → IsProject t
    → All IsHostByte (host_name cfg t)
host_name-bytes u cfg {t} k p =
    All-append IsHostByte (host_label t) (codes "." ++ cfg.base_domain)
      (All-map (λ c q. (q.0, q.1, q.2, q.4, q.6)) (host_label t) (host_label-IsPlain p))
      (omega arith, k.base)

strip_suffix_port :
    (u : Unicode) (s port : Bytes)
    → s ≢ []
    → All IsHostByte s
    → All IsHostByte port
    → lower_strip_port u (s ++ b':' ∷ port) ≡ s
strip_suffix_port u [] port h k l = absurd (h refl)
strip_suffix_port u (c ∷ s) port h k l = lower_strip_port-port u c s port k l

pub label-ne-nil : (s base : Bytes) → s ++ (codes "." ++ base) ≢ []
label-ne-nil [] base = cc
label-ne-nil (c ∷ s) base = cc

pub is_empty→ : (s : Bytes) → is_empty s ≡ true → s ≡ []
is_empty→ [] h = refl
is_empty→ (c ∷ s) h = cc

lower_strip_port-Addresses :
    (u : Unicode) (cfg : Config) {t : Target} (host : Bytes)
    → IsStatic u cfg
    → IsProject t
    → Addresses cfg t host
    → lower_strip_port u host ≡ host_name cfg t
lower_strip_port-Addresses u cfg {t} host k p (inl e) =
    rw e (lower_strip_port_id u (host_name cfg t) (host_name-bytes u cfg k p))
lower_strip_port-Addresses u cfg {t} host k p (inr (port, hp, e)) = rw e (
    strip_suffix_port u (host_name cfg t) port (label-ne-nil (host_label t) cfg.base_domain)
      (host_name-bytes u cfg k p) hp)

resolve_host_complete :
    (d : DefaultResolver) (base : Bytes) {t : Target}
    → resolve_project_label d (host_label t) source_host [] ≡ ok t
    → All IsPlain (host_label t)
    → host_label t ≢ d.cfg.control_label
    → resolve_host d (host_label t ++ (codes "." ++ base)) (base, codes "." ++ base) ≡ ok t
unfolding resolve_host
resolve_host_complete d base {t} e h c =
    let found = classify_host-label d (host_label t) base h c in
    elim (Bool-cases (is_empty (host_label t ++ (codes "." ++ base)))) [
      | inl z ↦ absurd (label-ne-nil (host_label t) base (is_empty→ _ z))
      | inr z ↦ rw (z, found) e
    ]

pub control_label-new :
    (u : Unicode) (cfg : Config)
    → (new_resolver u cfg).cfg.control_label ≡ lower_trim u cfg.control_label
unfolding new_resolver
control_label-new u cfg = refl

pub static_base :
    (u : Unicode) (cfg : Config) (r : Request)
    → IsStatic u cfg
    → effective_base u (new_resolver u cfg) r ≡ (cfg.base_domain, codes "." ++ cfg.base_domain)
unfolding effective_base new_resolver
static_base u cfg r k =
    let plain =
      lower_trim_id u cfg.base_domain (All-map (λ c q. (q.0, q.1, q.2)) cfg.base_domain k.base) in
    rw (k.no_func, plain) refl

pub resolve_complete :
    (u : Unicode) (cfg : Config) (r : Request) {t : Target}
    → IsStatic u cfg
    → IsProject t
    → host_label t ≢ lower_trim u cfg.control_label
    → Addresses cfg t (effective_host u (new_resolver u cfg) r)
    → resolve u (new_resolver u cfg) r ≡ ok t
unfolding resolve
resolve_complete u cfg r {t} k p c a =
    let d = new_resolver u cfg in
    rw (lower_strip_port-Addresses u cfg (effective_host u d r) k p a, static_base u cfg r k)
      (resolve_host_complete d cfg.base_domain (resolve_project_label_complete u cfg p)
        (host_label-IsPlain p) (λ e. c (e ∙ control_label-new u cfg)))
