-- ===== src/Domaincfg/Hostname.antt =====
-- What is accepted is a dotted set of labels of the grammar that handles have.
use kotoji.Prelude.{
  ◌==◌, Bool-cases, length, all, All, ℕ, ◌≤◌, ◌<◌, ◌≡◌, refl, sym, ap, ◌∙◌, subst, ◌≢◌, ◌↔◌, inl,
  inr, true, false, ◌&&◌, ◌||◌, not, none, List, [], ◌∷◌, ◌++◌, arith,
}
use kotoji.Domaincfg.{
  validate_label, last_byte, validate_base_domain, labels, cons_label, validate_labels,
  contains_any,
}
use kotoji.Label.{label_re, label_tail, IsLabel, is_label_byte}
use kotoji.Label.Laws.{label_re_iff}
use kotoji.Label.Separator.{label_re-All}
use kotoji.Text.{
  contains, Bytes, index_byte, has_prefix, to_lower, Unicode, lower_byte, index, codes, is_empty,
  trim_space, has_suffix,
}
use kotoji.Text.Laws.{to_lower_id, has_suffix_iff, All-map, bytes_eq_iff}

label_tail-all :
    (c : ℕ) (s : Bytes)
    → label_tail (c ∷ s) ≡ (all is_label_byte (c ∷ s) && not (last_byte c s == 45))
unfolding label_tail last_byte
label_tail-all c [] = ground arith
label_tail-all c (d ∷ s) = ground (arith, label_tail-all d s)

validate_label_iff : (l : Bytes) → (validate_label l ≡ none) ↔ (label_re l ≡ true)
unfolding validate_label label_re last_byte
validate_label_iff [] = ground arith
validate_label_iff (c ∷ []) = ground arith
validate_label_iff (c ∷ d ∷ s) = ground (arith, label_tail-all d s)

validate_labels_iff : (ls : List Bytes) → (validate_labels ls ≡ none) ↔ All IsLabel ls
unfolding validate_labels
validate_labels_iff [] = (λ h. tt, λ k. refl)
validate_labels_iff (l ∷ ls) =
    let first = validate_label_iff l in
    let matched = label_re_iff l in
    let rest = validate_labels_iff ls in
    (
      λ h. (matched.0 (first.0 (ground arith)), rest.0 (ground arith)),
      λ k. let e = first.1 (matched.1 k.0) in ground (arith, rest.1 k.1, e),
    )

-- A byte that the tests before the labels have nothing against.
abbrev IsHostnameByte : ℕ → Type 0
IsHostnameByte c = (c < 128) × (lower_byte c ≡ c) × (index_byte (codes " /:?#@") c ≡ none)

is_label_byte-IsHostnameByte : (c : ℕ) → is_label_byte c ≡ true → IsHostnameByte c
unfolding index_byte
is_label_byte-IsHostnameByte c h = ground arith

IsLabel-IsHostnameByte : (l : Bytes) → IsLabel l → All IsHostnameByte l
IsLabel-IsHostnameByte l h =
    All-map is_label_byte-IsHostnameByte l (label_re-All l ((label_re_iff l).1 h))

IsLabels-IsHostnameByte : (ls : List Bytes) → All IsLabel ls → All (All IsHostnameByte) ls
IsLabels-IsHostnameByte [] h = tt
IsLabels-IsHostnameByte (l ∷ ls) h = (IsLabel-IsHostnameByte l h.0, IsLabels-IsHostnameByte ls h.1)

cons_label-bytes :
    (P : ℕ → Type 0) (c : ℕ) (ts : List Bytes)
    → All (All P) (cons_label c ts)
    → P c × All (All P) ts
cons_label-bytes P c [] h = (h.0.0, tt)
cons_label-bytes P c (t ∷ ts) h = (h.0.0, (h.0.1, h.1))

labels-bytes : (P : ℕ → Type 0) (h : Bytes) → P b'.' → All (All P) (labels h) → All P h
unfolding labels
labels-bytes P [] d k = tt
labels-bytes P (c ∷ h) d k = elim (Bool-cases (c == b'.')) [
  | inl e ↦
      let same : b'.' ≡ c = ground arith in (subst P same d, labels-bytes P h d ((rw e at k).1))
  | inr e ↦
      let (first, rest) = cons_label-bytes P c (labels h) (rw e at k) in
      (first, labels-bytes P h d rest)
]

labels-ne-nil : (p : Bytes) → labels p ≢ []
unfolding labels
labels-ne-nil [] e = ground arith
labels-ne-nil (c ∷ p) e = elim (Bool-cases (c == b'.')) [
  | inl q ↦ ground arith
  | inr q ↦ filled c (labels p) (rw q at e)
]
  where
    filled : (c : ℕ) (ts : List Bytes) → cons_label c ts ≡ [] → ⊥
    filled c [] e = ground arith
    filled c (t ∷ ts) e = ground arith

cons_label-append :
    (c : ℕ) (ts us : List Bytes) → ts ≢ [] → cons_label c (ts ++ us) ≡ cons_label c ts ++ us
cons_label-append c [] us n = absurd (n refl)
cons_label-append c (t ∷ ts) us n = refl

labels-trailing : (p : Bytes) → labels (p ++ codes ".") ≡ labels p ++ ([] ∷ [])
unfolding labels
labels-trailing [] = refl
labels-trailing (c ∷ p) = elim (Bool-cases (c == b'.')) [
  | inl q ↦ rw q (ap (λ x. [] ∷ x) (labels-trailing p))
  | inr q ↦ rw (q, labels-trailing p) (cons_label-append c (labels p) ([] ∷ []) (labels-ne-nil p))
]

All-last : (ls : List Bytes) → All IsLabel (ls ++ ([] ∷ [])) → IsLabel []
All-last [] h = h.0
All-last (l ∷ ls) h = All-last ls h.1

no_empty_label : IsLabel [] → ⊥
unfolding label_re
no_empty_label h = ground (arith, (label_re_iff []).1 h)

no_trailing_dot : (h : Bytes) → All IsLabel (labels h) → has_suffix h (codes ".") ≡ false
no_trailing_dot h k = elim (Bool-cases (has_suffix h (codes "."))) [
  | inl e ↦
      let (p, same) = (has_suffix_iff h (codes ".")).0 e in
      absurd (
        no_empty_label
          (All-last (labels p) (subst (All IsLabel) (ap labels same ∙ labels-trailing p) k)))
  | inr e ↦ e
]

bare :
    (h : Bytes)
    → All IsHostnameByte h
    → (contains h (codes "://") || contains_any h (codes " /:?#@")) ≡ false
unfolding contains index contains_any has_prefix index_byte
bare [] k = refl
bare (c ∷ h) k = ground (arith, bare h k.1, k.0)

full : (h : Bytes) → All IsLabel (labels h) → is_empty h ≡ false
unfolding labels
full [] k = absurd (no_empty_label k.0)
full (c ∷ h) k = refl

accepted :
    (u : Unicode) (s : Bytes)
    → length (trim_space u s) ≤ 253
    → All IsLabel (labels (trim_space u s))
    → validate_base_domain u s ≡ none
unfolding validate_base_domain
accepted u s sized k =
    let h = trim_space u s in
    let bytes =
      labels-bytes IsHostnameByte h (unfold index_byte in (omega arith, refl, refl))
        (IsLabels-IsHostnameByte (labels h) k) in
    let lower =
      (bytes_eq_iff h (to_lower u h)).1
        (sym (to_lower_id u h (All-map (λ c p. (p.0, p.1)) h bytes))) in
    rw (full h k, lower, no_trailing_dot h k, bare h bytes)
      (ground (arith, (validate_labels_iff (labels h)).1 k))

-- A base domain is accepted exactly if, without the white space around it, it has at most 253 bytes
-- and every label between its dots is one of the grammar of handles: the tests for an empty text,
-- capitals, a final dot, a scheme, a port or a path refuse nothing else.
pub validate_base_domain_iff :
    (u : Unicode) (s : Bytes)
    → (validate_base_domain u s ≡ none)
      ↔ ((length (trim_space u s) ≤ 253) × All IsLabel (labels (trim_space u s)))
unfolding validate_base_domain
validate_base_domain_iff u s = (
  λ h. (ground arith, (validate_labels_iff (labels (trim_space u s))).0 (ground arith)),
  λ (sized, k). accepted u s sized k,
)
