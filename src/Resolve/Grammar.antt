-- ===== src/Resolve/Grammar.antt =====
-- The built-in validators accept exactly the label grammar, for every table of Unicode.
use kotoji.Prelude.{
  Bool-cases, length, length-append, ◌≤◌, ◌≡◌, refl, sym, ap, ◌↔◌, inl, inr, true, false, none, [],
  ◌∷◌, arith,
}
use mathlib.Core.List.{Memᴰ}
use kotoji.Text.{Bytes, Unicode, bytes_eq, is_empty, mem, contains, to_lower}
use kotoji.Text.Laws.{All-map, bytes_eq_iff, mem_iff, to_lower_id}
use kotoji.Label.{label_re, double_hyphen, reserved_handles, IsLabel, NoDoubleHyphen}
use kotoji.Label.Laws.{label_re_iff}
use kotoji.Label.Separator.{NoDoubleHyphen-iff, label_re-All, All-IsPlain}
use kotoji.Resolve.{validate_handle, validate_branch}

-- A branch that can be part of a host label.
pub record IsBranch (b : Bytes) : Type 0 where
  pub label : IsLabel b
  pub no_double : NoDoubleHyphen b

-- A handle that can be routed to.
pub record IsHandle (h : Bytes) : Type 0 where
  pub label : IsLabel h
  pub no_double : NoDoubleHyphen h
  pub not_reserved : ¬ Memᴰ h reserved_handles

pub IsLabel-length : (s : Bytes) → IsLabel s → (1 ≤ length s) × (length s ≤ 63)
IsLabel-length s (inl (c, same, h)) = omega (arith, ap length same)
IsLabel-length s (inr (c, mid, d, same, hc, hm, l, hd)) =
    omega (arith, ap length same, length-append mid (d ∷ []))

pub label_re-lower : (u : Unicode) (s : Bytes) → label_re s ≡ true → to_lower u s ≡ s
label_re-lower u s h =
    to_lower_id u s (All-map (λ c p. (p.0, p.1)) s (All-IsPlain s (label_re-All s h)))

-- The tests before the reserved words, as facts about a label.
pub record IsShaped (u : Unicode) (s : Bytes) : Type 0 where
  pub not_empty : is_empty s ≡ false
  pub lower : bytes_eq s (to_lower u s) ≡ true
  pub at_least : 1 ≤ length s
  pub at_most : length s ≤ 63
  pub single : contains s double_hyphen ≡ false
  pub matched : label_re s ≡ true

is_empty_of_length : (s : Bytes) → 1 ≤ length s → is_empty s ≡ false
is_empty_of_length [] h = absurd (omega arith)
is_empty_of_length (c ∷ s) h = refl

pub IsBranch-IsShaped : (u : Unicode) (s : Bytes) → IsLabel s → NoDoubleHyphen s → IsShaped u s
IsBranch-IsShaped u s l n =
    let matched = (label_re_iff s).1 l in
    let (low, high) = IsLabel-length s l in
    record {
      not_empty = is_empty_of_length s low;
      lower = (bytes_eq_iff s (to_lower u s)).1 (sym (label_re-lower u s matched));
      at_least = low;
      at_most = high;
      single = (NoDoubleHyphen-iff s).1 n;
      matched = matched;
    }

validate_branch-IsShaped : (u : Unicode) (b : Bytes) → IsShaped u b → validate_branch u b ≡ none
unfolding validate_branch
validate_branch-IsShaped u b h = ground arith

validate_branch→ :
    (u : Unicode) (b : Bytes)
    → validate_branch u b ≡ none
    → (label_re b ≡ true) × (contains b double_hyphen ≡ false)
unfolding validate_branch
validate_branch→ u b h = ground arith

-- A branch is accepted exactly if it is a label of the grammar with no "--" in it.
pub validate_branch_iff : (u : Unicode) (b : Bytes) → (validate_branch u b ≡ none) ↔ IsBranch b
validate_branch_iff u b = (
  λ h.
      let (matched, single) = validate_branch→ u b h in
      record { label = (label_re_iff b).0 matched; no_double = (NoDoubleHyphen-iff b).0 single },
  λ h. validate_branch-IsShaped u b (IsBranch-IsShaped u b h.label h.no_double),
)

validate_handle-IsShaped :
    (u : Unicode) (h : Bytes)
    → IsShaped u h
    → mem h reserved_handles ≡ false
    → validate_handle u h ≡ none
unfolding validate_handle
validate_handle-IsShaped u h s r = ground arith

validate_handle→ :
    (u : Unicode) (h : Bytes)
    → validate_handle u h ≡ none
    → (label_re h ≡ true) × (contains h double_hyphen ≡ false) × (mem h reserved_handles ≡ false)
unfolding validate_handle
validate_handle→ u h e = ground arith

pub not_reserved_iff : (h : Bytes) → (mem h reserved_handles ≡ false) ↔ ¬ Memᴰ h reserved_handles
not_reserved_iff h = elim (Bool-cases (mem h reserved_handles)) [
  | inl e ↦ (λ k. cc, λ k. absurd (k ((mem_iff h reserved_handles).0 e)))
  | inr e ↦ (λ k m. cc ((mem_iff h reserved_handles).1 m), λ k. e)
]

-- A handle is accepted exactly if it is a label of the grammar, has no "--" and is not reserved.
pub validate_handle_iff : (u : Unicode) (h : Bytes) → (validate_handle u h ≡ none) ↔ IsHandle h
validate_handle_iff u h = (
  λ e.
      let (matched, single, free) = validate_handle→ u h e in
      record {
        label = (label_re_iff h).0 matched;
        no_double = (NoDoubleHyphen-iff h).0 single;
        not_reserved = (not_reserved_iff h).0 free;
      },
  λ k.
      validate_handle-IsShaped u h (IsBranch-IsShaped u h k.label k.no_double)
        ((not_reserved_iff h).1 k.not_reserved),
)
