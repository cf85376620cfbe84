-- ===== src/Label/Laws.antt =====
-- The matcher decides the grammar.
use kotoji.Prelude.{
  length, length-append, All, ℕ, ◌≤◌, ◌≡◌, refl, ap, ◌↔◌, inl, inr, true, [], ◌∷◌, ◌++◌, arith,
}
use kotoji.Text.{Bytes}
use kotoji.Label.{is_alnum, is_label_byte, label_tail, label_re, IsAlnum, IsLabelByte, IsLabel}

pub is_alnum_iff : (c : ℕ) → (is_alnum c ≡ true) ↔ IsAlnum c
is_alnum_iff c = ground arith

pub is_label_byte_iff : (c : ℕ) → (is_label_byte c ≡ true) ↔ IsLabelByte c
is_label_byte_iff c = ground arith

abbrev HasEnd : Bytes → Type 0
HasEnd s = (mid : Bytes) × (d : ℕ) × (s ≡ mid ++ d ∷ []) × All IsLabelByte mid × IsAlnum d

label_tail-HasEnd : (s : Bytes) → label_tail s ≡ true → HasEnd s
unfolding label_tail
label_tail-HasEnd [] h = ground arith
label_tail-HasEnd (c ∷ []) h = ([], c, refl, tt, (is_alnum_iff c).0 h)
label_tail-HasEnd (c ∷ d ∷ s) h =
    let (mid, e, same, bytes, last) = label_tail-HasEnd (d ∷ s) (ground arith) in
    (c ∷ mid, e, ap (λ t. c ∷ t) same, ((is_label_byte_iff c).0 (ground arith), bytes), last)

HasEnd-label_tail :
    (mid : Bytes) (d : ℕ) → All IsLabelByte mid → IsAlnum d → label_tail (mid ++ d ∷ []) ≡ true
unfolding label_tail
HasEnd-label_tail [] d h k = (is_alnum_iff d).1 k
HasEnd-label_tail (c ∷ []) d h k = ground (arith, is_label_byte_iff c, is_alnum_iff d)
HasEnd-label_tail (c ∷ b ∷ mid) d h k =
    ground (arith, is_label_byte_iff c, HasEnd-label_tail (b ∷ mid) d h.1 k)

IsLabel-of_match : (s : Bytes) → label_re s ≡ true → IsLabel s
unfolding label_re
IsLabel-of_match [] h = ground arith
IsLabel-of_match (c ∷ []) h = inl (c, refl, (is_alnum_iff c).0 h)
IsLabel-of_match (c ∷ d ∷ s) h =
    let (mid, e, same, bytes, last) = label_tail-HasEnd (d ∷ s) (ground arith) in
    let sized : length (d ∷ s) ≤ 62 = ground arith in
    inr (
      c,
      mid,
      e,
      ap (λ t. c ∷ t) same,
      (is_alnum_iff c).0 (ground arith),
      bytes,
      omega (arith, ap length same, length-append mid (e ∷ [])),
      last,
    )

label_re-longer :
    (c : ℕ) (mid : Bytes) (d : ℕ)
    → IsAlnum c
    → All IsLabelByte mid
    → length mid ≤ 61
    → IsAlnum d
    → label_re (c ∷ (mid ++ d ∷ [])) ≡ true
unfolding label_re
label_re-longer c [] d hc hm l hd = ground (arith, is_alnum_iff c, is_alnum_iff d)
label_re-longer c (b ∷ mid) d hc hm l hd =
    ground (arith, is_alnum_iff c, length-append mid (d ∷ []), HasEnd-label_tail (b ∷ mid) d hm hd)

IsLabel→label_re : (s : Bytes) → IsLabel s → label_re s ≡ true
unfolding label_re
IsLabel→label_re s (inl (c, same, h)) = rw same ((is_alnum_iff c).1 h)
IsLabel→label_re s (inr (c, mid, d, same, hc, hm, l, hd)) =
    rw same (label_re-longer c mid d hc hm l hd)

-- The matcher accepts exactly the texts of the regular expression.
pub label_re_iff : (s : Bytes) → (label_re s ≡ true) ↔ IsLabel s
label_re_iff s = (IsLabel-of_match s, IsLabel→label_re s)
