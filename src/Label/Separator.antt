-- ===== src/Label/Separator.antt =====
-- The separator "--" in labels, and what a label's bytes are.
use kotoji.Prelude.{
  Bool-cases, length, All, ℕ, ◌<◌, ◌≡◌, ◌≢◌, ◌↔◌, inl, inr, true, false, some, [], ◌∷◌, ◌++◌, arith,
}
use kotoji.Text.{Bytes, index, contains, lower_byte}
use kotoji.Text.Laws.{contains_iff}
use kotoji.Label.{is_label_byte, label_tail, label_re, double_hyphen, NoDoubleHyphen}

-- No two hyphens in a row, and none at the end: what is put before "--" keeps its own end.
abbrev pub CanPrecede : Bytes → Type 0
CanPrecede [] = Unit
CanPrecede (c ∷ []) = c ≢ 45
CanPrecede (c ∷ d ∷ s) = ¬ ((c ≡ 45) × (d ≡ 45)) × CanPrecede (d ∷ s)

pub index-CanPrecede :
    (s t : Bytes) → CanPrecede s → index (s ++ (double_hyphen ++ t)) double_hyphen ≡ some (length s)
unfolding index
index-CanPrecede [] t h = ground arith
index-CanPrecede (c ∷ []) t h = ground (arith, index-CanPrecede [] t tt)
index-CanPrecede (c ∷ d ∷ s) t h = ground (arith, index-CanPrecede (d ∷ s) t h.1)

label_tail-CanPrecede :
    (c : ℕ) (s : Bytes)
    → label_tail (c ∷ s) ≡ true
    → contains (c ∷ s) double_hyphen ≡ false
    → CanPrecede (c ∷ s)
unfolding label_tail contains index
label_tail-CanPrecede c [] h k = ground arith
label_tail-CanPrecede c (d ∷ s) h k =
    (ground arith, label_tail-CanPrecede d s (ground arith) (ground arith))

pub label_re-CanPrecede :
    (s : Bytes) → label_re s ≡ true → contains s double_hyphen ≡ false → CanPrecede s
unfolding label_re
label_re-CanPrecede [] h k = tt
label_re-CanPrecede (c ∷ []) h k = ground arith
label_re-CanPrecede (c ∷ d ∷ s) h k = label_tail-CanPrecede c (d ∷ s) (ground arith) k

label_tail-All : (s : Bytes) → label_tail s ≡ true → All (λ c. is_label_byte c ≡ true) s
unfolding label_tail
label_tail-All [] h = tt
label_tail-All (c ∷ []) h = ground arith
label_tail-All (c ∷ d ∷ s) h = (ground arith, label_tail-All (d ∷ s) (ground arith))

pub label_re-All : (s : Bytes) → label_re s ≡ true → All (λ c. is_label_byte c ≡ true) s
unfolding label_re
label_re-All [] h = tt
label_re-All (c ∷ []) h = ground arith
label_re-All (c ∷ d ∷ s) h = (ground arith, label_tail-All (d ∷ s) (ground arith))

-- A label's bytes are ASCII, not upper case, and neither '.', ':', ',' nor white space.
abbrev pub IsPlain : ℕ → Type 0
IsPlain c =
    (c < 128) × (lower_byte c ≡ c) × (32 < c) × (c ≢ b'.') × (c ≢ b':') × (c ≢ b',') × (c ≢ b'[')

is_label_byte-IsPlain : (c : ℕ) → is_label_byte c ≡ true → IsPlain c
is_label_byte-IsPlain c h = ground arith

pub All-IsPlain : (s : Bytes) → All (λ c. is_label_byte c ≡ true) s → All IsPlain s
All-IsPlain [] h = tt
All-IsPlain (c ∷ s) (h, hs) = (is_label_byte-IsPlain c h, All-IsPlain s hs)

pub NoDoubleHyphen-iff : (s : Bytes) → (contains s double_hyphen ≡ false) ↔ NoDoubleHyphen s
NoDoubleHyphen-iff s = elim (Bool-cases (contains s double_hyphen)) [
  | inl e ↦ (λ h. cc, λ h. absurd (h ((contains_iff s double_hyphen).0 e)))
  | inr e ↦ (λ h occurs. cc ((contains_iff s double_hyphen).1 occurs), λ h. e)
]
