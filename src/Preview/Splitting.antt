-- ===== src/Preview/Splitting.antt =====
-- A text taken apart at a byte, and put together.
use kotoji.Prelude.{
  ◌==◌, Bool-cases, Option-cases, length, take, drop, All, ℕ, zero, suc, ◌≡◌, refl, sym, ap, ◌∙◌,
  ◌≢◌, inl, inr, some, List, [], ◌∷◌, ◌++◌, arith,
}
use kotoji.Text.{index_byte, Bytes, join_with, cons_first, split, last_index_byte}

abbrev pub Without : ℕ → Bytes → Type 0
Without b s = All (λ c. c ≢ b) s

pub split-one : (b : ℕ) (s : Bytes) → Without b s → split b s ≡ s ∷ []
unfolding split
split-one b [] h = refl
split-one b (c ∷ s) h = ground (arith, split-one b s h.1)

pub split-append : (b : ℕ) (s t : Bytes) → Without b s → split b (s ++ b ∷ t) ≡ s ∷ split b t
unfolding split
split-append b [] t h = ground arith
split-append b (c ∷ s) t h = ground (arith, split-append b s t h.1)

join_with-cons_first :
    (b c : ℕ) (ts : List Bytes) → ts ≢ [] → join_with b (cons_first c ts) ≡ c ∷ join_with b ts
unfolding join_with
join_with-cons_first b c [] h = absurd (h refl)
join_with-cons_first b c (s ∷ []) h = refl
join_with-cons_first b c (s ∷ t ∷ ts) h = refl

split-some : (b : ℕ) (s : Bytes) → split b s ≢ []
unfolding split
split-some b [] e = ground arith
split-some b (c ∷ s) e = elim (Bool-cases (c == b)) [
  | inl q ↦ ground arith
  | inr q ↦ first (split b s) (ground arith)
]
  where
    first : (ts : List Bytes) → cons_first c ts ≢ []
    first [] k = ground arith
    first (t ∷ ts) k = ground arith

join_with-nil : (b : ℕ) (ts : List Bytes) → ts ≢ [] → join_with b ([] ∷ ts) ≡ b ∷ join_with b ts
unfolding join_with
join_with-nil b [] h = absurd (h refl)
join_with-nil b (t ∷ ts) h = refl

-- The parts put together again are the text.
pub join_with-split : (b : ℕ) (s : Bytes) → join_with b (split b s) ≡ s
unfolding split
join_with-split b [] = unfold join_with in refl
join_with-split b (c ∷ s) = elim (Bool-cases (c == b)) [
  | inl q ↦
      let e : c ≡ b = ground arith in
      rw (q, join_with-nil b (split b s) (split-some b s), join_with-split b s)
        (ap (λ x. x ∷ s) (sym e))
  | inr q ↦ rw (q, join_with-cons_first b c (split b s) (split-some b s), join_with-split b s) refl
]

pub split-Without : (b : ℕ) (s : Bytes) → All (Without b) (split b s)
unfolding split
split-Without b [] = (tt, tt)
split-Without b (c ∷ s) = elim (Bool-cases (c == b)) [
  | inl q ↦ rw q (tt, split-Without b s)
  | inr q ↦ rw q (first (split b s) (λ e. ground arith) (split-Without b s))
]
  where
    first : (ts : List Bytes) → c ≢ b → All (Without b) ts → All (Without b) (cons_first c ts)
    first [] n h = ((n, tt), tt)
    first (t ∷ ts) n h = ((n, h.0), h.1)

-- What parts without the byte are put together to is taken apart into them.
pub split-join_with :
    (b : ℕ) (t : Bytes) (ts : List Bytes)
    → All (Without b) (t ∷ ts)
    → split b (join_with b (t ∷ ts)) ≡ t ∷ ts
unfolding join_with
split-join_with b t [] h = split-one b t h.0
split-join_with b t (s ∷ ts) h =
    split-append b t (join_with b (s ∷ ts)) h.0 ∙ ap (λ x. t ∷ x) (split-join_with b s ts h.1)

pub last_index_byte_sound :
    (s : Bytes) (b i : ℕ) → last_index_byte s b ≡ some i → s ≡ take i s ++ b ∷ drop (suc i) s
unfolding last_index_byte
last_index_byte_sound [] b i h = ground arith
last_index_byte_sound (c ∷ s) b zero h = elim (Option-cases (last_index_byte s b)) [
  | inl e ↦ ground arith
  | inr (j, e) ↦ ground arith
]
last_index_byte_sound (c ∷ s) b (suc i) h = elim (Option-cases (last_index_byte s b)) [
  | inl e ↦ ground arith
  | inr (j, e) ↦ ap (λ x. c ∷ x) (last_index_byte_sound s b i (ground arith))
]

pub index_byte_sound :
    (s : Bytes) (b i : ℕ) → index_byte s b ≡ some i → s ≡ take i s ++ b ∷ drop (suc i) s
unfolding index_byte
index_byte_sound [] b i h = ground arith
index_byte_sound (c ∷ s) b zero h = elim (Bool-cases (c == b)) [
  | inl e ↦ ground arith
  | inr e ↦ elim (Option-cases (index_byte s b)) [
    | inl q ↦ ground arith
    | inr (j, q) ↦ ground arith
  ]
]
index_byte_sound (c ∷ s) b (suc i) h = elim (Bool-cases (c == b)) [
  | inl e ↦ ground arith
  | inr e ↦
      ap (λ x. c ∷ x)
        (index_byte_sound s b i (elim (Option-cases (index_byte s b)) [
          | inl q ↦ ground arith
          | inr (j, q) ↦ ground arith
        ]))
]

pub drop_past : (s : Bytes) (b : ℕ) (t : Bytes) → drop (suc (length s)) (s ++ b ∷ t) ≡ t
drop_past [] b t = refl
drop_past (c ∷ s) b t = drop_past s b t
