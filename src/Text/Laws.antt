-- ===== src/Text/Laws.antt =====
-- Laws of the text operations.
use mathlib.Core.List.{Memᴰ, reverse, reverse-cons, reverse-reverse}
use kotoji.Prelude.{
  Bool-cases, length, take, drop, length-append, All, take-length, drop-length, ℕ, zero, suc, ◌-◌,
  ◌<◌, ◌≡◌, refl, sym, ap, ◌∙◌, subst, ◌≢◌, ◌↔◌, inl, inr, true, false, ◌||◌, none, some, List, [],
  ◌∷◌, ◌++◌, map, arith,
}
use kotoji.Text.{
  trim_back, lower_byte, trim_space, last_index_byte, is_ascii, Unicode, to_lower, Bytes, mem,
  has_prefix, index, bytes_eq, contains, has_suffix,
}

pub bytes_eq_iff : (s t : Bytes) → (bytes_eq s t ≡ true) ↔ (s ≡ t)
unfolding bytes_eq
bytes_eq_iff [] [] = ground arith
bytes_eq_iff [] (b ∷ t) = ground arith
bytes_eq_iff (a ∷ s) [] = ground arith
bytes_eq_iff (a ∷ s) (b ∷ t) = ground (arith, bytes_eq_iff s t)

pub bytes_eq-false : (s t : Bytes) → bytes_eq s t ≡ false → s ≢ t
bytes_eq-false s t h = ground (arith, bytes_eq_iff s t)

pub bytes_eq_refl : (s : Bytes) → bytes_eq s s ≡ true
bytes_eq_refl s = (bytes_eq_iff s s).1 refl

pub has_prefix→ : (s p : Bytes) → has_prefix s p ≡ true → (q : Bytes) × (s ≡ p ++ q)
unfolding has_prefix
has_prefix→ s [] h = (s, refl)
has_prefix→ [] (c ∷ p) h = ground arith
has_prefix→ (b ∷ s) (c ∷ p) h = let (q, same) = has_prefix→ s p (ground arith) in (q, ground arith)

pub has_prefix-append : (p q : Bytes) → has_prefix (p ++ q) p ≡ true
unfolding has_prefix
has_prefix-append [] q = ground arith
has_prefix-append (c ∷ p) q = ground (arith, has_prefix-append p q)

contains-nil : (sep : Bytes) → contains [] sep ≡ has_prefix [] sep
unfolding contains
contains-nil sep = ground arith

pub contains-cons :
    (c : ℕ) (s sep : Bytes) → contains (c ∷ s) sep ≡ (has_prefix (c ∷ s) sep || contains s sep)
unfolding contains index
contains-cons c s sep = ground arith

abbrev pub OccursIn : Bytes → Bytes → Type 0
OccursIn sep s = (p : Bytes) × (q : Bytes) × (s ≡ p ++ (sep ++ q))

contains→ : (s sep : Bytes) → contains s sep ≡ true → OccursIn sep s
contains→ [] sep h =
    let (q, same) = has_prefix→ [] sep (sym (contains-nil sep) ∙ h) in ([], q, same)
contains→ (c ∷ s) sep h = elim (Bool-cases (has_prefix (c ∷ s) sep)) [
  | inl here ↦ let (q, same) = has_prefix→ (c ∷ s) sep here in ([], q, same)
  | inr past ↦
      let (p, q, same) = contains→ s sep (ground (arith, contains-cons c s sep)) in
      (c ∷ p, q, ap (λ t. c ∷ t) same)
]

contains-append : (p sep q : Bytes) → contains (p ++ (sep ++ q)) sep ≡ true
unfolding has_prefix
contains-append [] [] [] = contains-nil []
contains-append [] (c ∷ sep) q =
    ground (arith, contains-cons c (sep ++ q) (c ∷ sep), has_prefix-append (c ∷ sep) q)
contains-append [] [] (c ∷ q) = ground (arith, contains-cons c q [], has_prefix-append [] (c ∷ q))
contains-append (c ∷ p) sep q =
    ground (arith, contains-cons c (p ++ (sep ++ q)) sep, contains-append p sep q)

-- `contains` finds a part exactly where there is one.
pub contains_iff : (s sep : Bytes) → (contains s sep ≡ true) ↔ OccursIn sep s
contains_iff s sep = (contains→ s sep, λ (p, q, same). rw same (contains-append p sep q))

pub index-none : (s sep : Bytes) → contains s sep ≡ false → index s sep ≡ none
unfolding contains
index-none s sep h = ground arith

has_suffix-append_aux : (s t : Bytes) → has_suffix (s ++ t) t ≡ true
unfolding has_suffix
has_suffix-append_aux [] [] = ground (arith, bytes_eq_refl [])
has_suffix-append_aux [] (c ∷ t) = ground (arith, bytes_eq_refl (c ∷ t))
has_suffix-append_aux (c ∷ s) t = ground (arith, has_suffix-append_aux s t)

pub has_suffix→ : (s t : Bytes) → has_suffix s t ≡ true → (p : Bytes) × (s ≡ p ++ t)
unfolding has_suffix
has_suffix→ [] t h = ([], (bytes_eq_iff [] t).0 h)
has_suffix→ (c ∷ s) t h = elim (Bool-cases (bytes_eq (c ∷ s) t)) [
  | inl here ↦ ([], (bytes_eq_iff (c ∷ s) t).0 here)
  | inr past ↦ let (p, same) = has_suffix→ s t (ground arith) in (c ∷ p, ap (λ t. c ∷ t) same)
]

pub has_suffix_iff : (s t : Bytes) → (has_suffix s t ≡ true) ↔ ((p : Bytes) × (s ≡ p ++ t))
has_suffix_iff s t = (has_suffix→ s t, λ (p, same). rw same (has_suffix-append_aux p t))

pub mem→ : (s : Bytes) (ts : List Bytes) → mem s ts ≡ true → Memᴰ s ts
unfolding mem
mem→ s [] h = ground arith
mem→ s (t ∷ ts) h = elim (Bool-cases (bytes_eq s t)) [
  | inl here ↦ Memᴰ.head ((bytes_eq_iff s t).0 here)
  | inr past ↦ Memᴰ.tail (mem→ s ts (ground arith))
]

mem← : {s : Bytes} {ts : List Bytes} → Memᴰ s ts → mem s ts ≡ true
unfolding mem
mem← {s} (Memᴰ.head {x} e) = ground (arith, bytes_eq_iff s x)
mem← (Memᴰ.tail m) = ground (arith, mem← m)

pub mem_iff : (s : Bytes) (ts : List Bytes) → (mem s ts ≡ true) ↔ Memᴰ s ts
mem_iff s ts = (mem→ s ts, mem←)

pub All-map : {P Q : ℕ → Type 0} (f : (c : ℕ) → P c → Q c) (s : Bytes) → All P s → All Q s
All-map f [] h = tt
All-map f (c ∷ s) h = (f c h.0, All-map f s h.1)

pub map-lower_byte_id : (s : Bytes) → All (λ c. lower_byte c ≡ c) s → map lower_byte s ≡ s
map-lower_byte_id [] h = refl
map-lower_byte_id (c ∷ s) (e, h) = cc (e, map-lower_byte_id s h)

pub last_index_byte-none : (s : Bytes) (b : ℕ) → All (λ c. c ≢ b) s → last_index_byte s b ≡ none
unfolding last_index_byte
last_index_byte-none [] b h = refl
last_index_byte-none (c ∷ s) b (e, h) = ground (arith, last_index_byte-none s b h)

-- The last occurrence, where nothing after it is one.
pub last_index_byte-append :
    (s : Bytes) (b : ℕ) (t : Bytes)
    → All (λ c. c ≢ b) t
    → last_index_byte (s ++ b ∷ t) b ≡ some (length s)
unfolding last_index_byte
last_index_byte-append [] b t h = ground (arith, last_index_byte-none t b h)
last_index_byte-append (c ∷ s) b t h = ground (arith, last_index_byte-append s b t h)

IsLower-is_ascii : (s : Bytes) → All (λ c. (c < 128) × (lower_byte c ≡ c)) s → is_ascii s ≡ true
IsLower-is_ascii [] h = refl
IsLower-is_ascii (c ∷ s) h = ground (arith, IsLower-is_ascii s h.1)

pub to_lower_id :
    (u : Unicode) (s : Bytes) → All (λ c. (c < 128) × (lower_byte c ≡ c)) s → to_lower u s ≡ s
unfolding to_lower
to_lower_id u s h = rw (IsLower-is_ascii s h) (map-lower_byte_id s (All-map (λ c p. p.1) s h))

pub All-append : (P : ℕ → Type 0) (s t : Bytes) → All P s → All P t → All P (s ++ t)
All-append P [] t h k = k
All-append P (c ∷ s) t h k = (h.0, All-append P s t h.1 k)

pub All-reverse : (P : ℕ → Type 0) (s : Bytes) → All P s → All P (reverse s)
All-reverse P [] h = tt
All-reverse P (c ∷ s) h =
    rw reverse-cons (All-append P (reverse s) (c ∷ []) (All-reverse P s h.1) (h.0, tt))

-- Printable ASCII, without the space.
abbrev pub IsGraphic : ℕ → Type 0
IsGraphic c = (c < 128) × (32 < c)

trim_back_id : (u : Unicode) (s : Bytes) → All IsGraphic s → trim_back u s ≡ reverse s
unfolding trim_back
trim_back_id u [] h = refl
trim_back_id u (c ∷ s) h = ground arith

pub trim_space_id : (u : Unicode) (s : Bytes) → All IsGraphic s → trim_space u s ≡ s
unfolding trim_space
trim_space_id u [] h = refl
trim_space_id u (c ∷ s) h = ground (
  arith,
  trim_back_id u (reverse (c ∷ s)) (All-reverse IsGraphic (c ∷ s) h),
  reverse-reverse (c ∷ s),
)

take-zero {ℓ} : {A : Type ℓ} (s : List A) → take 0 s ≡ []
take-zero s = refl

prefix_split : (s sep : Bytes) → has_prefix s sep ≡ true → s ≡ sep ++ drop (length sep) s
prefix_split s sep h =
    let (q, same) = has_prefix→ s sep h in
    subst (λ t. t ≡ sep ++ drop (length sep) t) (sym same)
      (ap (λ t. sep ++ t) (sym (drop-length sep q)))

-- An index that is found splits the text at an occurrence.
pub index-split :
    (s sep : Bytes) (i : ℕ)
    → index s sep ≡ some i
    → s ≡ take i s ++ (sep ++ drop (length sep) (drop i s))
unfolding index
index-split [] sep i h = elim (Bool-cases (has_prefix [] sep)) [
  | inl e ↦ let z : i ≡ 0 = ground arith in rw z (prefix_split [] sep e)
  | inr e ↦ ground arith
]
index-split (c ∷ s) sep zero h = elim (Bool-cases (has_prefix (c ∷ s) sep)) [
  | inl e ↦ prefix_split (c ∷ s) sep e
  | inr e ↦ ground arith
]
index-split (c ∷ s) sep (suc i) h = elim (Bool-cases (has_prefix (c ∷ s) sep)) [
  | inl e ↦ ground arith
  | inr e ↦ ap (λ t. c ∷ t) (index-split s sep i (ground arith))
]

pub suffix_take : (p t : Bytes) → take (length (p ++ t) - length t) (p ++ t) ≡ p
suffix_take p t =
    let n : length (p ++ t) - length t ≡ length p = omega (arith, length-append p t) in
    rw n (take-length p t)
