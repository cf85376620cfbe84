-- ===== src/Preview/Query.antt =====
-- What is left of a query when the grant is taken out of it.
use kotoji.Prelude.{
  ◌==◌, Bool-cases, Option-cases, length, take, drop, All, take-length, ℕ, zero, suc, ◌≡◌, refl,
  sym, ◌∙◌, subst, inl, inr, true, Option, none, some, List, [], ◌∷◌, ◌++◌, arith,
}
use kotoji.Preview.{with_query, strip_grant_param, is_kept_pair, kept_pairs, strip_at}
use kotoji.Preview.Splitting.{Without, split-Without, drop_past, split-join_with}
use kotoji.Text.{index_byte, Bytes, split, join_with}

-- The pairs of the query.
abbrev pub pairs_at : Bytes → Option ℕ → List Bytes
pairs_at url none = []
pairs_at url (some i) = split b'&' (drop (suc i) url)

abbrev pub pairs_of : Bytes → List Bytes
pairs_of url = pairs_at url (index_byte url b'?')

-- What comes before the query.
abbrev pub base_at : Bytes → Option ℕ → Bytes
base_at url none = url
base_at url (some i) = take i url

abbrev pub before_query : Bytes → Bytes
before_query url = base_at url (index_byte url b'?')

abbrev pub IsOther : Bytes → Type 0
IsOther pair = is_kept_pair pair ≡ true

kept_pairs-IsOther : (pairs : List Bytes) → All IsOther (kept_pairs pairs)
unfolding kept_pairs
kept_pairs-IsOther [] = tt
kept_pairs-IsOther (pair ∷ pairs) = elim (Bool-cases (is_kept_pair pair)) [
  | inl e ↦ rw e (e, kept_pairs-IsOther pairs)
  | inr e ↦ rw e (kept_pairs-IsOther pairs)
]

kept_pairs-All : (P : Bytes → Type 0) (pairs : List Bytes) → All P pairs → All P (kept_pairs pairs)
unfolding kept_pairs
kept_pairs-All P [] h = tt
kept_pairs-All P (pair ∷ pairs) h = elim (Bool-cases (is_kept_pair pair)) [
  | inl e ↦ rw e (h.0, kept_pairs-All P pairs h.1)
  | inr e ↦ rw e (kept_pairs-All P pairs h.1)
]

index_byte-none : (b : ℕ) (s : Bytes) → Without b s → index_byte s b ≡ none
unfolding index_byte
index_byte-none b [] h = refl
index_byte-none b (c ∷ s) h = ground (arith, index_byte-none b s h.1)

index_byte-append :
    (b : ℕ) (s t : Bytes) → Without b s → index_byte (s ++ b ∷ t) b ≡ some (length s)
unfolding index_byte
index_byte-append b [] t h = ground arith
index_byte-append b (c ∷ s) t h = ground (arith, index_byte-append b s t h.1)

-- Before the first occurrence there is none.
index_byte-Without : (b i : ℕ) (s : Bytes) → index_byte s b ≡ some i → Without b (take i s)
unfolding index_byte
index_byte-Without b zero s h = tt
index_byte-Without b (suc i) [] h = tt
index_byte-Without b (suc i) (c ∷ s) h = elim (Bool-cases (c == b)) [
  | inl e ↦ ground arith
  | inr e ↦ elim (Option-cases (index_byte s b)) [
    | inl q ↦ ground arith
    | inr (j, q) ↦ (λ z. ground arith, index_byte-Without b i s (ground arith))
  ]
]

no_query : (s : Bytes) → index_byte s b'?' ≡ none → (pairs_of s ≡ []) × (before_query s ≡ s)
no_query s h = rw h (refl, refl)

queried :
    (s : Bytes) (t : Bytes) (ts : List Bytes)
    → Without b'?' s
    → All (Without b'&') (t ∷ ts)
    → (pairs_of (with_query s (t ∷ ts)) ≡ t ∷ ts) × (before_query (with_query s (t ∷ ts)) ≡ s)
queried s t ts plain parts =
    let q = join_with b'&' (t ∷ ts) in
    rw (index_byte-append b'?' s q plain, drop_past s b'?' q, take-length s (b'?' ∷ q))
      (split-join_with b'&' t ts parts, refl)

rebuilt :
    (s : Bytes) (ks : List Bytes)
    → Without b'?' s
    → All (Without b'&') ks
    → (pairs_of (with_query s ks) ≡ ks) × (before_query (with_query s ks) ≡ s)
rebuilt s [] plain parts = no_query s (index_byte-none b'?' s plain)
rebuilt s (t ∷ ts) plain parts = queried s t ts plain parts

stripped :
    (url : Bytes) (o : Option ℕ)
    → index_byte url b'?' ≡ o
    → (pairs_of (strip_at url o) ≡ kept_pairs (pairs_at url o))
      × (before_query (strip_at url o) ≡ base_at url o)
stripped url none e = let (p, b) = no_query url e in (p ∙ (unfold kept_pairs in refl), b)
stripped url (some i) e =
    let pairs = split b'&' (drop (suc i) url) in
    rebuilt (take i url) (kept_pairs pairs) (index_byte-Without b'?' i url e)
      (kept_pairs-All (Without b'&') pairs (split-Without b'&' (drop (suc i) url)))

-- Taking the grant out of an address leaves what comes before the query, and of the pairs of the query,
-- in their order, exactly those that are not empty and whose key is not "kpt".
pub strip_grant_param_lem :
    (url : Bytes)
    → (pairs_of (strip_grant_param url) ≡ kept_pairs (pairs_of url))
      × (before_query (strip_grant_param url) ≡ before_query url)
      × All IsOther (pairs_of (strip_grant_param url))
unfolding strip_grant_param
strip_grant_param_lem url =
    let (pairs, base) = stripped url (index_byte url b'?') refl in
    (pairs, base, subst (All IsOther) (sym pairs) (kept_pairs-IsOther (pairs_of url)))
