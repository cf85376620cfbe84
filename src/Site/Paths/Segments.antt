-- ===== src/Site/Paths/Segments.antt =====
-- The elements of a path between its slashes, taken apart and put together.
use mathlib.Core.List.{reverse, reverse_aux}
use kotoji.Prelude.{
  ◌==◌, Bool-cases, All, ℕ, ◌≡◌, refl, ap, ◌∙◌, ◌≢◌, inl, inr, ◌||◌, List, [], ◌∷◌, ◌++◌, arith,
}
use kotoji.Site.Paths.{dotdot, dot, cons_head, push, join, back, clean_onto, segments}
use kotoji.Text.{Bytes, bytes_eq, is_empty}

abbrev pub NoSlash : Bytes → Type 0
NoSlash s = All (λ c. c ≢ b'/') s

cons_head-NoSlash :
    (c : ℕ) (ts : List Bytes) → c ≢ b'/' → All NoSlash ts → All NoSlash (cons_head c ts)
cons_head-NoSlash c [] n h = ((n, tt), tt)
cons_head-NoSlash c (t ∷ ts) n h = ((n, h.0), h.1)

pub segments-NoSlash : (p : Bytes) → All NoSlash (segments p)
unfolding segments
segments-NoSlash [] = (tt, tt)
segments-NoSlash (c ∷ p) = elim (Bool-cases (c == b'/')) [
  | inl e ↦ rw e (tt, segments-NoSlash p)
  | inr e ↦ rw e (cons_head-NoSlash c (segments p) (λ q. ground arith) (segments-NoSlash p))
]

segments-one : (s : Bytes) → NoSlash s → segments s ≡ s ∷ []
unfolding segments
segments-one [] h = refl
segments-one (c ∷ s) h = ground (arith, segments-one s h.1)

segments-append : (s t : Bytes) → NoSlash s → segments (s ++ b'/' ∷ t) ≡ s ∷ segments t
unfolding segments
segments-append [] t h = refl
segments-append (c ∷ s) t h = ground (arith, segments-append s t h.1)

-- A path is put together from its elements in one way.
pub segments-join :
    (s : Bytes) (ss : List Bytes) → All NoSlash (s ∷ ss) → segments (join (s ∷ ss)) ≡ s ∷ ss
unfolding join
segments-join s [] h = segments-one s h.0
segments-join s (t ∷ ts) h =
    segments-append s (join (t ∷ ts)) h.0 ∙ ap (λ x. s ∷ x) (segments-join t ts h.1)

module _ (P : Bytes → Type 0) where
  reverse_aux-All : (xs acc : List Bytes) → All P xs → All P acc → All P (reverse_aux xs acc)
  reverse_aux-All [] acc h k = k
  reverse_aux-All (x ∷ xs) acc h k = reverse_aux-All xs (x ∷ acc) h.1 (h.0, k)

  All-reverse_aux : (xs acc : List Bytes) → All P (reverse_aux xs acc) → All P xs × All P acc
  All-reverse_aux [] acc h = (tt, h)
  All-reverse_aux (x ∷ xs) acc h =
      let (rest, first) = All-reverse_aux xs (x ∷ acc) h in ((first.0, rest), first.1)

  pub reverse-All : (xs : List Bytes) → All P xs → All P (reverse xs)
  reverse-All xs h = reverse_aux-All xs [] h tt

  pub All-of_reverse : (xs : List Bytes) → All P (reverse xs) → All P xs
  All-of_reverse xs h = (All-reverse_aux xs [] h).0

-- What holds of the elements and of ".." holds of what the cleaning keeps.
module _ (Q : Bytes → Type 0) (of_dotdot : Q dotdot) where
  back-All : (out : List Bytes) → All Q out → All Q (back out)
  back-All [] h = (of_dotdot, tt)
  back-All (t ∷ ts) h = elim (Bool-cases (bytes_eq dotdot t)) [
    | inl e ↦ rw e (of_dotdot, h)
    | inr e ↦ rw e h.1
  ]

  push-All : (out : List Bytes) (s : Bytes) → All Q out → Q s → All Q (push out s)
  push-All out s h k = elim (Bool-cases (is_empty s || bytes_eq dot s)) [
    | inl e ↦ rw e h
    | inr e ↦ elim (Bool-cases (bytes_eq dotdot s)) [
      | inl q ↦ rw (e, q) (back-All out h)
      | inr q ↦ rw (e, q) (k, h)
    ]
  ]

  pub clean_onto-All : (out ss : List Bytes) → All Q out → All Q ss → All Q (clean_onto out ss)
  unfolding clean_onto
  clean_onto-All out [] h k = h
  clean_onto-All out (s ∷ ss) h k = clean_onto-All (push out s) ss (push-All out s h k.0) k.1

pub clean_onto-NoSlash :
    (out ss : List Bytes) → All NoSlash out → All NoSlash ss → All NoSlash (clean_onto out ss)
clean_onto-NoSlash = clean_onto-All NoSlash (ground arith)
