-- ===== src/Site/Paths/Walk.antt =====
-- Where an accepted path leads.
use mathlib.Core.List.{reverse}
use kotoji.Prelude.{
  Bool-cases, All, ◌≡◌, refl, sym, subst, ◌≢◌, ◌⊎◌, inl, inr, Bool, true, false, ◌||◌, Option, none,
  List, [], ◌∷◌, arith,
}
use kotoji.Site.Paths.{
  check_extension, dotdot, validate_path_with, git_dir_segment, join, back, push, clean_path,
  check_segments, dot, segments, dot_or_join, clean_onto,
}
use kotoji.Site.Paths.Segments.{
  clean_onto-NoSlash, NoSlash, segments-NoSlash, All-of_reverse, reverse-All, segments-join,
}
use kotoji.Text.{has_prefix, Bytes, is_empty, codes, bytes_eq, mem}
use kotoji.Text.Laws.{bytes_eq_iff}

-- The steps of a walk through directories, from the root. A place is the names on the way to it, the
-- last one first. There is no step up from the root.
pub data Leads : List Bytes → List Bytes → List Bytes → Type 0 where
  arrived : {at : List Bytes} → Leads at [] at
  stay :
      {at to ss : List Bytes} {s : Bytes}
      → (s ≡ []) ⊎ (s ≡ dot)
      → Leads at ss to
      → Leads at (s ∷ ss) to
  up : {at to ss : List Bytes} {t : Bytes} → Leads at ss to → Leads (t ∷ at) (dotdot ∷ ss) to
  down :
      {at to ss : List Bytes} {s : Bytes}
      → s ≢ []
      → s ≢ dot
      → s ≢ dotdot
      → Leads (s ∷ at) ss to
      → Leads at (s ∷ ss) to

-- A name that is neither the repository's own directory nor an option to git.
abbrev pub IsSafe : Bytes → Type 0
IsSafe s = (s ≢ dotdot) × (s ≢ git_dir_segment) × (has_prefix s (codes "-") ≡ false)

-- A name that is not the repository's own directory.
abbrev pub IsOrdinary : Bytes → Type 0
IsOrdinary s = (s ≢ dotdot) × (s ≢ git_dir_segment)

-- The cleaned path spells a place that is not in the repository's own directory.
abbrev pub IsOutside : Bytes → Type 0
IsOutside p = (to : List Bytes) × All IsOrdinary to × (clean_path p ≡ join (reverse to))

back-dotdot : (out : List Bytes) → mem dotdot out ≡ true → mem dotdot (back out) ≡ true
unfolding mem
back-dotdot [] h = ground arith
back-dotdot (t ∷ ts) h = ground arith

push-dotdot :
    (out : List Bytes) (s : Bytes) → mem dotdot out ≡ true → mem dotdot (push out s) ≡ true
push-dotdot out s h = elim (Bool-cases (is_empty s || bytes_eq dot s)) [
  | inl e ↦ rw e h
  | inr e ↦ elim (Bool-cases (bytes_eq dotdot s)) [
    | inl q ↦ rw (e, q) (back-dotdot out h)
    | inr q ↦ rw (e, q) (unfold mem in rw q h)
  ]
]

-- What has once left the root never comes back.
clean_onto-dotdot :
    (out ss : List Bytes) → mem dotdot out ≡ true → mem dotdot (clean_onto out ss) ≡ true
unfolding clean_onto
clean_onto-dotdot out [] h = h
clean_onto-dotdot out (s ∷ ss) h = clean_onto-dotdot (push out s) ss (push-dotdot out s h)

empty_or_dot : (s : Bytes) → (is_empty s || bytes_eq dot s) ≡ true → (s ≡ []) ⊎ (s ≡ dot)
empty_or_dot [] h = inl refl
empty_or_dot (c ∷ s) h = inr (sym ((bytes_eq_iff dot (c ∷ s)).0 (ground arith)))

back-Leads :
    (out ss to : List Bytes)
    → mem dotdot (back out) ≡ false
    → Leads (back out) ss to
    → Leads out (dotdot ∷ ss) to
unfolding mem
back-Leads [] ss to h l = absurd (ground (arith, bytes_eq_iff dotdot dotdot))
back-Leads (t ∷ ts) ss to h l = elim (Bool-cases (bytes_eq dotdot t)) [
  | inl e ↦ absurd (ground (arith, bytes_eq_iff dotdot dotdot))
  | inr e ↦ up (rw e at l)
]

push-Leads :
    (out ss to : List Bytes) (s : Bytes)
    → mem dotdot (push out s) ≡ false
    → Leads (push out s) ss to
    → Leads out (s ∷ ss) to
push-Leads out ss to s h l = elim (Bool-cases (is_empty s || bytes_eq dot s)) [
  | inl e ↦ stay (empty_or_dot s e) (rw e at l)
  | inr e ↦ elim (Bool-cases (bytes_eq dotdot s)) [
    | inl q ↦
        subst (λ x. Leads out (x ∷ ss) to) ((bytes_eq_iff dotdot s).0 q)
          (back-Leads out ss to (rw (e, q) at h) (rw (e, q) at l))
    | inr q ↦
        down (λ z. ground arith) (λ z. ground (arith, bytes_eq_iff dot s))
          (λ z. ground (arith, bytes_eq_iff dotdot s)) (rw (e, q) at l)
  ]
]

pub clean_onto-Leads :
    (out ss : List Bytes)
    → mem dotdot (clean_onto out ss) ≡ false
    → Leads out ss (clean_onto out ss)
unfolding clean_onto
clean_onto-Leads out [] h = arrived
clean_onto-Leads out (s ∷ ss) h = elim (Bool-cases (mem dotdot (push out s))) [
  | inl e ↦ absurd (ground (arith, clean_onto-dotdot (push out s) ss e))
  | inr e ↦ push-Leads out ss (clean_onto out (s ∷ ss)) s e (clean_onto-Leads (push out s) ss h)
]

check_segments-IsSafe : (ss : List Bytes) → check_segments ss ≡ none → All IsSafe ss
unfolding check_segments
check_segments-IsSafe [] h = tt
check_segments-IsSafe (s ∷ ss) h = (
  (
    λ e. ground (arith, bytes_eq_iff s dotdot),
    λ e. ground (arith, bytes_eq_iff s git_dir_segment),
    ground arith,
  ),
  check_segments-IsSafe ss (ground arith),
)

pub IsSafe-mem : (ss : List Bytes) → All IsSafe ss → mem dotdot ss ≡ false
unfolding mem
IsSafe-mem [] h = refl
IsSafe-mem (s ∷ ss) h = ground (arith, bytes_eq_iff dotdot s, IsSafe-mem ss h.1, h.0.0)

accepted_segments :
    (p : Bytes) (ext_ok : Option (Bytes → Bool))
    → validate_path_with p ext_ok ≡ none
    → (bytes_eq (clean_path p) dot ≡ false)
      × (check_segments (segments (clean_path p)) ≡ none)
      × (check_extension ext_ok (clean_path p) ≡ none)
unfolding validate_path_with
accepted_segments p ext_ok h = ground arith

pub dot_or_join-segments :
    (ss : List Bytes)
    → All NoSlash ss
    → bytes_eq (dot_or_join ss) dot ≡ false
    → (ss ≢ []) × (dot_or_join ss ≡ join ss) × (segments (dot_or_join ss) ≡ ss)
dot_or_join-segments [] h n = absurd (ground (arith, bytes_eq_iff dot dot))
dot_or_join-segments (s ∷ ss) h n = (λ e. ground arith, refl, segments-join s ss h)

-- A path that is accepted leads from the root of the repository to a place below it without ever
-- leaving it. No name on the way to that place is "..", ".git" or starts with a dash; the cleaned
-- path spells that place, and has an extension that the caller allows.
pub validate_path_with_sound :
    (p : Bytes) (ext_ok : Option (Bytes → Bool))
    → validate_path_with p ext_ok ≡ none
    → (to : List Bytes) × Leads [] (segments p) to
      × (reverse to ≢ [])
      × All IsSafe to
      × (clean_path p ≡ join (reverse to))
      × (check_extension ext_ok (join (reverse to)) ≡ none)
unfolding clean_path
validate_path_with_sound p ext_ok h =
    let to = clean_onto [] (segments p) in
    let (named, checked, ext) = accepted_segments p ext_ok h in
    let plain =
      reverse-All NoSlash to (clean_onto-NoSlash [] (segments p) tt (segments-NoSlash p)) in
    let (below, spelled, parts) = dot_or_join-segments (reverse to) plain named in
    let safe =
      All-of_reverse IsSafe to (check_segments-IsSafe (reverse to) (rw parts at checked)) in
    (
      to,
      clean_onto-Leads [] (segments p) (IsSafe-mem to safe),
      below,
      safe,
      spelled,
      rw spelled at ext,
    )

IsSafe-IsOrdinary : (ss : List Bytes) → All IsSafe ss → All IsOrdinary ss
IsSafe-IsOrdinary [] h = tt
IsSafe-IsOrdinary (s ∷ ss) h = ((h.0.0, h.0.1), IsSafe-IsOrdinary ss h.1)

pub accepted-IsOutside :
    (p : Bytes) (ext_ok : Option (Bytes → Bool)) → validate_path_with p ext_ok ≡ none → IsOutside p
accepted-IsOutside p ext_ok h =
    let (to, l, below, safe, spelled, ext) = validate_path_with_sound p ext_ok h in
    (to, IsSafe-IsOrdinary to safe, spelled)
