-- ===== src/Site/Paths/Complete.antt =====
-- Every path that stays in the repository is accepted.
use mathlib.Core.List.{reverse}
use kotoji.Prelude.{
  Bool-cases, All, ◌≡◌, refl, sym, ap, subst, ◌≢◌, ◌↔◌, ◌⊎◌, inl, inr, Bool, true, false, ◌||◌,
  Option, none, List, [], ◌∷◌, arith,
}
use kotoji.Site.Paths.{
  dot, git_dir_segment, check_extension, has_dots, dotdot, clean_path, clean_onto, push,
  dot_or_join, check_segments, join, segments, validate_path_with, is_local,
}
use kotoji.Site.Paths.Segments.{
  segments-NoSlash, NoSlash, clean_onto-NoSlash, segments-join, reverse-All,
}
use kotoji.Site.Paths.Walk.{
  Leads, validate_path_with_sound, arrived, IsSafe-mem, stay, IsSafe, up, down,
}
use kotoji.Text.{codes, mem, bytes_eq, has_prefix, Bytes, is_empty, index_byte}
use kotoji.Text.Laws.{bytes_eq_iff}

push-stay : (at : List Bytes) (s : Bytes) → (s ≡ []) ⊎ (s ≡ dot) → push at s ≡ at
push-stay at s (inl e) = rw e refl
push-stay at s (inr e) = rw (e, (bytes_eq_iff dot dot).1 refl) refl

push-up : (at : List Bytes) (t : Bytes) → bytes_eq dotdot t ≡ false → push (t ∷ at) dotdot ≡ at
unfolding bytes_eq
push-up at t h = rw h refl

push-down : (at : List Bytes) (s : Bytes) → s ≢ [] → s ≢ dot → s ≢ dotdot → push at s ≡ s ∷ at
push-down at [] n d dd = absurd (n refl)
push-down at (c ∷ s) n d dd = ground (arith, bytes_eq_iff dot (c ∷ s), bytes_eq_iff dotdot (c ∷ s))

Leads-clean_onto :
    {at to ss : List Bytes} → Leads at ss to → mem dotdot at ≡ false → clean_onto at ss ≡ to
unfolding clean_onto mem
Leads-clean_onto (arrived) h = refl
Leads-clean_onto (stay {at} {to} {ss} {s} e l) h = rw (push-stay at s e) (Leads-clean_onto l h)
Leads-clean_onto (up {at} {to} {ss} {t} l) h =
    rw (push-up at t (ground arith)) (Leads-clean_onto l (ground arith))
Leads-clean_onto (down {at} {to} {ss} {s} n d dd l) h =
    rw (push-down at s n d dd) (Leads-clean_onto l (ground (arith, bytes_eq_iff dotdot s)))

IsSafe-check_segments : (ss : List Bytes) → All IsSafe ss → check_segments ss ≡ none
unfolding check_segments
IsSafe-check_segments [] h = refl
IsSafe-check_segments (s ∷ ss) h = ground (
  arith,
  bytes_eq_iff s dotdot,
  bytes_eq_iff s git_dir_segment,
  IsSafe-check_segments ss h.1,
  h.0,
)

-- A text that begins with ".." as an element.
pub escapes :
    (q : Bytes)
    → (bytes_eq q dotdot || has_prefix q (codes "../")) ≡ true
    → mem dotdot (segments q) ≡ true
unfolding mem segments has_prefix bytes_eq
escapes [] h = ground arith
escapes (a ∷ []) h = ground arith
escapes (a ∷ b ∷ []) h = ground arith
escapes (a ∷ b ∷ c ∷ q) h = ground arith

abbrev pub IsName : Bytes → Type 0
IsName s = (s ≢ []) × (s ≢ dot)

pub Leads-IsName : {at to ss : List Bytes} → Leads at ss to → All IsName at → All IsName to
Leads-IsName (arrived) h = h
Leads-IsName (stay e l) h = Leads-IsName l h
Leads-IsName (up l) h = Leads-IsName l h.1
Leads-IsName (down n d dd l) h = Leads-IsName l ((n, d), h)

pub is_local-of_segments :
    (p : Bytes)
    → is_empty p ≡ false
    → has_prefix p (codes "/") ≡ false
    → mem dotdot (segments (clean_path p)) ≡ false
    → is_local p ≡ true
unfolding is_local
is_local-of_segments p full relative inside = elim (Bool-cases (has_dots p)) [
  | inl e ↦ rw (e, full, relative) (ground (arith, escapes (clean_path p)))
  | inr e ↦ rw (e, full, relative) (ground (arith, escapes p))
]

pub names_a_file : (q : Bytes) → All IsName (segments q) → (bytes_eq q dot || is_empty q) ≡ false
unfolding segments
names_a_file [] h = absurd (h.0.0 refl)
names_a_file (c ∷ s) h = elim (Bool-cases (bytes_eq (c ∷ s) dot)) [
  | inl e ↦
      let same = (bytes_eq_iff (c ∷ s) dot).0 e in
      absurd ((subst (λ x. All IsName (segments x)) same h).0.1 refl)
  | inr e ↦ rw e refl
]

-- The path leads, without ever leaving the repository, to a place below its root, every name on the
-- way to that place is safe, and the caller allows its extension.
abbrev pub IsInside : Bytes → Option (Bytes → Bool) → Type 0
IsInside p ext_ok =
    (to : List Bytes) × Leads [] (segments p) to
    × (reverse to ≢ [])
    × All IsSafe to
    × (check_extension ext_ok (join (reverse to)) ≡ none)

-- Relative, and with no NUL and no backslash.
pub record IsRelative (p : Bytes) : Type 0 where
  pub no_nul : index_byte p 0 ≡ none
  pub no_backslash : index_byte p 92 ≡ none
  pub no_slash_first : has_prefix p (codes "/") ≡ false

accepted-IsRelative :
    (p : Bytes) (ext_ok : Option (Bytes → Bool)) → validate_path_with p ext_ok ≡ none → IsRelative p
unfolding validate_path_with
accepted-IsRelative p ext_ok h = record {
  no_nul = ground arith;
  no_backslash = ground arith;
  no_slash_first = ground arith;
}

accepted :
    (p : Bytes) (ext_ok : Option (Bytes → Bool))
    → IsRelative p
    → is_empty p ≡ false
    → is_local p ≡ true
    → (bytes_eq (clean_path p) dot || is_empty (clean_path p)) ≡ false
    → check_segments (segments (clean_path p)) ≡ none
    → check_extension ext_ok (clean_path p) ≡ none
    → validate_path_with p ext_ok ≡ none
unfolding validate_path_with
accepted p ext_ok r full local named checked ext =
    ground (arith, r.no_nul, r.no_backslash, r.no_slash_first)

-- The elements of the cleaned path are the names on the way to where the path leads.
pub cleaned :
    (p : Bytes) (to : List Bytes)
    → Leads [] (segments p) to
    → reverse to ≢ []
    → (clean_path p ≡ join (reverse to)) × (segments (clean_path p) ≡ reverse to)
unfolding clean_path mem
cleaned p to l below =
    let same : clean_onto [] (segments p) ≡ to = Leads-clean_onto l refl in
    let plain =
      subst (All NoSlash) same (clean_onto-NoSlash [] (segments p) tt (segments-NoSlash p)) in
    rw same (parts (reverse to) below (reverse-All NoSlash to plain))
  where
    parts :
        (ss : List Bytes)
        → ss ≢ []
        → All NoSlash ss
        → (dot_or_join ss ≡ join ss) × (segments (dot_or_join ss) ≡ ss)
    parts [] n h = absurd (n refl)
    parts (s ∷ ss) n h = (refl, segments-join s ss h)

pub not_empty :
    (p : Bytes) (to : List Bytes) → Leads [] (segments p) to → reverse to ≢ [] → is_empty p ≡ false
unfolding segments clean_onto mem
not_empty [] to l below = absurd (below (ap reverse (sym (Leads-clean_onto l refl))))
not_empty (c ∷ p) to l below = refl

inside-accepted :
    (p : Bytes) (ext_ok : Option (Bytes → Bool))
    → IsRelative p
    → IsInside p ext_ok
    → validate_path_with p ext_ok ≡ none
inside-accepted p ext_ok r (to, l, below, safe, ext) =
    let (spelled, parts) = cleaned p to l below in
    let full = not_empty p to l below in
    let names : All IsName (segments (clean_path p)) =
      rw parts (reverse-All IsName to (Leads-IsName l tt)) in
    let safe' = reverse-All IsSafe to safe in
    let local =
      is_local-of_segments p full r.no_slash_first (rw parts (IsSafe-mem (reverse to) safe')) in
    accepted p ext_ok r full local (names_a_file (clean_path p) names)
      (rw parts (IsSafe-check_segments (reverse to) safe')) (rw spelled ext)

-- A path is accepted exactly if it is relative, has no NUL and no backslash, and leads from the root
-- of the repository to a place below it without ever leaving it, where no name on the way to that
-- place is "..", ".git" or starts with a dash, and the caller allows the extension.
pub validate_path_with_iff :
    (p : Bytes) (ext_ok : Option (Bytes → Bool))
    → (validate_path_with p ext_ok ≡ none) ↔ (IsRelative p × IsInside p ext_ok)
validate_path_with_iff p ext_ok = (
  λ h.
      let (to, l, below, safe, spelled, ext) = validate_path_with_sound p ext_ok h in
      (accepted-IsRelative p ext_ok h, (to, l, below, safe, ext)),
  λ (r, inside). inside-accepted p ext_ok r inside,
)
