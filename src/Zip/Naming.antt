-- ===== src/Zip/Naming.antt =====
-- Where the name of an archive's entry leads.
use mathlib.Core.List.{reverse, reverse_aux, reverse-reverse}
use kotoji.Prelude.{
  ◌==◌, Bool-cases, All, ◌≡◌, refl, ◌≢◌, ◌↔◌, inl, inr, true, false, ◌||◌, List, [], ◌∷◌, ◌++◌,
  arith,
}
use kotoji.Site.Paths.{
  dot, is_local, clean_path, segments, git_dir_segment, dotdot, join, clean_onto,
}
use kotoji.Site.Paths.Complete.{
  names_a_file, Leads-IsName, not_empty, is_local-of_segments, cleaned, escapes, IsName,
}
use kotoji.Site.Paths.Segments.{
  All-of_reverse, clean_onto-NoSlash, reverse-All, segments-NoSlash, NoSlash,
}
use kotoji.Site.Paths.Walk.{
  Leads, down, clean_onto-Leads, IsOrdinary, dot_or_join-segments, arrived, IsOutside,
}
use kotoji.Text.{is_empty, bytes_eq, has_prefix, Bytes, mem, codes, contains}
use kotoji.Text.Laws.{contains_iff, bytes_eq_iff}
use kotoji.Zip.{slips, has_bad_segment}

-- A name with no slash in front that leads from the root, without ever leaving it, to a place below.
abbrev pub LeadsInside : Bytes → List Bytes → Type 0
LeadsInside name to =
    (has_prefix name (codes "/") ≡ false)
    × Leads [] (segments name) to
    × (reverse to ≢ [])
    × All IsOrdinary to

has_bad_segment-All : (ss : List Bytes) → has_bad_segment ss ≡ false → All IsOrdinary ss
unfolding has_bad_segment
has_bad_segment-All [] h = tt
has_bad_segment-All (s ∷ ss) h = (
  (λ e. ground (arith, bytes_eq_iff s dotdot), λ e. ground (arith, bytes_eq_iff s git_dir_segment)),
  has_bad_segment-All ss (ground arith),
)

All-has_bad_segment : (ss : List Bytes) → All IsOrdinary ss → has_bad_segment ss ≡ false
unfolding has_bad_segment
All-has_bad_segment [] h = refl
All-has_bad_segment (s ∷ ss) h =
    ground (
      arith,
      bytes_eq_iff s dotdot,
      bytes_eq_iff s git_dir_segment,
      All-has_bad_segment ss h.1,
      h.0,
    )

All-mem : (ss : List Bytes) → All IsOrdinary ss → mem dotdot ss ≡ false
unfolding mem
All-mem [] h = refl
All-mem (s ∷ ss) h = ground (arith, bytes_eq_iff dotdot s, All-mem ss h.1, h.0.0)

-- What follows a slash are elements after the first.
mem-after_slash :
    (x s t : Bytes)
    → mem x (segments t) ≡ true
    → (h : Bytes) × (ts : List Bytes) × (segments (s ++ b'/' ∷ t) ≡ h ∷ ts) × (mem x ts ≡ true)
unfolding segments mem
mem-after_slash x [] t m = ([], segments t, refl, m)
mem-after_slash x (c ∷ s) t m =
    let (h, ts, e, k) = mem-after_slash x s t m in
    elim (Bool-cases (c == b'/')) [
      | inl q ↦ ([], h ∷ ts, ground arith, ground arith)
      | inr q ↦ (c ∷ h, ts, ground arith, k)
    ]

mem-dots : (r : Bytes) → mem dotdot (segments (codes "../" ++ r)) ≡ true
unfolding segments mem bytes_eq
mem-dots r = refl

dots_between : (q : Bytes) → contains q (codes "/../") ≡ true → mem dotdot (segments q) ≡ true
unfolding mem
dots_between q h =
    let (p, r, e) = (contains_iff q (codes "/../")).0 h in
    let (s, ts, k, m) = mem-after_slash dotdot p (codes "../" ++ r) (mem-dots r) in
    rw (e, k) (ground arith)

slips-parts :
    (name : Bytes)
    → slips name ≡ false
    → (is_local name ≡ true)
      × (bytes_eq (clean_path name) dot ≡ false)
      × (has_bad_segment (segments (clean_path name)) ≡ false)
unfolding slips
slips-parts name h = ground arith

is_local-relative : (name : Bytes) → is_local name ≡ true → has_prefix name (codes "/") ≡ false
unfolding is_local
is_local-relative name h = ground arith

pub slips-LeadsInside :
    (name : Bytes)
    → slips name ≡ false
    → (to : List Bytes) × LeadsInside name to × (clean_path name ≡ join (reverse to))
unfolding clean_path
slips-LeadsInside name h =
    let to = clean_onto [] (segments name) in
    let (local, named, good) = slips-parts name h in
    let plain =
      reverse-All NoSlash to (clean_onto-NoSlash [] (segments name) tt (segments-NoSlash name)) in
    let (below, spelled, parts) = dot_or_join-segments (reverse to) plain named in
    let safe = All-of_reverse IsOrdinary to (has_bad_segment-All (reverse to) (rw parts at good)) in
    (
      to,
      (
        is_local-relative name local,
        clean_onto-Leads [] (segments name) (All-mem to safe),
        below,
        safe,
      ),
      spelled,
    )

names_pass :
    (name : Bytes)
    → is_local name ≡ true
    → (bytes_eq (clean_path name) dot || is_empty (clean_path name)) ≡ false
    → mem dotdot (segments (clean_path name)) ≡ false
    → has_bad_segment (segments (clean_path name)) ≡ false
    → slips name ≡ false
unfolding slips
names_pass name local named inside good =
    ground (arith, escapes (clean_path name), dots_between (clean_path name))

LeadsInside-slips : (name : Bytes) (to : List Bytes) → LeadsInside name to → slips name ≡ false
LeadsInside-slips name to (relative, l, below, good) =
    let (spelled, parts) = cleaned name to l below in
    let names : All IsName (segments (clean_path name)) =
      rw parts (reverse-All IsName to (Leads-IsName l tt)) in
    let safe = reverse-All IsOrdinary to good in
    let inside : mem dotdot (segments (clean_path name)) ≡ false =
      rw parts (All-mem (reverse to) safe) in
    names_pass name (is_local-of_segments name (not_empty name to l below) relative inside)
      (names_a_file (clean_path name) names) inside
      (rw parts (All-has_bad_segment (reverse to) safe))

-- The name of an entry passes the tests against an escape exactly if it has no slash in front and
-- leads from the root of the site to a place below it without ever leaving it, and no element of that
-- place is ".." or ".git".
pub slips_iff : (name : Bytes) → (slips name ≡ false) ↔ ((to : List Bytes) × LeadsInside name to)
slips_iff name = (
  λ h. let (to, inside, spelled) = slips-LeadsInside name h in (to, inside),
  λ (to, inside). LeadsInside-slips name to inside,
)

-- A place is the way to itself.
IsName-Leads :
    (at ss : List Bytes) → All IsName ss → mem dotdot ss ≡ false → Leads at ss (reverse_aux ss at)
unfolding mem
IsName-Leads at [] h k = arrived
IsName-Leads at (s ∷ ss) h k =
    down h.0.0 h.0.1 (λ e. ground (arith, bytes_eq_iff dotdot s))
      (IsName-Leads (s ∷ at) ss h.1 (ground arith))

-- Cleaning a cleaned name changes nothing.
pub cleaned-IsOutside :
    (name : Bytes) (to : List Bytes) → LeadsInside name to → IsOutside (clean_path name)
cleaned-IsOutside name to (relative, l, below, good) =
    let (spelled, parts) = cleaned name to l below in
    let names = reverse-All IsName to (Leads-IsName l tt) in
    let way : Leads [] (segments (clean_path name)) (reverse (reverse to)) = rw parts (
      IsName-Leads [] (reverse to) names (All-mem (reverse to) (reverse-All IsOrdinary to good))) in
    let (again, _) = cleaned (clean_path name) to (rw reverse-reverse at way) below in
    (to, good, again)
