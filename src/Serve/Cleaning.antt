-- ===== src/Serve/Cleaning.antt =====
-- Where a request path leads in the tree.
use mathlib.Core.List.{reverse}
use mathlib.Core.Option.{some-injective}
use kotoji.Prelude.{
  Bool-cases, Option-cases, All, ◌≡◌, ap, subst, ◌≢◌, inl, inr, false, ◌||◌, none, some, List, [],
  ◌∷◌, arith,
}
use kotoji.Serve.{up_rooted, has_refused, push_rooted, clean_rooted, CleanPath, clean_request_path}
use kotoji.Site.Paths.{segments, dot, dotdot, git_dir_segment}
use kotoji.Site.Paths.Segments.{reverse-All, segments-NoSlash, NoSlash}
use kotoji.Text.{is_empty, bytes_eq, index_byte, Bytes}
use kotoji.Text.Laws.{bytes_eq_iff}

-- A name that stays where it is: not empty, with no slash, none of "." and "..", and not ".git".
abbrev pub IsEntryName : Bytes → Type 0
IsEntryName s = NoSlash s × (s ≢ []) × (s ≢ dot) × (s ≢ dotdot) × (s ≢ git_dir_segment)

abbrev IsStep : Bytes → Type 0
IsStep s = NoSlash s × (s ≢ []) × (s ≢ dot) × (s ≢ dotdot)

push_rooted-All :
    (out : List Bytes) (s : Bytes) → All IsStep out → NoSlash s → All IsStep (push_rooted out s)
push_rooted-All out s h n = elim (Bool-cases (is_empty s || bytes_eq s dot)) [
  | inl e ↦ rw e h
  | inr e ↦ elim (Bool-cases (bytes_eq s dotdot)) [
    | inl q ↦ rw (e, q) (up out h)
    | inr q ↦
        rw (e, q)
          (
            (
              n,
              filled s e,
              λ z. ground (arith, bytes_eq_iff s dot),
              λ z. ground (arith, bytes_eq_iff s dotdot),
            ),
            h,
          )
  ]
]
  where
    up : (out : List Bytes) → All IsStep out → All IsStep (up_rooted out)
    up [] h = tt
    up (t ∷ ts) h = h.1

    filled : (s : Bytes) → (is_empty s || bytes_eq s dot) ≡ false → s ≢ []
    filled [] e z = ground arith
    filled (c ∷ s) e z = ground arith

clean_rooted-All :
    (out ss : List Bytes) → All IsStep out → All NoSlash ss → All IsStep (clean_rooted out ss)
unfolding clean_rooted
clean_rooted-All out [] h n = h
clean_rooted-All out (s ∷ ss) h n =
    clean_rooted-All (push_rooted out s) ss (push_rooted-All out s h n.0) n.1

has_refused-All : (ss : List Bytes) → All IsStep ss → has_refused ss ≡ false → All IsEntryName ss
unfolding has_refused
has_refused-All [] h k = tt
has_refused-All (s ∷ ss) h k =
    let (n, full, one, two) = h.0 in
    (
      (n, full, one, two, λ e. ground (arith, bytes_eq_iff s git_dir_segment)),
      has_refused-All ss h.1 (ground arith),
    )

-- Whatever path is asked for, what is looked up in the tree is a sequence of names: there is no NUL
-- in the path, no name is empty, "." or "..", none has a slash in it, and none is ".git".
pub clean_request_path_sound :
    (path : Bytes) (p : CleanPath)
    → clean_request_path path ≡ some p
    → (index_byte path 0 ≡ none) × All IsEntryName p.elements
unfolding clean_request_path
clean_request_path_sound path p h =
    let elements = reverse (clean_rooted [] (segments path)) in
    let steps : All IsStep elements =
      reverse-All IsStep _ (clean_rooted-All [] (segments path) tt (segments-NoSlash path)) in
    elim (Option-cases (index_byte path 0)) [
      | inl z ↦ elim (Bool-cases (has_refused elements)) [
        | inl e ↦ ground arith
        | inr e ↦ (
          z,
          subst (All IsEntryName)
              (ap (λ (x : CleanPath). x.elements) (some-injective _ _ (rw (z, e) at h)))
              (has_refused-All elements steps e),
        )
      ]
      | inr (i, z) ↦ ground arith
    ]
