-- ===== src/Site/Paths/Content/Passed.antt =====
-- What the gate of MCP passes on, the site's gate accepts.
use mathlib.Core.List.{reverse, reverse_aux, reverse-reverse}
use kotoji.Prelude.{
  ◌==◌, Bool-cases, All, ok, ℕ, ◌≡◌, refl, sym, ap, ◌∙◌, subst, ◌≢◌, ◌↔◌, inl, inr, Bool, false,
  Option, none, List, [], ◌∷◌, arith,
}
use kotoji.Site.Paths.{
  check_extension, join, validate_path_with, segments, dot, dotdot, cons_head, git_dir_segment,
  clean_path, clean_onto, dot_or_join,
}
use kotoji.Site.Paths.Complete.{IsName, IsRelative, validate_path_with_iff, Leads-IsName}
use kotoji.Site.Paths.Content.{check_content, content_extensions, validate_content_path}
use kotoji.Site.Paths.Segments.{
  clean_onto-All, segments-NoSlash, All-of_reverse, clean_onto-NoSlash, reverse-All, NoSlash,
}
use kotoji.Site.Paths.Walk.{
  IsSafe, clean_onto-Leads, dot_or_join-segments, arrived, IsSafe-mem, Leads, down,
}
use kotoji.Text.{codes, index_byte, has_prefix, bytes_eq, Bytes, Unicode}
use kotoji.Text.Laws.{All-append, bytes_eq_iff}

passed_facts :
    (u : Unicode) (p : Bytes) (w : Bool) {q : Bytes}
    → validate_content_path u p w ≡ ok q
    → (index_byte p 0 ≡ none)
      × (index_byte p 92 ≡ none)
      × (q ≡ clean_path p)
      × (bytes_eq (clean_path p) dot ≡ false)
      × (check_content (segments (clean_path p)) ≡ none)
      × (check_extension (content_extensions u w) (clean_path p) ≡ none)
unfolding validate_content_path
passed_facts u p w h = ground arith

-- A byte that is not in the text.
index_byte_iff : (s : Bytes) (b : ℕ) → (index_byte s b ≡ none) ↔ All (λ c. c ≢ b) s
unfolding index_byte
index_byte_iff [] b = (λ h. tt, λ k. refl)
index_byte_iff (c ∷ s) b =
    let rest = index_byte_iff s b in
    (λ h. (λ e. ground arith, rest.0 (ground arith)), λ k. ground (arith, rest.1 k.1, k.0))

module _ (P : ℕ → Type 0) where
  cons_head-bytes : (c : ℕ) (ts : List Bytes) → P c → All (All P) ts → All (All P) (cons_head c ts)
  cons_head-bytes c [] n h = ((n, tt), tt)
  cons_head-bytes c (t ∷ ts) n h = ((n, h.0), h.1)

  segments-bytes : (p : Bytes) → All P p → All (All P) (segments p)
  unfolding segments
  segments-bytes [] h = (tt, tt)
  segments-bytes (c ∷ p) h = elim (Bool-cases (c == b'/')) [
    | inl e ↦ rw e (tt, segments-bytes p h.1)
    | inr e ↦ rw e (cons_head-bytes c (segments p) h.0 (segments-bytes p h.1))
  ]

  join-bytes : (ss : List Bytes) → P b'/' → All (All P) ss → All P (join ss)
  unfolding join
  join-bytes [] slash h = tt
  join-bytes (s ∷ []) slash h = h.0
  join-bytes (s ∷ t ∷ ts) slash h =
      All-append P s (b'/' ∷ join (t ∷ ts)) h.0 (slash, join-bytes (t ∷ ts) slash h.1)

  clean_path-bytes : (p : Bytes) → P b'/' → P b'.' → All P p → All P (clean_path p)
  unfolding clean_path
  clean_path-bytes p slash dots h = spelled (reverse (clean_onto [] (segments p))) (
      reverse-All (All P) (clean_onto [] (segments p))
        (clean_onto-All (All P) (dots, (dots, tt)) [] (segments p) tt (segments-bytes p h)))
    where
      spelled : (ss : List Bytes) → All (All P) ss → All P (dot_or_join ss)
      spelled [] k = (dots, tt)
      spelled (s ∷ ss) k = join-bytes (s ∷ ss) slash k

join-relative :
    (ss : List Bytes) → All NoSlash ss → All IsName ss → has_prefix (join ss) (codes "/") ≡ false
unfolding join has_prefix
join-relative [] h n = refl
join-relative ([] ∷ ss) h n = absurd (n.0.0 refl)
join-relative ((c ∷ s) ∷ []) h n = ground arith
join-relative ((c ∷ s) ∷ t ∷ ts) h n = ground arith

-- Names lead down.
names-Leads :
    (at ss : List Bytes)
    → All IsName ss
    → All (λ s. s ≢ dotdot) ss
    → Leads at ss (reverse_aux ss at)
names-Leads at [] n d = arrived
names-Leads at (s ∷ ss) n d = down n.0.0 n.0.1 d.0 (names-Leads (s ∷ at) ss n.1 d.1)

abbrev pub NoDash : Bytes → Type 0
NoDash s = has_prefix s (codes "-") ≡ false

check_content-IsSafe : (ss : List Bytes) → check_content ss ≡ none → All NoDash ss → All IsSafe ss
unfolding check_content
check_content-IsSafe [] h k = tt
check_content-IsSafe (s ∷ ss) h k = (
  (
    λ e. ground (arith, bytes_eq_iff s dotdot),
    λ e. ground (arith, bytes_eq_iff s git_dir_segment),
    k.0,
  ),
  check_content-IsSafe ss (ground arith) k.1,
)

IsSafe-ne-dotdot : (ss : List Bytes) → All IsSafe ss → All (λ s. s ≢ dotdot) ss
IsSafe-ne-dotdot [] h = tt
IsSafe-ne-dotdot (s ∷ ss) h = (h.0.0, IsSafe-ne-dotdot ss h.1)

clean_path-IsRelative :
    (p : Bytes)
    → index_byte p 0 ≡ none
    → index_byte p 92 ≡ none
    → has_prefix (clean_path p) (codes "/") ≡ false
    → IsRelative (clean_path p)
clean_path-IsRelative p nul backslash first =
    let kept = λ (b : ℕ) (slash : b'/' ≢ b) (dots : b'.' ≢ b) (h : index_byte p b ≡ none).
      (index_byte_iff (clean_path p) b).1
        (clean_path-bytes (λ c. c ≢ b) p slash dots ((index_byte_iff p b).0 h)) in
    record {
      no_nul = kept 0 (omega arith) (omega arith) nul;
      no_backslash = kept 92 (omega arith) (omega arith) backslash;
      no_slash_first = first;
    }

accepted_again :
    (q : Bytes) (ext_ok : Option (Bytes → Bool)) (ss : List Bytes)
    → segments q ≡ ss
    → q ≡ join ss
    → ss ≢ []
    → IsRelative q
    → All IsName ss
    → All IsSafe ss
    → check_extension ext_ok q ≡ none
    → validate_path_with q ext_ok ≡ none
accepted_again q ext_ok ss parts spelled below r names safe ext =
    let back : reverse (reverse ss) ≡ ss = reverse-reverse ss in
    (validate_path_with_iff q ext_ok).1 (
      r,
      (
        reverse ss,
        rw parts (names-Leads [] ss names (IsSafe-ne-dotdot ss safe)),
        (λ e. below (sym back ∙ e)),
        reverse-All IsSafe ss safe,
        rw (back, ← spelled) ext,
      ),
    )

clean_path-accepted :
    (p : Bytes) (ext_ok : Option (Bytes → Bool))
    → index_byte p 0 ≡ none
    → index_byte p 92 ≡ none
    → bytes_eq (clean_path p) dot ≡ false
    → All IsSafe (segments (clean_path p))
    → check_extension ext_ok (clean_path p) ≡ none
    → validate_path_with (clean_path p) ext_ok ≡ none
clean_path-accepted p ext_ok nul backslash named safe ext =
    let to = clean_onto [] (segments p) in
    let plain =
      reverse-All NoSlash to (clean_onto-NoSlash [] (segments p) tt (segments-NoSlash p)) in
    let cleaned : clean_path p ≡ dot_or_join (reverse to) = unfold clean_path in refl in
    let (below, spelled, parts) = dot_or_join-segments (reverse to) plain (rw cleaned at named) in
    let safe' : All IsSafe (reverse to) = subst (All IsSafe) (ap segments cleaned ∙ parts) safe in
    let walk = clean_onto-Leads [] (segments p) (IsSafe-mem to (All-of_reverse IsSafe to safe')) in
    let names = reverse-All IsName to (Leads-IsName walk tt) in
    let first =
      subst (λ x. has_prefix x (codes "/") ≡ false) (sym (cleaned ∙ spelled))
        (join-relative (reverse to) plain names) in
    accepted_again (clean_path p) ext_ok (reverse to) (ap segments cleaned ∙ parts)
      (cleaned ∙ spelled) below (clean_path-IsRelative p nul backslash first) names safe' ext

-- The path that the gate of MCP passes on is accepted by the site's gate for the same purpose,
-- unless one of its names starts with a dash, which only the site's gate refuses.
pub validate_content_path-accepted :
    (u : Unicode) (p q : Bytes) (for_write : Bool)
    → validate_content_path u p for_write ≡ ok q
    → All NoDash (segments q)
    → validate_path_with q (content_extensions u for_write) ≡ none
validate_content_path-accepted u p q for_write h dashes =
    let (nul, backslash, same, named, checked, ext) = passed_facts u p for_write h in
    rw same (
      clean_path-accepted p (content_extensions u for_write) nul backslash named
        (check_content-IsSafe (segments (clean_path p)) checked (rw same at dashes)) ext)
