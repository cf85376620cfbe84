-- ===== src/Label.antt =====
-- The label grammar that backend/internal/resolve/resolver.go and backend/internal/site/handle.go
-- share: the regular expression `^[a-z0-9]([a-z0-9-]{0,61}[a-z0-9])?$`, the separator "--" and the
-- reserved words. Lengths are in bytes, as Go's `len`.
pub mod Laws
pub mod Separator
use kotoji.Prelude.{
  leb, ◌==◌, length, All, ℕ, ◌≤◌, ◌≡◌, ◌⊎◌, Bool, false, ◌&&◌, ◌||◌, List, [], ◌∷◌, ◌++◌,
}
use kotoji.Text.{Bytes, codes}

abbrev pub is_alnum : ℕ → Bool
is_alnum c = leb 97 c && leb c 122 || leb 48 c && leb c 57

abbrev pub is_label_byte : ℕ → Bool
is_label_byte c = is_alnum c || c == 45

-- `[a-z0-9-]*[a-z0-9]`, to the end of the text.
unfoldable pub label_tail : Bytes → Bool
label_tail [] = false
label_tail (c ∷ []) = is_alnum c
label_tail (c ∷ d ∷ s) = is_label_byte c && label_tail (d ∷ s)

-- `labelRe.MatchString`, `handleRe.MatchString` and `branchRe.MatchString`.
unfoldable pub label_re : Bytes → Bool
unfolding label_tail
label_re [] = false
label_re (c ∷ []) = is_alnum c
label_re (c ∷ d ∷ s) = is_alnum c && leb (length (d ∷ s)) 62 && label_tail (d ∷ s)

abbrev pub double_hyphen : Bytes
double_hyphen = 45 ∷ 45 ∷ []

abbrev pub label_max_len : ℕ
label_max_len = 63

abbrev pub reserved_handles : List Bytes
reserved_handles =
    codes "draft"
    ∷ codes "preview"
    ∷ codes "published"
    ∷ codes "www"
    ∷ codes "api"
    ∷ codes "internal"
    ∷ codes "host"
    ∷ codes "admin"
    ∷ codes "app"
    ∷ codes "static"
    ∷ codes "assets"
    ∷ codes "mcp"
    ∷ []

-- The grammar, read off the regular expression.
abbrev pub IsAlnum : ℕ → Type 0
IsAlnum c = ((97 ≤ c) × (c ≤ 122)) ⊎ ((48 ≤ c) × (c ≤ 57))

abbrev pub IsLabelByte : ℕ → Type 0
IsLabelByte c = IsAlnum c ⊎ (c ≡ 45)

abbrev pub IsLabel : Bytes → Type 0
IsLabel s =
    ((c : ℕ) × (s ≡ c ∷ []) × IsAlnum c)
    ⊎ ((c : ℕ) × (mid : Bytes) × (d : ℕ) × (s ≡ c ∷ (mid ++ d ∷ []))
        × IsAlnum c
        × All IsLabelByte mid
        × (length mid ≤ 61)
        × IsAlnum d)

-- No occurrence of "--", wherever one looks for it.
abbrev pub NoDoubleHyphen : Bytes → Type 0
NoDoubleHyphen s = ¬ ((p : Bytes) × (q : Bytes) × (s ≡ p ++ (double_hyphen ++ q)))
