-- ===== src/Domaincfg.antt =====
-- backend/internal/domaincfg/validate.go: the check of a base domain that an administrator sets.
pub mod Hostname
use kotoji.Prelude.{
  ltb, ◌==◌, if◌then◌else◌, length, all, ℕ, String, Bool, false, ◌||◌, not, Option, none, some,
  List, [], ◌∷◌,
}
use kotoji.Label.{is_label_byte}
use kotoji.Text.{
  index_byte, Bytes, codes, has_suffix, contains, bytes_eq, Unicode, trim_space, is_some, to_lower,
  is_empty,
}

abbrev pub max_hostname_len : ℕ
max_hostname_len = 253

abbrev pub max_label_len : ℕ
max_label_len = 63

-- `strings.Split(h, ".")`.
abbrev pub cons_label : ℕ → List Bytes → List Bytes
cons_label c [] = (c ∷ []) ∷ []
cons_label c (t ∷ ts) = (c ∷ t) ∷ ts

unfoldable pub labels : Bytes → List Bytes
labels [] = [] ∷ []
labels (c ∷ s) = let rest = labels s in if c == b'.' then [] ∷ rest else cons_label c rest

unfoldable pub last_byte : ℕ → Bytes → ℕ
last_byte c [] = c
last_byte c (d ∷ s) = last_byte d s

-- `validateLabel`; `none` is a nil error.
unfoldable pub validate_label : Bytes → Option String
unfolding last_byte
validate_label [] = some "empty label (consecutive dots)"
validate_label (c ∷ s) =
    if ltb max_label_len (length (c ∷ s))
    then some "label too long (max 63 chars)"
    else if c == 45 || last_byte c s == 45
    then some "label must not start or end with a hyphen"
    else if not (all is_label_byte (c ∷ s))
    then some "label has invalid characters (allowed: a-z 0-9 -)"
    else none

abbrev pub first_reason : Option String → Option String → Option String
first_reason none rest = rest
first_reason (some e) rest = some e

-- The loop over the labels.
unfoldable pub validate_labels : List Bytes → Option String
unfolding validate_label
validate_labels [] = none
validate_labels (l ∷ ls) = first_reason (validate_label l) (validate_labels ls)

-- `strings.ContainsAny(h, " /:?#@")`.
unfoldable pub contains_any : Bytes → Bytes → Bool
contains_any [] chars = false
contains_any (c ∷ s) chars = is_some (index_byte chars c) || contains_any s chars

-- The reason of `ErrInvalidBaseDomain`.
unfoldable pub validate_base_domain : Unicode → Bytes → Option String
unfolding validate_labels labels contains_any
validate_base_domain u s =
    let h = trim_space u s in
    if is_empty h
    then some "must not be empty"
    else if not (bytes_eq h (to_lower u h))
    then some "must be lowercase"
    else if ltb max_hostname_len (length h)
    then some "too long (max 253 chars)"
    else if has_suffix h (codes ".")
    then some "must not end with a dot"
    else if contains h (codes "://") || contains_any h (codes " /:?#@")
    then some "must be a bare hostname (no scheme, port, or path)"
    else validate_labels (labels h)
