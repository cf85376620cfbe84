-- ===== src/Text.antt =====
-- Go's `string` as the list of its bytes, and the operations of the package `strings` that the
-- program calls. `strings.ToLower` and `strings.TrimSpace` have an ASCII path, written out here, and
-- a path through Unicode's tables, which is the parameter `Unicode`.
pub mod Laws
use Prim.Native.Char.{code}
use mathlib.Core.Option
use mathlib.Core.List.{reverse}
use kotoji.Prelude.{
  ltb, leb, ◌==◌, if◌then◌else◌, all, ℕ, suc, ◌+◌, String, Bool, true, false, ◌&&◌, ◌||◌, Option,
  none, some, List, [], ◌∷◌, ◌++◌, map,
}
use kotoji.Action.{then}

abbrev pub Bytes : Type 0
Bytes = List ℕ

-- The bytes of an ASCII literal.
abbrev pub codes : String → Bytes
codes String.[] = []
codes (String.◌∷◌ c s) = code c ∷ codes s

-- What `strings.ToLower`, `strings.TrimFunc(_, unicode.IsSpace)` and `strings.TrimRightFunc` give
-- on a text that is not ASCII.
pub record Unicode : Type 0 where
  pub to_lower : Bytes → Bytes
  pub trim_func : Bytes → Bytes
  pub trim_right_func : Bytes → Bytes

unfoldable pub bytes_eq : Bytes → Bytes → Bool
bytes_eq [] [] = true
bytes_eq [] (_ ∷ _) = false
bytes_eq (_ ∷ _) [] = false
bytes_eq (a ∷ s) (b ∷ t) = a == b && bytes_eq s t

abbrev pub is_empty : Bytes → Bool
is_empty [] = true
is_empty (_ ∷ _) = false

unfoldable pub mem : Bytes → List Bytes → Bool
mem s [] = false
mem s (t ∷ ts) = bytes_eq s t || mem s ts

unfoldable pub has_prefix : Bytes → Bytes → Bool
has_prefix s [] = true
has_prefix [] (_ ∷ _) = false
has_prefix (c ∷ s) (p ∷ ps) = c == p && has_prefix s ps

-- `HasSuffix(s, suffix)` compares `s[len(s)-len(suffix):]`.
unfoldable pub has_suffix : Bytes → Bytes → Bool
unfolding bytes_eq
has_suffix [] suffix = bytes_eq [] suffix
has_suffix (c ∷ s) suffix = bytes_eq (c ∷ s) suffix || has_suffix s suffix

-- `strings.Index`; `none` is -1.
unfoldable pub index : Bytes → Bytes → Option ℕ
unfolding has_prefix
index [] sep = if has_prefix [] sep then some 0 else none
index (c ∷ s) sep = if has_prefix (c ∷ s) sep then some 0 else Option.map suc (index s sep)

abbrev pub is_some {ℓ} : {A : Type ℓ} → Option A → Bool
is_some none = false
is_some (some _) = true

unfoldable pub contains : Bytes → Bytes → Bool
unfolding index
contains s sep = is_some (index s sep)

unfoldable pub index_byte : Bytes → ℕ → Option ℕ
index_byte [] b = none
index_byte (c ∷ s) b = if c == b then some 0 else Option.map suc (index_byte s b)

abbrev later_or : Option ℕ → Bool → Option ℕ
later_or (some i) here = some (suc i)
later_or none here = if here then some 0 else none

unfoldable pub last_index_byte : Bytes → ℕ → Option ℕ
last_index_byte [] b = none
last_index_byte (c ∷ s) b = later_or (last_index_byte s b) (c == b)

abbrev pub is_ascii : Bytes → Bool
is_ascii s = all (λ c. ltb c 128) s

abbrev pub lower_byte : ℕ → ℕ
lower_byte c = if leb 65 c && leb c 90 then c + 32 else c

unfoldable pub to_lower : Unicode → Bytes → Bytes
to_lower u s = if is_ascii s then map lower_byte s else u.to_lower s

-- '\t', '\n', '\v', '\f', '\r' and ' '.
abbrev pub is_space : ℕ → Bool
is_space c = leb 9 c && leb c 13 || c == 32

-- The second loop of `TrimSpace`, over the text read backwards.
unfoldable pub trim_back : Unicode → Bytes → Bytes
trim_back u [] = []
trim_back u (c ∷ s) =
    if leb 128 c
    then u.trim_right_func (reverse (c ∷ s))
    else if is_space c
    then trim_back u s
    else reverse (c ∷ s)

unfoldable pub trim_space : Unicode → Bytes → Bytes
unfolding trim_back
trim_space u [] = []
trim_space u (c ∷ s) =
    if leb 128 c
    then u.trim_func (c ∷ s)
    else if is_space c
    then trim_space u s
    else trim_back u (reverse (c ∷ s))

-- `strings.ToLower(strings.TrimSpace(s))`.
unfoldable pub lower_trim : Unicode → Bytes → Bytes
unfolding to_lower trim_space
lower_trim u s = to_lower u (trim_space u s)

-- `Unicode`, and `strings.EqualFold`.
pub record Folding : Type 0 where
  pub tables : Unicode
  pub equal_fold : Bytes → Bytes → Bool

abbrev pub cons_first : ℕ → List Bytes → List Bytes
cons_first c [] = (c ∷ []) ∷ []
cons_first c (t ∷ ts) = (c ∷ t) ∷ ts

-- `strings.Split` at one byte.
unfoldable pub split : ℕ → Bytes → List Bytes
split b [] = [] ∷ []
split b (c ∷ s) = let rest = split b s in if c == b then [] ∷ rest else cons_first c rest

-- `strings.Join` with one byte.
unfoldable pub join_with : ℕ → List Bytes → Bytes
join_with b [] = []
join_with b (s ∷ []) = s
join_with b (s ∷ t ∷ ts) = s ++ b ∷ join_with b (t ∷ ts)
