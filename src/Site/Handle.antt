-- ===== src/Site/Handle.antt =====
-- backend/internal/site/handle.go: the gates at creation and the host label of a branch.
use kotoji.Prelude.{
  ltb, if◌then◌else◌, length, take, drop, ℕ, ◌+◌, String, Bool, not, Option, none, some, ◌++◌,
}
use kotoji.Label.{double_hyphen, reserved_handles, label_re}
use kotoji.Resolve.{published}
use kotoji.Text.{to_lower, bytes_eq, mem, is_empty, contains, index, Unicode, Bytes}

-- A reason is its text, or its format with the number that is printed into it.
pub data Reason : Type 0 where
  text : String → Reason
  at_least at_most : ℕ → Reason

-- `*ValidationError`, or the sentinel `ErrReservedHandle`.
pub data HandleError : Type 0 where
  validation_error : String → Reason → HandleError
  reserved_handle : HandleError

abbrev pub handle_min_len : ℕ
handle_min_len = 3

abbrev pub handle_max_len : ℕ
handle_max_len = 63

abbrev pub handle_resolver_min_len : ℕ
handle_resolver_min_len = 1

-- `IsReservedHandle`.
unfoldable pub is_reserved_handle : Unicode → Bytes → Bool
is_reserved_handle u h = mem (to_lower u h) reserved_handles

abbrev pub invalid : String → String → Option HandleError
invalid field reason = some (validation_error field (text reason))

-- `validateHandleLen`; `none` is a nil error.
unfoldable pub validate_handle_len : Unicode → Bytes → ℕ → Option HandleError
unfolding is_reserved_handle
validate_handle_len u s min_len =
    if is_empty s
    then invalid "handle" "must not be empty"
    else if not (bytes_eq s (to_lower u s))
    then invalid "handle" "must be lowercase"
    else if ltb (length s) min_len
    then some (validation_error "handle" (at_least min_len))
    else if ltb handle_max_len (length s)
    then some (validation_error "handle" (at_most handle_max_len))
    else if contains s double_hyphen
    then invalid "handle" "must not contain \"--\" (reserved preview separator)"
    else if not (label_re s)
    then invalid "handle" "must match ^[a-z0-9]([a-z0-9-]*[a-z0-9])?$"
    else if is_reserved_handle u s
    then some reserved_handle
    else none

-- `ValidateHandle`, at creation and renaming.
unfoldable pub validate_new_handle : Unicode → Bytes → Option HandleError
unfolding validate_handle_len
validate_new_handle u h = validate_handle_len u h handle_min_len

unfoldable pub validate_handle_for_resolver : Unicode → Bytes → Option HandleError
unfolding validate_handle_len
validate_handle_for_resolver u h = validate_handle_len u h handle_resolver_min_len

-- `validateBranchName`, which `ValidateBranchName` exports.
unfoldable pub validate_branch_name : Unicode → Bytes → Option HandleError
validate_branch_name u s =
    if is_empty s
    then invalid "branch" "must not be empty"
    else if not (bytes_eq s (to_lower u s))
    then invalid "branch" "must be lowercase"
    else if ltb handle_max_len (length s)
    then some (validation_error "branch" (at_most handle_max_len))
    else if contains s double_hyphen
    then invalid "branch" "must not contain \"--\""
    else if not (label_re s)
    then invalid "branch" "must match ^[a-z0-9]([a-z0-9-]*[a-z0-9])?$"
    else none

unfoldable pub preview_subdomain : Bytes → Bytes → Bytes
preview_subdomain h branch = if bytes_eq branch published then h else h ++ (double_hyphen ++ branch)

abbrev cut : Option ℕ → Bytes → Bytes × Bytes
cut none label = (label, published)
cut (some i) label = (take i label, drop (i + 2) label)

-- `splitLabel` of this package: the handle and the branch.
unfoldable pub split_site_label : Bytes → Bytes × Bytes
split_site_label label = cut (index label double_hyphen) label
