-- ===== src/Site/Paths/Content.antt =====
-- backend/internal/mcpserver/registry.go, `validateContentPath`: the gate of MCP before the site's
-- own, which passes the cleaned path on.
pub mod Passed
use kotoji.Prelude.{
  ltb, if◌then◌else◌, length, Result, ok, err, ℕ, String, Bool, true, false, ◌||◌, not, Option,
  none, some, List, [], ◌∷◌,
}
use kotoji.Site.Handle.{HandleError}
use kotoji.Site.Paths.{
  git_dir_segment, check_extension, ext_allowed_for_mcp_write, dotdot, dot, segments, is_local,
  clean_path,
}
use kotoji.Text.{has_prefix, codes, Bytes, Unicode, is_empty, index_byte, bytes_eq, is_some}

abbrev pub max_path_segment_bytes : ℕ
max_path_segment_bytes = 255

abbrev pub max_path_total_bytes : ℕ
max_path_total_bytes = 1024

-- The loop over the elements.
unfoldable pub check_content : List Bytes → Option String
check_content [] = none
check_content (s ∷ ss) =
    let rest = check_content ss in
    if ltb max_path_segment_bytes (length s)
    then some "path: segment too long"
    else if bytes_eq s dotdot
    then some "path: must not contain \"..\" segments"
    else if bytes_eq s git_dir_segment
    then some "path: must not reference the \".git\" directory"
    else rest

-- The extensions of a write are those of the site's gate for MCP; a read asks for none.
abbrev pub content_extensions : Unicode → Bool → Option (Bytes → Bool)
content_extensions u true = some (ext_allowed_for_mcp_write u)
content_extensions u false = none

abbrev pub content_extension : Option HandleError → Bytes → Result String Bytes
content_extension none clean = ok clean
content_extension (some e) clean =
    err "path: file extension is not allowed for MCP write (text/static only)"

abbrev pub content_checked : Option String → Option HandleError → Bytes → Result String Bytes
content_checked (some e) ext clean = err e
content_checked none ext clean = content_extension ext clean

-- The message of the tool error, or the path that is passed on.
unfoldable pub validate_content_path : Unicode → Bytes → Bool → Result String Bytes
unfolding is_local check_content
validate_content_path u p for_write =
    let clean = clean_path p in
    if is_empty p
    then err "path: must not be empty"
    else if is_some (index_byte p 0)
    then err "path: must not contain NUL bytes"
    else if is_some (index_byte p 92)
    then err "path: must use forward slashes"
    else if has_prefix p (codes "/")
    then err "path: must be repo-relative (no leading slash)"
    else if ltb max_path_total_bytes (length p)
    then err "path: too long"
    else if not (is_local p)
    then err "path: must not escape the repo root"
    else if bytes_eq clean dot || is_empty clean
    then err "path: must reference a file, not the root"
    else content_checked (check_content (segments clean))
        (check_extension (content_extensions u for_write) clean) clean
