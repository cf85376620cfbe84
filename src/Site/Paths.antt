-- ===== src/Site/Paths.antt =====
-- backend/internal/site/path.go, with the extension lists of mime.go: the gate on a path within a
-- site's repository. Of the packages path and filepath `Clean` and `IsLocal` are written by the
-- elements between slashes, for a path with no leading slash: both are called behind that test.
pub mod Segments
pub mod Walk
pub mod Complete
pub mod Gates
pub mod Content
use mathlib.Core.List.{reverse}
use kotoji.Prelude.{
  ◌==◌, if◌then◌else◌, ℕ, String, Bool, ◌&&◌, ◌||◌, not, Option, none, some, List, [], ◌∷◌, ◌++◌,
}
use kotoji.Site.Handle.{invalid, HandleError}
use kotoji.Text.{
  to_lower, Unicode, codes, mem, Bytes, has_prefix, is_empty, index_byte, is_some, bytes_eq,
}

-- `strings.Split(s, "/")`.
abbrev pub cons_head : ℕ → List Bytes → List Bytes
cons_head c [] = (c ∷ []) ∷ []
cons_head c (t ∷ ts) = (c ∷ t) ∷ ts

unfoldable pub segments : Bytes → List Bytes
segments [] = [] ∷ []
segments (c ∷ s) = let rest = segments s in if c == b'/' then [] ∷ rest else cons_head c rest

unfoldable pub join : List Bytes → Bytes
join [] = []
join (s ∷ []) = s
join (s ∷ t ∷ ts) = s ++ b'/' ∷ join (t ∷ ts)

abbrev pub dot : Bytes
dot = codes "."

abbrev pub dotdot : Bytes
dotdot = codes ".."

abbrev pub git_dir_segment : Bytes
git_dir_segment = codes ".git"

-- The elements that are kept, the last one first. ".." takes one away, or stays at the front.
abbrev pub back : List Bytes → List Bytes
back [] = dotdot ∷ []
back (t ∷ ts) = if bytes_eq dotdot t then dotdot ∷ t ∷ ts else ts

abbrev pub push : List Bytes → Bytes → List Bytes
push out s =
    if is_empty s || bytes_eq dot s then out else if bytes_eq dotdot s then back out else s ∷ out

unfoldable pub clean_onto : List Bytes → List Bytes → List Bytes
clean_onto out [] = out
clean_onto out (s ∷ ss) = clean_onto (push out s) ss

abbrev pub dot_or_join : List Bytes → Bytes
dot_or_join [] = dot
dot_or_join (s ∷ ss) = join (s ∷ ss)

-- `path.Clean`.
unfoldable pub clean_path : Bytes → Bytes
unfolding clean_onto segments
clean_path p = dot_or_join (reverse (clean_onto [] (segments p)))

abbrev pub has_dots : Bytes → Bool
has_dots p = mem dot (segments p) || mem dotdot (segments p)

-- `filepath.IsLocal`.
unfoldable pub is_local : Bytes → Bool
unfolding clean_path
is_local p =
    let q = if has_dots p then clean_path p else p in
    not (is_empty p)
    && not (has_prefix p (codes "/"))
    && not (bytes_eq q dotdot || has_prefix q (codes "../"))

abbrev pub path_error : String → Option HandleError
path_error reason = invalid "path" reason

-- The loop over the elements.
unfoldable pub check_segments : List Bytes → Option HandleError
check_segments [] = none
check_segments (s ∷ ss) =
    let rest = check_segments ss in
    if bytes_eq s dotdot
    then path_error "must not contain \"..\" segments"
    else if bytes_eq s git_dir_segment
    then path_error "must not reference the \".git\" directory"
    else if has_prefix s (codes "-")
    then path_error "path segments must not begin with a dash"
    else rest

abbrev pub check_extension : Option (Bytes → Bool) → Bytes → Option HandleError
check_extension none clean = none
check_extension (some ext_ok) clean =
    if ext_ok clean then none else path_error "file extension is not allowed"

abbrev pub or_else : Option HandleError → Option HandleError → Option HandleError
or_else none e = e
or_else (some e) _ = some e

-- `validatePathWith`.
unfoldable pub validate_path_with : Bytes → Option (Bytes → Bool) → Option HandleError
unfolding is_local check_segments
validate_path_with p ext_ok =
    let clean = clean_path p in
    if is_empty p
    then path_error "must not be empty"
    else if is_some (index_byte p 0)
    then path_error "must not contain NUL bytes"
    else if is_some (index_byte p 92)
    then path_error "must use forward slashes"
    else if has_prefix p (codes "/")
    then path_error "must be repo-relative (no leading slash)"
    else if not (is_local p)
    then path_error "must not escape the repo root"
    else if bytes_eq clean dot || is_empty clean
    then path_error "must reference a file, not the root"
    else or_else (check_segments (segments clean)) (check_extension ext_ok clean)

-- The keys of `MIMEByExt`.
abbrev pub mime_by_ext : List Bytes
mime_by_ext =
    codes ".html"
    ∷ codes ".htm"
    ∷ codes ".css"
    ∷ codes ".js"
    ∷ codes ".mjs"
    ∷ codes ".json"
    ∷ codes ".map"
    ∷ codes ".svg"
    ∷ codes ".png"
    ∷ codes ".jpg"
    ∷ codes ".jpeg"
    ∷ codes ".gif"
    ∷ codes ".webp"
    ∷ codes ".avif"
    ∷ codes ".ico"
    ∷ codes ".woff"
    ∷ codes ".woff2"
    ∷ codes ".ttf"
    ∷ codes ".otf"
    ∷ codes ".txt"
    ∷ codes ".xml"
    ∷ codes ".webmanifest"
    ∷ codes ".manifest"
    ∷ codes ".pdf"
    ∷ codes ".wasm"
    ∷ codes ".mp4"
    ∷ codes ".webm"
    ∷ codes ".mp3"
    ∷ codes ".wav"
    ∷ codes ".csv"
    ∷ []

abbrev pub mcp_write_denied : List Bytes
mcp_write_denied = codes ".mp4" ∷ codes ".webm" ∷ codes ".mp3" ∷ codes ".wav" ∷ codes ".pdf" ∷ []

-- `path.Ext`, with what the last '.' after the last slash so far begins.
unfoldable pub ext_after : Bytes → Bytes → Bytes
ext_after found [] = found
ext_after found (c ∷ s) =
    if c == b'/'
    then ext_after [] s
    else if c == b'.'
    then ext_after (c ∷ s) s
    else ext_after found s

unfoldable pub ext_allowed_for_upload : Unicode → Bytes → Bool
unfolding ext_after
ext_allowed_for_upload u p = mem (to_lower u (ext_after [] p)) mime_by_ext

unfoldable pub ext_allowed_for_mcp_write : Unicode → Bytes → Bool
unfolding ext_after
ext_allowed_for_mcp_write u p =
    let ext = to_lower u (ext_after [] p) in mem ext mime_by_ext && not (mem ext mcp_write_denied)

-- `validatePath`.
unfoldable pub validate_path : Unicode → Bytes → Option HandleError
unfolding validate_path_with
validate_path u p = validate_path_with p (some (ext_allowed_for_upload u))

unfoldable pub validate_mcp_write_path : Unicode → Bytes → Option HandleError
unfolding validate_path_with
validate_mcp_write_path u p = validate_path_with p (some (ext_allowed_for_mcp_write u))

unfoldable pub validate_read_path : Bytes → Option HandleError
unfolding validate_path_with
validate_read_path p = validate_path_with p none

unfoldable pub validate_dir : Bytes → Option HandleError
unfolding validate_path_with
validate_dir dir = if is_empty dir then none else validate_path_with dir none
