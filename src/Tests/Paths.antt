-- ===== src/Tests/Paths.antt =====
-- Paths within a repository.
use kotoji.Prelude.{All, ok, ◌≡◌, refl, ◌↔◌, true, false, none}
use kotoji.Site.Paths.{
  join, validate_path_with, validate_mcp_write_path, validate_read_path, ext_allowed_for_upload,
  validate_path, path_error, segments, ext_allowed_for_mcp_write,
}
use kotoji.Site.Paths.Complete.{IsRelative, IsInside, validate_path_with_iff}
use kotoji.Site.Paths.Content.{validate_content_path}
use kotoji.Site.Paths.Content.Passed.{NoDash}
use kotoji.Tests.{plain}
use kotoji.Text.{mem, Bytes, has_prefix, index_byte, to_lower, codes, bytes_eq}

abbrev style : Bytes
style = codes "css/site.css"

-- What goes up and comes back in stays inside.
detour_accepted : validate_path plain (codes "css/../.git/../index.html") ≡ none
unfolding validate_path index_byte has_prefix bytes_eq mem join ext_allowed_for_upload to_lower
detour_accepted = refl

escape_refused :
    validate_read_path (codes "css/../../index.html") ≡ path_error "must not escape the repo root"
unfolding validate_read_path index_byte has_prefix bytes_eq mem join
escape_refused = refl

git_refused :
    validate_read_path (codes "css/../.git/config")
    ≡ path_error "must not reference the \".git\" directory"
unfolding validate_read_path index_byte has_prefix bytes_eq mem join
git_refused = refl

option_refused :
    validate_read_path (codes "css/--output=x")
    ≡ path_error "path segments must not begin with a dash"
unfolding validate_read_path index_byte has_prefix bytes_eq mem join
option_refused = refl

style_writable : validate_mcp_write_path plain style ≡ none
unfolding validate_mcp_write_path index_byte has_prefix bytes_eq mem join ext_allowed_for_mcp_write
    to_lower
style_writable = refl

validate_path_with_iff_example :
    (validate_path_with style none ≡ none) ↔ (IsRelative style × IsInside style none)
validate_path_with_iff_example = validate_path_with_iff style none

abbrev detour : Bytes
detour = codes "css/./old/../site.css"

detour_passed : validate_content_path plain detour true ≡ ok style
unfolding validate_content_path index_byte has_prefix bytes_eq mem join ext_allowed_for_mcp_write
    to_lower
detour_passed = refl

style-NoDash : All NoDash (segments style)
unfolding segments has_prefix
style-NoDash = (refl, (refl, tt))

-- Only the site's gate refuses a name that starts with a dash.
option_passed :
    validate_content_path plain (codes "css/--output=x") false ≡ ok (codes "css/--output=x")
unfolding validate_content_path index_byte has_prefix bytes_eq mem join
option_passed = refl
