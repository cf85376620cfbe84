-- ===== src/Site/Paths/Gates.antt =====
-- The gates of reading, uploading and writing over MCP.
use mathlib.Core.List.{reverse}
use kotoji.Prelude.{◌≡◌, refl, Bool, Option, none, some, arith}
use kotoji.Site.Paths.{
  ext_allowed_for_mcp_write, ext_allowed_for_upload, validate_path_with, validate_path,
  validate_read_path, join, validate_mcp_write_path, check_extension, validate_dir,
}
use kotoji.Site.Paths.Complete.{validate_path_with_iff}
use kotoji.Text.{Bytes, Unicode}

relaxed :
    (p : Bytes) (strict lax : Option (Bytes → Bool))
    → ((q : Bytes) → check_extension strict q ≡ none → check_extension lax q ≡ none)
    → validate_path_with p strict ≡ none
    → validate_path_with p lax ≡ none
relaxed p strict lax weaker h =
    let (relative, (to, walk, below, safe, ext)) = (validate_path_with_iff p strict).0 h in
    (validate_path_with_iff p lax).1
      (relative, (to, walk, below, safe, weaker (join (reverse to)) ext))

mcp_write-upload :
    (u : Unicode) (q : Bytes)
    → check_extension (some (ext_allowed_for_mcp_write u)) q ≡ none
    → check_extension (some (ext_allowed_for_upload u)) q ≡ none
unfolding ext_allowed_for_mcp_write ext_allowed_for_upload
mcp_write-upload u q h = ground arith

validate_dir-read : (p : Bytes) → validate_read_path p ≡ none → validate_dir p ≡ none
unfolding validate_dir validate_read_path
validate_dir-read p h = ground arith

-- What may be written over MCP may be uploaded, and what may be uploaded may be read and listed.
pub write_gates_nested :
    (u : Unicode) (p : Bytes)
    → validate_mcp_write_path u p ≡ none
    → (validate_path u p ≡ none) × (validate_read_path p ≡ none) × (validate_dir p ≡ none)
unfolding validate_mcp_write_path validate_path validate_read_path
write_gates_nested u p h =
    let mcp = some (ext_allowed_for_mcp_write u) in
    let upload = relaxed p mcp (some (ext_allowed_for_upload u)) (mcp_write-upload u) h in
    let read = relaxed p mcp none (λ q k. refl) h in (upload, read, validate_dir-read p read)
