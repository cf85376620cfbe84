-- ===== src/Serve.antt =====
-- backend/internal/serve/static.go: what a request for a site is answered with. A tree of files is
-- what `fs.Stat` says of a name, a file or a directory, and what reading the name gives. Not part of
-- an answer here: the headers of security and of caches with the tags that go with them, and the
-- injected base of path mode; what `http.ServeContent` does with a file is its own.
pub mod Cleaning
pub mod Gate
pub mod Fallback
use mathlib.Core.List.{reverse}
use kotoji.Prelude.{
  if◌then◌else◌, Result, ok, err, ℕ, zero, suc, Bool, true, false, ◌&&◌, ◌||◌, not, Option, none,
  some, List, [], ◌∷◌, ◌++◌,
}
use kotoji.Location.{
  strip_decoded_prefix, redirect_renamed_handle, redirect_trailing_slash, ServeRequest,
}
use kotoji.Preview.{PreviewError, Effect, Cookie}
use kotoji.Resolve.{resolve_error, GoError, other_error, Target}
use kotoji.Site.Paths.{join, mime_by_ext, dot, git_dir_segment, segments, dotdot, ext_after}
use kotoji.Text.{
  index_byte, Bytes, mem, is_empty, is_some, Unicode, codes, bytes_eq, to_lower, has_suffix,
}

pub data Entry : Type 0 where
  regular directory : Entry

-- `TreeHandle`.
pub record TreeHandle : Type 0 where
  pub stat : Bytes → Option Entry
  pub read : Bytes → Option Bytes
  pub site_id : Bytes

-- What `Tree` may fail with.
pub data TreeError : Type 0 where
  renamed : (new_handle : Bytes) → TreeError
  missing : TreeError

pub data Method : Type 0 where
  get head options other_method : Method

abbrev pub index_file : Bytes
index_file = codes "index.html"

abbrev pub site_not_found_file : Bytes
site_not_found_file = codes "404.html"

-- A file with its status, or a page of the handler's own. `endless` is a handler that calls itself
-- for longer than the rounds it is given.
pub data Reply : Type 0 where
  control allowed_methods method_not_allowed : Reply
  error_page : (status : ℕ) → Reply
  redirected : (status : ℕ) → (location : Bytes) → Reply
  file : (status : ℕ) → (name body : Bytes) → (attachment : Bool) → Reply
  endless : Reply

pub record Answer : Type 0 where
  pub cookie : Option Cookie
  pub reply : Reply

-- An element of a rooted path; ".." goes no higher than the root.
abbrev pub up_rooted : List Bytes → List Bytes
up_rooted [] = []
up_rooted (t ∷ ts) = ts

abbrev pub push_rooted : List Bytes → Bytes → List Bytes
push_rooted out s =
    if is_empty s || bytes_eq s dot
    then out
    else if bytes_eq s dotdot
    then up_rooted out
    else s ∷ out

unfoldable pub clean_rooted : List Bytes → List Bytes → List Bytes
clean_rooted out [] = out
clean_rooted out (s ∷ ss) = clean_rooted (push_rooted out s) ss

-- A cleaned request path: its elements, and whether it ends in a slash.
pub record CleanPath : Type 0 where
  pub elements : List Bytes
  pub trailing : Bool

-- The loop over the elements.
unfoldable pub has_refused : List Bytes → Bool
has_refused [] = false
has_refused (s ∷ ss) = bytes_eq s dotdot || bytes_eq s git_dir_segment || has_refused ss

abbrev pub is_root : List Bytes → Bool
is_root [] = true
is_root (s ∷ ss) = false

-- `cleanRequestPath`.
unfoldable pub clean_request_path : Bytes → Option CleanPath
unfolding clean_rooted has_refused
clean_request_path p =
    let elements = reverse (clean_rooted [] (segments p)) in
    if is_some (index_byte p 0)
    then none
    else if has_refused elements
    then none
    else some (record {
      elements = elements;
      trailing = has_suffix p (codes "/") && not (is_root elements);
    })

-- What `resolveTarget` returns: a file, a directory to redirect to, or nothing.
pub data Located : Type 0 where
  found : (name : Bytes) → Located
  to_directory : (path : Bytes) → Located
  nothing : Located

abbrev pub index_in : TreeHandle → Bytes → Located
index_in tree name = elim (tree.stat name) [
  | some e ↦ elim e [ regular ↦ found name | directory ↦ nothing ]
  | none ↦ nothing
]

abbrev pub at_entry : TreeHandle → Bytes → Bool → Option Entry → Located
at_entry tree name trailing none = nothing
at_entry tree name false (some directory) = to_directory (b'/' ∷ (name ++ codes "/"))
at_entry tree name true (some directory) = index_in tree (name ++ b'/' ∷ index_file)
at_entry tree name true (some regular) = nothing
at_entry tree name false (some regular) = found name

-- `resolveTarget`.
unfoldable pub resolve_target : TreeHandle → CleanPath → Located
resolve_target tree p = elim p.elements [
  | [] ↦ index_in tree index_file
  | s ∷ ss ↦ at_entry tree (join (s ∷ ss)) p.trailing (tree.stat (join (s ∷ ss)))
]

-- Whether `contentTypeForName` finds no type.
abbrev pub is_octet : Unicode → Bytes → Bool
is_octet u name = not (mem (to_lower u (ext_after [] name)) mime_by_ext)

abbrev pub is_file : Option Entry → Bool
is_file none = false
is_file (some directory) = false
is_file (some regular) = true

unfoldable mutual
  -- `writeContent`; a file that cannot be read is answered as one that is not there.
  pub write_content : ℕ → Unicode → TreeHandle → Bytes → ℕ → Reply
  write_content zero u tree name status = endless
  write_content (suc rounds) u tree name status = elim (tree.read name) [
    | some body ↦ file status name body (is_octet u name)
    | none ↦ write_not_found rounds u tree
  ]

  -- `writeNotFound`: the site's own page, or the built-in one.
  pub write_not_found : ℕ → Unicode → TreeHandle → Reply
  write_not_found zero u tree = endless
  write_not_found (suc rounds) u tree = elim (is_file (tree.stat site_not_found_file)) [
    | true ↦ write_content rounds u tree site_not_found_file 404
    | false ↦ error_page 404
  ]

abbrev pub write_located : ℕ → Unicode → Target → ServeRequest → TreeHandle → Located → Reply
write_located rounds u t r tree (found name) = write_content rounds u tree name 200
write_located rounds u t r tree (to_directory path) =
    redirected 301 (redirect_trailing_slash t r path)
write_located rounds u t r tree nothing = write_not_found rounds u tree

abbrev pub serve_cleaned :
    ℕ → Unicode → Target → ServeRequest → TreeHandle → Option CleanPath → Reply
serve_cleaned rounds u t r tree none = write_not_found rounds u tree
serve_cleaned rounds u t r tree (some p) = write_located rounds u t r tree (resolve_target tree p)

-- The path of a request within the site.
abbrev pub in_site : Target → ServeRequest → Bytes
in_site t r = if is_empty t.path_prefix then r.path else strip_decoded_prefix r.path t.path_prefix

-- `serveFile`.
unfoldable pub serve_file : ℕ → Unicode → Target → ServeRequest → TreeHandle → Reply
serve_file rounds u t r tree = serve_cleaned rounds u t r tree (clean_request_path (in_site t r))

abbrev pub plain_answer : Reply → Answer
plain_answer r = record { cookie = none; reply = r }

-- What `Authorize` asks for.
abbrev pub take_effect : Effect → Reply → Answer
take_effect eff r = record {
  cookie = eff.set_cookie;
  reply = if is_empty eff.redirect_to then r else redirected 302 eff.redirect_to;
}

abbrev pub permitted : ℕ → Result PreviewError Effect → Reply → Answer
permitted unauth (err e) r = plain_answer (error_page unauth)
permitted unauth (ok eff) r = take_effect eff r

-- The gate of `serveProject`: only a preview is asked for a grant. `Authorize` of the site and branch
-- is a parameter here.
abbrev pub serve_tree :
    ℕ
    → ℕ
    → Unicode
    → (Bytes → Bytes → Result PreviewError Effect)
    → Target
    → ServeRequest
    → TreeHandle
    → Answer
serve_tree rounds unauth u permit t r tree =
    if t.is_preview
    then permitted unauth (permit tree.site_id t.branch) (serve_file rounds u t r tree)
    else plain_answer (serve_file rounds u t r tree)

-- `handleTreeError`.
abbrev pub handle_tree_error : Unicode → Target → ServeRequest → TreeError → Reply
handle_tree_error u t r (renamed new_handle) =
    redirected 301 (redirect_renamed_handle u t r new_handle)
handle_tree_error u t r missing = error_page 404

abbrev pub serve_found :
    ℕ
    → ℕ
    → Unicode
    → (Bytes → Bytes → Result PreviewError Effect)
    → Target
    → ServeRequest
    → Result TreeError TreeHandle
    → Answer
serve_found rounds unauth u permit t r (ok tree) = serve_tree rounds unauth u permit t r tree
serve_found rounds unauth u permit t r (err e) = plain_answer (handle_tree_error u t r e)

-- `serveProject`.
unfoldable pub serve_project :
    ℕ
    → ℕ
    → Unicode
    → (Target → Result TreeError TreeHandle)
    → (Bytes → Bytes → Result PreviewError Effect)
    → Target
    → ServeRequest
    → Answer
serve_project rounds unauth u trees permit t r = serve_found rounds unauth u permit t r (trees t)

-- The status of `writeResolveError`.
abbrev pub resolve_status : GoError → ℕ
resolve_status (resolve_error e) = e.status
resolve_status (other_error e) = 502

abbrev pub serve_method : Method → Answer → Answer
serve_method get a = a
serve_method head a = a
serve_method options a = plain_answer allowed_methods
serve_method other_method a = plain_answer method_not_allowed

-- A request for the control plane is handed on, where there is a handler for it.
abbrev pub unless_control : Bool → Bool → Answer → Answer
unless_control has_control true a = plain_answer (if has_control then control else error_page 404)
unless_control has_control false a = a

abbrev pub serve_target : Bool → Method → Result GoError Target → (Target → Answer) → Answer
serve_target has_control m (err e) project = plain_answer (error_page (resolve_status e))
serve_target has_control m (ok t) project =
    unless_control has_control t.is_control (serve_method m (project t))

-- `ServeHTTP` of the data plane, where what the resolver answers is given.
unfoldable pub serve_http :
    ℕ
    → ℕ
    → Unicode
    → (Target → Result TreeError TreeHandle)
    → (Bytes → Bytes → Result PreviewError Effect)
    → Bool
    → Method
    → Result GoError Target
    → ServeRequest
    → Answer
serve_http rounds unauth u trees permit has_control m resolved r =
    serve_target has_control m resolved (λ t. serve_project rounds unauth u trees permit t r)
