-- ===== src/Serve/Fallback.antt =====
-- When a request is answered, and when the page for a missing file calls itself without end.
use kotoji.Prelude.{
  if◌then◌else◌, Bool-cases, Option-cases, Result, ok, err, ℕ, zero, suc, ◌≡◌, refl, ap, ◌∙◌, ◌≢◌,
  ◌⊎◌, inl, inr, Bool, true, false, none, some, arith,
}
use kotoji.Location.{ServeRequest}
use kotoji.Preview.{PreviewError, Effect}
use kotoji.Resolve.{Target, GoError}
use kotoji.Serve.{
  serve_cleaned, in_site, options, renamed, write_not_found, get, head, Located, serve_method,
  clean_request_path, site_not_found_file, permitted, missing, is_file, nothing, found, serve_found,
  Reply, TreeHandle, write_located, other_method, serve_http, endless, Answer, serve_file, Method,
  write_content, CleanPath, to_directory, TreeError, resolve_target, unless_control, serve_project,
}
use kotoji.Text.{is_empty, Bytes, Unicode}

-- The site's own page for a missing file can be read, if it is there.
abbrev pub IsReadable404 : TreeHandle → Type 0
IsReadable404 tree =
    (is_file (tree.stat site_not_found_file) ≡ false)
    ⊎ ((body : Bytes) × (tree.read site_not_found_file ≡ some body))

-- The page is there and cannot be read.
abbrev pub IsBroken404 : TreeHandle → Type 0
IsBroken404 tree =
    (is_file (tree.stat site_not_found_file) ≡ true) × (tree.read site_not_found_file ≡ none)

module _ (u : Unicode) (target : Target) (r : ServeRequest) (tree : TreeHandle) where
  not_found_ends :
      (rounds : ℕ) → IsReadable404 tree → write_not_found (suc (suc rounds)) u tree ≢ endless
  unfolding write_not_found
  not_found_ends rounds (inl e) h = ground arith
  not_found_ends rounds (inr (body, e)) h = ground arith

  write_content_ends :
      (rounds : ℕ) (name : Bytes) (status : ℕ)
      → IsReadable404 tree
      → write_content (suc (suc (suc rounds))) u tree name status ≢ endless
  unfolding write_content
  write_content_ends rounds name status r h = elim (Option-cases (tree.read name)) [
    | inl e ↦ not_found_ends rounds r (rw e at h)
    | inr (body, e) ↦ ground arith
  ]

  both_endless :
      (rounds : ℕ)
      → IsBroken404 tree
      → (write_not_found rounds u tree ≡ endless)
        × (write_content rounds u tree site_not_found_file 404 ≡ endless)
  unfolding write_content
  both_endless zero b = (refl, refl)
  both_endless (suc rounds) b =
      let (n, c) = both_endless rounds b in (rw (write_not_found, b.0) c, rw (write_content, b.1) n)

  write_located_ends :
      (l : Located) → IsReadable404 tree → write_located 3 u target r tree l ≢ endless
  write_located_ends (found name) k h = write_content_ends 0 name 200 k h
  write_located_ends (to_directory path) k h = ground arith
  write_located_ends nothing k h = not_found_ends 1 k h

  serve_file_ends : IsReadable404 tree → serve_file 3 u target r tree ≢ endless
  unfolding serve_file
  serve_file_ends k h = elim (Option-cases (clean_request_path (in_site target r))) [
    | inl e ↦ not_found_ends 1 k (rw e at h)
    | inr (p, e) ↦ write_located_ends (resolve_target tree p) k (rw e at h)
  ]

  -- A request for what is not there, on a site whose page for missing files is there and cannot be
  -- read, is never answered, however many rounds it is given.
  pub serve_file_endless :
      (rounds : ℕ) (p : CleanPath)
      → IsBroken404 tree
      → clean_request_path (in_site target r) ≡ some p
      → resolve_target tree p ≡ nothing
      → serve_file rounds u target r tree ≡ endless
  unfolding serve_file
  serve_file_endless rounds p b e m =
      ap (serve_cleaned rounds u target r tree) e
      ∙ ap (write_located rounds u target r tree) m
      ∙ (both_endless rounds b).0

module _ (unauth : ℕ) (u : Unicode) (trees : Target → Result TreeError TreeHandle)
    (permit : Bytes → Bytes → Result PreviewError Effect) (r : ServeRequest) where
  permitted_ends :
      (g : Result PreviewError Effect) (x : Reply)
      → x ≢ endless
      → (permitted unauth g x).reply ≢ endless
  permitted_ends (err e) x n h = ground arith
  permitted_ends (ok eff) x n h = elim (Bool-cases (is_empty eff.redirect_to)) [
    | inl e ↦ n (rw e at h)
    | inr e ↦ ground arith
  ]

  either_ends :
      (b : Bool) (x y : Answer)
      → x.reply ≢ endless
      → y.reply ≢ endless
      → (if b then x else y).reply ≢ endless
  either_ends true x y m n h = m h
  either_ends false x y m n h = n h

  project_ends :
      (t : Target) (tried : Result TreeError TreeHandle)
      → ((tree : TreeHandle) → tried ≡ ok tree → IsReadable404 tree)
      → (serve_found 3 unauth u permit t r tried).reply ≢ endless
  project_ends t (err (renamed n)) k h = ground arith
  project_ends t (err missing) k h = ground arith
  project_ends t (ok tree) k h =
      let served = serve_file_ends u t r tree (k tree refl) in
      either_ends t.is_preview _ _ (permitted_ends (permit tree.site_id t.branch) _ served) served h

  method_ends : (m : Method) (a : Answer) → a.reply ≢ endless → (serve_method m a).reply ≢ endless
  method_ends get a n h = n h
  method_ends head a n h = n h
  method_ends options a n h = ground arith
  method_ends other_method a n h = ground arith

  unless_control_ends :
      (has_control c : Bool) (a : Answer)
      → a.reply ≢ endless
      → (unless_control has_control c a).reply ≢ endless
  unless_control_ends has_control true a n h = ground arith
  unless_control_ends has_control false a n h = n h

  -- Every request is answered within three rounds, if each tree that is served has no page of its own
  -- for missing files, or one that can be read.
  pub serve_http_ends :
      (has_control : Bool) (m : Method) (resolved : Result GoError Target)
      → ((t : Target) (tree : TreeHandle) → trees t ≡ ok tree → IsReadable404 tree)
      → (serve_http 3 unauth u trees permit has_control m resolved r).reply ≢ endless
  unfolding serve_http serve_project
  serve_http_ends has_control m (err e) k h = ground arith
  serve_http_ends has_control m (ok t) k h =
      unless_control_ends has_control t.is_control _
        (method_ends m _ (project_ends t (trees t) (k t))) h
