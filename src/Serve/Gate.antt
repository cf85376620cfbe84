-- ===== src/Serve/Gate.antt =====
-- Who gets to see a file.
use kotoji.Prelude.{
  if◌then◌else◌, Bool-cases, Result, ok, err, ok-injective, ℕ, ◌≡◌, refl, ap, ◌∙◌, ◌≢◌, ◌⊎◌, inl,
  inr, Bool, true, false, arith,
}
use kotoji.Location.{ServeRequest}
use kotoji.Preview.{PreviewError, GrantConfig, Effect, authorize, PreviewRequest}
use kotoji.Preview.Handoff.{authorize_sound, Allowed}
use kotoji.Resolve.{Target, GoError}
use kotoji.Serve.{
  unless_control, serve_http, Reply, other_method, serve_method, renamed, TreeError, serve_project,
  TreeHandle, missing, serve_tree, get, Answer, options, serve_found, file, head, Method,
  serve_file, permitted,
}
use kotoji.Text.{Bytes, Folding, is_empty, Unicode}

-- A file of a tree, and not a page of the handler's own.
abbrev pub IsFile : Reply → Type 0
IsFile (file status name body attachment) = Unit {0}
IsFile _ = ⊥

-- Where the request is for, which tree is served, and what the gate says to it.
abbrev pub IsShown :
    (Target → Result TreeError TreeHandle)
    → (Bytes → Bytes → Result PreviewError Effect)
    → Result GoError Target
    → Type 0
IsShown trees permit resolved =
    (t : Target) × (tree : TreeHandle) × (resolved ≡ ok t)
    × (t.is_control ≡ false)
    × (trees t ≡ ok tree)
    × ((t.is_preview ≡ false)
        ⊎ ((eff : Effect) × (permit tree.site_id t.branch ≡ ok eff)
            × (is_empty eff.redirect_to ≡ true)))

module _ (rounds unauth : ℕ) (u : Unicode) (trees : Target → Result TreeError TreeHandle)
    (permit : Bytes → Bytes → Result PreviewError Effect) (r : ServeRequest) where
  permitted-IsFile :
      (g : Result PreviewError Effect) (x : Reply)
      → IsFile (permitted unauth g x).reply
      → (eff : Effect) × (g ≡ ok eff) × (is_empty eff.redirect_to ≡ true)
  permitted-IsFile (err e) x h = absurd h
  permitted-IsFile (ok eff) x h = elim (Bool-cases (is_empty eff.redirect_to)) [
    | inl e ↦ (eff, refl, e)
    | inr e ↦ absurd (rw e at h)
  ]

  either-IsFile :
      (b : Bool) (x y : Answer)
      → IsFile (if b then x else y).reply
      → ((b ≡ true) × IsFile x.reply) ⊎ ((b ≡ false) × IsFile y.reply)
  either-IsFile true x y h = inl (refl, h)
  either-IsFile false x y h = inr (refl, h)

  serve_tree-IsFile :
      (t : Target) (tree : TreeHandle)
      → IsFile (serve_tree rounds unauth u permit t r tree).reply
      → (t.is_preview ≡ false)
        ⊎ ((eff : Effect) × (permit tree.site_id t.branch ≡ ok eff)
            × (is_empty eff.redirect_to ≡ true))
  serve_tree-IsFile t tree h = elim (either-IsFile t.is_preview _ _ h) [
    | inl (e, shown) ↦
        inr (permitted-IsFile (permit tree.site_id t.branch) (serve_file rounds u t r tree) shown)
    | inr (e, shown) ↦ inl e
  ]

  serve_method-IsFile : (m : Method) (a : Answer) → IsFile (serve_method m a).reply → IsFile a.reply
  serve_method-IsFile get a h = h
  serve_method-IsFile head a h = h
  serve_method-IsFile options a h = absurd h
  serve_method-IsFile other_method a h = absurd h

  project-IsFile :
      (t : Target) (tried : Result TreeError TreeHandle)
      → IsFile (serve_found rounds unauth u permit t r tried).reply
      → (tree : TreeHandle) × (tried ≡ ok tree)
        × ((t.is_preview ≡ false)
            ⊎ ((eff : Effect) × (permit tree.site_id t.branch ≡ ok eff)
                × (is_empty eff.redirect_to ≡ true)))
  project-IsFile t (ok tree) h = (tree, refl, serve_tree-IsFile t tree h)
  project-IsFile t (err (renamed n)) h = absurd h
  project-IsFile t (err missing) h = absurd h

  unless_control-IsFile :
      (has_control c : Bool) (a : Answer)
      → IsFile (unless_control has_control c a).reply
      → (c ≡ false) × IsFile a.reply
  unless_control-IsFile true true a h = absurd h
  unless_control-IsFile false true a h = absurd h
  unless_control-IsFile has_control false a h = (refl, h)

  -- A file of a site is only shown to a request that resolves to a project, of the tree of that target,
  -- and of a preview only if the gate for the site of the tree and the branch of the target lets the
  -- request through without a redirect.
  pub serve_http_sound :
      (has_control : Bool) (m : Method) (resolved : Result GoError Target)
      → IsFile (serve_http rounds unauth u trees permit has_control m resolved r).reply
      → IsShown trees permit resolved
  unfolding serve_http serve_project
  serve_http_sound has_control m (err e) h = absurd h
  serve_http_sound has_control m (ok t) h =
      let (here, h) = unless_control-IsFile has_control t.is_control _ h in
      let (tree, served, shown) = project-IsFile t (trees t) (serve_method-IsFile m _ h) in
      (t, tree, refl, here, served, shown)

-- With the grants of the preview package as the gate, a file of a preview is only shown to a request
-- that has a signed grant for that site and branch in a cookie or in its address, or a bearer token
-- for the site.
pub preview_shown :
    (rounds unauth : ℕ) (u : Unicode) (trees : Target → Result TreeError TreeHandle)
    (fold : Folding) (cfg : GrantConfig) (now : ℕ) (p : PreviewRequest) (r : ServeRequest)
    (has_control : Bool) (m : Method) (t : Target)
    → t.is_preview ≡ true
    → IsFile
        (serve_http rounds unauth u trees
          (λ site branch. authorize fold cfg now site branch p)
          has_control
          m
          (ok t)
          r).reply
    → (tree : TreeHandle) × (eff : Effect) × (trees t ≡ ok tree)
      × Allowed fold cfg now tree.site_id t.branch p eff
preview_shown rounds unauth u trees fold cfg now p r has_control m t preview h =
    let gate = λ (site : Bytes) (branch : Bytes). authorize fold cfg now site branch p in
    let (t', tree, same, here, served, shown) =
      serve_http_sound rounds unauth u trees gate r has_control m (ok t) h in
    allowed t' tree (ok-injective _ _ same) served shown
  where
    apart : {b : Bool} → b ≡ true → b ≢ false
    apart e k = ground arith

    allowed :
        (t' : Target) (tree : TreeHandle)
        → t ≡ t'
        → trees t' ≡ ok tree
        → (t'.is_preview ≡ false)
          ⊎ ((eff : Effect) × (authorize fold cfg now tree.site_id t'.branch p ≡ ok eff)
              × (is_empty eff.redirect_to ≡ true))
        → (tree : TreeHandle) × (eff : Effect) × (trees t ≡ ok tree)
          × Allowed fold cfg now tree.site_id t.branch p eff
    allowed t' tree e served (inl public) =
        absurd (apart preview (ap (λ (x : Target). x.is_preview) e ∙ public))
    allowed t' tree e served (inr (eff, let_in, stays)) = (
      tree,
      eff,
      ap trees e ∙ served,
      authorize_sound fold cfg now tree.site_id t.branch p eff
          (ap (λ (x : Target). authorize fold cfg now tree.site_id x.branch p) e ∙ let_in),
    )
