-- ===== src/Preview/Handoff.antt =====
-- From a grant to the cookie it is exchanged for, and what each of them opens.
use kotoji.Prelude.{
  if◌then◌else◌, Result, ok, err, then-ok, ok-injective, ℕ, ◌+◌, ◌≡◌, refl, ap, ◌∙◌, subst, Bool,
  true, false, Option, none, some, [], ◌∷◌, arith,
}
use kotoji.Preview.{
  authorize, bearer_token, verify_grant, sign_grant, by_kpt, Effect, strip_grant_param,
  PreviewError, GrantConfig, by_bearer, Codec, no_effect, forbidden, new_cookie, bearer_answer,
  by_cookie, PreviewRequest, Grant, or_bearer, exchange, Cookie, matches, admit,
}
use kotoji.Preview.Sound.{verify_grant_sound, IsSigned}
use kotoji.Text.{Bytes, Folding}
use kotoji.Text.Laws.{bytes_eq_iff}

-- A grant, signed and not expired, for this site and branch.
abbrev pub Opens : Codec → ℕ → Bytes → Bytes → Bytes → Type 0
Opens k now site branch token =
    (g : Grant) × IsSigned k now token g × (g.site_id ≡ site) × (g.branch ≡ branch)

if-ok :
    {E A : Type 0} (c : Bool) (r : Result E A) (e : E) (a : A)
    → (if c then r else err e) ≡ ok a
    → (c ≡ true) × (r ≡ ok a)
if-ok true r e a h = (refl, h)
if-ok false r e a h = ground arith

module _ (fold : Folding) (cfg : GrantConfig) (now : ℕ) (site branch : Bytes) where
  -- The cookie for this site and branch that runs out with the time to live.
  abbrev pub fresh_cookie : Cookie
  fresh_cookie = new_cookie cfg (sign_grant cfg.codec site branch (now + cfg.cookie_ttl))

  -- Why a request may see the preview, and what else is done.
  pub data Allowed (r : PreviewRequest) : Effect → Type 0 where
    by_grant :
        Opens cfg.codec now site branch r.kpt
        → Allowed r (record {
          set_cookie = some fresh_cookie;
          redirect_to = strip_grant_param r.request_uri;
        })
    by_preview_cookie :
        {value : Bytes}
        → r.kpt ≡ []
        → r.cookie ≡ some value
        → Opens cfg.codec now site branch value
        → Allowed r no_effect
    by_bearer_token :
        {validate : Bytes → Bytes → Option PreviewError}
        → r.kpt ≡ []
        → cfg.bearer ≡ some validate
        → validate (bearer_token fold r.authorization) site ≡ none
        → Allowed r no_effect

  matches-both :
      (g : Grant) → matches g site branch ≡ true → (g.site_id ≡ site) × (g.branch ≡ branch)
  matches-both g h = ground (arith, bytes_eq_iff g.site_id site, bytes_eq_iff g.branch branch)

  exchange-Allowed :
      (r : PreviewRequest) (g : Grant) (eff : Effect)
      → verify_grant cfg.codec now r.kpt ≡ ok g
      → exchange fold cfg now site branch r.request_uri g ≡ ok eff
      → Allowed r eff
  exchange-Allowed r g eff v h =
      let (same, rest) = if-ok (matches g site branch) _ forbidden eff h in
      let (site_same, branch_same) = matches-both g same in
      subst (Allowed r) (ok-injective _ _ rest)
        (by_grant (g, verify_grant_sound cfg.codec now r.kpt g v, site_same, branch_same))

  admit-Allowed :
      (r : PreviewRequest) (value : Bytes) (g : Grant) (eff : Effect)
      → r.kpt ≡ []
      → r.cookie ≡ some value
      → verify_grant cfg.codec now value ≡ ok g
      → admit fold cfg now site branch g ≡ ok eff
      → Allowed r eff
  admit-Allowed r value g eff n c v h =
      let (same, rest) = if-ok (matches g site branch) _ forbidden eff h in
      let (site_same, branch_same) = matches-both g same in
      subst (Allowed r) (ok-injective _ _ rest) (
        by_preview_cookie n c
          (g, verify_grant_sound cfg.codec now value g v, site_same, branch_same))

  by_bearer-Allowed :
      (r : PreviewRequest) (o : Option (Bytes → Bytes → Option PreviewError)) (token : Bytes)
      (eff : Effect)
      → r.kpt ≡ []
      → cfg.bearer ≡ o
      → bearer_token fold r.authorization ≡ token
      → by_bearer fold cfg now site branch o token ≡ ok eff
      → Allowed r eff
  by_bearer-Allowed r none token eff n b t h = ground arith
  by_bearer-Allowed r (some validate) [] eff n b t h = ground arith
  by_bearer-Allowed r (some validate) (c ∷ token) eff n b t h =
      validated (validate (c ∷ token) site) refl h
    where
      validated :
          (o : Option PreviewError)
          → validate (c ∷ token) site ≡ o
          → bearer_answer fold cfg now site branch o ≡ ok eff
          → Allowed r eff
      validated none e h = subst (Allowed r) (ok-injective _ _ h) (by_bearer_token n b (rw t e))
      validated (some x) e h = ground arith

  or_bearer-Allowed :
      (r : PreviewRequest) (value : Bytes) (o : Result PreviewError Grant) (eff : Effect)
      → r.kpt ≡ []
      → r.cookie ≡ some value
      → verify_grant cfg.codec now value ≡ o
      → or_bearer fold cfg now site branch r o ≡ ok eff
      → Allowed r eff
  or_bearer-Allowed r value (ok g) eff n c v h = admit-Allowed r value g eff n c v h
  or_bearer-Allowed r value (err e) eff n c v h =
      by_bearer-Allowed r cfg.bearer (bearer_token fold r.authorization) eff n refl refl h

  by_cookie-Allowed :
      (r : PreviewRequest) (o : Option Bytes) (eff : Effect)
      → r.kpt ≡ []
      → r.cookie ≡ o
      → by_cookie fold cfg now site branch r o ≡ ok eff
      → Allowed r eff
  by_cookie-Allowed r none eff n c h =
      by_bearer-Allowed r cfg.bearer (bearer_token fold r.authorization) eff n refl refl h
  by_cookie-Allowed r (some []) eff n c h =
      by_bearer-Allowed r cfg.bearer (bearer_token fold r.authorization) eff n refl refl h
  by_cookie-Allowed r (some (x ∷ value)) eff n c h =
      or_bearer-Allowed r (x ∷ value) (verify_grant cfg.codec now (x ∷ value)) eff n c refl h

  by_kpt-Allowed :
      (r : PreviewRequest) (kpt : Bytes) (eff : Effect)
      → r.kpt ≡ kpt
      → by_kpt fold cfg now site branch r kpt ≡ ok eff
      → Allowed r eff
  by_kpt-Allowed r [] eff n h = by_cookie-Allowed r r.cookie eff n refl h
  by_kpt-Allowed r (c ∷ raw) eff n h =
      let (g, v, rest) =
        then-ok (verify_grant cfg.codec now (c ∷ raw))
          (exchange fold cfg now site branch r.request_uri) eff h in
      exchange-Allowed r g eff (ap (verify_grant cfg.codec now) n ∙ v) rest

  -- Who may see a preview: a request with a grant for this site and branch, which gets the cookie and
  -- a redirect without the grant; or one with no grant that has a cookie with such a grant, or a bearer
  -- token that is valid for the site, which gets neither. A grant is signed, and not expired.
  pub authorize_sound :
      (r : PreviewRequest) (eff : Effect)
      → authorize fold cfg now site branch r ≡ ok eff
      → Allowed r eff
  unfolding authorize
  authorize_sound r eff h = by_kpt-Allowed r r.kpt eff refl h
