-- ===== src/Preview/Cookies.antt =====
-- The hand-off of a grant for a cookie.
use kotoji.Prelude.{
  if◌then◌else◌, length, All, ok, err, ℕ, ◌+◌, ◌/◌, ◌^◌, ◌<◌, ◌≡◌, refl, sym, ap, ◌∙◌, ◌≢◌, ◌⊎◌,
  inl, inr, true, false, ◌&&◌, some, [], ◌∷◌, ◌++◌, arith,
}
use kotoji.Label.{IsLabelByte, IsLabel}
use kotoji.Preview.{
  GrantConfig, payload, second, matches, authorize, no_effect, strip_grant_param, sign_grant,
  PreviewRequest, forbidden, verify_grant,
}
use kotoji.Preview.Handoff.{fresh_cookie}
use kotoji.Preview.Signing.{verify_grant-sign_grant, whole_second, IsCodec}
use kotoji.Preview.Splitting.{Without}
use kotoji.Resolve.Grammar.{IsBranch}
use kotoji.Text.{bytes_eq, Bytes, Folding}
use kotoji.Text.Laws.{bytes_eq_iff, bytes_eq_refl, All-append}

filled : (s : Bytes) (b : ℕ) (t : Bytes) → (c : ℕ) × (u : Bytes) × (s ++ b ∷ t ≡ c ∷ u)
filled [] b t = (b, t, refl)
filled (c ∷ s) b t = (c, s ++ b ∷ t, refl)

IsLabelByte-Without : (s : Bytes) → All IsLabelByte s → Without b':' s
IsLabelByte-Without [] h = tt
IsLabelByte-Without (c ∷ s) h = (λ e. ground arith, IsLabelByte-Without s h.1)

IsLabel-Without : (s : Bytes) → IsLabel s → Without b':' s
IsLabel-Without s (inl (c, e, h)) = rw e (λ q. ground arith, tt)
IsLabel-Without s (inr (c, mid, d, e, hc, hm, l, hd)) = rw e (
  λ q. ground arith,
  All-append (λ x. x ≢ b':') mid (d ∷ []) (IsLabelByte-Without mid hm) (λ q. ground arith, tt),
)

module _ (fold : Folding) (cfg : GrantConfig) (K : IsCodec cfg.codec) (site branch : Bytes)
    (sized : length site ≡ 16) (named : IsBranch branch) where
  plain : Without b':' branch
  plain = IsLabel-Without branch named.label

  sign_grant-filled :
      (exp : ℕ) → (c : ℕ) × (u : Bytes) × (sign_grant cfg.codec site branch exp ≡ c ∷ u)
  unfolding sign_grant
  sign_grant-filled exp = let p = payload cfg.codec site branch exp in filled p b':' _

  verified :
      (now exp : ℕ) (token : Bytes)
      → token ≡ sign_grant cfg.codec site branch exp
      → exp / second < 2 ^ 63
      → now < whole_second exp
      → verify_grant cfg.codec now token
        ≡ ok (record { site_id = site; branch = branch; exp = whole_second exp })
  verified now exp token e small fresh =
      ap (verify_grant cfg.codec now) e
      ∙ verify_grant-sign_grant cfg.codec K now site branch exp sized plain small fresh

  matches-same :
      (exp : ℕ) → matches (record { site_id = site; branch = branch; exp = exp }) site branch ≡ true
  matches-same exp = ground (arith, bytes_eq_refl site, bytes_eq_refl branch)

  grant_taken :
      (now exp : ℕ) (r : PreviewRequest)
      → r.kpt ≡ sign_grant cfg.codec site branch exp
      → exp / second < 2 ^ 63
      → now < whole_second exp
      → authorize fold cfg now site branch r
        ≡ ok (record {
          set_cookie = some (fresh_cookie fold cfg now site branch);
          redirect_to = strip_grant_param r.request_uri;
        })
  unfolding authorize
  grant_taken now exp r e small fresh =
      let (c, u, f) = sign_grant-filled exp in
      let q : r.kpt ≡ c ∷ u = e ∙ f in
      rw (q, verified now exp (c ∷ u) (sym f) small fresh, matches-same (whole_second exp)) refl

  cookie_seen :
      (now exp : ℕ) (s b : Bytes) (r : PreviewRequest)
      → r.kpt ≡ []
      → r.cookie ≡ some (sign_grant cfg.codec site branch exp)
      → exp / second < 2 ^ 63
      → now < whole_second exp
      → authorize fold cfg now s b r
        ≡ (if bytes_eq site s && bytes_eq branch b then ok no_effect else err forbidden)
  unfolding authorize
  cookie_seen now exp s b r n e small fresh =
      let (c, u, f) = sign_grant-filled exp in
      let q : r.cookie ≡ some (c ∷ u) = e ∙ ap some f in
      rw (n, q, verified now exp (c ∷ u) (sym f) small fresh) refl

  elsewhere :
      (s b : Bytes) → (s ≢ site) ⊎ (b ≢ branch) → (bytes_eq site s && bytes_eq branch b) ≡ false
  elsewhere s b h = ground (arith, bytes_eq_iff site s, bytes_eq_iff branch b)

  -- A signed grant that has not expired is taken for a cookie and a redirect; the cookie opens the same
  -- site and branch until its time to live is over, without asking for anything more, and is refused
  -- on every other site or branch.
  pub grant_handed_over :
      (now later exp : ℕ) (r r' : PreviewRequest)
      → r.kpt ≡ sign_grant cfg.codec site branch exp
      → exp / second < 2 ^ 63
      → now < whole_second exp
      → r'.kpt ≡ []
      → r'.cookie ≡ some (fresh_cookie fold cfg now site branch).value
      → (now + cfg.cookie_ttl) / second < 2 ^ 63
      → later < whole_second (now + cfg.cookie_ttl)
      → (authorize fold cfg now site branch r
          ≡ ok (record {
            set_cookie = some (fresh_cookie fold cfg now site branch);
            redirect_to = strip_grant_param r.request_uri;
          }))
        × (authorize fold cfg later site branch r' ≡ ok no_effect)
        × ((s b : Bytes)
            → (s ≢ site) ⊎ (b ≢ branch)
            → authorize fold cfg later s b r' ≡ err forbidden)
  grant_handed_over now later exp r r' e small fresh n c small' fresh' =
      let seen = λ (s : Bytes) (b : Bytes).
        cookie_seen later (now + cfg.cookie_ttl) s b r' n c small' fresh' in
      (
        grant_taken now exp r e small fresh,
        seen site branch ∙ ap (λ t. if t then ok no_effect else err forbidden) (matches-same 0),
        λ s b h. seen s b ∙ ap (λ t. if t then ok no_effect else err forbidden) (elsewhere s b h),
      )
