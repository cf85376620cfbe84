-- ===== src/Location/Former.antt =====
-- A request under a former name of a site is sent to where the site is now.
use kotoji.Prelude.{
  length, All, drop-length, ok, ℕ, ◌≡◌, refl, sym, ap, ◌∙◌, ◌≢◌, inl, inr, some, [], ◌∷◌, ◌++◌,
  append_assoc, arith,
}
use kotoji.Label.Separator.{IsPlain}
use kotoji.Location.{
  raw_query_suffix, redirect_host, host_suffix_for_redirect, trim_prefix_byte, ServeRequest,
  redirect_renamed_handle, request_scheme,
}
use kotoji.Resolve.{Config, Request, Target, new_resolver, resolve, effective_host}
use kotoji.Resolve.RoundTrip.{host_label-IsPlain, Addresses, IsStatic, resolve_complete}
use kotoji.Resolve.Sound.{IsProject, host_label}
use kotoji.Text.{index_byte, Unicode, lower_trim, codes, Bytes}
use kotoji.Text.Laws.{All-map}

index_byte-append :
    (s t : Bytes) (b : ℕ) → All (λ c. c ≢ b) s → index_byte (s ++ b ∷ t) b ≡ some (length s)
unfolding index_byte
index_byte-append [] t b h = ground arith
index_byte-append (c ∷ s) t b h = ground (arith, index_byte-append s t b h.1)

-- What follows the label in the host.
suffix_after :
    (u : Unicode) (r : ServeRequest) (label rest : Bytes)
    → All IsPlain label
    → redirect_host u r ≡ label ++ b'.' ∷ rest
    → trim_prefix_byte b'.' (host_suffix_for_redirect u r) ≡ rest
unfolding host_suffix_for_redirect
suffix_after u r label rest h e =
    rw
      (
        e,
        index_byte-append label rest b'.' (All-map (λ c q. q.3) label h),
        drop-length label (b'.' ∷ rest),
      )
      (ground arith)

abbrev pub renamed_target : Target → Bytes → Target
renamed_target t new_handle = record t { handle = new_handle }

-- The same address with the label of another target: what follows the label, a port included, is kept.
abbrev pub Relabelled : Target → Target → Bytes → Bytes → Type 0
Relabelled t t' host host' =
    (rest : Bytes) × (host ≡ host_label t ++ b'.' ∷ rest) × (host' ≡ host_label t' ++ b'.' ∷ rest)

-- The location leads from one host to another, with the decoded path and the query of the request, and
-- whoever follows it is resolved to the target.
abbrev pub LeadsTo : Unicode → Config → ServeRequest → Bytes → Target → Target → Type 0
LeadsTo u cfg r location t t' =
    (host : Bytes) × Relabelled t t' (redirect_host u r) host
    × (location
        ≡ (request_scheme u r ++ (codes "://" ++ (host ++ r.path))) ++ raw_query_suffix r.raw_query)
    × ((q : Request)
        → effective_host u (new_resolver u cfg) q ≡ host
        → resolve u (new_resolver u cfg) q ≡ ok t')

module _ (u : Unicode) (cfg : Config) (t : Target) (r : ServeRequest) (new_handle : Bytes) where
  leads_after :
      (rest : Bytes)
      → IsStatic u cfg
      → IsProject t
      → IsProject (renamed_target t new_handle)
      → host_label (renamed_target t new_handle) ≢ lower_trim u cfg.control_label
      → redirect_host u r ≡ host_label t ++ b'.' ∷ rest
      → Addresses cfg
          (renamed_target t new_handle)
          (host_label (renamed_target t new_handle) ++ b'.' ∷ rest)
      → LeadsTo u cfg r (redirect_renamed_handle u t r new_handle) t (renamed_target t new_handle)
  unfolding redirect_renamed_handle
  leads_after rest k p p' c e a = (
    host_label (renamed_target t new_handle) ++ b'.' ∷ rest,
    (rest, e, refl),
    rw (p.from_host, suffix_after u r (host_label t) rest (host_label-IsPlain p) e)
        (ap
          (λ (x : Bytes).
            (request_scheme u r ++ (codes "://" ++ x)) ++ raw_query_suffix r.raw_query)
          (sym (append_assoc (host_label (renamed_target t new_handle)) (b'.' ∷ rest) r.path))),
    λ q same. resolve_complete u cfg q k p' c (rw same a),
  )

  -- A host request for a former handle is sent to the host with the label of the new handle in place
  -- of the old one, so with the same port, if there is one, and with the decoded path and the query of
  -- the request; that host is resolved to the same branch under the new handle. The host is the first
  -- of X-Forwarded-Host where that header is there, as behind a proxy, or else that of the request, and
  -- has to be an address of the former target; the base domain is a static one, and the label of the
  -- new handle and the branch fits 63 bytes and is not that of the control plane.
  pub redirect_renamed_handle_lem :
      IsStatic u cfg
      → IsProject t
      → IsProject (renamed_target t new_handle)
      → host_label (renamed_target t new_handle) ≢ lower_trim u cfg.control_label
      → Addresses cfg t (redirect_host u r)
      → LeadsTo u cfg r (redirect_renamed_handle u t r new_handle) t (renamed_target t new_handle)
  redirect_renamed_handle_lem k p p' c (inl e) = leads_after cfg.base_domain k p p' c e (inl refl)
  redirect_renamed_handle_lem k p p' c (inr (port, hp, e)) =
      leads_after (cfg.base_domain ++ b':' ∷ port) k p p' c
        (e ∙ append_assoc (host_label t) (codes "." ++ cfg.base_domain) (b':' ∷ port))
        (inr (
          port,
          hp,
          sym (
              append_assoc (host_label (renamed_target t new_handle)) (codes "." ++ cfg.base_domain)
                (b':' ∷ port)),
        ))
