-- ===== src/TlsEdge/Issuable.antt =====
-- With the program's own resolver every created site gets its certificate.
use kotoji.Prelude.{
  Bool-cases, length, All, ok, ◌≤◌, ◌≡◌, refl, sym, ap, ◌∙◌, ◌≢◌, inl, inr, true, false, ◌&&◌, not,
  none, [], ◌∷◌, ◌++◌, arith,
}
use kotoji.Repo.Branches.{absent}
use kotoji.Resolve.{Config, effective_host, new_resolver, Target, DefaultResolver, resolve}
use kotoji.Resolve.Hosts.{IsHostByte, lower_trim_id}
use kotoji.Resolve.RoundTrip.{host_name-bytes, label-ne-nil, host_name, IsStatic}
use kotoji.Resolve.Sound.{host_label}
use kotoji.Site.Handle.{validate_branch_name, validate_new_handle, preview_subdomain}
use kotoji.Site.Naming.{
  validate_handle_len_iff, branch_target, branch_target-IsProject, created_branch-short,
}
use kotoji.Text.{Bytes, lower_trim, codes, Unicode, bytes_eq, is_empty}
use kotoji.Text.Laws.{All-map, last_index_byte-none}
use kotoji.TlsEdge.{
  exists_cached, allow, Resolver, normalize_host, strip_host, Handshake, Cache, synthetic_request,
  allow_target,
}

strip_host_id : (s : Bytes) → All IsHostByte s → strip_host s ≡ s
unfolding strip_host
strip_host_id [] h = refl
strip_host_id (c ∷ s) h =
    ground (arith, last_index_byte-none (c ∷ s) b':' (All-map (λ c p. p.3) (c ∷ s) h))

pub normalize_host_id : (u : Unicode) (s : Bytes) → All IsHostByte s → normalize_host u s ≡ s
unfolding normalize_host
normalize_host_id u s h =
    rw (lower_trim_id u s (All-map (λ c p. (p.0, p.1, p.2)) s h)) (strip_host_id s h)

synthetic-effective :
    (u : Unicode) (d : DefaultResolver) (host : Bytes)
    → is_empty host ≡ false
    → effective_host u d (synthetic_request host) ≡ host
unfolding effective_host
synthetic-effective u d host z = ground arith

exists_cached-fresh :
    (cache : Cache) (h : Handshake) (handle : Bytes)
    → cache handle ≡ none
    → h.ctx_err ≡ none
    → h.site_exists handle ≡ ok true
    → (exists_cached cache h handle).1 ≡ ok true
unfolding exists_cached
exists_cached-fresh cache h handle a c e = ground arith

allow_target-issues :
    (cache : Cache) (h : Handshake) (host : Bytes) (t : Target)
    → t.is_control ≡ false
    → is_empty t.handle ≡ false
    → (exists_cached cache h t.handle).1 ≡ ok true
    → (allow_target cache h host t).1 ≡ none
allow_target-issues cache h host t c z e = rw (c, z, e) refl

allow-issues :
    (u : Unicode) (resolver : Resolver) (cache : Cache) (h : Handshake) {t : Target}
    → is_empty (normalize_host u h.name) ≡ false
    → resolver (synthetic_request (normalize_host u h.name)) ≡ ok t
    → t.is_control ≡ false
    → is_empty t.handle ≡ false
    → (exists_cached cache h t.handle).1 ≡ ok true
    → (allow u resolver cache h).1 ≡ none
unfolding allow
allow-issues u resolver cache h {t} full found c z e =
    let host = normalize_host u h.name in
    let control = normalize_host u h.control_host in
    elim (Bool-cases (not (is_empty control) && bytes_eq host control)) [
      | inl ours ↦ rw (full, ours) refl
      | inr other ↦ rw (full, other, found) (allow_target-issues cache h host t c z e)
    ]

not_empty : (s : Bytes) → s ≢ [] → is_empty s ≡ false
not_empty [] h = absurd (h refl)
not_empty (c ∷ s) h = refl

handle-ne-nil : (u : Unicode) (h : Bytes) → validate_new_handle u h ≡ none → h ≢ []
unfolding validate_new_handle
handle-ne-nil u h e z =
    let l = ((validate_handle_len_iff u h 3).0 e).1 in omega (arith, ap length z)

-- A handshake for the host of a site and a branch that pass the gates at creation gets its
-- certificate, if the store confirms the site, nothing is cached for its handle and the handshake is
-- not cancelled; the label fits 63 bytes and is not set aside for the control plane.
pub created_branch-issuable :
    (u : Unicode) (cfg : Config) (cache : Cache) (hs : Handshake) (h b : Bytes)
    → IsStatic u cfg
    → validate_new_handle u h ≡ none
    → validate_branch_name u b ≡ none
    → length (preview_subdomain h b) ≤ 63
    → preview_subdomain h b ≢ lower_trim u cfg.control_label
    → hs.name ≡ preview_subdomain h b ++ (codes "." ++ cfg.base_domain)
    → cache h ≡ none
    → hs.ctx_err ≡ none
    → hs.site_exists h ≡ ok true
    → (allow u (resolve u (new_resolver u cfg)) cache hs).1 ≡ none
created_branch-issuable u cfg cache hs h b k eh eb l c named absent live confirmed =
    let t = branch_target h b in
    let (p, same) = branch_target-IsProject u h b eh eb l in
    let name : hs.name ≡ host_name cfg t =
      named ∙ ap (λ x. x ++ (codes "." ++ cfg.base_domain)) (sym same) in
    let plain : normalize_host u hs.name ≡ host_name cfg t =
      ap (normalize_host u) name
      ∙ normalize_host_id u (host_name cfg t) (host_name-bytes u cfg k p) in
    let full = not_empty (host_name cfg t) (label-ne-nil (host_label t) cfg.base_domain) in
    let d = new_resolver u cfg in
    let found : resolve u d (synthetic_request (host_name cfg t)) ≡ ok t =
      created_branch-short u cfg (synthetic_request (host_name cfg t)) h b k eh eb l c (
        synthetic-effective u d (host_name cfg t) full
        ∙ ap (λ x. x ++ (codes "." ++ cfg.base_domain)) same) in
    allow-issues u (resolve u d) cache hs {t = t} (rw plain full) (rw plain found) refl
      (not_empty h (handle-ne-nil u h eh)) (exists_cached-fresh cache hs h absent live confirmed)
