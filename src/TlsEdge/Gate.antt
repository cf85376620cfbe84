-- ===== src/TlsEdge/Gate.antt =====
-- The gate over a history of handshakes: what a certificate rests on.
use mathlib.Core.List.{reverse, reverse_aux}
use kotoji.Prelude.{
  Bool-cases, Result, ok, err, String, ◌≡◌, refl, ◌≢◌, ◌⊎◌, inl, inr, Bool, true, false, ◌&&◌, not,
  none, List, [], ◌∷◌, arith,
}
use kotoji.Resolve.{ResolveError, Target}
use kotoji.Table.{empty}
use kotoji.Text.{Unicode, bytes_eq, is_empty, Bytes}
use kotoji.Text.Laws.{bytes_eq_iff}
use kotoji.TlsEdge.{
  allow_all, allow, Cache, synthetic_request, Handshake, Resolver, exists_cached, normalize_host,
  allow_resolved, allow_target, verdict,
}
use kotoji.TlsEdge.Cache.{
  exists_cached-IsGenuine, Answered, Asked-cons, IsGenuine, exists_cached-Answered,
}

allow_target-IsGenuine :
    (hs : List Handshake) (cache : Cache) (h : Handshake) (host : Bytes) (t : Target)
    → IsGenuine hs cache
    → IsGenuine (h ∷ hs) (allow_target cache h host t).0
allow_target-IsGenuine hs cache h host t g = elim (Bool-cases t.is_control) [
  | inl c ↦ rw c (λ k e q. Asked-cons h (g k e q))
  | inr c ↦ elim (Bool-cases (is_empty t.handle)) [
    | inl z ↦ rw (c, z) (λ k e q. Asked-cons h (g k e q))
    | inr z ↦ rw (c, z) (exists_cached-IsGenuine hs cache h t.handle g)
  ]
]

allow_resolved-IsGenuine :
    (hs : List Handshake) (cache : Cache) (h : Handshake) (host : Bytes)
    (r : Result ResolveError Target)
    → IsGenuine hs cache
    → IsGenuine (h ∷ hs) (allow_resolved cache h host r).0
allow_resolved-IsGenuine hs cache h host (err x) g = λ k e q. Asked-cons h (g k e q)
allow_resolved-IsGenuine hs cache h host (ok t) g = allow_target-IsGenuine hs cache h host t g

verdict-none : (handle : Bytes) (r : Result String Bool) → verdict handle r ≡ none → r ≡ ok true
verdict-none handle (err e) h = ground arith
verdict-none handle (ok true) h = refl
verdict-none handle (ok false) h = ground arith

allow_target-found :
    (cache : Cache) (h : Handshake) (host : Bytes) (t : Target)
    → t.is_control ≡ false
    → (allow_target cache h host t).1 ≡ none
    → (exists_cached cache h t.handle).1 ≡ ok true
allow_target-found cache h host t c e = elim (Bool-cases (is_empty t.handle)) [
  | inl z ↦ ground arith
  | inr z ↦ verdict-none t.handle (exists_cached cache h t.handle).1 (rw (c, z) at e)
]

module _ (u : Unicode) (resolver : Resolver) where
  allow-IsGenuine :
      (hs : List Handshake) (cache : Cache) (h : Handshake)
      → IsGenuine hs cache
      → IsGenuine (h ∷ hs) (allow u resolver cache h).0
  unfolding allow
  allow-IsGenuine hs cache h g =
      let host = normalize_host u h.name in
      let control = normalize_host u h.control_host in
      elim (Bool-cases (is_empty host)) [
        | inl z ↦ rw z (λ k e q. Asked-cons h (g k e q))
        | inr z ↦ elim (Bool-cases (not (is_empty control) && bytes_eq host control)) [
          | inl c ↦ rw (z, c) (λ k e q. Asked-cons h (g k e q))
          | inr c ↦
              rw (z, c)
                (allow_resolved-IsGenuine hs cache h host (resolver (synthetic_request host)) g)
        ]
      ]

  -- The newest handshake first.
  allow_all-IsGenuine :
      (past : List Handshake) (cache : Cache) (hs : List Handshake)
      → IsGenuine past cache
      → IsGenuine (reverse_aux hs past) (allow_all u resolver cache hs)
  unfolding allow_all
  allow_all-IsGenuine past cache [] g = g
  allow_all-IsGenuine past cache (h ∷ hs) g =
      allow_all-IsGenuine (h ∷ past) (allow u resolver cache h).0 hs
        (allow-IsGenuine past cache h g)

  empty-IsGenuine : IsGenuine [] empty
  empty-IsGenuine k e q = ground arith

  -- What a certificate for the handshake's name rests on.
  abbrev pub IsOurs : List Handshake → Handshake → Type 0
  IsOurs hs h =
      let host = normalize_host u h.name in
      ((host ≢ []) × (host ≡ normalize_host u h.control_host))
      ⊎ ((t : Target) × (resolver (synthetic_request host) ≡ ok t)
          × ((t.is_control ≡ true) ⊎ Answered hs h t.handle true))

  allow_resolved_sound :
      (hs : List Handshake) (cache : Cache) (h : Handshake) (host : Bytes)
      (r : Result ResolveError Target)
      → IsGenuine hs cache
      → (allow_resolved cache h host r).1 ≡ none
      → (t : Target) × (r ≡ ok t) × ((t.is_control ≡ true) ⊎ Answered hs h t.handle true)
  allow_resolved_sound hs cache h host (err x) g e = ground arith
  allow_resolved_sound hs cache h host (ok t) g e = elim (Bool-cases t.is_control) [
    | inl c ↦ (t, refl, inl c)
    | inr c ↦ (
      t,
      refl,
      inr (exists_cached-Answered hs cache h t.handle g (allow_target-found cache h host t c e)),
    )
  ]

  allow_host_sound :
      (hs : List Handshake) (cache : Cache) (h : Handshake)
      → IsGenuine hs cache
      → (allow u resolver cache h).1 ≡ none
      → IsOurs hs h
  unfolding allow
  allow_host_sound hs cache h g e =
      let host = normalize_host u h.name in
      let control = normalize_host u h.control_host in
      elim (Bool-cases (is_empty host)) [
        | inl z ↦ ground arith
        | inr z ↦ elim (Bool-cases (not (is_empty control) && bytes_eq host control)) [
          | inl c ↦ inl (λ n. ground arith, (bytes_eq_iff host control).0 (ground arith))
          | inr c ↦ inr (
              allow_resolved_sound hs cache h host (resolver (synthetic_request host)) g
                (rw (z, c) at e))
        ]
      ]

  -- After any history of handshakes a certificate is issued only for the control host, for a host
  -- that the resolver takes for the control plane's, or for a host that resolves to a handle of which
  -- the store said, in this handshake or in one of the history less than 30 seconds ago, that its
  -- site exists. All else is refused, failed lookups included.
  pub allow_sound :
      (hs : List Handshake) (h : Handshake)
      → (allow u resolver (allow_all u resolver empty hs) h).1 ≡ none
      → IsOurs (reverse hs) h
  allow_sound hs h e =
      allow_host_sound (reverse hs) (allow_all u resolver empty hs) h
        (allow_all-IsGenuine [] empty hs empty-IsGenuine) e
