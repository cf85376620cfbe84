-- ===== src/Resolve/Forwarding.antt =====
-- Which header decides the host: X-Forwarded-Host counts only where it is trusted, and then only
-- up to its first comma.
use kotoji.Prelude.{
  length, All, take-length, ℕ, ◌≡◌, refl, ◌≢◌, true, false, none, some, [], ◌∷◌, ◌++◌, arith,
}
use kotoji.Label.Separator.{IsPlain}
use kotoji.Resolve.{
  Request, new_resolver, effective_host, Config, effective_base, first_host_token, resolve,
}
use kotoji.Text.{index_byte, Unicode, Bytes}
use kotoji.Text.Laws.{trim_space_id, All-map}

-- Where forwarded headers are not trusted, X-Forwarded-Host has no influence on the outcome.
pub resolve_untrusted :
    (u : Unicode) (cfg : Config) (r : Request) (claimed : Bytes)
    → cfg.trust_forwarded_host ≡ false
    → cfg.base_domain_func ≡ none
    → resolve u (new_resolver u cfg) (record r { forwarded_host = claimed })
      ≡ resolve u (new_resolver u cfg) r
unfolding resolve new_resolver effective_host effective_base
resolve_untrusted u cfg r claimed t f = rw (t, f) refl

index_byte-comma :
    (s rest : Bytes) → All (λ c. c ≢ b',') s → index_byte (s ++ b',' ∷ rest) b',' ≡ some (length s)
unfolding index_byte
index_byte-comma [] rest h = refl
index_byte-comma (c ∷ s) rest h = ground (arith, index_byte-comma s rest h.1)

first_host_token-chain :
    (u : Unicode) (s rest : Bytes) → All IsPlain s → first_host_token u (s ++ b',' ∷ rest) ≡ s
unfolding first_host_token
first_host_token-chain u s rest h =
    rw (index_byte-comma s rest (All-map (λ c p. p.5) s h), take-length s (b',' ∷ rest))
      (trim_space_id u s (All-map (λ c p. (p.0, p.2)) s h))

-- Where they are trusted, a chain of proxies is routed by the host that the first one saw, as if the
-- client had sent that host with no proxy in between.
pub resolve_first_hop :
    (u : Unicode) (cfg : Config) (r : Request) (c : ℕ) (s rest : Bytes)
    → cfg.trust_forwarded_host ≡ true
    → cfg.base_domain_func ≡ none
    → All IsPlain (c ∷ s)
    → resolve u (new_resolver u cfg) (record r { forwarded_host = c ∷ s ++ b',' ∷ rest })
      ≡ resolve u (new_resolver u cfg) (record r { forwarded_host = []; host = c ∷ s })
unfolding resolve new_resolver effective_host effective_base
resolve_first_hop u cfg r c s rest t f h = rw (t, f, first_host_token-chain u (c ∷ s) rest h) refl
