-- ===== src/Tests/Certificates.antt =====
-- Handshakes against a store with one site.
use kotoji.Prelude.{ok, ◌≡◌, refl, ◌≢◌, true, false, none, some, [], ◌∷◌, arith}
use kotoji.Label.{label_re}
use kotoji.Resolve.{
  Config, resolve, validate_branch, effective_base, new_resolver, resolve_project_label,
  effective_host, lower_strip_port, classify_host, validate_handle,
}
use kotoji.Resolve.RoundTrip.{IsStatic}
use kotoji.Site.Handle.{validate_new_handle, validate_branch_name, preview_subdomain}
use kotoji.Table.{empty}
use kotoji.Tests.{plain, draft, blog}
use kotoji.Text.{to_lower, last_index_byte, has_suffix, contains, lower_trim, bytes_eq, mem, codes}
use kotoji.TlsEdge.{Resolver, allow_all, exists_cached, Handshake, normalize_host, no_site, allow}
use kotoji.TlsEdge.Gate.{allow_sound, IsOurs}

abbrev config : Config
config = record {
  base_domain = codes "ko.to";
  control_label = codes "app";
  enable_path_fallback = false;
  trust_forwarded_host = false;
  base_domain_func = none;
}

abbrev router : Resolver
router = resolve plain (new_resolver plain config)

abbrev draft_handshake : Handshake
draft_handshake = record {
  name = codes "blog--draft.ko.to";
  now = 1_000_000_000;
  control_host = codes "app.ko.to";
  ctx_err = none;
  site_exists = λ handle. ok (bytes_eq handle blog);
}

abbrev later_handshake : Handshake
later_handshake = record draft_handshake { now = 2_000_000_000; ctx_err = some "context canceled" }

abbrev unknown_handshake : Handshake
unknown_handshake = record draft_handshake { name = codes "nobody.ko.to" }

draft_issued : (allow plain router empty draft_handshake).1 ≡ none
unfolding allow normalize_host lower_trim last_index_byte bytes_eq resolve lower_strip_port
    effective_host new_resolver classify_host effective_base has_suffix contains
    resolve_project_label validate_handle validate_branch label_re mem exists_cached
draft_issued = refl

unknown_refused : (allow plain router empty unknown_handshake).1 ≡ some (no_site (codes "nobody"))
unfolding allow normalize_host lower_trim last_index_byte bytes_eq resolve lower_strip_port
    effective_host new_resolver classify_host effective_base has_suffix contains
    resolve_project_label validate_handle validate_branch label_re mem exists_cached
unknown_refused = refl

later_issued :
    (allow plain router (allow_all plain router empty (draft_handshake ∷ [])) later_handshake).1
    ≡ none
unfolding allow normalize_host lower_trim last_index_byte bytes_eq resolve lower_strip_port
    effective_host new_resolver classify_host effective_base has_suffix contains
    resolve_project_label validate_handle validate_branch label_re mem exists_cached allow_all
later_issued = refl

store_asked : (exists_cached empty draft_handshake blog).2 ≡ true
unfolding exists_cached
store_asked = refl

store_confirmed : (exists_cached empty draft_handshake blog).1 ≡ ok true
unfolding exists_cached bytes_eq
store_confirmed = refl

allow_sound_example : IsOurs plain router (draft_handshake ∷ []) later_handshake
allow_sound_example = allow_sound plain router (draft_handshake ∷ []) later_handshake later_issued

config-IsStatic : IsStatic plain config
config-IsStatic = record { base = ground arith; no_func = refl }

blog_created : validate_new_handle plain blog ≡ none
unfolding validate_new_handle bytes_eq to_lower contains label_re mem
blog_created = refl

draft_created : validate_branch_name plain draft ≡ none
unfolding validate_branch_name bytes_eq to_lower contains label_re
draft_created = refl

draft_label : preview_subdomain blog draft ≡ codes "blog--draft"
unfolding preview_subdomain bytes_eq
draft_label = refl

label-ne-app : codes "blog--draft" ≢ lower_trim plain (codes "app")
unfolding lower_trim
label-ne-app e = ground arith

blog_confirmed : draft_handshake.site_exists blog ≡ ok true
unfolding bytes_eq
blog_confirmed = refl
