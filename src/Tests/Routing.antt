-- ===== src/Tests/Routing.antt =====
-- Routing, naming and the gate before a certificate, at one site.
use kotoji.Prelude.{
  length, ok, err, ◌≤◌, ◌<◌, ◌≡◌, refl, sym, ◌∙◌, ◌≢◌, ◌⊎◌, true, false, none, [], ◌++◌, arith,
}
use kotoji.Label.{label_re}
use kotoji.Resolve.{
  Config, new_resolver, control_target, first_host_token, effective_base, resolve_project_label,
  validate_branch, published, validate_handle, Target, Request, fail, resolve, effective_host,
  lower_strip_port, classify_host,
}
use kotoji.Resolve.Grammar.{IsHandle, IsBranch}
use kotoji.Resolve.Overlong.{label_too_long}
use kotoji.Resolve.RoundTrip.{IsStatic}
use kotoji.Resolve.Sound.{IsProject, resolve_sound, host_label}
use kotoji.Site.Handle.{
  preview_subdomain, validate_branch_name, validate_handle_for_resolver, validate_new_handle,
}
use kotoji.Site.Naming.{
  branch_target, validate_handle_len_iff, branch_target-IsProject, created_branch-resolves,
  validate_branch_name_iff,
}
use kotoji.Tests.{plain, draft, blog}
use kotoji.Text.{
  bytes_eq, last_index_byte, lower_trim, to_lower, has_suffix, mem, contains, codes, index_byte,
}

abbrev pub config : Config
config = record {
  base_domain = codes "ko.to";
  control_label = codes "app";
  enable_path_fallback = false;
  trust_forwarded_host = false;
  base_domain_func = none;
}

abbrev forwarding : Config
forwarding = record config { trust_forwarded_host = true }

abbrev draft_request : Request
draft_request = record {
  forwarded_host = codes "evil.com";
  host = codes "blog--draft.ko.to";
  url_host = [];
}

abbrev pub draft_target : Target
draft_target = branch_target blog draft

draft_resolves : resolve plain (new_resolver plain config) draft_request ≡ ok draft_target
unfolding resolve new_resolver lower_strip_port lower_trim effective_host last_index_byte
    classify_host bytes_eq effective_base has_suffix contains resolve_project_label validate_handle
    label_re mem validate_branch
draft_resolves = refl

pub config-IsStatic : IsStatic plain config
config-IsStatic = record { base = ground arith; no_func = refl }

blog_created : validate_new_handle plain blog ≡ none
unfolding validate_new_handle bytes_eq to_lower contains label_re mem
blog_created = refl

pub draft_created : validate_branch_name plain draft ≡ none
unfolding validate_branch_name bytes_eq to_lower contains label_re
draft_created = refl

draft_label : preview_subdomain blog draft ≡ codes "blog--draft"
unfolding preview_subdomain bytes_eq
draft_label = refl

label-ne-app : codes "blog--draft" ≢ lower_trim plain (codes "app")
unfolding lower_trim
label-ne-app e = ground arith

blog_routed : validate_handle_for_resolver plain blog ≡ none
unfolding validate_handle_for_resolver bytes_eq to_lower contains label_re mem
blog_routed = refl

blog-IsHandle : IsHandle blog
blog-IsHandle =
    ((validate_handle_len_iff plain blog 1).0
      (unfold validate_handle_for_resolver in blog_routed)).0

draft-IsBranch : IsBranch draft
draft-IsBranch = (validate_branch_name_iff plain draft).0 draft_created

short : length (preview_subdomain blog draft) ≤ 63
short = rw draft_label (omega arith)

pub draft-IsProject :
    IsProject draft_target × (host_label draft_target ≡ preview_subdomain blog draft)
draft-IsProject = branch_target-IsProject plain blog draft blog_created draft_created short

label-ne-control : preview_subdomain blog draft ≢ lower_trim plain config.control_label
label-ne-control e = label-ne-app (sym draft_label ∙ e)

draft_host :
    effective_host plain (new_resolver plain config) draft_request
    ≡ preview_subdomain blog draft ++ (codes "." ++ config.base_domain)
unfolding preview_subdomain effective_host bytes_eq new_resolver
draft_host = refl

-- A reserved word, a second separator and a foreign host are refused.
www_refused :
    resolve plain (new_resolver plain config) (record draft_request { host = codes "www.ko.to" })
    ≡ err (fail 404 "not_project_host" "reserved handle")
unfolding resolve lower_strip_port lower_trim effective_host new_resolver last_index_byte
    classify_host bytes_eq effective_base has_suffix contains resolve_project_label validate_handle
    label_re mem
www_refused = refl

-- Upper case, a port and a trusted proxy's header are seen through.
forwarded_resolves :
    resolve plain
      (new_resolver plain forwarding)
      (record draft_request { forwarded_host = codes "Blog.KO.to:8080, 10.0.0.1" })
    ≡ ok (branch_target blog published)
unfolding resolve lower_strip_port lower_trim effective_host new_resolver first_host_token
    index_byte last_index_byte classify_host bytes_eq effective_base has_suffix contains
    resolve_project_label validate_handle label_re mem
forwarded_resolves = refl

created_branch-resolves_example :
    ((length (preview_subdomain blog draft) ≤ 63)
      × (resolve plain (new_resolver plain config) draft_request ≡ ok (branch_target blog draft)))
    ⊎ ((63 < length (preview_subdomain blog draft))
        × (resolve plain (new_resolver plain config) draft_request ≡ err label_too_long))
created_branch-resolves_example =
    created_branch-resolves plain config draft_request blog draft config-IsStatic blog_created
      draft_created label-ne-control draft_host

resolve_sound_example :
    (draft_target ≡ control_target)
    ⊎ (IsProject draft_target
        × (lower_strip_port plain (effective_host plain (new_resolver plain config) draft_request)
            ≡ host_label draft_target
              ++ (effective_base plain (new_resolver plain config) draft_request).1))
resolve_sound_example = resolve_sound plain config draft_request draft_resolves
