-- ===== src/Tests/Serving.antt =====
-- A site with two files, and a request under its former handle.
use kotoji.Prelude.{
  if◌then◌else◌, length, All, Result, ok, err, ok-injective, ◌≤◌, ◌≡◌, refl, sym, subst, ◌≢◌, inr,
  Bool, true, false, ◌&&◌, ◌||◌, none, some, [], ◌∷◌, arith,
}
use kotoji.Label.{label_re}
use kotoji.Location.{
  host_suffix_for_redirect, request_scheme, redirect_renamed_handle, ServeRequest, redirect_host,
}
use kotoji.Location.Former.{redirect_renamed_handle_lem, LeadsTo}
use kotoji.Preview.{Effect, PreviewRequest, bearer_token, authorize}
use kotoji.Preview.Handoff.{Allowed}
use kotoji.Resolve.{first_host_token}
use kotoji.Resolve.Sound.{IsProject, host_label}
use kotoji.Serve.{
  write_content, missing, clean_request_path, serve_http, index_file, file, TreeHandle,
  plain_answer, resolve_target, TreeError, nothing, regular, Answer, serve_project, error_page,
  endless, serve_file, get, in_site, site_not_found_file,
}
use kotoji.Serve.Cleaning.{IsEntryName, clean_request_path_sound}
use kotoji.Serve.Fallback.{IsBroken404, serve_file_endless, serve_http_ends, IsReadable404}
use kotoji.Serve.Gate.{IsFile, preview_shown}
use kotoji.Site.Handle.{validate_new_handle, preview_subdomain}
use kotoji.Site.Naming.{branch_target, branch_target-IsProject}
use kotoji.Site.Paths.{join, ext_after, segments}
use kotoji.Tests.{plain, draft}
use kotoji.Tests.Previews.{folding, with_token, bearing, bare, noon, our_site}
use kotoji.Tests.Routing.{config-IsStatic, config, draft_target, draft-IsProject, draft_created}
use kotoji.Text.{
  trim_space, index_byte, mem, bytes_eq, lower_trim, has_suffix, contains, Bytes, codes, to_lower,
}
use kotoji.Trees.{
  cached_or_read, after_calls, entry_of, new_caching_tree_provider, CachingTreeProvider, store_tree,
  store_entry, cached_tree, TreeCall, evict_if_needed,
}
use kotoji.Trees.History.{after_calls_bounded, after_calls-IsFresh, IsFresh}

abbrev index_body : Bytes
index_body = codes "<html>"

-- The root's page and the page for what is missing; `readable` is whether the second can be opened.
abbrev two_files : Bool → TreeHandle
two_files readable = record {
  stat = λ name.
      if bytes_eq name index_file || bytes_eq name site_not_found_file then some regular else none;
  read = λ name.
      if bytes_eq name index_file || readable && bytes_eq name site_not_found_file
      then some index_body
      else none;
  site_id = our_site;
}

abbrev asked : ServeRequest
asked = record {
  path = codes "/../";
  raw_query = codes "x=1";
  host = codes "blog--draft.ko.to:80";
  forwarded_host = [];
  forwarded_proto = [];
  has_tls = true;
}

abbrev preview_answer : TreeHandle → PreviewRequest → Answer
preview_answer tree p =
    serve_http 3 404 plain (λ t. ok tree)
      (λ site branch. authorize folding with_token noon site branch p) true get (ok draft_target)
      asked

two_files-readable : IsReadable404 (two_files true)
unfolding bytes_eq
two_files-readable = inr (index_body, refl)

two_files-broken : IsBroken404 (two_files false)
unfolding bytes_eq
two_files-broken = (refl, refl)

serve_http_ends_example : (preview_answer (two_files true) bearing).reply ≢ endless
serve_http_ends_example =
    serve_http_ends 404 plain (λ t. ok (two_files true))
      (λ site branch. authorize folding with_token noon site branch bearing) asked true get
      (ok draft_target)
      (λ t tree e. subst IsReadable404 (ok-injective (two_files true) tree e) two_files-readable)

preview_answered :
    (preview_answer (two_files true) bearing).reply ≡ file 200 index_file index_body false
unfolding serve_http serve_project bytes_eq authorize bearer_token trim_space serve_file
    clean_request_path index_byte segments resolve_target write_content mem to_lower ext_after
preview_answered = refl

-- A preview without a grant is not there.
preview_hidden : preview_answer (two_files true) bare ≡ plain_answer (error_page 404)
unfolding serve_http serve_project bytes_eq authorize bearer_token
preview_hidden = refl

preview_shown_example :
    (tree : TreeHandle) × (eff : Effect) × (Path
      (Result TreeError TreeHandle)
      (ok (two_files true))
      (ok tree))
    × Allowed folding with_token noon tree.site_id draft bearing eff
unfolding bytes_eq
preview_shown_example =
    preview_shown 3 404 plain (λ t. ok (two_files true)) folding with_token noon bearing asked true
      get draft_target refl (subst IsFile (sym preview_answered) tt)

missing_path :
    clean_request_path (codes "/a/../b/")
    ≡ some (record { elements = codes "b" ∷ []; trailing = true })
unfolding clean_request_path index_byte segments bytes_eq has_suffix
missing_path = refl

clean_request_path_sound_example :
    (index_byte (codes "/a/../b/") 0 ≡ none) × All IsEntryName (codes "b" ∷ [])
clean_request_path_sound_example = clean_request_path_sound (codes "/a/../b/") _ missing_path

missing_asked :
    clean_request_path (in_site draft_target (record asked { path = codes "/a/../b/" }))
    ≡ some (record { elements = codes "b" ∷ []; trailing = true })
missing_asked = missing_path

missing_located :
    resolve_target (two_files false) (record { elements = codes "b" ∷ []; trailing = true })
    ≡ nothing
unfolding resolve_target bytes_eq join
missing_located = refl

serve_file_endless_example :
    serve_file 1000 plain draft_target (record asked { path = codes "/a/../b/" }) (two_files false)
    ≡ endless
serve_file_endless_example =
    serve_file_endless plain draft_target (record asked { path = codes "/a/../b/" })
      (two_files false) 1000 _ two_files-broken missing_asked missing_located

abbrev diary : Bytes
diary = codes "diary"

diary_created : validate_new_handle plain diary ≡ none
unfolding validate_new_handle bytes_eq to_lower contains label_re mem
diary_created = refl

diary-IsProject :
    IsProject (branch_target diary draft)
    × (host_label (branch_target diary draft) ≡ preview_subdomain diary draft)
unfolding preview_subdomain bytes_eq
diary-IsProject =
    branch_target-IsProject plain diary draft diary_created draft_created (omega arith)

diary-ne-control : host_label (branch_target diary draft) ≢ lower_trim plain config.control_label
unfolding lower_trim
diary-ne-control e = ground arith

sent_on :
    redirect_renamed_handle plain draft_target asked diary
    ≡ codes "https://diary--draft.ko.to:80/../?x=1"
unfolding redirect_renamed_handle request_scheme bytes_eq host_suffix_for_redirect index_byte
sent_on = refl

-- The same behind a proxy.
abbrev proxied : ServeRequest
proxied = record asked {
  host = codes "10.0.0.7:8080";
  forwarded_host = codes "blog--draft.ko.to:80, edge";
}

redirect_renamed_handle_lem_example :
    LeadsTo plain config proxied
      (redirect_renamed_handle plain draft_target proxied diary)
      draft_target
      (branch_target diary draft)
unfolding bytes_eq redirect_host first_host_token trim_space index_byte
redirect_renamed_handle_lem_example =
    redirect_renamed_handle_lem plain config draft_target proxied diary config-IsStatic
      draft-IsProject.0 diary-IsProject.0 diary-ne-control (inr (codes "80", ground arith, refl))

-- A preview that is read, and asked for again while the inner provider fails.
abbrev first_call : TreeCall
first_call = record {
  target = draft_target;
  now = 10;
  used = 10;
  stored = 12;
  inner = ok (two_files true);
}

abbrev second_call : TreeCall
second_call = record first_call { now = 16; used = 17; inner = err missing }

abbrev one_tree : CachingTreeProvider
one_tree = new_caching_tree_provider 5 1

second_hits :
    (cached_or_read (after_calls one_tree (first_call ∷ [])) second_call).1 ≡ ok (two_files true)
unfolding cached_or_read bytes_eq after_calls cached_tree entry_of store_tree evict_if_needed
    store_entry
second_hits = refl

after_calls-IsFresh_example : IsFresh 5 (first_call ∷ []) second_call (two_files true)
after_calls-IsFresh_example =
    after_calls-IsFresh 5 1 (first_call ∷ []) second_call (two_files true) second_hits

after_calls_bounded_example :
    length (after_calls one_tree (second_call ∷ first_call ∷ [])).entries ≤ 1
after_calls_bounded_example = after_calls_bounded 5 1 (second_call ∷ first_call ∷ [])
