-- ===== src/Tests/Handles.antt =====
-- A registry with one site, which is renamed.
use kotoji.Prelude.{ok, ◌≡◌, refl, ◌≢◌, false, none, some, [], ◌∷◌, arith}
use kotoji.Label.{label_re}
use kotoji.Registry.{Faults, Registry, lookup, rename_handle, create_site, inserted}
use kotoji.Registry.Consistency.{inserted-IsConsistent}
use kotoji.Registry.Creating.{Added, create_site_lem}
use kotoji.Registry.Following.{IsConsistent}
use kotoji.Registry.Renaming.{rename_handle_lem, Good}
use kotoji.Site.Handle.{validate_new_handle}
use kotoji.Table.{empty}
use kotoji.Tests.{plain, blog}
use kotoji.Text.{Bytes, contains, to_lower, bytes_eq, mem, codes}

abbrev one : Bytes
one = 1 ∷ []

abbrev empty_registry : Registry
empty_registry = record { rows = empty; handles = empty; redirects = empty; reserved = λ h. false }

abbrev registry : Registry
registry = inserted empty_registry one blog

abbrev no_faults : Faults
no_faults = record {
  load_error = none;
  check_error = none;
  redirect_error = none;
  write_error = none;
  init_error = none;
  soft_delete_error = none;
}

nothing : {A : Type 0} (a : A) → none ≢ some a
nothing a e = ground arith

empty_registry-IsConsistent : IsConsistent empty_registry
empty_registry-IsConsistent = record {
  row_handle = λ h row e. elim (nothing row e) [ ];
  handle_row = λ id h e. elim (nothing h e) [ ];
  row_redirect = λ h row e. refl;
}

registry-IsConsistent : IsConsistent registry
registry-IsConsistent =
    inserted-IsConsistent empty_registry one blog empty_registry-IsConsistent refl refl refl

abbrev journal : Bytes
journal = codes "journal"

blog_renamed : (rename_handle plain no_faults registry one journal).0 ≡ ok journal
unfolding rename_handle validate_new_handle bytes_eq to_lower contains label_re mem
blog_renamed = refl

-- The old handle leads on.
blog_followed : lookup (rename_handle plain no_faults registry one journal).1 blog ≡ some one
unfolding rename_handle lookup validate_new_handle bytes_eq to_lower contains label_re mem
blog_followed = refl

rename_handle_lem_example :
    Good plain no_faults registry registry-IsConsistent one journal
      (rename_handle plain no_faults registry one journal)
rename_handle_lem_example =
    rename_handle_lem plain no_faults registry registry-IsConsistent one journal

abbrev two : Bytes
two = 2 ∷ []

two_fresh : registry.handles two ≡ none
unfolding bytes_eq
two_fresh = refl

two_unused : (k : Bytes) → registry.redirects k ≢ some two
two_unused k = nothing two

create_site_lem_example :
    Added plain no_faults registry registry-IsConsistent two journal two_fresh two_unused
      (create_site plain no_faults registry two journal)
create_site_lem_example =
    create_site_lem plain no_faults registry registry-IsConsistent two journal two_fresh two_unused
