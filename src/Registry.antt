-- ===== src/Registry.antt =====
-- The handles of sites: backend/internal/site/git_service.go (`CreateSite`, `RenameHandle`, `DeleteSite`,
-- `GetSiteByHandle` and the lookup of `ResolveForServing`) over the tables `sites` and
-- `handle_redirects` of backend/internal/db, as their queries read and write them.
pub mod Following
pub mod Renaming
pub mod Consistency
pub mod Creating
pub mod Deleting
use kotoji.Prelude.{
  if◌then◌else◌, Result, ok, err, String, Bool, true, false, ◌&&◌, ◌||◌, not, Option, none, some,
}
use kotoji.Action.{then}
use kotoji.Site.Handle.{validate_new_handle, HandleError}
use kotoji.Table.{update, delete, Table}
use kotoji.Text.{to_lower, Bytes, Unicode, bytes_eq, is_some}

pub data RegistryError : Type 0 where
  refused : HandleError → RegistryError
  handle_taken not_found : RegistryError
  store_error : String → RegistryError

-- A row of `sites`, found by its handle.
pub record Row : Type 0 where
  pub id : Bytes
  pub deleted : Bool

-- The table `sites` by each of its two unique columns, `handle` and `id`, and the redirects by the former
-- handle. `reserved` is the table of reserved words.
pub record Registry : Type 0 where
  pub rows : Table Row
  pub handles : Table Bytes
  pub redirects : Table Bytes
  pub reserved : Bytes → Bool

-- What goes wrong in the store during one call.
pub record Faults : Type 0 where
  pub load_error : Option String
  pub check_error : Option String
  pub redirect_error : Option String
  pub write_error : Option String
  pub init_error : Option RegistryError
  pub soft_delete_error : Option String

abbrev pub live_id : Option Row → Option Bytes
live_id none = none
live_id (some row) = if row.deleted then none else some row.id

-- `GetSiteByHandle`.
abbrev pub get_by_handle : Registry → Bytes → Option Bytes
get_by_handle r h = live_id (r.rows h)

abbrev pub row_of : Registry → Option Bytes → Option Row
row_of r none = none
row_of r (some h) = r.rows h

-- `GetSiteByID`.
abbrev pub get_by_id : Registry → Bytes → Option Row
get_by_id r id = row_of r (r.handles id)

abbrev pub target_id : Registry → Option Bytes → Option Bytes
target_id r none = none
target_id r (some id) = live_id (get_by_id r id)

-- `GetSiteByRedirect`.
abbrev pub get_by_redirect : Registry → Bytes → Option Bytes
get_by_redirect r h = target_id r (r.redirects h)

abbrev pub or_redirect : Option Bytes → Option Bytes → Option Bytes
or_redirect none o = o
or_redirect (some id) o = some id

-- The site that `ResolveForServing` finds for a handle.
unfoldable pub lookup : Registry → Bytes → Option Bytes
lookup r h = or_redirect (get_by_handle r h) (get_by_redirect r h)

-- `HandleIsTaken`.
abbrev pub handle_is_taken : Registry → Bytes → Bool
handle_is_taken r h = is_some (get_by_handle r h) || is_some (r.redirects h) || r.reserved h

abbrev pub same_id : Option Bytes → Bytes → Bool
same_id none id = false
same_id (some i) id = bytes_eq i id

-- `isOwnRedirect`.
abbrev pub is_own_redirect : Faults → Registry → Bytes → Bytes → Bool
is_own_redirect f r id h = not (is_some f.redirect_error) && same_id (get_by_redirect r h) id

-- `DeleteRedirect`, `InsertRedirect` and `RenameHandle` in one transaction.
abbrev pub moved : Registry → Bytes → Bytes → Bytes → Registry
moved r id old new = record r {
  rows = update (delete r.rows old) new (record { id = id; deleted = false });
  handles = update (delete r.handles id) id new;
  redirects =
      update (if same_id (r.redirects new) id then delete r.redirects new else r.redirects) old id;
}

abbrev pub Outcome : Type 0
Outcome = Result RegistryError Bytes × Registry

-- `RenameHandleWithRedirect`; a handle that any row has violates the unique column.
abbrev pub rename_with_redirect : Faults → Registry → Bytes → Bytes → Bytes → Outcome
rename_with_redirect f r id old new =
    if is_some (r.rows new) then (err handle_taken, r) else elim f.write_error [
      | none ↦ (ok new, moved r id old new)
      | some e ↦ (err (store_error e), r)
    ]

abbrev pub rename_checked : Faults → Registry → Bytes → Bytes → Bytes → Outcome
rename_checked f r id old new = if bytes_eq new old then (ok old, r) else elim f.check_error [
  | some e ↦ (err (store_error e), r)
  | none ↦
      if handle_is_taken r new && not (is_own_redirect f r id new)
      then (err handle_taken, r)
      else rename_with_redirect f r id old new
]

abbrev pub is_live_row : Option Row → Bool
is_live_row none = false
is_live_row (some row) = not row.deleted

abbrev pub rename_found : Faults → Registry → Bytes → Option Bytes → Bytes → Outcome
rename_found f r id none new = (err not_found, r)
rename_found f r id (some old) new =
    if is_live_row (r.rows old) then rename_checked f r id old new else (err not_found, r)

abbrev pub loaded :
    {A : Type 0}
    → Option String
    → Registry
    → Result RegistryError A × Registry
    → Result RegistryError A × Registry
loaded none r next = next
loaded (some e) r next = (err (store_error e), r)

abbrev pub accepted :
    {A : Type 0}
    → Option HandleError
    → Registry
    → Result RegistryError A × Registry
    → Result RegistryError A × Registry
accepted none r next = next
accepted (some e) r next = (err (refused e), r)

-- `RenameHandle`, with the site's handle as its result.
unfoldable pub rename_handle : Unicode → Faults → Registry → Bytes → Bytes → Outcome
rename_handle u f r id new =
    accepted (validate_new_handle u new) r
      (loaded f.load_error r (rename_found f r id (r.handles id) (to_lower u new)))

abbrev pub row_for : Bytes → Row
row_for id = record { id = id; deleted = false }

-- `CreateSiteWithOwner`, for an id that the database has made.
abbrev pub inserted : Registry → Bytes → Bytes → Registry
inserted r id h = record r { rows = update r.rows h (row_for id); handles = update r.handles id h }

-- `SoftDeleteSite`.
abbrev pub soft_deleted : Registry → Bytes → Bytes → Registry
soft_deleted r id h = record r { rows = update r.rows h (record { id = id; deleted = true }) }

-- The row is taken back; when that fails as well, nobody is told, and the row stays.
abbrev pub compensated : Option String → Registry → Bytes → Bytes → Registry
compensated none r id h = soft_deleted r id h
compensated (some e) r id h = r

-- A failure of `initRepo`.
abbrev pub create_init : Faults → Registry → Bytes → Bytes → Outcome
create_init f r id h = elim f.init_error [
  | none ↦ (ok id, inserted r id h)
  | some e ↦ (err e, compensated f.soft_delete_error (inserted r id h) id h)
]

abbrev pub create_row : Faults → Registry → Bytes → Bytes → Outcome
create_row f r id h =
    if is_some (r.rows h)
    then (err handle_taken, r)
    else elim f.write_error [ some e ↦ (err (store_error e), r) | none ↦ create_init f r id h ]

abbrev pub create_checked : Faults → Registry → Bytes → Bytes → Outcome
create_checked f r id h = elim f.check_error [
  | some e ↦ (err (store_error e), r)
  | none ↦ if handle_is_taken r h then (err handle_taken, r) else create_row f r id h
]

-- `CreateSite` without a mirror, with the new site's id as its result.
unfoldable pub create_site : Unicode → Faults → Registry → Bytes → Bytes → Outcome
create_site u f r id h = accepted (validate_new_handle u h) r (create_checked f r id (to_lower u h))

abbrev pub delete_row : Option String → Registry → Bytes → Bytes → Outcome
delete_row none r id h = (ok id, soft_deleted r id h)
delete_row (some e) r id h = (err (store_error e), r)

abbrev pub delete_found : Faults → Registry → Bytes → Option Bytes → Outcome
delete_found f r id none = (err not_found, r)
delete_found f r id (some h) =
    if is_live_row (r.rows h) then delete_row f.write_error r id h else (err not_found, r)

-- `DeleteSite`.
unfoldable pub delete_site : Faults → Registry → Bytes → Outcome
delete_site f r id = loaded f.load_error r (delete_found f r id (r.handles id))
