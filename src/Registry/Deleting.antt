-- ===== src/Registry/Deleting.antt =====
-- `DeleteSite`, and the handle that a deleted site still has.
use kotoji.Prelude.{
  if◌then◌else◌, ok, err, String, ◌≡◌, refl, sym, ◌≢◌, Bool, true, false, Option, none, some, arith,
}
use kotoji.Registry.{
  not_found, delete_found, delete_row, delete_site, is_live_row, Faults, Registry, Row, loaded,
  create_site,
}
use kotoji.Registry.Consistency.{replaced-IsConsistent}
use kotoji.Registry.Following.{IsConsistent}
use kotoji.Text.{to_lower, Unicode, Bytes}

module _ (f : Faults) (r : Registry) (c : IsConsistent r) (id : Bytes) where
  -- Whatever a deletion ends with, the tables are consistent.
  pub delete_site-IsConsistent : IsConsistent (delete_site f r id).1
  unfolding delete_site
  delete_site-IsConsistent = load f.load_error
    where
      write :
          (h : Bytes) (row : Row)
          → r.rows h ≡ some row
          → row.id ≡ id
          → (w : Option String) → IsConsistent (delete_row w r id h).1
      write h row at same (some e) = c
      write h row at same none =
          replaced-IsConsistent r h row (record { id = id; deleted = true }) c at (sym same)

      live :
          (h : Bytes) (row : Row)
          → r.rows h ≡ some row
          → row.id ≡ id
          → (b : Bool)
          → IsConsistent (if b then delete_row f.write_error r id h else (err not_found, r)).1
      live h row at same true = write h row at same f.write_error
      live h row at same false = c

      found : (o : Option Bytes) → r.handles id ≡ o → IsConsistent (delete_found f r id o).1
      found none e = c
      found (some h) e =
          let (row, at, same) = c.handle_row id h e in live h row at same (is_live_row (r.rows h))

      load : (l : Option String) → IsConsistent (loaded l r (delete_found f r id (r.handles id))).1
      load (some e) = c
      load none = found (r.handles id) refl

-- A handle that a row has, a deleted one too, is not given to another site.
pub create_site-occupied :
    (u : Unicode) (f : Faults) (r : Registry) (id h i : Bytes) (row : Row)
    → r.rows (to_lower u h) ≡ some row
    → (create_site u f r id h).0 ≢ ok i
unfolding create_site
create_site-occupied u f r id h i row at = ground arith
