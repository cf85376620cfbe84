-- ===== src/Registry/Renaming.antt =====
-- `RenameHandle` as a change of what the handles lead to.
use kotoji.Prelude.{
  if◌then◌else◌, Result, ok, err, String, ◌≡◌, refl, sym, ap, ◌∙◌, subst, ◌≢◌, Bool, true, false,
  ◌&&◌, not, Option, none, some, arith,
}
use kotoji.Registry.{
  not_found, store_error, handle_taken, RegistryError, loaded, is_own_redirect,
  rename_with_redirect, same_id, is_live_row, Faults, rename_checked, handle_is_taken, lookup,
  Registry, Row, accepted, moved, rename_found, rename_handle,
}
use kotoji.Registry.Consistency.{moved-IsConsistent, unclaimed}
use kotoji.Registry.Following.{IsConsistent, lookup-moved, was_found}
use kotoji.Site.Handle.{validate_new_handle, HandleError}
use kotoji.Table.{delete}
use kotoji.Text.{is_some, Bytes, bytes_eq, Unicode, to_lower}
use kotoji.Text.Laws.{bytes_eq_iff, bytes_eq-false}

module _ (u : Unicode) (f : Faults) (r : Registry) (c : IsConsistent r) (id new : Bytes) where
  abbrev lowered : Bytes
  lowered = to_lower u new

  -- The new handle leads to the site, and every other handle to where it led.
  abbrev pub Renamed : Bytes → Registry → Type 0
  Renamed n r' =
      (n ≡ lowered) × ((h : Bytes) → lookup r' h ≡ (if bytes_eq n h then some id else lookup r h))

  -- What the check before the rename asks.
  abbrev taken_by_other : Bool
  taken_by_other = handle_is_taken r lowered && not (is_own_redirect f r id lowered)

  abbrev Unclaimed : Type 0
  Unclaimed =
      (if same_id (r.redirects lowered) id then delete r.redirects lowered else r.redirects) lowered
      ≡ none

  -- The outcome of a rename.
  abbrev pub Good : Result RegistryError Bytes × Registry → Type 0
  Good (ok n, r') = Renamed n r' × IsConsistent r'
  Good (err e, r') = r' ≡ r

  module _ (old : Bytes) (has : r.handles id ≡ some old) (row : Row) (at : r.rows old ≡ some row)
      (alive : row.deleted ≡ false) where
    unmoved : old ≡ lowered → Renamed old r
    unmoved same = (same, λ h. led h (bytes_eq old h) refl)
      where
        led :
            (h : Bytes) (b : Bool)
            → bytes_eq old h ≡ b
            → lookup r h ≡ (if b then some id else lookup r h)
        led h true e =
            subst (λ k. lookup r k ≡ some id) ((bytes_eq_iff old h).0 e)
              (was_found r c id old has row at alive)
        led h false e = refl

    written :
        (differ : old ≢ lowered)
        → Unclaimed
        → (w : Option String) (b : Bool) → is_some (r.rows lowered) ≡ b
        → Good (
            if b then (err handle_taken, r) else elim w [
              | none ↦ (ok lowered, moved r id old lowered)
              | some e ↦ (err (store_error e), r)
            ])
    written differ fr w true e = refl
    written differ fr (some x) false e = refl
    written differ fr none false e = (
      (refl, lookup-moved r c id old has row at alive lowered differ (vacant (r.rows lowered) e)),
      moved-IsConsistent r id old lowered c differ has (vacant (r.rows lowered) e) fr,
    )
      where
        vacant : (o : Option Row) → is_some o ≡ false → o ≡ none
        vacant none e = refl
        vacant (some x) e = ground arith

    checked :
        (differ : old ≢ lowered) (w : Option String) (b : Bool)
        → taken_by_other ≡ b
        → Good (elim w [
          | some e ↦ (err (store_error e), r)
          | none ↦ if b then (err handle_taken, r) else rename_with_redirect f r id old lowered
        ])
    checked differ (some x) b k = refl
    checked differ none true k = refl
    checked differ none false k =
        written differ (unclaimed r c f id lowered k) f.write_error (is_some (r.rows lowered)) refl

    compared :
        (b : Bool)
        → bytes_eq lowered old ≡ b
        → Good (
            if b then (ok old, r) else elim f.check_error [
              | some e ↦ (err (store_error e), r)
              | none ↦
                  if handle_is_taken r lowered && not (is_own_redirect f r id lowered)
                  then (err handle_taken, r)
                  else rename_with_redirect f r id old lowered
            ])
    compared true e = (unmoved (sym ((bytes_eq_iff lowered old).0 e)), c)
    compared false e =
        checked (λ k. bytes_eq-false lowered old e (sym k)) f.check_error taken_by_other refl

  found : (o : Option Bytes) → r.handles id ≡ o → Good (rename_found f r id o lowered)
  found none e = refl
  found (some old) e = alive (is_live_row (r.rows old)) refl
    where
      alive :
          (b : Bool)
          → is_live_row (r.rows old) ≡ b
          → Good (if b then rename_checked f r id old lowered else (err not_found, r))
      alive false k = refl
      alive true k =
          let (row, at, same) = c.handle_row id old e in
          compared old e row at (not-deleted row (ap is_live_row (sym at) ∙ k))
            (bytes_eq lowered old) refl
        where
          not-deleted : (x : Row) → not x.deleted ≡ true → x.deleted ≡ false
          not-deleted x k = ground arith

  gates :
      (g : Option HandleError) (l : Option String)
      → Good (accepted g r (loaded l r (rename_found f r id (r.handles id) lowered)))
  gates (some e) l = refl
  gates none (some e) = refl
  gates none none = found (r.handles id) refl

  -- A rename that succeeds adds the new handle to those that lead to the site, and takes none away: the
  -- old handle and every earlier one still lead where they led. The tables stay consistent, so that a
  -- handle of a row is never a redirect too. A rename that fails changes nothing.
  pub rename_handle_lem : Good (rename_handle u f r id new)
  unfolding rename_handle
  rename_handle_lem = gates (validate_new_handle u new) f.load_error
