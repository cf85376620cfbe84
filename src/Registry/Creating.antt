-- ===== src/Registry/Creating.antt =====
-- `CreateSite` as a change of what the handles lead to.
use kotoji.Prelude.{
  if◌then◌else◌, ok, err, String, ◌≡◌, refl, sym, ap, ◌∙◌, subst, ◌≢◌, ◌⊎◌, inl, inr, Bool, true,
  false, ◌||◌, Option, none, some, arith,
}
use kotoji.Registry.{
  handle_taken, store_error, get_by_redirect, row_for, create_init, create_row, or_redirect,
  soft_deleted, create_checked, Faults, compensated, create_site, get_by_id, Registry, live_id,
  accepted, target_id, Row, lookup, get_by_handle, RegistryError, inserted, Outcome,
  handle_is_taken, row_of,
}
use kotoji.Registry.Consistency.{inserted-IsConsistent, replaced-IsConsistent, none-some, by_key}
use kotoji.Registry.Following.{IsConsistent, update-same, update-other}
use kotoji.Site.Handle.{HandleError, validate_new_handle}
use kotoji.Text.{is_some, Unicode, to_lower, Bytes, bytes_eq}

module _ (r : Registry) (c : IsConsistent r) (id l : Bytes) (fresh : r.handles id ≡ none)
    (free : r.rows l ≡ none) (unredirected : r.redirects l ≡ none) where
  -- No other site changes its row.
  target-kept :
      (r' : Registry) (i : Bytes)
      → ((j : Bytes) → id ≢ j → r'.handles j ≡ r.handles j)
      → ((h : Bytes) → l ≢ h → r'.rows h ≡ r.rows h)
      → id ≢ i
      → live_id (get_by_id r' i) ≡ live_id (get_by_id r i)
  target-kept r' i handles rows ne =
      ap (λ o. live_id (row_of r' o)) (handles i ne) ∙ on (r.handles i) refl
    where
      on : (o : Option Bytes) → r.handles i ≡ o → live_id (row_of r' o) ≡ live_id (row_of r o)
      on none e = refl
      on (some h) e =
          let (row, at, same) = c.handle_row i h e in
          ap live_id (rows h (λ q. none-some row (sym free ∙ ap r.rows q ∙ at)))

  module _ (unused : (h : Bytes) → r.redirects h ≢ some id) where
    -- A change that only concerns the new site, by what its own handle leads to.
    lookup-kept :
        (r' : Registry) (h : Bytes)
        → ((j : Bytes) → id ≢ j → r'.handles j ≡ r.handles j)
        → ((k : Bytes) → l ≢ k → r'.rows k ≡ r.rows k)
        → r'.redirects h ≡ r.redirects h
        → l ≢ h
        → lookup r' h ≡ lookup r h
    unfolding lookup
    lookup-kept r' h handles rows same ne =
        ap (λ o. or_redirect (live_id o) (get_by_redirect r' h)) (rows h ne)
        ∙ ap (or_redirect (live_id (r.rows h)))
            (ap (target_id r') same ∙ target (r.redirects h) refl)
      where
        target : (o : Option Bytes) → r.redirects h ≡ o → target_id r' o ≡ target_id r o
        target none e = refl
        target (some i) e = target-kept r' i handles rows (λ q. unused h (e ∙ ap some (sym q)))

    before : lookup r l ≡ none
    unfolding lookup
    before =
        ap (λ o. or_redirect (live_id o) (get_by_redirect r l)) free ∙ ap (target_id r) unredirected

    lookup-inserted :
        (h : Bytes) → lookup (inserted r id l) h ≡ (if bytes_eq l h then some id else lookup r h)
    unfolding lookup
    lookup-inserted h =
        by_key l h
          (λ same e.
            subst (λ k. lookup (inserted r id l) k ≡ some id) same
              (ap (λ o. or_redirect (live_id o) (get_by_redirect (inserted r id l) l))
                (update-same r.rows l (row_for id)))
            ∙ ap (λ b. if b then some id else lookup r h) (sym e))
          (λ ne e.
            lookup-kept (inserted r id l) h (λ j q. update-other r.handles id l j q)
              (λ k q. update-other r.rows l (row_for id) k q) refl ne
            ∙ ap (λ b. if b then some id else lookup r h) (sym e))

    abbrev dead : Row
    dead = record { id = id; deleted = true }

    abbrev taken_back : Registry
    taken_back = soft_deleted (inserted r id l) id l

    lookup-taken_back : (h : Bytes) → lookup taken_back h ≡ lookup r h
    unfolding lookup
    lookup-taken_back h =
        by_key l h
          (λ same _.
            subst (λ k. lookup taken_back k ≡ lookup r k) same
              (ap (λ o. or_redirect (live_id o) (get_by_redirect taken_back l))
                  (update-same (inserted r id l).rows l dead)
                ∙ ap (target_id taken_back) unredirected
                ∙ sym before))
          (λ ne _.
            lookup-kept taken_back h (λ j q. update-other r.handles id l j q)
              (λ k q.
                update-other (inserted r id l).rows l dead k q
                ∙ update-other r.rows l (row_for id) k q)
              refl ne)

    taken_back-IsConsistent : IsConsistent taken_back
    taken_back-IsConsistent =
        replaced-IsConsistent (inserted r id l) l (row_for id) dead
          (inserted-IsConsistent r id l c free fresh unredirected)
          (update-same r.rows l (row_for id)) refl

module _ (u : Unicode) (f : Faults) (r : Registry) (c : IsConsistent r) (id h : Bytes)
    (fresh : r.handles id ≡ none) (unused : (k : Bytes) → r.redirects k ≢ some id) where
  -- The handle leads to the new site, and every other one where it led.
  abbrev pub IsNew : Registry → Type 0
  IsNew r' = (k : Bytes) → lookup r' k ≡ (if bytes_eq (to_lower u h) k then some id else lookup r k)

  -- The repository could not be made, and the row could not be taken back.
  abbrev pub IsLeft : Type 0
  IsLeft =
      ((e : RegistryError) × (f.init_error ≡ some e))
      × ((x : String) × (f.soft_delete_error ≡ some x))

  -- The outcome of a creation.
  abbrev pub Added : Outcome → Type 0
  Added (ok i, r') = (i ≡ id) × IsNew r' × IsConsistent r'
  Added (err e, r') =
      (((k : Bytes) → lookup r' k ≡ lookup r k) ⊎ (IsLeft × IsNew r')) × IsConsistent r'

  abbrev l : Bytes
  l = to_lower u h

  inited :
      (free : r.rows l ≡ none)
      → r.redirects l ≡ none
      → (o : Option RegistryError) (d : Option String) → f.init_error ≡ o
      → f.soft_delete_error ≡ d
      → Added (elim o [
        | none ↦ (ok id, inserted r id l)
        | some e ↦ (err e, compensated d (inserted r id l) id l)
      ])
  inited free unredirected none d i j = (
    refl,
    lookup-inserted r c id l fresh free unredirected unused,
    inserted-IsConsistent r id l c free fresh unredirected,
  )
  inited free unredirected (some e) none i j = (
    inl (lookup-taken_back r c id l fresh free unredirected unused),
    taken_back-IsConsistent r c id l fresh free unredirected unused,
  )
  inited free unredirected (some e) (some x) i j = (
    inr (((e, i), (x, j)), lookup-inserted r c id l fresh free unredirected unused),
    inserted-IsConsistent r id l c free fresh unredirected,
  )

  same : (((k : Bytes) → lookup r k ≡ lookup r k) ⊎ (IsLeft × IsNew r)) × IsConsistent r
  same = (inl (λ k. refl), c)

  written :
      r.redirects l ≡ none
      → (w : Option String) (b : Bool) → is_some (r.rows l) ≡ b
      → Added (
          if b
          then (err handle_taken, r)
          else elim w [ some e ↦ (err (store_error e), r) | none ↦ create_init f r id l ])
  written unredirected w true e = same
  written unredirected (some x) false e = same
  written unredirected none false e =
      inited (absent (r.rows l) e) unredirected f.init_error f.soft_delete_error refl refl
    where
      absent : (o : Option Row) → is_some o ≡ false → o ≡ none
      absent none e = refl
      absent (some x) e = ground arith

  checked :
      (w : Option String) (b : Bool)
      → handle_is_taken r l ≡ b
      → Added (elim w [
        | some e ↦ (err (store_error e), r)
        | none ↦ if b then (err handle_taken, r) else create_row f r id l
      ])
  checked (some x) b e = same
  checked none true e = same
  checked none false e =
      written (unredirected (r.redirects l) e) f.write_error (is_some (r.rows l)) refl
    where
      unredirected :
          (o : Option Bytes)
          → (is_some (get_by_handle r l) || is_some o || r.reserved l) ≡ false
          → o ≡ none
      unredirected none e = refl
      unredirected (some x) e = ground arith

  -- A site that is created is found by its handle, and every other handle leads where it led. When the
  -- creation fails, no handle leads elsewhere, unless it is the repository that could not be made and
  -- the row could not be taken back either: then the handle leads to the site that failed. The tables
  -- are consistent before and after, and the id is one that no row and no redirect has.
  pub create_site_lem : Added (create_site u f r id h)
  unfolding create_site
  create_site_lem = gate (validate_new_handle u h)
    where
      gate : (g : Option HandleError) → Added (accepted g r (create_checked f r id l))
      gate (some e) = same
      gate none = checked f.check_error (handle_is_taken r l) refl
