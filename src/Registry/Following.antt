-- ===== src/Registry/Following.antt =====
-- What the handles lead to, before and after a rename.
use kotoji.Prelude.{
  if◌then◌else◌, Bool-cases, ◌≡◌, refl, sym, ap, ◌∙◌, subst, ◌≢◌, inl, inr, Bool, true, false,
  Option, none, some, [], arith,
}
use kotoji.Registry.{
  or_redirect, Row, Registry, get_by_id, target_id, row_of, lookup, get_by_redirect, live_id, moved,
  same_id,
}
use kotoji.Table.{update, Table, delete}
use kotoji.Text.{Bytes, bytes_eq}
use kotoji.Text.Laws.{bytes_eq_iff, bytes_eq_refl, bytes_eq-false}

-- The two columns agree, and no handle of a row is redirected.
pub record IsConsistent (r : Registry) : Type 0 where
  pub row_handle : (h : Bytes) (row : Row) → r.rows h ≡ some row → r.handles row.id ≡ some h
  pub handle_row :
      (id h : Bytes) → r.handles id ≡ some h → (row : Row) × (r.rows h ≡ some row) × (row.id ≡ id)
  pub row_redirect : (h : Bytes) (row : Row) → r.rows h ≡ some row → r.redirects h ≡ none

-- Of a row, or of nothing.
abbrev pub id_or : Option Row → Bytes
id_or none = []
id_or (some x) = x.id

pub update-same : {V : Type 0} (m : Table V) (k : Bytes) (v : V) → update m k v k ≡ some v
update-same m k v = simp (bytes_eq_refl k)

pub update-other :
    {V : Type 0} (m : Table V) (k : Bytes) (v : V) (j : Bytes) → k ≢ j → update m k v j ≡ m j
update-other m k v j ne = ground (arith, bytes_eq_iff k j)

pub delete-same : {V : Type 0} (m : Table V) (k : Bytes) → delete m k k ≡ none
delete-same m k = simp (bytes_eq_refl k)

pub delete-other : {V : Type 0} (m : Table V) (k j : Bytes) → k ≢ j → delete m k j ≡ m j
delete-other m k j ne = ground (arith, bytes_eq_iff k j)

module _ (r : Registry) (c : IsConsistent r) (id old : Bytes) (has : r.handles id ≡ some old)
    (row : Row) (at : r.rows old ≡ some row) (alive : row.deleted ≡ false) where
  row-id : row.id ≡ id
  row-id = let (x, e, same) = c.handle_row id old has in ap id_or (sym at ∙ e) ∙ same

  was : live_id (r.rows old) ≡ some id
  was = ap live_id at ∙ living row alive ∙ ap some row-id
    where
      living : (x : Row) → x.deleted ≡ false → live_id (some x) ≡ some x.id
      living x e = simp e

  pub was_found : lookup r old ≡ some id
  unfolding lookup
  was_found = ap (λ o. or_redirect o (get_by_redirect r old)) was

  module _ (new : Bytes) (ne : old ≢ new) (free : r.rows new ≡ none) where
    abbrev after : Registry
    after = moved r id old new

    abbrev cleared : Table Bytes
    cleared = if same_id (r.redirects new) id then delete r.redirects new else r.redirects

    rows-new : after.rows new ≡ some (record { id = id; deleted = false })
    rows-new = update-same (delete r.rows old) new _

    rows-old : after.rows old ≡ none
    rows-old = update-other (delete r.rows old) new _ old (λ e. ne (sym e)) ∙ delete-same r.rows old

    rows-other : (h : Bytes) → old ≢ h → new ≢ h → after.rows h ≡ r.rows h
    rows-other h from to =
        update-other (delete r.rows old) new _ h to ∙ delete-other r.rows old h from

    redirects-other : (h : Bytes) → old ≢ h → new ≢ h → after.redirects h ≡ r.redirects h
    redirects-other h from to =
        update-other cleared old id h from ∙ kept (same_id (r.redirects new) id)
      where
        kept : (b : Bool) → (if b then delete r.redirects new else r.redirects) h ≡ r.redirects h
        kept true = delete-other r.redirects new h to
        kept false = refl

    self : live_id (get_by_id after id) ≡ some id
    self =
        ap (λ o. live_id (row_of after o)) (update-same (delete r.handles id) id new)
        ∙ ap live_id rows-new

    target-same : (i : Bytes) → live_id (get_by_id after i) ≡ live_id (get_by_id r i)
    target-same i = elim (Bool-cases (bytes_eq id i)) [
      | inl h ↦
          subst (λ j. live_id (get_by_id after j) ≡ live_id (get_by_id r j))
            ((bytes_eq_iff id i).0 h) (self ∙ sym (ap (λ o. live_id (row_of r o)) has ∙ was))
      | inr h ↦
          ap (λ o. live_id (row_of after o))
            (update-other (delete r.handles id) id new i (bytes_eq-false id i h)
              ∙ delete-other r.handles id i (bytes_eq-false id i h))
          ∙ apart (bytes_eq-false id i h) (r.handles i) refl
    ]
      where
        apart :
            id ≢ i
            → (o : Option Bytes) → r.handles i ≡ o
            → live_id (row_of after o) ≡ live_id (row_of r o)
        apart differ none e = refl
        apart differ (some h) e =
            let (x, found, same) = c.handle_row i h e in
            ap live_id (
              rows-other h
                (λ k. differ (sym row-id ∙ ap id_or (sym at ∙ ap r.rows k ∙ found) ∙ same))
                (λ k. free-none x (sym free ∙ ap r.rows k ∙ found)))
          where
            free-none : (x : Row) → none ≢ some x
            free-none x e = ground arith

    lookup-new : lookup after new ≡ some id
    unfolding lookup
    lookup-new = ap (λ o. or_redirect (live_id o) (get_by_redirect after new)) rows-new

    lookup-old : lookup after old ≡ some id
    unfolding lookup
    lookup-old =
        ap (λ o. or_redirect (live_id o) (get_by_redirect after old)) rows-old
        ∙ ap (target_id after) (update-same cleared old id)
        ∙ self

    lookup-other : (h : Bytes) → old ≢ h → new ≢ h → lookup after h ≡ lookup r h
    unfolding lookup
    lookup-other h from to =
        ap (λ o. or_redirect (live_id o) (get_by_redirect after h)) (rows-other h from to)
        ∙ ap (or_redirect (live_id (r.rows h)))
            (ap (target_id after) (redirects-other h from to) ∙ target (r.redirects h))
      where
        target : (o : Option Bytes) → target_id after o ≡ target_id r o
        target none = refl
        target (some i) = target-same i

    -- All handles together.
    pub lookup-moved :
        (h : Bytes) → lookup after h ≡ (if bytes_eq new h then some id else lookup r h)
    lookup-moved h = elim (Bool-cases (bytes_eq new h)) [
      | inl e ↦
          subst (λ k. lookup after k ≡ some id) ((bytes_eq_iff new h).0 e) lookup-new
          ∙ ap (λ b. if b then some id else lookup r h) (sym e)
      | inr e ↦ stays (bytes_eq-false new h e) ∙ ap (λ b. if b then some id else lookup r h) (sym e)
    ]
      where
        stays : new ≢ h → lookup after h ≡ lookup r h
        stays to = elim (Bool-cases (bytes_eq old h)) [
          | inl e ↦
              subst (λ k. lookup after k ≡ lookup r k) ((bytes_eq_iff old h).0 e)
                (lookup-old ∙ sym was_found)
          | inr e ↦ lookup-other h (bytes_eq-false old h e) to
        ]
