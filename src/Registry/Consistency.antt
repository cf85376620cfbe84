-- ===== src/Registry/Consistency.antt =====
-- The steps that make up the changes of the tables keep them consistent.
use kotoji.Prelude.{
  if◌then◌else◌, Bool-cases, Option-cases, ◌≡◌, refl, sym, ap, ◌∙◌, subst, ◌≢◌, inl, inr, Bool,
  true, false, ◌&&◌, ◌||◌, not, Option, none, some, [], arith,
}
use kotoji.Registry.{
  handle_is_taken, target_id, get_by_handle, same_id, inserted, Faults, Row, Registry, live_id,
  is_own_redirect, row_of, get_by_id, moved, row_for,
}
use kotoji.Registry.Following.{
  delete-same, delete-other, update-same, IsConsistent, update-other, id_or,
}
use kotoji.Table.{update, delete, Table}
use kotoji.Text.{is_some, Bytes, bytes_eq}
use kotoji.Text.Laws.{bytes_eq_iff, bytes_eq-false}

-- A test on a key, with what it says.
pub by_key :
    {P : Type 0} (a b : Bytes)
    → (a ≡ b → bytes_eq a b ≡ true → P)
    → (a ≢ b → bytes_eq a b ≡ false → P)
    → P
by_key a b same differ = elim (Bool-cases (bytes_eq a b)) [
  | inl e ↦ same ((bytes_eq_iff a b).0 e) e
  | inr e ↦ differ (bytes_eq-false a b e) e
]

pub none-some : {A : Type 0} (a : A) → none ≢ some a
none-some a e = ground arith

abbrev or_nil : Option Bytes → Bytes
or_nil none = []
or_nil (some h) = h

pub inserted-IsConsistent :
    (r : Registry) (id h : Bytes)
    → IsConsistent r
    → r.rows h ≡ none
    → r.handles id ≡ none
    → r.redirects h ≡ none
    → IsConsistent (inserted r id h)
inserted-IsConsistent r id h c no_row no_handle no_redirect = record {
  row_handle = λ k row e.
      by_key h k
        (λ same _.
          ap (update r.handles id h) (
            sym (
              ap id_or (
                sym (
                  subst (λ j. update r.rows h (row_for id) j ≡ some (row_for id)) same
                    (update-same r.rows h (row_for id)))
                ∙ e)))
          ∙ update-same r.handles id h
          ∙ ap some same)
        (λ differ _.
          let had = c.row_handle k row (sym (update-other r.rows h (row_for id) k differ) ∙ e) in
          update-other r.handles id h row.id
            (λ q. none-some k (sym no_handle ∙ ap r.handles q ∙ had))
          ∙ had);
  handle_row = λ i k e.
      by_key id i
        (λ same _. (
          row_for id,
          subst (λ j. update r.rows h (row_for id) j ≡ some (row_for id))
              (ap or_nil (
                sym
                  (subst (λ j. update r.handles id h j ≡ some h) same (update-same r.handles id h))
                ∙ e))
              (update-same r.rows h (row_for id)),
          same,
        ))
        (λ differ _.
          let (row, at, same) = c.handle_row i k (sym (update-other r.handles id h i differ) ∙ e) in
          (
            row,
            update-other r.rows h (row_for id) k
                  (λ q. none-some row (sym no_row ∙ ap r.rows q ∙ at))
                ∙ at,
            same,
          ));
  row_redirect = λ k row e.
      by_key h k (λ same _. ap r.redirects (sym same) ∙ no_redirect)
        (λ differ _. c.row_redirect k row (sym (update-other r.rows h (row_for id) k differ) ∙ e));
}

-- The row of a site is taken out.
abbrev removed : Registry → Bytes → Bytes → Registry
removed r id h = record r { rows = delete r.rows h; handles = delete r.handles id }

removed-IsConsistent :
    (r : Registry) (id h : Bytes)
    → IsConsistent r
    → r.handles id ≡ some h
    → IsConsistent (removed r id h)
removed-IsConsistent r id h c has = record {
  row_handle = λ k row e.
      by_key h k
        (λ same _.
          elim (none-some row
            (sym (subst (λ j. delete r.rows h j ≡ none) same (delete-same r.rows h)) ∙ e)) [ ])
        (λ differ _.
          let had = c.row_handle k row (sym (delete-other r.rows h k differ) ∙ e) in
          delete-other r.handles id row.id
            (λ q. differ (ap or_nil (sym has ∙ ap r.handles q ∙ had)))
          ∙ had);
  handle_row = λ i k e.
      by_key id i
        (λ same _.
          elim (none-some k (
            sym (subst (λ j. delete r.handles id j ≡ none) same (delete-same r.handles id))
            ∙ e)) [ ])
        (λ differ _.
          let (row, at, same) = c.handle_row i k (sym (delete-other r.handles id i differ) ∙ e) in
          let (own, at_own, same_own) = c.handle_row id h has in
          (
            row,
            delete-other r.rows h k
                  (λ q. differ (sym same_own ∙ ap id_or (sym at_own ∙ ap r.rows q ∙ at) ∙ same))
                ∙ at,
            same,
          ));
  row_redirect = λ k row e.
      by_key h k
        (λ same _.
          elim (none-some row
            (sym (subst (λ j. delete r.rows h j ≡ none) same (delete-same r.rows h)) ∙ e)) [ ])
        (λ differ _. c.row_redirect k row (sym (delete-other r.rows h k differ) ∙ e));
}

cleared-IsConsistent :
    (r : Registry) (h : Bytes) (b : Bool)
    → IsConsistent r
    → IsConsistent (record r { redirects = if b then delete r.redirects h else r.redirects })
cleared-IsConsistent r h false c = c
cleared-IsConsistent r h true c = record {
  row_handle = c.row_handle;
  handle_row = c.handle_row;
  row_redirect = λ k row e.
      by_key h k
        (λ same _. subst (λ j. delete r.redirects h j ≡ none) same (delete-same r.redirects h))
        (λ differ _. delete-other r.redirects h k differ ∙ c.row_redirect k row e);
}

redirected-IsConsistent :
    (r : Registry) (id h : Bytes)
    → IsConsistent r
    → r.rows h ≡ none
    → IsConsistent (record r { redirects = update r.redirects h id })
redirected-IsConsistent r id h c no_row = record {
  row_handle = c.row_handle;
  handle_row = c.handle_row;
  row_redirect = λ k row e.
      update-other r.redirects h id k (λ q. none-some row (sym no_row ∙ ap r.rows q ∙ e))
      ∙ c.row_redirect k row e;
}

pub moved-IsConsistent :
    (r : Registry) (id old new : Bytes)
    → IsConsistent r
    → old ≢ new
    → r.handles id ≡ some old
    → r.rows new ≡ none
    → (if same_id (r.redirects new) id then delete r.redirects new else r.redirects) new ≡ none
    → IsConsistent (moved r id old new)
moved-IsConsistent r id old new c ne has free unclaimed =
    redirected-IsConsistent _ id old
      (inserted-IsConsistent (record (removed r id old) { redirects = cleared }) id new
        (cleared-IsConsistent (removed r id old) new (same_id (r.redirects new) id)
          (removed-IsConsistent r id old c has))
        (delete-other r.rows old new ne ∙ free) (delete-same r.handles id) unclaimed)
      (update-other (delete r.rows old) new (row_for id) old (λ e. ne (sym e))
        ∙ delete-same r.rows old)
  where
    cleared : Table Bytes
    cleared = if same_id (r.redirects new) id then delete r.redirects new else r.redirects

-- A handle that passes the check before a rename is redirected nowhere else.
pub unclaimed :
    (r : Registry) (c : IsConsistent r) (f : Faults) (id h : Bytes)
    → (handle_is_taken r h && not (is_own_redirect f r id h)) ≡ false
    → (if same_id (r.redirects h) id then delete r.redirects h else r.redirects) h ≡ none
unclaimed r c f id h passed = cases (same_id (r.redirects h) id) refl
  where
    owner :
        (x : Bytes) (o : Option Bytes)
        → r.handles x ≡ o
        → same_id (live_id (row_of r o)) id ≡ true
        → x ≡ id
    owner x none e k = ground arith
    owner x (some j) e k =
        let (row, at, same) = c.handle_row x j e in
        sym same ∙ living row (subst (λ o. same_id (live_id o) id ≡ true) at k)
      where
        living : (row : Row) → same_id (live_id (some row)) id ≡ true → row.id ≡ id
        living row k = named row.deleted k
          where
            named : (d : Bool) → same_id (if d then none else some row.id) id ≡ true → row.id ≡ id
            named true k = ground arith
            named false k = (bytes_eq_iff row.id id).0 k

    own : (a p q s : Bool) → ((a || true || p) && not (not q && s)) ≡ false → s ≡ true
    own a p q true k = refl
    own a p q false k = ground arith

    asked : (x : Bytes) → r.redirects h ≡ some x → same_id (live_id (get_by_id r x)) id ≡ true
    asked x e = own (is_some (get_by_handle r h)) (r.reserved h) (is_some f.redirect_error) _ (
        subst
          (λ o.
            ((is_some (get_by_handle r h) || is_some o || r.reserved h)
              && not (not (is_some f.redirect_error) && same_id (target_id r o) id))
            ≡ false)
          e passed)

    cases :
        (b : Bool)
        → same_id (r.redirects h) id ≡ b
        → (if b then delete r.redirects h else r.redirects) h ≡ none
    cases true k = delete-same r.redirects h
    cases false k = elim (Option-cases (r.redirects h)) [
      | inl e ↦ e
      | inr (x, e) ↦
          elim (bytes_eq-false x id (subst (λ o. same_id o id ≡ false) e k)
            (owner x (r.handles x) refl (asked x e))) [ ]
    ]

-- A row is replaced by one with the same id.
pub replaced-IsConsistent :
    (r : Registry) (h : Bytes) (x y : Row)
    → IsConsistent r
    → r.rows h ≡ some x
    → y.id ≡ x.id
    → IsConsistent (record r { rows = update r.rows h y })
replaced-IsConsistent r h x y c at same_id = record {
  row_handle = λ k row e.
      by_key h k
        (λ same _.
          ap r.handles (
            sym (
              ap id_or
                (sym (subst (λ j. update r.rows h y j ≡ some y) same (update-same r.rows h y)) ∙ e))
            ∙ same_id)
          ∙ c.row_handle h x at
          ∙ ap some same)
        (λ differ _. c.row_handle k row (sym (update-other r.rows h y k differ) ∙ e));
  handle_row = λ i k e.
      let (row, found, own) = c.handle_row i k e in
      by_key h k
        (λ same _. (
          y,
          subst (λ j. update r.rows h y j ≡ some y) same (update-same r.rows h y),
          same_id ∙ ap id_or (sym at ∙ ap r.rows same ∙ found) ∙ own,
        ))
        (λ differ _. (row, update-other r.rows h y k differ ∙ found, own));
  row_redirect = λ k row e.
      by_key h k (λ same _. ap r.redirects (sym same) ∙ c.row_redirect h x at)
        (λ differ _. c.row_redirect k row (sym (update-other r.rows h y k differ) ∙ e));
}
