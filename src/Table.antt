-- ===== src/Table.antt =====
-- A Go `map[string]V` as the function from a key to its entry.
use kotoji.Prelude.{if◌then◌else◌, Bool, Option, none, some}
use kotoji.Text.{bytes_eq, Bytes}

abbrev pub Table {ℓ} : Type ℓ → Type ℓ
Table V = Bytes → Option V

module _ {ℓ} {V : Type ℓ} where
  abbrev pub empty : Table V
  empty k = none

  abbrev pub update : Table V → Bytes → V → Table V
  update m k v j = if bytes_eq k j then some v else m j

  abbrev pub delete : Table V → Bytes → Table V
  delete m k j = if bytes_eq k j then none else m j

  abbrev pub keep_value : (V → Bool) → Option V → Option V
  keep_value p none = none
  keep_value p (some v) = if p v then some v else none

  -- `for k, v := range m { if !p(v) { delete(m, k) } }`.
  abbrev pub keep : (V → Bool) → Table V → Table V
  keep p m j = keep_value p (m j)
