-- ===== src/Ops/Laws.antt =====
-- What is relied on of the store, the files and git.
use kotoji.Prelude.{All, ok, err, ℕ, ◌<◌, String, ◌≡◌, ◌≢◌, Bool, false, Option, none, some, List}
use kotoji.Ops.{SoftDeletedSite, Host}
use kotoji.Text.{Bytes}

-- `row` is the row of a site with its `deleted_at`, and `repo` whether its directory holds a
-- repository. A removal that fails may have removed some of what it was to remove.
pub record IsHost (H : Host) : Type 0 where
  pub row : H.State → Bytes → Option (Option ℕ)
  pub repo : H.State → Bytes → Bool
  pub listed :
      (s : H.State) (cutoff : ℕ) (ss : List SoftDeletedSite)
      → H.list_past_grace s cutoff ≡ ok ss
      → All (λ x. (d : ℕ) × (row s x.id ≡ some (some d)) × (d < cutoff)) ss
  pub exists_repo : (s : H.State) (id : Bytes) (b : Bool) → H.exists s id ≡ ok b → repo s id ≡ b
  pub mkdir_row : (s : H.State) (i id : Bytes) → row (H.mkdir_backup i s).1 id ≡ row s id
  pub mkdir_repo : (s : H.State) (i id : Bytes) → repo (H.mkdir_backup i s).1 id ≡ repo s id
  pub bundle_row :
      (s : H.State) (i : Bytes) (t : ℕ) (id : Bytes) → row (H.bundle i t s).1 id ≡ row s id
  pub bundle_repo :
      (s : H.State) (i : Bytes) (t : ℕ) (id : Bytes) → repo (H.bundle i t s).1 id ≡ repo s id
  pub audit_row : (s : H.State) (i id : Bytes) → row (H.audit i s).1 id ≡ row s id
  pub audit_repo : (s : H.State) (i id : Bytes) → repo (H.audit i s).1 id ≡ repo s id
  pub remove_row : (s : H.State) (i id : Bytes) → row (H.remove_all i s).1 id ≡ row s id
  pub remove_others :
      (s : H.State) (i id : Bytes) → id ≢ i → repo (H.remove_all i s).1 id ≡ repo s id
  pub remove_gone :
      (s : H.State) (i : Bytes) → (H.remove_all i s).0 ≡ ok tt → repo (H.remove_all i s).1 i ≡ false
  pub delete_repo : (s : H.State) (i id : Bytes) → repo (H.hard_delete i s).1 id ≡ repo s id
  pub delete_others :
      (s : H.State) (i id : Bytes) → id ≢ i → row (H.hard_delete i s).1 id ≡ row s id
  pub delete_failed :
      (s : H.State) (i id : Bytes) (e : String)
      → (H.hard_delete i s).0 ≡ err e
      → row (H.hard_delete i s).1 id ≡ row s id
  pub delete_gone :
      (s : H.State) (i : Bytes) → (H.hard_delete i s).0 ≡ ok tt → row (H.hard_delete i s).1 i ≡ none
  pub gc_row : (s : H.State) (i id : Bytes) → row (H.gc i s).1 id ≡ row s id
  pub gc_repo : (s : H.State) (i id : Bytes) → repo (H.gc i s).1 id ≡ repo s id
  pub unlock_row : (s : H.State) (i id : Bytes) → row (H.remove_lock i s).1 id ≡ row s id
  pub unlock_repo : (s : H.State) (i id : Bytes) → repo (H.remove_lock i s).1 id ≡ repo s id
