-- ===== src/Ops/Housekeeping.antt =====
-- The passes that remove no site: `GC` and the check at the start, `Consistency`.
use kotoji.Prelude.{
  if◌then◌else◌, Result, ok, err, String, Bool, true, false, ◌&&◌, not, List, [], ◌∷◌, ◌++◌,
}
use kotoji.Ops.{Config, Host}
use kotoji.Text.{Bytes, mem}

-- Directories and sites by their names.
pub record ConsistencyResult : Type 0 where
  pub cleared_locks : List Bytes
  pub orphan_repos : List Bytes
  pub dangling_rows : List Bytes

-- What the scan of the directory has found so far.
pub record Scan : Type 0 where
  pub on_disk : List Bytes
  pub cleared : List Bytes
  pub orphans : List Bytes

abbrev pub nothing_found : Scan
nothing_found = record { on_disk = []; cleared = []; orphans = [] }

-- `ok, _ := …`.
abbrev pub is_ok_true : Result String Bool → Bool
is_ok_true (ok b) = b
is_ok_true (err e) = false

abbrev is_done : Result String (Unit {0}) → Bool
is_done (ok a) = true
is_done (err e) = false

-- The live rows that have no repository.
unfoldable pub dangling : List Bytes → List Bytes → List Bytes
dangling disk [] = []
dangling disk (id ∷ ids) = let rest = dangling disk ids in if mem id disk then rest else id ∷ rest

module _ (H : Host) where
  unfoldable pub gc_all : List Bytes → H.State → Result String (Unit {0}) × H.State
  gc_all [] s = (ok tt, s)
  gc_all (id ∷ ids) s =
      let next = if is_ok_true (H.exists s id) then (H.gc id s).1 else s in
      let rest = gc_all ids next in if H.cancelled s then (err "context canceled", s) else rest

  abbrev pub gc_listed : Result String (List Bytes) → H.State → Result String (Unit {0}) × H.State
  gc_listed (err e) s = (err e, s)
  gc_listed (ok ids) s = gc_all ids s

  -- `GC`.
  unfoldable pub gc : Config → H.State → Result String (Unit {0}) × H.State
  gc cfg s = if cfg.enable_gc then gc_listed (H.list_live s) s else (ok tt, s)

  abbrev found_orphan : List Bytes → Bytes → Scan → Scan
  found_orphan live name f = record f {
    on_disk = name ∷ f.on_disk;
    orphans = if H.is_uuid name && not (mem name live) then f.orphans ++ (name ∷ []) else f.orphans;
  }

  abbrev pub clear_lock : Bytes → Scan → H.State → Scan × H.State
  clear_lock name f s =
      if is_ok_true (H.has_lock s name)
      then (let (r, s') = H.remove_lock name s in
          (record f { cleared = if is_done r then f.cleared ++ (name ∷ []) else f.cleared }, s'))
      else (f, s)

  abbrev pub scan_one : List Bytes → Bytes → Scan → H.State → Scan × H.State
  scan_one live name f s =
      if is_ok_true (H.exists s name)
      then (let (f', s') = clear_lock name f s in (found_orphan live name f', s'))
      else (f, s)

  unfoldable pub scan : List Bytes → List Bytes → Scan → H.State → Scan × H.State
  scan live [] f s = (f, s)
  scan live (name ∷ names) f s = let (f', s') = scan_one live name f s in scan live names f' s'

  abbrev report : List Bytes → Scan → ConsistencyResult
  report live f = record {
    cleared_locks = f.cleared;
    orphan_repos = f.orphans;
    dangling_rows = dangling f.on_disk live;
  }

  abbrev pub scan_listed :
      List Bytes → Result String (List Bytes) → H.State → Result String ConsistencyResult × H.State
  scan_listed live (err e) s = (err e, s)
  scan_listed live (ok names) s =
      let (f, s') = scan live names nothing_found s in (ok (report live f), s')

  abbrev pub check_listed :
      Result String (List Bytes) → H.State → Result String ConsistencyResult × H.State
  check_listed (err e) s = (err e, s)
  check_listed (ok live) s = scan_listed live (H.list_dir s) s

  -- `Consistency`.
  unfoldable pub consistency : H.State → Result String ConsistencyResult × H.State
  consistency s = check_listed (H.list_live s) s
