-- ===== src/Ops/Scheduler.antt =====
-- The loop of the scheduler, and that no run of it takes a site's row without its repository.
use kotoji.Prelude.{
  if◌then◌else◌, All, Result, ok, err, String, ◌≡◌, refl, ◌∙◌, inl, inr, Bool, true, false, List,
  [], ◌∷◌,
}
use kotoji.Ops.{Host, Config, reap}
use kotoji.Ops.Housekeeping.{
  consistency, nothing_found, is_ok_true, Scan, gc, scan, gc_listed, scan_listed, check_listed,
  gc_all,
}
use kotoji.Ops.Laws.{IsHost}
use kotoji.Ops.Reaping.{NoOrphan}
use kotoji.Ops.Safety.{reap_safe}
use kotoji.Text.{Bytes}

module _ (H : Host) where
  -- `runOnce`: the two jobs, neither of which asks how the other ended.
  unfoldable pub run_once : Config → H.State → H.State
  run_once cfg s =
      let s' = if cfg.enable_reaper then (reap H cfg s).1.host else s in
      if cfg.enable_gc then (gc H cfg s').1 else s'

  -- `loop`: the check, a first run, and one at each tick, before which others have changed the host.
  unfoldable pub ticks : Config → List (H.State → H.State) → H.State → H.State
  ticks cfg [] s = s
  ticks cfg (change ∷ cs) s = ticks cfg cs (run_once cfg (change s))

  unfoldable pub loop : Config → List (H.State → H.State) → H.State → H.State
  loop cfg cs s = ticks cfg cs (run_once cfg (consistency H s).1)

  module _ (L : IsHost H) (id : Bytes) where
    open L use {row, repo}

    abbrev Kept : H.State → H.State → Type 0
    Kept s s' = (row s' id ≡ row s id) × (repo s' id ≡ repo s id)

    trans : (a b c : H.State) → Kept a b → Kept b c → Kept a c
    trans a b c (x, y) (x', y') = (x' ∙ x, y' ∙ y)

    if-Kept :
        {A : Type 0} (s : H.State) (c : Bool) (x y : A × H.State)
        → Kept s x.1
        → Kept s y.1
        → Kept s (if c then x else y).1
    if-Kept s true x y k l = k
    if-Kept s false x y k l = l

    either-Kept :
        (s : H.State) (c : Bool) (x y : H.State) → Kept s x → Kept s y → Kept s (if c then x else y)
    either-Kept s true x y k l = k
    either-Kept s false x y k l = l

    gc_all-Kept : (ids : List Bytes) (s : H.State) → Kept s (gc_all H ids s).1
    unfolding gc_all
    gc_all-Kept [] s = (refl, refl)
    gc_all-Kept (i ∷ ids) s =
        if-Kept s (H.cancelled s) _ _ (refl, refl)
          (trans s _ _
            (either-Kept s (is_ok_true (H.exists s i)) (H.gc i s).1 s
              (L.gc_row s i id, L.gc_repo s i id) (refl, refl))
            (gc_all-Kept ids _))

    gc-Kept : (cfg : Config) (s : H.State) → Kept s (gc H cfg s).1
    unfolding gc
    gc-Kept cfg s = if-Kept s cfg.enable_gc _ _ (listed (H.list_live s)) (refl, refl)
      where
        listed : (l : Result String (List Bytes)) → Kept s (gc_listed H l s).1
        listed (err e) = (refl, refl)
        listed (ok ids) = gc_all-Kept ids s

    scan-Kept :
        (live names : List Bytes) (f : Scan) (s : H.State) → Kept s (scan H live names f s).1
    unfolding scan
    scan-Kept live [] f s = (refl, refl)
    scan-Kept live (name ∷ names) f s =
        trans s _ _
          (if-Kept s (is_ok_true (H.exists s name)) _ _
            (if-Kept s (is_ok_true (H.has_lock s name)) _ _
              (L.unlock_row s name id, L.unlock_repo s name id) (refl, refl))
            (refl, refl))
          (scan-Kept live names _ _)

    consistency-Kept : (s : H.State) → Kept s (consistency H s).1
    unfolding consistency
    consistency-Kept s = checked (H.list_live s)
      where
        scanned :
            (live : List Bytes) (l : Result String (List Bytes)) → Kept s (scan_listed H live l s).1
        scanned live (err e) = (refl, refl)
        scanned live (ok names) = scan-Kept live names nothing_found s

        checked : (l : Result String (List Bytes)) → Kept s (check_listed H l s).1
        checked (err e) = (refl, refl)
        checked (ok live) = scanned live (H.list_dir s)

    -- The jobs other than the reaper change no row and remove no repository.
    pub housekeeping_spares : (cfg : Config) (s : H.State) → Kept s (gc H cfg (consistency H s).1).1
    housekeeping_spares cfg s = trans s _ _ (consistency-Kept s) (gc-Kept cfg (consistency H s).1)

    Kept-NoOrphan : (s s' : H.State) → Kept s s' → NoOrphan H L id s → NoOrphan H L id s'
    Kept-NoOrphan s s' (x, y) (inl (d, e)) = inl (d, x ∙ e)
    Kept-NoOrphan s s' (x, y) (inr gone) = inr (y ∙ gone)

    run_once-NoOrphan :
        (cfg : Config) (s : H.State) → NoOrphan H L id s → NoOrphan H L id (run_once cfg s)
    unfolding run_once
    run_once-NoOrphan cfg s safe =
        Kept-NoOrphan reaped _
          (either-Kept reaped cfg.enable_gc (gc H cfg reaped).1 reaped (gc-Kept cfg reaped)
            (refl, refl))
          (after cfg.enable_reaper)
      where
        reaped : H.State
        reaped = if cfg.enable_reaper then (reap H cfg s).1.host else s

        after : (b : Bool) → NoOrphan H L id (if b then (reap H cfg s).1.host else s)
        after true = reap_safe H L id cfg s safe
        after false = safe

    ticks-NoOrphan :
        (cfg : Config) (cs : List (H.State → H.State)) (s : H.State)
        → All (λ c. (s : H.State) → NoOrphan H L id s → NoOrphan H L id (c s)) cs
        → NoOrphan H L id s
        → NoOrphan H L id (ticks cfg cs s)
    unfolding ticks
    ticks-NoOrphan cfg [] s ks safe = safe
    ticks-NoOrphan cfg (c ∷ cs) s (k, ks) safe =
        ticks-NoOrphan cfg cs _ ks (run_once-NoOrphan cfg (c s) (k s safe))

    -- However long the scheduler runs, and whatever calls of it fail: a site that has its row, or no
    -- repository, when it starts has its row, or no repository, ever after, if what others do to the
    -- store and the files between the ticks keeps this too.
    pub scheduler_safe :
        (cfg : Config) (cs : List (H.State → H.State)) (s : H.State)
        → All (λ c. (s : H.State) → NoOrphan H L id s → NoOrphan H L id (c s)) cs
        → NoOrphan H L id s
        → NoOrphan H L id (loop cfg cs s)
    unfolding loop
    scheduler_safe cfg cs s ks safe =
        ticks-NoOrphan cfg cs _ ks
          (run_once-NoOrphan cfg _ (Kept-NoOrphan s _ (consistency-Kept s) safe))
