-- ===== src/Ops.antt =====
-- backend/internal/ops/ops.go and scheduler.go: the jobs that reclaim deleted sites and keep house.
-- The store, the files and git are the parameter `Host`; a site's directory is known by the site's id.
pub mod Laws
pub mod Reaping
pub mod Safety
pub mod Purging
pub mod Housekeeping
pub mod Scheduler
use kotoji.Prelude.{
  if◌then◌else◌, Result, ok, err, ℕ, ◌+◌, ◌-◌, String, Bool, true, false, Option, none, some, List,
  [], ◌∷◌, ◌++◌,
}
use kotoji.Action.{◌>>=◌, ◌>>◌, check_none, then, raise, gets, Action}
use kotoji.Text.{Bytes, is_empty}

-- An instant, and a length of time, is a number of nanoseconds.
pub record SoftDeletedSite : Type 0 where
  pub id : Bytes
  pub handle : Bytes
  pub deleted_at : ℕ

-- `ListLiveSiteIDs`, `ListSitesPastGrace` with its cutoff, `ctx.Err()`, and for the directory of a site
-- whether it holds a repository, or a lock.
pub record Host : Type 1 where
  pub State : Type 0
  pub now : State → ℕ
  pub cancelled : State → Bool
  pub list_past_grace : State → ℕ → Result String (List SoftDeletedSite)
  pub list_live : State → Result String (List Bytes)
  pub list_dir : State → Result String (List Bytes)
  pub is_uuid : Bytes → Bool
  pub exists : State → Bytes → Result String Bool
  pub has_lock : State → Bytes → Result String Bool
  pub mkdir_backup : Bytes → Action State String (Unit {0})
  pub bundle : Bytes → ℕ → Action State String (Unit {0})
  pub gc : Bytes → Action State String (Unit {0})
  pub remove_all : Bytes → Action State String (Unit {0})
  pub remove_lock : Bytes → Action State String (Unit {0})
  pub hard_delete : Bytes → Action State String (Unit {0})
  pub audit : Bytes → Action State String (Unit {0})

pub record ReapResult : Type 0 where
  pub reaped : ℕ
  pub skipped : ℕ
  pub errors : List (SoftDeletedSite × String)

pub record Config : Type 0 where
  pub backup_dir : Bytes
  pub grace : ℕ
  pub enable_reaper : Bool
  pub enable_gc : Bool

abbrev pub no_result : ReapResult
no_result = record { reaped = 0; skipped = 0; errors = [] }

module _ (H : Host) where
  -- The host, and the result that a pass fills.
  pub record Pass : Type 0 where
    pub host : H.State
    pub res : ReapResult

  abbrev pub Job : Type 0 → Type 0
  Job A = Action Pass String A

  abbrev pub on_host : Action H.State String (Unit {0}) → Job (Unit {0})
  on_host c p = let (r, s) = c p.host in (r, record p { host = s })

  -- A call whose error is dropped.
  abbrev pub try_host : Action H.State String (Unit {0}) → Job (Unit {0})
  try_host c p = (ok tt, record p { host = (c p.host).1 })

  abbrev pub count_skipped : Job (Unit {0})
  count_skipped p = (ok tt, record p { res = record p.res { skipped = p.res.skipped + 1 } })

  abbrev pub count_reaped : Job (Unit {0})
  count_reaped p = (ok tt, record p { res = record p.res { reaped = p.res.reaped + 1 } })

  abbrev pub configured : Bytes → Option String
  configured dir = if is_empty dir then some "backup dir not configured" else none

  -- `bundle`: a repository that cannot be bundled is reclaimed nevertheless.
  unfoldable pub bundle : Config → Bytes → Job (Unit {0})
  bundle cfg id = do
    check_none (configured cfg.backup_dir)
    on_host (H.mkdir_backup id)
    (λ p. try_host (H.bundle id (H.now p.host)) p)

  -- The row of a site whose repository is gone already.
  abbrev pub purge : Bytes → Job (Unit {0})
  purge id = do on_host (H.hard_delete id); count_skipped

  abbrev pub reclaim : Config → Bytes → Job (Unit {0})
  reclaim cfg id = do
    bundle cfg id
    on_host (H.remove_all id)
    on_host (H.hard_delete id)
    count_reaped
    try_host (H.audit id)

  abbrev pub reap_existing : Config → Bytes → Bool → Job (Unit {0})
  reap_existing cfg id true = reclaim cfg id
  reap_existing cfg id false = purge id

  -- `reapOne`.
  unfoldable pub reap_one : Config → Bytes → Job (Unit {0})
  reap_one cfg id = do exists ← gets (λ p. H.exists p.host id); reap_existing cfg id exists

  -- A site that fails does not end the pass.
  abbrev pub collect : SoftDeletedSite → Result String (Unit {0}) × Pass → Pass
  collect s (ok a, p) = p
  collect s (err e, p) = record p { res = record p.res { errors = p.res.errors ++ ((s, e) ∷ []) } }

  unfoldable pub reap_all : Config → List SoftDeletedSite → Job (Unit {0})
  reap_all cfg [] p = (ok tt, p)
  reap_all cfg (s ∷ ss) p =
      let rest = reap_all cfg ss (collect s (reap_one cfg s.id p)) in
      if H.cancelled p.host then (err "context canceled", p) else rest

  abbrev pub reap_listed : Config → Result String (List SoftDeletedSite) → Job (Unit {0})
  reap_listed cfg (ok ss) = reap_all cfg ss
  reap_listed cfg (err e) = raise e

  -- `Reap`, with its result beside the host.
  unfoldable pub reap : Config → H.State → Result String (Unit {0}) × Pass
  reap cfg s =
      reap_listed cfg (H.list_past_grace s (H.now s - cfg.grace))
        (record { host = s; res = no_result })
