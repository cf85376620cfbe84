-- ===== src/Tests/Reapers.antt =====
-- A small host: three sites, of which one has a directory that cannot be removed.
use kotoji.Prelude.{
  ltb, if◌then◌else◌, ltb→lt, All, Result, ok, err, ℕ, ◌≤◌, ◌<◌, String, ◌≡◌, refl, ap, subst, ◌≢◌,
  inl, Bool, true, false, ◌||◌, Option, none, some, List, [], ◌∷◌, map, arith,
}
use kotoji.Ops.{Host, SoftDeletedSite, reap, Config}
use kotoji.Ops.Laws.{IsHost}
use kotoji.Ops.Purging.{reap_purges, IsHealthy}
use kotoji.Ops.Reaping.{NoOrphan, IsPurged}
use kotoji.Ops.Safety.{reap_spares}
use kotoji.Ops.Scheduler.{loop, scheduler_safe}
use kotoji.Tests.{blog}
use kotoji.Text.{Bytes, mem, bytes_eq, codes}
use kotoji.Text.Laws.{bytes_eq_iff, bytes_eq_refl}

record Disk : Type 0 where
  pub rows : Bytes → Option (Option ℕ)
  pub repos : Bytes → Bool

abbrev old_site : Bytes
old_site = codes "old"

abbrev stuck_site : Bytes
stuck_site = codes "stuck"

abbrev put : {A : Type 0} → Bytes → A → (Bytes → A) → Bytes → A
put i x f j = if bytes_eq j i then x else f j

abbrev is_due : ℕ → Option (Option ℕ) → Bool
is_due cutoff none = false
is_due cutoff (some none) = false
is_due cutoff (some (some d)) = ltb d cutoff

abbrev due : Disk → ℕ → List Bytes → List SoftDeletedSite
due s cutoff [] = []
due s cutoff (i ∷ is) =
    let rest = due s cutoff is in
    if is_due cutoff (s.rows i) then record { id = i; handle = i; deleted_at = 0 } ∷ rest else rest

abbrev disk_done : Disk → Result String (Unit {0}) × Disk
disk_done s = (ok tt, s)

abbrev busy : Bool → Result String (Unit {0})
busy true = err "busy"
busy false = ok tt

abbrev small_host : Host
small_host = record {
  State = Disk;
  now = λ s. 100;
  cancelled = λ s. false;
  list_past_grace = λ s cutoff. ok (due s cutoff (stuck_site ∷ old_site ∷ blog ∷ []));
  list_live = λ s. ok (blog ∷ []);
  list_dir = λ s. ok (old_site ∷ []);
  is_uuid = λ n. true;
  exists = λ s i. ok (s.repos i);
  has_lock = λ s i. ok true;
  mkdir_backup = λ i. disk_done;
  bundle = λ i t. disk_done;
  gc = λ i. disk_done;
  remove_all = λ i s. (
    busy (bytes_eq i stuck_site),
    if bytes_eq i stuck_site then s else record s { repos = put i false s.repos },
  );
  remove_lock = λ i. disk_done;
  hard_delete = λ i s. (ok tt, record s { rows = put i none s.rows });
  audit = λ i. disk_done;
}

put-same : {A : Type 0} (i : Bytes) (x : A) (f : Bytes → A) → put i x f i ≡ x
put-same i x f = simp (bytes_eq_refl i)

put-other : {A : Type 0} (i j : Bytes) (x : A) (f : Bytes → A) → j ≢ i → put i x f j ≡ f j
put-other i j x f ne = ground (arith, bytes_eq_iff j i)

due-listed :
    (s : Disk) (cutoff : ℕ) (is : List Bytes)
    → All (λ x. (d : ℕ) × (s.rows x.id ≡ some (some d)) × (d < cutoff)) (due s cutoff is)
due-listed s cutoff [] = tt
due-listed s cutoff (i ∷ is) = added (s.rows i) refl (due s cutoff is) (due-listed s cutoff is)
  where
    IsDue : SoftDeletedSite → Type 0
    IsDue x = (d : ℕ) × (s.rows x.id ≡ some (some d)) × (d < cutoff)

    dated :
        (d : ℕ) (b : Bool) (rest : List SoftDeletedSite)
        → ltb d cutoff ≡ b
        → s.rows i ≡ some (some d)
        → All IsDue rest
        → All IsDue (if b then record { id = i; handle = i; deleted_at = 0 } ∷ rest else rest)
    dated d true rest k e ks = ((d, e, ltb→lt d cutoff k), ks)
    dated d false rest k e ks = ks

    added :
        (o : Option (Option ℕ))
        → s.rows i ≡ o
        → (rest : List SoftDeletedSite) → All IsDue rest
        → All IsDue
            (if is_due cutoff o then record { id = i; handle = i; deleted_at = 0 } ∷ rest else rest)
    added none e rest ks = ks
    added (some none) e rest ks = ks
    added (some (some d)) e rest ks = dated d (ltb d cutoff) rest refl e ks

due-ok :
    (s : Disk) (cutoff : ℕ) (ss : List SoftDeletedSite)
    → small_host.list_past_grace s cutoff ≡ ok ss
    → All (λ x. (d : ℕ) × (s.rows x.id ≡ some (some d)) × (d < cutoff)) ss
due-ok s cutoff ss e =
    subst (λ l. All (λ x. (d : ℕ) × (s.rows x.id ≡ some (some d)) × (d < cutoff)) l) (ap listed e)
      (due-listed s cutoff (stuck_site ∷ old_site ∷ blog ∷ []))
  where
    listed : Result String (List SoftDeletedSite) → List SoftDeletedSite
    listed (ok ss) = ss
    listed (err e) = []

abbrev removed : Bool → Bytes → Disk → Disk
removed b i s = if b then s else record s { repos = put i false s.repos }

removed_rows : (s : Disk) (b : Bool) (i j : Bytes) → (removed b i s).rows j ≡ s.rows j
removed_rows s true i j = refl
removed_rows s false i j = refl

removed_others : (s : Disk) (b : Bool) (i j : Bytes) → j ≢ i → (removed b i s).repos j ≡ s.repos j
removed_others s true i j ne = refl
removed_others s false i j ne = put-other i j false s.repos ne

removed_gone : (s : Disk) (b : Bool) (i : Bytes) → busy b ≡ ok tt → (removed b i s).repos i ≡ false
removed_gone s true i e = ground arith
removed_gone s false i e = put-same i false s.repos

same_answer : (b : Bool) (s : Disk) (i : Bytes) → small_host.exists s i ≡ ok b → s.repos i ≡ b
same_answer b s i e = ground arith

never_fails :
    (s : Disk) (i j : Bytes) (e : String)
    → (small_host.hard_delete i s).0 ≡ err e
    → (small_host.hard_delete i s).1.rows j ≡ s.rows j
never_fails s i j e k = ground arith

abbrev small_host_laws : IsHost small_host
small_host_laws = record {
  row = λ s i. s.rows i;
  repo = λ s i. s.repos i;
  listed = λ s cutoff ss e. due-ok s cutoff ss e;
  exists_repo = λ s i b e. same_answer b s i e;
  mkdir_row = λ s i j. refl;
  mkdir_repo = λ s i j. refl;
  bundle_row = λ s i t j. refl;
  bundle_repo = λ s i t j. refl;
  audit_row = λ s i j. refl;
  audit_repo = λ s i j. refl;
  remove_row = λ s i j. removed_rows s (bytes_eq i stuck_site) i j;
  remove_others = λ s i j ne. removed_others s (bytes_eq i stuck_site) i j ne;
  remove_gone = λ s i e. removed_gone s (bytes_eq i stuck_site) i e;
  delete_repo = λ s i j. refl;
  delete_others = λ s i j ne. put-other i j none s.rows ne;
  delete_failed = never_fails;
  delete_gone = λ s i e. put-same i none s.rows;
  gc_row = λ s i j. refl;
  gc_repo = λ s i j. refl;
  unlock_row = λ s i j. refl;
  unlock_repo = λ s i j. refl;
}

abbrev config : Config
config = record { backup_dir = codes "/b"; grace = 30; enable_reaper = true; enable_gc = true }

-- Of the three sites two were deleted at the instant 5.
abbrev disk : Disk
disk = record {
  rows = λ i. if bytes_eq i old_site || bytes_eq i stuck_site then some (some 5) else some none;
  repos = λ i. true;
}

abbrev two_due : List SoftDeletedSite
two_due = due disk 70 (stuck_site ∷ old_site ∷ blog ∷ [])

busy-old : busy (bytes_eq old_site stuck_site) ≡ ok tt
unfolding bytes_eq
busy-old = refl

old_site-IsHealthy : IsHealthy small_host old_site
old_site-IsHealthy = record {
  never_cancelled = λ s. refl;
  stats = λ s. (s.repos old_site, refl);
  makes = λ s. refl;
  removes = λ s. busy-old;
  deletes = λ s. refl;
}

old-due : mem old_site (map (λ x. x.id) two_due) ≡ true
unfolding mem bytes_eq
old-due = refl

reap_purges_example :
    IsPurged small_host small_host_laws old_site (reap small_host config disk).1.host
reap_purges_example =
    reap_purges small_host small_host_laws old_site old_site-IsHealthy config refl disk two_due refl
      old-due

blog_kept : (d : ℕ) → disk.rows blog ≡ some (some d) → 70 ≤ d
unfolding bytes_eq
blog_kept d e = ground arith

reap_spares_example :
    ((reap small_host config disk).1.host.rows blog ≡ disk.rows blog)
    × ((reap small_host config disk).1.host.repos blog ≡ true)
reap_spares_example = reap_spares small_host small_host_laws blog config disk blog_kept

-- Nothing happens between the ticks.
abbrev idle : Disk → Disk
idle s = s

stuck_row : disk.rows stuck_site ≡ some (some 5)
unfolding bytes_eq
stuck_row = refl

scheduler_safe_example :
    NoOrphan small_host small_host_laws stuck_site (loop small_host config (idle ∷ []) disk)
scheduler_safe_example =
    scheduler_safe small_host small_host_laws stuck_site config (idle ∷ []) disk
      ((λ s safe. safe), tt) (inl (some 5, stuck_row))
