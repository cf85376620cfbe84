-- ===== src/Tests/Repos.antt =====
-- A small git for the tests of the site service: a commit's sha is its parent's with one more byte.
use kotoji.Prelude.{
  if◌then◌else◌, length, length-append, Result, ok, err, String, ◌≡◌, refl, sym, ap, ◌∙◌, subst,
  ◌≢◌, Bool, true, false, Option, none, some, [], ◌∷◌, ◌++◌, append_assoc, arith,
}
use kotoji.Repo.{Git}
use kotoji.Repo.Laws.{IsGit}
use kotoji.Text.{bytes_eq, has_suffix, Bytes, codes}
use kotoji.Text.Laws.{bytes_eq_iff, bytes_eq_refl, has_suffix→}

pub record Graph : Type 0 where
  pub refs : Bytes → Option Bytes
  pub at_head : Option Bytes
  pub at_worktree : Option Bytes

abbrev set : Bytes → Bytes → (Bytes → Option Bytes) → Bytes → Option Bytes
set c x refs b = if bytes_eq b c then some x else refs b

abbrev clear : Bytes → (Bytes → Option Bytes) → Bytes → Option Bytes
clear c refs b = if bytes_eq b c then none else refs b

abbrev grow : Bytes → Option Bytes → Graph → Result String (Unit {0}) × Graph
grow h none s = (err "no commit", s)
grow h (some old) s = (ok tt, record s { refs = set h (0 ∷ old) s.refs })

abbrev commit_at : Option Bytes → Graph → Result String (Unit {0}) × Graph
commit_at none s = (err "no branch", s)
commit_at (some h) s = grow h (s.refs h) s

abbrev is_on : Bytes → Option Bytes → Bool
is_on x none = false
is_on x (some a) = has_suffix x a

abbrev is_here : Option Bytes → Bool
is_here none = false
is_here (some a) = true

abbrev done : Graph → Result String (Unit {0}) × Graph
done s = (ok tt, s)

abbrev pub small_git : Git
small_git = record {
  State = Graph;
  rev_parse = λ s b. s.refs b;
  show_ref = λ s b. ok (is_here (s.refs b));
  head = λ s. s.at_head;
  status = λ s. ok true;
  disk_size = λ s. ok 0;
  read_dir = λ s. ok (codes ".git" ∷ codes "index.html" ∷ []);
  diff_names = λ s a b. [];
  show = λ s sha. ok (record { sha = sha });
  is_ancestor = λ s r x. is_on x (s.refs r);
  checkout = λ c s. (ok tt, record s { at_head = some c });
  write_blob = λ p x. done;
  remove_all = λ n. done;
  add = λ p. done;
  add_all = done;
  remove = λ p. done;
  read_tree = λ t. done;
  checkout_index = done;
  clean = done;
  commit = λ a m s. commit_at s.at_head s;
  update_ref = λ c x s. (ok tt, record s { refs = set c x s.refs });
  create_branch = λ c x s. (ok tt, record s { refs = set c x s.refs });
  delete_branch = λ c s. (ok tt, record s { refs = clear c s.refs });
  attached = λ s. s.at_worktree;
  worktree_add = λ c s. (ok tt, record s { at_worktree = some c });
  merge = λ a m x s. (err "not tried", s);
  conflict_paths = λ s. [];
  merge_abort = λ s. s;
  worktree_remove = λ s. record s { at_worktree = none };
  worktree_prune = λ s. s;
  gc = λ s. s;
  refresh_served = λ c s. s;
  mirror = λ c s. s;
}

set-same : (c x : Bytes) (refs : Bytes → Option Bytes) → set c x refs c ≡ some x
set-same c x refs = simp (bytes_eq_refl c)

set-other : (c x b : Bytes) (refs : Bytes → Option Bytes) → b ≢ c → set c x refs b ≡ refs b
set-other c x b refs ne = ground (arith, bytes_eq_iff b c)

clear-other : (c b : Bytes) (refs : Bytes → Option Bytes) → b ≢ c → clear c refs b ≡ refs b
clear-other c b refs ne = ground (arith, bytes_eq_iff b c)

commit-other :
    (h b : Bytes) (s : Graph) (o : Option Bytes)
    → o ≡ some h
    → b ≢ h
    → (commit_at o s).1.refs b ≡ s.refs b
commit-other h b s o e ne =
    subst (λ o. (commit_at o s).1.refs b ≡ s.refs b) (sym e) (grown (s.refs h))
  where
    grown : (t : Option Bytes) → (grow h t s).1.refs b ≡ s.refs b
    grown none = refl
    grown (some old) = set-other h (0 ∷ old) b s.refs ne

commit-failed :
    (b : Bytes) (x : String) (s : Graph) (o : Option Bytes)
    → (commit_at o s).0 ≡ err x
    → (commit_at o s).1.refs b ≡ s.refs b
commit-failed b x s none e = refl
commit-failed b x s (some h) e = grown (s.refs h) e
  where
    grown : (t : Option Bytes) → (grow h t s).0 ≡ err x → (grow h t s).1.refs b ≡ s.refs b
    grown none e = refl
    grown (some old) e = ground arith

commit-tip :
    (h old : Bytes) (s : Graph) (o : Option Bytes)
    → o ≡ some h
    → s.refs h ≡ some old
    → (commit_at o s).1.refs h ≡ some (0 ∷ old)
commit-tip h old s o e tip =
    subst (λ o. (commit_at o s).1.refs h ≡ some (0 ∷ old)) (sym e)
      (subst (λ t. (grow h t s).1.refs h ≡ some (0 ∷ old)) (sym tip) (set-same h (0 ∷ old) s.refs))

-- The parts that a commit has on top of another.
abbrev IsUnder : Bytes → Bytes → Type 0
IsUnder a b = (p : Bytes) × (b ≡ p ++ a)

IsUnder-trans : (a b c : Bytes) → IsUnder a b → IsUnder b c → IsUnder a c
IsUnder-trans a b c (p, e) (q, k) = (q ++ p, k ∙ ap (λ x. q ++ x) e ∙ sym (append_assoc q p a))

is_on-IsUnder : (a x : Bytes) (t : Option Bytes) → is_on x t ≡ true → t ≡ some a → IsUnder a x
is_on-IsUnder a x t h e = has_suffix→ x a (subst (λ t. is_on x t ≡ true) e h)

here-none :
    (t : Option Bytes) (r : Result String Bool) → r ≡ ok (is_here t) → r ≡ ok false → t ≡ none
here-none none r h e = refl
here-none (some a) r h e = ground arith

pub small_git-IsGit : IsGit small_git
small_git-IsGit = record {
  Older = IsUnder;
  older_refl = λ a. ([], refl);
  older_trans = IsUnder-trans;
  depth = length;
  depth_older = λ a b (p, e). omega (arith, ap length e, length-append p a);
  checkout_quiet = λ c b s n. refl;
  write_blob_quiet = λ p x b s o n. refl;
  remove_all_quiet = λ n b s ne k. refl;
  gc_quiet = λ b s n. refl;
  add_quiet = λ p b s n. refl;
  add_all_quiet = λ b s n. refl;
  remove_quiet = λ p b s n. refl;
  read_tree_quiet = λ t b s n. refl;
  checkout_index_quiet = λ b s n. refl;
  clean_quiet = λ b s n. refl;
  refresh_served_quiet = λ c b s n. refl;
  mirror_quiet = λ c b s n. refl;
  checkout_head = λ c s there e. refl;
  write_blob_head = λ p x s o. refl;
  remove_all_head = λ n s ne. refl;
  add_head = λ p s. refl;
  add_all_head = λ s. refl;
  remove_head = λ p s. refl;
  read_tree_head = λ t s. refl;
  checkout_index_head = λ s. refl;
  clean_head = λ s. refl;
  commit_others = λ a m h b s e n ne. commit-other h b s s.at_head e ne;
  commit_failed = λ a m b x s e n. commit-failed b x s s.at_head e;
  commit_tip = λ a m h old s d e n tip.
      (0 ∷ old, commit-tip h old s s.at_head e tip, (0 ∷ [], refl), omega arith);
  update_ref_tip = λ c x s e n. set-same c x s.refs;
  update_ref_failed = λ c x b y s e n. ground arith;
  update_ref_others = λ c x b s n ne. set-other c x b s.refs ne;
  is_ancestor_older = λ r a x s h e. is_on-IsUnder a x (s.refs r) h e;
  create_branch_tip = λ c x s e n. set-same c x s.refs;
  create_branch_others = λ c x b s n ne. set-other c x b s.refs ne;
  delete_branch_others = λ c b s n ne. clear-other c b s.refs ne;
  show_ref_absent = λ b s e n. here-none (s.refs b) (ok (is_here (s.refs b))) refl e;
  worktree_add_quiet = λ c b s n. refl;
  worktree_add_attached = λ c s n e. refl;
  merge_abort_quiet = λ b s n. refl;
  worktree_remove_quiet = λ b s n. refl;
  worktree_prune_quiet = λ b s n. refl;
  merge_tip = λ a m x h old s e t n r. ground arith;
  merge_failed = λ a m x b y s e n. refl;
  merge_others = λ a m x h b s e n ne. refl;
}
