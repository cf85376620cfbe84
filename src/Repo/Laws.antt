-- ===== src/Repo/Laws.antt =====
-- What is relied on of git, and how each helper of the service keeps a property of the branches.
use kotoji.Prelude.{
  leb, ◌==◌, length, all, ok, err, ℕ, ◌≤◌, ◌<◌, String, ◌≡◌, ◌≢◌, ◌⊎◌, Bool, true, false, ◌&&◌,
  ◌||◌, none, some, [], ◌∷◌,
}
use kotoji.Repo.{Git, Actor}
use kotoji.Resolve.Grammar.{IsBranch}
use kotoji.Site.Paths.{git_dir_segment}
use kotoji.Site.Paths.Walk.{IsOutside}
use kotoji.Text.{Bytes}

-- What git takes for the name of an object if no branch is called so: an abbreviated hash, alone or
-- after a "g" as `git describe` has it.
abbrev is_hex : ℕ → Bool
is_hex c = leb b'0' c && leb c b'9' || leb b'a' c && leb c b'f'

abbrev is_abbreviation : Bytes → Bool
is_abbreviation s = leb 4 (length s) && all is_hex s

unfoldable ends_in_object : Bytes → Bool
ends_in_object [] = false
ends_in_object (c ∷ s) = c == b'g' && is_abbreviation s || ends_in_object s

unfoldable pub names_object : Bytes → Bool
unfolding ends_in_object
names_object s = is_abbreviation s || ends_in_object s

-- A name that only a branch can have.
abbrev pub IsRef : Bytes → Type 0
IsRef b = IsBranch b × (names_object b ≡ false)

-- A text that a checkout takes for a branch: one that `show-ref` finds, or a branch's name that a
-- commit is found for. It is not so of "HEAD" and "@{-1}".
abbrev pub IsThere : (G : Git) → Bytes → G.State → Type 0
IsThere G c s = (G.show_ref s c ≡ ok true) ⊎ (IsRef c × ((x : Bytes) × (G.rev_parse s c ≡ some x)))

-- The documentation of git, for the names that branches have, in a repository with no other refs than
-- branches. A commit's parents are older than it is, and no command but those with a name for it
-- moves a branch.
pub record IsGit (G : Git) : Type 1 where
  pub Older : Bytes → Bytes → Type 0
  pub older_refl : (a : Bytes) → Older a a
  pub older_trans : (a b c : Bytes) → Older a b → Older b c → Older a c
  pub depth : Bytes → ℕ
  pub depth_older : (a b : Bytes) → Older a b → depth a ≤ depth b
  -- Commands on the index and the worktree. A file is written, or removed, outside ".git".
  pub checkout_quiet :
      (c b : Bytes) (s : G.State) → IsRef b → G.rev_parse (G.checkout c s).1 b ≡ G.rev_parse s b
  pub write_blob_quiet :
      (p x b : Bytes) (s : G.State)
      → IsOutside p
      → IsRef b
      → G.rev_parse (G.write_blob p x s).1 b ≡ G.rev_parse s b
  pub remove_all_quiet :
      (n b : Bytes) (s : G.State)
      → n ≢ git_dir_segment
      → IsRef b
      → G.rev_parse (G.remove_all n s).1 b ≡ G.rev_parse s b
  pub gc_quiet : (b : Bytes) (s : G.State) → IsRef b → G.rev_parse (G.gc s) b ≡ G.rev_parse s b
  pub add_quiet :
      (p b : Bytes) (s : G.State) → IsRef b → G.rev_parse (G.add p s).1 b ≡ G.rev_parse s b
  pub add_all_quiet :
      (b : Bytes) (s : G.State) → IsRef b → G.rev_parse (G.add_all s).1 b ≡ G.rev_parse s b
  pub remove_quiet :
      (p b : Bytes) (s : G.State) → IsRef b → G.rev_parse (G.remove p s).1 b ≡ G.rev_parse s b
  pub read_tree_quiet :
      (t b : Bytes) (s : G.State) → IsRef b → G.rev_parse (G.read_tree t s).1 b ≡ G.rev_parse s b
  pub checkout_index_quiet :
      (b : Bytes) (s : G.State) → IsRef b → G.rev_parse (G.checkout_index s).1 b ≡ G.rev_parse s b
  pub clean_quiet :
      (b : Bytes) (s : G.State) → IsRef b → G.rev_parse (G.clean s).1 b ≡ G.rev_parse s b
  pub refresh_served_quiet :
      (c b : Bytes) (s : G.State) → IsRef b → G.rev_parse (G.refresh_served c s) b ≡ G.rev_parse s b
  pub mirror_quiet :
      (c b : Bytes) (s : G.State) → IsRef b → G.rev_parse (G.mirror c s) b ≡ G.rev_parse s b
  -- HEAD: what a checkout of a branch sets, and the commands of a write keep.
  pub checkout_head :
      (c : Bytes) (s : G.State)
      → IsThere G c s
      → (G.checkout c s).0 ≡ ok tt
      → G.head (G.checkout c s).1 ≡ some c
  pub write_blob_head :
      (p x : Bytes) (s : G.State) → IsOutside p → G.head (G.write_blob p x s).1 ≡ G.head s
  pub remove_all_head :
      (n : Bytes) (s : G.State) → n ≢ git_dir_segment → G.head (G.remove_all n s).1 ≡ G.head s
  pub add_head : (p : Bytes) (s : G.State) → G.head (G.add p s).1 ≡ G.head s
  pub add_all_head : (s : G.State) → G.head (G.add_all s).1 ≡ G.head s
  pub remove_head : (p : Bytes) (s : G.State) → G.head (G.remove p s).1 ≡ G.head s
  pub read_tree_head : (t : Bytes) (s : G.State) → G.head (G.read_tree t s).1 ≡ G.head s
  pub checkout_index_head : (s : G.State) → G.head (G.checkout_index s).1 ≡ G.head s
  pub clean_head : (s : G.State) → G.head (G.clean s).1 ≡ G.head s
  -- A commit gives the branch of HEAD a new tip, whose parent is the old one.
  pub commit_others :
      (a : Actor) (m h b : Bytes) (s : G.State)
      → G.head s ≡ some h
      → IsRef b
      → b ≢ h
      → G.rev_parse (G.commit a m s).1 b ≡ G.rev_parse s b
  pub commit_failed :
      (a : Actor) (m b : Bytes) (e : String) (s : G.State)
      → (G.commit a m s).0 ≡ err e
      → IsRef b
      → G.rev_parse (G.commit a m s).1 b ≡ G.rev_parse s b
  pub commit_tip :
      (a : Actor) (m h old : Bytes) (s : G.State)
      → (G.commit a m s).0 ≡ ok tt
      → G.head s ≡ some h
      → IsRef h
      → G.rev_parse s h ≡ some old
      → (new : Bytes) × (G.rev_parse (G.commit a m s).1 h ≡ some new)
        × Older old new
        × (depth old < depth new)
  pub update_ref_tip :
      (c x : Bytes) (s : G.State)
      → (G.update_ref c x s).0 ≡ ok tt
      → IsRef c
      → G.rev_parse (G.update_ref c x s).1 c ≡ some x
  pub update_ref_failed :
      (c x b : Bytes) (e : String) (s : G.State)
      → (G.update_ref c x s).0 ≡ err e
      → IsRef b
      → G.rev_parse (G.update_ref c x s).1 b ≡ G.rev_parse s b
  pub update_ref_others :
      (c x b : Bytes) (s : G.State)
      → IsRef b
      → b ≢ c
      → G.rev_parse (G.update_ref c x s).1 b ≡ G.rev_parse s b
  pub is_ancestor_older :
      (r a x : Bytes) (s : G.State)
      → G.is_ancestor s r x ≡ true
      → G.rev_parse s r ≡ some a
      → Older a x
  pub show_ref_absent :
      (b : Bytes) (s : G.State) → G.show_ref s b ≡ ok false → IsRef b → G.rev_parse s b ≡ none
  -- A worktree of its own, and the merge in it, which moves the branch that is checked out there.
  pub worktree_add_quiet :
      (c b : Bytes) (s : G.State) → IsRef b → G.rev_parse (G.worktree_add c s).1 b ≡ G.rev_parse s b
  pub worktree_add_attached :
      (c : Bytes) (s : G.State)
      → IsRef c
      → (G.worktree_add c s).0 ≡ ok tt
      → G.attached (G.worktree_add c s).1 ≡ some c
  pub merge_abort_quiet :
      (b : Bytes) (s : G.State) → IsRef b → G.rev_parse (G.merge_abort s) b ≡ G.rev_parse s b
  pub worktree_remove_quiet :
      (b : Bytes) (s : G.State) → IsRef b → G.rev_parse (G.worktree_remove s) b ≡ G.rev_parse s b
  pub worktree_prune_quiet :
      (b : Bytes) (s : G.State) → IsRef b → G.rev_parse (G.worktree_prune s) b ≡ G.rev_parse s b
  pub merge_tip :
      (a : Actor) (m x h old : Bytes) (s : G.State)
      → (G.merge a m x s).0 ≡ ok tt
      → G.attached s ≡ some h
      → IsRef h
      → G.rev_parse s h ≡ some old
      → (new : Bytes) × (G.rev_parse (G.merge a m x s).1 h ≡ some new) × Older old new × Older x new
  pub merge_failed :
      (a : Actor) (m x b : Bytes) (e : String) (s : G.State)
      → (G.merge a m x s).0 ≡ err e
      → IsRef b
      → G.rev_parse (G.merge a m x s).1 b ≡ G.rev_parse s b
  pub merge_others :
      (a : Actor) (m x h b : Bytes) (s : G.State)
      → G.attached s ≡ some h
      → IsRef b
      → b ≢ h
      → G.rev_parse (G.merge a m x s).1 b ≡ G.rev_parse s b
  pub create_branch_tip :
      (c x : Bytes) (s : G.State)
      → (G.create_branch c x s).0 ≡ ok tt
      → IsRef c
      → G.rev_parse (G.create_branch c x s).1 c ≡ some x
  pub create_branch_others :
      (c x b : Bytes) (s : G.State)
      → IsRef b
      → b ≢ c
      → G.rev_parse (G.create_branch c x s).1 b ≡ G.rev_parse s b
  pub delete_branch_others :
      (c b : Bytes) (s : G.State)
      → IsRef b
      → b ≢ c
      → G.rev_parse (G.delete_branch c s).1 b ≡ G.rev_parse s b
