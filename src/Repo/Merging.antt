-- ===== src/Repo/Merging.antt =====
-- The merge in a temporary worktree, from the laws of the commands that it runs.
use kotoji.Prelude.{Result, ok, err, String, ◌≡◌, refl, ◌∙◌, ◌≢◌, none, some, arith}
use kotoji.Label.{label_re}
use kotoji.Repo.{Actor, MergeOutcome, merged, Git}
use kotoji.Repo.Laws.{names_object, IsRef, IsGit}
use kotoji.Repo.Publishing.{merge_in_worktree, merge_attached, merge_ended}
use kotoji.Resolve.{validate_branch, published}
use kotoji.Resolve.Grammar.{validate_branch_iff}
use kotoji.Text.{to_lower, contains, Unicode, Bytes, bytes_eq}

-- The name "published" is ASCII: the tables of Unicode are not asked.
abbrev no_tables : Unicode
no_tables = record { to_lower = λ s. s; trim_func = λ s. s; trim_right_func = λ s. s }

published_routed : validate_branch no_tables published ≡ none
unfolding validate_branch bytes_eq to_lower contains label_re
published_routed = refl

pub published-IsRef : IsRef published
unfolding names_object
published-IsRef = ((validate_branch_iff no_tables published).0 published_routed, refl)

module _ (G : Git) (L : IsGit G) where
  open L use {Older}

  -- What follows the merge moves no branch.
  tidied :
      (b : Bytes) (r : Result String (Unit {0})) (s : G.State)
      → IsRef b
      → G.rev_parse (G.worktree_prune (G.worktree_remove (merge_ended G r s).1)) b ≡ G.rev_parse s b
  tidied b (ok a) s ref = L.worktree_prune_quiet b _ ref ∙ L.worktree_remove_quiet b s ref
  tidied b (err e) s ref =
      L.worktree_prune_quiet b _ ref ∙ L.worktree_remove_quiet b _ ref ∙ L.merge_abort_quiet b s ref

  unattached :
      (b : Bytes) (s : G.State)
      → IsRef b
      → G.rev_parse (G.worktree_prune (G.worktree_add published s).1) b ≡ G.rev_parse s b
  unattached b s ref = L.worktree_prune_quiet b _ ref ∙ L.worktree_add_quiet published b s ref

  module _ (a : Actor) (m x : Bytes) (s : G.State) where
    abbrev there : G.State
    there = (G.worktree_add published s).1

    abbrev after_merge : G.State
    after_merge = (G.merge a m x there).1

    pub merge_in_worktree-others :
        (b : Bytes)
        → IsRef b
        → b ≢ published
        → G.rev_parse (merge_in_worktree G a m x s).1 b ≡ G.rev_parse s b
    unfolding merge_in_worktree
    merge_in_worktree-others b ref ne = decided (G.worktree_add published s).0 refl
      where
        decided :
            (r : Result String (Unit {0}))
            → (G.worktree_add published s).0 ≡ r
            → G.rev_parse (merge_attached G a m x r there).1 b ≡ G.rev_parse s b
        decided (err y) e = unattached b s ref
        decided (ok y) e =
            tidied b (G.merge a m x there).0 after_merge ref
            ∙ L.merge_others a m x published b there
                (L.worktree_add_attached published s published-IsRef e) ref ne
            ∙ L.worktree_add_quiet published b s ref

    -- A merge that succeeds leaves a commit on top of both tips.
    pub merge_in_worktree-tip :
        (old : Bytes)
        → (merge_in_worktree G a m x s).0 ≡ ok merged
        → G.rev_parse s published ≡ some old
        → (new : Bytes) × (G.rev_parse (merge_in_worktree G a m x s).1 published ≡ some new)
          × Older old new
          × Older x new
    unfolding merge_in_worktree
    merge_in_worktree-tip old done_merge tip =
        decided (G.worktree_add published s).0 refl done_merge
      where
        Grows : Result String MergeOutcome × G.State → Type 0
        Grows r =
            (new : Bytes) × (G.rev_parse r.1 published ≡ some new) × Older old new × Older x new

        joined :
            (r : Result String (Unit {0}))
            → (G.merge a m x there).0 ≡ r
            → (G.worktree_add published s).0 ≡ ok tt
            → (merge_ended G r after_merge).0 ≡ ok merged
            → Grows (
              (merge_ended G r after_merge).0,
              G.worktree_prune (G.worktree_remove (merge_ended G r after_merge).1),
            )
        joined (err y) q e k = ground arith
        joined (ok y) q e k =
            let (new, n, top, older) =
              L.merge_tip a m x published old there q
                (L.worktree_add_attached published s published-IsRef e) published-IsRef
                (L.worktree_add_quiet published published s published-IsRef ∙ tip) in
            (new, tidied published (ok y) after_merge published-IsRef ∙ n, top, older)

        decided :
            (r : Result String (Unit {0}))
            → (G.worktree_add published s).0 ≡ r
            → (merge_attached G a m x r there).0 ≡ ok merged
            → Grows (merge_attached G a m x r there)
        decided (err y) e k = ground arith
        decided (ok y) e k = joined (G.merge a m x there).0 refl e k

    pub merge_in_worktree-unmerged :
        (merge_in_worktree G a m x s).0 ≢ ok merged
        → G.rev_parse (merge_in_worktree G a m x s).1 published ≡ G.rev_parse s published
    unfolding merge_in_worktree
    merge_in_worktree-unmerged k = decided (G.worktree_add published s).0 k
      where
        joined :
            (r : Result String (Unit {0}))
            → (G.merge a m x there).0 ≡ r
            → (merge_ended G r after_merge).0 ≢ ok merged
            → G.rev_parse
                (G.worktree_prune (G.worktree_remove (merge_ended G r after_merge).1))
                published
              ≡ G.rev_parse s published
        joined (ok y) q k = absurd (k refl)
        joined (err y) q k =
            tidied published (err y) after_merge published-IsRef
            ∙ L.merge_failed a m x published y there q published-IsRef
            ∙ L.worktree_add_quiet published published s published-IsRef

        decided :
            (r : Result String (Unit {0}))
            → (merge_attached G a m x r there).0 ≢ ok merged
            → G.rev_parse (merge_attached G a m x r there).1 published ≡ G.rev_parse s published
        decided (err y) k = unattached published s published-IsRef
        decided (ok y) k = joined (G.merge a m x there).0 refl k
