-- ===== src/Repo/Imported.antt =====
-- What an import does to the branches.
use kotoji.Prelude.{
  All, Result, ok, err, ◌≡◌, refl, ◌≢◌, Bool, true, false, Option, List, [], ◌∷◌, arith,
}
use kotoji.Action.{then, gets, reads, on_failure, Ends, pure-Ensures, Ensures}
use kotoji.Repo.{Site, Git}
use kotoji.Repo.Importing.{
  ImportConfig, replace_worktree, read_upload, clear_worktree, or_refused, is_spared, write_entries,
  clear_entry,
}
use kotoji.Repo.Laws.{IsRef, IsGit}
use kotoji.Repo.Steps.{quiet_head, At, OnHead}
use kotoji.Site.Paths.{git_dir_segment}
use kotoji.Site.Paths.Walk.{IsOutside}
use kotoji.Text.{Bytes}
use kotoji.Text.Laws.{bytes_eq_iff}
use kotoji.Zip.{read_archive, ZipEntry, ZipError, ZipSource}
use kotoji.Zip.Archive.{read_archive-IsOutside}

module _ (G : Git) where
  pub upload-Ensures :
      (P : Site G → Type 0) (cfg : ImportConfig) (src : ZipSource)
      → Ensures P (gets (λ w. read_upload cfg src)) (λ zs w. P w × All (λ z. IsOutside z.path) zs) P
  upload-Ensures P cfg src = record {
    run = λ w p.
        read w p (read_archive cfg.folding cfg.zip src)
          (read_archive-IsOutside cfg.folding cfg.zip src);
  }
    where
      read :
          (w : Site G)
          → P w
          → (r : Result ZipError (List ZipEntry))
          → ((zs : List ZipEntry) → r ≡ ok zs → All (λ z. IsOutside z.path) zs)
          → Ends (λ zs w. P w × All (λ z. IsOutside z.path) zs) P (or_refused r, w)
      read w p (ok zs) out = (p, out zs refl)
      read w p (err e) out = p

  module _ (L : IsGit G) (b : Bytes) (named : IsRef b) (t : Option Bytes) where
    module _ (h : Bytes) where
      abbrev Headed : Site G → Type 0
      Headed = OnHead G L b named t h

      abbrev Here : Site G → Type 0
      Here = At G L b named t

      clear_entry-Ensures :
          (n : Bytes) (c : Bool)
          → is_spared n ≡ c
          → Ensures Headed (clear_entry G n c) (λ _. Headed) Here
      clear_entry-Ensures n true e = pure-Ensures
      clear_entry-Ensures n false e =
          quiet_head G L b named t (G.remove_all n) (λ s. L.remove_all_quiet n b s other named)
            (λ s. L.remove_all_head n s other)
        where
          other : n ≢ git_dir_segment
          other q = ground (arith, bytes_eq_iff n git_dir_segment)

      clear_worktree-Ensures :
          (ns : List Bytes) → Ensures Headed (clear_worktree G ns) (λ _. Headed) Here
      unfolding clear_worktree
      clear_worktree-Ensures [] = pure-Ensures
      clear_worktree-Ensures (n ∷ ns) =
          then (clear_entry-Ensures n (is_spared n) refl) λ _. clear_worktree-Ensures ns

      write_entries-Ensures :
          (zs : List ZipEntry)
          → All (λ z. IsOutside z.path) zs
          → Ensures Headed (write_entries G zs) (λ _. Headed) Here
      unfolding write_entries
      write_entries-Ensures [] out = pure-Ensures
      write_entries-Ensures (z ∷ zs) out =
          then
            (quiet_head G L b named t (G.write_blob z.path z.content)
              (λ s. L.write_blob_quiet _ _ b s out.0 named) (λ s. L.write_blob_head _ _ s out.0))
            λ _. write_entries-Ensures zs out.1

      pub replace_worktree-Ensures :
          (zs : List ZipEntry)
          → All (λ z. IsOutside z.path) zs
          → Ensures Headed (replace_worktree G zs) (λ _. Headed) Here
      unfolding replace_worktree
      replace_worktree-Ensures zs out =
          then (on_failure (λ _ p. p.1) (reads (λ _. refl)))
            λ names. then (clear_worktree-Ensures names) λ _. write_entries-Ensures zs out
