-- ===== src/Repo/Steps.antt =====
-- What each step of a call does to the tip of one branch.
use kotoji.Prelude.{
  ◌==◌, Bool-cases, Option-cases, Result, ok, err, ℕ, String, ◌≡◌, refl, sym, ap, ◌∙◌, subst, inl,
  inr, true, false, Option, none, some, List, arith,
}
use kotoji.Action.{◌>>=◌, then, Ensures, gets, Action, Ends, pure, reads}
use kotoji.Auth.Lockout.{}
use kotoji.Repo.{
  not_found, conflict, checkout_branch, to_repo_error, Site, found_or, compare_base, or_hint,
  enforce_quota, wrap_git, Git, rev_parse, quota_left, check_base_sha, git, asks, is_head,
  RepoError,
}
use kotoji.Repo.Laws.{IsGit, IsRef, IsThere}
use kotoji.Site.Handle.{HandleError}
use kotoji.Text.{Bytes, bytes_eq}
use kotoji.Text.Laws.{bytes_eq_iff}

pub gate-none : (c : Option HandleError) → to_repo_error c ≡ none → c ≡ none
gate-none none e = refl
gate-none (some x) e = ground arith

module _ (G : Git) where
  pub git-cases :
      {A : Type 0} (c : Action G.State String A) (Q : A → Site G → Type 0) (X : Site G → Type 0)
      (w : Site G)
      → ((a : A) → (c w.repo).0 ≡ ok a → Q a (record w { repo = (c w.repo).1 }))
      → ((e : String) → (c w.repo).0 ≡ err e → X (record w { repo = (c w.repo).1 }))
      → Ends Q X (git G c w)
  git-cases {A = A} c Q X w h k = decided (c w.repo).0 h k
    where
      decided :
          (r : Result String A)
          → ((a : A) → r ≡ ok a → Q a (record w { repo = (c w.repo).1 }))
          → ((e : String) → r ≡ err e → X (record w { repo = (c w.repo).1 }))
          → Ends {E = RepoError} Q X (wrap_git G r, record w { repo = (c w.repo).1 })
      decided (ok a) h k = h a refl
      decided (err e) h k = k e refl

  pub rev_parse-Ensures :
      (P : Site G → Type 0) (c : Bytes)
      → Ensures P (rev_parse G c) (λ tip w. P w × (G.rev_parse w.repo c ≡ some tip)) P
  rev_parse-Ensures P c = record {
    run = λ w p. elim (Option-cases (G.rev_parse w.repo c)) [
      | inl e ↦ subst (λ o. Ends (Parsed w) P (found_or G o not_found, w)) (sym e) p
      | inr (tip, e) ↦ subst (λ o. Ends (Parsed w) P (found_or G o not_found, w)) (sym e) (p, e)
    ];
  }
    where
      Parsed : Site G → Bytes → Site G → Type 0
      Parsed _ tip w = P w × (G.rev_parse w.repo c ≡ some tip)

  pub asks-Ensures :
      {A : Type 0} (P : Site G → Type 0) (f : G.State → Result String A)
      → Ensures P (asks G f) (λ a w. P w × (f w.repo ≡ ok a)) P
  asks-Ensures {A = A} P f = record { run = λ w p. answered w (f w.repo) refl p }
    where
      answered :
          (w : Site G) (r : Result String A)
          → f w.repo ≡ r
          → P w
          → Ends {E = RepoError} (λ a w. P w × (f w.repo ≡ ok a)) P (wrap_git G r, w)
      answered w (ok a) e p = (p, e)
      answered w (err x) e p = p

  -- The check of the base against the branch.
  pub check_base_sha-Ensures :
      (P : Site G → Type 0) (c base : Bytes) (hint : List Bytes)
      → Ensures P (check_base_sha G c base hint) (λ _ w. P w × (G.rev_parse w.repo c ≡ some base)) P
  unfolding check_base_sha
  check_base_sha-Ensures P c base hint =
      then (rev_parse-Ensures P c) (λ tip. record { run = compared tip })
    where
      Parsed : Bytes → Site G → Type 0
      Parsed tip w = P w × (G.rev_parse w.repo c ≡ some tip)

      compared :
          (tip : Bytes) (w : Site G)
          → Parsed tip w
          → Ends (λ _. Parsed base) P (compare_base G c base hint tip w)
      compared tip w (p, e) = elim (Bool-cases (bytes_eq tip base)) [
        | inl h ↦
            subst (λ r. Ends (λ _. Parsed base) P r) (sym (same h))
              (p, e ∙ ap some ((bytes_eq_iff tip base).0 h))
        | inr h ↦ subst (λ r. Ends (λ _. Parsed base) P r) (sym (differ h)) p
      ]
        where
          same : bytes_eq tip base ≡ true → compare_base G c base hint tip w ≡ (ok tt, w)
          same h = simp h

          differ :
              bytes_eq tip base ≡ false
              → compare_base G c base hint tip w
                ≡ (err (conflict c base tip (or_hint G (G.diff_names w.repo base tip) hint)), w)
          differ h = simp h

  asks-head :
      {A : Type 0} {P : Site G → Type 0} (f : G.State → Result String A)
      → Ensures P (asks G f) (λ _. P) P
  asks-head f = reads (λ _. refl)

  pub enforce_quota-Ensures :
      {P : Site G → Type 0} (quota delta : ℕ) → Ensures P (enforce_quota G quota delta) (λ _. P) P
  unfolding enforce_quota
  enforce_quota-Ensures {P = P} quota delta = elim (Bool-cases (quota == 0)) [
    | inl h ↦ subst (λ m. Ensures P m (λ _. P) P) (sym (unlimited h)) (reads (λ _. refl))
    | inr h ↦
        subst (λ m. Ensures P m (λ _. P) P) (sym (limited h))
          (then (asks-head G.disk_size) (λ _. reads (λ _. refl)))
  ]
    where
      unlimited : (quota == 0) ≡ true → enforce_quota G quota delta ≡ pure tt
      unlimited h = simp h

      limited :
          (quota == 0) ≡ false
          → enforce_quota G quota delta
            ≡ (asks G G.disk_size >>= λ current. gets (λ w. quota_left G quota delta current))
      limited h = simp h

  module _ (L : IsGit G) (b : Bytes) (named : IsRef b) (t : Option Bytes) where
    abbrev pub At : Site G → Type 0
    At w = G.rev_parse w.repo b ≡ t

    abbrev pub OnHead : Bytes → Site G → Type 0
    OnHead c w = (G.head w.repo ≡ some c) × At w

    pub quiet :
        (c : Action G.State String (Unit {0}))
        → ((s : G.State) → G.rev_parse (c s).1 b ≡ G.rev_parse s b)
        → Ensures At (git G c) (λ _. At) At
    quiet c k = record {
      run = λ w at. git-cases c (λ _. At) At w (λ _ _. k w.repo ∙ at) (λ _ _. k w.repo ∙ at);
    }

    pub quiet_head :
        {h : Bytes} (c : Action G.State String (Unit {0}))
        → ((s : G.State) → G.rev_parse (c s).1 b ≡ G.rev_parse s b)
        → ((s : G.State) → G.head (c s).1 ≡ G.head s)
        → Ensures (OnHead h) (git G c) (λ _. OnHead h) At
    quiet_head {h = h} c k j = record {
      run = λ w (head, at).
          git-cases c (λ _. OnHead h) At w (λ _ _. (j w.repo ∙ head, k w.repo ∙ at))
            (λ _ _. k w.repo ∙ at);
    }

    -- The branch that is to be checked out is one.
    abbrev pub AtThere : Bytes → Site G → Type 0
    AtThere c w = At w × IsThere G c w.repo

    pub checkout_branch-Ensures :
        (c : Bytes) → Ensures (AtThere c) (checkout_branch G c) (λ _. OnHead c) At
    unfolding checkout_branch
    checkout_branch-Ensures c = record {
      run = λ w (at, there). elim (Bool-cases (is_head G (G.head w.repo) c)) [
        | inl h ↦
            subst (λ r. Ends (λ _. OnHead c) At r) (sym (stays w h)) (on_head (G.head w.repo) h, at)
        | inr h ↦
            subst (λ r. Ends (λ _. OnHead c) At r) (sym (moves w h))
              (git-cases (G.checkout c) (λ _. OnHead c) At w
                (λ _ k. (L.checkout_head c w.repo there k, L.checkout_quiet c b w.repo named ∙ at))
                (λ _ _. L.checkout_quiet c b w.repo named ∙ at))
      ];
    }
      where
        stays :
            (w : Site G) → is_head G (G.head w.repo) c ≡ true → checkout_branch G c w ≡ (ok tt, w)
        stays w h = simp h

        moves :
            (w : Site G)
            → is_head G (G.head w.repo) c ≡ false
            → checkout_branch G c w ≡ git G (G.checkout c) w
        moves w h = simp h

        on_head : (o : Option Bytes) → is_head G o c ≡ true → o ≡ some c
        on_head none h = ground arith
        on_head (some h') h = ap some ((bytes_eq_iff h' c).0 h)
