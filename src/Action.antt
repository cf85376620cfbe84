-- ===== src/Action.antt =====
-- A call that changes a state and may fail: Go code that returns an error, on a state that is passed
-- along. What was changed before an error stays changed.
use kotoji.Prelude.{Result, ok, err, ◌≡◌, refl, sym, subst, Option, none, some}

abbrev pub Action : Type 0 → Type 0 → Type 0 → Type 0
Action S E A = S → Result E A × S

infixl 5 ◌>>=◌ ◌>>◌
unfoldable pub ◌>>=◌ : {S E A B : Type 0} → Action S E A → (A → Action S E B) → Action S E B
◌>>=◌ m f s = let (r, s') = m s in elim r [ ok a ↦ f a s' | err e ↦ (err e, s') ]

abbrev pub ◌>>◌ : {S E A B : Type 0} → Action S E A → Action S E B → Action S E B
m >> k = m >>= λ _. k

module _ {S E : Type 0} where
  abbrev pub pure : {A : Type 0} → A → Action S E A
  pure a s = (ok a, s)

  abbrev pub raise : {A : Type 0} → E → Action S E A
  raise e s = (err e, s)

  -- `if err := check(); err != nil { return err }`.
  abbrev pub check_none : Option E → Action S E (Unit {0})
  check_none none s = (ok tt, s)
  check_none (some e) s = (err e, s)

  abbrev pub gets : {A : Type 0} → (S → Result E A) → Action S E A
  gets f s = (f s, s)

  -- What a call ends with, on success and on failure.
  abbrev pub Ends : {A : Type 0} → (A → S → Type 0) → (S → Type 0) → Result E A × S → Type 0
  Ends Q X (ok a, s) = Q a s
  Ends Q X (err e, s) = X s

  Ends-then :
      {A B : Type 0} (Q : A → S → Type 0) (R : B → S → Type 0) (X : S → Type 0)
      (f : A → Action S E B) (r : Result E A × S)
      → Ends Q X r
      → ((a : A) (s : S) → Q a s → Ends R X (f a s))
      → Ends R X (elim r.0 [ ok a ↦ f a r.1 | err e ↦ (err e, r.1) ])
  Ends-then Q R X f (ok a, s) h k = k a s h
  Ends-then Q R X f (err e, s) h k = h

  Ends-weaken :
      {A : Type 0} (Q Q' : A → S → Type 0) (X X' : S → Type 0) (r : Result E A × S)
      → ((a : A) (s : S) → Q a s → Q' a s)
      → ((s : S) → X s → X' s)
      → Ends Q X r
      → Ends Q' X' r
  Ends-weaken Q Q' X X' (ok a, s) q x h = q a s h
  Ends-weaken Q Q' X X' (err e, s) q x h = x s h

-- From a state with `P`, a call that succeeds ends with `Q`, and one that fails with `X`.
pub record Ensures {S E A : Type 0} (P : S → Type 0) (m : Action S E A) (Q : A → S → Type 0)
    (X : S → Type 0) : Type 0 where
  pub run : (s : S) → P s → Ends Q X (m s)

module _ {S E : Type 0} where
  pub then :
      {A B : Type 0} {P : S → Type 0} {Q : A → S → Type 0} {R : B → S → Type 0} {X : S → Type 0}
      {m : Action S E A} {f : A → Action S E B}
      → Ensures P m Q X
      → ((a : A) → Ensures (Q a) (f a) R X)
      → Ensures P (m >>= f) R X
  unfolding ◌>>=◌
  then {Q = Q} {R = R} {X = X} {m = m} {f = f} h k = record {
    run = λ s p. Ends-then Q R X f (m s) (h.run s p) (λ a. (k a).run);
  }

  pub weaken :
      {A : Type 0} {P P' : S → Type 0} {Q Q' : A → S → Type 0} {X X' : S → Type 0}
      {m : Action S E A}
      → ((s : S) → P' s → P s)
      → ((a : A) (s : S) → Q a s → Q' a s)
      → ((s : S) → X s → X' s)
      → Ensures P m Q X
      → Ensures P' m Q' X'
  weaken {Q = Q} {Q' = Q'} {X = X} {X' = X'} {m = m} p q x h = record {
    run = λ s pre. Ends-weaken Q Q' X X' (m s) q x (h.run s (p s pre));
  }

  Ends-same :
      {A : Type 0} (P : S → Type 0) (s : S) (r : Result E A × S) → r.1 ≡ s → P s → Ends (λ _. P) P r
  Ends-same P s (ok a, s') e p = subst P (sym e) p
  Ends-same P s (err x, s') e p = subst P (sym e) p

  -- A call that only reads.
  pub reads :
      {A : Type 0} {P : S → Type 0} {m : Action S E A}
      → ((s : S) → (m s).1 ≡ s)
      → Ensures P m (λ _. P) P
  reads {P = P} {m = m} e = record { run = λ s p. Ends-same P s (m s) (e s) p }

  pub pure-Ensures :
      {A : Type 0} {Q : A → S → Type 0} {X : S → Type 0} {a : A}
      → Ensures {E = E} (Q a) (pure a) Q X
  pure-Ensures = record { run = λ s p. p }

  pub raise-Ensures :
      {A : Type 0} {P : S → Type 0} {Q : A → S → Type 0} {e : E} → Ensures P (raise e) Q P
  raise-Ensures = record { run = λ s p. p }

  pub check_none-same : (c : Option E) (s : S) → (check_none c s).1 ≡ s
  check_none-same none s = refl
  check_none-same (some e) s = refl

  pub checks : {P : S → Type 0} (c : Option E) → Ensures P (check_none c) (λ _. P) P
  checks c = reads (check_none-same c)

  pub on_failure :
      {A : Type 0} {P X X' : S → Type 0} {Q : A → S → Type 0} {m : Action S E A}
      → ((s : S) → X s → X' s)
      → Ensures P m Q X
      → Ensures P m Q X'
  on_failure x h = weaken (λ _ p. p) (λ _ _ q. q) x h

  -- A fact that does not depend on the state.
  pub given :
      {A F : Type 0} {P : S → Type 0} {Q : A → S → Type 0} {X : S → Type 0} {m : Action S E A}
      → (F → Ensures P m Q X)
      → Ensures (λ s. P s × F) m Q X
  given h = record { run = λ s (p, f). (h f).run s p }
