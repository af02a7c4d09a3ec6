-- ===== src/Common/Effect.antt =====
-- Coroutines that change a state and may raise: functions from the state to an outcome and the
-- state after it, and what holds of both.
use mathlib.Core.Path.{◌≡◌, refl}
use mathlib.Core.Logic.{◌⊎◌, inl, inr}

pub data Outcome (X A : Type 0) : Type 0 where
  returned : A → Outcome X A
  raised : X → Outcome X A

pub Outcome-cases :
    {X A : Type 0} (o : Outcome X A) → ((a : A) × (o ≡ returned a)) ⊎ ((e : X) × (o ≡ raised e))
Outcome-cases (returned a) = inl (a, refl)
Outcome-cases (raised e) = inr (e, refl)

-- `S` is the state, `X` the exceptions.
abbrev pub Effect : Type 0 → Type 0 → Type 0 → Type 0
Effect S X A = S → Outcome X A × S

module _ {S X : Type 0} where
  abbrev pub after : {A B : Type 0} → (A → Effect S X B) → Outcome X A × S → Outcome X B × S
  after f (returned a, s) = f a s
  after f (raised e, s) = (raised e, s)

  infixl 5 ◌>>=◌ ◌>>◌
  abbrev pub ◌>>=◌ : {A B : Type 0} → Effect S X A → (A → Effect S X B) → Effect S X B
  ◌>>=◌ m f s = after f (m s)

  abbrev pub ◌>>◌ : {A B : Type 0} → Effect S X A → Effect S X B → Effect S X B
  m >> k = m >>= λ _. k

  abbrev pub give : {A : Type 0} → A → Effect S X A
  give a s = (returned a, s)

  abbrev pub throw : {A : Type 0} → X → Effect S X A
  throw e s = (raised e, s)

  -- An outcome that comes from outside.
  abbrev pub answer : {A : Type 0} → Outcome X A → Effect S X A
  answer a s = (a, s)

  abbrev pub modify : (S → S) → Effect S X (Unit {0})
  modify f s = (returned tt, f s)

  -- `try: a = m` with the `except` clauses of `h`, and the statements `f` after it.
  abbrev pub resume :
      {A B : Type 0} → (A → Effect S X B) → (X → Effect S X B) → Outcome X A × S → Outcome X B × S
  resume f h (returned a, s) = f a s
  resume f h (raised e, s) = h e s

  abbrev pub try_else :
      {A B : Type 0} → Effect S X A → (A → Effect S X B) → (X → Effect S X B) → Effect S X B
  try_else m f h s = resume f h (m s)

  -- What holds of an outcome and of the state after it.
  abbrev pub Ends : {A : Type 0} → (A → S → Type 0) → (X → S → Type 0) → Outcome X A × S → Type 0
  Ends P Q (returned a, s) = P a s
  Ends P Q (raised e, s) = Q e s

  module _ {A B : Type 0} (P : A → S → Type 0) (T : X → S → Type 0) (R : B → S → Type 0)
      (Q : X → S → Type 0) where
    resume-Ends :
        (f : A → Effect S X B) (h : X → Effect S X B) (r : Outcome X A × S)
        → Ends P T r
        → ((a : A) (s : S) → P a s → Ends R Q (f a s))
        → ((e : X) (s : S) → T e s → Ends R Q (h e s))
        → Ends R Q (resume f h r)
    resume-Ends f h (returned a, s) p k l = k a s p
    resume-Ends f h (raised e, s) p k l = l e s p

    pub try_else-Ends :
        (m : Effect S X A) (f : A → Effect S X B) (h : X → Effect S X B) (s : S)
        → Ends P T (m s)
        → ((a : A) (s' : S) → P a s' → Ends R Q (f a s'))
        → ((e : X) (s' : S) → T e s' → Ends R Q (h e s'))
        → Ends R Q (try_else m f h s)
    try_else-Ends m f h s p k l = resume-Ends f h (m s) p k l

  module _ {A B : Type 0} (P : A → S → Type 0) (R : B → S → Type 0) (Q : X → S → Type 0) where
    after-Ends :
        (f : A → Effect S X B) (r : Outcome X A × S)
        → Ends P Q r
        → ((a : A) (s : S) → P a s → Ends R Q (f a s))
        → Ends R Q (after f r)
    after-Ends f (returned a, s) p k = k a s p
    after-Ends f (raised e, s) p k = p

    pub bind-Ends :
        (m : Effect S X A) (f : A → Effect S X B) (s : S)
        → Ends P Q (m s)
        → ((a : A) (s' : S) → P a s' → Ends R Q (f a s'))
        → Ends R Q ((m >>= f) s)
    bind-Ends m f s p k = after-Ends f (m s) p k

  pub weaken-Ends :
      {A : Type 0} (P R : A → S → Type 0) (Q T : X → S → Type 0) (r : Outcome X A × S)
      → Ends P Q r
      → ((a : A) (s : S) → P a s → R a s)
      → ((e : X) (s : S) → Q e s → T e s)
      → Ends R T r
  weaken-Ends P R Q T (returned a, s) h p q = p a s h
  weaken-Ends P R Q T (raised e, s) h p q = q e s h

  -- Statements after a step that does not raise.
  pub sure-Ends :
      {A B : Type 0} (P : A → S → Type 0) (R : B → S → Type 0) (Q : X → S → Type 0)
      (m : Effect S X A) (f : A → Effect S X B) (s : S)
      → Ends P (λ _ _. ⊥) (m s)
      → ((a : A) (s' : S) → P a s' → Ends R Q (f a s'))
      → Ends R Q ((m >>= f) s)
  sure-Ends P R Q m f s p k =
      bind-Ends P R Q m f s (weaken-Ends P P (λ _ _. ⊥) Q (m s) p (λ _ _ h. h) (λ _ _ h. absurd h))
        k

  -- Statements after an answer from outside.
  pub answer-Ends :
      {A B : Type 0} (R : B → S → Type 0) (Q : X → S → Type 0) (o : Outcome X A)
      (f : A → Effect S X B) (s : S)
      → ((a : A) → o ≡ returned a → Ends R Q (f a s))
      → ((e : X) → o ≡ raised e → Q e s)
      → Ends R Q ((answer o >>= f) s)
  answer-Ends R Q (returned a) f s k l = k a refl
  answer-Ends R Q (raised e) f s k l = l e refl

  -- What both ends give holds of the state after.
  pub Ends-state :
      {A : Type 0} (P : A → S → Type 0) (Q : X → S → Type 0) (I : S → Type 0) (r : Outcome X A × S)
      → ((a : A) (s : S) → P a s → I s)
      → ((e : X) (s : S) → Q e s → I s)
      → Ends P Q r
      → I (r.1)
  Ends-state P Q I (returned a, s) p q h = p a s h
  Ends-state P Q I (raised e, s) p q h = q e s h
