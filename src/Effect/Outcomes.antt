-- ===== src/Effect/Outcomes.antt =====
-- What a computation may end with, as a pair of postconditions.
use typedb_client_java.Prelude.{
  List, [], ◌∷◌, Bool, true, false, ◌≡◌, refl, subst, inl, inr, Bool-cases,
}
use typedb_client_java.Errors.DriverError.{Thrown}
use typedb_client_java.Effect.Defs.{Result, ok, err, Eff, try_catch, ◌>>=◌}
use typedb_client_java.Effect.Loops.{try_each}

-- `Q` holds of a value and the state beside it, `E` of what is thrown and that state.
abbrev pub Ends : {S A : Type 0} → (A → S → Type 0) → (Thrown → S → Type 0) → Result A × S → Type 0
Ends Q E (ok a, s) = Q a s
Ends Q E (err e, s) = E e s

-- One attempt of a loop that skips some errors: `I` holds where the loop goes on.
pub attempt-Ends :
    {S A : Type 0} (skip : Thrown → Bool) (Q : A → S → Type 0) (E : Thrown → S → Type 0)
    (I : S → Type 0) (p : Result A × S)
    → ((a : A) → Q a p.1)
    → ((e : Thrown) → p.0 ≡ err e → skip e ≡ false → E e p.1)
    → I p.1
    → Ends Q (λ e t. (skip e ≡ false → E e t) × (skip e ≡ true → I t)) p
attempt-Ends skip Q E I (ok a, s) h k i = h a
attempt-Ends skip Q E I (err e, s) h k i = (k e refl, λ _. i)

pub Ends-err :
    {S A : Type 0} (Q : A → S → Type 0) (E : Thrown → S → Type 0) (p : Result A × S) (e : Thrown)
    → Ends Q E p
    → p.0 ≡ err e
    → E e p.1
Ends-err Q E (ok a, s) e h f = cc
Ends-err Q E (err d, s) e h f = subst (λ x. E x s) (cc) h

-- A bound on the state, whatever the outcome.
pub Ends-state :
    {S A : Type 0} (P : S → Type 0) (p : Result A × S) → Ends (λ _ t. P t) (λ _ t. P t) p → P p.1
Ends-state P (ok a, s) h = h
Ends-state P (err d, s) h = h

module _ {S A : Type 0} (Q : A → S → Type 0) (E : Thrown → S → Type 0) where
  bind-Ends_at :
      {B : Type 0} (R : B → S → Type 0) (p : Result A × S) (f : A → Eff S B)
      → Ends Q E p
      → ((a : A) (s : S) → Q a s → Ends R E (f a s))
      → Ends R E (elim p.0 [ ok a ↦ f a p.1 | err e ↦ (err e, p.1) ])
  bind-Ends_at R (ok a, s) f h k = k a s h
  bind-Ends_at R (err e, s) f h k = h

  pub bind-Ends :
      {B : Type 0} (R : B → S → Type 0) (m : Eff S A) (f : A → Eff S B) (s : S)
      → Ends Q E (m s)
      → ((a : A) (t : S) → Q a t → Ends R E (f a t))
      → Ends R E ((m >>= f) s)
  bind-Ends R m f s h k = bind-Ends_at R (m s) f h k

  catch-Ends_at :
      (F : Thrown → S → Type 0) (p : Result A × S) (f : Thrown → Eff S A)
      → Ends Q E p
      → ((e : Thrown) (s : S) → E e s → Ends Q F (f e s))
      → Ends Q F (elim p.0 [ ok a ↦ (ok a, p.1) | err e ↦ f e p.1 ])
  catch-Ends_at F (ok a, s) f h k = h
  catch-Ends_at F (err e, s) f h k = k e s h

  pub catch-Ends :
      (F : Thrown → S → Type 0) (m : Eff S A) (f : Thrown → Eff S A) (s : S)
      → Ends Q E (m s)
      → ((e : Thrown) (t : S) → E e t → Ends Q F (f e t))
      → Ends Q F (try_catch m f s)
  catch-Ends F m f s h k = catch-Ends_at F (m s) f h k

-- The loop: `I` holds before each item, what is thrown and not skipped satisfies `E`, and so does
-- `last` at the end.
module _ {S A X : Type 0} (task : X → Eff S A) (skip : Thrown → Bool) (last : Thrown)
    (Q : A → S → Type 0) (E : Thrown → S → Type 0) (I : List X → S → Type 0) where
  abbrev Round : Result A × S → List X → Type 0
  Round p xs = Ends Q (λ e t. (skip e ≡ false → E e t) × (skip e ≡ true → I xs t)) p

  step-Ends :
      (p : Result A × S) (xs : List X)
      → Round p xs
      → ((t : S) → I xs t → Ends Q E (try_each task skip last xs t))
      → Ends Q E (elim p.0 [
        | ok a ↦ (ok a, p.1)
        | err e ↦ elim (skip e) [ true ↦ try_each task skip last xs p.1 | false ↦ (err e, p.1) ]
      ])
  step-Ends (ok a, t) xs h k = h
  step-Ends (err e, t) xs (stop, go) k = elim (Bool-cases (skip e)) [
    | inl yes_skip ↦ rw yes_skip (k t (go yes_skip))
    | inr no_skip ↦ rw no_skip (stop no_skip)
  ]

  pub try_each-Ends :
      ((t : S) → I [] t → E last t)
      → ((x : X) (xs : List X) (t : S) → I (x ∷ xs) t → Round (task x t) xs)
      → (xs : List X) (s : S) → I xs s
      → Ends Q E (try_each task skip last xs s)
  unfolding try_each
  try_each-Ends final each [] s i = final s i
  try_each-Ends final each (x ∷ xs) s i =
      step-Ends (task x s) xs (each x xs s i) (try_each-Ends final each xs)
