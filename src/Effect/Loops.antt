-- ===== src/Effect/Loops.antt =====
-- `for (x of xs) { try { return await task(x) } catch (e) { if (!skip(e)) throw e } } throw last`
use typedb_client_java.Prelude.{
  List, [], ◌∷◌, ◌≡◌, ◌⊎◌, inl, inr, Bool, true, false, arith, Any, All, ◌++◌, Bool-cases,
}
use typedb_client_java.Errors.DriverError.{Thrown}
use typedb_client_java.Effect.Defs.{Result-cases, ok, err, Eff}

module _ {S A X : Type 0} (task : X → Eff S A) (skip : Thrown → Bool) (last : Thrown) where
  unfoldable pub try_each : List X → Eff S A
  try_each [] s = (err last, s)
  try_each (x ∷ xs) s =
      let (r, s') = task x s in
      elim r [
        | ok a ↦ (ok a, s')
        | err e ↦ elim (skip e) [ true ↦ try_each xs s' | false ↦ (err e, s') ]
      ]

  -- A value comes from one of the items.
  pub try_each-ok :
      (xs : List X) (s : S) (a : A)
      → (try_each xs s).0 ≡ ok a
      → Any (λ x. (t : S) × ((task x t).0 ≡ ok a)) xs
  unfolding try_each
  try_each-ok [] s a h = cc
  try_each-ok (x ∷ xs) s a h = elim (Result-cases (task x s).0) [
    | inl (b, done) ↦ inl (s, ground (arith, done))
    | inr (e, failed) ↦ elim (Bool-cases (skip e)) [
      | inl again ↦ inr (try_each-ok xs (task x s).1 a (ground (arith, failed, again)))
      | inr stop ↦ ground (arith, failed, stop)
    ]
  ]

  -- The items that may be skipped are; what the loop throws is `last`, or an error that may not be.
  pub try_each-err :
      (xs : List X) (s : S) (e : Thrown)
      → (try_each xs s).0 ≡ err e
      → (e ≡ last) ⊎ ((skip e ≡ false) × Any (λ x. (t : S) × ((task x t).0 ≡ err e)) xs)
  unfolding try_each
  try_each-err [] s e h = inl cc
  try_each-err (x ∷ xs) s e h = elim (Result-cases (task x s).0) [
    | inl (b, done) ↦ ground (arith, done)
    | inr (f, failed) ↦ elim (Bool-cases (skip f)) [
      | inl again ↦ elim (try_each-err xs (task x s).1 e (ground (arith, failed, again))) [
        | inl h ↦ inl h
        | inr (refused, there) ↦ inr (refused, inr there)
      ]
      | inr stop ↦ inr (ground (arith, failed, stop), inl (s, ground (arith, failed, stop)))
    ]
  ]

  -- The loop gets past items whose errors are skipped, to one that gives a value.
  pub try_each-reaches :
      (before after : List X) (x : X) (a : A) (s : S)
      → All (λ y. (t : S) → (e : Thrown) × (skip e ≡ true) × ((task y t).0 ≡ err e)) before
      → ((t : S) → (task x t).0 ≡ ok a)
      → (try_each (before ++ x ∷ after) s).0 ≡ ok a
  unfolding try_each
  try_each-reaches [] after x a s h k = ground (arith, k s)
  try_each-reaches (y ∷ before) after x a s (h, hs) k =
      let (e, skipped, failed) = h s in
      let rest = try_each-reaches before after x a (task y s).1 hs k in
      ground (arith, failed, skipped, rest)
