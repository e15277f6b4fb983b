-- ===== src/Stream/Laws.antt =====
-- The operations of nodejs/common/util/Stream.ts against the items of a stream and its exception.
use mathlib.Core.List.{foldl}
use typedb_client_java.Prelude.{
  List, [], ◌∷◌, ◌++◌, map, Option, none, some, Bool, true, not, ◌≡◌, refl, sym, ◌∙◌, ap, arith,
  All, ◌↔◌, filter, append_assoc, append-nil,
}
use typedb_client_java.Errors.DriverError.{Thrown}
use typedb_client_java.Effect.{Result, ok, err}
use typedb_client_java.Stream.{
  Stream, end, fails, item, array, collect_from, collect, every, some_of, filtered, for_each,
  then_from, mapped, flat_mapped,
}

-- A result, unless the stream failed.
abbrev pub or_failure {ℓ} : {A : Type ℓ} → Option Thrown → A → Result A
or_failure none a = ok a
or_failure (some e) a = err e

abbrev pub negate : Result Bool → Result Bool
negate (ok b) = ok (not b)
negate (err e) = err e

module _ {ℓ} {T : Type ℓ} where
  abbrev pub items : Stream T → List T
  items end = []
  items (fails e) = []
  items (item x s) = x ∷ items s

  abbrev pub failure : Stream T → Option Thrown
  failure end = none
  failure (fails e) = some e
  failure (item x s) = failure s

  collect_from-items :
      (answers : List T) (s : Stream T)
      → collect_from answers s ≡ or_failure (failure s) (answers ++ items s)
  unfolding collect_from
  collect_from-items answers end = ap ok (sym (append-nil answers))
  collect_from-items answers (fails e) = refl
  collect_from-items answers (item x s) =
      collect_from-items (answers ++ x ∷ []) s
      ∙ ap (or_failure (failure s)) (append_assoc answers (x ∷ []) (items s))

  -- `collect` gives all items in order, or the exception.
  pub collect-items : (s : Stream T) → collect s ≡ or_failure (failure s) (items s)
  unfolding collect
  collect-items s = collect_from-items [] s

  -- Two streams with the same items and the same end are one.
  pub Stream-ext : (s t : Stream T) → items s ≡ items t → failure s ≡ failure t → s ≡ t
  Stream-ext end end h k = refl
  Stream-ext end (fails e) h k = cc
  Stream-ext end (item x t) h k = cc
  Stream-ext (fails e) end h k = cc
  Stream-ext (fails e) (fails f) h k = cc
  Stream-ext (fails e) (item x t) h k = cc
  Stream-ext (item x s) end h k = cc
  Stream-ext (item x s) (fails e) h k = cc
  Stream-ext (item x s) (item y t) h k = cc (Stream-ext s t (cc) k)

  items-filtered : (p : T → Bool) (s : Stream T) → items (filtered p s) ≡ filter p (items s)
  unfolding filtered
  items-filtered p end = refl
  items-filtered p (fails e) = refl
  items-filtered p (item x s) = ground (arith, items-filtered p s)

  failure-filtered : (p : T → Bool) (s : Stream T) → failure (filtered p s) ≡ failure s
  unfolding filtered
  failure-filtered p end = refl
  failure-filtered p (fails e) = refl
  failure-filtered p (item x s) = ground (arith, failure-filtered p s)

  items-array : (xs : List T) → items (array xs) ≡ xs
  unfolding array
  items-array [] = refl
  items-array (x ∷ xs) = ap (◌∷◌ x) (items-array xs)

  failure-array : (xs : List T) → failure (array xs) ≡ none
  unfolding array
  failure-array [] = refl
  failure-array (x ∷ xs) = failure-array xs

  -- `some` is `every` with the test and the answer negated.
  pub some_of-every :
      (p : T → Bool) (s : Stream T) → some_of p s ≡ negate (every (λ x. not (p x)) s)
  unfolding some_of every
  some_of-every p end = refl
  some_of-every p (fails e) = refl
  some_of-every p (item x s) = ground (arith, some_of-every p s)

  -- `every` answers true exactly when every item passes the test and the stream ends without an
  -- exception.
  pub every_iff :
      (p : T → Bool) (s : Stream T)
      → (every p s ≡ ok true) ↔ (All (λ x. p x ≡ true) (items s) × (failure s ≡ none))
  unfolding every
  every_iff p end = ((λ _. (tt, refl)), λ _. refl)
  every_iff p (fails e) = ((λ h. cc), λ h. cc (h.1))
  every_iff p (item x s) = ground (arith, every_iff p s)

  items-then_from : (s t : Stream T) → failure s ≡ none → items (then_from s t) ≡ items s ++ items t
  unfolding then_from
  items-then_from end t h = refl
  items-then_from (fails e) t h = cc
  items-then_from (item x s) t h = ap (◌∷◌ x) (items-then_from s t h)

  then_from_assoc : (r s t : Stream T) → then_from (then_from r s) t ≡ then_from r (then_from s t)
  unfolding then_from
  then_from_assoc end s t = refl
  then_from_assoc (fails e) s t = refl
  then_from_assoc (item x r) s t = ap (item x) (then_from_assoc r s t)

  -- `forEach` visits the items in order, all of those before an exception.
  pub for_each-foldl {κ} :
      {S : Type κ} (f : T → S → S) (s : Stream T) (a : S)
      → for_each f s a ≡ (or_failure (failure s) tt, foldl (λ b x. f x b) a (items s))
  unfolding for_each
  for_each-foldl f end a = refl
  for_each-foldl f (fails e) a = refl
  for_each-foldl f (item x s) a = for_each-foldl f s (f x a)

module _ {ℓ κ} {T : Type ℓ} {U : Type κ} where
  items-mapped : (f : T → U) (s : Stream T) → items (mapped f s) ≡ map f (items s)
  unfolding mapped
  items-mapped f end = refl
  items-mapped f (fails e) = refl
  items-mapped f (item x s) = ap (◌∷◌ (f x)) (items-mapped f s)

  failure-mapped : (f : T → U) (s : Stream T) → failure (mapped f s) ≡ failure s
  unfolding mapped
  failure-mapped f end = refl
  failure-mapped f (fails e) = refl
  failure-mapped f (item x s) = failure-mapped f s

  flat_mapped-then_from :
      (f : T → Stream U) (s t : Stream T)
      → flat_mapped f (then_from s t) ≡ then_from (flat_mapped f s) (flat_mapped f t)
  unfolding flat_mapped
  flat_mapped-then_from f end t = refl
  flat_mapped-then_from f (fails e) t = refl
  flat_mapped-then_from f (item x s) t =
      ap (then_from (f x)) (flat_mapped-then_from f s t)
      ∙ sym (then_from_assoc (f x) (flat_mapped f s) (flat_mapped f t))

  -- Collecting a stream that was mapped and then filtered gives what the list operations give on
  -- its items, or the exception that it ends with.
  pub collect-filtered-mapped :
      (p : U → Bool) (f : T → U) (s : Stream T)
      → collect (filtered p (mapped f s)) ≡ or_failure (failure s) (filter p (map f (items s)))
  collect-filtered-mapped p f s =
      collect-items (filtered p (mapped f s))
      ∙ simp (items-filtered, failure-filtered, items-mapped, failure-mapped)

-- Nesting `flatMap` to the left or to the right gives the same stream, exceptions included.
pub flat_mapped_assoc {ℓ κ μ} :
    {T : Type ℓ} {U : Type κ} {V : Type μ} (f : T → Stream U) (g : U → Stream V) (s : Stream T)
    → flat_mapped g (flat_mapped f s) ≡ flat_mapped (λ x. flat_mapped g (f x)) s
unfolding flat_mapped
flat_mapped_assoc f g end = refl
flat_mapped_assoc f g (fails e) = refl
flat_mapped_assoc f g (item x s) =
    flat_mapped-then_from g (f x) (flat_mapped f s)
    ∙ ap (then_from (flat_mapped g (f x))) (flat_mapped_assoc f g s)
