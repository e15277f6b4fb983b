-- ===== src/Stream.antt =====
-- nodejs/common/util/Stream.ts. A stream is what its asynchronous iterator delivers: items, and then
-- the end or an exception. Loops read no further than they need.
pub mod Laws
use typedb_client_java.Prelude.{
  List, [], ◌∷◌, ◌++◌, Option, none, some, Bool, true, false, if◌then◌else◌,
}
use typedb_client_java.Errors.DriverError.{Thrown}
use typedb_client_java.Effect.{Result, ok, err}

pub data Stream {ℓ} (T : Type ℓ) : Type ℓ where
  end : Stream T
  fails : Thrown → Stream T
  item : T → Stream T → Stream T

module _ {ℓ} {T : Type ℓ} where
  -- `Stream.iterable`: `for await (val of provider) yield val`.
  unfoldable pub iterable : Stream T → Stream T
  iterable end = end
  iterable (fails e) = fails e
  iterable (item x s) = item x (iterable s)

  -- `Stream.array`
  unfoldable pub array : List T → Stream T
  array [] = end
  array (x ∷ xs) = item x (array xs)

  -- `Stream.promises`: the loop awaits each promise in turn.
  unfoldable pub promises : List (Result T) → Stream T
  promises [] = end
  promises (ok x ∷ xs) = item x (promises xs)
  promises (err e ∷ xs) = fails e

  -- `collect`, with the array `answers` built so far.
  collect_from : List T → Stream T → Result (List T)
  collect_from answers end = ok answers
  collect_from answers (fails e) = err e
  collect_from answers (item x s) = collect_from (answers ++ x ∷ []) s

  unfoldable pub collect : Stream T → Result (List T)
  unfolding collect_from
  collect s = collect_from [] s

  unfoldable pub every : (T → Bool) → Stream T → Result Bool
  every p end = ok true
  every p (fails e) = err e
  every p (item x s) = if p x then every p s else ok false

  unfoldable pub some_of : (T → Bool) → Stream T → Result Bool
  some_of p end = ok false
  some_of p (fails e) = err e
  some_of p (item x s) = if p x then ok true else some_of p s

  -- `filter`: the class `Filtered`.
  unfoldable pub filtered : (T → Bool) → Stream T → Stream T
  filtered p end = end
  filtered p (fails e) = fails e
  filtered p (item x s) = if p x then item x (filtered p s) else filtered p s

  -- `forEach` with a function that changes a state.
  unfoldable pub for_each {κ} : {S : Type κ} → (T → S → S) → Stream T → S → Result (Unit {0}) × S
  for_each f end s = (ok tt, s)
  for_each f (fails e) s = (err e, s)
  for_each f (item x rest) s = for_each f rest (f x s)

  unfoldable pub first : Stream T → Result (Option T)
  first end = ok none
  first (fails e) = err e
  first (item x s) = ok (some x)

  -- The items of `s` and then those of `rest`, as one `for await` after the other.
  unfoldable pub then_from : Stream T → Stream T → Stream T
  then_from end rest = rest
  then_from (fails e) rest = fails e
  then_from (item x s) rest = item x (then_from s rest)

module _ {ℓ κ} {T : Type ℓ} {U : Type κ} where
  -- `map`: the class `Mapped`.
  unfoldable pub mapped : (T → U) → Stream T → Stream U
  mapped f end = end
  mapped f (fails e) = fails e
  mapped f (item x s) = item (f x) (mapped f s)

  -- `flatMap`: the class `FlatMapped`.
  unfoldable pub flat_mapped : (T → Stream U) → Stream T → Stream U
  unfolding then_from
  flat_mapped f end = end
  flat_mapped f (fails e) = fails e
  flat_mapped f (item x s) = then_from (f x) (flat_mapped f s)
