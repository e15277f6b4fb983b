-- ===== src/Transport/BlockingQueue.antt =====
-- nodejs/common/util/BlockingQueue.ts. Promises are numbered in the order of their creation; a
-- resolver is the number of its promise, and `settled` says what each promise was resolved with.
pub mod Delivery
use typedb_client_java.Prelude.{
  ℕ, suc, List, [], ◌∷◌, ◌++◌, Option, none, some, ◌==◌, if◌then◌else◌,
}

pub record BlockingQueue {ℓ} (T : Type ℓ) : Type ℓ where
  pub promises : List ℕ
  pub resolvers : List ℕ
  pub created : ℕ
  pub settled : ℕ → Option T

abbrev pub update {ℓ} : {A : Type ℓ} → (ℕ → A) → ℕ → A → ℕ → A
update f i a j = if i == j then a else f j

module _ {ℓ} {T : Type ℓ} where
  unfoldable pub empty : BlockingQueue T
  empty = record { promises = []; resolvers = []; created = 0; settled = λ _. none }

  unfoldable pub add_promise : BlockingQueue T → BlockingQueue T
  add_promise q = record q {
    promises = q.promises ++ q.created ∷ [];
    resolvers = q.resolvers ++ q.created ∷ [];
    created = suc q.created;
  }

  -- `if (!list.length) this.addPromise()`
  ensure : List ℕ → BlockingQueue T → BlockingQueue T
  unfolding add_promise
  ensure [] q = add_promise q
  ensure (_ ∷ _) q = q

  -- `resolvers.shift()(t)`; the list is not empty here.
  resolve_next : List ℕ → T → BlockingQueue T → BlockingQueue T
  resolve_next [] t q = q
  resolve_next (r ∷ rs) t q = record q { resolvers = rs; settled = update q.settled r (some t) }

  unfoldable pub add : T → BlockingQueue T → BlockingQueue T
  unfolding ensure resolve_next
  add t q = let q' = ensure q.resolvers q in resolve_next q'.resolvers t q'

  -- `promises.shift()`, the number of the promise that the caller waits for.
  shift_promise : List ℕ → BlockingQueue T → Option ℕ × BlockingQueue T
  shift_promise [] q = (none, q)
  shift_promise (p ∷ ps) q = (some p, record q { promises = ps })

  unfoldable pub take : BlockingQueue T → Option ℕ × BlockingQueue T
  unfolding ensure shift_promise
  take q = let q' = ensure q.promises q in shift_promise q'.promises q'
