-- ===== src/Transport/Collector/Laws.antt =====
-- Which queues the operations of nodejs/stream/ResponseCollector.ts reach.
use text.Mathlib.Text.{◌==◌}
use text.Mathlib.TextEquality.{eq_iff}
use typedb_client_java.Prelude.{
  Bool-cases, ℕ, suc, ◌<◌, List, [], ◌∷◌, Option, some, String, ◌≡◌, ◌≢◌, refl, ◌∙◌, sym, subst,
  arith, All, Any, inl, inr,
}
use typedb_client_java.Prelude.Assoc.{Assoc, lookup, insert, values, lookup-insert_self}
use typedb_client_java.Errors.DriverError.{Cause}
use typedb_client_java.Transport.BlockingQueue.{BlockingQueue, update, empty}
use typedb_client_java.Transport.BlockingQueue
use typedb_client_java.Transport.Collector.{
  done, Collector, close_queue, queue, get, close_all, close,
}

-- No address stands twice.
abbrev pub Distinct : List ℕ → Type 0
Distinct [] = Unit
Distinct (a ∷ rest) = All (λ b. b ≢ a) rest × Distinct rest

abbrev Absent : ℕ → List ℕ → Type 0
Absent a = All (λ b. b ≢ a)

-- Addresses in the table have been allocated, and no two request ids share a queue.
pub record IsValid {T : Type 0} (c : Collector T) : Type 0 where
  pub below : All (λ a. a < c.allocated) (values c.response_queues)
  pub distinct : Distinct (values c.response_queues)

Absent-ne : (a b : ℕ) (rest : List ℕ) → Absent b rest → Any (λ x. x ≡ a) rest → b ≢ a
Absent-ne a b [] _ m = elim m [ ]
Absent-ne a b (x ∷ rest) (h, hs) (inl e) = λ f. h (e ∙ sym f)
Absent-ne a b (x ∷ rest) (h, hs) (inr m) = Absent-ne a b rest hs m

module _ {T : Type 0} where
  close_all-Absent :
      (rest : List ℕ) (e : Option Cause) (c : Collector T) (a : ℕ)
      → Absent a rest
      → (close_all rest e c).heap a ≡ c.heap a
  unfolding close_all close_queue
  close_all-Absent [] e c a h = refl
  close_all-Absent (b ∷ rest) e c a (h, hs) =
      ground (arith, close_all-Absent rest e (close_queue b e c) a hs)

  close_all-present :
      (rest : List ℕ) (e : Option Cause) (c : Collector T) (a : ℕ)
      → Distinct rest
      → Any (λ b. b ≡ a) rest
      → (close_all rest e c).heap a ≡ BlockingQueue.add (done e) (c.heap a)
  unfolding close_all close_queue
  close_all-present [] e c a _ m = elim m [ ]
  close_all-present (b ∷ rest) e c a (fresh, d) (inl h) =
      ground
        (arith, close_all-Absent rest e (close_queue b e c) a (subst (λ x. Absent x rest) h fresh))
  close_all-present (b ∷ rest) e c a (fresh, d) (inr h) =
      ground (arith, Absent-ne a b rest fresh h, close_all-present rest e (close_queue b e c) a d h)

below-ne : (n : ℕ) (rest : List ℕ) → All (λ a. a < n) rest → Absent n rest
below-ne n [] h = tt
below-ne n (a ∷ rest) (h, hs) = (omega arith, below-ne n rest hs)

below-suc : (n : ℕ) (rest : List ℕ) → All (λ a. a < n) rest → All (λ a. a < suc n) rest
below-suc n [] h = tt
below-suc n (a ∷ rest) (h, hs) = (omega arith, below-suc n rest hs)

-- Where the values of a table with one more entry come from.
All-insert :
    (P : ℕ → Type 0) (k : String) (n : ℕ) (m : Assoc ℕ)
    → P n
    → All P (values m)
    → All P (values (insert k n m))
unfolding insert
All-insert P k n [] p h = (p, tt)
All-insert P k n ((j, a) ∷ m) p (h, hs) = ground (arith, All-insert P k n m p hs)

Distinct-insert :
    (k : String) (n : ℕ) (m : Assoc ℕ)
    → Absent n (values m)
    → Distinct (values m)
    → Distinct (values (insert k n m))
unfolding insert
Distinct-insert k n [] h d = (tt, tt)
Distinct-insert k n ((j, a) ∷ m) (h, hs) (f, d) =
    ground (arith, All-insert (λ b. b ≢ a) k n m (λ e. h (sym e)) f, Distinct-insert k n m hs d)

lookup-Any : (k : String) (a : ℕ) (m : Assoc ℕ) → lookup k m ≡ some a → Any (λ x. x ≡ a) (values m)
unfolding lookup
lookup-Any k a [] h = cc
lookup-Any k a ((j, b) ∷ m) h = elim (Bool-cases (j == k)) [
  | inl hit ↦ inl (ground (arith, hit))
  | inr miss ↦ inr (lookup-Any k a m (ground (arith, miss)))
]

-- Distinct values stand under distinct keys.
pub lookup-ne :
    (k j : String) (a b : ℕ) (m : Assoc ℕ)
    → Distinct (values m)
    → k ≢ j
    → lookup k m ≡ some a
    → lookup j m ≡ some b
    → b ≢ a
unfolding lookup
lookup-ne k j a b [] d h e f = cc
lookup-ne k j a b ((i, c) ∷ m) (fresh, d) h e f = elim (Bool-cases (i == k)) [
  | inl hit ↦
      ground (arith, hit, eq_iff i k, eq_iff i j, Absent-ne b c (values m) fresh, lookup-Any j b m)
  | inr miss ↦ elim (Bool-cases (i == j)) [
    | inl hit ↦ ground (arith, miss, hit, Absent-ne a c (values m) fresh, lookup-Any k a m)
    | inr other ↦ lookup-ne k j a b m d h (ground (arith, miss)) (ground (arith, other))
  ]
]

module _ {T : Type 0} where
  -- A queue that is asked for is new, is the one that `get` finds, and keeps the table valid.
  pub get-queue :
      (uuid : String) (c : Collector T)
      → IsValid c
      → (get uuid (queue uuid c).1 ≡ some (queue uuid c).0)
        × ((queue uuid c).1.heap (queue uuid c).0 ≡ empty)
        × IsValid (queue uuid c).1
  unfolding get queue
  get-queue uuid c v = (
    lookup-insert_self uuid c.allocated c.response_queues,
    ground arith,
    record {
      below =
          All-insert (λ a. a < suc c.allocated) uuid c.allocated c.response_queues (omega arith)
            (below-suc c.allocated (values c.response_queues) v.below);
      distinct =
          Distinct-insert uuid c.allocated c.response_queues
            (below-ne c.allocated (values c.response_queues) v.below) v.distinct;
    },
  )

  -- Closing a collector adds the end, with the error, to each queue of its table exactly once, and
  -- leaves every queue that is not in the table as it was.
  pub close-heap :
      (c : Collector T) (e : Option Cause)
      → IsValid c
      → ((uuid : String) (a : ℕ)
          → get uuid c ≡ some a
          → (close e c).heap a ≡ BlockingQueue.add (done e) (c.heap a))
        × ((a : ℕ) → All (λ b. b ≢ a) (values c.response_queues) → (close e c).heap a ≡ c.heap a)
  unfolding close get
  close-heap c e v = (
    λ uuid a h.
        close_all-present (values c.response_queues) e c a v.distinct
          (lookup-Any uuid a c.response_queues h),
    λ a h. close_all-Absent (values c.response_queues) e c a h,
  )
