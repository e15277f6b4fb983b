-- ===== src/Query/Answers.antt =====
-- The answers that the streams of nodejs/query/QueryManagerImpl.ts deliver.
use typedb_client_java.Prelude.{List, [], ◌∷◌, ◌++◌, ◌≡◌, refl, ap, sym, ◌∙◌, arith}
use typedb_client_java.Effect.{Result, ok, err}
use typedb_client_java.Stream.{Stream, end, fails, item, array, then_from, flat_mapped, collect}
use typedb_client_java.Stream.Laws.{collect-items}
use typedb_client_java.Concept.Reading.{and_then}
use typedb_client_java.Concept.Overloads.{and_try, map_try}
use typedb_client_java.Query.{
  Kind, ResPart, TransactionReq, mapped_try, part_answers, part_stream, in_parts, one_by_one,
}

module _ {T : Type 0} where
  collect-item : (x : T) (s : Stream T) → collect (item x s) ≡ and_then (collect s) (λ xs. x ∷ xs)
  collect-item x s = ground (arith, collect-items (item x s), collect-items s)

  append-first :
      (x : T) (r r' : Result (List T))
      → and_then (and_try r (λ xs. and_then r' (λ ys. xs ++ ys))) (λ xs. x ∷ xs)
        ≡ and_try (and_then r (λ xs. x ∷ xs)) (λ xs. and_then r' (λ ys. xs ++ ys))
  append-first x (ok xs) (ok ys) = refl
  append-first x (ok xs) (err e) = refl
  append-first x (err e) r' = refl

  -- The items of two streams, one after the other.
  abbrev pub joined : Result (List T) → Result (List T) → Result (List T)
  joined r' r = and_try r (λ xs. and_then r' (λ ys. xs ++ ys))

  append-none : (r : Result (List T)) → r ≡ and_then r (λ ys. [] ++ ys)
  append-none (ok ys) = refl
  append-none (err e) = refl

  pub collect-then_from :
      (s t : Stream T)
      → collect (then_from s t) ≡ and_try (collect s) (λ xs. and_then (collect t) (λ ys. xs ++ ys))
  unfolding then_from
  collect-then_from end t =
      append-none (collect t) ∙ ap (joined (collect t)) (sym (collect-items end))
  collect-then_from (fails e) t =
      collect-items (fails e) ∙ ap (joined (collect t)) (sym (collect-items (fails e)))
  collect-then_from (item x s) t =
      collect-item x (then_from s t)
      ∙ ap (λ r. and_then r (λ xs. x ∷ xs)) (collect-then_from s t)
      ∙ append-first x (collect s) (collect t)
      ∙ ap (joined (collect t)) (sym (collect-item x s))

-- An item that may fail, before a stream; and a list that may fail, as a stream.
abbrev pub guarded : {U : Type 0} → Result U → Stream U → Stream U
guarded r s = elim r [ ok y ↦ item y s | err e ↦ fails e ]

abbrev pub array_or_fails : {T : Type 0} → Result (List T) → Stream T
array_or_fails r = elim r [ ok xs ↦ array xs | err e ↦ fails e ]

collect-guarded :
    {U : Type 0} (r : Result U) (s : Stream U)
    → collect (guarded r s) ≡ and_try r (λ y. and_then (collect s) (λ ys. y ∷ ys))
collect-guarded (ok y) s = collect-item y s
collect-guarded (err e) s = collect-items (fails e)

then_from-guarded :
    {U : Type 0} (r : Result U) (s t : Stream U)
    → guarded r (then_from s t) ≡ then_from (guarded r s) t
unfolding then_from
then_from-guarded (ok y) s t = refl
then_from-guarded (err e) s t = refl

module _ {T U : Type 0} (f : T → Result U) where
  collect-array : (xs : List T) → collect (mapped_try f (array xs)) ≡ map_try f xs
  unfolding mapped_try array map_try
  collect-array [] = collect-items end
  collect-array (x ∷ xs) =
      collect-guarded (f x) (mapped_try f (array xs))
      ∙ ap (λ r. and_try (f x) (λ y. and_then r (λ ys. y ∷ ys))) (collect-array xs)

  pub collect-array_or_fails :
      (r : Result (List T)) → collect (mapped_try f (array_or_fails r)) ≡ and_try r (map_try f)
  unfolding mapped_try
  collect-array_or_fails (ok xs) = collect-array xs
  collect-array_or_fails (err e) = collect-items (fails e)

  mapped_try-then_from :
      (s t : Stream T) → mapped_try f (then_from s t) ≡ then_from (mapped_try f s) (mapped_try f t)
  unfolding mapped_try then_from
  mapped_try-then_from end t = refl
  mapped_try-then_from (fails e) t = refl
  mapped_try-then_from (item x s) t =
      ap (guarded (f x)) (mapped_try-then_from s t)
      ∙ then_from-guarded (f x) (mapped_try f s) (mapped_try f t)

  pub mapped_try-flat_mapped :
      {S : Type 0} (g : S → Stream T) (s : Stream S)
      → mapped_try f (flat_mapped g s) ≡ flat_mapped (λ x. mapped_try f (g x)) s
  unfolding flat_mapped mapped_try
  mapped_try-flat_mapped g end = refl
  mapped_try-flat_mapped g (fails e) = refl
  mapped_try-flat_mapped g (item x s) =
      mapped_try-then_from (g x) (flat_mapped g s)
      ∙ ap (then_from (mapped_try f (g x))) (mapped_try-flat_mapped g s)

module _ {P A : Kind → Type 0} (read : (k : Kind) → P k → Result (A k)) (k : Kind) where
  -- The answers of a kind in the parts of a response, read in order; the first failure is the outcome.
  unfoldable pub read_all : Stream (ResPart P) → Result (List (A k))
  read_all end = ok []
  read_all (fails e) = err e
  read_all (item part s) =
      and_try (and_try (part_answers k part) (map_try (read k)))
        λ xs. and_then (read_all s) λ ys. xs ++ ys

  module _ (rpc_stream : TransactionReq → Stream (ResPart P)) (req : TransactionReq) where
    collect-parts :
        (s : Stream (ResPart P))
        → collect (flat_mapped (λ part. mapped_try (read k) (part_stream k part)) s) ≡ read_all s
    unfolding flat_mapped read_all part_stream
    collect-parts end = collect-items end
    collect-parts (fails e) = collect-items (fails e)
    collect-parts (item part s) =
        let rest = flat_mapped (λ p. mapped_try (read k) (part_stream k p)) s in
        collect-then_from (mapped_try (read k) (part_stream k part)) rest
        ∙ ap (joined (collect rest)) (collect-array_or_fails (read k) (part_answers k part))
        ∙ ap (λ r. joined r (and_try (part_answers k part) (map_try (read k)))) (collect-parts s)

    -- Collecting the stream of a query gives the answers in the parts of the response, in order, each
    -- read on its own; or the first failure, of the response or of the reading. It is the same whether
    -- answers are read within their parts or one by one after them.
    pub collect-answers :
        (collect (in_parts read rpc_stream k req) ≡ read_all (rpc_stream req))
        × (collect (one_by_one read rpc_stream k req) ≡ read_all (rpc_stream req))
    unfolding in_parts one_by_one
    collect-answers =
        let parts = collect-parts (rpc_stream req) in
        (
          parts,
          ap collect (mapped_try-flat_mapped (read k) (part_stream k) (rpc_stream req)) ∙ parts,
        )
