-- ===== src/Query.antt =====
-- nodejs/query/QueryManagerImpl.ts, over what the transaction delivers for a request. The messages of
-- answers and what is read from them are of the types `P` and `A`.
pub mod Answers
pub mod Readers
use typedb_client_java.Prelude.{ℕ, String, List, [], ◌∷◌, Option, none, some}
use typedb_client_java.Errors.DriverError.{Thrown, js}
use typedb_client_java.Effect.{Result, ok, err, Eff, pure, ◌>>=◌}
use typedb_client_java.Stream.{Stream, end, fails, item, array, flat_mapped}
use typedb_client_java.Connection.Options.{Options, OptionsProto, no_options, proto}
use typedb_client_java.Answer.ConceptMap.{Explainable}
use typedb_client_java.Concept.{Value}
use typedb_client_java.Concept.Reading.{ValueProto, of_value_proto}

pub data QueryReq : Type 0 where
  define_req undefine_req get_req get_aggregate_req get_group_req get_group_aggregate_req fetch_req
        insert_req delete_req update_req :
      (query : String) → QueryReq
  explain_req : (id : ℕ) → QueryReq

-- `queryManagerReq`
pub record TransactionReq : Type 0 where
  pub query : QueryReq
  pub options : OptionsProto

-- The methods that give a stream.
pub data Kind : Type 0 where
  get get_group get_group_aggregate fetch insert update explain : Kind

-- A part of a response has the answers of one kind.
pub data ResPart (P : Kind → Type 0) : Type 0 where
  get_part : List (P Kind.get) → ResPart P
  get_group_part : List (P Kind.get_group) → ResPart P
  get_group_aggregate_part : List (P Kind.get_group_aggregate) → ResPart P
  fetch_part : List (P Kind.fetch) → ResPart P
  insert_part : List (P Kind.insert) → ResPart P
  update_part : List (P Kind.update) → ResPart P
  explain_part : List (P Kind.explain) → ResPart P

-- `if (!options) options = new TypeDBOptions()`
pub request : QueryReq → Option Options → TransactionReq
request q none = record { query = q; options = proto no_options }
request q (some o) = record { query = q; options = proto o }

-- `stream.map(f)` with a function that may throw.
unfoldable pub mapped_try : {T U : Type 0} → (T → Result U) → Stream T → Stream U
mapped_try f end = end
mapped_try f (fails e) = fails e
mapped_try f (item x s) = elim (f x) [ ok y ↦ item y (mapped_try f s) | err e ↦ fails e ]

missing : Thrown
missing = js "TypeError: Cannot read properties of undefined (reading 'answers')"

module _ {P : Kind → Type 0} where
  -- `part.get_res_part.answers` and the like.
  unfoldable pub part_answers : (k : Kind) → ResPart P → Result (List (P k))
  unfolding missing
  part_answers Kind.get (get_part xs) = ok xs
  part_answers Kind.get_group (get_group_part xs) = ok xs
  part_answers Kind.get_group_aggregate (get_group_aggregate_part xs) = ok xs
  part_answers Kind.fetch (fetch_part xs) = ok xs
  part_answers Kind.insert (insert_part xs) = ok xs
  part_answers Kind.update (update_part xs) = ok xs
  part_answers Kind.explain (explain_part xs) = ok xs
  part_answers k p = err missing

  -- `Stream.array(part.get_res_part.answers)`
  unfoldable pub part_stream : (k : Kind) → ResPart P → Stream (P k)
  part_stream k part = elim (part_answers k part) [ ok xs ↦ array xs | err e ↦ fails e ]

  module _ {A : Kind → Type 0} (read : (k : Kind) → P k → Result (A k))
      (rpc_stream : TransactionReq → Stream (ResPart P)) where
    -- `this.stream(request).flatMap((part) => Stream.array(part.answers).map(of))`
    unfoldable pub in_parts : (k : Kind) → TransactionReq → Stream (A k)
    unfolding part_stream
    in_parts k req = flat_mapped (λ part. mapped_try (read k) (part_stream k part)) (rpc_stream req)

    -- `this.stream(request).flatMap((part) => Stream.array(part.explanations)).map(of)`
    unfoldable pub one_by_one : (k : Kind) → TransactionReq → Stream (A k)
    unfolding part_stream
    one_by_one k req = mapped_try (read k) (flat_mapped (part_stream k) (rpc_stream req))

    unfoldable pub get_query : String → Option Options → Stream (A Kind.get)
    unfolding request
    get_query q o = in_parts Kind.get (request (get_req q) o)

    unfoldable pub get_group_query : String → Option Options → Stream (A Kind.get_group)
    unfolding request
    get_group_query q o = in_parts Kind.get_group (request (get_group_req q) o)

    unfoldable pub get_group_aggregate_query :
        String → Option Options → Stream (A Kind.get_group_aggregate)
    unfolding request
    get_group_aggregate_query q o =
        in_parts Kind.get_group_aggregate (request (get_group_aggregate_req q) o)

    unfoldable pub fetch_query : String → Option Options → Stream (A Kind.fetch)
    unfolding request
    fetch_query q o = in_parts Kind.fetch (request (fetch_req q) o)

    unfoldable pub insert_query : String → Option Options → Stream (A Kind.insert)
    unfolding request
    insert_query q o = in_parts Kind.insert (request (insert_req q) o)

    unfoldable pub update_query : String → Option Options → Stream (A Kind.update)
    unfolding request
    update_query q o = in_parts Kind.update (request (update_req q) o)

    unfoldable pub explain_query : Explainable → Option Options → Stream (A Kind.explain)
    unfolding request
    explain_query e o = one_by_one Kind.explain (request (explain_req e.id) o)

-- A response to a request without a stream: `get_aggregate_res`, where it is set, with its answer.
pub record QueryRes (N : Type 0) : Type 0 where
  pub get_aggregate_res : Option (Option (ValueProto N))

module _ {N W : Type 0} (rpc_execute : TransactionReq → Eff W (QueryRes N)) where
  unfoldable pub get_aggregate : (fresh : ℕ) → String → Option Options → Eff W (Option (Value N))
  unfolding request
  get_aggregate fresh q o = rpc_execute (request (get_aggregate_req q) o) >>= λ res. λ w.
      (elim res.get_aggregate_res [ none ↦ ok none | some answer ↦ of_value_proto fresh answer ], w)

  unfoldable pub delete : String → Option Options → Eff W (Unit {0})
  unfolding request
  delete q o = rpc_execute (request (delete_req q) o) >>= λ _. pure tt

  unfoldable pub define : String → Option Options → Eff W (Unit {0})
  unfolding request
  define q o = rpc_execute (request (define_req q) o) >>= λ _. pure tt

  unfoldable pub undefine : String → Option Options → Eff W (Unit {0})
  unfolding request
  undefine q o = rpc_execute (request (undefine_req q) o) >>= λ _. pure tt
