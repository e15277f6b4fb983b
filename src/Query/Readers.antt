-- ===== src/Query/Readers.antt =====
-- What nodejs/query/QueryManagerImpl.ts reads the answers of each kind by.
pub mod Concepts
use typedb_client_java.Prelude.{ℕ, String, Option}
use typedb_client_java.Effect.{Result}
use typedb_client_java.Stream.{Stream}
use typedb_client_java.Answer.ConceptMap.{ConceptMapProto, ConceptMap}
use typedb_client_java.Answer.Groups.{
  MapGroupProto, ValueGroupProto, ConceptMapGroup, ValueGroup, concept_map_of, map_group_of,
  value_group_of, explanation_of,
}
use typedb_client_java.Concept.{AnyConcept}
use typedb_client_java.Concept.Bytes.{Hex}
use typedb_client_java.Concept.Reading.{ConceptProto}
use typedb_client_java.Concept.Tree.{FieldProtos, JsonObject, fetch}
use typedb_client_java.Connection.Options.{Options}
use typedb_client_java.Logic.{ExplanationProto, Explanation}
use typedb_client_java.Query.{Kind, ResPart, TransactionReq}
use typedb_client_java.Query

-- The message of an answer of each kind, and what is read of it.
abbrev pub Message : (N : Type 0) → Kind → Type 0
Message N Kind.get = ConceptMapProto (ConceptProto N)
Message N Kind.get_group = MapGroupProto N
Message N Kind.get_group_aggregate = ValueGroupProto N
Message N Kind.fetch = FieldProtos N
Message N Kind.insert = ConceptMapProto (ConceptProto N)
Message N Kind.update = ConceptMapProto (ConceptProto N)
Message N Kind.explain = ExplanationProto (ConceptProto N)

abbrev pub Answer : (N : Type 0) → Kind → Type 0
Answer N Kind.get = ConceptMap (Option (AnyConcept N))
Answer N Kind.get_group = ConceptMapGroup N
Answer N Kind.get_group_aggregate = ValueGroup N
Answer N Kind.fetch = JsonObject N
Answer N Kind.insert = ConceptMap (Option (AnyConcept N))
Answer N Kind.update = ConceptMap (Option (AnyConcept N))
Answer N Kind.explain = Explanation (Option (AnyConcept N))

module _ {N : Type 0} (iso : N → Result String) (hex : Hex) (fresh : ℕ) where
  -- The function that each method maps over its answers.
  unfoldable pub read : (k : Kind) → Message N k → Result (Answer N k)
  unfolding concept_map_of map_group_of value_group_of explanation_of fetch
  read Kind.get = concept_map_of hex fresh
  read Kind.get_group = map_group_of hex fresh
  read Kind.get_group_aggregate = value_group_of hex fresh
  read Kind.fetch = fetch iso hex fresh
  read Kind.insert = concept_map_of hex fresh
  read Kind.update = concept_map_of hex fresh
  read Kind.explain = explanation_of hex fresh

  module _ (rpc_stream : TransactionReq → Stream (ResPart (Message N))) where
    -- The methods `get`, `insert` and `update` with these readers.
    unfoldable pub get : String → Option Options → Stream (Answer N Kind.get)
    unfolding read
    get = Query.get_query read rpc_stream

    unfoldable pub insert : String → Option Options → Stream (Answer N Kind.insert)
    unfolding read
    insert = Query.insert_query read rpc_stream

    unfoldable pub update : String → Option Options → Stream (Answer N Kind.update)
    unfolding read
    update = Query.update_query read rpc_stream
