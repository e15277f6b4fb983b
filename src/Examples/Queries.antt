-- ===== src/Examples/Queries.antt =====
-- nodejs/query/QueryManagerImpl.ts.
use typedb_client_java.Prelude.{
  ℕ, zero, suc, String, List, [], ◌∷◌, Option, none, some, false, ◌≡◌, refl,
}
use typedb_client_java.Prelude.Assoc.{insert}
use typedb_client_java.Answer.ConceptMap.{ConceptMap, empty_explainables, of_proto, set_all}
use typedb_client_java.Answer.Groups.{concept_map_of, read_entry}
use typedb_client_java.Answer.Label.{of_name}
use typedb_client_java.Concept.{AnyConcept, SchemaType}
use typedb_client_java.Concept.Reading.{
  ConceptProto, TypeProto, concept_of, of_entity_type_proto, fields_of,
}
use typedb_client_java.Query.Readers
use typedb_client_java.Query.Readers.Concepts.{Pairs, IsAnswer, messages, collect-get}
use typedb_client_java.Examples.Hexadecimal.{buffer}
use typedb_client_java.Errors.DriverError.{js}
use typedb_client_java.Effect.{Result, ok, err}
use typedb_client_java.Stream.{Stream, end, item, array, flat_mapped, then_from, collect}
use typedb_client_java.Connection.Options.{no_options, proto}
use typedb_client_java.Query.{
  Kind, ResPart, get_part, TransactionReq, get_req, in_parts, one_by_one, part_answers, part_stream,
  mapped_try, get_query, request,
}
use typedb_client_java.Concept.Overloads.{map_try}
use typedb_client_java.Query.Answers.{read_all, collect-answers}

abbrev Message : Kind → Type 0
Message k = ℕ

abbrev Answer : Kind → Type 0
Answer k = ℕ

abbrev read : (k : Kind) → Message k → Result (Answer k)
read k zero = err (js "bad answer")
read k (suc n) = ok n

abbrev response : TransactionReq → Stream (ResPart Message)
response req = item (get_part (1 ∷ 2 ∷ [])) (item (get_part (3 ∷ [])) end)

abbrev a_query : TransactionReq
a_query = record { query = get_req "match $x isa thing; get;"; options = proto no_options }

collect-answers_example :
    (collect (in_parts read response Kind.get a_query) ≡ ok (0 ∷ 1 ∷ 2 ∷ []))
    × (collect (one_by_one read response Kind.get a_query) ≡ ok (0 ∷ 1 ∷ 2 ∷ []))
unfolding read_all part_answers map_try
collect-answers_example = collect-answers read Kind.get response a_query

abbrev person : TypeProto
person = record { label = "person"; is_root = false; is_abstract = false }

abbrev sent : TransactionReq → Stream (ResPart (Readers.Message ℕ))
sent req =
    item
      (get_part (
        record { entries = ("x", ConceptProto.entity_type person) ∷ []; explainables = none } ∷ []))
      end

abbrev answer_read : ConceptMap (Option (AnyConcept ℕ))
answer_read = record {
  concepts =
      (
        "x",
        some (
            AnyConcept.schema (
              SchemaType.entity_type
                (record { label = of_name "person"; is_root = false; is_abstract = false }))),
      )
      ∷ [];
  explainables = empty_explainables;
}

abbrev iso : ℕ → Result String
iso n = ok "date"

one_answer :
    collect (Readers.get iso buffer 0 sent "match $x sub entity; get;" none) ≡ ok (answer_read ∷ [])
unfolding Readers.get Readers.read get_query in_parts part_stream part_answers flat_mapped collect
    mapped_try array concept_map_of read_entry map_try concept_of of_entity_type_proto fields_of
    of_proto empty_explainables set_all insert then_from
one_answer = refl

collect-get_example :
    (ps : List (Readers.Message ℕ Kind.get)) × (messages Kind.get
        (sent (request (get_req "match $x sub entity; get;") none))
      ≡ ok ps)
    × Pairs (IsAnswer buffer 0) ps (answer_read ∷ [])
collect-get_example =
    collect-get iso buffer 0 sent "match $x sub entity; get;" none (answer_read ∷ []) one_answer
