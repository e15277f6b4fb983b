-- ===== src/Examples/Concepts.antt =====
-- nodejs/concept.
use typedb_client_java.Prelude.{ℕ, String, List, [], ◌∷◌, none, some, false, ◌≡◌, arith, ◌==◌}
use typedb_client_java.Errors.Templates.{Internal, internal}
use typedb_client_java.Errors.DriverError.{fail_with}
use typedb_client_java.Effect.{Result, ok, err}
use typedb_client_java.Answer.Label.{of_name, scoped_name}
use typedb_client_java.Stream.{Stream, item, end}
use typedb_client_java.Concept.{ValueType, Scalar, SchemaType, TypeFields, AnyConcept, label_of}
use typedb_client_java.Concept.Annotations.{key, annotation_proto, type_key}
use typedb_client_java.Concept.Bytes.{
  hex_string_to_bytes, bytes_to_hex_string, hex_string_to_bytes-bytes_to_hex_string,
}
use typedb_client_java.Concept.Casting.{Kind}
use typedb_client_java.Concept.Equality.{Equal}
use typedb_client_java.Concept.Overloads.{
  explicit, undefined, array, transitivity, annotation, get_owns, get_owners, get_owns_call,
  get_owners_call,
}
use typedb_client_java.Concept.Overloads.Decoding.{
  get_owns_call-overloads, get_owners_call-overloads,
}
use typedb_client_java.Concept.Reading.{ConceptProto, ValueProto, concept_of}
use typedb_client_java.Concept.Reading.Laws.{identified, identified-concept_of}
use typedb_client_java.Concept.RolePlayers.{players_of, role_players, sent_for}
use typedb_client_java.Concept.RolePlayers.Grouping.{players_of-role_players}
use typedb_client_java.Concept.Tree.{FieldProtos, ItemProtos, NodeProto, ReadableProto, fetch}
use typedb_client_java.Concept.Tree.Direct.{value_of, object_of, fetch-json}
use typedb_client_java.Examples.Hexadecimal.{buffer}

abbrev person : TypeFields
person = record { label = of_name "person"; is_root = false; is_abstract = false }

abbrev friend : TypeFields
friend = record {
  label = record { scope = some "friendship"; name = "friend" };
  is_root = false;
  is_abstract = false;
}

abbrev person_concept : AnyConcept ℕ
person_concept = AnyConcept.schema (SchemaType.entity_type person)

abbrev numbers : Equal ℕ
numbers = record { same_number = ◌==◌; coerced = λ a b. false }

abbrev ref_one : ℕ
ref_one = 1

abbrev at : ℕ → AnyConcept ℕ
at ref = AnyConcept.value (record { value_type = ValueType.datetime; value = Scalar.date ref 7 })

abbrev bytes : List ℕ
bytes = 130 ∷ 110 ∷ 255 ∷ []

hex_string_to_bytes-bytes_to_hex_string_example :
    hex_string_to_bytes buffer (λ n. "odd") (bytes_to_hex_string buffer bytes) ≡ ok bytes
hex_string_to_bytes-bytes_to_hex_string_example =
    hex_string_to_bytes-bytes_to_hex_string buffer (λ n. "odd") bytes
      ((omega arith), ((omega arith), ((omega arith), tt)))

abbrev entity_message : ConceptProto ℕ
entity_message = ConceptProto.entity (record { iid = bytes; inferred = false; type = none })

identified-concept_of_example :
    identified (concept_of buffer 0 entity_message)
    ≡ some (Kind.entity, bytes_to_hex_string buffer bytes)
identified-concept_of_example = identified-concept_of buffer 0 entity_message

abbrev players : Stream (SchemaType × ℕ)
players =
    item (SchemaType.role_type friend, 1)
      (item (SchemaType.role_type person, 2) (item (SchemaType.role_type friend, 3) end))

players_of-role_players_example :
    players_of "friendship:friend" (role_players players).1 ≡ 1 ∷ 3 ∷ []
unfolding sent_for scoped_name label_of of_name
players_of-role_players_example = players_of-role_players players "friendship:friend"

abbrev tree : FieldProtos ℕ
tree =
    FieldProtos.field "p"
      (NodeProto.list (
        ItemProtos.cons (NodeProto.readable_concept (ReadableProto.value (ValueProto.date_time 7)))
          ItemProtos.nil))
      (FieldProtos.field "q" (NodeProto.readable_concept ReadableProto.unset) FieldProtos.end)

abbrev iso : ℕ → Result String
iso n = ok "2023-01-01T00:00:00.007Z"

fetch-json_example : value_of (fetch iso buffer 0 tree) ≡ object_of iso tree
fetch-json_example = fetch-json iso buffer 0 tree

abbrev shown : SchemaType → String
shown t = "Type"

get_owns_call-overloads_example :
    get_owns_call shown
      (of_name "person")
      (array (annotation key ∷ []))
      (transitivity explicit)
      undefined
    ≡ ok (get_owns "person" none (type_key ∷ []) (some explicit))
unfolding of_name annotation_proto
get_owns_call-overloads_example =
    get_owns_call-overloads shown (of_name "person") none (some (key ∷ [])) (some explicit)

abbrev iid : String
iid = bytes_to_hex_string buffer bytes

iid-readable : hex_string_to_bytes buffer (λ n. "odd") iid ≡ ok bytes
iid-readable =
    hex_string_to_bytes-bytes_to_hex_string buffer (λ n. "odd") bytes
      ((omega arith), ((omega arith), ((omega arith), tt)))

get_owners_call-overloads_example :
    (get_owners_call shown buffer (λ n. "odd") ℕ iid none ≡ ok (get_owners bytes none))
    × ((t : SchemaType)
        → get_owners_call shown buffer (λ n. "odd") ℕ iid (some t)
          ≡ err (fail_with (internal Internal.illegal_state) []))
get_owners_call-overloads_example =
    get_owners_call-overloads shown buffer (λ n. "odd") iid bytes iid-readable ℕ
