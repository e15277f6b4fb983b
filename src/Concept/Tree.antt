-- ===== src/Concept/Tree.antt =====
-- nodejs/concept/answer/ReadableConceptTreeImpl.ts and nodejs/api/answer/JSON.ts. A protobuf map is
-- the list of its entries, with distinct keys; what is built from it has them in the same order.
pub mod Direct
use typedb_client_java.Prelude.{
  ℕ, String, [], ◌∷◌, Option, none, some, Bool, true, false, if◌then◌else◌,
}
use typedb_client_java.Errors.Templates.{Internal, internal}
use typedb_client_java.Errors.DriverError.{Thrown, js, fail_with}
use typedb_client_java.Effect.{Result, ok, err}
use typedb_client_java.Answer.Label.{scoped_name}
use typedb_client_java.Concept.{
  ValueType, value_type_name, Scalar, Value, SchemaType, Thing, AnyConcept, label_of,
}
use typedb_client_java.Concept.Bytes.{Hex}
use typedb_client_java.Concept.Reading.{
  TypeProto, AttributeTypeProto, RoleTypeProto, AttributeProto, ValueProto, and_then, if_some,
  of_entity_type_proto, of_relation_type_proto, of_attribute_type_proto, of_role_type_proto,
  of_attribute_proto, of_value_proto,
}

-- `ReadableConceptTreeNodeReadableConcept`
pub data ReadableProto (N : Type 0) : Type 0 where
  entity_type relation_type : TypeProto → ReadableProto N
  attribute_type : AttributeTypeProto → ReadableProto N
  role_type : RoleTypeProto → ReadableProto N
  attribute : AttributeProto N → ReadableProto N
  value : ValueProto N → ReadableProto N
  thing_type_root : ReadableProto N
  unset : ReadableProto N

mutual
  pub data NodeProto (N : Type 0) : Type 0 where
    map : FieldProtos N → NodeProto N
    list : ItemProtos N → NodeProto N
    readable_concept : ReadableProto N → NodeProto N
    unset : NodeProto N

  pub data ItemProtos (N : Type 0) : Type 0 where
    nil : ItemProtos N
    cons : NodeProto N → ItemProtos N → ItemProtos N

  pub data FieldProtos (N : Type 0) : Type 0 where
    end : FieldProtos N
    field : String → NodeProto N → FieldProtos N → FieldProtos N

mutual
  pub data Json (N : Type 0) : Type 0 where
    null : Json N
    string : String → Json N
    number : N → Json N
    boolean : Bool → Json N
    object : JsonObject N → Json N
    array : JsonArray N → Json N

  pub data JsonArray (N : Type 0) : Type 0 where
    nil : JsonArray N
    cons : Json N → JsonArray N → JsonArray N

  pub data JsonObject (N : Type 0) : Type 0 where
    end : JsonObject N
    field : String → Json N → JsonObject N → JsonObject N

-- `NodeMap`, `NodeList` and `Leaf`; the concept of a `ReadableConcept` may be `null`, too.
mutual
  pub data Node (N : Type 0) : Type 0 where
    node_map : NodeFields N → Node N
    node_list : NodeItems N → Node N
    leaf : Option (Option (AnyConcept N)) → Node N

  pub data NodeItems (N : Type 0) : Type 0 where
    nil : NodeItems N
    cons : Node N → NodeItems N → NodeItems N

  pub data NodeFields (N : Type 0) : Type 0 where
    end : NodeFields N
    field : String → Node N → NodeFields N → NodeFields N

-- One step and then the rest, which goes on only where the step did not throw.
abbrev pub both {ℓ} : {A B C : Type ℓ} → (A → B → C) → Result A → Result B → Result C
both f (err e) r = err e
both f (ok a) r = and_then r (f a)

null_error : Thrown
null_error = js "TypeError: Cannot read properties of null"

undefined_error : Thrown
undefined_error = js "TypeError: Cannot read properties of undefined"

illegal_state : Thrown
illegal_state = fail_with (internal Internal.illegal_state) []

-- `s.slice(0, -1)`
unfoldable pub drop_last : String → String
drop_last String.[] = String.[]
drop_last (String.◌∷◌ c String.[]) = String.[]
drop_last (String.◌∷◌ c (String.◌∷◌ d s)) = String.◌∷◌ c (drop_last (String.◌∷◌ d s))

module _ {N : Type 0} where
  unfoldable pub one : String → Json N → JsonObject N
  one k j = JsonObject.field k j JsonObject.end

  unfoldable pub labelled : SchemaType → JsonObject N → JsonObject N
  labelled t = JsonObject.field "label" (Json.string (scoped_name (label_of t)))

  unfoldable pub rooted : SchemaType → String → JsonObject N
  unfolding labelled one
  rooted t root = labelled t (one "root" (Json.string root))

  -- `typeAsObject`
  unfoldable pub type_as_object : SchemaType → Result (JsonObject N)
  unfolding labelled rooted one undefined_error
  type_as_object (SchemaType.entity_type t) = ok (rooted (SchemaType.entity_type t) "entity")
  type_as_object (SchemaType.relation_type t) = ok (rooted (SchemaType.relation_type t) "relation")
  type_as_object (SchemaType.attribute_type t none) = err undefined_error
  type_as_object (SchemaType.attribute_type t (some v)) = ok (
      labelled (SchemaType.attribute_type t (some v)) (
        JsonObject.field "value_type" (Json.string (value_type_name v))
          (one "root" (Json.string "attribute"))))
  type_as_object (SchemaType.role_type t) = ok (rooted (SchemaType.role_type t) "relation:role")
  type_as_object SchemaType.thing_root = ok (rooted SchemaType.thing_root "thing")

  module _ (iso : N → Result String) where
    -- A date is written by `toISOString`, less the last character.
    unfoldable pub scalar_json : Scalar N → Result (Json N)
    scalar_json (Scalar.boolean b) = ok (Json.boolean b)
    scalar_json (Scalar.text s) = ok (Json.string s)
    scalar_json (Scalar.number n) = ok (Json.number n)
    scalar_json (Scalar.date r t) = and_then (iso t) (λ s. Json.string (drop_last s))

    unfoldable pub attribute_value : Option (Value N) → Result (Json N)
    unfolding scalar_json null_error
    attribute_value none = err null_error
    attribute_value (some v) = scalar_json v.value

    unfoldable pub attribute_type_object : Option SchemaType → Result (JsonObject N)
    unfolding null_error type_as_object
    attribute_type_object none = err null_error
    attribute_type_object (some t) = type_as_object t

    -- `ReadableConcept.asObject`
    unfoldable pub concept_as_object : Option (AnyConcept N) → Result (JsonObject N)
    unfolding null_error type_as_object attribute_value attribute_type_object illegal_state one
    concept_as_object none = err null_error
    concept_as_object (some (AnyConcept.schema t)) = type_as_object t
    concept_as_object (some (AnyConcept.thing (Thing.attribute f t v))) =
        both (λ o j. JsonObject.field "type" (Json.object o) (one "value" j))
          (attribute_type_object t) (attribute_value v)
    concept_as_object (some (AnyConcept.thing (Thing.entity f t))) = err illegal_state
    concept_as_object (some (AnyConcept.thing (Thing.relation f t))) = err illegal_state
    concept_as_object (some (AnyConcept.value v)) = and_then (scalar_json v.value) (λ j.
        JsonObject.field "value" j (one "value_type" (Json.string (value_type_name v.value_type))))

    -- `NodeMap.asObject`, `NodeList.asArray` and `Leaf.asJSON`, chosen by `instanceof`. An object has
    -- its keys in the order of assignment, as it is for keys that are not integers.
    unfoldable mutual
      pub as_json : Node N → Result (Json N)
      as_json (node_map fs) = and_then (as_object fs) Json.object
      as_json (node_list xs) = and_then (as_array xs) Json.array
      as_json (leaf none) = ok Json.null
      as_json (leaf (some c)) = and_then (concept_as_object c) Json.object

      pub as_array : NodeItems N → Result (JsonArray N)
      as_array NodeItems.nil = ok JsonArray.nil
      as_array (NodeItems.cons x xs) = both JsonArray.cons (as_json x) (as_array xs)

      pub as_object : NodeFields N → Result (JsonObject N)
      as_object NodeFields.end = ok JsonObject.end
      as_object (NodeFields.field k x fs) = both (JsonObject.field k) (as_json x) (as_object fs)

  module _ (hex : Hex) (fresh : ℕ) where
    -- `ReadableConcept.of`; `fresh` stands for the object of any date that is read.
    unfoldable pub readable_of : ReadableProto N → Result (Option (Option (AnyConcept N)))
    readable_of (ReadableProto.entity_type p) =
        ok (some (if_some AnyConcept.schema (of_entity_type_proto (some p))))
    readable_of (ReadableProto.relation_type p) =
        ok (some (if_some AnyConcept.schema (of_relation_type_proto (some p))))
    readable_of (ReadableProto.attribute_type p) =
        ok (some (if_some AnyConcept.schema (of_attribute_type_proto (some p))))
    readable_of (ReadableProto.role_type p) =
        ok (some (if_some AnyConcept.schema (of_role_type_proto (some p))))
    readable_of (ReadableProto.attribute p) =
        and_then (of_attribute_proto hex fresh (some p)) (λ c. some (if_some AnyConcept.thing c))
    readable_of (ReadableProto.value p) =
        and_then (of_value_proto fresh (some p)) (λ v. some (if_some AnyConcept.value v))
    readable_of ReadableProto.thing_type_root =
        ok (some (some (AnyConcept.schema SchemaType.thing_root)))
    readable_of ReadableProto.unset = ok none

    -- `Node.of`, `NodeList.of` and `NodeMap.of`
    unfoldable mutual
      unfolding illegal_state

      pub node_of : NodeProto N → Result (Node N)
      node_of (NodeProto.map fs) = and_then (fields_of fs) node_map
      node_of (NodeProto.list xs) = and_then (items_of xs) node_list
      node_of (NodeProto.readable_concept c) = and_then (readable_of c) leaf
      node_of NodeProto.unset = err illegal_state

      pub items_of : ItemProtos N → Result (NodeItems N)
      items_of ItemProtos.nil = ok NodeItems.nil
      items_of (ItemProtos.cons x xs) = both NodeItems.cons (node_of x) (items_of xs)

      pub fields_of : FieldProtos N → Result (NodeFields N)
      fields_of FieldProtos.end = ok NodeFields.end
      fields_of (FieldProtos.field k x fs) = both (NodeFields.field k) (node_of x) (fields_of fs)

-- `ReadableConceptTreeImpl.of(proto).asJSON()`, of a tree by its root.
unfoldable pub fetch :
    {N : Type 0} → (N → Result String) → Hex → ℕ → FieldProtos N → Result (JsonObject N)
fetch iso hex fresh root = elim (fields_of hex fresh root) [
  | err e ↦ err e
  | ok fs ↦ as_object iso fs
]
