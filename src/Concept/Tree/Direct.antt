-- ===== src/Concept/Tree/Direct.antt =====
-- The JSON that nodejs/concept/answer/ReadableConceptTreeImpl.ts makes of a message, without the tree
-- between them.
use Prim.Native.String.{◌++◌}
use typedb_client_java.Prelude.{ℕ, List, String, Option, none, some, ◌≡◌, refl, arith, Bool}
use typedb_client_java.Effect.{Result, ok, err}
use typedb_client_java.Answer.Label.{scoped_name, of_name, scoped}
use typedb_client_java.Concept.{
  value_type_name, SchemaType, AnyConcept, label_of, type_fields, root_fields,
}
use typedb_client_java.Concept.Bytes.{Hex}
use typedb_client_java.Concept.Reading.{
  AttributeTypeProto, ValueProto, ValueTypeProto, and_then, if_some, of_value_proto, value_read,
  of_entity_type_proto, of_relation_type_proto, of_attribute_type_proto, of_role_type_proto,
  of_attribute_proto, thing_of, attribute_with, value_type_of,
}
use typedb_client_java.Concept.Reading.Laws.{new_thing-hex}
use typedb_client_java.Concept.Tree.{
  NodeProto, ItemProtos, FieldProtos, ReadableProto, Json, JsonArray, JsonObject, Node, drop_last,
  as_json, as_array, as_object, node_of, items_of, fields_of, readable_of, concept_as_object, fetch,
  one, labelled, rooted, type_as_object, scalar_json, attribute_value, attribute_type_object,
}

abbrev pub value_of {ℓ} : {A : Type ℓ} → Result A → Option A
value_of (ok a) = some a
value_of (err e) = none

abbrev pub option_map {ℓ} : {A B : Type ℓ} → (A → B) → Option A → Option B
option_map f none = none
option_map f (some a) = some (f a)

abbrev pub option_both {ℓ} : {A B C : Type ℓ} → (A → B → C) → Option A → Option B → Option C
option_both f none o = none
option_both f (some a) o = option_map (f a) o

module _ {N : Type 0} (iso : N → Result String) where
  abbrev fields₂ : String → Json N → String → Json N → JsonObject N
  fields₂ k a l b = JsonObject.field k a (JsonObject.field l b JsonObject.end)

  abbrev type_json : String → String → JsonObject N
  type_json label root = fields₂ "label" (Json.string label) "root" (Json.string root)

  abbrev attribute_type_fields : String → ValueTypeProto → Option (JsonObject N)
  attribute_type_fields label (ValueTypeProto.unrecognized n) = none
  attribute_type_fields label (ValueTypeProto.known v) = some (
      JsonObject.field "label" (Json.string label)
        (fields₂ "value_type" (Json.string (value_type_name v)) "root" (Json.string "attribute")))

  abbrev attribute_type_json : AttributeTypeProto → Option (JsonObject N)
  attribute_type_json p = attribute_type_fields p.label p.value_type

  -- The JSON of a value, and the name of its value type.
  abbrev value_json : ValueProto N → Option (Json N × String)
  value_json (ValueProto.boolean b) = some (Json.boolean b, "boolean")
  value_json (ValueProto.long n) = some (Json.number n, "long")
  value_json (ValueProto.double n) = some (Json.number n, "double")
  value_json (ValueProto.string s) = some (Json.string s, "string")
  value_json (ValueProto.date_time n) =
      option_map (λ s. (Json.string (drop_last s), "datetime")) (value_of (iso n))
  value_json (ValueProto.unset shown) = none

  -- An attribute has a JSON where its type is there, with a value type that is known, and its value.
  abbrev attribute_json : Option AttributeTypeProto → Option (ValueProto N) → Option (JsonObject N)
  attribute_json none v = none
  attribute_json (some t) none = none
  attribute_json (some t) (some v) =
      option_both (λ o j. fields₂ "type" (Json.object o) "value" j.0) (attribute_type_json t)
        (value_json v)

  abbrev readable_json : ReadableProto N → Option (Json N)
  readable_json (ReadableProto.entity_type p) = some (Json.object (type_json p.label "entity"))
  readable_json (ReadableProto.relation_type p) = some (Json.object (type_json p.label "relation"))
  readable_json (ReadableProto.attribute_type p) = option_map Json.object (attribute_type_json p)
  readable_json (ReadableProto.role_type p) =
      some (Json.object (type_json (p.scope ++ (":" ++ p.label)) "relation:role"))
  readable_json (ReadableProto.attribute p) =
      option_map Json.object (attribute_json p.attribute_type p.value)
  readable_json (ReadableProto.value p) =
      option_map (λ j. Json.object (fields₂ "value" j.0 "value_type" (Json.string j.1)))
        (value_json p)
  readable_json ReadableProto.thing_type_root = some (Json.object (type_json "thing" "thing"))
  readable_json ReadableProto.unset = some Json.null

  unfoldable mutual
    pub json_of : NodeProto N → Option (Json N)
    json_of (NodeProto.map fs) = option_map Json.object (object_of fs)
    json_of (NodeProto.list xs) = option_map Json.array (array_of xs)
    json_of (NodeProto.readable_concept c) = readable_json c
    json_of NodeProto.unset = none

    pub array_of : ItemProtos N → Option (JsonArray N)
    array_of ItemProtos.nil = some JsonArray.nil
    array_of (ItemProtos.cons x xs) = option_both JsonArray.cons (json_of x) (array_of xs)

    pub object_of : FieldProtos N → Option (JsonObject N)
    object_of FieldProtos.end = some JsonObject.end
    object_of (FieldProtos.field k x fs) =
        option_both (JsonObject.field k) (json_of x) (object_of fs)

  -- First the tree, and then its JSON.
  abbrev via {ℓ} : {A B : Type ℓ} → Result A → (A → Result B) → Option B
  via (ok a) f = value_of (f a)
  via (err e) f = none

  module _ (hex : Hex) (fresh : ℕ) where
    attribute_type-json :
        (label : String) (root abstract : Bool) (v : ValueTypeProto)
        → value_of (
            type_as_object (
              SchemaType.attribute_type
                (record { label = of_name label; is_root = root; is_abstract = abstract })
                (value_type_of v)))
          ≡ attribute_type_fields label v
    unfolding type_as_object value_type_of labelled one label_of type_fields scoped_name of_name
    attribute_type-json label root abstract (ValueTypeProto.known v) = refl
    attribute_type-json label root abstract (ValueTypeProto.unrecognized n) = refl

    abbrev read_value : ValueProto N → Result (Option (Option (AnyConcept N)))
    read_value p = and_then (of_value_proto fresh (some p)) (λ v. some (if_some AnyConcept.value v))

    value-json :
        (p : ValueProto N)
        → via (and_then (read_value p) Node.leaf) (as_json iso)
          ≡ option_map
              (λ j. Json.object (fields₂ "value" j.0 "value_type" (Json.string j.1)))
              (value_json p)
    unfolding as_json concept_as_object scalar_json of_value_proto value_read one value_type_name
    value-json (ValueProto.boolean b) = refl
    value-json (ValueProto.long n) = refl
    value-json (ValueProto.double n) = refl
    value-json (ValueProto.string s) = refl
    value-json (ValueProto.date_time n) = ground arith
    value-json (ValueProto.unset shown) = refl

    attribute-json :
        (iid : List ℕ) (inferred : Bool) (t : Option AttributeTypeProto) (v : Option (ValueProto N))
        → via
            (and_then
              (readable_of hex fresh (
                ReadableProto.attribute
                  (record { iid = iid; inferred = inferred; attribute_type = t; value = v })))
              Node.leaf)
            (as_json iso)
          ≡ option_map Json.object (attribute_json t v)
    unfolding as_json concept_as_object readable_of of_attribute_proto attribute_with thing_of
        of_attribute_type_proto of_value_proto value_read attribute_value attribute_type_object
        scalar_json one
    attribute-json iid inferred none none = rw (new_thing-hex hex iid inferred) refl
    attribute-json iid inferred (some t) none =
        rw (new_thing-hex hex iid inferred)
          (ground (arith, attribute_type-json t.label t.is_root t.is_abstract t.value_type))
    attribute-json iid inferred none (some (ValueProto.boolean b)) =
        rw (new_thing-hex hex iid inferred) refl
    attribute-json iid inferred none (some (ValueProto.long n)) =
        rw (new_thing-hex hex iid inferred) refl
    attribute-json iid inferred none (some (ValueProto.double n)) =
        rw (new_thing-hex hex iid inferred) refl
    attribute-json iid inferred none (some (ValueProto.string s)) =
        rw (new_thing-hex hex iid inferred) refl
    attribute-json iid inferred none (some (ValueProto.date_time n)) =
        rw (new_thing-hex hex iid inferred) refl
    attribute-json iid inferred none (some (ValueProto.unset shown)) = refl
    attribute-json iid inferred (some t) (some (ValueProto.boolean b)) =
        rw (new_thing-hex hex iid inferred)
          (ground (arith, attribute_type-json t.label t.is_root t.is_abstract t.value_type))
    attribute-json iid inferred (some t) (some (ValueProto.long n)) =
        rw (new_thing-hex hex iid inferred)
          (ground (arith, attribute_type-json t.label t.is_root t.is_abstract t.value_type))
    attribute-json iid inferred (some t) (some (ValueProto.double n)) =
        rw (new_thing-hex hex iid inferred)
          (ground (arith, attribute_type-json t.label t.is_root t.is_abstract t.value_type))
    attribute-json iid inferred (some t) (some (ValueProto.string s)) =
        rw (new_thing-hex hex iid inferred)
          (ground (arith, attribute_type-json t.label t.is_root t.is_abstract t.value_type))
    attribute-json iid inferred (some t) (some (ValueProto.date_time n)) =
        rw (new_thing-hex hex iid inferred)
          (ground (arith, attribute_type-json t.label t.is_root t.is_abstract t.value_type))
    attribute-json iid inferred (some t) (some (ValueProto.unset shown)) = ground arith

    readable-json :
        (c : ReadableProto N)
        → via (and_then (readable_of hex fresh c) Node.leaf) (as_json iso) ≡ readable_json c
    unfolding readable_of as_json concept_as_object one labelled rooted type_as_object scalar_json
        attribute_value attribute_type_object of_entity_type_proto of_relation_type_proto
        of_attribute_type_proto of_role_type_proto value_type_of label_of type_fields root_fields
        scoped_name of_name scoped of_value_proto value_read
    readable-json (ReadableProto.entity_type p) = refl
    readable-json (ReadableProto.relation_type p) = refl
    readable-json (ReadableProto.attribute_type p) =
        ground (arith, attribute_type-json p.label p.is_root p.is_abstract p.value_type)
    readable-json (ReadableProto.role_type p) = refl
    readable-json (ReadableProto.attribute p) =
        attribute-json p.iid p.inferred p.attribute_type p.value
    readable-json (ReadableProto.value p) = value-json p
    readable-json ReadableProto.thing_type_root = refl
    readable-json ReadableProto.unset = refl

    mutual
      unfolding as_json node_of json_of

      node-json : (x : NodeProto N) → via (node_of hex fresh x) (as_json iso) ≡ json_of x
      node-json (NodeProto.map fs) = ground (arith, fields-json fs)
      node-json (NodeProto.list xs) = ground (arith, items-json xs)
      node-json (NodeProto.readable_concept c) = readable-json c
      node-json NodeProto.unset = refl

      items-json : (xs : ItemProtos N) → via (items_of hex fresh xs) (as_array iso) ≡ array_of xs
      items-json ItemProtos.nil = refl
      items-json (ItemProtos.cons x xs) = ground (arith, node-json x, items-json xs)

      fields-json :
          (fs : FieldProtos N) → via (fields_of hex fresh fs) (as_object iso) ≡ object_of fs
      fields-json FieldProtos.end = refl
      fields-json (FieldProtos.field k x fs) = ground (arith, node-json x, fields-json fs)

    -- `asJSON` of the tree that is built from a message is the JSON that the message has when it is read
    -- directly, with the same keys in the same order; and both are missing for the same messages.
    pub fetch-json : (root : FieldProtos N) → value_of (fetch iso hex fresh root) ≡ object_of root
    unfolding fetch
    fetch-json root = ground (arith, fields-json root)
