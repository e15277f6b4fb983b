-- ===== src/Concept/Reading.antt =====
-- nodejs/common/rpc/ResponseReader.ts and the functions `of...Proto` of nodejs/concept.
pub mod Laws
use typedb_client_java.Prelude.{ℕ, String, List, [], ◌∷◌, Option, none, some, Bool}
use typedb_client_java.Errors.Templates.{Concept, concept, Internal, internal}
use typedb_client_java.Errors.DriverError.{fail_with}
use typedb_client_java.Effect.{Result, ok, err}
use typedb_client_java.Answer.Label.{Label, of_name, scoped}
use typedb_client_java.Concept.{
  ValueType, Scalar, Value, SchemaType, TypeFields, Thing, AnyConcept, new_thing, ThingFields,
}
use typedb_client_java.Concept.Bytes.{Hex, bytes_to_hex_string, hex_string_to_bytes}

-- A number of the enumeration that has no name here is `unrecognized`.
pub data ValueTypeProto : Type 0 where
  known : ValueType → ValueTypeProto
  unrecognized : ℕ → ValueTypeProto

-- The messages of an entity type, a relation type and an attribute type, and that of a role type.
pub record TypeProto : Type 0 where
  pub label : String
  pub is_root : Bool
  pub is_abstract : Bool

pub record AttributeTypeProto : Type 0 where
  pub label : String
  pub is_root : Bool
  pub is_abstract : Bool
  pub value_type : ValueTypeProto

pub record RoleTypeProto : Type 0 where
  pub scope : String
  pub label : String
  pub is_root : Bool
  pub is_abstract : Bool

-- Where no field of a `oneof` is set, `unset` has what `toString` gives of the message.
pub data ValueProto (N : Type 0) : Type 0 where
  boolean : Bool → ValueProto N
  long double date_time : N → ValueProto N
  string : String → ValueProto N
  unset : (shown : String) → ValueProto N

-- The messages of an entity and a relation.
pub record ThingProto : Type 0 where
  pub iid : List ℕ
  pub inferred : Bool
  pub type : Option TypeProto

pub record AttributeProto (N : Type 0) : Type 0 where
  pub iid : List ℕ
  pub inferred : Bool
  pub attribute_type : Option AttributeTypeProto
  pub value : Option (ValueProto N)

pub data ConceptProto (N : Type 0) : Type 0 where
  entity_type relation_type : TypeProto → ConceptProto N
  attribute_type : AttributeTypeProto → ConceptProto N
  role_type : RoleTypeProto → ConceptProto N
  thing_type_root : ConceptProto N
  entity relation : ThingProto → ConceptProto N
  attribute : AttributeProto N → ConceptProto N
  value : ValueProto N → ConceptProto N
  unset : (shown : String) → ConceptProto N

-- The `oneof`s of a thing and of a thing type.
pub data AnyThingProto (N : Type 0) : Type 0 where
  entity relation : ThingProto → AnyThingProto N
  attribute : AttributeProto N → AnyThingProto N
  unset : (shown : String) → AnyThingProto N

pub data AnyTypeProto : Type 0 where
  entity_type relation_type : TypeProto → AnyTypeProto
  attribute_type : AttributeTypeProto → AnyTypeProto
  thing_type_root : AnyTypeProto
  unset : (shown : String) → AnyTypeProto

abbrev pub if_some {ℓ κ} : {A : Type ℓ} {B : Type κ} → (A → B) → Option A → Option B
if_some f none = none
if_some f (some a) = some (f a)

abbrev pub and_then {ℓ κ} : {A : Type ℓ} {B : Type κ} → Result A → (A → B) → Result B
and_then (ok a) f = ok (f a)
and_then (err e) f = err e

-- `Concept.ValueType.of`
unfoldable pub value_type_of : ValueTypeProto → Option ValueType
value_type_of (known v) = some v
value_type_of (unrecognized n) = none

unfoldable pub fields_of : TypeProto → TypeFields
fields_of p = record { label = of_name p.label; is_root = p.is_root; is_abstract = p.is_abstract }

unfoldable pub of_entity_type_proto : Option TypeProto → Option SchemaType
unfolding fields_of
of_entity_type_proto = if_some λ p. SchemaType.entity_type (fields_of p)

unfoldable pub of_relation_type_proto : Option TypeProto → Option SchemaType
unfolding fields_of
of_relation_type_proto = if_some λ p. SchemaType.relation_type (fields_of p)

unfoldable pub of_attribute_type_proto : Option AttributeTypeProto → Option SchemaType
unfolding value_type_of
of_attribute_type_proto = if_some λ p.
    SchemaType.attribute_type
      (record { label = of_name p.label; is_root = p.is_root; is_abstract = p.is_abstract })
      (value_type_of p.value_type)

unfoldable pub of_role_type_proto : Option RoleTypeProto → Option SchemaType
of_role_type_proto = if_some λ p.
    SchemaType.role_type
      (record { label = scoped p.scope p.label; is_root = p.is_root; is_abstract = p.is_abstract })

-- `ThingTypeImpl.ofThingTypeProto`
unfoldable pub of_thing_type_proto : AnyTypeProto → Result (Option SchemaType)
of_thing_type_proto (AnyTypeProto.entity_type p) = ok (of_entity_type_proto (some p))
of_thing_type_proto (AnyTypeProto.relation_type p) = ok (of_relation_type_proto (some p))
of_thing_type_proto (AnyTypeProto.attribute_type p) = ok (of_attribute_type_proto (some p))
of_thing_type_proto AnyTypeProto.thing_type_root = ok (some SchemaType.thing_root)
of_thing_type_proto (AnyTypeProto.unset shown) =
    err (fail_with (concept Concept.bad_encoding) (shown ∷ []))

module _ {N : Type 0} where
  unfoldable pub value_read : ValueType → Scalar N → Result (Option (Value N))
  value_read t x = ok (some (record { value_type = t; value = x }))

  -- `ValueImpl.ofValueProto`; `fresh` is the `Date` object that it makes.
  unfoldable pub of_value_proto : (fresh : ℕ) → Option (ValueProto N) → Result (Option (Value N))
  unfolding value_read
  of_value_proto fresh none = ok none
  of_value_proto fresh (some (ValueProto.boolean b)) =
      value_read ValueType.boolean (Scalar.boolean b)
  of_value_proto fresh (some (ValueProto.long n)) = value_read ValueType.long (Scalar.number n)
  of_value_proto fresh (some (ValueProto.double n)) = value_read ValueType.double (Scalar.number n)
  of_value_proto fresh (some (ValueProto.string s)) = value_read ValueType.string (Scalar.text s)
  of_value_proto fresh (some (ValueProto.date_time n)) =
      value_read ValueType.datetime (Scalar.date fresh n)
  of_value_proto fresh (some (ValueProto.unset shown)) =
      err (fail_with (concept Concept.bad_value_type) (shown ∷ []))

  -- `RequestBuilder.Value.protoValue`: a scalar that is not of the JavaScript type that `value_type`
  -- asks for goes to `cast_to`, what protobuf makes of it.
  unfoldable pub proto_value :
      (cast_to : ValueType → Scalar N → ValueProto N) → Value N → Result (ValueProto N)
  proto_value cast_to v = elim v.value_type [
    | ValueType.boolean ↦
        ok (elim v.value [
          | Scalar.boolean b ↦ ValueProto.boolean b
          | x ↦ cast_to ValueType.boolean x
        ])
    | ValueType.long ↦
        ok (elim v.value [ Scalar.number n ↦ ValueProto.long n | x ↦ cast_to ValueType.long x ])
    | ValueType.double ↦
        ok (elim v.value [ Scalar.number n ↦ ValueProto.double n | x ↦ cast_to ValueType.double x ])
    | ValueType.string ↦
        ok (elim v.value [ Scalar.text s ↦ ValueProto.string s | x ↦ cast_to ValueType.string x ])
    | ValueType.datetime ↦ ok (elim v.value [
      | Scalar.date r n ↦ ValueProto.date_time n
      | x ↦ cast_to ValueType.datetime x
    ])
    | ValueType.object ↦ err (fail_with (concept Concept.bad_value_type) [])
  ]

  module _ (hex : Hex) where
    unfoldable pub thing_of : (ThingFields → Thing N) → List ℕ → Bool → Result (Option (Thing N))
    thing_of make iid inferred =
        and_then (new_thing (bytes_to_hex_string hex iid) inferred) (λ f. some (make f))

    unfoldable pub of_entity_proto : Option ThingProto → Result (Option (Thing N))
    unfolding thing_of
    of_entity_proto none = ok none
    of_entity_proto (some p) =
        thing_of (λ f. Thing.entity f (of_entity_type_proto p.type)) p.iid p.inferred

    unfoldable pub of_relation_proto : Option ThingProto → Result (Option (Thing N))
    unfolding thing_of
    of_relation_proto none = ok none
    of_relation_proto (some p) =
        thing_of (λ f. Thing.relation f (of_relation_type_proto p.type)) p.iid p.inferred

    unfoldable pub attribute_with :
        AttributeProto N → Result (Option (Value N)) → Result (Option (Thing N))
    unfolding thing_of
    attribute_with p (err e) = err e
    attribute_with p (ok v) =
        thing_of (λ f. Thing.attribute f (of_attribute_type_proto p.attribute_type) v) p.iid
          p.inferred

    unfoldable pub of_attribute_proto :
        (fresh : ℕ) → Option (AttributeProto N) → Result (Option (Thing N))
    unfolding attribute_with
    of_attribute_proto fresh none = ok none
    of_attribute_proto fresh (some p) = attribute_with p (of_value_proto fresh p.value)

    -- `ThingImpl.ofThingProto`
    unfoldable pub of_thing_proto : (fresh : ℕ) → AnyThingProto N → Result (Option (Thing N))
    of_thing_proto fresh (AnyThingProto.entity p) = of_entity_proto (some p)
    of_thing_proto fresh (AnyThingProto.relation p) = of_relation_proto (some p)
    of_thing_proto fresh (AnyThingProto.attribute p) = of_attribute_proto fresh (some p)
    of_thing_proto fresh (AnyThingProto.unset shown) =
        err (fail_with (concept Concept.bad_encoding) (shown ∷ []))

    -- `ResponseReader.Concept.of`
    unfoldable pub concept_of : (fresh : ℕ) → ConceptProto N → Result (Option (AnyConcept N))
    concept_of fresh (ConceptProto.entity_type p) =
        ok (if_some AnyConcept.schema (of_entity_type_proto (some p)))
    concept_of fresh (ConceptProto.relation_type p) =
        ok (if_some AnyConcept.schema (of_relation_type_proto (some p)))
    concept_of fresh (ConceptProto.attribute_type p) =
        ok (if_some AnyConcept.schema (of_attribute_type_proto (some p)))
    concept_of fresh (ConceptProto.role_type p) =
        ok (if_some AnyConcept.schema (of_role_type_proto (some p)))
    concept_of fresh ConceptProto.thing_type_root =
        ok (some (AnyConcept.schema SchemaType.thing_root))
    concept_of fresh (ConceptProto.entity p) =
        and_then (of_entity_proto (some p)) (if_some AnyConcept.thing)
    concept_of fresh (ConceptProto.relation p) =
        and_then (of_relation_proto (some p)) (if_some AnyConcept.thing)
    concept_of fresh (ConceptProto.attribute p) =
        and_then (of_attribute_proto fresh (some p)) (if_some AnyConcept.thing)
    concept_of fresh (ConceptProto.value p) =
        and_then (of_value_proto fresh (some p)) (if_some AnyConcept.value)
    concept_of fresh (ConceptProto.unset shown) =
        err (fail_with (concept Concept.bad_encoding) (shown ∷ []))
