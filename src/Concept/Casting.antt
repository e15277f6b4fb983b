-- ===== src/Concept/Casting.antt =====
-- nodejs/concept/ConceptImpl.ts and the methods of its subclasses that it names: `isX`, `asX`.
pub mod Interfaces
use text.Mathlib.Text.{◌==◌ as same_text}
use typedb_client_java.Prelude.{
  String, List, [], ◌∷◌, Option, none, some, Bool, false, ◌||◌, ◌≡◌, refl, ap₂, if◌then◌else◌,
}
use typedb_client_java.Errors.Templates.{Concept, concept, Internal, internal}
use typedb_client_java.Errors.DriverError.{fail_with}
use typedb_client_java.Effect.{Result, ok, err}
use typedb_client_java.Concept.{SchemaType, Thing, AnyConcept, label_of}

pub data Class : Type 0 where
  concept_impl type_impl thing_type_impl entity_type_impl relation_type_impl attribute_type_impl
        role_type_impl thing_type_root thing_impl entity_impl relation_impl attribute_impl
        value_impl :
      Class

-- The interfaces that the methods `isX` and `asX` are about.
pub data Kind : Type 0 where
  type role_type thing_type entity_type relation_type attribute_type thing entity relation attribute
        value :
      Kind

-- The `X` of `isX`, `asX` and of the message.
unfoldable pub kind_name : Kind → String
kind_name Kind.type = "Type"
kind_name Kind.role_type = "RoleType"
kind_name Kind.thing_type = "ThingType"
kind_name Kind.entity_type = "EntityType"
kind_name Kind.relation_type = "RelationType"
kind_name Kind.attribute_type = "AttributeType"
kind_name Kind.thing = "Thing"
kind_name Kind.entity = "Entity"
kind_name Kind.relation = "Relation"
kind_name Kind.attribute = "Attribute"
kind_name Kind.value = "Value"

-- A class and those that it extends, up to `ConceptImpl`.
unfoldable pub chain : Class → List Class
chain concept_impl = concept_impl ∷ []
chain type_impl = type_impl ∷ concept_impl ∷ []
chain thing_type_impl = thing_type_impl ∷ type_impl ∷ concept_impl ∷ []
chain entity_type_impl = entity_type_impl ∷ thing_type_impl ∷ type_impl ∷ concept_impl ∷ []
chain relation_type_impl = relation_type_impl ∷ thing_type_impl ∷ type_impl ∷ concept_impl ∷ []
chain attribute_type_impl = attribute_type_impl ∷ thing_type_impl ∷ type_impl ∷ concept_impl ∷ []
chain role_type_impl = role_type_impl ∷ type_impl ∷ concept_impl ∷ []
chain thing_type_root = thing_type_root ∷ thing_type_impl ∷ type_impl ∷ concept_impl ∷ []
chain thing_impl = thing_impl ∷ concept_impl ∷ []
chain entity_impl = entity_impl ∷ thing_impl ∷ concept_impl ∷ []
chain relation_impl = relation_impl ∷ thing_impl ∷ concept_impl ∷ []
chain attribute_impl = attribute_impl ∷ thing_impl ∷ concept_impl ∷ []
chain value_impl = value_impl ∷ concept_impl ∷ []

-- The kind whose `isX` the class overrides, to return `true`; `ConceptImpl` returns `false` for all.
unfoldable pub overrides_is : Class → Option Kind
overrides_is type_impl = some Kind.type
overrides_is thing_type_impl = some Kind.thing_type
overrides_is entity_type_impl = some Kind.entity_type
overrides_is relation_type_impl = some Kind.relation_type
overrides_is attribute_type_impl = some Kind.attribute_type
overrides_is role_type_impl = some Kind.role_type
overrides_is thing_impl = some Kind.thing
overrides_is entity_impl = some Kind.entity
overrides_is relation_impl = some Kind.relation
overrides_is attribute_impl = some Kind.attribute
overrides_is value_impl = some Kind.value
overrides_is _ = none

-- The kind whose `asX` the class overrides, to return `this`; `ConceptImpl` throws for all.
unfoldable pub overrides_as : Class → Option Kind
overrides_as type_impl = some Kind.type
overrides_as thing_type_impl = some Kind.thing_type
overrides_as entity_type_impl = some Kind.entity_type
overrides_as relation_type_impl = some Kind.relation_type
overrides_as attribute_type_impl = some Kind.attribute_type
overrides_as role_type_impl = some Kind.role_type
overrides_as thing_impl = some Kind.thing
overrides_as entity_impl = some Kind.entity
overrides_as relation_impl = some Kind.relation
overrides_as attribute_impl = some Kind.attribute
overrides_as value_impl = some Kind.value
overrides_as _ = none

-- The getter `className`, where the class has one of its own.
unfoldable pub own_name : Class → Option String
own_name thing_type_impl = some "ThingType"
own_name entity_type_impl = some "EntityType"
own_name relation_type_impl = some "RelationType"
own_name attribute_type_impl = some "AttributeType"
own_name role_type_impl = some "RoleType"
own_name entity_impl = some "Entity"
own_name relation_impl = some "Relation"
own_name attribute_impl = some "Attribute"
own_name value_impl = some "Value"
own_name _ = none

unfoldable pub is_same : Kind → Option Kind → Bool
unfolding kind_name
is_same k none = false
is_same k (some j) = same_text (kind_name j) (kind_name k)

-- A method is looked up along the classes.
unfoldable pub finds : (Class → Option Kind) → Kind → List Class → Bool
unfolding is_same
finds overrides k [] = false
finds overrides k (c ∷ cs) = is_same k (overrides c) || finds overrides k cs

name_along : List Class → String
unfolding own_name
name_along [] = ""
name_along (c ∷ cs) = elim (own_name c) [ none ↦ name_along cs | some n ↦ n ]

unfoldable pub type_class : SchemaType → Class
type_class (SchemaType.entity_type t) = entity_type_impl
type_class (SchemaType.relation_type t) = relation_type_impl
type_class (SchemaType.role_type t) = role_type_impl
type_class (SchemaType.attribute_type t v) = attribute_type_impl
type_class SchemaType.thing_root = thing_type_root

module _ {N : Type 0} where
  unfoldable pub class_of : AnyConcept N → Class
  unfolding type_class
  class_of (AnyConcept.schema t) = type_class t
  class_of (AnyConcept.thing (Thing.entity f t)) = entity_impl
  class_of (AnyConcept.thing (Thing.relation f t)) = relation_impl
  class_of (AnyConcept.thing (Thing.attribute f t v)) = attribute_impl
  class_of (AnyConcept.value v) = value_impl

  -- `isX`
  unfoldable pub is_kind : Kind → AnyConcept N → Bool
  unfolding class_of finds chain overrides_is
  is_kind k c = finds overrides_is k (chain (class_of c))

  unfoldable pub class_name : AnyConcept N → String
  unfolding class_of name_along chain
  class_name c = name_along (chain (class_of c))

  -- `asX`: the concept itself, or the error of `ConceptImpl`.
  unfoldable pub cast : Kind → AnyConcept N → Result (AnyConcept N)
  unfolding class_of finds chain overrides_as class_name
  cast k c =
      if finds overrides_as k (chain (class_of c))
      then ok c
      else err
          (fail_with (concept Concept.invalid_concept_casting) (class_name c ∷ kind_name k ∷ []))

  -- The interface that the concept's own class implements.
  unfoldable pub interface_of : AnyConcept N → Kind
  interface_of (AnyConcept.schema (SchemaType.entity_type t)) = Kind.entity_type
  interface_of (AnyConcept.schema (SchemaType.relation_type t)) = Kind.relation_type
  interface_of (AnyConcept.schema (SchemaType.role_type t)) = Kind.role_type
  interface_of (AnyConcept.schema (SchemaType.attribute_type t v)) = Kind.attribute_type
  interface_of (AnyConcept.schema SchemaType.thing_root) = Kind.thing_type
  interface_of (AnyConcept.thing (Thing.entity f t)) = Kind.entity
  interface_of (AnyConcept.thing (Thing.relation f t)) = Kind.relation
  interface_of (AnyConcept.thing (Thing.attribute f t v)) = Kind.attribute
  interface_of (AnyConcept.value v) = Kind.value

-- The protocol's types and things as requests name them.
pub data ThingTypeProto : Type 0 where
  entity_type relation_type attribute_type : (label : String) → ThingTypeProto

-- `ThingType.proto`: it asks a type whether it is an entity, a relation or an attribute.
unfoldable pub thing_type_proto : (N : Type 0) → SchemaType → Result ThingTypeProto
unfolding is_kind
thing_type_proto N t =
    let c : AnyConcept N = AnyConcept.schema t in
    if is_kind Kind.entity c
    then ok (ThingTypeProto.entity_type (label_of t).name)
    else if is_kind Kind.relation c
    then ok (ThingTypeProto.relation_type (label_of t).name)
    else if is_kind Kind.attribute c
    then ok (ThingTypeProto.attribute_type (label_of t).name)
    else err (fail_with (internal Internal.illegal_state) [])
