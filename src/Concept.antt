-- ===== src/Concept.antt =====
-- nodejs/concept and nodejs/api/concept: types, things and values. Numbers of JavaScript are of a
-- type `N`. What is `null` is `none`.
pub mod Annotations
pub mod Bytes
pub mod Casting
pub mod Equality
pub mod Manager
pub mod Overloads
pub mod Reading
pub mod RolePlayers
pub mod Tree
pub mod Values
use Prim.Native.String.{◌++◌}
use typedb_client_java.Prelude.{ℕ, String, Option, none, some, Bool, true, false}
use typedb_client_java.Errors.Templates.{Concept, concept}
use typedb_client_java.Errors.DriverError.{raised, of_template}
use typedb_client_java.Effect.{Result, ok, err}
use typedb_client_java.Answer.Label.{Label, scoped_name}

-- The constants of `Concept.ValueType`, and with the same names those of the protocol.
pub data ValueType : Type 0 where
  object boolean long double string datetime : ValueType

-- `name()`
unfoldable pub value_type_name : ValueType → String
value_type_name ValueType.object = "object"
value_type_name ValueType.boolean = "boolean"
value_type_name ValueType.long = "long"
value_type_name ValueType.double = "double"
value_type_name ValueType.string = "string"
value_type_name ValueType.datetime = "datetime"

-- `boolean | string | number | Date`: a `Date` is an object `ref` that holds a time.
pub data Scalar (N : Type 0) : Type 0 where
  boolean : Bool → Scalar N
  text : String → Scalar N
  number : N → Scalar N
  date : (ref : ℕ) (time : N) → Scalar N

-- `ValueImpl`
pub record Value (N : Type 0) : Type 0 where
  pub value_type : ValueType
  pub value : Scalar N

-- `TypeImpl`
pub record TypeFields : Type 0 where
  pub label : Label
  pub is_root : Bool
  pub is_abstract : Bool

-- The value type of an attribute type is `none` where it is `undefined`. The last constructor is
-- `ThingTypeImpl.Root`.
pub data SchemaType : Type 0 where
  entity_type relation_type role_type : TypeFields → SchemaType
  attribute_type : TypeFields → Option ValueType → SchemaType
  thing_root : SchemaType

-- `_iid` and `_inferred` of `ThingImpl`.
pub record ThingFields : Type 0 where
  pub iid : String
  pub inferred : Bool

-- `EntityImpl`, `RelationImpl` and `AttributeImpl`, with their types.
pub data Thing (N : Type 0) : Type 0 where
  entity relation : ThingFields → Option SchemaType → Thing N
  attribute : ThingFields → Option SchemaType → Option (Value N) → Thing N

pub data AnyConcept (N : Type 0) : Type 0 where
  schema : SchemaType → AnyConcept N
  thing : Thing N → AnyConcept N
  value : Value N → AnyConcept N

-- `super("thing", true, true)`
unfoldable pub root_fields : TypeFields
root_fields = record {
  label = record { scope = none; name = "thing" };
  is_root = true;
  is_abstract = true;
}

unfoldable pub type_fields : SchemaType → TypeFields
type_fields (entity_type t) = t
type_fields (relation_type t) = t
type_fields (role_type t) = t
type_fields (attribute_type t v) = t
type_fields thing_root = root_fields

-- The getter `label`.
unfoldable pub label_of : SchemaType → Label
unfolding type_fields
label_of t = (type_fields t).label

unfoldable pub thing_fields : {N : Type 0} → Thing N → ThingFields
thing_fields (entity f t) = f
thing_fields (relation f t) = f
thing_fields (attribute f t v) = f

-- The constructor of `ThingImpl`.
unfoldable pub new_thing : String → Bool → Result ThingFields
new_thing String.[] inferred = err (raised (of_template (concept Concept.missing_iid)))
new_thing (String.◌∷◌ c s) inferred = ok (record { iid = String.◌∷◌ c s; inferred = inferred })
