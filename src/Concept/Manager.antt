-- ===== src/Concept/Manager.antt =====
-- nodejs/concept/ConceptManagerImpl.ts and the methods `isDeleted` of types and things, over what the
-- transaction answers to a request.
pub mod Deletion
use Prim.Native.String.{◌++◌}
use typedb_client_java.Prelude.{
  ℕ, String, List, [], ◌∷◌, map, Option, none, some, Bool, true, false, not, is_some, if◌then◌else◌,
}
use typedb_client_java.Errors.DriverError.{Thrown, DriverError, js, of_string}
use typedb_client_java.Effect.{Result, ok, err, Eff, pure, throw, ◌>>=◌}
use typedb_client_java.Answer.Label.{Label}
use typedb_client_java.Concept.{ValueType, SchemaType, Thing, root_fields, label_of}
use typedb_client_java.Concept.Bytes.{Hex, hex_string_to_bytes}
use typedb_client_java.Concept.Reading.{
  TypeProto, AttributeTypeProto, RoleTypeProto, ThingProto, AttributeProto, of_entity_type_proto,
  of_relation_type_proto, of_attribute_type_proto, of_role_type_proto, of_entity_proto,
  of_relation_proto, of_attribute_proto,
}

-- The requests of the manager, and that of `getRelatesForRoleLabel`.
pub data ConceptReq : Type 0 where
  put_entity_type_req put_relation_type_req : (label : String) → ConceptReq
  put_attribute_type_req : (label : String) → ValueType → ConceptReq
  get_entity_type_req get_relation_type_req get_attribute_type_req : (label : String) → ConceptReq
  get_entity_req get_relation_req get_attribute_req : (iid : List ℕ) → ConceptReq
  get_schema_exceptions_req : ConceptReq
  get_relates_for_role_label_req : (label role_label : String) → ConceptReq

pub data ConceptRes (N : Type 0) : Type 0 where
  put_entity_type_res put_relation_type_res get_entity_type_res get_relation_type_res :
      Option TypeProto → ConceptRes N
  put_attribute_type_res get_attribute_type_res : Option AttributeTypeProto → ConceptRes N
  get_entity_res get_relation_res : Option ThingProto → ConceptRes N
  get_attribute_res : Option (AttributeProto N) → ConceptRes N
  get_schema_exceptions_res : List (String × String) → ConceptRes N
  get_relates_for_role_label_res : Option RoleTypeProto → ConceptRes N
  other_res : ConceptRes N

missing : Thrown
missing = js "TypeError: Cannot read properties of undefined"

from_result : {W A : Type 0} → Result A → Eff W A
from_result r w = (r, w)

-- A scope that is `null` is sent as the empty text.
unfoldable pub scope_of : Option String → String
scope_of none = ""
scope_of (some s) = s

module _ {N W : Type 0} (execute : ConceptReq → Eff W (ConceptRes N)) where
  unfoldable pub get_entity_type : String → Eff W (Option SchemaType)
  get_entity_type label =
      execute (get_entity_type_req label)
      >>= elim [ get_entity_type_res p ↦ pure (of_entity_type_proto p) | _ ↦ pure none ]

  unfoldable pub get_relation_type : String → Eff W (Option SchemaType)
  get_relation_type label =
      execute (get_relation_type_req label)
      >>= elim [ get_relation_type_res p ↦ pure (of_relation_type_proto p) | _ ↦ pure none ]

  unfoldable pub get_attribute_type : String → Eff W (Option SchemaType)
  get_attribute_type label =
      execute (get_attribute_type_req label)
      >>= elim [ get_attribute_type_res p ↦ pure (of_attribute_type_proto p) | _ ↦ pure none ]

  -- `getRootEntityType`, `getRootRelationType` and `getRootAttributeType`.
  unfoldable pub get_root_types : List (Eff W (Option SchemaType))
  get_root_types =
      get_entity_type "entity" ∷ get_relation_type "relation" ∷ get_attribute_type "attribute" ∷ []

  unfoldable pub put_entity_type : String → Eff W (Option SchemaType)
  unfolding missing
  put_entity_type label =
      execute (put_entity_type_req label)
      >>= elim [ put_entity_type_res p ↦ pure (of_entity_type_proto p) | _ ↦ throw missing ]

  unfoldable pub put_relation_type : String → Eff W (Option SchemaType)
  unfolding missing
  put_relation_type label =
      execute (put_relation_type_req label)
      >>= elim [ put_relation_type_res p ↦ pure (of_relation_type_proto p) | _ ↦ throw missing ]

  unfoldable pub put_attribute_type : String → ValueType → Eff W (Option SchemaType)
  unfolding missing
  put_attribute_type label v =
      execute (put_attribute_type_req label v)
      >>= elim [ put_attribute_type_res p ↦ pure (of_attribute_type_proto p) | _ ↦ throw missing ]

  -- `new TypeDBDriverError(code + " " + message)`, for each exception.
  unfoldable pub get_schema_exceptions : Eff W (List DriverError)
  unfolding missing
  get_schema_exceptions = execute get_schema_exceptions_req >>= elim [
    | get_schema_exceptions_res es ↦ pure (map (λ e. of_string (e.0 ++ (" " ++ e.1))) es)
    | _ ↦ throw missing
  ]

  -- `getRelatesForRoleLabel` of a relation type.
  unfoldable pub get_relates_for_role_label : Label → String → Eff W (Option SchemaType)
  unfolding missing
  get_relates_for_role_label label role_label =
      execute (get_relates_for_role_label_req label.name role_label) >>= elim [
        | get_relates_for_role_label_res p ↦ pure (of_role_type_proto p)
        | _ ↦ throw missing
      ]

  unfoldable pub relates_no_role : String → Option SchemaType → Eff W Bool
  relates_no_role role_label none = pure true
  relates_no_role role_label (some t) =
      get_relates_for_role_label (label_of t) role_label >>= λ r. pure (not (is_some r))

  -- `isDeleted` of a type.
  unfoldable pub type_is_deleted : SchemaType → Eff W Bool
  unfolding relates_no_role
  type_is_deleted (SchemaType.entity_type t) =
      get_entity_type t.label.name >>= λ r. pure (not (is_some r))
  type_is_deleted (SchemaType.relation_type t) =
      get_relation_type t.label.name >>= λ r. pure (not (is_some r))
  type_is_deleted (SchemaType.attribute_type t v) =
      get_attribute_type t.label.name >>= λ r. pure (not (is_some r))
  type_is_deleted (SchemaType.role_type t) =
      get_relation_type (scope_of t.label.scope) >>= relates_no_role t.label.name
  type_is_deleted SchemaType.thing_root = pure false

  module _ (hex : Hex) (show : ℕ → String) (fresh : ℕ) where
    read_thing :
        (ConceptRes N → Result (Option (Thing N)))
        → (List ℕ → ConceptReq)
        → String
        → Eff W (Option (Thing N))
    unfolding from_result
    read_thing read req iid = from_result (hex_string_to_bytes hex show iid) >>= λ bytes.
        (execute (req bytes) >>= λ res. from_result (read res))

    unfoldable pub get_entity : String → Eff W (Option (Thing N))
    unfolding read_thing
    get_entity =
        read_thing (elim [ get_entity_res p ↦ of_entity_proto hex p | _ ↦ ok none ]) get_entity_req

    unfoldable pub get_relation : String → Eff W (Option (Thing N))
    unfolding read_thing
    get_relation =
        read_thing (elim [ get_relation_res p ↦ of_relation_proto hex p | _ ↦ ok none ])
          get_relation_req

    unfoldable pub get_attribute : String → Eff W (Option (Thing N))
    unfolding read_thing
    get_attribute =
        read_thing (elim [ get_attribute_res p ↦ of_attribute_proto hex fresh p | _ ↦ ok none ])
          get_attribute_req

    -- `isDeleted` of a thing.
    unfoldable pub thing_is_deleted : Thing N → Eff W Bool
    thing_is_deleted (Thing.entity f t) = get_entity f.iid >>= λ r. pure (not (is_some r))
    thing_is_deleted (Thing.relation f t) = get_relation f.iid >>= λ r. pure (not (is_some r))
    thing_is_deleted (Thing.attribute f t v) = get_attribute f.iid >>= λ r. pure (not (is_some r))
