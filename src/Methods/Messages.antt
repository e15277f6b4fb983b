-- ===== src/Methods/Messages.antt =====
-- The requests of nodejs/common/rpc/RequestBuilder.ts about a type or a thing, and what is read of
-- their responses.
use typedb_client_java.Prelude.{ℕ, String, List, Option}
use typedb_client_java.Answer.Label.{Label}
use typedb_client_java.Concept.{SchemaType, label_of}
use typedb_client_java.Concept.Reading.{
  TypeProto, AttributeTypeProto, RoleTypeProto, ThingProto, AttributeProto, AnyThingProto,
  AnyTypeProto, ValueProto,
}
use typedb_client_java.Concept.Manager.{scope_of}
use typedb_client_java.Concept.Overloads.{Transitivity}
use typedb_client_java.Concept.Overloads

-- A role type in a request.
pub record RoleName : Type 0 where
  pub scope : String
  pub label : String

-- A thing in a request.
pub data ThingName : Type 0 where
  entity relation attribute : (iid : List ℕ) → ThingName

pub data RoleTypeReq : Type 0 where
  role_type_delete_req role_type_get_supertype_req role_type_get_supertypes_req
        role_type_get_relation_types_req :
      RoleTypeReq
  role_type_set_label_req : (label : String) → RoleTypeReq
  role_type_get_subtypes_req role_type_get_player_types_req role_type_get_relation_instances_req
        role_type_get_player_instances_req :
      Transitivity → RoleTypeReq

-- The requests of the namespaces `EntityType`, `RelationType`, `AttributeType` and `ThingType`. Types
-- other than roles are named by their labels.
pub data EntityTypeReq : Type 0 where
  entity_type_create_req entity_type_get_supertype_req entity_type_get_supertypes_req :
      EntityTypeReq
  entity_type_set_supertype_req : (supertype : String) → EntityTypeReq
  entity_type_get_subtypes_req entity_type_get_instances_req : Transitivity → EntityTypeReq

pub data RelationTypeReq : Type 0 where
  relation_type_create_req relation_type_get_supertype_req relation_type_get_supertypes_req :
      RelationTypeReq
  relation_type_set_supertype_req : (supertype : String) → RelationTypeReq
  relation_type_get_subtypes_req relation_type_get_instances_req relation_type_get_relates_req :
      Transitivity → RelationTypeReq
  relation_type_get_relates_overridden_req relation_type_unset_relates_req :
      (role_label : String) → RelationTypeReq
  relation_type_set_relates_req :
      (role_label : String) → (overridden_label : Option String) → RelationTypeReq

pub data AttributeTypeReq (N : Type 0) : Type 0 where
  attribute_type_put_req attribute_type_get_req : ValueProto N → AttributeTypeReq N
  attribute_type_get_supertype_req attribute_type_get_supertypes_req attribute_type_get_regex_req :
      AttributeTypeReq N
  attribute_type_set_supertype_req : (supertype : String) → AttributeTypeReq N
  attribute_type_get_instances_req : Transitivity → AttributeTypeReq N
  attribute_type_set_regex_req : (regex : String) → AttributeTypeReq N

pub data ThingTypeReq (N : Type 0) : Type 0 where
  thing_type_delete_req thing_type_set_abstract_req thing_type_unset_abstract_req
        thing_type_get_syntax_req :
      ThingTypeReq N
  thing_type_set_label_req : (label : String) → ThingTypeReq N
  thing_type_get_owns_overridden_req thing_type_unset_owns_req : (type : String) → ThingTypeReq N
  thing_type_get_plays_req : Transitivity → ThingTypeReq N
  thing_type_get_plays_overridden_req thing_type_unset_plays_req : RoleName → ThingTypeReq N
  thing_type_set_plays_req : RoleName → (overridden : Option RoleName) → ThingTypeReq N
  entity_type_req : EntityTypeReq → ThingTypeReq N
  relation_type_req : RelationTypeReq → ThingTypeReq N
  attribute_type_req : AttributeTypeReq N → ThingTypeReq N

pub data ThingReq : Type 0 where
  thing_set_has_req thing_unset_has_req : (attribute : List ℕ) → ThingReq
  thing_get_playing_req thing_delete_req relation_get_role_players_req relation_get_relating_req :
      ThingReq
  thing_get_relations_req relation_get_players_by_role_type_req : List RoleName → ThingReq
  relation_add_role_player_req relation_remove_role_player_req : RoleName → ThingName → ThingReq

-- A request, with the label, the label and the scope, or the IID of what it is about. The last
-- constructor has those of the methods with overloads.
pub data TransactionReq (N : Type 0) : Type 0 where
  role_type_req : (label scope : String) → RoleTypeReq → TransactionReq N
  thing_type_req : (label : String) → ThingTypeReq N → TransactionReq N
  thing_req : (iid : List ℕ) → ThingReq → TransactionReq N
  overloaded_req : Overloads.TransactionReq → TransactionReq N

-- `newReqBuilder` and `roleTypeReq`
unfoldable pub about_role : {N : Type 0} → Label → RoleTypeReq → TransactionReq N
about_role label req = role_type_req label.name (scope_of label.scope) req

-- `thingTypeReq`
unfoldable pub about_type : {N : Type 0} → Label → ThingTypeReq N → TransactionReq N
about_type label req = thing_type_req label.name req

unfoldable pub about_entity_type : {N : Type 0} → Label → EntityTypeReq → TransactionReq N
about_entity_type label req = thing_type_req label.name (entity_type_req req)

unfoldable pub about_relation_type : {N : Type 0} → Label → RelationTypeReq → TransactionReq N
about_relation_type label req = thing_type_req label.name (relation_type_req req)

unfoldable pub about_attribute_type : {N : Type 0} → Label → AttributeTypeReq N → TransactionReq N
about_attribute_type label req = thing_type_req label.name (attribute_type_req req)

-- `RoleType.proto`
unfoldable pub role_name : SchemaType → RoleName
role_name t = record { scope = scope_of (label_of t).scope; label = (label_of t).name }

-- `EntityType.proto`, `RelationType.proto` and `AttributeType.proto`
unfoldable pub type_name : SchemaType → String
type_name t = (label_of t).name

-- The responses that have more than their kind.
pub data RoleTypeRes : Type 0 where
  role_type_get_supertype_res : Option RoleTypeProto → RoleTypeRes
  other_role_type_res : RoleTypeRes

pub data ThingTypeRes (N : Type 0) : Type 0 where
  thing_type_get_owns_overridden_res : Option AttributeTypeProto → ThingTypeRes N
  thing_type_get_plays_overridden_res : Option RoleTypeProto → ThingTypeRes N
  thing_type_get_syntax_res : (syntax : String) → ThingTypeRes N
  entity_type_create_res relation_type_create_res : Option ThingProto → ThingTypeRes N
  entity_type_get_supertype_res relation_type_get_supertype_res : Option TypeProto → ThingTypeRes N
  relation_type_get_relates_overridden_res : Option RoleTypeProto → ThingTypeRes N
  attribute_type_put_res attribute_type_get_res : Option (AttributeProto N) → ThingTypeRes N
  attribute_type_get_supertype_res : Option AttributeTypeProto → ThingTypeRes N
  attribute_type_get_regex_res : (regex : String) → ThingTypeRes N
  other_thing_type_res : ThingTypeRes N

-- `type_res` is set in the first two only.
pub data TransactionRes (N : Type 0) : Type 0 where
  thing_type_res : ThingTypeRes N → TransactionRes N
  role_type_res : RoleTypeRes → TransactionRes N
  other_res : TransactionRes N

-- The parts of the responses that are streams.
pub data RoleTypeResPart (N : Type 0) : Type 0 where
  role_type_get_supertypes_res_part role_type_get_subtypes_res_part :
      List RoleTypeProto → RoleTypeResPart N
  role_type_get_relation_types_res_part : List TypeProto → RoleTypeResPart N
  role_type_get_player_types_res_part : List AnyTypeProto → RoleTypeResPart N
  role_type_get_relation_instances_res_part : List ThingProto → RoleTypeResPart N
  role_type_get_player_instances_res_part : List (AnyThingProto N) → RoleTypeResPart N

pub data ThingTypeResPart (N : Type 0) : Type 0 where
  thing_type_get_owns_res_part : List AttributeTypeProto → ThingTypeResPart N
  thing_type_get_plays_res_part : List RoleTypeProto → ThingTypeResPart N
  entity_type_get_supertypes_res_part entity_type_get_subtypes_res_part
        relation_type_get_supertypes_res_part relation_type_get_subtypes_res_part :
      List TypeProto → ThingTypeResPart N
  entity_type_get_instances_res_part relation_type_get_instances_res_part :
      List ThingProto → ThingTypeResPart N
  relation_type_get_relates_res_part : List RoleTypeProto → ThingTypeResPart N
  attribute_type_get_supertypes_res_part attribute_type_get_subtypes_res_part :
      List AttributeTypeProto → ThingTypeResPart N
  attribute_type_get_instances_res_part : List (AttributeProto N) → ThingTypeResPart N
  attribute_type_get_owners_res_part : List AnyTypeProto → ThingTypeResPart N

pub data ThingResPart (N : Type 0) : Type 0 where
  thing_get_has_res_part : List (AttributeProto N) → ThingResPart N
  thing_get_playing_res_part relation_get_relating_res_part : List RoleTypeProto → ThingResPart N
  thing_get_relations_res_part : List ThingProto → ThingResPart N
  relation_get_players_by_role_type_res_part attribute_get_owners_res_part :
      List (AnyThingProto N) → ThingResPart N
  relation_get_role_players_res_part :
      List (Option RoleTypeProto × AnyThingProto N) → ThingResPart N

pub data TransactionResPart (N : Type 0) : Type 0 where
  role_type_res_part : RoleTypeResPart N → TransactionResPart N
  thing_type_res_part : ThingTypeResPart N → TransactionResPart N
  thing_res_part : ThingResPart N → TransactionResPart N
  other_res_part : TransactionResPart N
