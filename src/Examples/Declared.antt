-- ===== src/Examples/Declared.antt =====
-- The methods of types in nodejs/concept that give streams, on a server that answers all of them.
use typedb_client_java.Prelude.{ℕ, [], ◌∷◌, map, none, some, false, refl}
use typedb_client_java.Stream.{Stream, end, item, array}
use typedb_client_java.Answer.Label.{Label}
use typedb_client_java.Concept.Reading.{
  TypeProto, AttributeTypeProto, RoleTypeProto, ThingProto, known,
}
use typedb_client_java.Concept.{ValueType}
use typedb_client_java.Methods.Messages
use typedb_client_java.Methods.Messages.{
  TransactionReq, TransactionResPart, about_entity_type, about_relation_type, about_attribute_type,
  about_type, about_role,
}
use typedb_client_java.Methods.Declared.Served.{
  AreEntityTypes, AreRelationTypes, AreAttributeTypes, AreRoleTypes, AreEntities, AreRelations,
  Items, Answers,
}
use typedb_client_java.Methods.Declared.{items-IsDeclared}
use typedb_client_java.Methods.EntityTypes
use typedb_client_java.Methods.RelationTypes
use typedb_client_java.Methods.AttributeTypes
use typedb_client_java.Methods.ThingTypes
use typedb_client_java.Methods.RoleTypes
use typedb_client_java.Examples.Hexadecimal.{buffer}

abbrev person : TypeProto
person = record { label = "person"; is_root = false; is_abstract = false }

abbrev marriage : TypeProto
marriage = record { label = "marriage"; is_root = false; is_abstract = false }

abbrev age : AttributeTypeProto
age = record {
  label = "age";
  is_root = false;
  is_abstract = false;
  value_type = known ValueType.long;
}

abbrev spouse : RoleTypeProto
spouse = record { label = "spouse"; scope = "marriage"; is_root = false; is_abstract = false }

abbrev alice : ThingProto
alice = record { iid = 1 ∷ []; inferred = false; type = some person }

abbrev wedding : ThingProto
wedding = record { iid = 2 ∷ []; inferred = false; type = some marriage }

-- Two messages for the subtypes of an entity type.
abbrev sample : Items
sample = record {
  entity_supertypes = (person ∷ []) ∷ [];
  entity_subtypes = (person ∷ []) ∷ (person ∷ []) ∷ [];
  entities = (alice ∷ []) ∷ [];
  relation_supertypes = (marriage ∷ []) ∷ [];
  relation_subtypes = (marriage ∷ []) ∷ [];
  relates = (spouse ∷ []) ∷ [];
  relations = (wedding ∷ []) ∷ [];
  attribute_supertypes = (age ∷ []) ∷ [];
  plays = (spouse ∷ []) ∷ [];
  role_supertypes = (spouse ∷ []) ∷ [];
  role_subtypes = (spouse ∷ []) ∷ [];
  relation_types = (marriage ∷ []) ∷ [];
  role_relations = (wedding ∷ []) ∷ [];
}

abbrev answer : TransactionReq ℕ → Stream (TransactionResPart ℕ)
answer
      (Messages.thing_type_req l
        (Messages.entity_type_req Messages.entity_type_get_supertypes_req)) =
    array (
      map (λ ps. Messages.thing_type_res_part (Messages.entity_type_get_supertypes_res_part ps))
        sample.entity_supertypes)
answer
      (Messages.thing_type_req l
        (Messages.entity_type_req (Messages.entity_type_get_subtypes_req _))) =
    array (
      map (λ ps. Messages.thing_type_res_part (Messages.entity_type_get_subtypes_res_part ps))
        sample.entity_subtypes)
answer
      (Messages.thing_type_req l
        (Messages.entity_type_req (Messages.entity_type_get_instances_req _))) =
    array (
      map (λ ps. Messages.thing_type_res_part (Messages.entity_type_get_instances_res_part ps))
        sample.entities)
answer
      (Messages.thing_type_req l
        (Messages.relation_type_req Messages.relation_type_get_supertypes_req)) =
    array (
      map (λ ps. Messages.thing_type_res_part (Messages.relation_type_get_supertypes_res_part ps))
        sample.relation_supertypes)
answer
      (Messages.thing_type_req l
        (Messages.relation_type_req (Messages.relation_type_get_subtypes_req _))) =
    array (
      map (λ ps. Messages.thing_type_res_part (Messages.relation_type_get_subtypes_res_part ps))
        sample.relation_subtypes)
answer
      (Messages.thing_type_req l
        (Messages.relation_type_req (Messages.relation_type_get_relates_req _))) =
    array (
      map (λ ps. Messages.thing_type_res_part (Messages.relation_type_get_relates_res_part ps))
        sample.relates)
answer
      (Messages.thing_type_req l
        (Messages.relation_type_req (Messages.relation_type_get_instances_req _))) =
    array (
      map (λ ps. Messages.thing_type_res_part (Messages.relation_type_get_instances_res_part ps))
        sample.relations)
answer
      (Messages.thing_type_req l
        (Messages.attribute_type_req Messages.attribute_type_get_supertypes_req)) =
    array (
      map (λ ps. Messages.thing_type_res_part (Messages.attribute_type_get_supertypes_res_part ps))
        sample.attribute_supertypes)
answer (Messages.thing_type_req l (Messages.thing_type_get_plays_req _)) = array (
    map (λ ps. Messages.thing_type_res_part (Messages.thing_type_get_plays_res_part ps))
      sample.plays)
answer (Messages.role_type_req n m Messages.role_type_get_supertypes_req) = array (
    map (λ ps. Messages.role_type_res_part (Messages.role_type_get_supertypes_res_part ps))
      sample.role_supertypes)
answer (Messages.role_type_req n m (Messages.role_type_get_subtypes_req _)) = array (
    map (λ ps. Messages.role_type_res_part (Messages.role_type_get_subtypes_res_part ps))
      sample.role_subtypes)
answer (Messages.role_type_req n m Messages.role_type_get_relation_types_req) = array (
    map (λ ps. Messages.role_type_res_part (Messages.role_type_get_relation_types_res_part ps))
      sample.relation_types)
answer (Messages.role_type_req n m (Messages.role_type_get_relation_instances_req _)) = array (
    map (λ ps. Messages.role_type_res_part (Messages.role_type_get_relation_instances_res_part ps))
      sample.role_relations)
answer _ = item Messages.other_res_part end

abbrev label : Label
label = record { scope = some "marriage"; name = "spouse" }

answer-Answers : Answers answer label none sample
unfolding about_entity_type about_relation_type about_attribute_type about_type about_role array
answer-Answers = record {
  entity_supertypes = refl;
  entity_subtypes = refl;
  entities = refl;
  relation_supertypes = refl;
  relation_subtypes = refl;
  relates = refl;
  relations = refl;
  attribute_supertypes = refl;
  plays = refl;
  role_supertypes = refl;
  role_subtypes = refl;
  relation_types = refl;
  role_relations = refl;
}

items-IsDeclared_example :
    AreEntityTypes ℕ sample.entity_supertypes (EntityTypes.get_supertypes answer label)
    × AreEntityTypes ℕ sample.entity_subtypes (EntityTypes.get_subtypes answer label none)
    × AreEntities ℕ buffer sample.entities (EntityTypes.get_instances answer buffer label none)
    × AreRelationTypes ℕ sample.relation_supertypes (RelationTypes.get_supertypes answer label)
    × AreRelationTypes ℕ sample.relation_subtypes (RelationTypes.get_subtypes answer label none)
    × AreRoleTypes ℕ sample.relates (RelationTypes.get_relates answer label none)
    × AreRelations ℕ buffer sample.relations (RelationTypes.get_instances answer buffer label none)
    × AreAttributeTypes ℕ sample.attribute_supertypes (AttributeTypes.get_supertypes answer label)
    × AreRoleTypes ℕ sample.plays (ThingTypes.get_plays answer label none)
    × AreRoleTypes ℕ sample.role_supertypes (RoleTypes.get_supertypes answer label)
    × AreRoleTypes ℕ sample.role_subtypes (RoleTypes.get_subtypes answer label none)
    × AreRelationTypes ℕ sample.relation_types (RoleTypes.get_relation_types answer label)
    × AreRelations ℕ buffer sample.role_relations
        (RoleTypes.get_relation_instances answer buffer 9 label none)
items-IsDeclared_example = items-IsDeclared answer buffer 9 label none sample answer-Answers
