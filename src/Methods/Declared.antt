-- ===== src/Methods/Declared.antt =====
-- What the methods of nodejs/concept that give streams of types and of instances deliver.
pub mod Served
use mathlib.Core.Path.{fun_ext}
use typedb_client_java.Prelude.{
  ℕ, List, [], ◌∷◌, map, Option, none, some, true, ◌≡◌, refl, All, ap, ◌∙◌,
}
use typedb_client_java.Effect.{Result, ok}
use typedb_client_java.Stream.{Stream, array, collect}
use typedb_client_java.Answer.Label.{Label}
use typedb_client_java.Concept.{SchemaType, Thing, AnyConcept}
use typedb_client_java.Concept.Bytes.{Hex, bytes_to_hex_string}
use typedb_client_java.Concept.Casting.{
  Kind, is_kind, class_of, type_class, finds, chain, overrides_is, is_same, kind_name,
}
use typedb_client_java.Concept.Reading.{
  TypeProto, AttributeTypeProto, RoleTypeProto, ThingProto, of_entity_type_proto,
  of_relation_type_proto, of_attribute_type_proto, of_role_type_proto, of_entity_proto,
  of_relation_proto, thing_of,
}
use typedb_client_java.Concept.Reading.Laws.{new_thing-hex}
use typedb_client_java.Concept.Overloads.{Transitivity, transitive, and_try}
use typedb_client_java.Methods.Messages
use typedb_client_java.Methods.Messages.{
  TransactionReq, TransactionResPart, about_entity_type, about_relation_type, about_attribute_type,
  about_type, about_role, overloaded_req, thing_type_res_part, role_type_res_part,
}
use typedb_client_java.Methods.Calls.{items_of, thing_type_part, role_type_part}
use typedb_client_java.Methods.Items.{concat, collect-items_of, read_messages-array, read_messages}
use typedb_client_java.Methods.EntityTypes
use typedb_client_java.Methods.RelationTypes
use typedb_client_java.Methods.AttributeTypes
use typedb_client_java.Methods.RoleTypes
use typedb_client_java.Methods.RoleTypes.{or_transitive}
use typedb_client_java.Methods.ThingTypes
use typedb_client_java.Methods.Declared.Served.{
  chosen, IsType, IsThing, Lists, entity_of, relation_of, AreEntityTypes, AreRelationTypes,
  AreAttributeTypes, AreRoleTypes, AreEntities, AreRelations, Items, Answers,
}

module _ {M R P A : Type 0} (Q : A → Type 0) (to_part : M → Result R) (items : R → Result (List P))
    (read : P → Result A) (f : P → A) (message : List P → M) where
  map-All : ((p : P) → Q (f p)) → (ps : List P) → All Q (map f ps)
  map-All h [] = tt
  map-All h (p ∷ ps) = (h p, map-All h ps)

  items-Lists :
      ((ps : List P) → and_try (to_part (message ps)) items ≡ ok ps)
      → ((p : P) → read p ≡ ok (f p))
      → ((p : P) → Q (f p))
      → (pss : List (List P)) (s : Stream M) → s ≡ array (map message pss)
      → Lists Q f pss (items_of to_part items read s)
  items-Lists sent reads kinds pss s delivers = (
    collect-items_of to_part items read s
        ∙ ap (λ r. read_messages to_part items r s) (fun_ext reads)
        ∙ ap (read_messages to_part items (λ p. ok (f p))) delivers
        ∙ read_messages-array to_part items f message sent pss,
    map-All kinds (concat pss),
  )

entity-read :
    {N : Type 0} (hex : Hex) (p : ThingProto)
    → of_entity_proto {N = N} hex (some p) ≡ ok (entity_of hex p)
unfolding of_entity_proto thing_of
entity-read hex p = rw (new_thing-hex hex p.iid p.inferred) refl

relation-read :
    {N : Type 0} (hex : Hex) (p : ThingProto)
    → of_relation_proto {N = N} hex (some p) ≡ ok (relation_of hex p)
unfolding of_relation_proto thing_of
relation-read hex p = rw (new_thing-hex hex p.iid p.inferred) refl

-- Where a server answers the request of a method, the method delivers what is read of the items of the
-- answer, in order, and each is of the interface that the method declares: supertypes and subtypes of
-- entity, relation and role types and supertypes of attribute types are types of that kind; the roles
-- that a relation type relates or a type plays are role types, and the relation types of a role are
-- relation types; the instances of entity and relation types are entities and relations, and so are
-- the relations in which a role is played. A method without a transitivity asks for all.
pub items-IsDeclared :
    {N : Type 0} (rpc_stream : TransactionReq N → Stream (TransactionResPart N)) (hex : Hex)
    (fresh : ℕ) (label : Label) (t : Option Transitivity) (items : Items)
    → Answers rpc_stream label t items
    → AreEntityTypes N items.entity_supertypes (EntityTypes.get_supertypes rpc_stream label)
      × AreEntityTypes N items.entity_subtypes (EntityTypes.get_subtypes rpc_stream label t)
      × AreEntities N hex items.entities (EntityTypes.get_instances rpc_stream hex label t)
      × AreRelationTypes N items.relation_supertypes (RelationTypes.get_supertypes rpc_stream label)
      × AreRelationTypes N items.relation_subtypes (RelationTypes.get_subtypes rpc_stream label t)
      × AreRoleTypes N items.relates (RelationTypes.get_relates rpc_stream label t)
      × AreRelations N hex items.relations (RelationTypes.get_instances rpc_stream hex label t)
      × AreAttributeTypes N items.attribute_supertypes
          (AttributeTypes.get_supertypes rpc_stream label)
      × AreRoleTypes N items.plays (ThingTypes.get_plays rpc_stream label t)
      × AreRoleTypes N items.role_supertypes (RoleTypes.get_supertypes rpc_stream label)
      × AreRoleTypes N items.role_subtypes (RoleTypes.get_subtypes rpc_stream label t)
      × AreRelationTypes N items.relation_types (RoleTypes.get_relation_types rpc_stream label)
      × AreRelations N hex items.role_relations
          (RoleTypes.get_relation_instances rpc_stream hex fresh label t)
unfolding EntityTypes.get_supertypes EntityTypes.get_subtypes EntityTypes.get_instances
    RelationTypes.get_supertypes RelationTypes.get_subtypes RelationTypes.get_relates
    RelationTypes.get_instances AttributeTypes.get_supertypes ThingTypes.get_plays
    RoleTypes.get_supertypes RoleTypes.get_subtypes RoleTypes.get_relation_types
    RoleTypes.get_relation_instances is_kind class_of type_class finds chain overrides_is is_same
    kind_name of_entity_type_proto of_relation_type_proto of_role_type_proto of_attribute_type_proto
    or_transitive thing_type_part role_type_part
items-IsDeclared {N} rpc_stream hex fresh label t items at = (
  items-Lists (IsType N Kind.entity_type) thing_type_part _
      (λ p. ok (of_entity_type_proto (some p))) (λ p. of_entity_type_proto (some p))
      (λ ps. thing_type_res_part (Messages.entity_type_get_supertypes_res_part ps)) (λ ps. refl)
      (λ p. refl) (λ p. refl) items.entity_supertypes _ at.entity_supertypes,
  items-Lists (IsType N Kind.entity_type) thing_type_part _
      (λ p. ok (of_entity_type_proto (some p))) (λ p. of_entity_type_proto (some p))
      (λ ps. thing_type_res_part (Messages.entity_type_get_subtypes_res_part ps)) (λ ps. refl)
      (λ p. refl) (λ p. refl) items.entity_subtypes _ at.entity_subtypes,
  items-Lists (IsThing N Kind.entity) thing_type_part _ (λ p. of_entity_proto hex (some p))
      (entity_of hex) (λ ps. thing_type_res_part (Messages.entity_type_get_instances_res_part ps))
      (λ ps. refl) (entity-read hex) (λ p. refl) items.entities _ at.entities,
  items-Lists (IsType N Kind.relation_type) thing_type_part _
      (λ p. ok (of_relation_type_proto (some p))) (λ p. of_relation_type_proto (some p))
      (λ ps. thing_type_res_part (Messages.relation_type_get_supertypes_res_part ps)) (λ ps. refl)
      (λ p. refl) (λ p. refl) items.relation_supertypes _ at.relation_supertypes,
  items-Lists (IsType N Kind.relation_type) thing_type_part _
      (λ p. ok (of_relation_type_proto (some p))) (λ p. of_relation_type_proto (some p))
      (λ ps. thing_type_res_part (Messages.relation_type_get_subtypes_res_part ps)) (λ ps. refl)
      (λ p. refl) (λ p. refl) items.relation_subtypes _ at.relation_subtypes,
  items-Lists (IsType N Kind.role_type) thing_type_part _ (λ p. ok (of_role_type_proto (some p)))
      (λ p. of_role_type_proto (some p))
      (λ ps. thing_type_res_part (Messages.relation_type_get_relates_res_part ps)) (λ ps. refl)
      (λ p. refl) (λ p. refl) items.relates _ at.relates,
  items-Lists (IsThing N Kind.relation) thing_type_part _ (λ p. of_relation_proto hex (some p))
      (relation_of hex)
      (λ ps. thing_type_res_part (Messages.relation_type_get_instances_res_part ps)) (λ ps. refl)
      (relation-read hex) (λ p. refl) items.relations _ at.relations,
  items-Lists (IsType N Kind.attribute_type) thing_type_part _
      (λ p. ok (of_attribute_type_proto (some p))) (λ p. of_attribute_type_proto (some p))
      (λ ps. thing_type_res_part (Messages.attribute_type_get_supertypes_res_part ps)) (λ ps. refl)
      (λ p. refl) (λ p. refl) items.attribute_supertypes _ at.attribute_supertypes,
  items-Lists (IsType N Kind.role_type) thing_type_part _ (λ p. ok (of_role_type_proto (some p)))
      (λ p. of_role_type_proto (some p))
      (λ ps. thing_type_res_part (Messages.thing_type_get_plays_res_part ps)) (λ ps. refl)
      (λ p. refl) (λ p. refl) items.plays _ at.plays,
  items-Lists (IsType N Kind.role_type) role_type_part _ (λ p. ok (of_role_type_proto (some p)))
      (λ p. of_role_type_proto (some p))
      (λ ps. role_type_res_part (Messages.role_type_get_supertypes_res_part ps)) (λ ps. refl)
      (λ p. refl) (λ p. refl) items.role_supertypes _ at.role_supertypes,
  items-Lists (IsType N Kind.role_type) role_type_part _ (λ p. ok (of_role_type_proto (some p)))
      (λ p. of_role_type_proto (some p))
      (λ ps. role_type_res_part (Messages.role_type_get_subtypes_res_part ps)) (λ ps. refl)
      (λ p. refl) (λ p. refl) items.role_subtypes _ at.role_subtypes,
  items-Lists (IsType N Kind.relation_type) role_type_part _
      (λ p. ok (of_relation_type_proto (some p))) (λ p. of_relation_type_proto (some p))
      (λ ps. role_type_res_part (Messages.role_type_get_relation_types_res_part ps)) (λ ps. refl)
      (λ p. refl) (λ p. refl) items.relation_types _ at.relation_types,
  items-Lists (IsThing N Kind.relation) role_type_part _ (λ p. of_relation_proto hex (some p))
      (relation_of hex)
      (λ ps. role_type_res_part (Messages.role_type_get_relation_instances_res_part ps))
      (λ ps. refl) (relation-read hex) (λ p. refl) items.role_relations _ at.role_relations,
)
