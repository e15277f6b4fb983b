-- ===== src/Methods/Root/Subtypes.antt =====
-- The subtypes and the instances of the root in nodejs/concept/type/ThingTypeImpl.ts.
use typedb_client_java.Prelude.{
  String, List, [], ◌∷◌, ◌++◌, map, Option, none, some, ◌≡◌, refl, ap, ap₂, ◌∙◌, arith, append-nil,
}
use typedb_client_java.Effect.{Result, ok, Eff}
use typedb_client_java.Stream.{
  Stream, end, array, promises, flat_mapped, mapped, collect, then_from,
}
use typedb_client_java.Stream.Laws.{collect-items}
use typedb_client_java.Answer.Label.{of_name}
use typedb_client_java.Concept.{SchemaType, label_of, type_fields}
use typedb_client_java.Concept.Reading.{
  TypeProto, AttributeTypeProto, of_entity_type_proto, of_relation_type_proto,
  of_attribute_type_proto, fields_of,
}
use typedb_client_java.Concept.Manager.{
  ConceptReq, ConceptRes, get_entity_type, get_relation_type, get_attribute_type,
}
use typedb_client_java.Concept.Manager.Deletion.{Schema, Serves}
use typedb_client_java.Concept.Overloads.{
  Transitivity, transitive, explicit, and_try, get_subtypes_call, assert_undefined,
}
use typedb_client_java.Concept.Overloads
use typedb_client_java.Query.Answers.{joined, collect-then_from}
use typedb_client_java.Methods.Messages.{
  TransactionReq, TransactionResPart, about_entity_type, about_relation_type, overloaded_req,
  thing_type_res_part, entity_type_get_subtypes_req, relation_type_get_subtypes_req,
  entity_type_get_subtypes_res_part, relation_type_get_subtypes_res_part,
  attribute_type_get_subtypes_res_part,
}
use typedb_client_java.Methods.Calls.{thing_type_part, no_field}
use typedb_client_java.Methods.RoleTypes.{or_transitive}
use typedb_client_java.Methods.EntityTypes
use typedb_client_java.Methods.RelationTypes
use typedb_client_java.Methods.AttributeTypes
use typedb_client_java.Methods.Items.{concat, collect-items_of, read_messages-array, read_messages}
use typedb_client_java.Methods.Root.{
  RootType, entity_root, relation_root, attribute_root, root_type, settled, roots, subtypes_of,
  subtypes, get_subtypes, method_of, called,
}

-- The messages of the three root types, and the subtypes of each, in the messages that deliver them.
pub record Hierarchy : Type 0 where
  pub entity : TypeProto
  pub relation : TypeProto
  pub attribute : AttributeTypeProto
  pub entities : List (List TypeProto)
  pub relations : List (List TypeProto)
  pub attributes : List (List AttributeTypeProto)

-- A schema has the root types of a hierarchy.
pub record Has (schema : Schema) (h : Hierarchy) : Type 0 where
  pub entity_type : schema.entity_type "entity" ≡ some h.entity
  pub relation_type : schema.relation_type "relation" ≡ some h.relation
  pub attribute_type : schema.attribute_type "attribute" ≡ some h.attribute

-- A server that delivers the subtypes of the root types.
pub record Delivers {N : Type 0} (rpc_stream : TransactionReq N → Stream (TransactionResPart N))
    (h : Hierarchy) : Type 0 where
  pub entities :
      rpc_stream
        (about_entity_type (of_name h.entity.label) (entity_type_get_subtypes_req transitive))
      ≡ array (map (λ ps. thing_type_res_part (entity_type_get_subtypes_res_part ps)) h.entities)
  pub relations :
      rpc_stream
        (about_relation_type (of_name h.relation.label) (relation_type_get_subtypes_req transitive))
      ≡ array (map (λ ps. thing_type_res_part (relation_type_get_subtypes_res_part ps)) h.relations)
  pub attributes :
      rpc_stream (overloaded_req (Overloads.get_subtypes h.attribute.label transitive none))
      ≡ array
          (map (λ ps. thing_type_res_part (attribute_type_get_subtypes_res_part ps)) h.attributes)

abbrev pub root_types : Hierarchy → List (Option SchemaType)
root_types h =
    of_entity_type_proto (some h.entity)
    ∷ of_relation_type_proto (some h.relation)
    ∷ of_attribute_type_proto (some h.attribute)
    ∷ []

abbrev pub all_subtypes : Hierarchy → List (Option SchemaType)
all_subtypes h =
    map (λ p. of_entity_type_proto (some p)) (concat h.entities)
    ++ (map (λ p. of_relation_type_proto (some p)) (concat h.relations)
        ++ map (λ p. of_attribute_type_proto (some p)) (concat h.attributes))

abbrev loaded : Hierarchy → List (Result RootType)
loaded h =
    ok (entity_root (of_entity_type_proto (some h.entity)))
    ∷ ok (relation_root (of_relation_type_proto (some h.relation)))
    ∷ ok (attribute_root (of_attribute_type_proto (some h.attribute)))
    ∷ []

module _ {N W : Type 0} (execute : ConceptReq → Eff W (ConceptRes N)) (schema : Schema) (w : W)
    (h : Hierarchy) where
  roots-loaded : Serves execute schema w → Has schema h → roots execute w ≡ (loaded h, w)
  unfolding roots settled get_entity_type get_relation_type get_attribute_type
  roots-loaded serves has = ground (
    arith,
    serves.entity_types "entity",
    serves.relation_types "relation",
    serves.attribute_types "attribute",
    has.entity_type,
    has.relation_type,
    has.attribute_type,
  )

module _ {N : Type 0} (shown : SchemaType → String)
    (rpc_stream : TransactionReq N → Stream (TransactionResPart N)) (h : Hierarchy)
    (delivers : Delivers rpc_stream h) where
  entities-collected :
      collect (
        subtypes_of shown rpc_stream transitive
          (entity_root (of_entity_type_proto (some h.entity))))
      ≡ ok (map (λ p. of_entity_type_proto (some p)) (concat h.entities))
  unfolding subtypes_of method_of EntityTypes.get_subtypes of_entity_type_proto label_of type_fields
      no_field thing_type_part fields_of or_transitive
  entities-collected =
      collect-items_of thing_type_part _ (λ p. ok (of_entity_type_proto (some p))) _
      ∙ ap (read_messages thing_type_part _ (λ p. ok (of_entity_type_proto (some p))))
          delivers.entities
      ∙ read_messages-array thing_type_part _ (λ p. of_entity_type_proto (some p))
          (λ ps. thing_type_res_part (entity_type_get_subtypes_res_part ps)) (λ ps. refl) h.entities

  relations-collected :
      collect (
        subtypes_of shown rpc_stream transitive
          (relation_root (of_relation_type_proto (some h.relation))))
      ≡ ok (map (λ p. of_relation_type_proto (some p)) (concat h.relations))
  unfolding subtypes_of method_of RelationTypes.get_subtypes of_relation_type_proto label_of
      type_fields no_field thing_type_part fields_of or_transitive
  relations-collected =
      collect-items_of thing_type_part _ (λ p. ok (of_relation_type_proto (some p))) _
      ∙ ap (read_messages thing_type_part _ (λ p. ok (of_relation_type_proto (some p))))
          delivers.relations
      ∙ read_messages-array thing_type_part _ (λ p. of_relation_type_proto (some p))
          (λ ps. thing_type_res_part (relation_type_get_subtypes_res_part ps)) (λ ps. refl)
          h.relations

  attributes-collected :
      collect (
        subtypes_of shown rpc_stream transitive
          (attribute_root (of_attribute_type_proto (some h.attribute))))
      ≡ ok (map (λ p. of_attribute_type_proto (some p)) (concat h.attributes))
  unfolding subtypes_of method_of AttributeTypes.get_subtypes of_attribute_type_proto label_of
      type_fields no_field thing_type_part called get_subtypes_call assert_undefined of_name
  attributes-collected =
      collect-items_of thing_type_part _ (λ p. ok (of_attribute_type_proto (some p))) _
      ∙ ap (read_messages thing_type_part _ (λ p. ok (of_attribute_type_proto (some p))))
          delivers.attributes
      ∙ read_messages-array thing_type_part _ (λ p. of_attribute_type_proto (some p))
          (λ ps. thing_type_res_part (attribute_type_get_subtypes_res_part ps)) (λ ps. refl)
          h.attributes

  loaded-collected :
      (collect (subtypes shown rpc_stream (loaded h) transitive) ≡ ok (all_subtypes h))
      × (collect (subtypes shown rpc_stream (loaded h) explicit) ≡ ok (root_types h))
  unfolding subtypes promises flat_mapped mapped root_type
  loaded-collected =
      let entities =
        subtypes_of shown rpc_stream transitive
          (entity_root (of_entity_type_proto (some h.entity))) in
      let relations =
        subtypes_of shown rpc_stream transitive
          (relation_root (of_relation_type_proto (some h.relation))) in
      let attributes =
        subtypes_of shown rpc_stream transitive
          (attribute_root (of_attribute_type_proto (some h.attribute))) in
      (
        collect-then_from entities (then_from relations (then_from attributes end))
            ∙ ap₂ joined
                (collect-then_from relations (then_from attributes end)
                  ∙ ap₂ joined
                      (collect-then_from attributes end
                        ∙ ap₂ joined (collect-items end) attributes-collected
                        ∙ ap ok (append-nil _))
                      relations-collected)
                entities-collected,
        collect-items _,
      )

  abbrev given :
      {W : Type 0}
      → Transitivity
      → List (Result RootType) × W
      → Result (Stream (Option SchemaType)) × W
  given t p = (ok (subtypes shown rpc_stream p.0 t), p.1)

  -- Where a server has the three root types, the root of all types has them as its subtypes when asked
  -- for those that are explicit. Asked for all, as it is without a transitivity, it delivers all
  -- subtypes of the entity root, then those of the relation root and then those of the attribute root,
  -- each in the order in which the server delivers them.
  pub get_subtypes-roots :
      {W : Type 0} (execute : ConceptReq → Eff W (ConceptRes N)) (schema : Schema) (w : W)
      → Serves execute schema w
      → Has schema h
      → (all listed : Stream (Option SchemaType)) × (get_subtypes shown rpc_stream execute none w
          ≡ (ok all, w))
        × (get_subtypes shown rpc_stream execute (some transitive) w ≡ (ok all, w))
        × (get_subtypes shown rpc_stream execute (some explicit) w ≡ (ok listed, w))
        × (collect all ≡ ok (all_subtypes h))
        × (collect listed ≡ ok (root_types h))
  unfolding get_subtypes or_transitive
  get_subtypes-roots execute schema w serves has =
      let at = roots-loaded execute schema w h serves has in
      (
        subtypes shown rpc_stream (loaded h) transitive,
        subtypes shown rpc_stream (loaded h) explicit,
        ap (given transitive) at,
        ap (given transitive) at,
        ap (given explicit) at,
        loaded-collected.0,
        loaded-collected.1,
      )
