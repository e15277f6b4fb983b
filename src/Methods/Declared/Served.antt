-- ===== src/Methods/Declared/Served.antt =====
-- The answers of a server to the methods of nodejs/concept that give streams, item by item.
use typedb_client_java.Prelude.{List, map, Option, none, some, true, ◌≡◌, All}
use typedb_client_java.Effect.{ok}
use typedb_client_java.Stream.{Stream, array, collect}
use typedb_client_java.Answer.Label.{Label}
use typedb_client_java.Concept.{SchemaType, Thing, AnyConcept}
use typedb_client_java.Concept.Bytes.{Hex, bytes_to_hex_string}
use typedb_client_java.Concept.Casting.{Kind, is_kind}
use typedb_client_java.Concept.Reading.{
  TypeProto, AttributeTypeProto, RoleTypeProto, ThingProto, of_entity_type_proto,
  of_relation_type_proto, of_attribute_type_proto, of_role_type_proto,
}
use typedb_client_java.Concept.Overloads.{Transitivity, transitive}
use typedb_client_java.Methods.Messages
use typedb_client_java.Methods.Messages.{
  TransactionReq, TransactionResPart, about_entity_type, about_relation_type, about_attribute_type,
  about_type, about_role, overloaded_req, thing_type_res_part, role_type_res_part,
}
use typedb_client_java.Methods.Items.{concat}

-- A method without a transitivity asks for all.
abbrev pub chosen : Option Transitivity → Transitivity
chosen none = transitive
chosen (some t) = t

module _ (N : Type 0) where
  -- A type or a thing that answers true to the `isX` of an interface.
  abbrev pub IsType : Kind → Option SchemaType → Type 0
  IsType k none = ⊥
  IsType k (some t) = let c : AnyConcept N = AnyConcept.schema t in is_kind k c ≡ true

  abbrev pub IsThing : Kind → Option (Thing N) → Type 0
  IsThing k none = ⊥
  IsThing k (some t) = is_kind k (AnyConcept.thing t) ≡ true

-- A stream delivers what is read of the items of the messages, in order, and each is as declared.
abbrev pub Lists : {A P : Type 0} → (A → Type 0) → (P → A) → List (List P) → Stream A → Type 0
Lists Q f pss s = (collect s ≡ ok (map f (concat pss))) × All Q (map f (concat pss))

-- The things that are read of messages.
abbrev pub entity_of : {N : Type 0} → Hex → ThingProto → Option (Thing N)
entity_of hex p = some (
    Thing.entity (record { iid = bytes_to_hex_string hex p.iid; inferred = p.inferred })
      (of_entity_type_proto p.type))

abbrev pub relation_of : {N : Type 0} → Hex → ThingProto → Option (Thing N)
relation_of hex p = some (
    Thing.relation (record { iid = bytes_to_hex_string hex p.iid; inferred = p.inferred })
      (of_relation_type_proto p.type))

-- The types and the things of one kind that a stream delivers.
module _ (N : Type 0) where
  abbrev pub AreEntityTypes : List (List TypeProto) → Stream (Option SchemaType) → Type 0
  AreEntityTypes = Lists (IsType N Kind.entity_type) (λ p. of_entity_type_proto (some p))

  abbrev pub AreRelationTypes : List (List TypeProto) → Stream (Option SchemaType) → Type 0
  AreRelationTypes = Lists (IsType N Kind.relation_type) (λ p. of_relation_type_proto (some p))

  abbrev pub AreAttributeTypes :
      List (List AttributeTypeProto) → Stream (Option SchemaType) → Type 0
  AreAttributeTypes = Lists (IsType N Kind.attribute_type) (λ p. of_attribute_type_proto (some p))

  abbrev pub AreRoleTypes : List (List RoleTypeProto) → Stream (Option SchemaType) → Type 0
  AreRoleTypes = Lists (IsType N Kind.role_type) (λ p. of_role_type_proto (some p))

  abbrev pub AreEntities : Hex → List (List ThingProto) → Stream (Option (Thing N)) → Type 0
  AreEntities hex = Lists (IsThing N Kind.entity) (entity_of hex)

  abbrev pub AreRelations : Hex → List (List ThingProto) → Stream (Option (Thing N)) → Type 0
  AreRelations hex = Lists (IsThing N Kind.relation) (relation_of hex)

-- The items of each answer, by the message that they come in.
pub record Items : Type 0 where
  pub entity_supertypes : List (List TypeProto)
  pub entity_subtypes : List (List TypeProto)
  pub entities : List (List ThingProto)
  pub relation_supertypes : List (List TypeProto)
  pub relation_subtypes : List (List TypeProto)
  pub relates : List (List RoleTypeProto)
  pub relations : List (List ThingProto)
  pub attribute_supertypes : List (List AttributeTypeProto)
  pub plays : List (List RoleTypeProto)
  pub role_supertypes : List (List RoleTypeProto)
  pub role_subtypes : List (List RoleTypeProto)
  pub relation_types : List (List TypeProto)
  pub role_relations : List (List ThingProto)

-- A server that answers each request about a type with messages that have these items.
pub record Answers {N : Type 0} (rpc_stream : TransactionReq N → Stream (TransactionResPart N))
    (label : Label) (t : Option Transitivity) (items : Items) : Type 0 where
  pub entity_supertypes :
      rpc_stream (about_entity_type label Messages.entity_type_get_supertypes_req)
      ≡ array (
          map
            (λ ps. thing_type_res_part (Messages.entity_type_get_supertypes_res_part ps))
            items.entity_supertypes)
  pub entity_subtypes :
      rpc_stream (about_entity_type label (Messages.entity_type_get_subtypes_req (chosen t)))
      ≡ array (
          map
            (λ ps. thing_type_res_part (Messages.entity_type_get_subtypes_res_part ps))
            items.entity_subtypes)
  pub entities :
      rpc_stream (about_entity_type label (Messages.entity_type_get_instances_req (chosen t)))
      ≡ array (
          map
            (λ ps. thing_type_res_part (Messages.entity_type_get_instances_res_part ps))
            items.entities)
  pub relation_supertypes :
      rpc_stream (about_relation_type label Messages.relation_type_get_supertypes_req)
      ≡ array (
          map
            (λ ps. thing_type_res_part (Messages.relation_type_get_supertypes_res_part ps))
            items.relation_supertypes)
  pub relation_subtypes :
      rpc_stream (about_relation_type label (Messages.relation_type_get_subtypes_req (chosen t)))
      ≡ array (
          map
            (λ ps. thing_type_res_part (Messages.relation_type_get_subtypes_res_part ps))
            items.relation_subtypes)
  pub relates :
      rpc_stream (about_relation_type label (Messages.relation_type_get_relates_req (chosen t)))
      ≡ array (
          map
            (λ ps. thing_type_res_part (Messages.relation_type_get_relates_res_part ps))
            items.relates)
  pub relations :
      rpc_stream (about_relation_type label (Messages.relation_type_get_instances_req (chosen t)))
      ≡ array (
          map
            (λ ps. thing_type_res_part (Messages.relation_type_get_instances_res_part ps))
            items.relations)
  pub attribute_supertypes :
      rpc_stream (about_attribute_type label Messages.attribute_type_get_supertypes_req)
      ≡ array (
          map
            (λ ps. thing_type_res_part (Messages.attribute_type_get_supertypes_res_part ps))
            items.attribute_supertypes)
  pub plays :
      rpc_stream (about_type label (Messages.thing_type_get_plays_req (chosen t)))
      ≡ array
          (map (λ ps. thing_type_res_part (Messages.thing_type_get_plays_res_part ps)) items.plays)
  pub role_supertypes :
      rpc_stream (about_role label Messages.role_type_get_supertypes_req)
      ≡ array (
          map
            (λ ps. role_type_res_part (Messages.role_type_get_supertypes_res_part ps))
            items.role_supertypes)
  pub role_subtypes :
      rpc_stream (about_role label (Messages.role_type_get_subtypes_req (chosen t)))
      ≡ array (
          map
            (λ ps. role_type_res_part (Messages.role_type_get_subtypes_res_part ps))
            items.role_subtypes)
  pub relation_types :
      rpc_stream (about_role label Messages.role_type_get_relation_types_req)
      ≡ array (
          map
            (λ ps. role_type_res_part (Messages.role_type_get_relation_types_res_part ps))
            items.relation_types)
  pub role_relations :
      rpc_stream (about_role label (Messages.role_type_get_relation_instances_req (chosen t)))
      ≡ array (
          map
            (λ ps. role_type_res_part (Messages.role_type_get_relation_instances_res_part ps))
            items.role_relations)
