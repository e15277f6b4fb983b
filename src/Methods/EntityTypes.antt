-- ===== src/Methods/EntityTypes.antt =====
-- nodejs/concept/type/EntityTypeImpl.ts. A method of an entity type takes its label.
use typedb_client_java.Prelude.{Option, some}
use typedb_client_java.Effect.{ok, err, Eff}
use typedb_client_java.Stream.{Stream}
use typedb_client_java.Answer.Label.{Label}
use typedb_client_java.Concept.{SchemaType, Thing}
use typedb_client_java.Concept.Bytes.{Hex}
use typedb_client_java.Concept.Reading.{of_entity_type_proto, of_entity_proto}
use typedb_client_java.Concept.Overloads.{Transitivity}
use typedb_client_java.Methods.Messages.{
  TransactionReq, TransactionRes, TransactionResPart, about_entity_type, type_name,
  entity_type_create_req, entity_type_create_res, entity_type_get_instances_req,
  entity_type_get_instances_res_part, entity_type_get_subtypes_req,
  entity_type_get_subtypes_res_part, entity_type_get_supertype_req, entity_type_get_supertype_res,
  entity_type_get_supertypes_req, entity_type_get_supertypes_res_part,
  entity_type_set_supertype_req,
}
use typedb_client_java.Methods.Calls.{
  no_field, field, from_result, thing_type_execute, thing_type_run, thing_type_read,
  thing_type_part, items_of,
}
use typedb_client_java.Methods.RoleTypes.{or_transitive}

module _ {N W : Type 0} (rpc_execute : TransactionReq N → Eff W (TransactionRes N)) where
  unfoldable pub create : Hex → Label → Eff W (Option (Thing N))
  unfolding about_entity_type thing_type_read thing_type_execute field from_result no_field
  create hex label =
      thing_type_read rpc_execute
        (elim [ entity_type_create_res p ↦ of_entity_proto hex p | _ ↦ err no_field ])
        (about_entity_type label entity_type_create_req)

  unfoldable pub get_supertype : Label → Eff W (Option SchemaType)
  unfolding about_entity_type thing_type_read thing_type_execute field from_result no_field
  get_supertype label =
      thing_type_read rpc_execute
        (elim [ entity_type_get_supertype_res p ↦ ok (of_entity_type_proto p) | _ ↦ err no_field ])
        (about_entity_type label entity_type_get_supertype_req)

  unfoldable pub set_supertype : Label → SchemaType → Eff W (Unit {0})
  unfolding thing_type_run about_entity_type type_name
  set_supertype label supertype =
      thing_type_run rpc_execute
        (about_entity_type label (entity_type_set_supertype_req (type_name supertype)))

module _ {N : Type 0} (rpc_stream : TransactionReq N → Stream (TransactionResPart N)) where
  unfoldable pub get_supertypes : Label → Stream (Option SchemaType)
  unfolding items_of no_field about_entity_type thing_type_part
  get_supertypes label =
      items_of thing_type_part
        (elim [ entity_type_get_supertypes_res_part ps ↦ ok ps | _ ↦ err no_field ])
        (λ p. ok (of_entity_type_proto (some p)))
        (rpc_stream (about_entity_type label entity_type_get_supertypes_req))

  unfoldable pub get_subtypes : Label → Option Transitivity → Stream (Option SchemaType)
  unfolding items_of no_field about_entity_type thing_type_part or_transitive
  get_subtypes label t =
      items_of thing_type_part
        (elim [ entity_type_get_subtypes_res_part ps ↦ ok ps | _ ↦ err no_field ])
        (λ p. ok (of_entity_type_proto (some p)))
        (rpc_stream (about_entity_type label (entity_type_get_subtypes_req (or_transitive t))))

  unfoldable pub get_instances : Hex → Label → Option Transitivity → Stream (Option (Thing N))
  unfolding items_of no_field about_entity_type thing_type_part or_transitive
  get_instances hex label t =
      items_of thing_type_part
        (elim [ entity_type_get_instances_res_part ps ↦ ok ps | _ ↦ err no_field ])
        (λ p. of_entity_proto hex (some p))
        (rpc_stream (about_entity_type label (entity_type_get_instances_req (or_transitive t))))
