-- ===== src/Methods/RoleTypes.antt =====
-- nodejs/concept/type/RoleTypeImpl.ts. A method of a role type takes its label.
use typedb_client_java.Prelude.{ℕ, String, Option, none, some}
use typedb_client_java.Effect.{ok, err, Eff, ◌>>=◌}
use typedb_client_java.Stream.{Stream}
use typedb_client_java.Answer.Label.{Label}
use typedb_client_java.Concept.{SchemaType, Thing}
use typedb_client_java.Concept.Bytes.{Hex}
use typedb_client_java.Concept.Reading.{
  of_role_type_proto, of_relation_type_proto, of_thing_type_proto, of_relation_proto,
  of_thing_proto,
}
use typedb_client_java.Concept.Manager.{ConceptReq, ConceptRes, get_relation_type, scope_of}
use typedb_client_java.Concept.Overloads.{Transitivity, transitive}
use typedb_client_java.Methods.Messages.{
  TransactionReq, TransactionRes, TransactionResPart, about_role, role_type_delete_req,
  role_type_set_label_req, role_type_get_supertype_req, role_type_get_supertypes_req,
  role_type_get_subtypes_req, role_type_get_relation_types_req, role_type_get_player_types_req,
  role_type_get_relation_instances_req, role_type_get_player_instances_req,
  role_type_get_supertype_res, role_type_get_supertypes_res_part, role_type_get_subtypes_res_part,
  role_type_get_relation_types_res_part, role_type_get_player_types_res_part,
  role_type_get_relation_instances_res_part, role_type_get_player_instances_res_part,
}
use typedb_client_java.Methods.Calls.{
  no_field, field, from_result, role_type_execute, role_type_run, role_type_part, items_of,
}

-- `if (!transitivity) transitivity = Transitivity.TRANSITIVE`
unfoldable pub or_transitive : Option Transitivity → Transitivity
or_transitive none = transitive
or_transitive (some t) = t

module _ {N W : Type 0} (rpc_execute : TransactionReq N → Eff W (TransactionRes N)) where
  unfoldable pub delete : Label → Eff W (Unit {0})
  unfolding role_type_run about_role
  delete label = role_type_run rpc_execute (about_role label role_type_delete_req)

  unfoldable pub set_label : Label → String → Eff W (Unit {0})
  unfolding role_type_run about_role
  set_label label new_label =
      role_type_run rpc_execute (about_role label (role_type_set_label_req new_label))

  unfoldable pub get_supertype : Label → Eff W (Option SchemaType)
  unfolding role_type_execute about_role no_field field from_result
  get_supertype label =
      role_type_execute rpc_execute (about_role label role_type_get_supertype_req) >>= λ res.
      from_result (
        field
          (elim [ role_type_get_supertype_res p ↦ ok (of_role_type_proto p) | _ ↦ err no_field ])
          res)

-- `getRelationType`: a scope that is `null` is sent as the empty text.
unfoldable pub get_role_relation_type :
    {N W : Type 0} → (ConceptReq → Eff W (ConceptRes N)) → Label → Eff W (Option SchemaType)
get_role_relation_type execute label = get_relation_type execute (scope_of label.scope)

module _ {N : Type 0} (rpc_stream : TransactionReq N → Stream (TransactionResPart N)) where
  unfoldable pub get_supertypes : Label → Stream (Option SchemaType)
  unfolding about_role role_type_part items_of no_field
  get_supertypes label =
      items_of role_type_part
        (elim [ role_type_get_supertypes_res_part ps ↦ ok ps | _ ↦ err no_field ])
        (λ p. ok (of_role_type_proto (some p)))
        (rpc_stream (about_role label role_type_get_supertypes_req))

  unfoldable pub get_subtypes : Label → Option Transitivity → Stream (Option SchemaType)
  unfolding about_role role_type_part items_of no_field or_transitive
  get_subtypes label t =
      items_of role_type_part
        (elim [ role_type_get_subtypes_res_part ps ↦ ok ps | _ ↦ err no_field ])
        (λ p. ok (of_role_type_proto (some p)))
        (rpc_stream (about_role label (role_type_get_subtypes_req (or_transitive t))))

  unfoldable pub get_relation_types : Label → Stream (Option SchemaType)
  unfolding about_role role_type_part items_of no_field
  get_relation_types label =
      items_of role_type_part
        (elim [ role_type_get_relation_types_res_part ps ↦ ok ps | _ ↦ err no_field ])
        (λ p. ok (of_relation_type_proto (some p)))
        (rpc_stream (about_role label role_type_get_relation_types_req))

  unfoldable pub get_player_types : Label → Option Transitivity → Stream (Option SchemaType)
  unfolding about_role role_type_part items_of no_field or_transitive
  get_player_types label t =
      items_of role_type_part
        (elim [ role_type_get_player_types_res_part ps ↦ ok ps | _ ↦ err no_field ])
        of_thing_type_proto
        (rpc_stream (about_role label (role_type_get_player_types_req (or_transitive t))))

  module _ (hex : Hex) (fresh : ℕ) where
    unfoldable pub get_relation_instances : Label → Option Transitivity → Stream (Option (Thing N))
    unfolding about_role role_type_part items_of no_field or_transitive
    get_relation_instances label t =
        items_of role_type_part
          (elim [ role_type_get_relation_instances_res_part ps ↦ ok ps | _ ↦ err no_field ])
          (λ p. of_relation_proto hex (some p))
          (rpc_stream (about_role label (role_type_get_relation_instances_req (or_transitive t))))

    unfoldable pub get_player_instances : Label → Option Transitivity → Stream (Option (Thing N))
    unfolding about_role role_type_part items_of no_field or_transitive
    get_player_instances label t =
        items_of role_type_part
          (elim [ role_type_get_player_instances_res_part ps ↦ ok ps | _ ↦ err no_field ])
          (of_thing_proto hex fresh)
          (rpc_stream (about_role label (role_type_get_player_instances_req (or_transitive t))))
