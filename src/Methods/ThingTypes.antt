-- ===== src/Methods/ThingTypes.antt =====
-- nodejs/concept/type/ThingTypeImpl.ts. A method of a type takes its label.
use typedb_client_java.Prelude.{String, Option, none, some}
use typedb_client_java.Effect.{Result, ok, err, Eff, ◌>>=◌}
use typedb_client_java.Stream.{Stream}
use typedb_client_java.Answer.Label.{Label}
use typedb_client_java.Concept.{SchemaType}
use typedb_client_java.Concept.Reading.{of_attribute_type_proto, of_role_type_proto, and_then}
use typedb_client_java.Concept.Overloads.{Transitivity, Arg, get_owns_call, set_owns_call}
use typedb_client_java.Methods.Messages.{
  TransactionReq, TransactionRes, TransactionResPart, about_type, role_name, type_name,
  overloaded_req, thing_type_delete_req, thing_type_get_owns_overridden_req,
  thing_type_get_owns_overridden_res, thing_type_get_owns_res_part,
  thing_type_get_plays_overridden_req, thing_type_get_plays_overridden_res,
  thing_type_get_plays_req, thing_type_get_plays_res_part, thing_type_get_syntax_req,
  thing_type_get_syntax_res, thing_type_set_abstract_req, thing_type_set_label_req,
  thing_type_set_plays_req, thing_type_unset_abstract_req, thing_type_unset_owns_req,
  thing_type_unset_plays_req,
}
use typedb_client_java.Methods.Calls.{
  no_field, field, from_result, thing_type_execute, thing_type_run, thing_type_read,
  thing_type_part, items_of,
}
use typedb_client_java.Methods.RoleTypes.{or_transitive}

module _ {N W : Type 0} (rpc_execute : TransactionReq N → Eff W (TransactionRes N)) where
  unfoldable pub delete : Label → Eff W (Unit {0})
  unfolding thing_type_run about_type type_name role_name
  delete label = thing_type_run rpc_execute (about_type label thing_type_delete_req)

  unfoldable pub set_label : Label → String → Eff W (Unit {0})
  unfolding thing_type_run about_type type_name role_name
  set_label label new_label =
      thing_type_run rpc_execute (about_type label (thing_type_set_label_req new_label))

  unfoldable pub set_abstract : Label → Eff W (Unit {0})
  unfolding thing_type_run about_type type_name role_name
  set_abstract label = thing_type_run rpc_execute (about_type label thing_type_set_abstract_req)

  unfoldable pub unset_abstract : Label → Eff W (Unit {0})
  unfolding thing_type_run about_type type_name role_name
  unset_abstract label = thing_type_run rpc_execute (about_type label thing_type_unset_abstract_req)

  unfoldable pub unset_owns : Label → SchemaType → Eff W (Unit {0})
  unfolding thing_type_run about_type type_name role_name
  unset_owns label owned =
      thing_type_run rpc_execute (about_type label (thing_type_unset_owns_req (type_name owned)))

  unfoldable pub unset_plays : Label → SchemaType → Eff W (Unit {0})
  unfolding thing_type_run about_type type_name role_name
  unset_plays label role =
      thing_type_run rpc_execute (about_type label (thing_type_unset_plays_req (role_name role)))

  -- An overridden role that is `undefined` is `none`.
  unfoldable pub set_plays : Label → SchemaType → Option SchemaType → Eff W (Unit {0})
  unfolding thing_type_run about_type role_name
  set_plays label role none =
      thing_type_run rpc_execute (about_type label (thing_type_set_plays_req (role_name role) none))
  set_plays label role (some over) =
      thing_type_run rpc_execute
        (about_type label (thing_type_set_plays_req (role_name role) (some (role_name over))))

  -- The last two arguments choose among overloads.
  unfoldable pub set_owns :
      (SchemaType → String) → Label → SchemaType → Arg → Arg → Eff W (Unit {0})
  unfolding set_owns_call from_result thing_type_run
  set_owns shown label type a b = from_result (set_owns_call shown label type a b) >>= λ req.
      thing_type_run rpc_execute (overloaded_req req)

  unfoldable pub get_owns_overridden : Label → SchemaType → Eff W (Option SchemaType)
  unfolding about_type thing_type_read thing_type_execute field from_result no_field type_name
  get_owns_overridden label owned =
      thing_type_read rpc_execute
        (elim [
          | thing_type_get_owns_overridden_res p ↦ ok (of_attribute_type_proto p)
          | _ ↦ err no_field
        ])
        (about_type label (thing_type_get_owns_overridden_req (type_name owned)))

  unfoldable pub get_plays_overridden : Label → SchemaType → Eff W (Option SchemaType)
  unfolding about_type thing_type_read thing_type_execute field from_result no_field role_name
  get_plays_overridden label role =
      thing_type_read rpc_execute
        (elim [
          | thing_type_get_plays_overridden_res p ↦ ok (of_role_type_proto p)
          | _ ↦ err no_field
        ])
        (about_type label (thing_type_get_plays_overridden_req (role_name role)))

  unfoldable pub get_syntax : Label → Eff W String
  unfolding about_type thing_type_read thing_type_execute field from_result no_field
  get_syntax label =
      thing_type_read rpc_execute
        (elim [ thing_type_get_syntax_res syntax ↦ ok syntax | _ ↦ err no_field ])
        (about_type label thing_type_get_syntax_req)

module _ {N : Type 0} (rpc_stream : TransactionReq N → Stream (TransactionResPart N)) where
  -- The arguments choose among overloads.
  unfoldable pub get_owns :
      (SchemaType → String) → Label → Arg → Arg → Arg → Result (Stream (Option SchemaType))
  unfolding get_owns_call items_of thing_type_part no_field
  get_owns shown label a b c = and_then (get_owns_call shown label a b c) λ req.
      items_of thing_type_part (elim [ thing_type_get_owns_res_part ps ↦ ok ps | _ ↦ err no_field ])
        (λ p. ok (of_attribute_type_proto (some p))) (rpc_stream (overloaded_req req))

  unfoldable pub get_plays : Label → Option Transitivity → Stream (Option SchemaType)
  unfolding items_of no_field about_type thing_type_part or_transitive
  get_plays label t =
      items_of thing_type_part
        (elim [ thing_type_get_plays_res_part ps ↦ ok ps | _ ↦ err no_field ])
        (λ p. ok (of_role_type_proto (some p)))
        (rpc_stream (about_type label (thing_type_get_plays_req (or_transitive t))))
