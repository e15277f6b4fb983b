-- ===== src/Methods/Things.antt =====
-- nodejs/concept/thing: the methods of things. A method takes the IID of its thing.
use typedb_client_java.Prelude.{ℕ, String, List, [], map, Option, none, some, if◌then◌else◌}
use typedb_client_java.Effect.{Result, ok, err, Eff, ◌>>=◌}
use typedb_client_java.Stream.{Stream}
use typedb_client_java.Concept.{SchemaType, Thing, thing_fields, AnyConcept}
use typedb_client_java.Concept.Bytes.{Hex, hex_string_to_bytes}
use typedb_client_java.Concept.Reading.{
  of_role_type_proto, of_relation_proto, of_attribute_proto, of_thing_proto, and_then,
}
use typedb_client_java.Concept.Overloads.{Arg, and_try, get_has_call, get_owners_call}
use typedb_client_java.Methods.Messages.{
  TransactionReq, TransactionRes, TransactionResPart, ThingReq, RoleName, ThingName, role_name,
  overloaded_req, thing_req, attribute_get_owners_res_part, relation_add_role_player_req,
  relation_get_players_by_role_type_req, relation_get_players_by_role_type_res_part,
  relation_get_relating_req, relation_get_relating_res_part, relation_remove_role_player_req,
  thing_delete_req, thing_get_has_res_part, thing_get_playing_req, thing_get_playing_res_part,
  thing_get_relations_req, thing_get_relations_res_part, thing_set_has_req, thing_unset_has_req,
}
use typedb_client_java.Methods.Calls.{no_field, from_result, thing_part, thing_execute, items_of}
use typedb_client_java.Errors.Templates.{Internal, internal}
use typedb_client_java.Errors.DriverError.{fail_with}
use typedb_client_java.Concept.Casting.{Kind, is_kind}

-- `iid: Bytes.hexStringToBytes(iid)` in a request, after what the request takes.
unfoldable pub about_thing :
    {N : Type 0} → Hex → (ℕ → String) → String → ThingReq → Result (TransactionReq N)
about_thing hex show iid req =
    and_then (hex_string_to_bytes hex show iid) λ bytes. thing_req bytes req

-- `Thing.proto`
unfoldable pub thing_proto : {N : Type 0} → Hex → (ℕ → String) → Thing N → Result ThingName
unfolding is_kind
thing_proto {N} hex show t =
    let c : AnyConcept N = AnyConcept.thing t in
    let bytes = hex_string_to_bytes hex show (thing_fields t).iid in
    if is_kind Kind.entity c
    then and_then bytes ThingName.entity
    else if is_kind Kind.relation c
    then and_then bytes ThingName.relation
    else if is_kind Kind.attribute c
    then and_then bytes ThingName.attribute
    else err (fail_with (internal Internal.illegal_state) [])

-- Role types that are not given.
unfoldable pub role_names : Option (List SchemaType) → List RoleName
unfolding role_name
role_names none = []
role_names (some ts) = map role_name ts

module _ {N W : Type 0} (rpc_execute : TransactionReq N → Eff W (TransactionRes N)) (hex : Hex)
    (show : ℕ → String) where
  -- A request about the thing with this IID, once it is built.
  unfoldable pub run_about : String → Result ThingReq → Eff W (Unit {0})
  unfolding about_thing from_result thing_execute
  run_about iid req =
      from_result (and_try req (about_thing hex show iid)) >>= thing_execute rpc_execute

  unfoldable pub delete : String → Eff W (Unit {0})
  unfolding run_about
  delete iid = run_about iid (ok thing_delete_req)

  -- `Attribute.proto`, and then the request.
  unfoldable pub set_has : String → Thing N → Eff W (Unit {0})
  unfolding run_about
  set_has iid held =
      run_about iid
        (and_then (hex_string_to_bytes hex show (thing_fields held).iid) thing_set_has_req)

  unfoldable pub unset_has : String → Thing N → Eff W (Unit {0})
  unfolding run_about
  unset_has iid held =
      run_about iid
        (and_then (hex_string_to_bytes hex show (thing_fields held).iid) thing_unset_has_req)

  unfoldable pub add_role_player : String → SchemaType → Thing N → Eff W (Unit {0})
  unfolding run_about thing_proto role_name
  add_role_player iid role player =
      run_about iid
        (and_then (thing_proto hex show player) (relation_add_role_player_req (role_name role)))

  unfoldable pub remove_role_player : String → SchemaType → Thing N → Eff W (Unit {0})
  unfolding run_about thing_proto role_name
  remove_role_player iid role player =
      run_about iid
        (and_then (thing_proto hex show player) (relation_remove_role_player_req (role_name role)))

-- A method that gives a stream throws where its request cannot be built.
module _ {N : Type 0} (rpc_stream : TransactionReq N → Stream (TransactionResPart N)) (hex : Hex)
    (show : ℕ → String) (fresh : ℕ) where
  unfoldable pub get_has :
      (SchemaType → String) → String → Arg → Arg → Result (Stream (Option (Thing N)))
  unfolding get_has_call items_of thing_part no_field
  get_has shown iid a b = and_then (get_has_call shown hex show iid a b) λ req.
      items_of thing_part (elim [ thing_get_has_res_part ps ↦ ok ps | _ ↦ err no_field ])
        (λ p. of_attribute_proto hex fresh (some p)) (rpc_stream (overloaded_req req))

  unfoldable pub get_playing : String → Result (Stream (Option SchemaType))
  unfolding about_thing items_of thing_part no_field role_names
  get_playing iid = and_then (about_thing hex show iid thing_get_playing_req) λ req.
      items_of thing_part (elim [ thing_get_playing_res_part ps ↦ ok ps | _ ↦ err no_field ])
        (λ p. ok (of_role_type_proto (some p))) (rpc_stream req)

  unfoldable pub get_relations :
      String → Option (List SchemaType) → Result (Stream (Option (Thing N)))
  unfolding about_thing items_of thing_part no_field role_names
  get_relations iid roles =
      and_then (about_thing hex show iid (thing_get_relations_req (role_names roles))) λ req.
        items_of thing_part (elim [ thing_get_relations_res_part ps ↦ ok ps | _ ↦ err no_field ])
          (λ p. of_relation_proto hex (some p)) (rpc_stream req)

  unfoldable pub get_players_by_role_type :
      String → Option (List SchemaType) → Result (Stream (Option (Thing N)))
  unfolding about_thing items_of thing_part no_field role_names
  get_players_by_role_type iid roles =
      and_then (about_thing hex show iid (relation_get_players_by_role_type_req (role_names roles)))
        λ req.
          items_of thing_part
            (elim [ relation_get_players_by_role_type_res_part ps ↦ ok ps | _ ↦ err no_field ])
            (of_thing_proto hex fresh) (rpc_stream req)

  unfoldable pub get_relating : String → Result (Stream (Option SchemaType))
  unfolding about_thing items_of thing_part no_field role_names
  get_relating iid = and_then (about_thing hex show iid relation_get_relating_req) λ req.
      items_of thing_part (elim [ relation_get_relating_res_part ps ↦ ok ps | _ ↦ err no_field ])
        (λ p. ok (of_role_type_proto (some p))) (rpc_stream req)

  -- `getOwners` of an attribute.
  unfoldable pub get_attribute_owners :
      (SchemaType → String) → String → Option SchemaType → Result (Stream (Option (Thing N)))
  unfolding get_owners_call items_of thing_part no_field
  get_attribute_owners shown iid owner_type =
      and_then (get_owners_call shown hex show N iid owner_type) λ req.
        items_of thing_part (elim [ attribute_get_owners_res_part ps ↦ ok ps | _ ↦ err no_field ])
          (of_thing_proto hex fresh) (rpc_stream (overloaded_req req))
