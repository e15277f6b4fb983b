-- ===== src/Methods/AttributeTypes.antt =====
-- nodejs/concept/type/AttributeTypeImpl.ts. A method of an attribute type takes its label,
-- and `fresh` is the `Date` object that this call of it makes where it reads a date.
pub mod Values
use typedb_client_java.Prelude.{ℕ, String, Option, some, Bool}
use typedb_client_java.Effect.{Result, ok, err, Eff, ◌>>=◌}
use typedb_client_java.Stream.{Stream}
use typedb_client_java.Answer.Label.{Label}
use typedb_client_java.Concept.{SchemaType, Thing, Value, ValueType, Scalar}
use typedb_client_java.Concept.Bytes.{Hex}
use typedb_client_java.Concept.Reading.{
  of_attribute_type_proto, of_thing_type_proto, of_attribute_proto, proto_value, ValueProto,
  and_then,
}
use typedb_client_java.Concept.Overloads.{
  Transitivity, Arg, get_subtypes_call, get_type_owners_call,
}
use typedb_client_java.Methods.Messages.{
  TransactionReq, TransactionRes, TransactionResPart, about_attribute_type, type_name,
  overloaded_req, attribute_type_get_instances_req, attribute_type_get_instances_res_part,
  attribute_type_get_owners_res_part, attribute_type_get_regex_req, attribute_type_get_regex_res,
  attribute_type_get_req, attribute_type_get_res, attribute_type_get_subtypes_res_part,
  attribute_type_get_supertype_req, attribute_type_get_supertype_res,
  attribute_type_get_supertypes_req, attribute_type_get_supertypes_res_part, attribute_type_put_req,
  attribute_type_put_res, attribute_type_set_regex_req, attribute_type_set_supertype_req,
}
use typedb_client_java.Methods.Calls.{
  no_field, field, from_result, thing_type_execute, thing_type_run, thing_type_read,
  thing_type_part, items_of,
}
use typedb_client_java.Methods.RoleTypes.{or_transitive}

module _ {N W : Type 0} (rpc_execute : TransactionReq N → Eff W (TransactionRes N))
    (cast_to : ValueType → Scalar N → ValueProto N) (hex : Hex) (fresh : ℕ) where
  unfoldable pub put : Label → Value N → Eff W (Option (Thing N))
  unfolding about_attribute_type thing_type_read thing_type_execute field from_result no_field
  put label value = from_result (proto_value cast_to value) >>= λ v.
      thing_type_read rpc_execute
        (elim [ attribute_type_put_res p ↦ of_attribute_proto hex fresh p | _ ↦ err no_field ])
        (about_attribute_type label (attribute_type_put_req v))

  unfoldable pub put_boolean : Label → Bool → Eff W (Option (Thing N))
  unfolding put
  put_boolean label x =
      put label (record { value_type = ValueType.boolean; value = Scalar.boolean x })

  unfoldable pub put_long : Label → N → Eff W (Option (Thing N))
  unfolding put
  put_long label x = put label (record { value_type = ValueType.long; value = Scalar.number x })

  unfoldable pub put_double : Label → N → Eff W (Option (Thing N))
  unfolding put
  put_double label x = put label (record { value_type = ValueType.double; value = Scalar.number x })

  unfoldable pub put_string : Label → String → Eff W (Option (Thing N))
  unfolding put
  put_string label x = put label (record { value_type = ValueType.string; value = Scalar.text x })

  -- A `Date` is an object `ref` that holds a time.
  unfoldable pub put_date_time : Label → (ref : ℕ) → (time : N) → Eff W (Option (Thing N))
  unfolding put
  put_date_time label ref time =
      put label (record { value_type = ValueType.datetime; value = Scalar.date ref time })

  unfoldable pub get : Label → Value N → Eff W (Option (Thing N))
  unfolding about_attribute_type thing_type_read thing_type_execute field from_result no_field
  get label value = from_result (proto_value cast_to value) >>= λ v.
      thing_type_read rpc_execute
        (elim [ attribute_type_get_res p ↦ of_attribute_proto hex fresh p | _ ↦ err no_field ])
        (about_attribute_type label (attribute_type_get_req v))

  unfoldable pub get_boolean : Label → Bool → Eff W (Option (Thing N))
  unfolding get
  get_boolean label x =
      get label (record { value_type = ValueType.boolean; value = Scalar.boolean x })

  unfoldable pub get_long : Label → N → Eff W (Option (Thing N))
  unfolding get
  get_long label x = get label (record { value_type = ValueType.long; value = Scalar.number x })

  unfoldable pub get_double : Label → N → Eff W (Option (Thing N))
  unfolding get
  get_double label x = get label (record { value_type = ValueType.double; value = Scalar.number x })

  unfoldable pub get_string : Label → String → Eff W (Option (Thing N))
  unfolding get
  get_string label x = get label (record { value_type = ValueType.string; value = Scalar.text x })

  -- A `Date` is an object `ref` that holds a time.
  unfoldable pub get_date_time : Label → (ref : ℕ) → (time : N) → Eff W (Option (Thing N))
  unfolding get
  get_date_time label ref time =
      get label (record { value_type = ValueType.datetime; value = Scalar.date ref time })

module _ {N W : Type 0} (rpc_execute : TransactionReq N → Eff W (TransactionRes N)) where
  unfoldable pub get_supertype : Label → Eff W (Option SchemaType)
  unfolding about_attribute_type thing_type_read thing_type_execute field from_result no_field
  get_supertype label =
      thing_type_read rpc_execute
        (elim [
          | attribute_type_get_supertype_res p ↦ ok (of_attribute_type_proto p)
          | _ ↦ err no_field
        ])
        (about_attribute_type label attribute_type_get_supertype_req)

  unfoldable pub set_supertype : Label → SchemaType → Eff W (Unit {0})
  unfolding thing_type_run about_attribute_type type_name
  set_supertype label supertype =
      thing_type_run rpc_execute
        (about_attribute_type label (attribute_type_set_supertype_req (type_name supertype)))

  unfoldable pub get_regex : Label → Eff W String
  unfolding about_attribute_type thing_type_read thing_type_execute field from_result no_field
  get_regex label =
      thing_type_read rpc_execute
        (elim [ attribute_type_get_regex_res regex ↦ ok regex | _ ↦ err no_field ])
        (about_attribute_type label attribute_type_get_regex_req)

  unfoldable pub set_regex : Label → String → Eff W (Unit {0})
  unfolding thing_type_run about_attribute_type
  set_regex label regex =
      thing_type_run rpc_execute (about_attribute_type label (attribute_type_set_regex_req regex))

  unfoldable pub unset_regex : Label → Eff W (Unit {0})
  unfolding set_regex
  unset_regex label = set_regex label ""

module _ {N : Type 0} (rpc_stream : TransactionReq N → Stream (TransactionResPart N)) where
  unfoldable pub get_supertypes : Label → Stream (Option SchemaType)
  unfolding items_of no_field about_attribute_type thing_type_part
  get_supertypes label =
      items_of thing_type_part
        (elim [ attribute_type_get_supertypes_res_part ps ↦ ok ps | _ ↦ err no_field ])
        (λ p. ok (of_attribute_type_proto (some p)))
        (rpc_stream (about_attribute_type label attribute_type_get_supertypes_req))

  -- The arguments of these two choose among overloads; a call whose arguments do not fit throws.
  unfoldable pub get_subtypes :
      (SchemaType → String) → Label → Arg → Arg → Result (Stream (Option SchemaType))
  unfolding get_subtypes_call items_of thing_type_part no_field
  get_subtypes shown label a b = and_then (get_subtypes_call shown label a b) λ req.
      items_of thing_type_part
        (elim [ attribute_type_get_subtypes_res_part ps ↦ ok ps | _ ↦ err no_field ])
        (λ p. ok (of_attribute_type_proto (some p))) (rpc_stream (overloaded_req req))

  unfoldable pub get_owners :
      (SchemaType → String) → Label → Arg → Arg → Result (Stream (Option SchemaType))
  unfolding get_type_owners_call items_of thing_type_part no_field
  get_owners shown label a b = and_then (get_type_owners_call shown label a b) λ req.
      items_of thing_type_part
        (elim [ attribute_type_get_owners_res_part ps ↦ ok ps | _ ↦ err no_field ])
        of_thing_type_proto (rpc_stream (overloaded_req req))

  unfoldable pub get_instances : Hex → ℕ → Label → Option Transitivity → Stream (Option (Thing N))
  unfolding items_of no_field about_attribute_type thing_type_part or_transitive
  get_instances hex fresh label t =
      items_of thing_type_part
        (elim [ attribute_type_get_instances_res_part ps ↦ ok ps | _ ↦ err no_field ])
        (λ p. of_attribute_proto hex fresh (some p))
        (rpc_stream
          (about_attribute_type label (attribute_type_get_instances_req (or_transitive t))))
