-- ===== src/Methods/AttributeTypes/Values.antt =====
-- Putting and getting attributes in nodejs/concept/type/AttributeTypeImpl.ts.
use typedb_client_java.Prelude.{ℕ, String, some, ◌≡◌, refl, arith, ap, subst, ◌∙◌}
use typedb_client_java.Effect.{ok, Eff}
use typedb_client_java.Answer.Label.{Label}
use typedb_client_java.Concept.{ValueType, Scalar, Value, Thing}
use typedb_client_java.Concept.Bytes.{Hex, bytes_to_hex_string}
use typedb_client_java.Concept.Reading.{
  ValueProto, AttributeProto, of_value_proto, of_attribute_proto, attribute_with,
  of_attribute_type_proto, thing_of,
}
use typedb_client_java.Concept.Reading.Laws.{
  Fits, renewed, of_value_proto-proto_value, new_thing-hex,
}
use typedb_client_java.Methods.Messages.{
  TransactionReq, TransactionRes, about_attribute_type, thing_type_res, attribute_type_put_req,
  attribute_type_get_req, attribute_type_put_res, attribute_type_get_res,
}
use typedb_client_java.Methods.Calls.{thing_type_read, thing_type_execute, field, from_result}
use typedb_client_java.Methods.AttributeTypes.{put, get}

-- A server that holds an attribute of a type for each value that is put, and answers with it.
pub record Holds {N W : Type 0} (rpc_execute : TransactionReq N → Eff W (TransactionRes N))
    (attribute : String → ValueProto N → AttributeProto N) : Type 0 where
  pub after : String → ValueProto N → W → W
  pub value : (l : String) (p : ValueProto N) → (attribute l p).value ≡ some p
  pub putting :
      (label : Label) (p : ValueProto N) (w : W)
      → rpc_execute (about_attribute_type label (attribute_type_put_req p)) w ≡ (
        ok (thing_type_res (attribute_type_put_res (some (attribute label.name p)))),
        after label.name p w,
      )
  pub getting :
      (label : Label) (p : ValueProto N) (w : W)
      → rpc_execute (about_attribute_type label (attribute_type_get_req p)) (after label.name p w)
        ≡ (
          ok (thing_type_res (attribute_type_get_res (some (attribute label.name p)))),
          after label.name p w,
        )

module _ {N W : Type 0} (rpc_execute : TransactionReq N → Eff W (TransactionRes N))
    (cast_to : ValueType → Scalar N → ValueProto N) (hex : Hex)
    (attribute : String → ValueProto N → AttributeProto N) where
  -- The attribute object for a message and a value.
  abbrev pub read_back : AttributeProto N → Value N → Thing N
  read_back a v =
      Thing.attribute (record { iid = bytes_to_hex_string hex a.iid; inferred = a.inferred })
        (of_attribute_type_proto a.attribute_type) (some v)

  read_attribute :
      (fresh : ℕ) (a : AttributeProto N) (p : ValueProto N) (v : Value N)
      → a.value ≡ some p
      → of_value_proto fresh (some p) ≡ ok (some v)
      → of_attribute_proto hex fresh (some a) ≡ ok (some (read_back a v))
  unfolding of_attribute_proto attribute_with thing_of
  read_attribute fresh a p v at read =
      ap (λ o. attribute_with hex a (of_value_proto fresh o)) at
      ∙ ap (attribute_with hex a) read
      ∙ rw (new_thing-hex hex a.iid a.inferred) refl

  -- Putting a value whose scalar fits its value type gives an attribute with this value, and getting
  -- the value afterwards gives an attribute with the same IID, type and value, read from the same
  -- message; but a date is a new `Date` object in each of the two.
  pub get-put :
      Holds rpc_execute attribute
      → (put_date get_date : ℕ) (label : Label) (t : ValueType) (x : Scalar N) (w : W) → Fits t x
      → (a : AttributeProto N) × (v : W) × (put rpc_execute cast_to hex put_date label
            (record { value_type = t; value = x })
            w
          ≡ (ok (some (read_back a (record { value_type = t; value = renewed put_date x }))), v))
        × (get rpc_execute cast_to hex get_date label (record { value_type = t; value = x }) v
            ≡ (ok (some (read_back a (record { value_type = t; value = renewed get_date x }))), v))
  unfolding put get thing_type_read thing_type_execute field from_result
  get-put holds put_date get_date label t x w fits =
      let (p, written, read) = of_value_proto-proto_value cast_to put_date t x fits in
      let (q, rewritten, reread) = of_value_proto-proto_value cast_to get_date t x fits in
      let a = attribute label.name p in
      let same : q ≡ p = cc in
      let again =
        subst
          (λ r.
            of_value_proto get_date (some r)
            ≡ ok (some (record { value_type = t; value = renewed get_date x })))
          same reread in
      let at_put = read_attribute put_date a p _ (holds.value label.name p) read in
      let at_get = read_attribute get_date a p _ (holds.value label.name p) again in
      (
        a,
        holds.after label.name p w,
        ground (arith, written, holds.putting label p w, at_put),
        ground (arith, written, holds.getting label p w, at_get),
      )
