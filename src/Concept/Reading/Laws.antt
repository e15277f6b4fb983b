-- ===== src/Concept/Reading/Laws.antt =====
-- What is read from the messages of nodejs/concept, and written to them.
use Prim.Native.String.{◌++◌}
use typedb_client_java.Prelude.{ℕ, List, Bool, String, Option, none, some, ◌≡◌, refl, sym, subst}
use typedb_client_java.Effect.{Result, ok}
use typedb_client_java.Answer.Label.{scoped_name, of_name, scoped}
use typedb_client_java.Concept.{
  ValueType, Scalar, AnyConcept, new_thing, label_of, type_fields, thing_fields, root_fields,
}
use typedb_client_java.Concept.Bytes.{Hex, pair-append, bytes_to_hex_string}
use typedb_client_java.Concept.Casting.{Kind, interface_of}
use typedb_client_java.Concept.Reading.{
  ConceptProto, ValueProto, and_then, if_some, AttributeProto, of_value_proto, proto_value,
  value_read, concept_of, of_entity_type_proto, of_relation_type_proto, of_attribute_type_proto,
  of_role_type_proto, of_entity_proto, of_relation_proto, of_attribute_proto, thing_of,
  attribute_with, fields_of,
}

-- A scalar that has the JavaScript type of a value type.
pub data Fits {N : Type 0} : ValueType → Scalar N → Type 0 where
  boolean : (b : Bool) → Fits ValueType.boolean (Scalar.boolean b)
  long : (n : N) → Fits ValueType.long (Scalar.number n)
  double : (n : N) → Fits ValueType.double (Scalar.number n)
  string : (s : String) → Fits ValueType.string (Scalar.text s)
  datetime : (ref : ℕ) (n : N) → Fits ValueType.datetime (Scalar.date ref n)

-- The scalar with a `Date` object of its own.
abbrev pub renewed : {N : Type 0} → ℕ → Scalar N → Scalar N
renewed fresh (Scalar.date ref n) = Scalar.date fresh n
renewed fresh x = x

module _ {N : Type 0} (cast_to : ValueType → Scalar N → ValueProto N) (fresh : ℕ) where
  -- A value whose scalar fits its value type is written to a message, and what is read from that
  -- message is the value again, a date as a new object.
  pub of_value_proto-proto_value :
      (t : ValueType) (x : Scalar N)
      → Fits t x
      → (p : ValueProto N) × (proto_value cast_to (record { value_type = t; value = x }) ≡ ok p)
        × (of_value_proto fresh (some p)
            ≡ ok (some (record { value_type = t; value = renewed fresh x })))
  unfolding of_value_proto proto_value value_read
  of_value_proto-proto_value t x (Fits.boolean b) = (_, refl, refl)
  of_value_proto-proto_value t x (Fits.long n) = (_, refl, refl)
  of_value_proto-proto_value t x (Fits.double n) = (_, refl, refl)
  of_value_proto-proto_value t x (Fits.string s) = (_, refl, refl)
  of_value_proto-proto_value t x (Fits.datetime r n) = (_, refl, refl)

abbrev pub attribute_named : {N : Type 0} → Option (ValueProto N) → String → Option (Kind × String)
attribute_named (some (ValueProto.unset shown)) iid = none
attribute_named _ iid = some (Kind.attribute, iid)

-- The interface and the name by which a message tells a concept: its scoped label, its IID, or nothing.
abbrev pub named_by : {N : Type 0} → Hex → ConceptProto N → Option (Kind × String)
named_by hex (ConceptProto.entity_type p) = some (Kind.entity_type, p.label)
named_by hex (ConceptProto.relation_type p) = some (Kind.relation_type, p.label)
named_by hex (ConceptProto.attribute_type p) = some (Kind.attribute_type, p.label)
named_by hex (ConceptProto.role_type p) = some (Kind.role_type, p.scope ++ (":" ++ p.label))
named_by hex ConceptProto.thing_type_root = some (Kind.thing_type, "thing")
named_by hex (ConceptProto.entity p) = some (Kind.entity, bytes_to_hex_string hex p.iid)
named_by hex (ConceptProto.relation p) = some (Kind.relation, bytes_to_hex_string hex p.iid)
named_by hex (ConceptProto.attribute p) = attribute_named p.value (bytes_to_hex_string hex p.iid)
named_by hex (ConceptProto.value (ValueProto.unset shown)) = none
named_by hex (ConceptProto.value p) = some (Kind.value, "")
named_by hex (ConceptProto.unset shown) = none

abbrev pub name_of : {N : Type 0} → AnyConcept N → String
name_of (AnyConcept.schema t) = scoped_name (label_of t)
name_of (AnyConcept.thing t) = (thing_fields t).iid
name_of (AnyConcept.value v) = ""

-- What is read, by its interface and name.
abbrev pub identified : {N : Type 0} → Result (Option (AnyConcept N)) → Option (Kind × String)
identified (ok (some c)) = some (interface_of c, name_of c)
identified _ = none

pub new_thing-hex :
    (hex : Hex) (iid : List ℕ) (inferred : Bool)
    → new_thing (bytes_to_hex_string hex iid) inferred
      ≡ ok (record { iid = bytes_to_hex_string hex iid; inferred = inferred })
unfolding new_thing bytes_to_hex_string
new_thing-hex hex iid inferred =
    subst (λ s. new_thing s inferred ≡ ok (record { iid = s; inferred = inferred }))
      (sym (pair-append _ _ (hex.to_hex iid))) refl

module _ {N : Type 0} (hex : Hex) (fresh : ℕ) where
  identified-attribute :
      (p : AttributeProto N) (v : Option (ValueProto N))
      → identified
          (and_then (attribute_with hex p (of_value_proto fresh v)) (if_some AnyConcept.thing))
        ≡ attribute_named v (bytes_to_hex_string hex p.iid)
  unfolding attribute_with of_value_proto value_read thing_of interface_of thing_fields
  identified-attribute p none = rw (new_thing-hex hex p.iid p.inferred) refl
  identified-attribute p (some (ValueProto.boolean b)) =
      rw (new_thing-hex hex p.iid p.inferred) refl
  identified-attribute p (some (ValueProto.long n)) = rw (new_thing-hex hex p.iid p.inferred) refl
  identified-attribute p (some (ValueProto.double n)) = rw (new_thing-hex hex p.iid p.inferred) refl
  identified-attribute p (some (ValueProto.date_time n)) =
      rw (new_thing-hex hex p.iid p.inferred) refl
  identified-attribute p (some (ValueProto.string s)) = rw (new_thing-hex hex p.iid p.inferred) refl
  identified-attribute p (some (ValueProto.unset shown)) = refl

  -- A concept is read from a message exactly where the message sets what it is, and the value that it
  -- may hold; it has the interface and the scoped label or IID of the message.
  pub identified-concept_of :
      (p : ConceptProto N) → identified (concept_of hex fresh p) ≡ named_by hex p
  unfolding concept_of of_entity_type_proto of_relation_type_proto of_attribute_type_proto
      of_role_type_proto fields_of of_entity_proto of_relation_proto of_attribute_proto thing_of
      attribute_with of_value_proto value_read interface_of label_of type_fields root_fields
      thing_fields scoped_name of_name scoped
  identified-concept_of (ConceptProto.entity_type p) = refl
  identified-concept_of (ConceptProto.relation_type p) = refl
  identified-concept_of (ConceptProto.attribute_type p) = refl
  identified-concept_of (ConceptProto.role_type p) = refl
  identified-concept_of ConceptProto.thing_type_root = refl
  identified-concept_of (ConceptProto.entity p) = rw (new_thing-hex hex p.iid p.inferred) refl
  identified-concept_of (ConceptProto.relation p) = rw (new_thing-hex hex p.iid p.inferred) refl
  identified-concept_of (ConceptProto.attribute p) = identified-attribute p p.value
  identified-concept_of (ConceptProto.value (ValueProto.boolean b)) = refl
  identified-concept_of (ConceptProto.value (ValueProto.long n)) = refl
  identified-concept_of (ConceptProto.value (ValueProto.double n)) = refl
  identified-concept_of (ConceptProto.value (ValueProto.date_time n)) = refl
  identified-concept_of (ConceptProto.value (ValueProto.string s)) = refl
  identified-concept_of (ConceptProto.value (ValueProto.unset shown)) = refl
  identified-concept_of (ConceptProto.unset shown) = refl
