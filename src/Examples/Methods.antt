-- ===== src/Examples/Methods.antt =====
-- The methods of types in nodejs/concept on a server with one subtype of each root, which holds every
-- attribute that is put.
use typedb_client_java.Prelude.{ℕ, String, [], ◌∷◌, Option, none, some, false, ◌≡◌, refl}
use typedb_client_java.Errors.DriverError.{js}
use typedb_client_java.Effect.{ok, err, Eff}
use typedb_client_java.Stream.{Stream, end, item, array, collect}
use typedb_client_java.Answer.Label.{Label}
use typedb_client_java.Concept.{Value, ValueType, Scalar, SchemaType}
use typedb_client_java.Concept.Reading.{
  TypeProto, AttributeTypeProto, AttributeProto, ValueProto, known,
}
use typedb_client_java.Concept.Reading.Laws.{Fits}
use typedb_client_java.Concept.Manager.{
  ConceptReq, ConceptRes, get_entity_type_req, get_relation_type_req, get_attribute_type_req,
  get_relates_for_role_label_req, get_entity_type_res, get_relation_type_res,
  get_attribute_type_res, get_relates_for_role_label_res,
}
use typedb_client_java.Concept.Manager.Deletion.{Schema, Serves}
use typedb_client_java.Concept.Overloads.{Transitivity, transitive, explicit}
use typedb_client_java.Concept.Overloads
use typedb_client_java.Methods.Messages.{
  TransactionReq, TransactionRes, TransactionResPart, thing_type_req, overloaded_req,
  entity_type_req, relation_type_req, attribute_type_req, attribute_type_put_req,
  attribute_type_get_req, attribute_type_put_res, attribute_type_get_res, thing_type_res, other_res,
  thing_type_res_part, entity_type_get_subtypes_req, relation_type_get_subtypes_req,
  entity_type_get_subtypes_res_part, relation_type_get_subtypes_res_part,
  attribute_type_get_subtypes_res_part, about_entity_type, about_relation_type,
  about_attribute_type, other_res_part,
}
use typedb_client_java.Methods.AttributeTypes.{put, get}
use typedb_client_java.Methods.AttributeTypes.Values.{Holds, get-put, read_back}
use typedb_client_java.Methods.Root.{get_subtypes}
use typedb_client_java.Methods.Root.Subtypes.{
  Hierarchy, Has, Delivers, get_subtypes-roots, all_subtypes, root_types,
}
use typedb_client_java.Examples.Hexadecimal.{buffer}

abbrev named : String → TypeProto
named l = record { label = l; is_root = false; is_abstract = false }

abbrev named_attribute : String → AttributeTypeProto
named_attribute l = record {
  label = l;
  is_root = false;
  is_abstract = false;
  value_type = known ValueType.long;
}

abbrev hierarchy : Hierarchy
hierarchy = record {
  entity = named "entity";
  relation = named "relation";
  attribute = named_attribute "attribute";
  entities = (named "entity" ∷ named "person" ∷ []) ∷ (named "child" ∷ []) ∷ [];
  relations = (named "relation" ∷ []) ∷ [];
  attributes = (named_attribute "age" ∷ []) ∷ [];
}

abbrev with_roots : Schema
with_roots = record {
  entity_type = λ l. some (named l);
  relation_type = λ l. some (named l);
  attribute_type = λ l. some (named_attribute l);
  role_type = λ l r. none;
}

abbrev serve_roots : ConceptReq → Eff ℕ (ConceptRes ℕ)
serve_roots (get_entity_type_req l) w = (ok (get_entity_type_res (some (named l))), w)
serve_roots (get_relation_type_req l) w = (ok (get_relation_type_res (some (named l))), w)
serve_roots (get_attribute_type_req l) w =
    (ok (get_attribute_type_res (some (named_attribute l))), w)
serve_roots (get_relates_for_role_label_req l r) w = (ok (get_relates_for_role_label_res none), w)
serve_roots _ w = (err (js "unknown"), w)

serve_roots-Serves : Serves serve_roots with_roots 0
serve_roots-Serves = record {
  entity_types = λ l. refl;
  relation_types = λ l. refl;
  attribute_types = λ l. refl;
  role_types = λ l r. refl;
}

with_roots-Has : Has with_roots hierarchy
with_roots-Has = record { entity_type = refl; relation_type = refl; attribute_type = refl }

abbrev deliver : TransactionReq ℕ → Stream (TransactionResPart ℕ)
deliver (thing_type_req l (entity_type_req (entity_type_get_subtypes_req t))) =
    item
      (thing_type_res_part
        (entity_type_get_subtypes_res_part (named "entity" ∷ named "person" ∷ [])))
      (item (thing_type_res_part (entity_type_get_subtypes_res_part (named "child" ∷ []))) end)
deliver (thing_type_req l (relation_type_req (relation_type_get_subtypes_req t))) =
    item (thing_type_res_part (relation_type_get_subtypes_res_part (named "relation" ∷ []))) end
deliver (overloaded_req (Overloads.get_subtypes l t v)) =
    item (thing_type_res_part (attribute_type_get_subtypes_res_part (named_attribute "age" ∷ [])))
      end
deliver _ = item other_res_part end

deliver-Delivers : Delivers deliver hierarchy
unfolding about_entity_type about_relation_type array
deliver-Delivers = record { entities = refl; relations = refl; attributes = refl }

abbrev shown : SchemaType → String
shown t = "type"

get_subtypes-roots_example :
    (all listed : Stream (Option SchemaType)) × (get_subtypes shown deliver serve_roots none 0
      ≡ (ok all, 0))
    × (get_subtypes shown deliver serve_roots (some transitive) 0 ≡ (ok all, 0))
    × (get_subtypes shown deliver serve_roots (some explicit) 0 ≡ (ok listed, 0))
    × (collect all ≡ ok (all_subtypes hierarchy))
    × (collect listed ≡ ok (root_types hierarchy))
get_subtypes-roots_example =
    get_subtypes-roots shown deliver hierarchy deliver-Delivers serve_roots with_roots 0
      serve_roots-Serves with_roots-Has

-- The server gives every attribute the same IID.
abbrev held : String → ValueProto ℕ → AttributeProto ℕ
held l p = record {
  iid = 1 ∷ 2 ∷ [];
  inferred = false;
  attribute_type = some (named_attribute l);
  value = some p;
}

abbrev hold : TransactionReq ℕ → Eff ℕ (TransactionRes ℕ)
hold (thing_type_req l (attribute_type_req (attribute_type_put_req p))) w =
    (ok (thing_type_res (attribute_type_put_res (some (held l p)))), 1)
hold (thing_type_req l (attribute_type_req (attribute_type_get_req p))) w =
    (ok (thing_type_res (attribute_type_get_res (some (held l p)))), w)
hold _ w = (ok other_res, w)

hold-Holds : Holds hold held
unfolding about_attribute_type
hold-Holds = record {
  after = λ l p w. 1;
  value = λ l p. refl;
  putting = λ l p w. refl;
  getting = λ l p w. refl;
}

abbrev cast_none : ValueType → Scalar ℕ → ValueProto ℕ
cast_none t x = ValueProto.unset "none"

abbrev age : Label
age = record { scope = none; name = "age" }

-- The value of an attribute whose date is this object.
abbrev at_noon : ℕ → Value ℕ
at_noon ref = record { value_type = ValueType.datetime; value = Scalar.date ref 1200 }

get-put_example :
    (a : AttributeProto ℕ) × (v : ℕ) × (put hold cast_none buffer 9 age (at_noon 3) 0
      ≡ (ok (some (read_back hold cast_none buffer held a (at_noon 9))), v))
    × (get hold cast_none buffer 10 age (at_noon 3) v
        ≡ (ok (some (read_back hold cast_none buffer held a (at_noon 10))), v))
get-put_example =
    get-put hold cast_none buffer held hold-Holds 9 10 age ValueType.datetime (Scalar.date 3 1200) 0
      (Fits.datetime 3 1200)
