-- ===== src/Examples/Schemas.antt =====
-- nodejs/concept/ConceptManagerImpl.ts, with a server that has one relation type with one role.
use text.Mathlib.Text.{◌==◌ as same_text}
use typedb_client_java.Prelude.{ℕ, none, some, false, not, ◌≡◌, refl, if◌then◌else◌}
use typedb_client_java.Errors.DriverError.{js}
use typedb_client_java.Effect.{ok, err, Eff}
use typedb_client_java.Concept.{SchemaType}
use typedb_client_java.Concept.Manager.{
  ConceptReq, ConceptRes, get_entity_type_req, get_relation_type_req, get_attribute_type_req,
  get_relates_for_role_label_req, get_entity_type_res, get_relation_type_res,
  get_attribute_type_res, get_relates_for_role_label_res, type_is_deleted,
}
use typedb_client_java.Concept.Manager.Deletion.{Schema, Serves, is_in, type_is_deleted-is_in}

abbrev pub schema : Schema
schema = record {
  entity_type = λ l. none;
  relation_type = λ l.
      if same_text l "friendship"
      then some (record { label = l; is_root = false; is_abstract = false })
      else none;
  attribute_type = λ l. none;
  role_type = λ l r.
      if same_text r "friend"
      then some (record { scope = l; label = r; is_root = false; is_abstract = false })
      else none;
}

abbrev pub serve : ConceptReq → Eff ℕ (ConceptRes ℕ)
serve (get_entity_type_req l) w = (ok (get_entity_type_res (schema.entity_type l)), w)
serve (get_relation_type_req l) w = (ok (get_relation_type_res (schema.relation_type l)), w)
serve (get_attribute_type_req l) w = (ok (get_attribute_type_res (schema.attribute_type l)), w)
serve (get_relates_for_role_label_req l r) w =
    (ok (get_relates_for_role_label_res (schema.role_type l r)), w)
serve _ w = (err (js "unknown"), w)

serve-Serves : Serves serve schema 0
serve-Serves = record {
  entity_types = λ l. refl;
  relation_types = λ l. refl;
  attribute_types = λ l. refl;
  role_types = λ l r. refl;
}

abbrev friend : SchemaType
friend = SchemaType.role_type (record {
  label = record { scope = some "friendship"; name = "friend" };
  is_root = false;
  is_abstract = false;
})

type_is_deleted-is_in_example : type_is_deleted serve friend 0 ≡ (ok (not (is_in schema friend)), 0)
type_is_deleted-is_in_example = type_is_deleted-is_in serve schema 0 serve-Serves friend
