-- ===== src/Concept/Manager/Deletion.antt =====
-- What the methods `isDeleted` of nodejs/concept/type answer about a schema.
use typedb_client_java.Prelude.{
  String, Option, none, some, Bool, true, false, not, is_some, ◌≡◌, refl, inl, inr, arith,
  Option-cases,
}
use typedb_client_java.Effect.{ok, Eff, ◌>>=◌}
use typedb_client_java.Answer.Label.{of_name}
use typedb_client_java.Concept.{SchemaType, label_of, type_fields}
use typedb_client_java.Concept.Reading.{
  TypeProto, AttributeTypeProto, RoleTypeProto, of_entity_type_proto, of_relation_type_proto,
  of_attribute_type_proto, of_role_type_proto, fields_of,
}
use typedb_client_java.Concept.Manager.{
  ConceptReq, ConceptRes, get_entity_type_req, get_relation_type_req, get_attribute_type_req,
  get_relates_for_role_label_req, get_entity_type_res, get_relation_type_res,
  get_attribute_type_res, get_relates_for_role_label_res, get_entity_type, get_relation_type,
  get_attribute_type, get_relates_for_role_label, relates_no_role, scope_of, type_is_deleted,
}

-- A schema: its types by label, and the roles of a relation type by their labels.
pub record Schema : Type 0 where
  pub entity_type : String → Option TypeProto
  pub relation_type : String → Option TypeProto
  pub attribute_type : String → Option AttributeTypeProto
  pub role_type : String → String → Option RoleTypeProto

abbrev role_in : Schema → Option TypeProto → String → Bool
role_in schema none name = false
role_in schema (some r) name = is_some (schema.role_type r.label name)

-- Whether a type is in the schema, a role as one of the relation type that scopes it.
abbrev pub is_in : Schema → SchemaType → Bool
is_in schema (SchemaType.entity_type t) = is_some (schema.entity_type t.label.name)
is_in schema (SchemaType.relation_type t) = is_some (schema.relation_type t.label.name)
is_in schema (SchemaType.attribute_type t v) = is_some (schema.attribute_type t.label.name)
is_in schema (SchemaType.role_type t) =
    role_in schema (schema.relation_type (scope_of t.label.scope)) t.label.name
is_in schema SchemaType.thing_root = true

-- A server that answers for the schema, and does not change.
pub record Serves {N W : Type 0} (execute : ConceptReq → Eff W (ConceptRes N)) (schema : Schema)
    (w : W) : Type 0 where
  pub entity_types :
      (l : String)
      → execute (get_entity_type_req l) w ≡ (ok (get_entity_type_res (schema.entity_type l)), w)
  pub relation_types :
      (l : String)
      → execute (get_relation_type_req l) w
        ≡ (ok (get_relation_type_res (schema.relation_type l)), w)
  pub attribute_types :
      (l : String)
      → execute (get_attribute_type_req l) w
        ≡ (ok (get_attribute_type_res (schema.attribute_type l)), w)
  pub role_types :
      (l r : String)
      → execute (get_relates_for_role_label_req l r) w
        ≡ (ok (get_relates_for_role_label_res (schema.role_type l r)), w)

module _ {N W : Type 0} (execute : ConceptReq → Eff W (ConceptRes N)) (schema : Schema) (w : W)
    (serves : Serves execute schema w) where
  scoped_role :
      (scope name : String)
      → (get_relation_type execute scope >>= relates_no_role execute name) w
        ≡ (ok (not (role_in schema (schema.relation_type scope) name)), w)
  unfolding get_relation_type relates_no_role get_relates_for_role_label of_relation_type_proto
      of_role_type_proto label_of type_fields of_name fields_of
  scoped_role scope name = elim (Option-cases (schema.relation_type scope)) [
    | inl absent ↦ ground (arith, serves.relation_types scope, absent)
    | inr (r, there) ↦
        ground (arith, serves.relation_types scope, there, serves.role_types r.label name)
  ]

  -- A type is deleted exactly when the schema that the server answers for does not have it: a role,
  -- when the relation type of its scope is not there or does not relate it.
  pub type_is_deleted-is_in :
      (t : SchemaType) → type_is_deleted execute t w ≡ (ok (not (is_in schema t)), w)
  unfolding type_is_deleted get_entity_type get_relation_type get_attribute_type
      of_entity_type_proto of_relation_type_proto of_attribute_type_proto
  type_is_deleted-is_in (SchemaType.entity_type t) =
      ground (arith, serves.entity_types t.label.name)
  type_is_deleted-is_in (SchemaType.relation_type t) =
      ground (arith, serves.relation_types t.label.name)
  type_is_deleted-is_in (SchemaType.attribute_type t v) =
      ground (arith, serves.attribute_types t.label.name)
  type_is_deleted-is_in (SchemaType.role_type t) = scoped_role (scope_of t.label.scope) t.label.name
  type_is_deleted-is_in SchemaType.thing_root = refl
