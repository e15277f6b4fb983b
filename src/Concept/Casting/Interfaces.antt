-- ===== src/Concept/Casting/Interfaces.antt =====
-- What the methods `isX` and `asX` of nodejs/concept/ConceptImpl.ts answer, by the interfaces of
-- nodejs/api/concept.
use typedb_client_java.Prelude.{
  List, [], ◌∷◌, some, Bool, false, ◌||◌, ◌≡◌, refl, ap₂, if◌then◌else◌,
}
use typedb_client_java.Errors.Templates.{Concept, concept, Internal, internal}
use typedb_client_java.Errors.DriverError.{fail_with}
use typedb_client_java.Effect.{ok, err}
use typedb_client_java.Concept.{SchemaType, Thing, AnyConcept}
use typedb_client_java.Concept.Casting.{
  Class, concept_impl, type_impl, thing_type_impl, entity_type_impl, relation_type_impl,
  attribute_type_impl, role_type_impl, thing_type_root, thing_impl, entity_impl, relation_impl,
  attribute_impl, value_impl, Kind, kind_name, chain, overrides_is, overrides_as, is_same, finds,
  type_class, class_of, is_kind, class_name, cast, interface_of, thing_type_proto,
}

-- An interface of nodejs/api/concept and those that it extends.
unfoldable pub implemented : Kind → List Kind
implemented Kind.type = Kind.type ∷ []
implemented Kind.thing_type = Kind.thing_type ∷ Kind.type ∷ []
implemented Kind.role_type = Kind.role_type ∷ Kind.type ∷ []
implemented Kind.entity_type = Kind.entity_type ∷ Kind.thing_type ∷ Kind.type ∷ []
implemented Kind.relation_type = Kind.relation_type ∷ Kind.thing_type ∷ Kind.type ∷ []
implemented Kind.attribute_type = Kind.attribute_type ∷ Kind.thing_type ∷ Kind.type ∷ []
implemented Kind.thing = Kind.thing ∷ []
implemented Kind.entity = Kind.entity ∷ Kind.thing ∷ []
implemented Kind.relation = Kind.relation ∷ Kind.thing ∷ []
implemented Kind.attribute = Kind.attribute ∷ Kind.thing ∷ []
implemented Kind.value = Kind.value ∷ []

unfoldable pub has_kind : List Kind → Kind → Bool
unfolding is_same
has_kind [] k = false
has_kind (j ∷ js) k = is_same k (some j) || has_kind js k

same_overrides : (c : Class) → overrides_as c ≡ overrides_is c
unfolding overrides_as overrides_is
same_overrides concept_impl = refl
same_overrides type_impl = refl
same_overrides thing_type_impl = refl
same_overrides entity_type_impl = refl
same_overrides relation_type_impl = refl
same_overrides attribute_type_impl = refl
same_overrides role_type_impl = refl
same_overrides thing_type_root = refl
same_overrides thing_impl = refl
same_overrides entity_impl = refl
same_overrides relation_impl = refl
same_overrides attribute_impl = refl
same_overrides value_impl = refl

finds-overrides : (k : Kind) (cs : List Class) → finds overrides_as k cs ≡ finds overrides_is k cs
unfolding finds
finds-overrides k [] = refl
finds-overrides k (c ∷ cs) = ap₂ (λ o f. is_same k o || f) (same_overrides c) (finds-overrides k cs)

module _ {N : Type 0} where
  -- `isX` answers `true` exactly for the interface of the concept and those that it extends.
  pub is_kind-implemented :
      (k : Kind) (c : AnyConcept N) → is_kind k c ≡ has_kind (implemented (interface_of c)) k
  unfolding is_kind finds chain overrides_is class_of type_class implemented interface_of has_kind
  is_kind-implemented k (AnyConcept.schema (SchemaType.entity_type t)) = refl
  is_kind-implemented k (AnyConcept.schema (SchemaType.relation_type t)) = refl
  is_kind-implemented k (AnyConcept.schema (SchemaType.role_type t)) = refl
  is_kind-implemented k (AnyConcept.schema (SchemaType.attribute_type t v)) = refl
  is_kind-implemented k (AnyConcept.schema SchemaType.thing_root) = refl
  is_kind-implemented k (AnyConcept.thing (Thing.entity f t)) = refl
  is_kind-implemented k (AnyConcept.thing (Thing.relation f t)) = refl
  is_kind-implemented k (AnyConcept.thing (Thing.attribute f t v)) = refl
  is_kind-implemented k (AnyConcept.value v) = refl

  -- `asX` returns the concept itself exactly where `isX` is `true`, and otherwise throws, naming the
  -- concept's class and `X`.
  pub cast-is_kind :
      (k : Kind) (c : AnyConcept N)
      → cast k c ≡ (
          if is_kind k c
          then ok c
          else err (
              fail_with
                (concept Concept.invalid_concept_casting)
                (class_name c ∷ kind_name k ∷ [])))
  unfolding cast is_kind
  cast-is_kind k c = rw (finds-overrides k (chain (class_of c))) refl

-- `ThingType.proto` rejects every type, so that a request that names a thing type is never built.
pub thing_type_proto-Refuses :
    (N : Type 0) (t : SchemaType)
    → thing_type_proto N t ≡ err (fail_with (internal Internal.illegal_state) [])
unfolding thing_type_proto is_kind finds chain overrides_is class_of type_class is_same kind_name
thing_type_proto-Refuses N (SchemaType.entity_type t) = refl
thing_type_proto-Refuses N (SchemaType.relation_type t) = refl
thing_type_proto-Refuses N (SchemaType.role_type t) = refl
thing_type_proto-Refuses N (SchemaType.attribute_type t v) = refl
thing_type_proto-Refuses N SchemaType.thing_root = refl
