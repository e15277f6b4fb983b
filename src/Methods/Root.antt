-- ===== src/Methods/Root.antt =====
-- The class `Root` of nodejs/concept/type/ThingTypeImpl.ts, the root of all types but roles.
pub mod Subtypes
use typedb_client_java.Prelude.{ℕ, String, List, [], ◌∷◌, Option, none, some}
use typedb_client_java.Effect.{Result, ok, err, Eff, pure}
use typedb_client_java.Errors.DriverError.{Thrown, js}
use typedb_client_java.Stream.{Stream, fails, array, promises, flat_mapped, mapped}
use typedb_client_java.Answer.Label.{Label}
use typedb_client_java.Concept.{SchemaType, Thing, label_of}
use typedb_client_java.Concept.Bytes.{Hex}
use typedb_client_java.Concept.Manager.{
  ConceptReq, ConceptRes, get_entity_type, get_relation_type, get_attribute_type,
}
use typedb_client_java.Concept.Overloads.{
  Transitivity, transitive, explicit, Arg, undefined, transitivity,
}
use typedb_client_java.Methods.Messages.{TransactionReq, TransactionResPart}
use typedb_client_java.Methods.RoleTypes.{or_transitive}
use typedb_client_java.Methods.EntityTypes
use typedb_client_java.Methods.RelationTypes
use typedb_client_java.Methods.AttributeTypes

-- A type of the declared class, or `null`.
pub data RootType : Type 0 where
  entity_root relation_root attribute_root : Option SchemaType → RootType

unfoldable pub root_type : RootType → Option SchemaType
root_type (entity_root t) = t
root_type (relation_root t) = t
root_type (attribute_root t) = t

-- What becomes of a promise; the promise of the next is made in any case.
unfoldable pub settled : {W A B : Type 0} → (A → B) → Eff W A → W → Result B × W
settled f m w = let (r, v) = m w in (elim r [ ok a ↦ ok (f a) | err e ↦ err e ], v)

-- The three promises of `transaction.concepts`, in the order of the array.
unfoldable pub roots :
    {N W : Type 0} → (ConceptReq → Eff W (ConceptRes N)) → W → List (Result RootType) × W
unfolding settled get_entity_type get_relation_type get_attribute_type
roots execute w =
    let (a, v) = settled entity_root (get_entity_type execute "entity") w in
    let (b, u) = settled relation_root (get_relation_type execute "relation") v in
    let (c, t) = settled attribute_root (get_attribute_type execute "attribute") u in
    (a ∷ b ∷ c ∷ [], t)

unfoldable pub null_type : Thrown
null_type = js "TypeError: Cannot read properties of null"

-- A method of a type that may be `null`.
unfoldable pub method_of : {A : Type 0} → (Label → Stream A) → Option SchemaType → Stream A
unfolding null_type
method_of f none = fails null_type
method_of f (some t) = f (label_of t)

-- A call whose arguments do not fit throws.
unfoldable pub called : {A : Type 0} → Result (Stream A) → Stream A
called (ok s) = s
called (err e) = fails e

module _ {N : Type 0} (shown : SchemaType → String)
    (rpc_stream : TransactionReq N → Stream (TransactionResPart N)) where
  -- `tt.getSubtypes(transaction, transitivity)`
  unfoldable pub subtypes_of : Transitivity → RootType → Stream (Option SchemaType)
  unfolding method_of called EntityTypes.get_subtypes RelationTypes.get_subtypes
      AttributeTypes.get_subtypes
  subtypes_of t (entity_root r) = method_of (λ l. EntityTypes.get_subtypes rpc_stream l (some t)) r
  subtypes_of t (relation_root r) =
      method_of (λ l. RelationTypes.get_subtypes rpc_stream l (some t)) r
  subtypes_of t (attribute_root r) =
      method_of
        (λ l. called (AttributeTypes.get_subtypes rpc_stream shown l (transitivity t) undefined)) r

  -- `getSubtypes`, once the promises have been made.
  unfoldable pub subtypes : List (Result RootType) → Transitivity → Stream (Option SchemaType)
  unfolding subtypes_of root_type
  subtypes rs explicit = mapped root_type (promises rs)
  subtypes rs transitive = flat_mapped (subtypes_of transitive) (promises rs)

  unfoldable pub get_subtypes :
      {W : Type 0}
      → (ConceptReq → Eff W (ConceptRes N))
      → Option Transitivity
      → Eff W (Stream (Option SchemaType))
  unfolding roots subtypes or_transitive
  get_subtypes execute t w =
      let (rs, v) = roots execute w in (ok (subtypes rs (or_transitive t)), v)

  module _ (hex : Hex) (fresh : ℕ) where
    -- `tt.getInstances(transaction, transitivity)`
    unfoldable pub instances_of : Transitivity → RootType → Stream (Option (Thing N))
    unfolding method_of EntityTypes.get_instances RelationTypes.get_instances
        AttributeTypes.get_instances
    instances_of t (entity_root r) =
        method_of (λ l. EntityTypes.get_instances rpc_stream hex l (some t)) r
    instances_of t (relation_root r) =
        method_of (λ l. RelationTypes.get_instances rpc_stream hex l (some t)) r
    instances_of t (attribute_root r) =
        method_of (λ l. AttributeTypes.get_instances rpc_stream hex fresh l (some t)) r

    -- The promises are made where they are needed only.
    unfoldable pub instances :
        {W : Type 0}
        → (ConceptReq → Eff W (ConceptRes N))
        → Transitivity
        → Eff W (Stream (Option (Thing N)))
    unfolding roots instances_of
    instances execute explicit w = (ok (array []), w)
    instances execute transitive w =
        let (rs, v) = roots execute w in
        (ok (flat_mapped (instances_of transitive) (promises rs)), v)

    unfoldable pub get_instances :
        {W : Type 0}
        → (ConceptReq → Eff W (ConceptRes N))
        → Option Transitivity
        → Eff W (Stream (Option (Thing N)))
    unfolding instances or_transitive
    get_instances execute t = instances execute (or_transitive t)

-- `getSupertype` gives `null`; `getSupertypes` the root itself; it is never deleted.
unfoldable pub get_supertype : {W : Type 0} → Eff W (Option SchemaType)
get_supertype = pure none

unfoldable pub get_supertypes : Stream SchemaType
get_supertypes = array (SchemaType.thing_root ∷ [])
