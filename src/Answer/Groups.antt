-- ===== src/Answer/Groups.antt =====
-- nodejs/concept/answer/ConceptMapGroupImpl.ts, ValueGroupImpl.ts and what ConceptMapImpl.ts and
-- nodejs/logic/ExplanationImpl.ts do with the concepts that they read, which may throw.
use typedb_client_java.Prelude.{ℕ, String, List, map, Option, none, some}
use typedb_client_java.Prelude.Assoc.{values}
use typedb_client_java.Errors.DriverError.{js}
use typedb_client_java.Effect.{Result, err}
use typedb_client_java.Answer.ConceptMap.{ConceptMapProto, ConceptMap, of_proto}
use typedb_client_java.Concept.{AnyConcept, Value}
use typedb_client_java.Concept.Bytes.{Hex}
use typedb_client_java.Concept.Reading.{
  ConceptProto, ValueProto, and_then, concept_of, of_value_proto,
}
use typedb_client_java.Concept.Overloads.{and_try, map_try}
use typedb_client_java.Logic.{ExplanationProto, Explanation, of_explanation}

-- The message of a group with its owner.
pub record MapGroupProto (N : Type 0) : Type 0 where
  pub owner : Option (ConceptProto N)
  pub concept_maps : List (ConceptMapProto (ConceptProto N))

pub record ValueGroupProto (N : Type 0) : Type 0 where
  pub owner : Option (ConceptProto N)
  pub value : Option (ValueProto N)

-- `null` is a concept, too.
pub record ConceptMapGroup (N : Type 0) : Type 0 where
  pub owner : Option (AnyConcept N)
  pub concept_maps : List (ConceptMap (Option (AnyConcept N)))

pub record ValueGroup (N : Type 0) : Type 0 where
  pub owner : Option (AnyConcept N)
  pub value : Option (Value N)

-- The iterators `variables` and `concepts`.
unfoldable pub variables : {C : Type 0} → ConceptMap C → List String
variables m = map (λ e. e.0) m.concepts

unfoldable pub concepts : {C : Type 0} → ConceptMap C → List C
concepts m = values m.concepts

module _ {N : Type 0} (hex : Hex) (fresh : ℕ) where
  -- An entry with the concept that is read of it.
  unfoldable pub read_entry : String × ConceptProto N → Result (String × Option (AnyConcept N))
  read_entry e = and_then (concept_of hex fresh e.1) λ c. (e.0, c)

  -- `ConceptMapImpl.of`: the loop over the entries ends where one cannot be read.
  unfoldable pub concept_map_of :
      ConceptMapProto (ConceptProto N) → Result (ConceptMap (Option (AnyConcept N)))
  unfolding read_entry
  concept_map_of p =
      and_then (map_try read_entry p.entries)
        λ es. of_proto (λ c. c) (record { entries = es; explainables = p.explainables })

  -- `ResponseReader.Concept.of` of a field that may not be set.
  unfoldable pub owner_of : Option (ConceptProto N) → Result (Option (AnyConcept N))
  owner_of none =
      err (js "TypeError: Cannot read properties of undefined (reading 'has_entity_type')")
  owner_of (some p) = concept_of hex fresh p

  -- `ConceptMapGroupImpl.of`
  unfoldable pub map_group_of : MapGroupProto N → Result (ConceptMapGroup N)
  unfolding owner_of concept_map_of
  map_group_of p = and_try (owner_of p.owner) λ c.
      and_then (map_try concept_map_of p.concept_maps) λ ms. record { owner = c; concept_maps = ms }

  -- `ValueGroupImpl.of`
  unfoldable pub value_group_of : ValueGroupProto N → Result (ValueGroup N)
  unfolding owner_of
  value_group_of p =
      and_try (owner_of p.owner)
        λ c. and_then (of_value_proto fresh p.value) λ v. record { owner = c; value = v }

  -- `ExplanationImpl.of`: the condition is read before the conclusion.
  unfoldable pub explanation_of :
      ExplanationProto (ConceptProto N) → Result (Explanation (Option (AnyConcept N)))
  unfolding read_entry
  explanation_of p = and_try (map_try read_entry p.condition.entries) λ es.
      and_then (map_try read_entry p.conclusion.entries) λ fs.
        of_explanation (λ c. c)
          (record {
            rule = p.rule;
            condition = record { entries = es; explainables = p.condition.explainables };
            conclusion = record { entries = fs; explainables = p.conclusion.explainables };
            var_mapping = p.var_mapping;
          })
