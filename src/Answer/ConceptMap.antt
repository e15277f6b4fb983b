-- ===== src/Answer/ConceptMap.antt =====
-- nodejs/concept/answer/ConceptMapImpl.ts. Concepts are of a type `C`, with `read` for
-- `ResponseReader.Concept.of`; a protobuf map is the list of its entries, with distinct keys.
pub mod Explain
use text.Mathlib.Text.{◌==◌}
use typedb_client_java.Prelude.{
  ℕ, List, [], ◌∷◌, ◌++◌, map, String, Option, none, some, Bool, ◌&&◌, if◌then◌else◌,
}
use typedb_client_java.Prelude.Assoc.{Assoc, lookup, insert}
use typedb_client_java.Errors.Templates.{Query, query}
use typedb_client_java.Errors.DriverError.{fail_with}
use typedb_client_java.Effect.{Result, ok, err}

pub record ExplainableProto : Type 0 where
  pub conjunction : String
  pub id : ℕ

-- `ownerships` maps an owner to the map of its attributes.
pub record ExplainablesProto : Type 0 where
  pub relations : Assoc ExplainableProto
  pub attributes : Assoc ExplainableProto
  pub ownerships : Assoc (Assoc ExplainableProto)

pub record ConceptMapProto (P : Type 0) : Type 0 where
  pub entries : Assoc P
  pub explainables : Option ExplainablesProto

pub record Explainable : Type 0 where
  pub conjunction : String
  pub id : ℕ

-- The keys of `_ownerships` are fresh pairs, which no two calls of `set` share: an entry is appended.
pub record Explainables : Type 0 where
  pub relations : Assoc Explainable
  pub attributes : Assoc Explainable
  pub ownerships : List ((String × String) × Explainable)

pub record ConceptMap (C : Type 0) : Type 0 where
  pub concepts : Assoc C
  pub explainables : Explainables

abbrev pub of_explainable : ExplainableProto → Explainable
of_explainable p = record { conjunction = p.conjunction; id = p.id }

-- `proto.forEach((v, k) => m.set(k, f(v)))`
unfoldable pub set_all {ℓ κ} : {P : Type ℓ} {V : Type κ} → (P → V) → Assoc P → Assoc V → Assoc V
set_all f [] m = m
set_all f ((k, p) ∷ ps) m = set_all f ps (insert k (f p) m)

owned_by : String → Assoc ExplainableProto → List ((String × String) × Explainable)
owned_by owner = map (λ e. ((owner, e.0), of_explainable e.1))

ownerships_of : Assoc (Assoc ExplainableProto) → List ((String × String) × Explainable)
unfolding owned_by
ownerships_of [] = []
ownerships_of ((owner, owned) ∷ rest) = owned_by owner owned ++ ownerships_of rest

-- `ofExplainables`: the loop over the attributes, too, writes to `relations`.
unfoldable pub of_explainables : ExplainablesProto → Explainables
unfolding ownerships_of set_all
of_explainables p = record {
  relations = set_all of_explainable p.attributes (set_all of_explainable p.relations []);
  attributes = [];
  ownerships = ownerships_of p.ownerships;
}

unfoldable pub empty_explainables : Explainables
empty_explainables = record { relations = []; attributes = []; ownerships = [] }

-- `ConceptMapImpl.of`
unfoldable pub of_proto : {P C : Type 0} → (P → C) → ConceptMapProto P → ConceptMap C
unfolding of_explainables empty_explainables set_all
of_proto read p = record {
  concepts = set_all read p.entries [];
  explainables = elim p.explainables [ some e ↦ of_explainables e | none ↦ empty_explainables ];
}

unfoldable pub get : {C : Type 0} → String → ConceptMap C → Option C
get variable m = lookup variable m.concepts

-- `if (!explainable) throw …`
or_nonexistent : String → Option Explainable → Result Explainable
or_nonexistent variable (some e) = ok e
or_nonexistent variable none =
    err (fail_with (query Query.nonexistent_explainable_concept) (variable ∷ []))

unfoldable pub relation : String → Explainables → Result Explainable
unfolding or_nonexistent
relation variable e = or_nonexistent variable (lookup variable e.relations)

unfoldable pub attribute : String → Explainables → Result Explainable
unfolding or_nonexistent
attribute variable e = or_nonexistent variable (lookup variable e.attributes)

find_ownership : String → String → List ((String × String) × Explainable) → Result Explainable
find_ownership owner attr [] =
    err (fail_with (query Query.nonexistent_explainable_ownership) (owner ∷ attr ∷ []))
find_ownership owner attr ((k, e) ∷ rest) =
    if k.0 == owner && k.1 == attr then ok e else find_ownership owner attr rest

unfoldable pub ownership : String → String → Explainables → Result Explainable
unfolding find_ownership
ownership owner attr e = find_ownership owner attr e.ownerships
