-- ===== src/Answer/ConceptMap/Explain.antt =====
-- What the lookups of nodejs/concept/answer/ConceptMapImpl.ts find.
use text.Mathlib.Text.{◌==◌}
use typedb_client_java.Prelude.{
  [], ◌∷◌, String, Option, none, some, ◌≡◌, refl, ap, ◌∙◌, arith, if◌then◌else◌,
}
use typedb_client_java.Prelude.Assoc.{Assoc, lookup, insert, lookup-insert}
use typedb_client_java.Errors.Templates.{Query, query}
use typedb_client_java.Errors.DriverError.{fail_with}
use typedb_client_java.Effect.{ok, err}
use typedb_client_java.Answer.ConceptMap.{
  ExplainableProto, ExplainablesProto, ConceptMapProto, of_explainable, set_all, of_explainables,
  of_proto, get, relation, attribute,
}

-- The last entry with the key, as a protobuf map has it.
abbrev pub last_entry {ℓ} : {P : Type ℓ} → String → Assoc P → Option P → Option P
last_entry k [] o = o
last_entry k ((j, p) ∷ ps) o = last_entry k ps (if j == k then some p else o)

abbrev pub map_some {ℓ κ} : {A : Type ℓ} {B : Type κ} → (A → B) → Option A → Option B
map_some f none = none
map_some f (some a) = some (f a)

abbrev or_else {ℓ} : {A : Type ℓ} → Option A → Option A → Option A
or_else none o = o
or_else (some a) o = some a

last_entry-or_else {ℓ} :
    {P : Type ℓ} (k : String) (ps : Assoc P) (o : Option P)
    → last_entry k ps o ≡ or_else (last_entry k ps none) o
last_entry-or_else k [] o = refl
last_entry-or_else k ((j, p) ∷ ps) o =
    ground (arith, last_entry-or_else k ps (some p), last_entry-or_else k ps o)

lookup-set_all {ℓ κ} :
    {P : Type ℓ} {V : Type κ} (f : P → V) (k : String) (ps : Assoc P) (m : Assoc V) (o : Option P)
    → lookup k m ≡ map_some f o
    → lookup k (set_all f ps m) ≡ map_some f (last_entry k ps o)
unfolding set_all
lookup-set_all f k [] m o h = h
lookup-set_all f k ((j, p) ∷ ps) m o h =
    lookup-set_all f k ps (insert j (f p) m) (if j == k then some p else o)
      (lookup-insert j k (f p) m ∙ ground (arith, h))

-- A variable of an answer maps to the concept read from its last entry, and to nothing where the
-- answer has no such variable.
pub get-of_proto :
    {P C : Type 0} (read : P → C) (p : ConceptMapProto P) (variable : String)
    → get variable (of_proto read p) ≡ map_some read (last_entry variable p.entries none)
unfolding get of_proto lookup
get-of_proto read p variable = lookup-set_all read variable p.entries [] none refl

lookup-relations :
    (p : ExplainablesProto) (k : String)
    → lookup k (of_explainables p).relations
      ≡ map_some of_explainable
          (or_else (last_entry k p.attributes none) (last_entry k p.relations none))
unfolding of_explainables lookup
lookup-relations p k =
    lookup-set_all of_explainable k p.attributes (set_all of_explainable p.relations [])
      (last_entry k p.relations none) (lookup-set_all of_explainable k p.relations [] none refl)
    ∙ ap (map_some of_explainable)
        (last_entry-or_else k p.attributes (last_entry k p.relations none))

-- A relation that the server sent as explainable, under a name that is not also an attribute's, is
-- found by `relation`.
pub relation-of_explainables :
    (p : ExplainablesProto) (variable : String) (e : ExplainableProto)
    → last_entry variable p.relations none ≡ some e
    → last_entry variable p.attributes none ≡ none
    → relation variable (of_explainables p) ≡ ok (of_explainable e)
unfolding relation
relation-of_explainables p variable e h k = ground (arith, lookup-relations p variable)

-- No attribute is ever found by `attribute`, whatever the server sent: it is rejected as not
-- explainable.
pub attribute-of_explainables :
    (p : ExplainablesProto) (variable : String)
    → attribute variable (of_explainables p)
      ≡ err (fail_with (query Query.nonexistent_explainable_concept) (variable ∷ []))
unfolding attribute of_explainables lookup
attribute-of_explainables p variable = refl

-- An explainable attribute that the server sent is found by `relation`, as if it were a relation.
pub relation-attribute :
    (p : ExplainablesProto) (variable : String) (e : ExplainableProto)
    → last_entry variable p.attributes none ≡ some e
    → relation variable (of_explainables p) ≡ ok (of_explainable e)
unfolding relation
relation-attribute p variable e h = ground (arith, lookup-relations p variable)
