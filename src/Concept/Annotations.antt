-- ===== src/Concept/Annotations.antt =====
-- The class `Annotation` of nodejs/api/concept/type/ThingType.ts. Its constructor is private: its
-- objects are the two constants.
use text.Mathlib.Text.{◌==◌ as same_text}
use text.Mathlib.TextEquality.{eq_iff}
use typedb_client_java.Prelude.{String, [], ◌∷◌, ◌≡◌, ◌↔◌, ◌⊎◌, arith, if◌then◌else◌}
use typedb_client_java.Errors.Templates.{Concept, concept}
use typedb_client_java.Errors.DriverError.{fail_with}
use typedb_client_java.Effect.{Result, ok, err}

pub data Annotation : Type 0 where
  key unique : Annotation

-- The protocol's.
pub data TypeAnnotation : Type 0 where
  type_key type_unique : TypeAnnotation

unfoldable pub annotation_name : Annotation → String
annotation_name key = "key"
annotation_name unique = "unique"

-- `parse`: the second branch, too, returns `KEY`.
unfoldable pub parse : String → Result Annotation
unfolding annotation_name
parse s =
    if same_text s (annotation_name key)
    then ok key
    else if same_text s (annotation_name unique)
    then ok key
    else err (fail_with (concept Concept.bad_annotation) (s ∷ []))

unfoldable pub annotation_proto : Annotation → TypeAnnotation
annotation_proto key = type_key
annotation_proto unique = type_unique

-- `parse` accepts exactly the two names, and reads each of them as `KEY`: `UNIQUE` is never read back
-- from its name.
pub parse-ok_iff :
    (s : String) (a : Annotation)
    → (parse s ≡ ok a) ↔ ((a ≡ key) × ((s ≡ annotation_name key) ⊎ (s ≡ annotation_name unique)))
unfolding parse
parse-ok_iff s a = ground (arith, eq_iff s (annotation_name key), eq_iff s (annotation_name unique))
