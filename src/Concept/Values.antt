-- ===== src/Concept/Values.antt =====
-- The methods `isBoolean` to `isDateTime` and `asBoolean` to `asDateTime` of
-- nodejs/concept/value/ValueImpl.ts.
use typedb_client_java.Prelude.{String, [], ◌∷◌, Bool, if◌then◌else◌}
use typedb_client_java.Errors.Templates.{Concept, concept}
use typedb_client_java.Errors.DriverError.{fail_with}
use typedb_client_java.Effect.{Result, ok, err}
use typedb_client_java.Concept.{ValueType, Scalar, Value}
use typedb_client_java.Concept.Equality.{same_value_type}

-- The name of a method's value type in the error.
abbrev pub cast_name : ValueType → String
cast_name ValueType.boolean = "Value.Boolean"
cast_name ValueType.long = "Value.Long"
cast_name ValueType.double = "Value.Double"
cast_name ValueType.string = "Value.String"
cast_name ValueType.datetime = "Value.DateTime"
cast_name ValueType.object = ""

module _ {N : Type 0} where
  -- `isBoolean` and the like; there is none for `OBJECT`.
  unfoldable pub is_value_type : ValueType → Value N → Bool
  is_value_type t v = same_value_type v.value_type t

  -- `asBoolean` and the like.
  unfoldable pub as_value_type : ValueType → Value N → Result (Scalar N)
  unfolding is_value_type
  as_value_type t v =
      if is_value_type t v
      then ok v.value
      else err (fail_with (concept Concept.invalid_concept_casting) ("Value" ∷ cast_name t ∷ []))
