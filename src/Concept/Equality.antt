-- ===== src/Concept/Equality.antt =====
-- The methods `equals` of nodejs/concept. `===` and `==` on numbers are parameters, as is what `==`
-- gives on values of different JavaScript types.
use mathlib.Core.Bool.{decide, decide_iff}
use text.Mathlib.Text.{◌==◌ as same_text}
use text.Mathlib.TextEquality.{eq_iff}
use typedb_client_java.Prelude.{ℕ, String, Bool, true, false, ◌&&◌, ◌==◌, ◌≡◌, ◌↔◌, refl, arith}
use typedb_client_java.Answer.Label.{equals, equals_iff}
use typedb_client_java.Concept.{
  ValueType, Scalar, Value, SchemaType, Thing, thing_fields, AnyConcept, schema, thing, value,
  label_of,
}

-- `==` of JavaScript on values: two dates are equal when they are one object.
pub record Equal (N : Type 0) : Type 0 where
  pub same_number : N → N → Bool
  pub coerced : Scalar N → Scalar N → Bool

pub ValueType-discrete : Discrete ValueType
ValueType-discrete = hlevel

same_bool : Bool → Bool → Bool
same_bool true b = b
same_bool false true = false
same_bool false false = true

-- `==` on two constants of `ValueType`.
unfoldable pub same_value_type : ValueType → ValueType → Bool
same_value_type a b = decide (ValueType-discrete a b)

same_value_type_iff : (a b : ValueType) → (same_value_type a b ≡ true) ↔ (a ≡ b)
unfolding same_value_type
same_value_type_iff a b = decide_iff (ValueType-discrete a b)

same_text_comm : (s t : String) → same_text s t ≡ same_text t s
same_text_comm s t = ground (arith, eq_iff s t, eq_iff t s)

same_bool_comm : (a b : Bool) → same_bool a b ≡ same_bool b a
unfolding same_bool
same_bool_comm true true = refl
same_bool_comm true false = refl
same_bool_comm false true = refl
same_bool_comm false false = refl

module _ {N : Type 0} (js : Equal N) where
  unfoldable pub loosely_equal : Scalar N → Scalar N → Bool
  unfolding same_bool
  loosely_equal (Scalar.boolean a) (Scalar.boolean b) = same_bool a b
  loosely_equal (Scalar.text a) (Scalar.text b) = same_text a b
  loosely_equal (Scalar.number a) (Scalar.number b) = js.same_number a b
  loosely_equal (Scalar.date a s) (Scalar.date b t) = a == b
  loosely_equal a b = js.coerced a b

  unfoldable pub value_equals : Value N → AnyConcept N → Bool
  unfolding same_value_type loosely_equal
  value_equals v (value w) =
      same_value_type v.value_type w.value_type && loosely_equal v.value w.value
  value_equals v _ = false

  unfoldable pub thing_equals : Thing N → AnyConcept N → Bool
  thing_equals t (thing u) = same_text (thing_fields u).iid (thing_fields t).iid
  thing_equals t _ = false

  unfoldable pub type_equals : SchemaType → AnyConcept N → Bool
  type_equals t (schema u) = equals (label_of u) (label_of t)
  type_equals t _ = false

  -- `c.equals(d)`
  unfoldable pub concept_equals : AnyConcept N → AnyConcept N → Bool
  unfolding value_equals thing_equals type_equals
  concept_equals (schema t) d = type_equals t d
  concept_equals (thing t) d = thing_equals t d
  concept_equals (value v) d = value_equals v d

  -- Two things are equal exactly when they have one IID, whatever kind of thing they are, and two
  -- types exactly when they have one label, whatever kind of type they are.
  pub concept_equals_iff :
      ((t u : Thing N)
        → (concept_equals (thing t) (thing u) ≡ true)
          ↔ ((thing_fields t).iid ≡ (thing_fields u).iid))
      × ((t u : SchemaType)
          → (concept_equals (schema t) (schema u) ≡ true) ↔ (label_of t ≡ label_of u))
  unfolding concept_equals thing_equals type_equals
  concept_equals_iff = (
    λ t u. ground (arith, eq_iff (thing_fields u).iid (thing_fields t).iid),
    λ t u. ground (arith, equals_iff (label_of u) (label_of t)),
  )

  -- Two values that hold dates are equal exactly when they have one value type and hold one `Date`
  -- object; the times do not count.
  pub value_equals-date_iff :
      (a b : ValueType) (r q : ℕ) (s t : N)
      → (concept_equals
            (value (record { value_type = a; value = Scalar.date r s }))
            (value (record { value_type = b; value = Scalar.date q t }))
          ≡ true)
        ↔ ((a ≡ b) × (r ≡ q))
  unfolding concept_equals value_equals loosely_equal
  value_equals-date_iff a b r q s t = ground (arith, same_value_type_iff a b)

  module _ (h : (a b : N) → js.same_number a b ≡ js.same_number b a)
      (k : (a b : Scalar N) → js.coerced a b ≡ js.coerced b a) where
    loosely_equal_comm : (a b : Scalar N) → loosely_equal a b ≡ loosely_equal b a
    unfolding loosely_equal
    loosely_equal_comm (Scalar.boolean a) (Scalar.boolean b) = same_bool_comm a b
    loosely_equal_comm (Scalar.text a) (Scalar.text b) = same_text_comm a b
    loosely_equal_comm (Scalar.number a) (Scalar.number b) = h a b
    loosely_equal_comm (Scalar.date a s) (Scalar.date b t) = ground arith
    loosely_equal_comm a b = k a b

    -- `equals` is symmetric, where the language's `==` is on numbers and on values of different types.
    pub concept_equals_comm : (c d : AnyConcept N) → concept_equals c d ≡ concept_equals d c
    unfolding concept_equals value_equals thing_equals type_equals
    concept_equals_comm (schema t) (schema u) =
        ground (arith, equals_iff (label_of u) (label_of t), equals_iff (label_of t) (label_of u))
    concept_equals_comm (thing t) (thing u) =
        same_text_comm (thing_fields u).iid (thing_fields t).iid
    concept_equals_comm (value v) (value w) = ground (
      arith,
      same_value_type_iff v.value_type w.value_type,
      same_value_type_iff w.value_type v.value_type,
      loosely_equal_comm v.value w.value,
    )
    concept_equals_comm (schema t) (thing u) = refl
    concept_equals_comm (schema t) (value w) = refl
    concept_equals_comm (thing t) (schema u) = refl
    concept_equals_comm (thing t) (value w) = refl
    concept_equals_comm (value v) (schema u) = refl
    concept_equals_comm (value v) (thing u) = refl
