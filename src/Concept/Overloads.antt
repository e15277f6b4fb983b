-- ===== src/Concept/Overloads.antt =====
-- The methods of nodejs/concept that tell their overloads apart by what their arguments are, and the
-- requests of nodejs/common/rpc/RequestBuilder.ts that they send.
pub mod Decoding
use typedb_client_java.Prelude.{ℕ, String, List, [], ◌∷◌, Option, none, some, Bool, true, false}
use typedb_client_java.Errors.Templates.{Concept, concept}
use typedb_client_java.Errors.DriverError.{Thrown, js, fail_with}
use typedb_client_java.Effect.{Result, ok, err}
use typedb_client_java.Answer.Label.{Label}
use typedb_client_java.Concept.{ValueType, SchemaType, label_of}
use typedb_client_java.Concept.Annotations.{Annotation, TypeAnnotation, annotation_proto}
use typedb_client_java.Concept.Casting.{ThingTypeProto, thing_type_proto}
use typedb_client_java.Concept.Bytes.{Hex, hex_string_to_bytes}
use typedb_client_java.Concept.Reading.{and_then}

pub data Transitivity : Type 0 where
  transitive explicit : Transitivity

-- An element of an array argument.
pub data Element : Type 0 where
  annotation : Annotation → Element
  attribute_type : SchemaType → Element

-- An argument.
pub data Arg : Type 0 where
  undefined : Arg
  value_type : ValueType → Arg
  transitivity : Transitivity → Arg
  a_type : SchemaType → Arg
  array : List Element → Arg

-- The requests; an attribute type is named by its label.
pub data TransactionReq : Type 0 where
  get_owns :
      (label : String)
      → Option ValueType
      → List TypeAnnotation
      → Option Transitivity
      → TransactionReq
  set_owns :
      (label type : String) → (overridden : Option String) → List TypeAnnotation → TransactionReq
  get_subtypes : (label : String) → Transitivity → Option ValueType → TransactionReq
  get_type_owners : (label : String) → Option Transitivity → List TypeAnnotation → TransactionReq
  get_has : (iid : List ℕ) → (types : List String) → List TypeAnnotation → TransactionReq
  get_owners : (iid : List ℕ) → Option ThingTypeProto → TransactionReq

abbrev pub and_try {ℓ κ} : {A : Type ℓ} {B : Type κ} → Result A → (A → Result B) → Result B
and_try (ok a) f = f a
and_try (err e) f = err e

unfoldable pub assertion_error : Thrown
assertion_error = js "AssertionError"

-- `assert(typeof arg === "undefined")`
unfoldable pub assert_undefined : Arg → Result (Unit {0})
unfolding assertion_error
assert_undefined undefined = ok tt
assert_undefined _ = err assertion_error

-- `Annotation.proto`; `shown` is what a type that is no annotation shows as.
unfoldable pub annotation_of : (shown : SchemaType → String) → Element → Result TypeAnnotation
annotation_of shown (annotation a) = ok (annotation_proto a)
annotation_of shown (attribute_type t) =
    err (fail_with (concept Concept.bad_annotation) (shown t ∷ []))

-- `AttributeType.proto`, which reads the label's name.
unfoldable pub type_name_of : Element → Result String
type_name_of (annotation a) =
    err (js "TypeError: Cannot read properties of undefined (reading 'name')")
type_name_of (attribute_type t) = ok (label_of t).name

-- `xs.map(f)` with a function that may throw.
unfoldable pub map_try {ℓ κ} : {A : Type ℓ} {B : Type κ} → (A → Result B) → List A → Result (List B)
map_try f [] = ok []
map_try f (x ∷ xs) = and_try (f x) λ y. and_then (map_try f xs) λ ys. y ∷ ys

module _ (shown : SchemaType → String) where
  abbrev pub annotations_of : List Element → Result (List TypeAnnotation)
  annotations_of = map_try (annotation_of shown)

  -- `getOwns`: the last `if`, on the arguments that are left.
  unfoldable pub owns_transitivity : Arg → Arg → Arg → Result (Option Transitivity)
  unfolding assert_undefined
  owns_transitivity (transitivity t) b c =
      and_try (assert_undefined b) λ _. and_then (assert_undefined c) λ _. some t
  owns_transitivity _ b c = ok none

  -- The second `if`.
  unfoldable pub owns_annotations :
      String → Option ValueType → Arg → Arg → Arg → Result TransactionReq
  unfolding owns_transitivity assert_undefined annotation_of
  owns_annotations label v (array xs) b c = and_try (assert_undefined c) λ _.
      and_try (annotations_of xs)
        λ as_protos. and_then (owns_transitivity b undefined c) λ t. get_owns label v as_protos t
  owns_annotations label v a b c = and_then (owns_transitivity a b c) λ t. get_owns label v [] t

  unfoldable pub get_owns_call : Label → Arg → Arg → Arg → Result TransactionReq
  unfolding owns_annotations
  get_owns_call label (value_type v) b c = owns_annotations label.name (some v) b c undefined
  get_owns_call label a b c = owns_annotations label.name none a b c

  -- `Array.isArray(maybeAnnotations) ? ... : []`
  unfoldable pub optional_annotations : Arg → Result (List TypeAnnotation)
  unfolding annotation_of
  optional_annotations (array xs) = annotations_of xs
  optional_annotations _ = ok []

  -- `AttributeType.proto` of an argument that is not `undefined` and no array.
  unfoldable pub argument_name : Arg → Result String
  argument_name (a_type t) = ok (label_of t).name
  argument_name _ = err (js "TypeError: Cannot read properties of undefined (reading 'name')")

  unfoldable pub set_owns_call : Label → SchemaType → Arg → Arg → Result TransactionReq
  unfolding assert_undefined annotation_of optional_annotations argument_name
  set_owns_call label type undefined b =
      and_then (assert_undefined b) λ _. set_owns label.name (label_of type).name none []
  set_owns_call label type (array xs) b =
      and_try (assert_undefined b)
        λ _. and_then (annotations_of xs) (set_owns label.name (label_of type).name none)
  set_owns_call label type a b = and_try (argument_name a) λ over.
      and_then (optional_annotations b) (set_owns label.name (label_of type).name (some over))

  -- `getSubtypes` of an attribute type, of arguments that are `undefined`, a value type or a transitivity.
  unfoldable pub get_subtypes_call : Label → Arg → Arg → Result TransactionReq
  unfolding assert_undefined
  get_subtypes_call label undefined b =
      and_then (assert_undefined b) λ _. get_subtypes label.name transitive none
  get_subtypes_call label (transitivity t) b =
      and_then (assert_undefined b) λ _. get_subtypes label.name t none
  get_subtypes_call label (value_type v) (transitivity t) = ok (get_subtypes label.name t (some v))
  get_subtypes_call label (value_type v) undefined =
      ok (get_subtypes label.name transitive (some v))
  get_subtypes_call label a b = err (js "TypeError: proto is not a function")

  unfoldable pub type_owners : String → List TypeAnnotation → Arg → Arg → Result TransactionReq
  unfolding assert_undefined
  type_owners label as_protos (transitivity t) b =
      and_then (assert_undefined b) λ _. get_type_owners label (some t) as_protos
  type_owners label as_protos a b = ok (get_type_owners label none as_protos)

  -- `getOwners` of an attribute type.
  unfoldable pub get_type_owners_call : Label → Arg → Arg → Result TransactionReq
  unfolding type_owners annotation_of
  get_type_owners_call label (array xs) b =
      and_try (annotations_of xs) λ as_protos. type_owners label.name as_protos b undefined
  get_type_owners_call label a b = type_owners label.name [] a b

  -- `asArray.length == 0 || asArray[0] instanceof AttributeTypeImpl`
  unfoldable pub names_types : List Element → Bool
  names_types [] = true
  names_types (attribute_type (SchemaType.attribute_type t v) ∷ xs) = true
  names_types (_ ∷ xs) = false

  module _ (hex : Hex) (show : ℕ → String) where
    unfoldable pub has_req : String → List String → List TypeAnnotation → Result TransactionReq
    has_req iid types as_protos =
        and_then (hex_string_to_bytes hex show iid) λ bytes. get_has bytes types as_protos

    unfoldable pub has_types : String → Result (List String) → Arg → Result TransactionReq
    unfolding optional_annotations has_req
    has_types iid types b =
        and_try types λ names. and_try (optional_annotations b) (has_req iid names)

    -- `getHas` of the thing with this IID.
    unfoldable pub get_has_call : String → Arg → Arg → Result TransactionReq
    unfolding assert_undefined has_req has_types annotation_of type_name_of names_types
        assertion_error
    get_has_call iid undefined b = and_try (assert_undefined b) λ _. has_req iid [] []
    get_has_call iid (array xs) b = elim (names_types xs) [
      | true ↦ has_types iid (map_try type_name_of xs) b
      | false ↦ and_try (assert_undefined b) λ _. and_try (annotations_of xs) (has_req iid [])
    ]
    get_has_call iid (a_type (SchemaType.attribute_type t v)) b =
        and_try (assert_undefined b) λ _. has_req iid (t.label.name ∷ []) []
    get_has_call iid a b = err assertion_error

    -- `getOwners` of the attribute with this IID.
    unfoldable pub get_owners_call :
        (N : Type 0) → String → Option SchemaType → Result TransactionReq
    get_owners_call N iid none =
        and_then (hex_string_to_bytes hex show iid) λ bytes. get_owners bytes none
    get_owners_call N iid (some t) =
        and_try (thing_type_proto N t)
          λ p. and_then (hex_string_to_bytes hex show iid) λ bytes. get_owners bytes (some p)
