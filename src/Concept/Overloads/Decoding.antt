-- ===== src/Concept/Overloads/Decoding.antt =====
-- What the overloads of the methods of nodejs/concept ask of the server.
use typedb_client_java.Prelude.{
  ℕ, zero, suc, String, List, [], ◌∷◌, map, Option, none, some, ◌≡◌, true, refl, arith,
}
use typedb_client_java.Errors.Templates.{Internal, internal}
use typedb_client_java.Errors.DriverError.{fail_with}
use typedb_client_java.Effect.{Result, ok, err}
use typedb_client_java.Answer.Label.{Label}
use typedb_client_java.Concept.{ValueType, SchemaType, TypeFields, label_of, type_fields}
use typedb_client_java.Concept.Annotations.{Annotation, TypeAnnotation, annotation_proto}
use typedb_client_java.Concept.Casting.Interfaces.{thing_type_proto-Refuses}
use typedb_client_java.Concept.Bytes.{Hex, hex_string_to_bytes}
use typedb_client_java.Concept.Overloads.{
  Transitivity, transitive, Arg, Element, undefined, array, a_type, value_type, transitivity,
  annotation, attribute_type, get_owns, set_owns, get_subtypes, get_type_owners, get_has,
  get_owners, get_owns_call, set_owns_call, get_subtypes_call, get_type_owners_call, get_has_call,
  get_owners_call, map_try, annotations_of, owns_transitivity, owns_annotations, argument_name,
  type_owners, names_types, type_name_of, has_req, has_types, assert_undefined,
  optional_annotations, annotation_of,
}

-- An optional argument is left out, so that those after it move up.
abbrev pub given {ℓ} : {A : Type ℓ} → (A → Arg) → Option A → List Arg → List Arg
given f none rest = rest
given f (some a) rest = f a ∷ rest

abbrev pub arg : ℕ → List Arg → Arg
arg n [] = undefined
arg zero (a ∷ rest) = a
arg (suc n) (a ∷ rest) = arg n rest

abbrev pub annotation_array : List Annotation → Arg
annotation_array xs = array (map annotation xs)

abbrev pub protos : Option (List Annotation) → List TypeAnnotation
protos none = []
protos (some xs) = map annotation_proto xs

map_try-map :
    {A B C : Type 0} (f : B → Result C) (g : A → B) (h : A → C)
    → ((a : A) → f (g a) ≡ ok (h a))
    → (xs : List A) → map_try f (map g xs) ≡ ok (map h xs)
unfolding map_try
map_try-map f g h each [] = refl
map_try-map f g h each (x ∷ xs) = rw (each x, map_try-map f g h each xs) refl

abbrev pub name_if : Option SchemaType → Option String
name_if none = none
name_if (some t) = some (label_of t).name

abbrev pub or_transitive : Option Transitivity → Transitivity
or_transitive none = transitive
or_transitive (some t) = t

module _ (shown : SchemaType → String) where
  annotations_of-array :
      (xs : List Annotation)
      → annotations_of shown (map annotation xs) ≡ ok (map annotation_proto xs)
  unfolding annotation_of
  annotations_of-array xs =
      map_try-map (annotation_of shown) annotation annotation_proto (λ a. refl) xs

  module _ (label : Label) where
    -- Every overload of `getOwns` asks for the value type, the annotations and the transitivity that are
    -- given, in this order, and leaves unset those that are not.
    pub get_owns_call-overloads :
        (v : Option ValueType) (xs : Option (List Annotation)) (t : Option Transitivity)
        → let args : List Arg =
            given value_type v (given annotation_array xs (given transitivity t [])) in
          get_owns_call shown label (arg 0 args) (arg 1 args) (arg 2 args)
          ≡ ok (get_owns label.name v (protos xs) t)
    unfolding get_owns_call owns_annotations owns_transitivity assert_undefined
    get_owns_call-overloads none none none = refl
    get_owns_call-overloads none none (some t) = refl
    get_owns_call-overloads none (some xs) none = rw (annotations_of-array xs) refl
    get_owns_call-overloads none (some xs) (some t) = rw (annotations_of-array xs) refl
    get_owns_call-overloads (some v) none none = refl
    get_owns_call-overloads (some v) none (some t) = refl
    get_owns_call-overloads (some v) (some xs) none = rw (annotations_of-array xs) refl
    get_owns_call-overloads (some v) (some xs) (some t) = rw (annotations_of-array xs) refl

    -- Every overload of `setOwns` sends the attribute type, the overridden type and the annotations that
    -- are given.
    pub set_owns_call-overloads :
        (type : SchemaType) (over : Option SchemaType) (xs : Option (List Annotation))
        → let args : List Arg = given a_type over (given annotation_array xs []) in
          set_owns_call shown label type (arg 0 args) (arg 1 args)
          ≡ ok (set_owns label.name (label_of type).name (name_if over) (protos xs))
    unfolding set_owns_call assert_undefined optional_annotations argument_name
    set_owns_call-overloads type none none = refl
    set_owns_call-overloads type none (some xs) = rw (annotations_of-array xs) refl
    set_owns_call-overloads type (some o) none = refl
    set_owns_call-overloads type (some o) (some xs) = rw (annotations_of-array xs) refl

    subtypes :
        (v : Option ValueType) (t : Option Transitivity)
        → let args : List Arg = given value_type v (given transitivity t []) in
          get_subtypes_call shown label (arg 0 args) (arg 1 args)
          ≡ ok (get_subtypes label.name (or_transitive t) v)
    unfolding get_subtypes_call assert_undefined
    subtypes none none = refl
    subtypes none (some t) = refl
    subtypes (some v) none = refl
    subtypes (some v) (some t) = refl

    owners :
        (xs : Option (List Annotation)) (t : Option Transitivity)
        → let args : List Arg = given annotation_array xs (given transitivity t []) in
          get_type_owners_call shown label (arg 0 args) (arg 1 args)
          ≡ ok (get_type_owners label.name t (protos xs))
    unfolding get_type_owners_call type_owners assert_undefined
    owners none none = refl
    owners none (some t) = refl
    owners (some xs) none = rw (annotations_of-array xs) refl
    owners (some xs) (some t) = rw (annotations_of-array xs) refl

    -- Every overload of an attribute type's `getSubtypes` and `getOwners` asks for what is given; where
    -- no transitivity is given, `getSubtypes` asks for the transitive one and `getOwners` leaves it unset.
    pub attribute_type-overloads :
        (v : Option ValueType) (xs : Option (List Annotation)) (t : Option Transitivity)
        → let of_value : List Arg = given value_type v (given transitivity t []) in
          let of_annotations : List Arg = given annotation_array xs (given transitivity t []) in
          (get_subtypes_call shown label (arg 0 of_value) (arg 1 of_value)
            ≡ ok (get_subtypes label.name (or_transitive t) v))
          × (get_type_owners_call shown label (arg 0 of_annotations) (arg 1 of_annotations)
              ≡ ok (get_type_owners label.name t (protos xs)))
    unfolding get_subtypes_call get_type_owners_call type_owners assert_undefined
    attribute_type-overloads v xs t = (subtypes v t, owners xs t)

  module _ (hex : Hex) (show : ℕ → String) (iid : String) (bytes : List ℕ)
      (readable : hex_string_to_bytes hex show iid ≡ ok bytes) where
    abbrev type_elements : List (TypeFields × Option ValueType) → List Element
    type_elements = map (λ f. attribute_type (SchemaType.attribute_type f.0 f.1))

    abbrev type_names : List (TypeFields × Option ValueType) → List String
    type_names = map (λ f. (f.0).label.name)

    names_types-elements :
        (ts : List (TypeFields × Option ValueType)) → names_types shown (type_elements ts) ≡ true
    unfolding names_types
    names_types-elements [] = refl
    names_types-elements (f ∷ ts) = refl

    type_names-elements :
        (ts : List (TypeFields × Option ValueType))
        → map_try type_name_of (type_elements ts) ≡ ok (type_names ts)
    unfolding type_name_of label_of type_fields
    type_names-elements =
        map_try-map type_name_of
          (λ (f : TypeFields × Option ValueType).
            attribute_type (SchemaType.attribute_type f.0 f.1))
          _ (λ f. refl)

    has_of_types :
        (ts : List (TypeFields × Option ValueType)) (ys : Option (List Annotation))
        → get_has_call shown hex show iid
            (array (type_elements ts))
            (arg 0 (given annotation_array ys []))
          ≡ ok (get_has bytes (type_names ts) (protos ys))
    unfolding get_has_call has_req has_types optional_annotations
    has_of_types ts none = ground (arith, names_types-elements ts, type_names-elements ts, readable)
    has_of_types ts (some ys) =
        ground (
          arith,
          names_types-elements ts,
          type_names-elements ts,
          annotations_of-array ys,
          readable,
        )

    -- `getHas` of a thing asks for the attribute types and the annotations that are given: one type, some
    -- annotations that are not the empty array, or an array of types with annotations or without.
    pub get_has_call-overloads :
        (f : TypeFields) (v : Option ValueType) (a : Annotation) (xs : List Annotation)
        (ts : List (TypeFields × Option ValueType)) (ys : Option (List Annotation))
        → let types : Arg = array (type_elements ts) in
          let more : List Arg = given annotation_array ys [] in
          (get_has_call shown hex show iid undefined undefined ≡ ok (get_has bytes [] []))
          × (get_has_call shown hex show iid (a_type (SchemaType.attribute_type f v)) undefined
              ≡ ok (get_has bytes (f.label.name ∷ []) []))
          × (get_has_call shown hex show iid (annotation_array (a ∷ xs)) undefined
              ≡ ok (get_has bytes [] (map annotation_proto (a ∷ xs))))
          × (get_has_call shown hex show iid types (arg 0 more)
              ≡ ok (get_has bytes (type_names ts) (protos ys)))
    unfolding get_has_call has_req has_types assert_undefined
    get_has_call-overloads f v a xs ts ys = (
      rw readable refl,
      rw readable refl,
      rw (annotations_of-array (a ∷ xs), readable) refl,
      has_of_types ts ys,
    )

    -- `getOwners` of an attribute asks for all owners, and throws where an owner type is given.
    pub get_owners_call-overloads :
        (N : Type 0)
        → (get_owners_call shown hex show N iid none ≡ ok (get_owners bytes none))
          × ((t : SchemaType)
              → get_owners_call shown hex show N iid (some t)
                ≡ err (fail_with (internal Internal.illegal_state) []))
    unfolding get_owners_call
    get_owners_call-overloads N = (rw readable refl, λ t. rw (thing_type_proto-Refuses N t) refl)
