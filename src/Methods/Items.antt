-- ===== src/Methods/Items.antt =====
-- What the streams of the methods of nodejs/concept deliver.
use typedb_client_java.Prelude.{List, [], ◌∷◌, ◌++◌, map, ap₂, ◌≡◌, refl, ap, ◌∙◌, sym, arith}
use mathlib.Core.List.{map-append}
use typedb_client_java.Effect.{Result, ok, err}
use typedb_client_java.Stream.{Stream, end, fails, item, array, flat_mapped, collect}
use typedb_client_java.Stream.Laws.{collect-items}
use typedb_client_java.Concept.Reading.{and_then}
use typedb_client_java.Concept.Overloads.{and_try, map_try}
use typedb_client_java.Query.{mapped_try}
use typedb_client_java.Query.Answers.{
  joined, collect-then_from, guarded, collect-array_or_fails, mapped_try-flat_mapped,
}
use typedb_client_java.Methods.Calls.{items_of, part_array}

module _ {M R P A : Type 0} (to_part : M → Result R) (items : R → Result (List P))
    (read : P → Result A) where
  -- The items of a message, read in order.
  abbrev pub read_message : M → Result (List A)
  read_message m = and_try (and_try (to_part m) items) (map_try read)

  -- The items of all messages; the first failure is the outcome.
  unfoldable pub read_messages : Stream M → Result (List A)
  read_messages end = ok []
  read_messages (fails e) = err e
  read_messages (item m s) =
      and_try (read_message m) λ xs. and_then (read_messages s) λ ys. xs ++ ys

  abbrev parts_read : Stream R → Stream A
  parts_read s = flat_mapped (λ r. mapped_try read (part_array items r)) s

  collect-guarded :
      (r : Result R) (s : Stream R)
      → collect (parts_read (guarded r s))
        ≡ joined (collect (parts_read s)) (and_try (and_try r items) (map_try read))
  unfolding flat_mapped part_array
  collect-guarded (ok r) s =
      collect-then_from (mapped_try read (part_array items r)) (parts_read s)
      ∙ ap (joined (collect (parts_read s))) (collect-array_or_fails read (items r))
  collect-guarded (err e) s = collect-items (fails e)

  collect-parts_read :
      (s : Stream M) → collect (parts_read (mapped_try to_part s)) ≡ read_messages s
  unfolding flat_mapped mapped_try read_messages
  collect-parts_read end = collect-items end
  collect-parts_read (fails e) = collect-items (fails e)
  collect-parts_read (item m s) =
      collect-guarded (to_part m) (mapped_try to_part s)
      ∙ ap (λ r. joined r (read_message m)) (collect-parts_read s)

  -- Collecting the stream of a method gives the items of the messages in order, or the first failure.
  pub collect-items_of : (s : Stream M) → collect (items_of to_part items read s) ≡ read_messages s
  unfolding items_of
  collect-items_of s =
      ap collect (mapped_try-flat_mapped read (part_array items) (mapped_try to_part s))
      ∙ collect-parts_read s

-- The lists one after the other.
unfoldable pub concat : {P : Type 0} → List (List P) → List P
concat [] = []
concat (ps ∷ pss) = ps ++ concat pss

map_try-ok : {P A : Type 0} (f : P → A) (ps : List P) → map_try (λ p. ok (f p)) ps ≡ ok (map f ps)
unfolding map_try
map_try-ok f [] = refl
map_try-ok f (p ∷ ps) = ground (arith, map_try-ok f ps)

module _ {M R P A : Type 0} (to_part : M → Result R) (items : R → Result (List P)) (f : P → A)
    (message : List P → M) where
  pub read_messages-array :
      ((ps : List P) → and_try (to_part (message ps)) items ≡ ok ps)
      → (pss : List (List P))
      → read_messages to_part items (λ p. ok (f p)) (array (map message pss))
        ≡ ok (map f (concat pss))
  unfolding read_messages array concat
  read_messages-array h [] = refl
  read_messages-array h (ps ∷ pss) =
      let message_read = ap (λ r. and_try r (map_try (λ p. ok (f p)))) (h ps) ∙ map_try-ok f ps in
      ap₂ (λ r s. and_try r (λ xs. and_then s (λ ys. xs ++ ys))) message_read
        (read_messages-array h pss)
      ∙ ap ok (sym (map-append f ps (concat pss)))
