-- ===== src/Query/Readers/Concepts.antt =====
-- The concepts that the answers of nodejs/query/QueryManagerImpl.ts have for their variables.
use text.Mathlib.Text.{◌==◌}
use typedb_client_java.Prelude.{
  ℕ, String, List, [], ◌∷◌, ◌++◌, Option, none, some, Bool, true, false, ◌≡◌, refl, ap, ◌∙◌, sym,
  subst, arith, if◌then◌else◌,
}
use typedb_client_java.Prelude.Assoc.{Assoc}
use typedb_client_java.Effect.{Result, ok, err}
use typedb_client_java.Stream.{Stream, end, fails, item, collect}
use typedb_client_java.Answer.ConceptMap.{ConceptMapProto, ConceptMap, of_proto}
use typedb_client_java.Answer.ConceptMap
use typedb_client_java.Answer.ConceptMap.Explain.{last_entry, map_some, get-of_proto}
use typedb_client_java.Answer.Groups.{read_entry, concept_map_of}
use typedb_client_java.Concept.{AnyConcept}
use typedb_client_java.Concept.Bytes.{Hex}
use typedb_client_java.Concept.Reading.{ConceptProto, and_then, concept_of}
use typedb_client_java.Concept.Overloads.{and_try, map_try}
use typedb_client_java.Connection.Options.{Options}
use typedb_client_java.Query.{
  Kind, ResPart, TransactionReq, part_answers, get_req, request, get_query,
}
use typedb_client_java.Query.Answers.{read_all, collect-answers}
use typedb_client_java.Query.Readers.{Message, Answer, read, get}

-- Two lists whose elements are related one by one.
abbrev pub Pairs : {A B : Type 0} → (A → B → Type 0) → List A → List B → Type 0
Pairs R [] [] = Unit
Pairs R [] (y ∷ ys) = ⊥
Pairs R (x ∷ xs) [] = ⊥
Pairs R (x ∷ xs) (y ∷ ys) = R x y × Pairs R xs ys

Pairs-append :
    {A B : Type 0} (R : A → B → Type 0) (xs xs' : List A) (ys ys' : List B)
    → Pairs R xs ys
    → Pairs R xs' ys'
    → Pairs R (xs ++ xs') (ys ++ ys')
Pairs-append R [] xs' [] ys' h k = k
Pairs-append R [] xs' (y ∷ ys) ys' h k = elim h [ ]
Pairs-append R (x ∷ xs) xs' [] ys' h k = elim h [ ]
Pairs-append R (x ∷ xs) xs' (y ∷ ys) ys' (p, h) k = (p, Pairs-append R xs xs' ys ys' h k)

-- What a result that is a value comes from.
and_try-ok :
    {A B : Type 0} (r : Result A) (f : A → Result B) (b : B)
    → and_try r f ≡ ok b
    → (a : A) × (r ≡ ok a) × (f a ≡ ok b)
and_try-ok (ok a) f b h = (a, refl, h)
and_try-ok (err e) f b h = cc

and_then-ok :
    {A B : Type 0} (r : Result A) (f : A → B) (b : B)
    → and_then r f ≡ ok b
    → (a : A) × (r ≡ ok a) × (f a ≡ b)
and_then-ok (ok a) f b h = (a, refl, cc)
and_then-ok (err e) f b h = cc

map_try-Pairs :
    {A B : Type 0} (f : A → Result B) (xs : List A) (ys : List B)
    → map_try f xs ≡ ok ys
    → Pairs (λ x y. f x ≡ ok y) xs ys
unfolding map_try
map_try-Pairs f [] [] h = tt
map_try-Pairs f [] (y ∷ ys) h = cc
map_try-Pairs f (x ∷ xs) ys h =
    let (y, first, more) = and_try-ok (f x) (λ y. and_then (map_try f xs) λ ys. y ∷ ys) ys h in
    let (rest, read_rest, whole) = and_then-ok (map_try f xs) (λ ys. y ∷ ys) ys more in
    subst (λ zs. Pairs (λ x y. f x ≡ ok y) (x ∷ xs) zs) whole
      (first, map_try-Pairs f xs rest read_rest)

map_some-same : {C : Type 0} (o : Option C) → map_some (λ c. c) o ≡ o
map_some-same none = refl
map_some-same (some c) = refl

Pairs-weaken :
    {A B : Type 0} (R Q : A → B → Type 0) (xs : List A) (ys : List B)
    → ((x : A) (y : B) → R x y → Q x y)
    → Pairs R xs ys
    → Pairs Q xs ys
Pairs-weaken R Q [] [] h k = k
Pairs-weaken R Q [] (y ∷ ys) h k = elim k [ ]
Pairs-weaken R Q (x ∷ xs) [] h k = elim k [ ]
Pairs-weaken R Q (x ∷ xs) (y ∷ ys) h (p, k) = (h x y p, Pairs-weaken R Q xs ys h k)

-- The answers in the parts of a response, as the server sent them.
unfoldable pub messages :
    {P : Kind → Type 0} → (k : Kind) → Stream (ResPart P) → Result (List (P k))
messages k end = ok []
messages k (fails e) = err e
messages k (item part s) =
    and_try (part_answers k part) λ ps. and_then (messages k s) λ qs. ps ++ qs

read_all-Pairs :
    {P A : Kind → Type 0} (read : (k : Kind) → P k → Result (A k)) (k : Kind)
    (s : Stream (ResPart P)) (ms : List (A k))
    → read_all read k s ≡ ok ms
    → (ps : List (P k)) × (messages k s ≡ ok ps) × Pairs (λ p m. read k p ≡ ok m) ps ms
unfolding read_all messages
read_all-Pairs read k end [] h = ([], refl, tt)
read_all-Pairs read k end (m ∷ ms) h = cc
read_all-Pairs read k (fails e) ms h = cc
read_all-Pairs read k (item part s) ms h =
    let (xs, first, more) =
      and_try-ok (and_try (part_answers k part) (map_try (read k)))
        (λ xs. and_then (read_all read k s) λ ys. xs ++ ys) ms h in
    let (ps, sent, each) = and_try-ok (part_answers k part) (map_try (read k)) xs first in
    let (ys, later, whole) = and_then-ok (read_all read k s) (λ ys. xs ++ ys) ms more in
    let (qs, sent_later, each_later) = read_all-Pairs read k s ys later in
    (
      ps ++ qs,
      ground (arith, sent, sent_later),
      subst (λ zs. Pairs (λ p m. read k p ≡ ok m) (ps ++ qs) zs) whole
          (Pairs-append (λ p m. read k p ≡ ok m) ps qs xs ys (map_try-Pairs (read k) ps xs each)
            each_later),
    )

module _ {N : Type 0} (hex : Hex) (fresh : ℕ) where
  -- A variable that has a concept in one has what is read of it in the other.
  abbrev pub Shown : Option (ConceptProto N) → Option (Option (AnyConcept N)) → Type 0
  Shown none none = Unit
  Shown none (some c) = ⊥
  Shown (some p) none = ⊥
  Shown (some p) (some c) = concept_of hex fresh p ≡ ok c

  abbrev pub IsAnswer :
      ConceptMapProto (ConceptProto N) → ConceptMap (Option (AnyConcept N)) → Type 0
  IsAnswer p m =
      (variable : String) → Shown (last_entry variable p.entries none) (ConceptMap.get variable m)

  Shown-if :
      (b : Bool) (p : ConceptProto N) (c : Option (AnyConcept N)) (o : Option (ConceptProto N))
      (q : Option (Option (AnyConcept N)))
      → concept_of hex fresh p ≡ ok c
      → Shown o q
      → Shown (if b then some p else o) (if b then some c else q)
  Shown-if true p c o q h k = h
  Shown-if false p c o q h k = k

  read_entry-ok :
      (j i : String) (p : ConceptProto N) (c : Option (AnyConcept N))
      → read_entry hex fresh (j, p) ≡ ok (i, c)
      → (j ≡ i) × (concept_of hex fresh p ≡ ok c)
  unfolding read_entry
  read_entry-ok j i p c h =
      let (d, at, same) = and_then-ok (concept_of hex fresh p) (λ d. (j, d)) (i, c) h in
      (ap (λ e. e.0) same, at ∙ ap (λ e. ok e.1) same)

  last_entry-Shown :
      (v : String) (es : Assoc (ConceptProto N)) (fs : Assoc (Option (AnyConcept N)))
      (o : Option (ConceptProto N)) (q : Option (Option (AnyConcept N)))
      → Pairs (λ e f. read_entry hex fresh e ≡ ok f) es fs
      → Shown o q
      → Shown (last_entry v es o) (last_entry v fs q)
  last_entry-Shown v [] [] o q h k = k
  last_entry-Shown v [] (f ∷ fs) o q h k = elim h [ ]
  last_entry-Shown v (e ∷ es) [] o q h k = elim h [ ]
  last_entry-Shown v ((j, p) ∷ es) ((i, c) ∷ fs) o q (h, hs) k =
      let (same, at) = read_entry-ok j i p c h in
      last_entry-Shown v es fs (if j == v then some p else o) (if i == v then some c else q) hs (
        subst (λ (n : String). Shown (if j == v then some p else o) (if n == v then some c else q))
          same (Shown-if (j == v) p c o q at k))

  concept_map_of-IsAnswer :
      (p : ConceptMapProto (ConceptProto N)) (m : ConceptMap (Option (AnyConcept N)))
      → concept_map_of hex fresh p ≡ ok m
      → IsAnswer p m
  unfolding concept_map_of
  concept_map_of-IsAnswer p m h v =
      let (es, entries, made) = and_then-ok (map_try (read_entry hex fresh) p.entries) _ m h in
      subst (Shown (last_entry v p.entries none))
        (sym (map_some-same (last_entry v es none))
          ∙ sym (get-of_proto (λ c. c) (record { entries = es; explainables = p.explainables }) v)
          ∙ ap (ConceptMap.get v) made)
        (last_entry-Shown v p.entries es none none
          (map_try-Pairs (read_entry hex fresh) p.entries es entries) tt)

module _ {N : Type 0} (iso : N → Result String) (hex : Hex) (fresh : ℕ)
    (rpc_stream : TransactionReq → Stream (ResPart (Message N))) where
  -- Where collecting the stream of a get query gives answers, there is one for each message that the
  -- server sent, in order, and in it every variable has the concept that is read from the last entry
  -- of the message with its name, and no other variable has one.
  pub collect-get :
      (q : String) (o : Option Options) (ms : List (Answer N Kind.get))
      → collect (get iso hex fresh rpc_stream q o) ≡ ok ms
      → (ps : List (Message N Kind.get)) × (messages Kind.get (rpc_stream (request (get_req q) o))
          ≡ ok ps)
        × Pairs (IsAnswer hex fresh) ps ms
  unfolding get get_query read
  collect-get q o ms h =
      let req = request (get_req q) o in
      let all = sym (collect-answers (read iso hex fresh) Kind.get rpc_stream req).0 ∙ h in
      let (ps, sent, each) = read_all-Pairs (read iso hex fresh) Kind.get (rpc_stream req) ms all in
      (
        ps,
        sent,
        Pairs-weaken (λ p m. read iso hex fresh Kind.get p ≡ ok m) (IsAnswer hex fresh) ps ms
            (concept_map_of-IsAnswer hex fresh) each,
      )
