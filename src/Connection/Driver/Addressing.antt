-- ===== src/Connection/Driver/Addressing.antt =====
-- The addresses of nodejs/connection/TypeDBDriverImpl.ts.
use text.Mathlib.Text.{◌==◌ as same_text}
use text.Mathlib.TextEquality.{eq_iff}
use typedb_client_java.Prelude.{
  ℕ, List, [], ◌∷◌, Option, none, some, String, Bool, true, not, ◌≡◌, ◌≢◌, refl, ap, ◌∙◌, sym, inl,
  inr, ◌↔◌, arith, All, Any, filter, if◌then◌else◌, Bool-cases,
}
use typedb_client_java.Prelude.Assoc.{Assoc, lookup, insert, values, lookup-insert}
use typedb_client_java.Effect.{Result, ok, err, ◌>>=◌, ◌>>◌}
use typedb_client_java.Connection.Network.{ServerDriver}
use typedb_client_java.Connection.Driver.{
  DriverState, Peers, listed, translated, identity, contains, has_public, unknown, unmapped,
  translation, mismatch, checked, connect, open_servers, await_any, set_user_manager, set_open,
  from_result,
}
use typedb_client_java.Answer.ConceptMap.Explain.{last_entry}

-- The address of the server driver under a key.
abbrev pub address_at : String → Assoc ServerDriver → Option String
address_at k t = elim (lookup k t) [ none ↦ none | some d ↦ some d.address ]

abbrev after_map : {S A B : Type 0} → (A → B) → Result A × S → Result B × S
after_map f p = elim p.0 [ ok a ↦ (ok (f a), p.1) | err e ↦ (err e, p.1) ]

after_map-state : {S A B : Type 0} (f : A → B) (p : Result A × S) → (after_map f p).1 ≡ p.1
after_map-state f (ok a, s) = refl
after_map-state f (err e, s) = refl

-- The address under a key once another key is set.
abbrev set_address : String → String → String → Option String → Option String
set_address set k address o = if same_text set k then some address else o

address_at-insert :
    (set k : String) (d : ServerDriver) (t : Assoc ServerDriver)
    → address_at k (insert set d t) ≡ set_address set k d.address (address_at k t)
address_at-insert set k d t = ground (arith, lookup-insert set k d t)

module _ {W : Type 0} (peers : Peers W) where
  -- The state after one entry of the translation.
  abbrev added : String → String → DriverState W → DriverState W
  added id address s =
      let (stub, w) = peers.new_stub (some address) s.world in
      record s {
        server_drivers = insert id (record { address = address; stub = stub }) s.server_drivers;
        world = w;
      }

  address_at-connect :
      (t : Assoc String) (s : DriverState W) (k : String)
      → address_at k (connect peers t s).1.server_drivers
        ≡ last_entry k t (address_at k s.server_drivers)
  unfolding connect
  address_at-connect [] s k = refl
  address_at-connect ((id, address) ∷ t) s k =
      ap (λ (u : DriverState W). address_at k u.server_drivers)
        (after_map-state (λ stubs. (peers.new_stub (some address) s.world).0 ∷ stubs)
          (connect peers t (added id address s)))
      ∙ address_at-connect t (added id address s) k
      ∙ ap (last_entry k t) (address_at-insert id k _ s.server_drivers)

  awaited_drivers :
      (p : Result (List ℕ) × DriverState W)
      → (((λ (_ : DriverState W). p)
            >>= await_any peers
            >> set_user_manager peers
            >> set_open peers)
          p.1).1.server_drivers
        ≡ p.1.server_drivers
  unfolding await_any set_user_manager set_open
  awaited_drivers (ok stubs, s) = ground arith
  awaited_drivers (err e, s) = refl

  address_at-open_servers :
      (t : Assoc String) (servers : List String) (s : DriverState W) (k : String)
      → translation s.init_addresses servers ≡ ok t
      → address_at k (open_servers peers servers s).1.server_drivers
        ≡ last_entry k t (address_at k s.server_drivers)
  unfolding open_servers from_result
  address_at-open_servers t servers s k h =
      rw h (ap (address_at k) (awaited_drivers (connect peers t s)) ∙ address_at-connect t s k)

last_entry-absent :
    (k : String) (t : Assoc String) → All (λ e. e.0 ≢ k) t → last_entry k t none ≡ none
last_entry-absent k [] h = refl
last_entry-absent k (e ∷ t) (h, hs) = ground (arith, last_entry-absent k t hs, eq_iff e.0 k)

-- A translation of addresses to themselves.
abbrev IsIdentity : Assoc String → Type 0
IsIdentity = All (λ e. e.1 ≡ e.0)

last_entry-some : (k : String) (t : Assoc String) → IsIdentity t → last_entry k t (some k) ≡ some k
last_entry-some k [] h = refl
last_entry-some k (e ∷ t) (h, hs) = ground (arith, last_entry-some k t hs, eq_iff e.0 k)

last_entry-insert :
    (a k : String) (t : Assoc String) (o : Option String)
    → IsIdentity t
    → last_entry k (insert a a t) o ≡ (if same_text a k then some k else last_entry k t o)
unfolding insert
last_entry-insert a k [] o h = ground (arith, eq_iff a k)
last_entry-insert a k (e ∷ t) o (h, hs) = ground (
  arith,
  last_entry-insert a k t o hs,
  last_entry-insert a k t (some k) hs,
  last_entry-some k t hs,
  eq_iff a k,
  eq_iff e.0 k,
  eq_iff e.0 a,
)

insert-IsIdentity : (a : String) (t : Assoc String) → IsIdentity t → IsIdentity (insert a a t)
unfolding insert
insert-IsIdentity a [] h = (refl, tt)
insert-IsIdentity a (e ∷ t) (h, hs) = elim (Bool-cases (same_text e.0 a)) [
  | inl same ↦ rw same (sym ((eq_iff e.0 a).0 same), hs)
  | inr other ↦ rw other (h, insert-IsIdentity a t hs)
]

-- The key is that of an entry, of the last of which it takes the address.
last_entry-identity :
    (servers : List String) (t : Assoc String) (k : String) (o : Option String)
    → IsIdentity t
    → last_entry k (identity servers t) o
      ≡ (if contains servers k then some k else last_entry k t o)
unfolding identity contains
last_entry-identity [] t k o h = refl
last_entry-identity (a ∷ rest) t k o h =
    last_entry-identity rest (insert a a t) k o (insert-IsIdentity a t h)
    ∙ ground (arith, last_entry-insert a k t o h)

contains-true_iff : (ys : List String) (x : String) → (contains ys x ≡ true) ↔ Any (λ y. y ≡ x) ys
unfolding contains
contains-true_iff [] x = (λ h. cc, λ h. elim h [ ])
contains-true_iff (y ∷ ys) x = ground (arith, contains-true_iff ys x, eq_iff y x)

filter-nil_iff :
    {A : Type 0} (p : A → Bool) (xs : List A)
    → (filter (λ x. not (p x)) xs ≡ []) ↔ All (λ x. p x ≡ true) xs
filter-nil_iff p [] = (λ h. tt, λ h. refl)
filter-nil_iff p (x ∷ xs) = ground (arith, filter-nil_iff p xs)

All-iff :
    {A : Type 0} (P Q : A → Type 0) → ((x : A) → P x → Q x) → (xs : List A) → All P xs → All Q xs
All-iff P Q f [] h = tt
All-iff P Q f (x ∷ xs) (h, hs) = (f x h, All-iff P Q f xs hs)

has_public-true_iff :
    (t : Assoc String) (a : String)
    → All (λ e. e.0 ≢ "") t
    → (has_public t a ≡ true) ↔ Any (λ e. e.1 ≡ a) t
unfolding has_public
has_public-true_iff [] a h = (λ h. cc, λ h. elim h [ ])
has_public-true_iff (e ∷ t) a (h, hs) =
    ground (arith, has_public-true_iff t a hs, eq_iff e.1 a, eq_iff e.0 "")

checked-ok_iff :
    (t : Assoc String) (us ms : List String)
    → (checked t (mismatch us ms) ≡ ok t) ↔ ((us ≡ []) × (ms ≡ []))
unfolding checked mismatch
checked-ok_iff t [] [] = (λ h. (refl, refl), λ h. refl)
checked-ok_iff t (u ∷ us) ms = (λ h. cc, λ h. cc)
checked-ok_iff t [] (m ∷ ms) = (λ h. cc, λ h. cc)

-- A translation whose public addresses are not empty is accepted exactly when each private address in
-- it is advertised by the servers, and each advertised address is a private address in it.
pub translation-accepts :
    (t : Assoc String) (servers : List String)
    → All (λ e. e.0 ≢ "") t
    → (translation (translated t) servers ≡ ok t)
      ↔ (All (λ a. Any (λ b. b ≡ a) servers) (values t) × All (λ a. Any (λ e. e.1 ≡ a) t) servers)
unfolding translation unknown unmapped
translation-accepts t servers h =
    let us = filter-nil_iff (contains servers) (values t) in
    let ms = filter-nil_iff (has_public t) servers in
    let both = checked-ok_iff t (unknown t servers) (unmapped t servers) in
    (
      λ accepted. (
        All-iff _ _ (λ a. (contains-true_iff servers a).0) (values t) (us.0 (both.0 accepted).0),
        All-iff _ _ (λ a. (has_public-true_iff t a h).0) servers (ms.0 (both.0 accepted).1),
      ),
      λ (known, mapped). both.1 (
        us.1 (All-iff _ _ (λ a. (contains-true_iff servers a).1) (values t) known),
        ms.1 (All-iff _ _ (λ a. (has_public-true_iff t a h).1) servers mapped),
      ),
    )

module _ {W : Type 0} (peers : Peers W) (servers : List String) (s : DriverState W)
    (k : String) where
  -- Without a translation, `openCloud` leaves each advertised address under its own name, whether a
  -- server could be reached or not; other names keep what they had.
  pub open_servers-listed :
      (given : List String)
      → s.init_addresses ≡ listed given
      → (Any (λ a. a ≡ k) servers
          → address_at k (open_servers peers servers s).1.server_drivers ≡ some k)
        × (¬ Any (λ a. a ≡ k) servers
            → address_at k (open_servers peers servers s).1.server_drivers
              ≡ address_at k s.server_drivers)
  unfolding translation
  open_servers-listed given h =
      let at =
        address_at-open_servers peers (identity servers []) servers s k (rw h refl)
        ∙ last_entry-identity servers [] k (address_at k s.server_drivers) tt in
      (
        λ there. at ∙ ground (arith, contains-true_iff servers k),
        λ absent. at ∙ ground (arith, contains-true_iff servers k),
      )

  -- With an accepted translation, a new driver knows the servers by their public names only: a name
  -- that is no public name in it is not found, even where the servers advertise it.
  pub open_servers-translated :
      (t : Assoc String)
      → translation s.init_addresses servers ≡ ok t
      → s.server_drivers ≡ []
      → ((a : String)
          → last_entry k t none ≡ some a
          → address_at k (open_servers peers servers s).1.server_drivers ≡ some a)
        × (All (λ e. e.0 ≢ k) t
            → address_at k (open_servers peers servers s).1.server_drivers ≡ none)
  unfolding lookup
  open_servers-translated t h none_yet =
      let at =
        address_at-open_servers peers t servers s k h
        ∙ ap (λ d. last_entry k t (address_at k d)) none_yet in
      (λ a there. at ∙ there, λ absent. at ∙ last_entry-absent k t absent)
