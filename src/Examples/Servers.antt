-- ===== src/Examples/Servers.antt =====
-- nodejs/connection/TypeDBDriverImpl.ts.
use text.Mathlib.TextEquality.{eq_iff}
use typedb_client_java.Prelude.{
  arith, ℕ, String, List, [], ◌∷◌, none, some, true, false, zero, suc, ◌≡◌, ◌≢◌, refl, ◌+◌, All,
  Any, ◌↔◌,
}
use typedb_client_java.Prelude.Assoc.{Assoc, lookup, values}
use typedb_client_java.Effect.{ok, err}
use typedb_client_java.Errors.DriverError.{js}
use typedb_client_java.Connection.Driver.{
  DriverState, Peers, Addresses, listed, translated, translation, open_servers,
}
use typedb_client_java.Connection.Driver.Addressing.{
  address_at, translation-accepts, open_servers-listed, open_servers-translated,
}

-- The world counts the stubs; those with an odd number cannot be opened.
abbrev peers : Peers ℕ
peers = record {
  new_stub = λ address n. (n, n + 1);
  open_stub = λ stub n. (elim stub [ zero ↦ ok tt | suc _ ↦ err (js "unreachable") ], n);
  servers_all = λ stub n. (ok ("a:1" ∷ "b:1" ∷ []), n);
  open_session = λ database type n. (ok (n, "s1"), n + 1);
}

abbrev driver_of : Addresses → DriverState ℕ
driver_of addresses = record {
  is_open = false;
  is_cloud = true;
  init_addresses = addresses;
  username = "admin";
  server_drivers = [];
  user_manager = false;
  sessions = ("s0", 4) ∷ [];
  world = 0;
}

abbrev servers : List String
servers = "a:1" ∷ "b:1" ∷ []

abbrev public_names : Assoc String
public_names = ("x:1", "a:1") ∷ ("y:1", "b:1") ∷ []

abbrev without_translation : DriverState ℕ
without_translation = driver_of (listed ("a:1" ∷ []))

abbrev with_translation : DriverState ℕ
with_translation = driver_of (translated public_names)

open_servers-listed_example :
    (Any (λ a. a ≡ "b:1") servers
      → address_at "b:1" (open_servers peers servers without_translation).1.server_drivers
        ≡ some "b:1")
    × (¬ Any (λ a. a ≡ "b:1") servers
        → address_at "b:1" (open_servers peers servers without_translation).1.server_drivers ≡ none)
unfolding lookup
open_servers-listed_example =
    open_servers-listed peers servers without_translation "b:1" ("a:1" ∷ []) refl

abbrev first_name : String
first_name = "x:1"

abbrev second_name : String
second_name = "y:1"

first-ne : first_name ≢ ""
first-ne = ground (arith, eq_iff first_name "")

second-ne : second_name ≢ ""
second-ne = ground (arith, eq_iff second_name "")

translation-accepts_example : (translation (translated public_names) servers ≡ ok public_names) ↔ (
    All (λ a. Any (λ b. b ≡ a) servers) (values public_names)
    × All (λ a. Any (λ e. e.1 ≡ a) public_names) servers)
translation-accepts_example = translation-accepts public_names servers (first-ne, (second-ne, tt))

open_servers-translated_example :
    ((a : String)
      → none ≡ some a
      → address_at "a:1" (open_servers peers servers with_translation).1.server_drivers ≡ some a)
    × (All (λ e. e.0 ≢ "a:1") public_names
        → address_at "a:1" (open_servers peers servers with_translation).1.server_drivers ≡ none)
unfolding translation
open_servers-translated_example =
    open_servers-translated peers servers with_translation "a:1" public_names refl refl
