-- ===== src/Examples/Manager.antt =====
-- nodejs/connection/TypeDBDatabaseManagerImpl.ts and nodejs/user/UserManagerImpl.ts on the server of
-- the failover's examples.
use typedb_client_java.Prelude.{ℕ, [], none, ◌≡◌, refl}
use typedb_client_java.Prelude.Assoc.{lookup, insert}
use typedb_client_java.Effect.{ok}
use typedb_client_java.Connection.Databases.{
  Databases, get, database, is_inherited, inherited, contains, create, all, run_failsafe, with_stub,
  fetch_database, new_database,
}
use typedb_client_java.Connection.Database.{fetch_replicas, replicas_of}
use typedb_client_java.Effect.{try_each}
use typedb_client_java.Connection.Databases.Lookup.{IsValid, manager-IsValid}
use typedb_client_java.Connection.Users.{User}
use typedb_client_java.Examples.Failover.{net, drivers}

abbrev pub nothing_cached : Databases ℕ
nothing_cached = record {
  cache = [];
  heap = λ a. record { name = ""; replicas = [] };
  allocated = 0;
  world = 0;
}

nothing_cached-IsValid : IsValid nothing_cached
unfolding lookup
nothing_cached-IsValid name a h = cc

found : (get net drivers "db" nothing_cached).0 ≡ ok (database 0)
unfolding get is_inherited contains run_failsafe with_stub fetch_database new_database
    fetch_replicas replicas_of try_each lookup insert
found = refl

-- A member of `Object.prototype` is taken for a database.
found_inherited : (get net drivers "constructor" nothing_cached).0 ≡ ok (inherited "constructor")
unfolding get is_inherited contains run_failsafe with_stub try_each lookup
found_inherited = refl

manager-IsValid_example :
    IsValid (get net drivers "db" nothing_cached).1
    × IsValid (contains net drivers "db" nothing_cached).1
    × IsValid (create net drivers "db" nothing_cached).1
    × IsValid (all net drivers nothing_cached).1
manager-IsValid_example = manager-IsValid net drivers "db" nothing_cached nothing_cached-IsValid

abbrev alice : User
alice = record { username = "alice"; password_expiry_seconds = none }
