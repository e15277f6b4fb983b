-- ===== src/Examples/Unreachable.antt =====
-- nodejs/connection over two servers of which the first is down.
use typedb_client_java.Prelude.{ℕ, zero, suc, [], ◌∷◌, none, some, true, false, ◌≡◌, refl}
use typedb_client_java.Prelude.Assoc.{Assoc, lookup}
use typedb_client_java.Errors.DriverError.{ServiceError, Status, is_unreachable}
use typedb_client_java.Effect.{ok}
use typedb_client_java.Rpc.Messages.{Request}
use typedb_client_java.Rpc.Stub.{GrpcStub, Call, failed, replied}
use typedb_client_java.Connection.Network.{ServerDriver}
use typedb_client_java.Connection.Stubs.{Stubs, network_of}
use typedb_client_java.Connection.Stubs.Reachable.{IsDown, IsUp}
use typedb_client_java.Connection.Database.{
  State, Replica, replicas_of, schema, type_schema, rule_schema,
}
use typedb_client_java.Connection.Database.Unwrapped.{EndsRaw, Lost, schema-EndsRaw}
use typedb_client_java.Connection.Databases.{Databases, get, database, is_inherited}
use typedb_client_java.Connection.Databases.Reachable.{get-reachable}
use typedb_client_java.Examples.Failover.{database_proto}
use typedb_client_java.Examples.Stubs.{grpc}

abbrev lost : ServiceError
lost = record {
  code = Status.unavailable;
  message = "14 UNAVAILABLE";
  details = "no connection";
  text = "Error: 14 UNAVAILABLE";
}

abbrev unavailable : {A : Type 0} → Request → Call ℕ A
unavailable r m w = (failed lost, suc w)

abbrev down : GrpcStub ℕ
down = record grpc {
  databases_get = unavailable;
  databases_contains = unavailable;
  database_schema = unavailable;
  database_type_schema = unavailable;
  database_rule_schema = unavailable;
}

abbrev up : GrpcStub ℕ
up = record grpc {
  databases_get = λ r m w. (replied database_proto, suc w);
  databases_contains = λ r m w. (replied true, suc w);
}

abbrev servers : ℕ → GrpcStub ℕ
servers zero = down
servers (suc n) = up

abbrev first_server : ServerDriver
first_server = record { address = "one"; stub = 0 }

abbrev second_server : ServerDriver
second_server = record { address = "two"; stub = 1 }

abbrev two_servers : Assoc ServerDriver
two_servers = ("one", first_server) ∷ ("two", second_server) ∷ []

abbrev sleep : ℕ → ℕ → ℕ
sleep ms w = w

abbrev no_tokens : Stubs ℕ
no_tokens = record { tokens = λ n. none; world = 0 }

first-IsDown : IsDown servers none sleep two_servers "db" first_server
unfolding is_unreachable
first-IsDown = ((λ m w. (lost, refl, refl)), (λ m w. (lost, refl, refl)))

second-IsUp : IsUp servers none sleep two_servers "db" second_server database_proto
second-IsUp = record { gets = λ m w. refl; contains = λ m w. refl }

abbrev nothing_cached : Databases (Stubs ℕ)
nothing_cached = record {
  cache = [];
  heap = λ a. record { name = ""; replicas = [] };
  allocated = 0;
  world = no_tokens;
}

not_cached : lookup "db" nothing_cached.cache ≡ none
unfolding lookup
not_cached = refl

get-reachable_example :
    let (r, t) = get (network_of servers none sleep) two_servers "db" nothing_cached in
    (r ≡ ok (database 0))
    × (lookup "db" t.cache ≡ some 0)
    × (t.heap 0 ≡ record {
      name = "db";
      replicas = replicas_of (network_of servers none sleep) two_servers "db" database_proto;
    })
unfolding is_inherited
get-reachable_example =
    get-reachable servers none sleep two_servers "db" (first_server ∷ []) [] second_server
      database_proto nothing_cached refl (first-IsDown, tt) second-IsUp not_cached

abbrev replica : ServerDriver → Replica
replica d = record {
  database = record { name = "db"; driver = some d };
  server = d.address;
  term = 1;
  primary = true;
  preferred = false;
}

abbrev two_replicas : State (Stubs ℕ)
two_replicas = record {
  replicas = replica first_server ∷ replica second_server ∷ [];
  world = no_tokens;
}

all_lost : Lost servers none sleep two_servers "db" 0 "db" no_tokens lost 1
all_lost = record { schema = refl; type_schema = refl; rule_schema = refl }

schema-EndsRaw_example :
    EndsRaw servers none sleep two_servers "db"
      (lost, 1)
      0
      two_replicas
      (schema (network_of servers none sleep) two_servers "db" two_replicas)
    × EndsRaw servers none sleep two_servers "db"
        (lost, 1)
        0
        two_replicas
        (type_schema (network_of servers none sleep) two_servers "db" two_replicas)
    × EndsRaw servers none sleep two_servers "db"
        (lost, 1)
        0
        two_replicas
        (rule_schema (network_of servers none sleep) two_servers "db" two_replicas)
schema-EndsRaw_example =
    schema-EndsRaw servers none sleep two_servers "db" (replica first_server)
      (replica second_server ∷ []) first_server lost 1 two_replicas refl refl all_lost
