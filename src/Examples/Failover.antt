-- ===== src/Examples/Failover.antt =====
-- nodejs/connection/TypeDBDatabaseImpl.ts on one server with one replica. The world counts the runs
-- of a task.
use typedb_client_java.Prelude.{
  ℕ, ◌+◌, ◌≤◌, List, [], ◌∷◌, Option, none, some, Bool, true, false, ◌≡◌, refl, arith, Any, All,
}
use typedb_client_java.Prelude.Assoc.{Assoc}
use typedb_client_java.Errors.Templates.{Driver, driver, same, ErrorMessage-discrete}
use typedb_client_java.Errors.DriverError.{Thrown, raised, js, has_template, fail_with}
use typedb_client_java.Effect.{ok, err, Eff, try_each}
use mathlib.Core.Bool.{decide}
use typedb_client_java.Rpc.Messages.{Request, DatabaseProto}
use typedb_client_java.Rpc.Messages
use typedb_client_java.Connection.Network.{ServerDriver, Network}
use typedb_client_java.Connection.Database.{
  ServerDatabase, Replica, State, primary_replica, run_failsafe, run_on_primary_replica, null_error,
  fall_back, run_on_any_replica, retries_primary, seek_primary_replica, fetch_replicas, on_driver,
  wait_for_primary, skips_server, replicas_of, task_on,
}
use typedb_client_java.Connection.Database.Replicas.{primary_replica-eq-some}
use typedb_client_java.Connection.Database.Retries.{
  run_failsafe-bounded, run_failsafe-recognised, Origin, run_on_primary_replica-Origin,
}

abbrev unused : {A : Type 0} → ℕ → Request → Eff ℕ A
unused s r w = (err (js "unused"), w)

abbrev pub database_proto : DatabaseProto
database_proto = record {
  name = "db";
  replicas = record { address = "one"; term = 1; primary = true; preferred = false } ∷ [];
}

abbrev pub net : Network ℕ
net = record {
  databases_get = λ s r w. (ok database_proto, w);
  databases_all = λ s r w. (ok (database_proto ∷ []), w);
  databases_contains = λ s r w. (ok true, w);
  databases_create = unused;
  database_delete = unused;
  database_schema = unused;
  database_type_schema = unused;
  database_rule_schema = unused;
  users_all = unused;
  users_contains = unused;
  users_create = unused;
  users_delete = unused;
  users_get = unused;
  users_password_set = unused;
  user_password_update = unused;
  sleep = λ ms w. w;
}

abbrev pub server : ServerDriver
server = record { address = "one"; stub = 0 }

abbrev pub drivers : Assoc ServerDriver
drivers = ("one", server) ∷ []

abbrev replica : ℕ → Bool → Replica
replica term primary = record {
  database = record { name = "db"; driver = some server };
  server = "one";
  term = term;
  primary = primary;
  preferred = false;
}

abbrev start : State ℕ
start = record { replicas = replica 1 true ∷ []; world = 0 }

abbrev not_primary : Thrown
not_primary =
    raised
      (record { text = "moved"; message_template = some (driver Driver.cloud_replica_not_primary) })

-- A task that finds no primary, however often it runs.
abbrev moving : Option ServerDriver → ServerDatabase → Eff ℕ (Unit {0})
moving d db w = (err not_primary, w + 1)

test_moving : (run_failsafe net drivers "db" moving start).1.world ≡ 11
unfolding run_failsafe fall_back run_on_any_replica task_on run_on_primary_replica primary_replica
    retries_primary seek_primary_replica fetch_replicas try_each wait_for_primary skips_server
    replicas_of has_template same decide ErrorMessage-discrete fail_with
test_moving = refl

moving-once : (d : Option ServerDriver) (db : ServerDatabase) (w : ℕ) → (moving d db w).1 ≤ w + 1
moving-once d db w = omega arith

run_failsafe-bounded_example : (run_failsafe net drivers "db" moving start).1.world ≤ 0 + 1 + 10
run_failsafe-bounded_example =
    run_failsafe-bounded net drivers "db" moving (λ w. w) moving-once (λ s r w. refl) (λ ms w. refl)
      start

unreachable_text :
    (run_failsafe net drivers "db" moving start).0
    ≡ err (fail_with (driver Driver.unable_to_connect) [])
unfolding run_failsafe fall_back run_on_any_replica task_on run_on_primary_replica primary_replica
    retries_primary seek_primary_replica fetch_replicas try_each wait_for_primary skips_server
    replicas_of has_template same decide ErrorMessage-discrete fail_with
unreachable_text = refl

run_failsafe-recognised_example :
    has_template Driver.unable_to_connect (fail_with (driver Driver.unable_to_connect) []) ≡ false
run_failsafe-recognised_example =
    run_failsafe-recognised net drivers "db" moving start
      (fail_with (driver Driver.unable_to_connect) []) unreachable_text

-- The primary replica is on a server that the driver does not have.
abbrev elsewhere : State ℕ
elsewhere = record {
  replicas =
      record (replica 1 true) { database = record { name = "db"; driver = none }; server = "two" }
      ∷ [];
  world = 0;
}

abbrev deleting : Option ServerDriver → ServerDatabase → Eff ℕ (Unit {0})
deleting = on_driver net drivers "db" λ s n. net.database_delete s (Messages.database_delete n)

nowhere : (run_on_primary_replica net drivers "db" deleting elsewhere).0 ≡ err null_error
unfolding run_on_primary_replica task_on primary_replica retries_primary on_driver has_template
nowhere = refl

run_on_primary_replica-Origin_example : Origin net drivers "db" deleting null_error
run_on_primary_replica-Origin_example =
    run_on_primary_replica-Origin net drivers "db" deleting elsewhere null_error nowhere

abbrev two : List Replica
two = replica 4 false ∷ replica 2 true ∷ replica 3 true ∷ []

two_primary : primary_replica two ≡ some (replica 3 true)
unfolding primary_replica
two_primary = refl

primary_replica-eq-some_example :
    Any (λ r. (r.primary ≡ true) × (r ≡ replica 3 true)) two
    × All (λ r. r.primary ≡ true → r.term ≤ 3) two
primary_replica-eq-some_example = primary_replica-eq-some two (replica 3 true) two_primary
