-- ===== src/Connection/Database.antt =====
-- nodejs/connection/TypeDBDatabaseImpl.ts: replicas and failover. The drivers of the servers are
-- those that the driver's map held when the database was made; they do not change while it is open.
pub mod Replicas
pub mod Failover
pub mod Unwrapped
pub mod Retries
use typedb_client_java.Prelude.{
  ℕ, zero, suc, ◌<◌, List, [], ◌∷◌, map, Option, none, some, String, Bool, true, false, ◌||◌, ltb,
  filter, find, if◌then◌else◌,
}
use mathlib.Core.List.{foldl}
use typedb_client_java.Prelude.Assoc.{Assoc, lookup, values}
use typedb_client_java.Errors.Templates.{Driver, driver}
use typedb_client_java.Errors.DriverError.{Thrown, js, has_template, fail_with}
use typedb_client_java.Effect.{Result, ok, err, Eff, pure, throw, ◌>>=◌, ◌>>◌, try_catch, try_each}
use typedb_client_java.Rpc.Messages.{DatabaseProto, ReplicaProto}
use typedb_client_java.Rpc.Messages
use typedb_client_java.Connection.Network.{ServerDriver, Network}

-- `Map.get` gives `undefined` for a server that the driver does not know.
pub record ServerDatabase : Type 0 where
  pub name : String
  pub driver : Option ServerDriver

pub record Replica : Type 0 where
  pub database : ServerDatabase
  pub server : String
  pub term : ℕ
  pub primary : Bool
  pub preferred : Bool

abbrev pub replica_of : ReplicaProto → ServerDatabase → Replica
replica_of p d = record {
  database = d;
  server = p.address;
  term = p.term;
  primary = p.primary;
  preferred = p.preferred;
}

-- `reduce((current, next) => next.term > current.term ? next : current)`
later : Replica → Replica → Replica
later current next = if ltb current.term next.term then next else current

reduce_later : List Replica → Option Replica
reduce_later [] = none
reduce_later (r ∷ rs) = some (foldl later r rs)

unfoldable pub primary_replica : List Replica → Option Replica
unfolding reduce_later later
primary_replica replicas = reduce_later (filter (λ r. r.primary) replicas)

-- `replicas.find(rep => rep.preferred) || replicas[0]`
first_replica : List Replica → Option Replica
first_replica [] = none
first_replica (r ∷ _) = some r

unfoldable pub preferred_replica : List Replica → Option Replica
unfolding first_replica
preferred_replica replicas = elim (find (λ r. r.preferred) replicas) [
  | some r ↦ some r
  | none ↦ first_replica replicas
]

-- The field `_replicas`, beside the rest of the world.
pub record State (W : Type 0) : Type 0 where
  pub replicas : List Replica
  pub world : W

-- A step of the world, in a method of a database.
abbrev pub lift : {W A : Type 0} → Eff W A → Eff (State W) A
lift m s = let (r, w) = m s.world in (r, record s { world = w })

abbrev pub max_retries : ℕ
max_retries = 10

abbrev pub wait_for_primary_replica_selection_ms : ℕ
wait_for_primary_replica_selection_ms = 2000

-- Reading a property of `null` or `undefined`.
abbrev pub null_error : Thrown
null_error = js "TypeError"

abbrev pub unreachable : Thrown
unreachable = fail_with (driver Driver.unable_to_connect) []

-- The errors after which `fetchReplicas` tries the next server.
unfoldable pub skips_server : Thrown → Bool
skips_server e =
    has_template Driver.database_does_not_exist e || has_template Driver.unable_to_connect e

unfoldable pub retries_primary : Thrown → Bool
retries_primary e =
    has_template Driver.unable_to_connect e || has_template Driver.cloud_replica_not_primary e

module _ {W : Type 0} (net : Network W) (server_drivers : Assoc ServerDriver) (name : String) where
  unfoldable pub replicas_of : DatabaseProto → List Replica
  replicas_of p =
      map (λ r. replica_of r (record { name = name; driver = lookup r.address server_drivers }))
        p.replicas

  unfoldable pub fetch_from : ServerDriver → Eff W (List Replica)
  unfolding replicas_of
  fetch_from d = do p ← net.databases_get d.stub (Messages.databases_get name); pure (replicas_of p)

  unfoldable pub fetch_replicas : Eff W (List Replica)
  unfolding fetch_from
  fetch_replicas = try_each fetch_from skips_server unreachable (values server_drivers)

  unfoldable pub wait_for_primary : Eff (State W) (Unit {0})
  wait_for_primary s =
      (ok tt, record s { world = net.sleep wait_for_primary_replica_selection_ms s.world })

  -- The loop of `seekPrimaryReplica`, with the rounds left.
  settle_primary : Option Replica → Eff (State W) Replica → Eff (State W) Replica
  settle_primary (some r) again = pure r
  settle_primary none again = wait_for_primary >> again

  set_replicas : List Replica → Eff (State W) (Unit {0})
  set_replicas rs s = (ok tt, record s { replicas = rs })

  seek_from : ℕ → Eff (State W) Replica
  unfolding settle_primary set_replicas
  seek_from zero = throw unreachable
  seek_from (suc rounds) = do
    rs ← lift fetch_replicas
    set_replicas rs
    settle_primary (primary_replica rs) (seek_from rounds)

  unfoldable pub seek_primary_replica : Eff (State W) Replica
  unfolding seek_from
  seek_primary_replica = seek_from max_retries

  module _ {T : Type 0} (task : Option ServerDriver → ServerDatabase → Eff W T) where
    unfoldable pub task_on : Replica → Eff W T
    task_on r = task (lookup r.server server_drivers) r.database

    unfoldable pub run_on_any_replica : Eff (State W) T
    unfolding task_on
    run_on_any_replica s =
        lift (try_each task_on (has_template Driver.unable_to_connect) unreachable s.replicas) s

    -- The body of the `try`: `this.primaryReplica` is read in the current state.
    on_replica : Option Replica → Eff W T
    unfolding task_on
    on_replica none = throw null_error
    on_replica (some r) = task_on r

    on_primary : Eff (State W) T
    unfolding on_replica
    on_primary s = lift (on_replica (primary_replica s.replicas)) s

    -- The `catch` of the loop; `again` is its next round.
    retry : Eff (State W) T → Thrown → Eff (State W) T
    retry again e =
        if retries_primary e then wait_for_primary >> (seek_primary_replica >> again) else throw e

    -- The loop, with the rounds left.
    primary_from : ℕ → Eff (State W) T
    unfolding on_primary retry
    primary_from zero = throw unreachable
    primary_from (suc rounds) = try_catch on_primary (retry (primary_from rounds))

    -- `if (!this.primaryReplica) await this.seekPrimaryReplica()`
    ensure_primary : Option Replica → Eff (State W) (Unit {0})
    ensure_primary (some r) = pure tt
    ensure_primary none = seek_primary_replica >> pure tt

    unfoldable pub run_on_primary_replica : Eff (State W) T
    unfolding ensure_primary primary_from
    run_on_primary_replica s =
        (ensure_primary (primary_replica s.replicas) >> primary_from max_retries) s

    -- The `catch` of `runFailsafe`.
    unfoldable pub fall_back : Thrown → Eff (State W) T
    fall_back e =
        if has_template Driver.cloud_replica_not_primary e then run_on_primary_replica else throw e

    unfoldable pub run_failsafe : Eff (State W) T
    unfolding fall_back
    run_failsafe = try_catch run_on_any_replica fall_back

  -- The methods of `ServerDatabase`.
  unfoldable pub on_driver :
      {T : Type 0} → (ℕ → String → Eff W T) → Option ServerDriver → ServerDatabase → Eff W T
  on_driver call _ d = elim d.driver [ none ↦ throw null_error | some s ↦ call s.stub d.name ]

  unfoldable pub delete : Eff (State W) (Unit {0})
  unfolding on_driver
  delete =
      run_on_primary_replica (on_driver λ s n. net.database_delete s (Messages.database_delete n))

  unfoldable pub schema : Eff (State W) String
  unfolding on_driver
  schema = run_failsafe (on_driver λ s n. net.database_schema s (Messages.database_schema n))

  unfoldable pub type_schema : Eff (State W) String
  unfolding on_driver
  type_schema =
      run_failsafe (on_driver λ s n. net.database_type_schema s (Messages.database_type_schema n))

  unfoldable pub rule_schema : Eff (State W) String
  unfolding on_driver
  rule_schema =
      run_failsafe (on_driver λ s n. net.database_rule_schema s (Messages.database_rule_schema n))
