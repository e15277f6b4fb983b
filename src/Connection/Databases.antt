-- ===== src/Connection/Databases.antt =====
-- nodejs/connection/TypeDBDatabaseManagerImpl.ts, with the objects that the driver's databases are:
-- `_database_cache` holds their addresses, and `heap` their names and replicas. An assignment to
-- `__proto__` is taken as that to any other key.
pub mod Lookup
pub mod Reachable
use Prim.Native.String.{◌++◌}
use text.Mathlib.Text.{◌==◌}
use typedb_client_java.Prelude.{
  ℕ, suc, List, [], ◌∷◌, Option, none, some, String, Bool, true, false, ◌||◌, if◌then◌else◌,
}
use typedb_client_java.Prelude.Assoc.{Assoc, lookup, insert, values}
use typedb_client_java.Errors.Templates.{Driver, driver}
use typedb_client_java.Errors.DriverError.{Thrown, show_thrown, has_template, fail_with}
use typedb_client_java.Effect.{Result, ok, err, Eff, pure, throw, ◌>>=◌, ◌>>◌, try_catch}
use typedb_client_java.Rpc.Messages.{DatabaseProto}
use typedb_client_java.Rpc.Messages
use typedb_client_java.Transport.BlockingQueue.{update}
use typedb_client_java.Connection.Network.{ServerDriver, Network}
use typedb_client_java.Connection.Database.{Replica, ServerDatabase, null_error}
use typedb_client_java.Connection.Database

pub record DatabaseObject : Type 0 where
  pub name : String
  pub replicas : List Replica

pub record Databases (W : Type 0) : Type 0 where
  pub cache : Assoc ℕ
  pub heap : ℕ → DatabaseObject
  pub allocated : ℕ
  pub world : W

-- What `_database_cache[name]` gives: the object at an address, or a member of `Object.prototype`.
pub data Cached : Type 0 where
  database : ℕ → Cached
  inherited : String → Cached

-- The keys of `Object.prototype`, which `in` finds in every plain object.
unfoldable pub is_inherited : String → Bool
is_inherited name =
    name == "constructor"
    || name == "__defineGetter__"
    || name == "__defineSetter__"
    || name == "hasOwnProperty"
    || name == "__lookupGetter__"
    || name == "__lookupSetter__"
    || name == "isPrototypeOf"
    || name == "propertyIsEnumerable"
    || name == "toString"
    || name == "valueOf"
    || name == "__proto__"
    || name == "toLocaleString"

-- A step of the world alone.
abbrev pub lift : {W A : Type 0} → Eff W A → Eff (Databases W) A
lift m s = let (r, w) = m s.world in (r, record s { world = w })

-- A method of the database at an address.
abbrev pub on_database : {W A : Type 0} → ℕ → Eff (Database.State W) A → Eff (Databases W) A
on_database a m s =
    let (r, d) = m (record { replicas = (s.heap a).replicas; world = s.world }) in
    (
      r,
      record s {
        heap = update s.heap a (record { name = (s.heap a).name; replicas = d.replicas });
        world = d.world;
      },
    )

module _ {W : Type 0} where
  -- The constructor of `TypeDBDatabaseImpl`.
  unfoldable pub new_database : String → List Replica → Eff (Databases W) ℕ
  new_database name replicas s = (
    ok s.allocated,
    record s {
      cache = insert name s.allocated s.cache;
      heap = update s.heap s.allocated (record { name = name; replicas = replicas });
      allocated = suc s.allocated;
    },
  )

module _ {W : Type 0} (net : Network W) (server_drivers : Assoc ServerDriver) where
  -- The static `TypeDBDatabaseImpl.get`.
  unfoldable pub fetch_database : String → Eff (Databases W) ℕ
  unfolding new_database
  fetch_database name = do
    replicas ← lift (Database.fetch_replicas net server_drivers name)
    new_database name replicas

  -- The static `TypeDBDatabaseImpl.of`.
  unfoldable pub database_of : DatabaseProto → Eff (Databases W) ℕ
  unfolding new_database
  database_of p = new_database p.name (Database.replicas_of net server_drivers p.name p)

  module _ {T : Type 0} (name : String) (task : Option ServerDriver → Eff W T) where
    on_primary : Eff (Databases W) T
    on_primary = do
      a ← fetch_database name
      on_database a (
          Database.run_on_primary_replica net server_drivers name
            (λ (d : Option ServerDriver) (_ : ServerDatabase). task d))

    -- The `catch`; `again` goes on with the text of the errors.
    on_error : ServerDriver → String → (String → Eff (Databases W) T) → Thrown → Eff (Databases W) T
    unfolding on_primary
    on_error d errors again e =
        if has_template Driver.cloud_replica_not_primary e
        then on_primary
        else again (errors ++ ("- " ++ (d.address ++ (": " ++ (show_thrown e ++ "\n")))))

    failsafe_from : List ServerDriver → String → Eff (Databases W) T
    unfolding on_error
    failsafe_from [] errors = throw (fail_with (driver Driver.cloud_all_nodes_failed) (errors ∷ []))
    failsafe_from (d ∷ ds) errors =
        try_catch (lift (task (some d))) (on_error d errors (failsafe_from ds))

    unfoldable pub run_failsafe : Eff (Databases W) T
    unfolding failsafe_from
    run_failsafe = failsafe_from (values server_drivers) ""

  -- `driver.stub` of a driver that may be `undefined`.
  unfoldable pub with_stub : {T : Type 0} → (ℕ → Eff W T) → Option ServerDriver → Eff W T
  with_stub call none = throw null_error
  with_stub call (some d) = call d.stub

  unfoldable pub contains : String → Eff (Databases W) Bool
  unfolding run_failsafe with_stub
  contains name =
      run_failsafe name (with_stub λ s. net.databases_contains s (Messages.databases_contains name))

  unfoldable pub create : String → Eff (Databases W) (Unit {0})
  unfolding run_failsafe with_stub
  create name =
      run_failsafe name (with_stub λ s. net.databases_create s (Messages.databases_create name))

  -- `name in _database_cache ? _database_cache[name] : await TypeDBDatabaseImpl.get(…)`
  cached_or_fetched : String → Option ℕ → Eff (Databases W) Cached
  unfolding is_inherited
  cached_or_fetched name (some a) = pure (database a)
  cached_or_fetched name none =
      if is_inherited name
      then pure (inherited name)
      else (fetch_database name >>= λ a. pure (database a))

  from_cache : String → Eff (Databases W) Cached
  unfolding cached_or_fetched
  from_cache name s = cached_or_fetched name (lookup name s.cache) s

  get_there : String → Bool → Eff (Databases W) Cached
  unfolding from_cache
  get_there name true = from_cache name
  get_there name false = throw (fail_with (driver Driver.database_does_not_exist) (name ∷ []))

  unfoldable pub get : String → Eff (Databases W) Cached
  unfolding get_there
  get name = contains name >>= get_there name

  databases_of : List DatabaseProto → Eff (Databases W) (List ℕ)
  databases_of [] = pure []
  databases_of (p ∷ ps) = do a ← database_of p; rest ← databases_of ps; pure (a ∷ rest)

  all_from : List ServerDriver → String → Eff (Databases W) (List ℕ)
  unfolding databases_of
  all_from [] errors = throw (fail_with (driver Driver.cloud_all_nodes_failed) (errors ∷ []))
  all_from (d ∷ ds) errors =
      try_catch (lift (net.databases_all d.stub Messages.databases_all) >>= databases_of)
        (λ e. all_from ds (errors ++ ("- " ++ (d.address ++ (": " ++ (show_thrown e ++ "\n"))))))

  unfoldable pub all : Eff (Databases W) (List ℕ)
  unfolding all_from
  all = all_from (values server_drivers) ""
