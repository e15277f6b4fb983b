-- ===== src/Connection/Databases/Lookup.antt =====
-- The cache in nodejs/connection/TypeDBDatabaseManagerImpl.ts after each operation.
use typedb_client_java.Prelude.{
  ℕ, suc, ◌<◌, List, [], ◌∷◌, Option, some, String, Bool, true, false, ◌≡◌, refl, inl, inr, arith,
  sym, ◌∙◌, Bool-cases, Option-cases, if◌then◌else◌,
}
use typedb_client_java.Prelude.Assoc.{Assoc, lookup, lookup-insert, lookup-insert_self, values}
use mathlib.Core.Bool.{cond}
use text.Mathlib.Text.{◌==◌}
use text.Mathlib.TextEquality.{eq_iff}
use typedb_client_java.Errors.Templates.{Driver}
use Prim.Native.String.{◌++◌}
use typedb_client_java.Errors.DriverError.{Thrown, has_template, show_thrown}
use typedb_client_java.Effect.{
  Result, ok, err, Eff, pure, ◌>>=◌, try_catch, Result-cases, Ends, bind-Ends, catch-Ends,
  Ends-state,
}
use typedb_client_java.Rpc.Messages.{DatabaseProto}
use typedb_client_java.Rpc.Messages
use typedb_client_java.Transport.BlockingQueue.{update}
use typedb_client_java.Connection.Network.{ServerDriver, Network}
use typedb_client_java.Connection.Database.{Replica, ServerDatabase}
use typedb_client_java.Connection.Database
use typedb_client_java.Connection.Databases.{
  Databases, DatabaseObject, lift, on_database, new_database, fetch_database, database_of, contains,
  get, run_failsafe, databases_of, all_from, on_primary, on_error, failsafe_from, from_cache,
  cached_or_fetched, get_there, with_stub, Cached, database, inherited, is_inherited,
}
use typedb_client_java.Connection.Databases

-- Each entry of the cache refers to a database that was made, with the name it is filed under.
abbrev pub IsValid : {W : Type 0} → Databases W → Type 0
IsValid s =
    (name : String) (a : ℕ)
    → lookup name s.cache ≡ some a
    → (a < s.allocated) × ((s.heap a).name ≡ name)

-- However the method ends.
abbrev pub Keeps : {W A : Type 0} → Eff (Databases W) A → Type 0
Keeps m = (s : Databases _) → IsValid s → Ends (λ _ t. IsValid t) (λ _ t. IsValid t) (m s)

module _ {W : Type 0} where
  both :
      {A : Type 0} (r : Result A) (s : Databases W)
      → IsValid s
      → Ends (λ _ t. IsValid t) (λ _ t. IsValid t) (r, s)
  both (ok a) s v = v
  both (err e) s v = v

  bind-Keeps :
      {A B : Type 0} (m : Eff (Databases W) A) (f : A → Eff (Databases W) B)
      → Keeps m
      → ((a : A) → Keeps (f a))
      → Keeps (m >>= f)
  bind-Keeps m f h k s v =
      bind-Ends (λ _ t. IsValid t) (λ _ t. IsValid t) (λ _ t. IsValid t) m f s (h s v) k

  catch-Keeps :
      {A : Type 0} (m : Eff (Databases W) A) (f : Thrown → Eff (Databases W) A)
      → Keeps m
      → ((e : Thrown) → Keeps (f e))
      → Keeps (try_catch m f)
  catch-Keeps m f h k s v =
      catch-Ends (λ _ t. IsValid t) (λ _ t. IsValid t) (λ _ t. IsValid t) m f s (h s v) k

  lift-Keeps : {A : Type 0} (m : Eff W A) → Keeps (lift m)
  lift-Keeps m s v = both (m s.world).0 _ v

  if-Keeps :
      {A : Type 0} (b : Bool) (m n : Eff (Databases W) A)
      → Keeps m
      → Keeps n
      → Keeps (if b then m else n)
  if-Keeps true m n h k = h
  if-Keeps false m n h k = k

  renamed :
      (s : Databases W) (a : ℕ) (rs : List Replica)
      → IsValid s
      → (name : String) (b : ℕ) → lookup name s.cache ≡ some b
      → (update s.heap a (record { name = (s.heap a).name; replicas = rs }) b).name ≡ name
  renamed s a rs v name b h = ground (arith, v name b h)

  on_database-Keeps : {A : Type 0} (a : ℕ) (m : Eff (Database.State W) A) → Keeps (on_database a m)
  on_database-Keeps a m s v =
      let p = m (record { replicas = (s.heap a).replicas; world = s.world }) in
      both p.0 _ (λ name b h. ((v name b h).0, renamed s a p.1.replicas v name b h))

  -- The new address is the one that the name is filed under, and no other entry is touched.
  filed :
      (s : Databases W) (name : String) (d : DatabaseObject) (other : String) (b : ℕ)
      → IsValid s
      → d.name ≡ name
      → cond (name == other) (some s.allocated) (lookup other s.cache) ≡ some b
      → (b < suc s.allocated) × ((update s.heap s.allocated d b).name ≡ other)
  filed s name d other b v named h = elim (Bool-cases (name == other)) [
    | inl same ↦ ground (arith, same, eq_iff name other)
    | inr new ↦ ground (arith, new, v other b (ground (arith, new)))
  ]

  new_database-Keeps : (name : String) (rs : List Replica) → Keeps {W = W} (new_database name rs)
  unfolding new_database
  new_database-Keeps name rs s v other b h =
      filed s name (record { name = name; replicas = rs }) other b v refl
        (sym (lookup-insert name other s.allocated s.cache) ∙ h)

module _ {W : Type 0} (net : Network W) (server_drivers : Assoc ServerDriver) where
  fetch_database-Keeps : (name : String) → Keeps (fetch_database net server_drivers name)
  unfolding fetch_database
  fetch_database-Keeps name =
      let fetch = Database.fetch_replicas net server_drivers name in
      bind-Keeps (lift fetch) (new_database name) (lift-Keeps fetch) (new_database-Keeps name)

  databases_of-Keeps : (ps : List DatabaseProto) → Keeps (databases_of net server_drivers ps)
  unfolding databases_of database_of
  databases_of-Keeps [] = λ s v. v
  databases_of-Keeps (p ∷ ps) =
      bind-Keeps (database_of net server_drivers p)
        (λ a. databases_of net server_drivers ps >>= λ rest. pure (a ∷ rest))
        (new_database-Keeps p.name (Database.replicas_of net server_drivers p.name p))
        (λ a.
          bind-Keeps (databases_of net server_drivers ps) (λ rest. pure (a ∷ rest))
            (databases_of-Keeps ps) (λ rest s v. v))

  all_from-Keeps :
      (ds : List ServerDriver) (errors : String) → Keeps (all_from net server_drivers ds errors)
  unfolding all_from
  all_from-Keeps [] errors = λ s v. v
  all_from-Keeps (d ∷ ds) errors =
      let asked = net.databases_all d.stub Messages.databases_all in
      catch-Keeps (lift asked >>= databases_of net server_drivers)
        (λ e.
          all_from net server_drivers ds
            (errors ++ ("- " ++ (d.address ++ (": " ++ (show_thrown e ++ "\n"))))))
        (bind-Keeps (lift asked) (databases_of net server_drivers) (lift-Keeps asked)
          databases_of-Keeps)
        (λ e.
          all_from-Keeps ds (errors ++ ("- " ++ (d.address ++ (": " ++ (show_thrown e ++ "\n"))))))

  module _ {T : Type 0} (name : String) (task : Option ServerDriver → Eff W T) where
    on_primary-Keeps : Keeps (on_primary net server_drivers name task)
    unfolding on_primary
    on_primary-Keeps =
        let primary =
          Database.run_on_primary_replica net server_drivers name
            (λ (d : Option ServerDriver) (_ : ServerDatabase). task d) in
        bind-Keeps (fetch_database net server_drivers name) (λ a. on_database a primary)
          (fetch_database-Keeps name) (λ a. on_database-Keeps a primary)

    on_error-Keeps :
        (d : ServerDriver) (errors : String) (again : String → Eff (Databases W) T)
        → ((shown : String) → Keeps (again shown))
        → (e : Thrown) → Keeps (on_error net server_drivers name task d errors again e)
    unfolding on_error
    on_error-Keeps d errors again h e =
        if-Keeps (has_template Driver.cloud_replica_not_primary e)
          (on_primary net server_drivers name task)
          (again (errors ++ ("- " ++ (d.address ++ (": " ++ (show_thrown e ++ "\n"))))))
          on_primary-Keeps
          (h (errors ++ ("- " ++ (d.address ++ (": " ++ (show_thrown e ++ "\n"))))))

    failsafe_from-Keeps :
        (ds : List ServerDriver) (errors : String)
        → Keeps (failsafe_from net server_drivers name task ds errors)
    unfolding failsafe_from
    failsafe_from-Keeps [] errors = λ s v. v
    failsafe_from-Keeps (d ∷ ds) errors =
        let again = failsafe_from net server_drivers name task ds in
        catch-Keeps (lift (task (some d))) (on_error net server_drivers name task d errors again)
          (lift-Keeps (task (some d))) (on_error-Keeps d errors again (failsafe_from-Keeps ds))

    pub run_failsafe-Keeps : Keeps (run_failsafe net server_drivers name task)
    unfolding run_failsafe
    run_failsafe-Keeps = failsafe_from-Keeps (values server_drivers) ""

  contains-Keeps : (name : String) → Keeps (contains net server_drivers name)
  unfolding contains
  contains-Keeps name = run_failsafe-Keeps name (
      with_stub net server_drivers λ s. net.databases_contains s (Messages.databases_contains name))

  from_cache-Keeps : (name : String) → Keeps (from_cache net server_drivers name)
  unfolding from_cache cached_or_fetched
  from_cache-Keeps name s v = elim (Option-cases (lookup name s.cache)) [
    | inl absent ↦ rw absent (
        if-Keeps (is_inherited name) (pure (inherited name))
          (fetch_database net server_drivers name >>= λ a. pure (database a)) (λ t k. k)
          (bind-Keeps (fetch_database net server_drivers name) (λ a. pure (database a))
            (fetch_database-Keeps name) (λ a t k. k))
          s v)
    | inr (a, present) ↦ rw present v
  ]

  get_there-Keeps : (name : String) (there : Bool) → Keeps (get_there net server_drivers name there)
  unfolding get_there
  get_there-Keeps name true = from_cache-Keeps name
  get_there-Keeps name false = λ s v. v

  get-Keeps : (name : String) → Keeps (get net server_drivers name)
  unfolding get
  get-Keeps name =
      bind-Keeps (contains net server_drivers name) (get_there net server_drivers name)
        (contains-Keeps name) (get_there-Keeps name)

  kept :
      {A : Type 0} (m : Eff (Databases W) A) (s : Databases W)
      → Keeps m
      → IsValid s
      → IsValid (m s).1
  kept m s h v = Ends-state IsValid (m s) (h s v)

  -- Every operation of the database manager, however it ends, leaves a cache each of whose entries
  -- refers to a database that was made and that has the name it is filed under, when the cache was
  -- so before.
  pub manager-IsValid :
      (name : String) (s : Databases W)
      → IsValid s
      → IsValid (get net server_drivers name s).1
        × IsValid (contains net server_drivers name s).1
        × IsValid (Databases.create net server_drivers name s).1
        × IsValid (Databases.all net server_drivers s).1
  unfolding Databases.create Databases.all
  manager-IsValid name s v =
      let create =
        with_stub net server_drivers
          λ stub. net.databases_create stub (Messages.databases_create name) in
      (
        kept (get net server_drivers name) s (get-Keeps name) v,
        kept (contains net server_drivers name) s (contains-Keeps name) v,
        kept (run_failsafe net server_drivers name create) s (run_failsafe-Keeps name create) v,
        kept (all_from net server_drivers (values server_drivers) "") s
            (all_from-Keeps (values server_drivers) "") v,
      )

  module _ (name : String) where
    -- What a lookup of the name promises with its value.
    Filed : Cached → Databases W → Type 0
    Filed (database a) s = lookup name s.cache ≡ some a
    Filed (inherited other) s = (name ≡ other) × (is_inherited name ≡ true)

    AnyError : Thrown → Databases W → Type 0
    AnyError e s = Unit {0}

    -- A database is filed when it is fetched.
    fetched-Filed :
        (s : Databases W)
        → Ends
            (λ a t. lookup name t.cache ≡ some a)
            AnyError
            (fetch_database net server_drivers name s)
    unfolding fetch_database new_database AnyError
    fetched-Filed s =
        let fetch = Database.fetch_replicas net server_drivers name in
        bind-Ends (λ _ _. Unit {0}) AnyError (λ a t. lookup name t.cache ≡ some a) (lift fetch)
          (new_database name) s
          (elim (Result-cases (fetch s.world).0) [
            | inl (rs, done) ↦ rw done tt
            | inr (e, failed) ↦ rw failed tt
          ])
          (λ rs t _. lookup-insert_self name t.allocated t.cache)

    fetch_database-Filed :
        (s : Databases W)
        → Ends Filed AnyError
            ((fetch_database net server_drivers name >>= λ a. pure (database a)) s)
    unfolding Filed
    fetch_database-Filed s =
        bind-Ends (λ a t. lookup name t.cache ≡ some a) AnyError Filed
          (fetch_database net server_drivers name) (λ a. pure (database a)) s (fetched-Filed s)
          (λ a t h. h)

    get_there-Filed :
        (there : Bool) (s : Databases W)
        → Ends Filed AnyError (get_there net server_drivers name there s)
    unfolding get_there from_cache cached_or_fetched Filed AnyError
    get_there-Filed true s = elim (Option-cases (lookup name s.cache)) [
      | inl absent ↦ elim (Bool-cases (is_inherited name)) [
        | inl known ↦ rw (absent, known) (refl, known)
        | inr own ↦ rw (absent, own) (fetch_database-Filed s)
      ]
      | inr (a, present) ↦ rw present present
    ]
    get_there-Filed false s = tt

    get_Filed_at :
        (p : Result Cached × Databases W) (a : ℕ)
        → Ends Filed AnyError p
        → p.0 ≡ ok (database a)
        → lookup name p.1.cache ≡ some a
    unfolding Filed
    get_Filed_at (ok (database b), s) a h k = ground (arith, h, k)
    get_Filed_at (ok (inherited b), s) a h k = cc
    get_Filed_at (err e, s) a h k = cc

    -- The database that the manager gives for a name is the one that its cache holds under the name
    -- afterwards, whether it was there before or was fetched from a server.
    pub get-filed :
        (s : Databases W) (a : ℕ)
        → (get net server_drivers name s).0 ≡ ok (database a)
        → lookup name (get net server_drivers name s).1.cache ≡ some a
    unfolding get AnyError
    get-filed s a = get_Filed_at (get net server_drivers name s) a (
        bind-Ends (λ _ _. Unit {0}) AnyError Filed (contains net server_drivers name)
          (get_there net server_drivers name) s
          (elim (Result-cases (contains net server_drivers name s).0) [
            | inl (there, done) ↦ rw done tt
            | inr (e, failed) ↦ rw failed tt
          ])
          (λ there t _. get_there-Filed there t))
