-- ===== src/Connection/Databases/Reachable.antt =====
-- `get` of nodejs/connection/TypeDBDatabaseManagerImpl.ts where the first servers are not reached.
use Prim.Native.String.{◌++◌ as append_text}
use typedb_client_java.Prelude.{
  ℕ, suc, String, List, [], ◌∷◌, ◌++◌, Option, none, some, Bool, true, false, ◌≡◌, ap, ◌∙◌, arith,
  All, if◌then◌else◌,
}
use typedb_client_java.Prelude.Assoc.{Assoc, values, lookup, insert, lookup-insert_self}
use typedb_client_java.Errors.Templates.{Driver}
use typedb_client_java.Errors.DriverError.{Thrown, raised, of_service, has_template, show_thrown}
use typedb_client_java.Effect.{Result, ok, err, Eff, pure, ◌>>=◌}
use typedb_client_java.Rpc.Messages.{DatabaseProto}
use typedb_client_java.Rpc.Messages
use typedb_client_java.Rpc.Stub.{GrpcStub, Credential}
use typedb_client_java.Rpc.Stub
use typedb_client_java.Transport.BlockingQueue.{update}
use typedb_client_java.Connection.Network.{ServerDriver, Network}
use typedb_client_java.Connection.Database.{Replica, replicas_of, fetch_replicas}
use typedb_client_java.Connection.Stubs.{Stubs, state_of, network_of}
use typedb_client_java.Connection.Stubs.Reachable.{
  IsDown, IsUp, unary-Fails, unary-answers, no_other, fetch_replicas-reachable,
}
use typedb_client_java.Connection.Databases.{
  Databases, contains, get, run_failsafe, failsafe_from, on_error, with_stub, get_there, from_cache,
  cached_or_fetched, fetch_database, new_database, Cached, database, inherited, is_inherited,
  DatabaseObject,
}

-- The loop of `runFailsafe` over any task.
module _ {W T : Type 0} (net : Network W) (server_drivers : Assoc ServerDriver) (name : String)
    (task : Option ServerDriver → Eff W T) where
  abbrev Refused : ServerDriver → Type 0
  Refused d =
      (w : W)
      → (e : Thrown) × (has_template Driver.cloud_replica_not_primary e ≡ false)
        × ((task (some d) w).0 ≡ err e)

  failsafe-reaches :
      (pre rest : List ServerDriver) (d : ServerDriver) (a : T) (errors : String) (s : Databases W)
      → All Refused pre
      → ((w : W) → (task (some d) w).0 ≡ ok a)
      → (v : W) × (failsafe_from net server_drivers name task (pre ++ d ∷ rest) errors s
          ≡ (ok a, record s { world = v }))
  unfolding failsafe_from on_error
  failsafe-reaches [] rest d a errors s h k = ((task (some d) s.world).1, ground (arith, k s.world))
  failsafe-reaches (x ∷ pre) rest d a errors s (h, hs) k =
      let (e, other, at) = h s.world in
      let again =
        failsafe-reaches pre rest d a
          (append_text errors (
            append_text "- "
              (append_text x.address (append_text ": " (append_text (show_thrown e) "\n")))))
          (record s { world = (task (some x) s.world).1 }) hs k in
      (again.0, ground (arith, at, other, again.1))

  fetched :
      (s : Databases W) (rs : List Replica)
      → (fetch_replicas net server_drivers name s.world).0 ≡ ok rs
      → fetch_database net server_drivers name s ≡ (
        ok s.allocated,
        record {
          cache = insert name s.allocated s.cache;
          heap = update s.heap s.allocated (record { name = name; replicas = rs });
          allocated = suc s.allocated;
          world = (fetch_replicas net server_drivers name s.world).1;
        },
      )
  unfolding fetch_database new_database
  fetched s rs at = ground (arith, at)

got :
    {W : Type 0} (net : Network W) (server_drivers : Assoc ServerDriver) (name : String)
    (s : Databases W) (v : W)
    → contains net server_drivers name s ≡ (ok true, record s { world = v })
    → lookup name s.cache ≡ none
    → get net server_drivers name s
      ≡ (if is_inherited name
            then pure (inherited name)
            else (fetch_database net server_drivers name >>= λ a. pure (database a)))
          (record s { world = v })
unfolding get get_there from_cache cached_or_fetched
got net server_drivers name s v there absent = ground (arith, there, absent)

-- What getting a database that is not in the cache gives, by whether its name is inherited.
abbrev pub Gets :
    {W : Type 0}
    → String
    → Bool
    → Databases W
    → Result Cached
    → Databases W
    → DatabaseObject
    → Type 0
Gets name true s r t made =
    (r ≡ ok (inherited name)) × (t.cache ≡ s.cache) × (t.allocated ≡ s.allocated)
Gets name false s r t made =
    (r ≡ ok (database s.allocated))
    × (lookup name t.cache ≡ some s.allocated)
    × (t.heap s.allocated ≡ made)

update_self : {A : Type 0} (f : ℕ → A) (n : ℕ) (a : A) → update f n a n ≡ a
update_self f n a = ground arith

-- The state after a database was made.
abbrev with_database : {W : Type 0} → String → DatabaseObject → Databases W → W → Databases W
with_database name made s w = record {
  cache = insert name s.allocated s.cache;
  heap = update s.heap s.allocated made;
  allocated = suc s.allocated;
  world = w;
}

gets :
    {W : Type 0} (name : String) (b : Bool) (s : Databases W) (v w : W) (made : DatabaseObject)
    (fetch : Eff (Databases W) ℕ) (q : Result Cached × Databases W)
    → q
      ≡ (if b then pure (inherited name) else (fetch >>= λ a. pure (database a)))
          (record s { world = v })
    → fetch (record s { world = v }) ≡ (ok s.allocated, with_database name made s w)
    → Gets name b s q.0 q.1 made
gets name true s v w made fetch q h k =
    (ap (λ p. p.0) h, ap (λ p. p.1.cache) h, ap (λ p. p.1.allocated) h)
gets name false s v w made fetch q h k =
    let at : q ≡ (ok (database s.allocated), with_database name made s w) =
      h ∙ ap (λ p. elim p.0 [ ok a ↦ (ok (database a), p.1) | err e ↦ (err e, p.1) ]) k in
    (
      ap (λ p. p.0) at,
      ap (λ p. lookup name p.1.cache) at ∙ lookup-insert_self name s.allocated s.cache,
      ap (λ p. p.1.heap s.allocated) at ∙ update_self s.heap s.allocated made,
    )

module _ {W : Type 0} (grpc : ℕ → GrpcStub W) (c : Option Credential) (sleep : ℕ → W → W)
    (server_drivers : Assoc ServerDriver) (name : String) where
  net : Network (Stubs W)
  net = network_of grpc c sleep

  -- The task of `contains`.
  abbrev task : Option ServerDriver → Eff (Stubs W) Bool
  task =
      with_stub net server_drivers
        (λ n. net.databases_contains n (Messages.databases_contains name))

  task-down :
      (d : ServerDriver) (s : Stubs W)
      → IsDown grpc c sleep server_drivers name d
      → (e : Thrown) × (has_template Driver.cloud_replica_not_primary e ≡ false)
        × ((task (some d) s).0 ≡ err e)
  unfolding with_stub net network_of Stub.databases_contains
  task-down d s down =
      let (e, template, at) =
        unary-Fails (grpc d.stub) c
          ((grpc d.stub).databases_contains (Messages.databases_contains name)) (state_of d.stub s)
          down.1 in
      (
        raised (of_service e),
        no_other Driver.cloud_replica_not_primary (raised (of_service e)) (cc) template,
        ground (arith, at),
      )

  task-up :
      (d : ServerDriver) (p : DatabaseProto) (s : Stubs W)
      → IsUp grpc c sleep server_drivers name d p
      → (task (some d) s).0 ≡ ok true
  unfolding with_stub net network_of Stub.databases_contains
  task-up d p s up =
      let at =
        unary-answers (grpc d.stub) c
          ((grpc d.stub).databases_contains (Messages.databases_contains name)) (state_of d.stub s)
          true up.contains in
      ground (arith, at)

  downs-Refused :
      (pre : List ServerDriver)
      → All (IsDown grpc c sleep server_drivers name) pre
      → All (Refused net server_drivers name task) pre
  downs-Refused [] h = tt
  downs-Refused (d ∷ pre) (down, downs) = ((λ w. task-down d w down), downs-Refused pre downs)

  -- Where the first servers are not reached and the next one has the database, getting a database that
  -- is not in the cache gives a new database object, with the replicas that this server answers with,
  -- and files it in the cache under its name; but a name that is a key of `Object.prototype` gives the
  -- member of that name, and makes and files no database.
  pub get-reachable :
      (pre rest : List ServerDriver) (d : ServerDriver) (p : DatabaseProto)
      (s : Databases (Stubs W))
      → values server_drivers ≡ pre ++ d ∷ rest
      → All (IsDown grpc c sleep server_drivers name) pre
      → IsUp grpc c sleep server_drivers name d p
      → lookup name s.cache ≡ none
      → let (r, t) = get (network_of grpc c sleep) server_drivers name s in
        Gets name (is_inherited name) s r t (record {
          name = name;
          replicas = replicas_of (network_of grpc c sleep) server_drivers name p;
        })
  unfolding contains run_failsafe net
  get-reachable pre rest d p s all downs up absent =
      let (v, there) =
        failsafe-reaches net server_drivers name task pre rest d true "" s (downs-Refused pre downs)
          (λ w. task-up d p w up) in
      let made =
        fetched net server_drivers name task (record s { world = v }) _
          (fetch_replicas-reachable grpc c sleep server_drivers name pre rest d p v all downs up) in
      let listed = ap (λ ds. failsafe_from net server_drivers name task ds "" s) all in
      gets name (is_inherited name) s v _ _ (fetch_database net server_drivers name) _
        (got net server_drivers name s v (listed ∙ there) absent) made
