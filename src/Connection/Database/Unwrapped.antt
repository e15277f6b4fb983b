-- ===== src/Connection/Database/Unwrapped.antt =====
-- The schemas in nodejs/connection/TypeDBDatabaseImpl.ts over the calls of nodejs/common/rpc/TypeDBStub.ts
-- that do not wrap their errors.
use typedb_client_java.Prelude.{ℕ, String, List, ◌∷◌, Option, some, false, ◌≡◌, refl, ap, arith}
use typedb_client_java.Prelude.Assoc.{Assoc}
use typedb_client_java.Errors.Templates.{Driver}
use typedb_client_java.Errors.DriverError.{ServiceError, service, has_template}
use typedb_client_java.Effect.{Result, err, Eff, try_each}
use typedb_client_java.Rpc.Messages.{Request}
use typedb_client_java.Rpc.Messages
use typedb_client_java.Rpc.Stub.{
  GrpcStub, StubState, Credential, Call, failed, call_credentials, unary, may_renew_token,
}
use typedb_client_java.Rpc.Stub.Laws.{raw_error-once}
use typedb_client_java.Rpc.Stub
use typedb_client_java.Connection.Network.{ServerDriver, Network}
use typedb_client_java.Connection.Stubs.{Stubs, state_of, with_state, on_stub, network_of}
use typedb_client_java.Connection.Database.{
  State, Replica, run_failsafe, run_on_any_replica, fall_back, task_on, on_driver, schema,
  type_schema, rule_schema,
}

-- A raw error has no template.
service-no_template : (t : Driver) (e : ServiceError) → has_template t (service e) ≡ false
unfolding has_template
service-no_template t e = refl

module _ {W T : Type 0} (net : Network W) (server_drivers : Assoc ServerDriver) (name : String)
    (call : ℕ → String → Eff W T) where
  -- The call of the first replica's server ends the method where it fails with a raw error.
  raw-ends :
      (r : Replica) (rs : List Replica) (d : ServerDriver) (e : ServiceError) (s : State W) (w : W)
      → s.replicas ≡ r ∷ rs
      → r.database.driver ≡ some d
      → call d.stub r.database.name s.world ≡ (err (service e), w)
      → run_failsafe net server_drivers name (on_driver net server_drivers name call) s
        ≡ (err (service e), record s { world = w })
  unfolding run_failsafe run_on_any_replica fall_back task_on try_each on_driver
  raw-ends r rs d e s w listed driver lost = ground (
    arith,
    listed,
    driver,
    failed,
    service-no_template Driver.unable_to_connect e,
    service-no_template Driver.cloud_replica_not_primary e,
  )

module _ {W : Type 0} (grpc : ℕ → GrpcStub W) (c : Option Credential) (sleep : ℕ → W → W)
    (server_drivers : Assoc ServerDriver) (name : String) where
  -- What a call for a schema comes to: the error of the call as it is, and the world after it.
  abbrev pub EndsRaw :
      (ServiceError × W) → ℕ → State (Stubs W) → Result String × State (Stubs W) → Type 0
  EndsRaw (e, w) n s p = p ≡ (
    err (service e),
    record s { world = with_state n (record { token = s.world.tokens n; world = w }) s.world },
  )

  abbrev moved : {A : Type 0} → ℕ → Stubs W → Result A × StubState W → Result A × Stubs W
  moved n s p = (p.0, with_state n p.1 s)

  -- A call of stub `n` fails.
  abbrev pub FailsWith : (ServiceError × W) → ℕ → Call W String → Stubs W → Type 0
  FailsWith (e, w) n call s = call (call_credentials c (s.tokens n)) s.world ≡ (failed e, w)

  pub record Lost (n : ℕ) (database : String) (s : Stubs W) (e : ServiceError) (w : W)
      : Type 0 where
    pub schema : FailsWith (e, w) n ((grpc n).database_schema (Messages.database_schema database)) s
    pub type_schema :
        FailsWith
          (e, w)
          n
          ((grpc n).database_type_schema (Messages.database_type_schema database))
          s
    pub rule_schema :
        FailsWith
          (e, w)
          n
          ((grpc n).database_rule_schema (Messages.database_rule_schema database))
          s

  -- A method of the stub that makes one call, which fails.
  on_stub-raw :
      (n : ℕ) (call : Call W String) (s : Stubs W) (e : ServiceError) (w : W)
      → FailsWith (e, w) n call s
      → on_stub n (may_renew_token (grpc n) c (unary c service call)) s
        ≡ (err (service e), with_state n (record { token = s.tokens n; world = w }) s)
  unfolding state_of
  on_stub-raw n call s e w h = ap (moved n s) (raw_error-once (grpc n) c call (state_of n s) e w h)

  -- Where the calls for a schema fail on the server of the first replica, whatever the reason, the
  -- methods end with the error of this call as gRPC gives it, which has no template: no other replica
  -- is asked, and the world is that after this one call. It is so for the whole schema, that of the
  -- types and that of the rules.
  pub schema-EndsRaw :
      (r : Replica) (rs : List Replica) (d : ServerDriver) (e : ServiceError) (w : W)
      (s : State (Stubs W))
      → s.replicas ≡ r ∷ rs
      → r.database.driver ≡ some d
      → Lost d.stub r.database.name s.world e w
      → EndsRaw (e, w) d.stub s (schema (network_of grpc c sleep) server_drivers name s)
        × EndsRaw (e, w) d.stub s (type_schema (network_of grpc c sleep) server_drivers name s)
        × EndsRaw (e, w) d.stub s (rule_schema (network_of grpc c sleep) server_drivers name s)
  unfolding schema type_schema rule_schema network_of Stub.database_schema Stub.database_type_schema
      Stub.database_rule_schema
  schema-EndsRaw r rs d e w s listed driver lost =
      let net = network_of grpc c sleep in
      (
        raw-ends net server_drivers name (λ n b. net.database_schema n (Messages.database_schema b))
            r rs d e s _ listed driver
            (on_stub-raw d.stub
              ((grpc d.stub).database_schema (Messages.database_schema r.database.name)) s.world e w
              lost.schema),
        raw-ends net server_drivers name
            (λ n b. net.database_type_schema n (Messages.database_type_schema b)) r rs d e s _
            listed driver
            (on_stub-raw d.stub
              ((grpc d.stub).database_type_schema (Messages.database_type_schema r.database.name))
              s.world e w lost.type_schema),
        raw-ends net server_drivers name
            (λ n b. net.database_rule_schema n (Messages.database_rule_schema b)) r rs d e s _
            listed driver
            (on_stub-raw d.stub
              ((grpc d.stub).database_rule_schema (Messages.database_rule_schema r.database.name))
              s.world e w lost.rule_schema),
      )
