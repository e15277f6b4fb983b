-- ===== src/Connection/Stubs/Reachable.antt =====
-- The failover of nodejs/connection over the errors that nodejs/common/rpc/TypeDBStub.ts gives.
use typedb_client_java.Prelude.{
  ℕ, String, List, [], ◌∷◌, ◌++◌, Option, none, some, true, false, ◌≡◌, ◌≢◌, Bool-cases, refl, ap,
  ◌∙◌, inl, inr, arith, All, sym,
}
use typedb_client_java.Prelude.Assoc.{Assoc, values}
use typedb_client_java.Errors.Templates.{Driver, driver, ErrorMessage}
use typedb_client_java.Errors.DriverError.{
  ServiceError, Status, Thrown, raised, of_service, is_unreachable, is_unimplemented, templated,
  has_template, template_of,
}
use typedb_client_java.Errors.DriverError.Laws.{has_template_iff}
use typedb_client_java.Effect.{Result, ok, err, try_each, try_each-reaches}
use typedb_client_java.Rpc.Messages.{Request, DatabaseProto}
use typedb_client_java.Rpc.Messages
use typedb_client_java.Rpc.Stub.{
  GrpcStub, StubState, Credential, Metadata, Call, Outcome, failed, replied, unary, wrapped,
  may_renew_token, call_credentials,
}
use typedb_client_java.Rpc.Stub.Laws.{may_renew_token-once}
use typedb_client_java.Rpc.Stub
use typedb_client_java.Connection.Network.{ServerDriver}
use typedb_client_java.Connection.Database.{
  fetch_from, unreachable, fetch_replicas, replicas_of, skips_server,
}
use typedb_client_java.Connection.Stubs.{Stubs, state_of, network_of}

-- A call that always fails, with an error for a server that is not reached.
abbrev pub Fails : {W A : Type 0} → Call W A → Type 0
Fails {W} call =
    (m : Option Metadata) (w : W)
    → (e : ServiceError) × (is_unreachable e.code ≡ true) × ((call m w).0 ≡ failed e)

-- A call that always has the same answer.
abbrev pub Answers : {W A : Type 0} → A → Call W A → Type 0
Answers {W} a call = (m : Option Metadata) (w : W) → (call m w).0 ≡ replied a

reached_not-unimplemented : (c : Status) → is_unreachable c ≡ true → is_unimplemented c ≡ false
unfolding is_unreachable is_unimplemented
reached_not-unimplemented Status.unavailable h = refl
reached_not-unimplemented Status.unknown h = refl
reached_not-unimplemented Status.cancelled h = refl
reached_not-unimplemented Status.unimplemented h = cc
reached_not-unimplemented Status.internal h = refl
reached_not-unimplemented Status.other h = refl

-- The error that is made of it tells that the driver could not connect.
pub of_service-unreachable :
    (e : ServiceError)
    → is_unreachable e.code ≡ true
    → (of_service e).message_template ≡ some (driver Driver.unable_to_connect)
unfolding of_service templated
of_service-unreachable e h = ground (arith, h, reached_not-unimplemented e.code h)

-- An error with this template has none of the others.
pub no_other :
    (t : Driver) (f : Thrown)
    → t ≢ Driver.unable_to_connect
    → template_of f ≡ some (driver Driver.unable_to_connect)
    → has_template t f ≡ false
no_other t f other h = elim (Bool-cases (has_template t f)) [
  | inl same_one ↦ ground (arith, has_template_iff t f)
  | inr different ↦ different
]

-- What a call ends with once its error is wrapped.
abbrev outcome : {A : Type 0} → Outcome A → Result A
outcome (failed e) = err (wrapped e)
outcome (replied a) = ok a

-- A failure is for want of a connection.
abbrev Unreached : {A : Type 0} → Outcome A → Type 0
Unreached (failed e) = is_unreachable e.code ≡ true
Unreached (replied a) = Unit

module _ {W A : Type 0} (grpc : GrpcStub W) (c : Option Credential) (call : Call W A)
    (s : StubState W) where
  unary-outcome :
      (r : Outcome A)
      → (call (call_credentials c s.token) s.world).0 ≡ r
      → (unary c wrapped call s).0 ≡ outcome r
  unfolding unary
  unary-outcome (failed e) at = ground (arith, at)
  unary-outcome (replied a) at = ground (arith, at)

  no_renewal :
      (r : Outcome A) (f : Thrown)
      → Unreached r
      → outcome r ≡ err f
      → has_template Driver.cloud_token_credential_invalid f ≡ false
  unfolding wrapped
  no_renewal (failed e) f down bad =
      no_other Driver.cloud_token_credential_invalid f (cc)
        (ap (λ r. told r) (sym bad) ∙ of_service-unreachable e down)
    where
      told : Result A → Option ErrorMessage
      told (err f) = template_of f
      told (ok a) = none
  no_renewal (replied a) f down bad = cc

  -- A call that is answered, or fails for want of a connection, is made once only.
  unary-once :
      (r : Outcome A)
      → (call (call_credentials c s.token) s.world).0 ≡ r
      → Unreached r
      → (may_renew_token grpc c (unary c wrapped call) s).0 ≡ outcome r
  unary-once r at down =
      ap (λ p. p.0)
        (may_renew_token-once grpc c (unary c wrapped call) s
          (inr (λ f bad. no_renewal r f down (sym (unary-outcome r at) ∙ bad))))
      ∙ unary-outcome r at

  pub unary-Fails :
      Fails call
      → (e : ServiceError) × (template_of (raised (of_service e))
          ≡ some (driver Driver.unable_to_connect))
        × ((may_renew_token grpc c (unary c wrapped call) s).0 ≡ err (raised (of_service e)))
  unfolding wrapped
  unary-Fails fails =
      let (e, down, at) = fails (call_credentials c s.token) s.world in
      (e, of_service-unreachable e down, unary-once (failed e) at down)

  pub unary-answers :
      (a : A) → Answers a call → (may_renew_token grpc c (unary c wrapped call) s).0 ≡ ok a
  unary-answers a answers = unary-once (replied a) (answers (call_credentials c s.token) s.world) tt

module _ {W : Type 0} (grpc : ℕ → GrpcStub W) (c : Option Credential) (sleep : ℕ → W → W)
    (server_drivers : Assoc ServerDriver) (name : String) where
  -- A server that no call about the database reaches, and one that answers them.
  abbrev pub IsDown : ServerDriver → Type 0
  IsDown d =
      Fails ((grpc d.stub).databases_get (Messages.databases_get name))
      × Fails ((grpc d.stub).databases_contains (Messages.databases_contains name))

  pub record IsUp (d : ServerDriver) (p : DatabaseProto) : Type 0 where
    pub gets : Answers p ((grpc d.stub).databases_get (Messages.databases_get name))
    pub contains :
        Answers true ((grpc d.stub).databases_contains (Messages.databases_contains name))

  fetch_from-down :
      (d : ServerDriver) (s : Stubs W)
      → IsDown d
      → (e : Thrown) × (skips_server e ≡ true)
        × ((fetch_from (network_of grpc c sleep) server_drivers name d s).0 ≡ err e)
  unfolding fetch_from network_of skips_server Stub.databases_get
  fetch_from-down d s down =
      let (e, template, at) =
        unary-Fails (grpc d.stub) c ((grpc d.stub).databases_get (Messages.databases_get name))
          (state_of d.stub s) down.0 in
      (
        raised (of_service e),
        ground (arith, has_template_iff Driver.unable_to_connect (raised (of_service e))),
        ground (arith, at),
      )

  fetch_from-up :
      (d : ServerDriver) (p : DatabaseProto) (s : Stubs W)
      → IsUp d p
      → (fetch_from (network_of grpc c sleep) server_drivers name d s).0
        ≡ ok (replicas_of (network_of grpc c sleep) server_drivers name p)
  unfolding fetch_from network_of Stub.databases_get
  fetch_from-up d p s up =
      let at =
        unary-answers (grpc d.stub) c ((grpc d.stub).databases_get (Messages.databases_get name))
          (state_of d.stub s) p up.gets in
      ground (arith, at)

  downs-skipped :
      (pre : List ServerDriver)
      → All IsDown pre
      → All
          (λ d.
            (s : Stubs W)
            → (e : Thrown) × (skips_server e ≡ true)
              × ((fetch_from (network_of grpc c sleep) server_drivers name d s).0 ≡ err e))
          pre
  downs-skipped [] h = tt
  downs-skipped (d ∷ pre) (down, downs) = ((λ s. fetch_from-down d s down), downs-skipped pre downs)

  -- Where the first servers are not reached and the next one answers with the database, fetching the
  -- replicas gives those that it answers with.
  pub fetch_replicas-reachable :
      (pre rest : List ServerDriver) (d : ServerDriver) (p : DatabaseProto) (s : Stubs W)
      → values server_drivers ≡ pre ++ d ∷ rest
      → All IsDown pre
      → IsUp d p
      → (fetch_replicas (network_of grpc c sleep) server_drivers name s).0
        ≡ ok (replicas_of (network_of grpc c sleep) server_drivers name p)
  unfolding fetch_replicas
  fetch_replicas-reachable pre rest d p s all downs up =
      ap
        (λ ds.
          (try_each (fetch_from (network_of grpc c sleep) server_drivers name) skips_server
            unreachable ds s).0)
        all
      ∙ try_each-reaches (fetch_from (network_of grpc c sleep) server_drivers name) skips_server
          unreachable pre rest d _ s (downs-skipped pre downs) (λ t. fetch_from-up d p t up)
