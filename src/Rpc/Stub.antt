-- ===== src/Rpc/Stub.antt =====
-- nodejs/common/rpc/TypeDBStub.ts and nodejs/connection/TypeDBStubImpl.ts. gRPC's generated stub and
-- its channel are the parameter `GrpcStub`; `W` is the state of the network and the server. The
-- transaction call is modelled with its stream.
pub mod Laws
use typedb_client_java.Prelude.{String, List, Option, none, some, Bool, true, false, if◌then◌else◌}
use typedb_client_java.Errors.Templates.{Driver}
use typedb_client_java.Errors.DriverError.{
  ServiceError, Thrown, raised, service, of_service, is_service_error, has_template,
}
use typedb_client_java.Effect.{Result, ok, err, Eff, ◌>>=◌, ◌>>◌, throw, pure, try_catch, modify}
use typedb_client_java.Rpc.Messages.{Request, DatabaseProto, UserProto, SessionOpenRes}
use typedb_client_java.Rpc.Messages

pub record Credential : Type 0 where
  pub username : String
  pub password : String

-- What the call credentials add to a call.
pub data Secret : Type 0 where
  password token : String → Secret

pub record Metadata : Type 0 where
  pub username : String
  pub secret : Secret

-- The arguments `(err, res)` of a callback.
pub data Outcome (A : Type 0) : Type 0 where
  failed : ServiceError → Outcome A
  replied : A → Outcome A

abbrev pub Call : Type 0 → Type 0 → Type 0
Call W A = Option Metadata → W → Outcome A × W

pub record GrpcStub (W : Type 0) : Type 0 where
  pub connection_open : Request → Call W (Unit {0})
  pub servers_all : Request → Call W (List String)
  pub databases_create : Request → Call W (Unit {0})
  pub databases_contains : Request → Call W Bool
  pub databases_get : Request → Call W DatabaseProto
  pub databases_all : Request → Call W (List DatabaseProto)
  pub database_delete : Request → Call W (Unit {0})
  pub database_schema : Request → Call W String
  pub database_type_schema : Request → Call W String
  pub database_rule_schema : Request → Call W String
  pub session_open : Request → Call W SessionOpenRes
  pub session_pulse : Request → Call W Bool
  pub users_all : Request → Call W (List UserProto)
  pub users_contains : Request → Call W Bool
  pub users_create : Request → Call W (Unit {0})
  pub users_delete : Request → Call W (Unit {0})
  pub users_password_set : Request → Call W (Unit {0})
  pub users_get : Request → Call W UserProto
  pub user_password_update : Request → Call W (Unit {0})
  pub session_close : Request → Call W (Unit {0})
  pub user_token : Request → Call W String
  pub close : W → W

-- The field `_token`, beside the network.
pub record StubState (W : Type 0) : Type 0 where
  pub token : Option String
  pub world : W

-- `createCallCredentials`: the callback runs at each call.
unfoldable pub call_credentials : Option Credential → Option String → Option Metadata
call_credentials none t = none
call_credentials (some c) none =
    some (record { username = c.username; secret = password c.password })
call_credentials (some c) (some t) = some (record { username = c.username; secret = token t })

-- `reject(new TypeDBDriverError(err))`, against `reject(err)`.
unfoldable pub wrapped : ServiceError → Thrown
wrapped e = raised (of_service e)

module _ {W : Type 0} (credential : Option Credential) where
  -- `new Promise((resolve, reject) => stub.method(req, (err, res) => …))`
  unfoldable pub unary : {A : Type 0} → (ServiceError → Thrown) → Call W A → Eff (StubState W) A
  unfolding call_credentials
  unary reject call s =
      let (r, w) = call (call_credentials credential s.token) s.world in
      elim r [
        | failed e ↦ (err (reject e), record s { world = w })
        | replied a ↦ (ok a, record s { world = w })
      ]

module _ {W : Type 0} (grpc : GrpcStub W) (credential : Option Credential) where
  unfoldable pub user_token : Request → Eff (StubState W) String
  unfolding unary
  user_token req = unary credential service (grpc.user_token req)

  -- `this._token = await this.userToken(req)`
  unfoldable pub renew_token : Credential → Eff (StubState W) (Unit {0})
  unfolding user_token
  renew_token c = do
    t ← user_token (Messages.user_token c.username)
    modify (λ s. record s { token = some t })

  -- The inner `catch (e2)`.
  unfoldable pub rethrow : {A : Type 0} → Thrown → Eff (StubState W) A
  rethrow (service e) = throw (raised (of_service e))
  rethrow e = throw e

  renew_and_retry : {A : Type 0} → Credential → Eff (StubState W) A → Eff (StubState W) A
  unfolding renew_token rethrow
  renew_and_retry c fn = do
    modify (λ s. record s { token = none })
    renew_token c
    try_catch fn rethrow

  -- The outer `catch (e)`.
  on_error : {A : Type 0} → Option Credential → Eff (StubState W) A → Thrown → Eff (StubState W) A
  unfolding renew_and_retry
  on_error none fn e = throw e
  on_error (some c) fn e =
      if has_template Driver.cloud_token_credential_invalid e then renew_and_retry c fn else throw e

  unfoldable pub may_renew_token : {A : Type 0} → Eff (StubState W) A → Eff (StubState W) A
  unfolding on_error
  may_renew_token fn = try_catch fn (on_error credential fn)

  unfoldable pub connection_open : Request → Eff (StubState W) (Unit {0})
  unfolding unary wrapped may_renew_token
  connection_open req = may_renew_token (unary credential wrapped (grpc.connection_open req))

  unfoldable pub servers_all : Request → Eff (StubState W) (List String)
  unfolding unary wrapped may_renew_token
  servers_all req = may_renew_token (unary credential wrapped (grpc.servers_all req))

  unfoldable pub databases_create : Request → Eff (StubState W) (Unit {0})
  unfolding unary wrapped may_renew_token
  databases_create req = may_renew_token (unary credential wrapped (grpc.databases_create req))

  unfoldable pub databases_contains : Request → Eff (StubState W) Bool
  unfolding unary wrapped may_renew_token
  databases_contains req = may_renew_token (unary credential wrapped (grpc.databases_contains req))

  unfoldable pub databases_get : Request → Eff (StubState W) DatabaseProto
  unfolding unary wrapped may_renew_token
  databases_get req = may_renew_token (unary credential wrapped (grpc.databases_get req))

  unfoldable pub databases_all : Request → Eff (StubState W) (List DatabaseProto)
  unfolding unary wrapped may_renew_token
  databases_all req = may_renew_token (unary credential wrapped (grpc.databases_all req))

  unfoldable pub database_delete : Request → Eff (StubState W) (Unit {0})
  unfolding unary wrapped may_renew_token
  database_delete req = may_renew_token (unary credential service (grpc.database_delete req))

  unfoldable pub database_schema : Request → Eff (StubState W) String
  unfolding unary wrapped may_renew_token
  database_schema req = may_renew_token (unary credential service (grpc.database_schema req))

  unfoldable pub database_type_schema : Request → Eff (StubState W) String
  unfolding unary wrapped may_renew_token
  database_type_schema req =
      may_renew_token (unary credential service (grpc.database_type_schema req))

  unfoldable pub database_rule_schema : Request → Eff (StubState W) String
  unfolding unary wrapped may_renew_token
  database_rule_schema req =
      may_renew_token (unary credential service (grpc.database_rule_schema req))

  unfoldable pub session_open : Request → Eff (StubState W) SessionOpenRes
  unfolding unary wrapped may_renew_token
  session_open req = unary credential wrapped (grpc.session_open req)

  unfoldable pub session_pulse : Request → Eff (StubState W) Bool
  unfolding unary wrapped may_renew_token
  session_pulse req = unary credential service (grpc.session_pulse req)

  unfoldable pub users_all : Request → Eff (StubState W) (List UserProto)
  unfolding unary wrapped may_renew_token
  users_all req = may_renew_token (unary credential wrapped (grpc.users_all req))

  unfoldable pub users_contains : Request → Eff (StubState W) Bool
  unfolding unary wrapped may_renew_token
  users_contains req = may_renew_token (unary credential wrapped (grpc.users_contains req))

  unfoldable pub users_create : Request → Eff (StubState W) (Unit {0})
  unfolding unary wrapped may_renew_token
  users_create req = may_renew_token (unary credential wrapped (grpc.users_create req))

  unfoldable pub users_delete : Request → Eff (StubState W) (Unit {0})
  unfolding unary wrapped may_renew_token
  users_delete req = may_renew_token (unary credential wrapped (grpc.users_delete req))

  unfoldable pub users_password_set : Request → Eff (StubState W) (Unit {0})
  unfolding unary wrapped may_renew_token
  users_password_set req = may_renew_token (unary credential wrapped (grpc.users_password_set req))

  unfoldable pub users_get : Request → Eff (StubState W) UserProto
  unfolding unary wrapped may_renew_token
  users_get req = may_renew_token (unary credential wrapped (grpc.users_get req))

  unfoldable pub user_password_update : Request → Eff (StubState W) (Unit {0})
  unfolding unary wrapped may_renew_token
  user_password_update req =
      may_renew_token (unary credential wrapped (grpc.user_password_update req))

  -- A failure is logged only.
  unfoldable pub session_close : Request → Eff (StubState W) (Unit {0})
  unfolding unary
  session_close req = try_catch (unary credential service (grpc.session_close req)) (λ e. pure tt)

  unfoldable pub close : StubState W → StubState W
  close s = record s { world = grpc.close s.world }

  -- `open` of `TypeDBStubImpl`.
  fetch_token : Option Credential → Eff (StubState W) (Unit {0})
  unfolding renew_token
  fetch_token none = pure tt
  fetch_token (some c) = renew_token c

  -- The body of the `try`.
  connect : Eff (StubState W) (Unit {0})
  unfolding connection_open fetch_token
  connect = do connection_open Messages.connection_open; fetch_token credential

  unfoldable pub open_stub : Eff (StubState W) (Unit {0})
  unfolding connect is_service_error
  open_stub = try_catch connect (λ e. if is_service_error e then pure tt else throw e)
