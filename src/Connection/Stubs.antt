-- ===== src/Connection/Stubs.antt =====
-- The stubs of the servers (nodejs/connection/TypeDBStubImpl.ts) as the connection calls them through
-- its `ServerDriver`s: each has its own channel and token, and all share the world.
pub mod Reachable
use typedb_client_java.Prelude.{ℕ, String, Option, Bool, ◌==◌, if◌then◌else◌}
use typedb_client_java.Effect.{Eff}
use typedb_client_java.Rpc.Stub.{GrpcStub, StubState, Credential}
use typedb_client_java.Rpc.Stub
use typedb_client_java.Connection.Network.{Network}

-- The field `_token` of each stub, beside the network.
pub record Stubs (W : Type 0) : Type 0 where
  pub tokens : ℕ → Option String
  pub world : W

-- The state of one stub.
unfoldable pub state_of : {W : Type 0} → ℕ → Stubs W → StubState W
state_of n s = record { token = s.tokens n; world = s.world }

unfoldable pub with_state : {W : Type 0} → ℕ → StubState W → Stubs W → Stubs W
with_state n t s = record { tokens = λ k. if k == n then t.token else s.tokens k; world = t.world }

-- A method of one stub.
abbrev pub on_stub : {W A : Type 0} → ℕ → Eff (StubState W) A → Eff (Stubs W) A
on_stub n m s = let (r, t) = m (state_of n s) in (r, with_state n t s)

unfoldable pub network_of :
    {W : Type 0} → (ℕ → GrpcStub W) → Option Credential → (ℕ → W → W) → Network (Stubs W)
network_of grpc c sleep = record {
  databases_get = λ n r. on_stub n (Stub.databases_get (grpc n) c r);
  databases_all = λ n r. on_stub n (Stub.databases_all (grpc n) c r);
  databases_contains = λ n r. on_stub n (Stub.databases_contains (grpc n) c r);
  databases_create = λ n r. on_stub n (Stub.databases_create (grpc n) c r);
  database_delete = λ n r. on_stub n (Stub.database_delete (grpc n) c r);
  database_schema = λ n r. on_stub n (Stub.database_schema (grpc n) c r);
  database_type_schema = λ n r. on_stub n (Stub.database_type_schema (grpc n) c r);
  database_rule_schema = λ n r. on_stub n (Stub.database_rule_schema (grpc n) c r);
  users_all = λ n r. on_stub n (Stub.users_all (grpc n) c r);
  users_contains = λ n r. on_stub n (Stub.users_contains (grpc n) c r);
  users_create = λ n r. on_stub n (Stub.users_create (grpc n) c r);
  users_delete = λ n r. on_stub n (Stub.users_delete (grpc n) c r);
  users_get = λ n r. on_stub n (Stub.users_get (grpc n) c r);
  users_password_set = λ n r. on_stub n (Stub.users_password_set (grpc n) c r);
  user_password_update = λ n r. on_stub n (Stub.user_password_update (grpc n) c r);
  sleep = λ ms s. record s { world = sleep ms s.world };
}
