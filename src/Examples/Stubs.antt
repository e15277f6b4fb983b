-- ===== src/Examples/Stubs.antt =====
-- nodejs/common/rpc/TypeDBStub.ts on a server that rejects every call but that for a token. The world
-- counts the calls.
use typedb_client_java.Prelude.{ℕ, suc, none, some}
use typedb_client_java.Errors.Templates.{Driver, driver}
use typedb_client_java.Errors.DriverError.{ServiceError, Status, Thrown, raised}
use typedb_client_java.Effect.{ok, err, Eff}
use typedb_client_java.Rpc.Messages.{Request}
use typedb_client_java.Rpc.Stub.{
  GrpcStub, StubState, Credential, failed, replied, Call, may_renew_token,
}
use typedb_client_java.Rpc.Stub.Laws.{Renews, asked, may_renew_token-retries}

abbrev refused : ServiceError
refused = record {
  code = Status.internal;
  message = "refused";
  details = "refused";
  text = "Error: refused";
}

abbrev refusing : {A : Type 0} → Request → Call ℕ A
refusing r m w = (failed refused, suc w)

abbrev pub grpc : GrpcStub ℕ
grpc = record {
  connection_open = refusing;
  servers_all = refusing;
  databases_create = refusing;
  databases_contains = refusing;
  databases_get = refusing;
  databases_all = refusing;
  database_delete = refusing;
  database_schema = refusing;
  database_type_schema = refusing;
  database_rule_schema = refusing;
  session_open = refusing;
  session_pulse = refusing;
  users_all = refusing;
  users_contains = refusing;
  users_create = refusing;
  users_delete = refusing;
  users_password_set = refusing;
  users_get = refusing;
  user_password_update = refusing;
  session_close = refusing;
  user_token = λ r m w. (replied "token", suc w);
  close = λ w. w;
}

abbrev alice : Credential
alice = record { username = "alice"; password = "secret" }

abbrev start : StubState ℕ
start = record { token = none; world = 0 }

abbrev invalid : Thrown
invalid = raised (record {
  text = "invalid";
  message_template = some (driver Driver.cloud_token_credential_invalid);
})

-- A call that accepts any token.
abbrev needs_token : Eff (StubState ℕ) ℕ
needs_token s = elim s.token [ none ↦ (err invalid, s) | some t ↦ (ok 1, s) ]

may_renew_token-retries_example :
    Renews needs_token
      (asked grpc alice)
      (needs_token start)
      (may_renew_token grpc (some alice) needs_token start)
may_renew_token-retries_example = may_renew_token-retries grpc alice needs_token start
