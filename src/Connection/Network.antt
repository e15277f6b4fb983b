-- ===== src/Connection/Network.antt =====
-- What the connection uses of the servers' stubs (nodejs/common/rpc/TypeDBStub.ts) and of timers, as
-- an interface: `W` is the state of everything beyond the objects of the connection. A server's
-- driver is referred to by its address and the number of the stub that it holds.
use typedb_client_java.Prelude.{ℕ, String, List, Bool}
use typedb_client_java.Effect.{Eff}
use typedb_client_java.Rpc.Messages.{Request, DatabaseProto, UserProto}

-- nodejs/connection/TypeDBDriverImpl.ts, `ServerDriver`.
pub record ServerDriver : Type 0 where
  pub address : String
  pub stub : ℕ

pub record Network (W : Type 0) : Type 0 where
  -- The methods of a stub.
  pub databases_get : ℕ → Request → Eff W DatabaseProto
  pub databases_all : ℕ → Request → Eff W (List DatabaseProto)
  pub databases_contains : ℕ → Request → Eff W Bool
  pub databases_create : ℕ → Request → Eff W (Unit {0})
  pub database_delete : ℕ → Request → Eff W (Unit {0})
  pub database_schema : ℕ → Request → Eff W String
  pub database_type_schema : ℕ → Request → Eff W String
  pub database_rule_schema : ℕ → Request → Eff W String
  pub users_all : ℕ → Request → Eff W (List UserProto)
  pub users_contains : ℕ → Request → Eff W Bool
  pub users_create : ℕ → Request → Eff W (Unit {0})
  pub users_delete : ℕ → Request → Eff W (Unit {0})
  pub users_get : ℕ → Request → Eff W UserProto
  pub users_password_set : ℕ → Request → Eff W (Unit {0})
  pub user_password_update : ℕ → Request → Eff W (Unit {0})
  -- `setTimeout` on its own, in milliseconds.
  pub sleep : ℕ → W → W
