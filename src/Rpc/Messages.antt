-- ===== src/Rpc/Messages.antt =====
-- The protobuf messages that the connection exchanges with a server, as the records of their fields.
-- Requests are built as in nodejs/common/rpc/RequestBuilder.ts; the fixed protocol version of the
-- connection request and the byte form of session ids are left out.
use typedb_client_java.Prelude.{ℕ, String, List, Bool}

pub data SessionType : Type 0 where
  data_session schema_session : SessionType

pub data Request : Type 0 where
  databases_get databases_create databases_contains : (name : String) → Request
  databases_all : Request
  database_schema database_type_schema database_rule_schema database_delete :
      (name : String) → Request
  servers_all : Request
  users_contains users_delete users_get : (username : String) → Request
  users_create users_password_set : (username password : String) → Request
  users_all : Request
  user_password_update : (username password_old password_new : String) → Request
  user_token : (username : String) → Request
  connection_open : Request
  session_open : (database : String) → SessionType → Request
  session_close session_pulse : (session_id : String) → Request

-- Responses.
pub record ReplicaProto : Type 0 where
  pub address : String
  pub term : ℕ
  pub primary : Bool
  pub preferred : Bool

pub record DatabaseProto : Type 0 where
  pub name : String
  pub replicas : List ReplicaProto

pub record UserProto : Type 0 where
  pub username : String
  pub has_password_expiry_seconds : Bool
  pub password_expiry_seconds : ℕ

pub record SessionOpenRes : Type 0 where
  pub session_id : String
  pub server_duration_millis : ℕ
