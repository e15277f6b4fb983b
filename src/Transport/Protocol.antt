-- ===== src/Transport/Protocol.antt =====
-- The protobuf messages of a transaction's stream. `body` stands for the fields that the stream
-- itself does not read.
use typedb_client_java.Prelude.{String}

pub data TransactionType : Type 0 where
  read write : TransactionType

-- The requests that the driver's core makes; `other` is a query, concept or logic request.
pub data RequestBody : Type 0 where
  open_req : (session_id : String) → TransactionType → RequestBody
  commit_req rollback_req stream_req : RequestBody
  other : String → RequestBody

pub record TransactionReq : Type 0 where
  pub req_id : String
  pub body : RequestBody

pub record TransactionRes : Type 0 where
  pub req_id : String
  pub body : String

-- The enumeration `TransactionStreamState`; the wire can hold further numbers.
pub data StreamState : Type 0 where
  done continue unrecognised : StreamState

pub data PartBody : Type 0 where
  stream_res_part : StreamState → PartBody
  answers : String → PartBody

pub record TransactionResPart : Type 0 where
  pub req_id : String
  pub body : PartBody

-- `TransactionServer`: its fields `has_res` and `has_res_part` say which it holds.
pub data TransactionServer : Type 0 where
  res : TransactionRes → TransactionServer
  res_part : TransactionResPart → TransactionServer
  neither : TransactionServer
