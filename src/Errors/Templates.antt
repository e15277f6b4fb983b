-- ===== src/Errors/Templates.antt =====
-- nodejs/common/errors/ErrorMessage.ts: the constants of the namespaces `Driver`, `Concept`, `Query`
-- and `Internal`, their code numbers and their message bodies.
use Prim.Native.String.{◌++◌}
use typedb_client_java.Prelude.{ℕ, String, List, [], ◌∷◌, Bool, get_or}
use mathlib.Core.Bool.{decide}

pub data Driver : Type 0 where
  rpc_method_unavailable : Driver
  driver_not_open : Driver
  session_id_exists : Driver
  session_closed : Driver
  transaction_closed : Driver
  transaction_closed_with_errors : Driver
  unable_to_connect : Driver
  negative_value_not_allowed : Driver
  missing_db_name : Driver
  database_does_not_exist : Driver
  unknown_stream_state : Driver
  missing_response : Driver
  unknown_request_id : Driver
  cloud_no_primary_replica_yet : Driver
  cloud_unable_to_connect : Driver
  cloud_replica_not_primary : Driver
  cloud_all_nodes_failed : Driver
  user_management_cloud_only : Driver
  cloud_user_does_not_exist : Driver
  cloud_token_credential_invalid : Driver
  cloud_invalid_root_ca_path : Driver
  unrecognised_session_type : Driver
  missing_port : Driver
  address_translation_mismatch : Driver

pub data Concept : Type 0 where
  invalid_concept_casting : Concept
  missing_transaction : Concept
  missing_iid : Concept
  missing_label : Concept
  bad_encoding : Concept
  bad_value_type : Concept
  bad_annotation : Concept
  bad_attribute_value : Concept
  value_has_no_remote : Concept

pub data Query : Type 0 where
  variable_does_not_exist : Query
  nonexistent_explainable_concept : Query
  nonexistent_explainable_ownership : Query
  bad_answer_type : Query
  missing_answer : Query

pub data Internal : Type 0 where
  illegal_cast : Internal
  illegal_argument : Internal
  illegal_state : Internal

-- The four subclasses of `ErrorMessage`, each with its constants.
pub data ErrorMessage : Type 0 where
  driver : Driver → ErrorMessage
  concept : Concept → ErrorMessage
  query : Query → ErrorMessage
  internal : Internal → ErrorMessage

unfoldable pub ErrorMessage-discrete : Discrete ErrorMessage
ErrorMessage-discrete = hlevel

-- `a === b` on the constants, each of which is one object.
unfoldable pub same : ErrorMessage → ErrorMessage → Bool
same a b = decide (ErrorMessage-discrete a b)

abbrev pub driver_number : Driver → ℕ
driver_number rpc_method_unavailable = 1
driver_number driver_not_open = 2
driver_number session_id_exists = 3
driver_number session_closed = 4
driver_number transaction_closed = 5
driver_number transaction_closed_with_errors = 6
driver_number unable_to_connect = 7
driver_number negative_value_not_allowed = 8
driver_number missing_db_name = 9
driver_number database_does_not_exist = 10
driver_number unknown_stream_state = 11
driver_number missing_response = 12
driver_number unknown_request_id = 13
driver_number cloud_no_primary_replica_yet = 14
driver_number cloud_unable_to_connect = 15
driver_number cloud_replica_not_primary = 16
driver_number cloud_all_nodes_failed = 17
driver_number user_management_cloud_only = 18
driver_number cloud_user_does_not_exist = 19
driver_number cloud_token_credential_invalid = 20
driver_number cloud_invalid_root_ca_path = 21
driver_number unrecognised_session_type = 22
driver_number missing_port = 23
driver_number address_translation_mismatch = 24

abbrev pub concept_number : Concept → ℕ
concept_number invalid_concept_casting = 1
concept_number missing_transaction = 2
concept_number missing_iid = 3
concept_number missing_label = 4
concept_number bad_encoding = 5
concept_number bad_value_type = 6
concept_number bad_annotation = 7
concept_number bad_attribute_value = 8
concept_number value_has_no_remote = 9

abbrev pub query_number : Query → ℕ
query_number variable_does_not_exist = 1
query_number nonexistent_explainable_concept = 2
query_number nonexistent_explainable_ownership = 3
query_number bad_answer_type = 4
query_number missing_answer = 5

abbrev pub internal_number : Internal → ℕ
internal_number illegal_cast = 1
internal_number illegal_argument = 2
internal_number illegal_state = 3

-- `${args[i]}`: an argument that was not given prints as "undefined".
abbrev arg : List String → ℕ → String
arg args i = get_or args i "undefined"

unfoldable pub driver_body : Driver → List String → String
driver_body rpc_method_unavailable args =
    "The server does not support this method. Please ensure that the TypeDB Driver and TypeDB Server versions are compatible:\n'"
    ++ arg args 0
    ++ "'."
driver_body driver_not_open args = "The driver is not open."
driver_body session_id_exists args =
    "The newly opened session id '" ++ arg args 0 ++ "' already exists"
driver_body session_closed args = "Session is closed."
driver_body transaction_closed args =
    "The transaction has been closed and no further operation is allowed."
driver_body transaction_closed_with_errors args =
    "The transaction has been closed with error(s): \n" ++ arg args 0 ++ "."
driver_body unable_to_connect args = "Unable to connect to TypeDB server."
driver_body negative_value_not_allowed args =
    "Value cannot be less than 1, was: '" ++ arg args 0 ++ "'."
driver_body missing_db_name args = "Database name cannot be null."
driver_body database_does_not_exist args = "The database '" ++ arg args 0 ++ "' does not exist."
driver_body unknown_stream_state args =
    "RPC transaction stream response '" ++ arg args 0 ++ "' is unknown."
driver_body missing_response args =
    "The required field 'res' of type '" ++ arg args 0 ++ "' was not set."
driver_body unknown_request_id args =
    "Received a response with unknown request id '" ++ arg args 0 ++ "'."
driver_body cloud_no_primary_replica_yet args =
    "No replica has been marked as the primary replica for latest known term '"
    ++ arg args 0
    ++ "'."
driver_body cloud_unable_to_connect args =
    "Unable to connect to TypeDB Cloud. Attempted connecting to the cloud nodes, but none are available: '"
    ++ arg args 1
    ++ "'."
driver_body cloud_replica_not_primary args = "The replica is not the primary replica."
driver_body cloud_all_nodes_failed args =
    "Attempted connecting to all cloud nodes, but the following errors occurred: \n'"
    ++ arg args 0
    ++ "'"
driver_body user_management_cloud_only args =
    "User management is only available in TypeDB Cloud servers."
driver_body cloud_user_does_not_exist args = "The user '" ++ arg args 0 ++ "' does not exist."
driver_body cloud_token_credential_invalid args = "Invalid token credential."
driver_body cloud_invalid_root_ca_path args =
    "The provided Root CA path '" ++ arg args 0 ++ "' does not exist"
driver_body unrecognised_session_type args =
    "Session type '" ++ arg args 1 ++ "' was not recognised."
driver_body missing_port args = "Invalid URL '" ++ arg args 1 ++ "': missing port."
driver_body address_translation_mismatch args =
    "Address translation map does not match the server's advertised address list. User-provided servers not in the advertised list: {"
    ++ arg args 0
    ++ "}. Advertised servers not mapped by user: {"
    ++ arg args 1
    ++ "}."

unfoldable pub concept_body : Concept → List String → String
concept_body invalid_concept_casting args =
    "Invalid concept conversion from '" ++ arg args 0 ++ "' to '" ++ arg args 1 ++ "'."
concept_body missing_transaction args = "Transaction cannot be null."
concept_body missing_iid args = "IID cannot be null or empty."
concept_body missing_label args = "Label cannot be null or empty."
concept_body bad_encoding args = "The encoding '" ++ arg args 0 ++ "' was not recognised."
concept_body bad_value_type args = "The value type '" ++ arg args 0 ++ "' was not recognised."
concept_body bad_annotation args = "The annotation '" ++ arg args 0 ++ "' was not recognised."
concept_body bad_attribute_value args =
    "The attribute value '" ++ arg args 0 ++ "' was not recognised."
concept_body value_has_no_remote args = "A 'value' has no remote concept."

unfoldable pub query_body : Query → List String → String
query_body variable_does_not_exist args = "The variable '" ++ arg args 0 ++ "' does not exist."
query_body nonexistent_explainable_concept args =
    "The concept identified by '" ++ arg args 0 ++ "' is not explainable."
query_body nonexistent_explainable_ownership args =
    "The ownership by owner '"
    ++ arg args 0
    ++ "'of attribute '"
    ++ arg args 1
    ++ "' is not explainable."
query_body bad_answer_type args = "The answer type '" ++ arg args 0 ++ "' was not recognised."
query_body missing_answer args =
    "The required field 'answer' of type '" ++ arg args 0 ++ "' was not set."

unfoldable pub internal_body : Internal → List String → String
internal_body illegal_cast args =
    "Illegal casting operation from '" ++ arg args 0 ++ "' to '" ++ arg args 1 ++ "'."
internal_body illegal_argument args = "Illegal argument provided: '" ++ arg args 0 ++ "'"
internal_body illegal_state args = "Illegal state."

-- Every constant, in the order of the file.
abbrev pub all_messages : List ErrorMessage
all_messages =
    driver rpc_method_unavailable
    ∷ driver driver_not_open
    ∷ driver session_id_exists
    ∷ driver session_closed
    ∷ driver transaction_closed
    ∷ driver transaction_closed_with_errors
    ∷ driver unable_to_connect
    ∷ driver negative_value_not_allowed
    ∷ driver missing_db_name
    ∷ driver database_does_not_exist
    ∷ driver unknown_stream_state
    ∷ driver missing_response
    ∷ driver unknown_request_id
    ∷ driver cloud_no_primary_replica_yet
    ∷ driver cloud_unable_to_connect
    ∷ driver cloud_replica_not_primary
    ∷ driver cloud_all_nodes_failed
    ∷ driver user_management_cloud_only
    ∷ driver cloud_user_does_not_exist
    ∷ driver cloud_token_credential_invalid
    ∷ driver cloud_invalid_root_ca_path
    ∷ driver unrecognised_session_type
    ∷ driver missing_port
    ∷ driver address_translation_mismatch
    ∷ concept invalid_concept_casting
    ∷ concept missing_transaction
    ∷ concept missing_iid
    ∷ concept missing_label
    ∷ concept bad_encoding
    ∷ concept bad_value_type
    ∷ concept bad_annotation
    ∷ concept bad_attribute_value
    ∷ concept value_has_no_remote
    ∷ query variable_does_not_exist
    ∷ query nonexistent_explainable_concept
    ∷ query nonexistent_explainable_ownership
    ∷ query bad_answer_type
    ∷ query missing_answer
    ∷ internal illegal_cast
    ∷ internal illegal_argument
    ∷ internal illegal_state
    ∷ []
