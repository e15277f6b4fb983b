-- ===== src/Errors/DriverError.antt =====
-- nodejs/common/errors/TypeDBDriverError.ts: the class of the driver's errors, and what else a
-- promise is rejected with. gRPC's `ServiceError` is data; `text` is what its `toString` gives.
pub mod Laws
use Prim.Native.String.{◌++◌}
use text.Mathlib.Text.{find?}
use typedb_client_java.Prelude.{
  String, List, [], ◌∷◌, Option, some, none, Bool, true, false, ◌||◌, is_some, if◌then◌else◌,
}
use typedb_client_java.Errors.Templates.{Driver, ErrorMessage, driver, same}
use typedb_client_java.Errors.Code.{message, to_string}

-- The values of gRPC's `Status` that the driver names.
pub data Status : Type 0 where
  cancelled unknown unimplemented internal unavailable other : Status

pub record ServiceError : Type 0 where
  pub code : Status
  pub message : String
  pub details : String
  pub text : String

-- An instance of `TypeDBDriverError`: its message and `_messageTemplate`.
pub record DriverError : Type 0 where
  pub text : String
  pub message_template : Option ErrorMessage

-- What a promise is rejected with. A `js` error is any other `Error`, with its `toString`; it has no
-- property `code`.
pub data Thrown : Type 0 where
  raised : DriverError → Thrown
  service : ServiceError → Thrown
  js : String → Thrown

-- `s.includes(t)`
unfoldable pub includes : String → String → Bool
includes s t = is_some (find? s t)

is_replica_not_primary_error : ServiceError → Bool
unfolding includes
is_replica_not_primary_error e = includes e.message "[RPL01]"

is_token_credential_invalid_error : ServiceError → Bool
unfolding includes
is_token_credential_invalid_error e = includes e.message "[CLS08]" || includes e.message "[ENT08]"

-- `[UNAVAILABLE, UNKNOWN, CANCELLED].includes(code)`
unfoldable pub is_unreachable : Status → Bool
is_unreachable Status.unavailable = true
is_unreachable Status.unknown = true
is_unreachable Status.cancelled = true
is_unreachable _ = false

-- `new TypeDBDriverError(text)` on a text, and on an `ErrorMessage`.
unfoldable pub of_string : String → DriverError
of_string s = record { text = s; message_template = none }

unfoldable pub of_template : ErrorMessage → DriverError
of_template t = record { text = to_string t; message_template = some t }

-- `super(t.message(...args))` followed by the assignment of the template.
unfoldable pub templated : Driver → List String → DriverError
templated t args = record { text = message (driver t) args; message_template = some (driver t) }

-- `new TypeDBDriverError(e)` on a `ServiceError`: the last branches read the status.
of_status : Status → ServiceError → DriverError
unfolding of_string
of_status Status.internal e = of_string e.details
of_status _ e = of_string e.text

of_reachable : ServiceError → DriverError
unfolding templated is_replica_not_primary_error is_token_credential_invalid_error of_status
of_reachable e =
    if is_replica_not_primary_error e
    then templated Driver.cloud_replica_not_primary []
    else if is_token_credential_invalid_error e
    then templated Driver.cloud_token_credential_invalid []
    else of_status e.code e

unfoldable pub is_unimplemented : Status → Bool
is_unimplemented Status.unimplemented = true
is_unimplemented _ = false

unfoldable pub of_service : ServiceError → DriverError
unfolding is_unimplemented is_unreachable includes templated of_reachable
of_service e =
    if is_unimplemented e.code
    then templated Driver.rpc_method_unavailable (e.details ∷ [])
    else if is_unreachable e.code || includes e.message "Received RST_STREAM"
    then templated Driver.unable_to_connect []
    else of_reachable e

-- `"code" in e`
unfoldable pub is_service_error : Thrown → Bool
is_service_error (service _) = true
is_service_error _ = false

-- `e.messageTemplate` of a `TypeDBDriverError`; no other error has a template.
abbrev pub template_of : Thrown → Option ErrorMessage
template_of (raised e) = e.message_template
template_of _ = none

-- `e instanceof TypeDBDriverError && t === e.messageTemplate`
unfoldable pub has_template : Driver → Thrown → Bool
has_template t e = elim (template_of e) [ none ↦ false | some u ↦ same (driver t) u ]

-- `${e}` on what was thrown.
pub show_thrown : Thrown → String
show_thrown (raised e) = "TypeDBDriverError: " ++ e.text
show_thrown (service e) = e.text
show_thrown (js s) = s

-- `throw new TypeDBDriverError(t.message(...args))` passes a text.
unfoldable pub fail_with : ErrorMessage → List String → Thrown
unfolding of_string
fail_with t args = raised (of_string (message t args))

-- The argument `error?: Error | string` of the `close` methods.
pub data Cause : Type 0 where
  reason : String → Cause
  thrown : Thrown → Cause

-- `new TypeDBDriverError(error)` on it: what is no `ServiceError` gives its `toString`.
unfoldable pub of_cause : Cause → DriverError
unfolding of_string
of_cause (reason s) = of_string s
of_cause (thrown (service e)) = of_service e
of_cause (thrown e) = of_string (show_thrown e)
