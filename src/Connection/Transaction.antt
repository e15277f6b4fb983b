-- ===== src/Connection/Transaction.antt =====
-- nodejs/connection/TypeDBTransactionImpl.ts: the transaction as the holder of its stream. What
-- happens on the stream while a method awaits a response is an argument, `await`.
pub mod Closed
pub mod Managers
use text.Mathlib.Text.{◌==◌}
use typedb_client_java.Prelude.{
  ℕ, List, [], ◌∷◌, Option, none, some, String, Bool, true, false, if◌then◌else◌,
}
use typedb_client_java.Errors.Templates.{Driver, Internal, driver, internal}
use typedb_client_java.Errors.DriverError.{
  Thrown, raised, of_template, fail_with, show_thrown, Cause, reason, thrown,
}
use typedb_client_java.Effect.{Result, ok, err, Eff, pure, throw, ◌>>=◌}
use typedb_client_java.Transport.Protocol.{
  RequestBody, TransactionType, open_req, commit_req, rollback_req,
}
use typedb_client_java.Transport.Bidirectional.{BidirectionalStream, single, stream, open_stream}
use typedb_client_java.Transport.Bidirectional

-- `if (!error)` and `${error}`: a text is an error only if it is not empty.
reported : Cause → Option String
reported (reason s) = if s == "" then none else some s
reported (thrown e) = some (show_thrown e)

closed_error : Option String → Thrown
closed_error none = raised (of_template (driver Driver.transaction_closed))
closed_error (some e) = fail_with (driver Driver.transaction_closed_with_errors) (e ∷ [])

-- `throwTransactionClosed`, as the error that it throws.
unfoldable pub transaction_closed : BidirectionalStream → Thrown
unfolding reported closed_error
transaction_closed s =
    if s.is_open
    then raised (of_template (internal Internal.illegal_state))
    else closed_error (elim s.error [ none ↦ none | some c ↦ reported c ])

-- `batch !== false`
use_batch : Option Bool → Bool
use_batch (some false) = false
use_batch _ = true

-- Up to the `await`: the address of the response's queue and the promise awaited.
unfoldable pub rpc_execute :
    String → RequestBody → Option Bool → Eff BidirectionalStream (ℕ × Option ℕ)
unfolding use_batch transaction_closed
rpc_execute uuid body batch s =
    if s.is_open
    then (let (p, t) = single uuid body (use_batch batch) s in (ok p, t))
    else throw (transaction_closed s) s

unfoldable pub rpc_stream : String → RequestBody → Eff BidirectionalStream ℕ
unfolding transaction_closed
rpc_stream uuid body s =
    if s.is_open
    then (let (a, t) = stream uuid body s in (ok a, t))
    else throw (transaction_closed s) s

-- `open` on a stub that gives a stream, up to the `await` of the response.
unfoldable pub open_transaction :
    String → String → TransactionType → Result (ℕ × Option ℕ) × BidirectionalStream
unfolding rpc_execute
open_transaction uuid session_id type =
    rpc_execute uuid (open_req session_id type) (some false) open_stream

-- `close()`; the session's part is its `closed`.
unfoldable pub close : Eff BidirectionalStream (Unit {0})
close s = (ok tt, Bidirectional.close none s)

-- `try { await m } finally { await this.close() }`
finally_close : {A : Type 0} → Result A × BidirectionalStream → Result A × BidirectionalStream
unfolding close
finally_close (r, s) = (r, (close s).1)

module _ {R : Type 0} (await : ℕ × Option ℕ → Eff BidirectionalStream R) where
  unfoldable pub commit : String → Eff BidirectionalStream R
  unfolding finally_close rpc_execute
  commit uuid s = finally_close ((rpc_execute uuid commit_req (some false) >>= await) s)

  unfoldable pub rollback : String → Eff BidirectionalStream R
  unfolding rpc_execute
  rollback uuid = rpc_execute uuid rollback_req (some false) >>= await
