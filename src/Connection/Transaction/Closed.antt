-- ===== src/Connection/Transaction/Closed.antt =====
-- nodejs/connection/TypeDBTransactionImpl.ts once the stream is closed.
use typedb_client_java.Prelude.{
  ℕ, [], ◌∷◌, Option, none, some, String, Bool, false, ◌≡◌, refl, arith,
}
use typedb_client_java.Errors.Templates.{Driver, driver}
use typedb_client_java.Errors.DriverError.{
  Thrown, raised, of_template, fail_with, thrown, show_thrown,
}
use typedb_client_java.Effect.{err, Eff}
use typedb_client_java.Transport.Protocol.{RequestBody}
use typedb_client_java.Transport.Bidirectional.{BidirectionalStream}
use typedb_client_java.Transport.Bidirectional
use typedb_client_java.Connection.Transaction.{
  rpc_execute, rpc_stream, transaction_closed, closed_error, reported, commit, finally_close, close,
}

-- Every request is refused with the error, and none is handed to the dispatcher.
abbrev pub Refuses : BidirectionalStream → Thrown → Type 0
Refuses s e =
    (uuid : String) (body : RequestBody) (batch : Option Bool)
    → (rpc_execute uuid body batch s ≡ (err e, s)) × (rpc_stream uuid body s ≡ (err e, s))

closed-Refuses : (s : BidirectionalStream) → s.is_open ≡ false → Refuses s (transaction_closed s)
unfolding rpc_execute rpc_stream
closed-Refuses s shut uuid body batch = (ground (arith, shut), ground (arith, shut))

-- After its stream was closed, a transaction refuses each request, and sends nothing: with
-- TRANSACTION_CLOSED if the stream was closed without an error, and with the message that quotes the
-- error if it was closed by one that was thrown.
pub close-Refuses :
    (s : BidirectionalStream)
    → Refuses (Bidirectional.close none s) (raised (of_template (driver Driver.transaction_closed)))
      × ((e : Thrown)
          → Refuses
              (Bidirectional.close (some (thrown e)) s)
              (fail_with (driver Driver.transaction_closed_with_errors) (show_thrown e ∷ [])))
unfolding Bidirectional.close transaction_closed closed_error reported
close-Refuses s = (
  closed-Refuses (Bidirectional.close none s) refl,
  λ e. closed-Refuses (Bidirectional.close (some (thrown e)) s) refl,
)

-- A commit closes the transaction whether it succeeds or fails, and whatever happened on the stream
-- while it waited: each request after it is refused with TRANSACTION_CLOSED, and nothing is sent.
pub commit-Refuses :
    {R : Type 0} (await : ℕ × Option ℕ → Eff BidirectionalStream R) (uuid : String)
    (s : BidirectionalStream)
    → Refuses (commit await uuid s).1 (raised (of_template (driver Driver.transaction_closed)))
unfolding commit finally_close close
commit-Refuses await uuid s = (close-Refuses _).0
