-- ===== src/Connection/Transaction/Managers.antt =====
-- The fields of a transaction of nodejs/connection/TypeDBTransactionImpl.ts, which `open` sets.
use Prim.Native.String.{◌++◌}
use typedb_client_java.Prelude.{ℕ, String, Option, none, some, Bool, true, false, ◌≡◌, refl}
use typedb_client_java.Errors.DriverError.{js}
use typedb_client_java.Effect.{Result, ok, Eff, throw}
use typedb_client_java.Transport.Protocol.{TransactionType}
use typedb_client_java.Transport.Bidirectional.{
  BidirectionalStream, add_on_close, open_stream, single,
}
use typedb_client_java.Connection.Options.{Options}
use typedb_client_java.Connection.Transaction.{open_transaction, rpc_execute}

pub record Transaction : Type 0 where
  -- The session's id.
  pub session : String
  pub type : TransactionType
  pub options : Options
  pub bidirectional_stream : Option BidirectionalStream
  -- Whether the concept, logic and query managers are set.
  pub has_managers : Bool

-- The constructor.
unfoldable pub new_transaction : String → TransactionType → Options → Transaction
new_transaction session type options = record {
  session = session;
  type = type;
  options = options;
  bidirectional_stream = none;
  has_managers = false;
}

-- A method of the stream, which is `undefined` before `open`.
unfoldable pub on_stream : {A : Type 0} → String → Eff BidirectionalStream A → Eff Transaction A
on_stream method m t = elim t.bidirectional_stream [
  | none ↦
      throw (js ("TypeError: Cannot read properties of undefined (reading '" ++ (method ++ "')"))) t
  | some s ↦ let (r, s') = m s in (r, record t { bidirectional_stream = some s' })
]

-- `open`, up to the `await` of the response: the managers are there whatever comes of the request.
unfoldable pub open_managed : String → Transaction → Result (ℕ × Option ℕ) × Transaction
unfolding open_transaction
open_managed uuid t =
    let (r, s) = open_transaction uuid t.session t.type in
    (r, record t { bidirectional_stream = some s; has_managers = true })

unfoldable pub is_open : Eff Transaction Bool
unfolding on_stream
is_open = on_stream "isOpen" λ s. (ok s.is_open, s)

unfoldable pub on_close : ℕ → Eff Transaction (Unit {0})
unfolding on_stream
on_close callback = on_stream "onClose" λ s. (ok tt, add_on_close callback s)

-- Before `open` a transaction cannot be asked whether it is open; once its request is on the way, it
-- is open and has its managers.
pub open_managed-is_open :
    (uuid session : String) (type : TransactionType) (options : Options)
    → let t = new_transaction session type options in
      let u = (open_managed uuid t).1 in
      ((e : Bool) → (is_open t).0 ≡ ok e → ⊥)
      × (is_open u ≡ (ok true, u))
      × (u.has_managers ≡ true)
      × (u.type ≡ type)
unfolding new_transaction is_open on_stream open_managed open_transaction rpc_execute open_stream
    single
open_managed-is_open uuid session type options = (λ e h. cc, refl, refl, refl)
