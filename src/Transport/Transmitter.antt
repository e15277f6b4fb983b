-- ===== src/Transport/Transmitter.antt =====
-- nodejs/stream/RequestTransmitter.ts: `RequestTransmitter`. Dispatchers are objects of `heap`, and
-- `dispatchers` is the set that the transmitter keeps of their addresses.
pub mod Laws
use typedb_client_java.Prelude.{
  ℕ, suc, List, [], ◌∷◌, ◌++◌, Bool, true, false, not, filter, ◌==◌, if◌then◌else◌,
}
use typedb_client_java.Transport.BlockingQueue.{update}
use typedb_client_java.Transport.Dispatcher.{Dispatcher, new_dispatcher, end_stream}

pub record Transmitter (R : Type 0) : Type 0 where
  pub dispatchers : List ℕ
  pub heap : ℕ → Dispatcher R
  pub allocated : ℕ
  pub is_open : Bool

module _ {R : Type 0} where
  unfoldable pub new_transmitter : Transmitter R
  new_transmitter = record {
    dispatchers = [];
    heap = λ _. new_dispatcher;
    allocated = 0;
    is_open = true;
  }

  -- `dispatcher(transactionStream)`, with the address of the new dispatcher.
  unfoldable pub dispatcher : Transmitter R → ℕ × Transmitter R
  dispatcher t = (
    t.allocated,
    record t {
      dispatchers = t.dispatchers ++ t.allocated ∷ [];
      heap = update t.heap t.allocated new_dispatcher;
      allocated = suc t.allocated;
    },
  )

  -- `close` of the dispatcher at an address.
  unfoldable pub close_dispatcher : ℕ → Transmitter R → Transmitter R
  close_dispatcher a t = record t {
    dispatchers = filter (λ b. not (b == a)) t.dispatchers;
    heap = update t.heap a (end_stream (t.heap a));
  }

  -- `forEach` visits what the set held at first: each visit deletes the visited element only.
  close_each : List ℕ → Transmitter R → Transmitter R
  unfolding close_dispatcher
  close_each [] t = t
  close_each (a ∷ rest) t = close_each rest (close_dispatcher a t)

  unfoldable pub close : Transmitter R → Transmitter R
  unfolding close_each
  close t =
      let closed = close_each t.dispatchers (record t { is_open = false }) in
      if t.is_open then closed else t
