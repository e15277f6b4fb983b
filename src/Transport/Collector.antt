-- ===== src/Transport/Collector.antt =====
-- nodejs/stream/ResponseCollector.ts. Queues are objects that the collector's table and the callers
-- share: `heap` holds them by their address, and a new one takes the address `allocated`.
pub mod Laws
use typedb_client_java.Prelude.{ℕ, suc, List, [], ◌∷◌, Option, none, some, String}
use typedb_client_java.Prelude.Assoc.{Assoc, lookup, insert, erase, values}
use typedb_client_java.Errors.Templates.{Driver, driver}
use typedb_client_java.Errors.DriverError.{Thrown, raised, of_template, of_cause, Cause}
use typedb_client_java.Effect.{Result, ok, err}
use typedb_client_java.Transport.BlockingQueue.{BlockingQueue, update, empty}
use typedb_client_java.Transport.BlockingQueue

-- `QueueElement` with its subclasses `Value` and `Done`.
pub data QueueElement (T : Type 0) : Type 0 where
  value : T → QueueElement T
  done : Option Cause → QueueElement T

-- `ResponseQueue.take`, once the queue's promise has settled with an element.
unfoldable pub take_element : {T : Type 0} → QueueElement T → Result T
unfolding of_cause of_template
take_element (value t) = ok t
take_element (done (some e)) = err (raised (of_cause e))
take_element (done none) = err (raised (of_template (driver Driver.transaction_closed)))

pub record Collector (T : Type 0) : Type 0 where
  pub response_queues : Assoc ℕ
  pub heap : ℕ → BlockingQueue (QueueElement T)
  pub allocated : ℕ

module _ {T : Type 0} where
  -- `new ResponseCollector()`
  unfoldable pub new_collector : Collector T
  new_collector = record { response_queues = []; heap = λ _. empty; allocated = 0 }

  -- `queue.put(element)` and `queue.close(error)` on the queue at an address.
  unfoldable pub put : ℕ → T → Collector T → Collector T
  put a t c = record c { heap = update c.heap a (BlockingQueue.add (value t) (c.heap a)) }

  unfoldable pub close_queue : ℕ → Option Cause → Collector T → Collector T
  close_queue a e c = record c { heap = update c.heap a (BlockingQueue.add (done e) (c.heap a)) }

  -- `take` of the queue at an address: the number of the promise that the caller awaits.
  unfoldable pub take : ℕ → Collector T → Option ℕ × Collector T
  take a c =
      let (p, q) = BlockingQueue.take (c.heap a) in (p, record c { heap = update c.heap a q })

  -- `queue(uuid)`, with the address of the queue that it returns.
  unfoldable pub queue : String → Collector T → ℕ × Collector T
  queue uuid c = (
    c.allocated,
    record {
      response_queues = insert uuid c.allocated c.response_queues;
      heap = update c.heap c.allocated empty;
      allocated = suc c.allocated;
    },
  )

  unfoldable pub get : String → Collector T → Option ℕ
  get uuid c = lookup uuid c.response_queues

  unfoldable pub remove : String → Collector T → Collector T
  remove request_id c = record c { response_queues = erase request_id c.response_queues }

  close_all : List ℕ → Option Cause → Collector T → Collector T
  unfolding close_queue
  close_all [] e c = c
  close_all (a ∷ rest) e c = close_all rest e (close_queue a e c)

  -- `close(error)`: every queue of the table.
  unfoldable pub close : Option Cause → Collector T → Collector T
  unfolding close_all
  close e c = close_all (values c.response_queues) e c
