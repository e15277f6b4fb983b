-- ===== src/Examples/Transports.antt =====
-- nodejs/stream on small histories.
use typedb_client_java.Prelude.{
  ℕ, List, [], ◌∷◌, ◌++◌, none, some, String, true, false, ◌≡◌, ◌≢◌, refl, inr, arith, get_elem?,
}
use text.Mathlib.TextEquality.{eq_iff}
use typedb_client_java.Errors.DriverError.{reason}
use typedb_client_java.Transport.BlockingQueue.{empty}
use typedb_client_java.Transport.BlockingQueue.Delivery.{Op, adds, takes, delivery}
use typedb_client_java.Transport.BlockingQueue.Delivery
use typedb_client_java.Transport.Collector.{Collector, QueueElement, value, done, new_collector}
use typedb_client_java.Transport.Collector.Laws.{IsValid}
use typedb_client_java.Transport.Dispatcher.{
  Dispatcher, Event, dispatches, dispatches_now, fires, ends, new_dispatcher, run, step,
}
use typedb_client_java.Transport.Dispatcher.Batches.{concat, run-requests, fire-ends}
use typedb_client_java.Transport.Transmitter.{Transmitter}
use typedb_client_java.Transport.Protocol.{
  RequestBody, TransactionReq, TransactionRes, TransactionResPart, TransactionServer, res, neither,
  commit_req, rollback_req, stream_res_part, answers, continue,
}
use typedb_client_java.Transport.Protocol
use typedb_client_java.Transport.Bidirectional.{open_stream, single, on_data, close}
use typedb_client_java.Transport.Bidirectional.Correlation.{receive, single-on_data, single-close}
use typedb_client_java.Transport.PartIterator.{iterate}
use typedb_client_java.Transport.PartIterator.Answers.{Agrees, read, iterate-Agrees}

abbrev calls : List (Op ℕ)
calls = takes ∷ adds 5 ∷ adds 6 ∷ takes ∷ takes ∷ []

delivery_example :
    ((Delivery.run calls empty).0 ≡ some 0 ∷ some 1 ∷ some 2 ∷ [])
    × ((i : ℕ) → (Delivery.run calls empty).1.settled i ≡ get_elem? (5 ∷ 6 ∷ []) i)
delivery_example = delivery calls

abbrev history : List (Event ℕ)
history = dispatches 1 ∷ dispatches 2 ∷ fires ∷ dispatches_now 3 ∷ dispatches 4 ∷ []

run-requests_example :
    concat (run history new_dispatcher).written ++ (run history new_dispatcher).buffered_requests
    ≡ 1 ∷ 2 ∷ 3 ∷ 4 ∷ []
run-requests_example = run-requests history

abbrev buffering : Dispatcher ℕ
buffering = record {
  buffered_requests = 9 ∷ [];
  is_running = true;
  timers = 1 ∷ [];
  written = [];
  ended = false;
}

fire-ends_example :
    ((step fires (step ends buffering)).ended ≡ true)
    × ((step fires (step ends buffering)).written ≡ [] ++ (9 ∷ []) ∷ [])
fire-ends_example =
    fire-ends buffering 9 [] (record { busy = inr refl; timed = inr (1, refl, refl); full = tt })
      refl

abbrev one_queue : Collector ℕ
one_queue = record { response_queues = ("a", 0) ∷ []; heap = λ i. empty; allocated = 1 }

abbrev transmitter : Transmitter ℕ
transmitter = record {
  heap = λ i. new_dispatcher;
  allocated = 2;
  dispatchers = 0 ∷ 1 ∷ [];
  is_open = true;
}

abbrev response : String → TransactionRes
response id = record { req_id = id; body = "reply" }

abbrev other_id : String
other_id = "b"

other-ne : other_id ≢ "a"
other-ne h = ground (arith, eq_iff other_id "a")

abbrev others : List (String × TransactionServer)
others = ("", neither) ∷ ("", res (response "b")) ∷ []

open_stream-open : open_stream.is_open ≡ true
unfolding open_stream
open_stream-open = refl

open_stream-IsValid : IsValid open_stream.response_collector
unfolding open_stream new_collector
open_stream-IsValid = record { below = tt; distinct = tt }

single-on_data_example :
    let ((a, p), sent) = single "a" commit_req false open_stream in
    let (e, answered) = on_data "" (res (response "a")) (receive others sent) in
    (p ≡ some 0)
    × (e ≡ none)
    × ((answered.response_collector.heap a).settled 0 ≡ some (value (response "a")))
single-on_data_example =
    single-on_data "a" "" commit_req false open_stream others (response "a") open_stream-open
      open_stream-IsValid (tt, (other-ne, tt)) refl

single-close_example :
    let ((a, p), sent) = single "a" rollback_req true open_stream in
    let closed = close (some (reason "gone")) (receive others sent) in
    (p ≡ some 0)
    × (closed.is_open ≡ false)
    × ((closed.response_collector.heap a).settled 0 ≡ some (done (some (reason "gone"))))
single-close_example =
    single-close "a" rollback_req true open_stream others (some (reason "gone")) open_stream-open
      open_stream-IsValid (tt, (other-ne, tt))

abbrev part : TransactionResPart
part = record { req_id = "a"; body = answers "x" }

abbrev more : TransactionResPart
more = record { req_id = "a"; body = stream_res_part continue }

abbrev last : TransactionResPart
last = record { req_id = "a"; body = stream_res_part Protocol.done }

abbrev received : List (QueueElement TransactionResPart)
received = value part ∷ value more ∷ value part ∷ value last ∷ []

iterate-Agrees_example :
    Agrees "a" "" (read "a" "" received) new_dispatcher (iterate "a" "" 5 received new_dispatcher)
iterate-Agrees_example = iterate-Agrees "a" "" received 5 new_dispatcher (omega arith)
