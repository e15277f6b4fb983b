-- ===== src/Transport/Bidirectional.antt =====
-- nodejs/stream/BidirectionalStream.ts, on an opened stream. `uuid.v4` is the argument `uuid` of a
-- request. Callbacks of `onClose` are named by numbers, and `called` records their calls. The set of
-- the transmitter is in `Transmitter`.
pub mod Correlation
use typedb_client_java.Prelude.{
  ℕ, List, [], ◌∷◌, ◌++◌, map, Option, none, some, String, Bool, true, false, if◌then◌else◌,
}
use typedb_client_java.Errors.Templates.{Driver, driver}
use typedb_client_java.Errors.DriverError.{Thrown, fail_with, Cause}
use typedb_client_java.Transport.Collector.{Collector, new_collector}
use typedb_client_java.Transport.Collector
use typedb_client_java.Transport.Dispatcher.{
  Dispatcher, new_dispatcher, dispatch, dispatch_now, end_stream,
}
use typedb_client_java.Transport.Protocol.{
  RequestBody, TransactionReq, TransactionRes, TransactionResPart, TransactionServer, res, res_part,
  neither,
}

pub record BidirectionalStream : Type 0 where
  pub response_collector : Collector TransactionRes
  pub response_part_collector : Collector TransactionResPart
  pub dispatcher : Dispatcher TransactionReq
  pub is_open : Bool
  pub error : Option Cause
  pub on_close : List ℕ
  pub called : List (ℕ × Option Cause)

-- The constructor, followed by `open` on a stub that gives a stream.
unfoldable pub open_stream : BidirectionalStream
open_stream = record {
  response_collector = new_collector;
  response_part_collector = new_collector;
  dispatcher = new_dispatcher;
  is_open = true;
  error = none;
  on_close = [];
  called = [];
}

-- `if (batch) dispatch(request) else dispatchNow(request)`
send : Bool → TransactionReq → Dispatcher TransactionReq → Dispatcher TransactionReq
send true r d = dispatch r d
send false r d = dispatch_now r d

-- `single(request, batch)` up to its `await`: the address of the queue and the promise awaited.
unfoldable pub single :
    String → RequestBody → Bool → BidirectionalStream → (ℕ × Option ℕ) × BidirectionalStream
unfolding send
single uuid body batch s =
    let (a, c) = Collector.queue uuid s.response_collector in
    let d = send batch (record { req_id = uuid; body = body }) s.dispatcher in
    let (p, c') = Collector.take a c in
    ((a, p), record s { response_collector = c'; dispatcher = d })

-- `stream(request)`: the address of the queue that the iterator reads.
unfoldable pub stream : String → RequestBody → BidirectionalStream → ℕ × BidirectionalStream
stream uuid body s =
    let (a, c) = Collector.queue uuid s.response_part_collector in
    (
      a,
      record s {
        response_part_collector = c;
        dispatcher = dispatch (record { req_id = uuid; body = body }) s.dispatcher;
      },
    )

unfoldable pub close : Option Cause → BidirectionalStream → BidirectionalStream
close e s = record s {
  is_open = false;
  error = e;
  response_collector = Collector.close e s.response_collector;
  response_part_collector = Collector.close e s.response_part_collector;
  dispatcher = end_stream s.dispatcher;
  called = s.called ++ map (λ k. (k, e)) s.on_close;
}

unfoldable pub add_on_close : ℕ → BidirectionalStream → BidirectionalStream
add_on_close callback s = record s { on_close = s.on_close ++ callback ∷ [] }

-- `queue.put(res)`, or an exception where `get` found no queue.
put_or_fail : {T : Type 0} → Option ℕ → String → T → Collector T → Option Thrown × Collector T
put_or_fail none request_id r c =
    (some (fail_with (driver Driver.unknown_request_id) (request_id ∷ [])), c)
put_or_fail (some a) request_id r c = (none, Collector.put a r c)

collect_res : TransactionRes → BidirectionalStream → Option Thrown × BidirectionalStream
unfolding put_or_fail
collect_res r s =
    let c = s.response_collector in
    let (e, c') = put_or_fail (Collector.get r.req_id c) r.req_id r c in
    (e, record s { response_collector = c' })

collect_res_part : TransactionResPart → BidirectionalStream → Option Thrown × BidirectionalStream
unfolding put_or_fail
collect_res_part r s =
    let c = s.response_part_collector in
    let (e, c') = put_or_fail (Collector.get r.req_id c) r.req_id r c in
    (e, record s { response_part_collector = c' })

-- The listener for "data"; the first component is what it throws. `shown` is `${res}`.
collect : String → TransactionServer → BidirectionalStream → Option Thrown × BidirectionalStream
unfolding collect_res collect_res_part
collect shown (res r) s = collect_res r s
collect shown (res_part r) s = collect_res_part r s
collect shown neither s = (some (fail_with (driver Driver.missing_response) (shown ∷ [])), s)

unfoldable pub on_data :
    String → TransactionServer → BidirectionalStream → Option Thrown × BidirectionalStream
unfolding collect
on_data shown message s = if s.is_open then collect shown message s else (none, s)
