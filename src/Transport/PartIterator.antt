-- ===== src/Transport/PartIterator.antt =====
-- nodejs/stream/ResponsePartIterator.ts. `elements` are those that the promises of the iterator's
-- queue settle with, in order; where they run out, the iterator waits.
pub mod Answers
use typedb_client_java.Prelude.{ℕ, zero, suc, List, [], ◌∷◌, String}
use typedb_client_java.Errors.Templates.{Driver, driver}
use typedb_client_java.Errors.DriverError.{Thrown, fail_with}
use typedb_client_java.Effect.{Result, ok, err}
use typedb_client_java.Transport.Collector.{QueueElement, take_element}
use typedb_client_java.Transport.Dispatcher.{Dispatcher, dispatch}
use typedb_client_java.Transport.Protocol.{
  TransactionReq, TransactionResPart, PartBody, stream_res_part, answers, StreamState, done,
  continue, unrecognised, stream_req,
}

-- What `next` comes to.
pub data Next : Type 0 where
  answer : TransactionResPart → Next
  finished : Next
  threw : Thrown → Next
  waiting : Next

pub record Pulled (A : Type 0) : Type 0 where
  pub outcome : A
  pub elements : List (QueueElement TransactionResPart)
  pub dispatcher : Dispatcher TransactionReq

-- What an iteration has yielded, and the outcome of `next` that stopped it.
pub record Iteration : Type 0 where
  pub yielded : List TransactionResPart
  pub last : Next

module _ (request_id shown : String) where
  -- `RequestBuilder.Transaction.streamReq(requestId)`
  stream_request : TransactionReq
  stream_request = record { req_id = request_id; body = stream_req }

  -- The `switch`; `again` is the recursive call.
  on_part :
      PartBody
      → TransactionResPart
      → List (QueueElement TransactionResPart)
      → Dispatcher TransactionReq
      → (Dispatcher TransactionReq → Pulled Next)
      → Pulled Next
  unfolding stream_request
  on_part (answers _) part xs d again = record {
    outcome = answer part;
    elements = xs;
    dispatcher = d;
  }
  on_part (stream_res_part done) part xs d again = record {
    outcome = finished;
    elements = xs;
    dispatcher = d;
  }
  on_part (stream_res_part continue) part xs d again = again (dispatch stream_request d)
  on_part (stream_res_part unrecognised) part xs d again = record {
    outcome = threw (fail_with (driver Driver.unknown_stream_state) (shown ∷ []));
    elements = xs;
    dispatcher = d;
  }

  on_element :
      Result TransactionResPart
      → List (QueueElement TransactionResPart)
      → Dispatcher TransactionReq
      → (Dispatcher TransactionReq → Pulled Next)
      → Pulled Next
  unfolding on_part
  on_element (ok part) xs d again = on_part part.body part xs d again
  on_element (err e) xs d again = record { outcome = threw e; elements = xs; dispatcher = d }

  unfoldable pub next :
      List (QueueElement TransactionResPart) → Dispatcher TransactionReq → Pulled Next
  unfolding on_element
  next [] d = record { outcome = waiting; elements = []; dispatcher = d }
  next (x ∷ xs) d = on_element (take_element x) xs d (next xs)

  -- The generator: the answers that it yields, and how it stops. On fuel, of which a round for each
  -- element and one more is enough.
  round :
      Pulled Next
      → (List (QueueElement TransactionResPart) → Dispatcher TransactionReq → Pulled Iteration)
      → Pulled Iteration
  round n again = elim n.outcome [
    | answer part ↦
        let rest = again n.elements n.dispatcher in
        record rest { outcome = record rest.outcome { yielded = part ∷ rest.outcome.yielded } }
    | last ↦ record {
      outcome = record { yielded = []; last = last };
      elements = n.elements;
      dispatcher = n.dispatcher;
    }
  ]

  unfoldable pub iterate :
      ℕ → List (QueueElement TransactionResPart) → Dispatcher TransactionReq → Pulled Iteration
  unfolding round next
  iterate zero xs d = record {
    outcome = record { yielded = []; last = waiting };
    elements = xs;
    dispatcher = d;
  }
  iterate (suc fuel) xs d = round (next xs d) (iterate fuel)
