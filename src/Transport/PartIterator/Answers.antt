-- ===== src/Transport/PartIterator/Answers.antt =====
-- What nodejs/stream/ResponsePartIterator.ts yields, against a reading of the elements received.
use typedb_client_java.Prelude.{
  ℕ, zero, suc, ◌<◌, List, [], ◌∷◌, none, some, String, ◌≡◌, refl, ap, arith, length,
}
use typedb_client_java.Errors.Templates.{Driver, driver}
use typedb_client_java.Errors.DriverError.{raised, fail_with, of_cause, of_template}
use typedb_client_java.Transport.Collector.{QueueElement, value, take_element}
use typedb_client_java.Transport.Collector
use typedb_client_java.Transport.Dispatcher.{Dispatcher, dispatch}
use typedb_client_java.Transport.Protocol.{
  TransactionReq, TransactionResPart, PartBody, stream_res_part, answers, StreamState, continue,
  unrecognised,
}
use typedb_client_java.Transport.Protocol
use typedb_client_java.Transport.PartIterator.{
  Next, finished, threw, waiting, Pulled, Iteration, stream_request, on_part, next, round, iterate,
}

-- How a sequence of elements reads: the answers before the first element that ends it, how it ends,
-- and how many `CONTINUE`s stand before the end.
pub record Reading : Type 0 where
  pub parts : List TransactionResPart
  pub end : Next
  pub continues : ℕ

abbrev stops : Next → Reading
stops n = record { parts = []; end = n; continues = 0 }

module _ (request_id shown : String) where
  abbrev read_body : PartBody → TransactionResPart → Reading → Reading
  read_body (answers _) part rest = record rest { parts = part ∷ rest.parts }
  read_body (stream_res_part Protocol.done) part rest = stops finished
  read_body (stream_res_part continue) part rest = record rest { continues = suc rest.continues }
  read_body (stream_res_part unrecognised) part rest =
      stops (threw (fail_with (driver Driver.unknown_stream_state) (shown ∷ [])))

  abbrev pub read : List (QueueElement TransactionResPart) → Reading
  read [] = stops waiting
  read (value part ∷ xs) = read_body part.body part (read xs)
  read (Collector.done (some e) ∷ xs) = stops (threw (raised (of_cause e)))
  read (Collector.done none ∷ xs) =
      stops (threw (raised (of_template (driver Driver.transaction_closed))))

  -- `n` requests for more.
  pub ask : ℕ → Dispatcher TransactionReq → Dispatcher TransactionReq
  ask zero d = d
  ask (suc n) d = ask n (dispatch (stream_request request_id shown) d)

  abbrev pub Agrees : Reading → Dispatcher TransactionReq → Pulled Iteration → Type 0
  Agrees r d p =
      (p.outcome.yielded ≡ r.parts) × (p.outcome.last ≡ r.end) × (p.dispatcher ≡ ask r.continues d)

  part-Agrees :
      (b : PartBody) (part : TransactionResPart) (xs : List (QueueElement TransactionResPart))
      (fuel : ℕ) (d : Dispatcher TransactionReq)
      → ((d' : Dispatcher TransactionReq)
          → Agrees (read xs) d' (iterate request_id shown (suc fuel) xs d'))
      → Agrees (read xs) d (iterate request_id shown fuel xs d)
      → Agrees (read_body b part (read xs)) d (
          round request_id shown
            (on_part request_id shown b part xs d (next request_id shown xs))
            (iterate request_id shown fuel))
  unfolding iterate ask
  part-Agrees (answers _) part xs fuel d again (same, last, asked) =
      (ap (◌∷◌ part) same, last, asked)
  part-Agrees (stream_res_part Protocol.done) part xs fuel d again later = (refl, refl, refl)
  part-Agrees (stream_res_part continue) part xs fuel d again later =
      again (dispatch (stream_request request_id shown) d)
  part-Agrees (stream_res_part unrecognised) part xs fuel d again later = (refl, refl, refl)

  -- On fuel beyond the number of elements received, the generator yields exactly the answers before
  -- the first element that ends the stream, stops as that element says, and has dispatched one
  -- request for each `CONTINUE` on the way.
  pub iterate-Agrees :
      (xs : List (QueueElement TransactionResPart)) (fuel : ℕ) (d : Dispatcher TransactionReq)
      → length xs < fuel
      → Agrees (read xs) d (iterate request_id shown fuel xs d)
  unfolding iterate ask take_element
  iterate-Agrees xs zero d h = absurd (omega arith)
  iterate-Agrees [] (suc fuel) d h = (refl, refl, refl)
  iterate-Agrees (value part ∷ xs) (suc fuel) d h =
      part-Agrees part.body part xs fuel d (λ d'. iterate-Agrees xs (suc fuel) d' (omega arith))
        (iterate-Agrees xs fuel d (omega arith))
  iterate-Agrees (Collector.done none ∷ xs) (suc fuel) d h = (refl, refl, refl)
  iterate-Agrees (Collector.done (some e) ∷ xs) (suc fuel) d h = (refl, refl, refl)

  part_enough :
      (b : PartBody) (part : TransactionResPart) (xs : List (QueueElement TransactionResPart))
      (f g : ℕ) (d : Dispatcher TransactionReq)
      → ((d' : Dispatcher TransactionReq)
          → iterate request_id shown (suc f) xs d' ≡ iterate request_id shown (suc g) xs d')
      → (iterate request_id shown f xs d ≡ iterate request_id shown g xs d)
      → round request_id shown
          (on_part request_id shown b part xs d (next request_id shown xs))
          (iterate request_id shown f)
        ≡ round request_id shown
            (on_part request_id shown b part xs d (next request_id shown xs))
            (iterate request_id shown g)
  unfolding iterate
  part_enough (answers _) part xs f g d again later =
      ap
        (λ (r : Pulled Iteration). record r {
          outcome = record r.outcome { yielded = part ∷ r.outcome.yielded };
        })
        later
  part_enough (stream_res_part Protocol.done) part xs f g d again later = refl
  part_enough (stream_res_part continue) part xs f g d again later =
      again (dispatch (stream_request request_id shown) d)
  part_enough (stream_res_part unrecognised) part xs f g d again later = refl

  -- The generator stops: any two amounts of fuel beyond the number of elements received give the same
  -- iteration, the elements that it leaves and the requests that it dispatches included.
  pub iterate-enough :
      (xs : List (QueueElement TransactionResPart)) (f g : ℕ) (d : Dispatcher TransactionReq)
      → length xs < f
      → length xs < g
      → iterate request_id shown f xs d ≡ iterate request_id shown g xs d
  unfolding iterate take_element
  iterate-enough xs zero g d h k = absurd (omega arith)
  iterate-enough xs (suc f) zero d h k = absurd (omega arith)
  iterate-enough [] (suc f) (suc g) d h k = refl
  iterate-enough (value part ∷ xs) (suc f) (suc g) d h k =
      part_enough part.body part xs f g d
        (λ d'. iterate-enough xs (suc f) (suc g) d' (omega arith) (omega arith))
        (iterate-enough xs f g d (omega arith) (omega arith))
  iterate-enough (Collector.done none ∷ xs) (suc f) (suc g) d h k = refl
  iterate-enough (Collector.done (some e) ∷ xs) (suc f) (suc g) d h k = refl
