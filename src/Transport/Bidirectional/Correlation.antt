-- ===== src/Transport/Bidirectional/Correlation.antt =====
-- Requests and their responses in nodejs/stream/BidirectionalStream.ts.
use typedb_client_java.Prelude.{
  ℕ, List, [], ◌∷◌, Option, none, some, String, Bool, true, false, ◌≡◌, ◌≢◌, refl, sym, ◌∙◌, arith,
  All,
}
use typedb_client_java.Errors.DriverError.{Cause}
use typedb_client_java.Transport.BlockingQueue.{BlockingQueue, update, empty}
use typedb_client_java.Transport.BlockingQueue
use typedb_client_java.Transport.BlockingQueue.Delivery.{Holds, add-Holds, take-Holds, empty-Holds}
use typedb_client_java.Transport.Collector.{QueueElement, value, done, Collector}
use typedb_client_java.Transport.Collector
use typedb_client_java.Transport.Collector.Laws.{IsValid, get-queue, close-heap, lookup-ne}
use typedb_client_java.Transport.Protocol.{
  RequestBody, TransactionRes, TransactionServer, res, res_part, neither,
}
use typedb_client_java.Transport.Bidirectional.{
  BidirectionalStream, single, close, put_or_fail, collect_res, collect_res_part, collect, on_data,
}

-- The request `uuid` waits: its queue, at the address `a`, has handed out its first promise and
-- holds no element.
pub record Waits (uuid : String) (a : ℕ) (c : Collector TransactionRes) : Type 0 where
  pub valid : IsValid c
  pub registered : Collector.get uuid c ≡ some a
  pub unanswered : Holds [] 1 (c.heap a)

update_self : {A : Type 0} (f : ℕ → A) (i : ℕ) (a : A) → update f i a i ≡ a
update_self f i a = ground arith

update_ne : {A : Type 0} (f : ℕ → A) (i j : ℕ) (a : A) → i ≢ j → update f i a j ≡ f j
update_ne f i j a h = ground arith

single-Waits :
    (uuid : String) (body : RequestBody) (batch : Bool) (s : BidirectionalStream)
    → IsValid s.response_collector
    → let ((a, p), s') = single uuid body batch s in
      (p ≡ some 0) × (s'.is_open ≡ s.is_open) × Waits uuid a s'.response_collector
unfolding single Collector.take Collector.get
single-Waits uuid body batch s v =
    let (found, new, v') = get-queue uuid s.response_collector v in
    let (first, holds) = take-Holds [] 0 empty empty-Holds in
    (
      rw new first,
      refl,
      record {
        valid = record { below = v'.below; distinct = v'.distinct };
        registered = found;
        unanswered = rw (update_self, new) holds;
      },
    )

-- A message for another request.
abbrev pub Elsewhere : String → TransactionServer → Type 0
Elsewhere uuid (res r) = r.req_id ≢ uuid
Elsewhere uuid (res_part r) = Unit
Elsewhere uuid neither = Unit

put_or_fail-Waits :
    (uuid : String) (a : ℕ) (o : Option ℕ) (id : String) (r : TransactionRes)
    (c : Collector TransactionRes)
    → ((b : ℕ) → o ≡ some b → b ≢ a)
    → Waits uuid a c
    → Waits uuid a (put_or_fail o id r c).1
unfolding put_or_fail Collector.put Collector.get
put_or_fail-Waits uuid a none id r c h w = w
put_or_fail-Waits uuid a (some b) id r c h w = record {
  valid = record { below = w.valid.below; distinct = w.valid.distinct };
  registered = w.registered;
  unanswered = rw (update_ne _ b a _ (h b refl)) w.unanswered;
}

collect-Waits :
    (uuid shown : String) (a : ℕ) (m : TransactionServer) (s : BidirectionalStream)
    → Elsewhere uuid m
    → Waits uuid a s.response_collector
    → ((collect shown m s).1.is_open ≡ s.is_open)
      × Waits uuid a (collect shown m s).1.response_collector
unfolding collect collect_res collect_res_part Collector.get
collect-Waits uuid shown a (res r) s h w =
    let c = s.response_collector in
    (
      refl,
      put_or_fail-Waits uuid a (Collector.get r.req_id c) r.req_id r c
          (λ b e.
            lookup-ne uuid r.req_id a b c.response_queues w.valid.distinct (λ f. h (sym f))
              w.registered e)
          w,
    )
collect-Waits uuid shown a (res_part r) s h w = (refl, w)
collect-Waits uuid shown a neither s h w = (refl, w)

on_data_open :
    (shown : String) (m : TransactionServer) (s : BidirectionalStream)
    → s.is_open ≡ true
    → on_data shown m s ≡ collect shown m s
unfolding on_data
on_data_open shown m s h = ground arith

-- The listener on a sequence of messages.
unfoldable pub receive :
    List (String × TransactionServer) → BidirectionalStream → BidirectionalStream
receive [] s = s
receive ((shown, m) ∷ ms) s = receive ms (on_data shown m s).1

receive-Waits :
    (uuid : String) (a : ℕ) (ms : List (String × TransactionServer)) (s : BidirectionalStream)
    → All (λ m. Elsewhere uuid m.1) ms
    → s.is_open ≡ true
    → Waits uuid a s.response_collector
    → ((receive ms s).is_open ≡ true) × Waits uuid a (receive ms s).response_collector
unfolding receive
receive-Waits uuid a [] s h on w = (on, w)
receive-Waits uuid a ((shown, m) ∷ ms) s (h, hs) on w =
    let (same, w') = collect-Waits uuid shown a m s h w in
    receive-Waits uuid a ms (on_data shown m s).1 hs (rw (on_data_open shown m s on) (same ∙ on))
      (rw (on_data_open shown m s on) w')

-- The promise that the element at the head of a queue settles.
settled_first :
    (c : Collector TransactionRes) (a : ℕ) (x : QueueElement TransactionRes)
    → Holds [] 1 (c.heap a)
    → (BlockingQueue.add x (c.heap a)).settled 0 ≡ some x
settled_first c a x h = (add-Holds [] 1 (c.heap a) x h).values_at 0

collect_registered :
    (shown : String) (a : ℕ) (r : TransactionRes) (s : BidirectionalStream)
    → Collector.get r.req_id s.response_collector ≡ some a
    → collect shown (res r) s
      ≡ (none, record s { response_collector = Collector.put a r s.response_collector })
unfolding collect collect_res put_or_fail
collect_registered shown a r s h = ground arith

settled-put :
    (c : Collector TransactionRes) (a : ℕ) (r : TransactionRes)
    → Holds [] 1 (c.heap a)
    → ((Collector.put a r c).heap a).settled 0 ≡ some (value r)
unfolding Collector.put
settled-put c a r h = rw (update_self c.heap a) (settled_first c a (value r) h)

answer :
    (uuid shown : String) (a : ℕ) (r : TransactionRes) (s : BidirectionalStream)
    → r.req_id ≡ uuid
    → s.is_open ≡ true
    → Waits uuid a s.response_collector
    → ((on_data shown (res r) s).0 ≡ none)
      × (((on_data shown (res r) s).1.response_collector.heap a).settled 0 ≡ some (value r))
answer uuid shown a r s e on w = rw (on_data_open shown (res r) s on) (
    rw (collect_registered shown a r s (rw e w.registered))
      (refl, settled-put s.response_collector a r w.unanswered))

-- A request made on an open stream, whatever else is received before the response with its id: the
-- promise that the caller awaits is settled with exactly that response.
pub single-on_data :
    (uuid shown : String) (body : RequestBody) (batch : Bool) (s : BidirectionalStream)
    (ms : List (String × TransactionServer)) (r : TransactionRes)
    → s.is_open ≡ true
    → IsValid s.response_collector
    → All (λ m. Elsewhere uuid m.1) ms
    → r.req_id ≡ uuid
    → let ((a, p), sent) = single uuid body batch s in
      let (e, answered) = on_data shown (res r) (receive ms sent) in
      (p ≡ some 0) × (e ≡ none) × ((answered.response_collector.heap a).settled 0 ≡ some (value r))
single-on_data uuid shown body batch s ms r on v h e =
    let (first, same, w) = single-Waits uuid body batch s v in
    let ((a, p), sent) = single uuid body batch s in
    let (on', w') = receive-Waits uuid a ms sent h (same ∙ on) w in
    let (fine, got) = answer uuid shown a r (receive ms sent) e on' w' in (first, fine, got)

-- If an open stream on which a request was made closes before the response with its id arrives,
-- whatever else was received, the promise that the caller awaits is settled with the end of the
-- stream and the cause of closing.
pub single-close :
    (uuid : String) (body : RequestBody) (batch : Bool) (s : BidirectionalStream)
    (ms : List (String × TransactionServer)) (cause : Option Cause)
    → s.is_open ≡ true
    → IsValid s.response_collector
    → All (λ m. Elsewhere uuid m.1) ms
    → let ((a, p), sent) = single uuid body batch s in
      let closed = close cause (receive ms sent) in
      (p ≡ some 0)
      × (closed.is_open ≡ false)
      × ((closed.response_collector.heap a).settled 0 ≡ some (done cause))
unfolding close
single-close uuid body batch s ms cause on v h =
    let (first, same, w) = single-Waits uuid body batch s v in
    let ((a, p), sent) = single uuid body batch s in
    let (on', w') = receive-Waits uuid a ms sent h (same ∙ on) w in
    let c = (receive ms sent).response_collector in
    (
      first,
      refl,
      rw ((close-heap c cause w'.valid).0 uuid a w'.registered)
          (settled_first c a (done cause) w'.unanswered),
    )

-- What arrives after the stream has closed changes nothing and raises nothing.
pub on_data-close :
    (shown : String) (m : TransactionServer) (cause : Option Cause) (s : BidirectionalStream)
    → on_data shown m (close cause s) ≡ (none, close cause s)
unfolding on_data close
on_data-close shown m cause s = refl
