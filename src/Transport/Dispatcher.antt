-- ===== src/Transport/Dispatcher.antt =====
-- nodejs/stream/RequestTransmitter.ts: `BatchDispatcher`. `written` is what went to the gRPC stream,
-- oldest first; `timers` are the callbacks that `setTimeout` has yet to run, with their delays.
pub mod Batches
use typedb_client_java.Prelude.{ℕ, List, [], ◌∷◌, ◌++◌, Bool, true, false, if◌then◌else◌}

pub record Dispatcher (R : Type 0) : Type 0 where
  pub buffered_requests : List R
  pub is_running : Bool
  pub timers : List ℕ
  pub written : List (List R)
  pub ended : Bool

abbrev pub batch_window_small_millis : ℕ
batch_window_small_millis = 1

abbrev pub batch_window_large_millis : ℕ
batch_window_large_millis = 3

module _ {R : Type 0} where
  unfoldable pub new_dispatcher : Dispatcher R
  new_dispatcher = record {
    buffered_requests = [];
    is_running = false;
    timers = [];
    written = [];
    ended = false;
  }

  unfoldable pub send_now : Dispatcher R → Dispatcher R
  send_now d = record d { written = d.written ++ d.buffered_requests ∷ []; buffered_requests = [] }

  set_schedule : Bool → Dispatcher R → Dispatcher R
  set_schedule first d = record d {
    timers =
        d.timers ++ (if first then batch_window_small_millis else batch_window_large_millis) ∷ [];
  }

  send_scheduled_batch : Dispatcher R → Dispatcher R
  unfolding set_schedule
  send_scheduled_batch d =
      if d.is_running then d else set_schedule true (record d { is_running = true })

  buffer : R → Dispatcher R → Dispatcher R
  buffer req d = record d { buffered_requests = d.buffered_requests ++ req ∷ [] }

  unfoldable pub dispatch : R → Dispatcher R → Dispatcher R
  unfolding buffer send_scheduled_batch
  dispatch req d = send_scheduled_batch (buffer req d)

  unfoldable pub dispatch_now : R → Dispatcher R → Dispatcher R
  unfolding buffer send_now
  dispatch_now req d = send_now (buffer req d)

  -- The callback of a timer.
  on_timer : List R → Dispatcher R → Dispatcher R
  unfolding send_now set_schedule
  on_timer [] d = record d { is_running = false }
  on_timer (_ ∷ _) d = set_schedule false (send_now d)

  fire_first : List ℕ → Dispatcher R → Dispatcher R
  unfolding on_timer
  fire_first [] d = d
  fire_first (_ ∷ later) d = on_timer d.buffered_requests (record d { timers = later })

  -- The oldest timer runs; nothing happens where none is set.
  unfoldable pub fire : Dispatcher R → Dispatcher R
  unfolding fire_first
  fire d = fire_first d.timers d

  -- `this._transactionStream.end()` in `close`.
  unfoldable pub end_stream : Dispatcher R → Dispatcher R
  end_stream d = record d { ended = true }

-- What can happen to a dispatcher.
pub data Event (R : Type 0) : Type 0 where
  dispatches dispatches_now : R → Event R
  fires : Event R
  ends : Event R

module _ {R : Type 0} where
  unfoldable pub step : Event R → Dispatcher R → Dispatcher R
  unfolding dispatch dispatch_now fire end_stream
  step (dispatches req) d = dispatch req d
  step (dispatches_now req) d = dispatch_now req d
  step fires d = fire d
  step ends d = end_stream d

  unfoldable pub run : List (Event R) → Dispatcher R → Dispatcher R
  unfolding step
  run [] d = d
  run (e ∷ es) d = run es (step e d)
