-- ===== src/Transport/Dispatcher/Batches.antt =====
-- The order of requests and the schedule of nodejs/stream/RequestTransmitter.ts over a history.
use typedb_client_java.Prelude.{
  ℕ, List, [], ◌∷◌, ◌++◌, true, false, ◌≡◌, ◌≢◌, refl, ◌∙◌, sym, ap, ◌⊎◌, inl, inr, arith,
  append-nil, append_assoc, All, All-append, Bool-cases,
}
use typedb_client_java.Transport.Dispatcher.{
  Dispatcher, new_dispatcher, send_now, buffer, dispatch, dispatch_now, on_timer, fire_first, fire,
  Event, dispatches, dispatches_now, fires, ends, step, run, batch_window_small_millis,
  batch_window_large_millis,
}

module _ {R : Type 0} where
  abbrev pub concat : List (List R) → List R
  concat [] = []
  concat (x ∷ xs) = x ++ concat xs

  concat-append : (xs ys : List (List R)) → concat (xs ++ ys) ≡ concat xs ++ concat ys
  concat-append [] ys = refl
  concat-append (x ∷ xs) ys = simp (concat-append xs ys, append_assoc)

  -- The requests that have been handed over, in order: sent ones and buffered ones.
  abbrev pub requests : Dispatcher R → List R
  requests d = concat d.written ++ d.buffered_requests

  -- The requests of a history.
  abbrev pub dispatched : List (Event R) → List R
  dispatched [] = []
  dispatched (dispatches r ∷ es) = r ∷ dispatched es
  dispatched (dispatches_now r ∷ es) = r ∷ dispatched es
  dispatched (fires ∷ es) = dispatched es
  dispatched (ends ∷ es) = dispatched es

  requests-send_now : (d : Dispatcher R) → requests (send_now d) ≡ requests d
  unfolding send_now
  requests-send_now d = simp (concat-append, append-nil)

  requests-buffer : (r : R) (d : Dispatcher R) → requests (buffer r d) ≡ requests d ++ r ∷ []
  unfolding buffer
  requests-buffer r d = simp append_assoc

  requests-on_timer : (bs : List R) (d : Dispatcher R) → requests (on_timer bs d) ≡ requests d
  unfolding on_timer send_now
  requests-on_timer [] d = refl
  requests-on_timer (_ ∷ _) d = requests-send_now d

  requests-fire_first : (ts : List ℕ) (d : Dispatcher R) → requests (fire_first ts d) ≡ requests d
  unfolding fire_first
  requests-fire_first [] d = refl
  requests-fire_first (_ ∷ later) d =
      requests-on_timer d.buffered_requests (record d { timers = later })

  requests-dispatch : (r : R) (d : Dispatcher R) → requests (dispatch r d) ≡ requests d ++ r ∷ []
  unfolding dispatch
  requests-dispatch r d = elim (Bool-cases d.is_running) [
    | inl on ↦ rw on (requests-buffer r d)
    | inr off ↦ rw off (requests-buffer r d)
  ]

  requests-step :
      (e : Event R) (d : Dispatcher R) → requests (step e d) ≡ requests d ++ dispatched (e ∷ [])
  unfolding step
  requests-step (dispatches r) d = requests-dispatch r d
  requests-step (dispatches_now r) d = requests-send_now (buffer r d) ∙ requests-buffer r d
  requests-step fires d = requests-fire_first d.timers d ∙ sym (append-nil (requests d))
  requests-step ends d = sym (append-nil (requests d))

  dispatched-cons :
      (e : Event R) (es : List (Event R))
      → dispatched (e ∷ []) ++ dispatched es ≡ dispatched (e ∷ es)
  dispatched-cons (dispatches r) es = refl
  dispatched-cons (dispatches_now r) es = refl
  dispatched-cons fires es = refl
  dispatched-cons ends es = refl

  requests-run :
      (es : List (Event R)) (d : Dispatcher R) → requests (run es d) ≡ requests d ++ dispatched es
  unfolding run
  requests-run [] d = sym (append-nil (requests d))
  requests-run (e ∷ es) d =
      requests-run es (step e d)
      ∙ (ap (λ (xs : List R). xs ++ dispatched es) (requests-step e d)
          ∙ (append_assoc (requests d) (dispatched (e ∷ [])) (dispatched es)
              ∙ ap (◌++◌ (requests d)) (dispatched-cons e es)))

  -- Whatever the order of calls and timers, the batches written to the stream, followed by what is
  -- still buffered, are exactly the requests handed to a new dispatcher, in their order.
  pub run-requests :
      (es : List (Event R))
      → concat (run es new_dispatcher).written ++ (run es new_dispatcher).buffered_requests
        ≡ dispatched es
  unfolding new_dispatcher
  run-requests es = requests-run es new_dispatcher

  -- A timer is set exactly while the dispatcher runs, and then one only; the dispatcher runs while
  -- anything is buffered; no batch is empty.
  pub record IsScheduled (d : Dispatcher R) : Type 0 where
    pub busy : (d.buffered_requests ≡ []) ⊎ (d.is_running ≡ true)
    pub timed :
        ((d.is_running ≡ false) × (d.timers ≡ []))
        ⊎ ((t : ℕ) × (d.is_running ≡ true) × (d.timers ≡ t ∷ []))
    pub full : All (λ b. b ≢ []) d.written

  snoc-ne-nil : (xs : List R) (x : R) → xs ++ x ∷ [] ≢ []
  snoc-ne-nil [] x e = cc
  snoc-ne-nil (y ∷ xs) x e = cc

  dispatch-IsScheduled : (r : R) (d : Dispatcher R) → IsScheduled d → IsScheduled (dispatch r d)
  unfolding dispatch
  dispatch-IsScheduled r d v = record {
    busy = ground (arith, v.timed);
    timed = elim v.timed [
      | inl (off, none_set) ↦ inr (batch_window_small_millis, ground arith, ground arith)
      | inr (t, on, one) ↦ inr (t, ground arith, ground arith)
    ];
    full = ground arith;
  }

  dispatch_now-IsScheduled :
      (r : R) (d : Dispatcher R) → IsScheduled d → IsScheduled (dispatch_now r d)
  unfolding dispatch_now
  dispatch_now-IsScheduled r d v = record {
    busy = inl refl;
    timed = v.timed;
    full = All-append (λ b. b ≢ []) d.written _ v.full (snoc-ne-nil d.buffered_requests r, tt);
  }

  on_timer-IsScheduled :
      (bs : List R) (d : Dispatcher R)
      → d.buffered_requests ≡ bs
      → d.is_running ≡ true
      → d.timers ≡ []
      → All (λ b. b ≢ []) d.written
      → IsScheduled (on_timer bs d)
  unfolding on_timer
  on_timer-IsScheduled [] d e on off full = record {
    busy = inl e;
    timed = inl (refl, off);
    full = full;
  }
  on_timer-IsScheduled (b ∷ bs) d e on off full = record {
    busy = inl refl;
    timed = inr (batch_window_large_millis, on, rw off);
    full = All-append (λ b. b ≢ []) d.written _ full ((λ h. cc), tt);
  }

  fire_first-IsScheduled :
      (ts : List ℕ) (d : Dispatcher R)
      → d.timers ≡ ts
      → IsScheduled d
      → IsScheduled (fire_first ts d)
  unfolding fire_first
  fire_first-IsScheduled [] d e v = v
  fire_first-IsScheduled (t ∷ ts) d e v =
      on_timer-IsScheduled d.buffered_requests (record d { timers = ts }) refl
        (ground (arith, v.timed)) (ground (arith, v.timed)) v.full

  -- Every call and every timer keeps the schedule.
  pub step-IsScheduled : (e : Event R) (d : Dispatcher R) → IsScheduled d → IsScheduled (step e d)
  unfolding step
  step-IsScheduled (dispatches r) d v = dispatch-IsScheduled r d v
  step-IsScheduled (dispatches_now r) d v = dispatch_now-IsScheduled r d v
  step-IsScheduled fires d v = fire_first-IsScheduled d.timers d refl v
  step-IsScheduled ends d v = record { busy = v.busy; timed = v.timed; full = v.full }

  new_dispatcher-IsScheduled : IsScheduled (new_dispatcher {R = R})
  unfolding new_dispatcher
  new_dispatcher-IsScheduled = record { busy = inl refl; timed = inl (refl, refl); full = tt }

  run-IsScheduled_from :
      (es : List (Event R)) (d : Dispatcher R) → IsScheduled d → IsScheduled (run es d)
  unfolding run
  run-IsScheduled_from [] d v = v
  run-IsScheduled_from (e ∷ es) d v = run-IsScheduled_from es (step e d) (step-IsScheduled e d v)

  -- After any history of a new dispatcher, a timer is set exactly while the dispatcher runs, and then
  -- one only; the dispatcher runs while anything is buffered; and no batch that was written is empty.
  pub run-IsScheduled : (es : List (Event R)) → IsScheduled (run es new_dispatcher)
  run-IsScheduled es = run-IsScheduled_from es new_dispatcher new_dispatcher-IsScheduled

  run-append : (es fs : List (Event R)) (d : Dispatcher R) → run (es ++ fs) d ≡ run fs (run es d)
  unfolding run
  run-append [] fs d = refl
  run-append (e ∷ es) fs d = run-append es fs (step e d)

  on_timer-drains :
      (bs : List R) (d : Dispatcher R)
      → d.buffered_requests ≡ bs
      → (on_timer bs d).buffered_requests ≡ []
  unfolding on_timer
  on_timer-drains [] d e = e
  on_timer-drains (b ∷ bs) d e = refl

  fire-drains : (d : Dispatcher R) → IsScheduled d → (run (fires ∷ []) d).buffered_requests ≡ []
  unfolding run fire
  fire-drains d v = elim v.timed [
    | inl (off, unset) ↦ rw (unset, fire_first) (ground (arith, v.busy))
    | inr (t, on, one) ↦
        rw (one, fire_first) (on_timer-drains d.buffered_requests (record d { timers = [] }) refl)
  ]

  -- After any history of a new dispatcher, nothing is left buffered once the timer has run again.
  pub fire-run :
      (es : List (Event R)) → (run (es ++ fires ∷ []) new_dispatcher).buffered_requests ≡ []
  fire-run es =
      rw (run-append es (fires ∷ []) new_dispatcher)
        (fire-drains (run es new_dispatcher) (run-IsScheduled es))

  -- When the stream of a dispatcher that has requests buffered is ended, its timer still runs, and
  -- writes them to the stream that has ended.
  pub fire-ends :
      (d : Dispatcher R) (r : R) (rs : List R)
      → IsScheduled d
      → d.buffered_requests ≡ r ∷ rs
      → let d' = step fires (step ends d) in
        (d'.ended ≡ true) × (d'.written ≡ d.written ++ (r ∷ rs) ∷ [])
  unfolding step
  fire-ends d r rs v e = ground (arith, v.timed, v.busy)
