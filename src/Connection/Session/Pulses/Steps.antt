-- ===== src/Connection/Session/Pulses/Steps.antt =====
-- At most one pulse at a time, and none for long after closing.
use typedb_client_java.Prelude.{
  ℕ, suc, ◌+◌, ◌*◌, ◌≤◌, Option, none, some, String, Bool, true, false, ◌≡◌, refl, if◌then◌else◌,
  arith, inl, inr, ◌⊎◌, subst, sym,
}
use typedb_client_java.Prelude.Assoc.{Assoc}
use typedb_client_java.Effect.{Result, ok, err, pure, ◌>>=◌, try_catch}
use typedb_client_java.Rpc.Messages
use typedb_client_java.Connection.Database.{null_error}
use typedb_client_java.Connection.Network.{ServerDriver, Network}
use typedb_client_java.Connection.Session.{Session, Peers, still_alive, ask_alive, pulse}
use typedb_client_java.Connection.Session.Pulses.{
  Pulsing, fire, abandon, answer, lose, shut, Step, fires, answers, fails, Reaches, starts, steps,
  closes, Run, done, step, timers,
}
use typedb_client_java.Connection.Session.Pulses.Ending.{answer-Ended, close-Ended}

module _ {W : Type 0} (net : Network W) (peers : Peers W)
    (server_drivers : Assoc ServerDriver) where
  -- Steps keep to one timer or pulse.
  Step-few :
      {c d : Pulsing W}
      → Step net peers server_drivers c d
      → timers c.session + c.awaiting ≤ 1
      → timers d.session + d.awaiting ≤ 1
  unfolding fire lose abandon timers answer still_alive
  Step-few (fires c on) h = ground arith
  Step-few (answers c true w n more) h = ground arith
  Step-few (answers c false w n more) h =
      omega (arith, (answer-Ended net peers server_drivers (record c.session { world = w })).1)
  Step-few (fails c e w n more) h = omega arith

  -- A session that is opened with no pulse awaiting its answer has at most one timer or pulse at a
  -- time, whatever the order of the timer, the answers and failures, and of closing.
  pub Reaches-few :
      {s c : Pulsing W}
      → Reaches net peers server_drivers s c
      → s.awaiting ≡ 0
      → timers c.session + c.awaiting ≤ 1
  unfolding timers shut
  Reaches-few {s} starts h = ground arith
  Reaches-few (steps r m) h = Step-few m (Reaches-few r h)
  Reaches-few (closes {c} r) h =
      omega (arith, Reaches-few r h, (close-Ended net peers server_drivers c.session).1)

  abbrev left_over : Pulsing W → ℕ
  left_over c = 2 * c.awaiting + timers c.session

  -- A step of a closed session leaves it closed, and fewer are left.
  Step-closed :
      {c d : Pulsing W}
      → Step net peers server_drivers c d
      → c.session.is_open ≡ false
      → (d.session.is_open ≡ false) × (suc (left_over d) ≤ left_over c)
  unfolding fire lose abandon timers answer still_alive
  Step-closed (fires c on) over = ground arith
  Step-closed (answers c true w n more) over = ground arith
  Step-closed (answers c false w n more) over =
      let (shut, few) = answer-Ended net peers server_drivers (record c.session { world = w }) in
      (shut, omega (arith, few))
  Step-closed (fails c e w n more) over = ground arith

  Run-closed :
      {c d : Pulsing W} {n : ℕ}
      → Run net peers server_drivers c n d
      → c.session.is_open ≡ false
      → (d.session.is_open ≡ false) × (n + left_over d ≤ left_over c)
  Run-closed (done c) over = (over, omega arith)
  Run-closed (step m r) over =
      let (shut, fewer) = Step-closed m over in
      let (last, rest) = Run-closed r shut in (last, omega (arith, fewer, rest))

  -- Where a session that was opened with no pulse awaiting its answer is closed, by `close` or by a
  -- pulse, and whatever pulses came before, it stays closed, and at most two more steps of pulses
  -- follow: an answer that is awaited, and the timer that it may set.
  pub Reaches-quiet :
      {s c d : Pulsing W} {n : ℕ}
      → Reaches net peers server_drivers s c
      → s.awaiting ≡ 0
      → Run net peers server_drivers c n d
      → c.session.is_open ≡ false
      → (d.session.is_open ≡ false) × (n ≤ 2)
  unfolding timers
  Reaches-quiet r none_yet run over =
      let few = Reaches-few r none_yet in
      let (shut, bound) = Run-closed run over in (shut, omega (arith, few, bound))

  -- How the state of a pulse ends: by an answer, or by a failure.
  abbrev Split : Session W → Session W → Type 0
  Split s t =
      ((alive : Bool) × (w : W) × (t
          ≡ (try_catch (still_alive net peers server_drivers alive)
              (abandon net peers server_drivers) (record s { world = w })).1))
      ⊎ ((w : W) × (t ≡ record s { world = w; is_open = false }))

  outcome-Split :
      (r : Result Bool) (w : W) (s : Session W)
      → Split s
          (try_catch
            ((λ t. (r, record t { world = w })) >>= still_alive net peers server_drivers)
            (abandon net peers server_drivers)
            s).1
  unfolding abandon
  outcome-Split (ok alive) w s = inl (alive, w, refl)
  outcome-Split (err e) w s = inr (w, refl)

  ask-Split :
      (o : Option ServerDriver) (id : String) (s : Session W)
      → Split s
          (try_catch
            (ask_alive net peers server_drivers o id >>= still_alive net peers server_drivers)
            (abandon net peers server_drivers)
            s).1
  unfolding ask_alive abandon
  ask-Split none id s = inr (s.world, refl)
  ask-Split (some d) id s =
      let r = peers.session_pulse d.stub (Messages.session_pulse id) s.world in
      outcome-Split r.0 r.1 s

  Split-Run :
      (s t : Session W) (n : ℕ)
      → s.is_open ≡ true
      → s.pulse_timer ≡ true
      → Split (record s { pulse_timer = false }) t
      → Run net peers server_drivers
          (record { session = s; awaiting = n })
          2
          (record { session = t; awaiting = n })
  unfolding fire answer lose abandon
  Split-Run s t n live on (inl (alive, w, at)) =
      let c : Pulsing W = record { session = s; awaiting = n } in
      subst
        (λ (u : Session W). Run net peers server_drivers c 2 (record { session = u; awaiting = n }))
        (sym at)
        (step (fires c on)
          (step (answers (fire net peers server_drivers c) alive w n (ground arith)) (done _)))
  Split-Run s t n live on (inr (w, at)) =
      let c : Pulsing W = record { session = s; awaiting = n } in
      subst
        (λ (u : Session W). Run net peers server_drivers c 2 (record { session = u; awaiting = n }))
        (sym at)
        (step (fires c on)
          (step (fails (fire net peers server_drivers c) null_error w n (ground arith)) (done _)))

  pulse_if-Split :
      (b : Bool) (s : Session W)
      → b ≡ true
      → Split s
          (if b
            then try_catch
                (ask_alive net peers server_drivers s.server_driver s.id
                  >>= still_alive net peers server_drivers)
                (abandon net peers server_drivers)
                s
            else pure tt s).1
  pulse_if-Split true s live = ask-Split s.server_driver s.id s
  pulse_if-Split false s live = cc

  -- The pulse as one step is the step of the timer and then that of the answer or the failure.
  pub pulse-Run :
      (s : Session W) (n : ℕ)
      → s.is_open ≡ true
      → s.pulse_timer ≡ true
      → Run net peers server_drivers
          (record { session = s; awaiting = n })
          2
          (record {
            session = (pulse net peers server_drivers (record s { pulse_timer = false })).1;
            awaiting = n;
          })
  unfolding pulse abandon
  pulse-Run s n live on =
      Split-Run s _ n live on (pulse_if-Split s.is_open (record s { pulse_timer = false }) live)
