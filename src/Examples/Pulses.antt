-- ===== src/Examples/Pulses.antt =====
-- Pulses of the session of the examples in Sessions, which is closed while one awaits its answer.
use typedb_client_java.Prelude.{ℕ, ◌+◌, ◌≤◌, true, false, ◌≡◌, refl}
use typedb_client_java.Connection.Session.{close, close_resources}
use typedb_client_java.Connection.Session.Pulses.{
  Pulsing, fire, answer, shut, fires, answers, Reaches, starts, steps, closes, Run, done, step,
  timers,
}
use typedb_client_java.Connection.Session.Pulses.Steps.{Reaches-few, Reaches-quiet}
use typedb_client_java.Examples.Failover.{net, drivers}
use typedb_client_java.Examples.Sessions.{peers, live}

abbrev begun : Pulsing ℕ
begun = record { session = live; awaiting = 0 }

abbrev asking : Pulsing ℕ
asking = fire net peers drivers begun

abbrev shut_while_asking : Pulsing ℕ
shut_while_asking = shut net peers drivers asking

abbrev answered : Pulsing ℕ
answered = answer net peers drivers true 5 0 shut_while_asking

one_awaits : asking.awaiting ≡ 1
unfolding fire
one_awaits = refl

one_awaits_after : shut_while_asking.awaiting ≡ 1
unfolding fire shut
one_awaits_after = refl

over : shut_while_asking.session.is_open ≡ false
unfolding fire shut close close_resources
over = refl

timer_again : answered.session.pulse_timer ≡ true
unfolding fire shut answer
timer_again = refl

abbrev reached : Reaches net peers drivers begun shut_while_asking
reached = closes (steps starts (fires begun refl))

two_steps : Run net peers drivers shut_while_asking 2 (fire net peers drivers answered)
two_steps =
    step (answers shut_while_asking true 5 0 one_awaits_after)
      (step (fires answered timer_again) (done (fire net peers drivers answered)))

Reaches-few_example : timers answered.session + answered.awaiting ≤ 1
Reaches-few_example =
    Reaches-few net peers drivers
      (steps reached (answers shut_while_asking true 5 0 one_awaits_after)) refl

Reaches-quiet_example : ((fire net peers drivers answered).session.is_open ≡ false) × (2 ≤ 2)
Reaches-quiet_example = Reaches-quiet net peers drivers reached refl two_steps over
