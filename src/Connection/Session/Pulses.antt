-- ===== src/Connection/Session/Pulses.antt =====
-- `pulse` of nodejs/connection/TypeDBSessionImpl.ts beside `close`: a pulse is cut in two at its
-- `await`, and what happens while it awaits its answer is a sequence of steps.
pub mod Ending
pub mod Steps
use typedb_client_java.Prelude.{
  ℕ, zero, suc, ◌+◌, ◌*◌, ◌≤◌, List, [], ◌∷◌, Option, none, some, String, Bool, true, false, ◌≡◌,
  refl, if◌then◌else◌, arith, Bool-cases, inl, inr,
}
use typedb_client_java.Prelude.Assoc.{Assoc}
use typedb_client_java.Errors.DriverError.{Thrown}
use typedb_client_java.Effect.{
  Result, ok, err, Eff, pure, ◌>>=◌, ◌>>◌, try_catch, modify, Ends, Ends-state, bind-Ends,
  catch-Ends, Result-cases,
}
use typedb_client_java.Connection.Network.{ServerDriver, Network}
use typedb_client_java.Connection.Session.{
  Session, Peers, lift, still_alive, ask_alive, pulse, close, close_resources, close_each,
  call_each, closed, release, close_remote,
}

-- A session, and the number of its pulses that await an answer.
pub record Pulsing (W : Type 0) : Type 0 where
  pub session : Session W
  pub awaiting : ℕ

module _ {W : Type 0} (net : Network W) (peers : Peers W)
    (server_drivers : Assoc ServerDriver) where
  -- The timer is over: the callback runs up to its `await`.
  unfoldable pub fire : Pulsing W → Pulsing W
  fire c = record {
    session = record c.session { pulse_timer = false };
    awaiting = if c.session.is_open then suc c.awaiting else c.awaiting;
  }

  pub abandon : Thrown → Eff (Session W) (Unit {0})
  abandon e = modify λ t. record t { is_open = false }

  -- The answer comes, and the callback runs to its end. `w` is the world by then.
  unfoldable pub answer : Bool → W → ℕ → Pulsing W → Pulsing W
  unfolding still_alive abandon
  answer alive w n c = record {
    session =
        (try_catch (still_alive net peers server_drivers alive) abandon
          (record c.session { world = w })).1;
    awaiting = n;
  }

  -- The request fails.
  unfoldable pub lose : Thrown → W → ℕ → Pulsing W → Pulsing W
  unfolding abandon
  lose e w n c = record { session = (abandon e (record c.session { world = w })).1; awaiting = n }

  -- `close`, up to its end.
  unfoldable pub shut : Pulsing W → Pulsing W
  shut c = record c { session = (close net peers server_drivers c.session).1 }

  -- A step of a pulse; `n` pulses still await an answer after it.
  pub data Step : Pulsing W → Pulsing W → Type 0 where
    fires : (c : Pulsing W) → c.session.pulse_timer ≡ true → Step c (fire c)
    answers :
        (c : Pulsing W) (alive : Bool) (w : W) (n : ℕ)
        → c.awaiting ≡ suc n
        → Step c (answer alive w n c)
    fails :
        (c : Pulsing W) (e : Thrown) (w : W) (n : ℕ) → c.awaiting ≡ suc n → Step c (lose e w n c)

  -- What the steps of pulses and `close` lead to, in any order.
  pub data Reaches (s : Pulsing W) : Pulsing W → Type 0 where
    starts : Reaches s s
    steps : {c d : Pulsing W} → Reaches s c → Step c d → Reaches s d
    closes : {c : Pulsing W} → Reaches s c → Reaches s (shut c)

  -- Steps of pulses one after the other, and their number.
  pub data Run : Pulsing W → ℕ → Pulsing W → Type 0 where
    done : (c : Pulsing W) → Run c zero c
    step : {c d e : Pulsing W} {n : ℕ} → Step c d → Run d n e → Run c (suc n) e

-- The timers and pulses of a session.
unfoldable pub timers : {W : Type 0} → Session W → ℕ
timers s = if s.pulse_timer then 1 else 0
