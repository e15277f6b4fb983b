-- ===== src/Examples/Sessions.antt =====
-- nodejs/connection/TypeDBSessionImpl.ts and TypeDBTransactionImpl.ts: a session of data with two
-- transactions on the failover's server, which no longer answers the pulse.
use typedb_client_java.Prelude.{ℕ, suc, [], ◌∷◌, Option, none, some, true, false, ◌≡◌, refl}
use typedb_client_java.Prelude.Assoc.{erase, lookup}
use typedb_client_java.Errors.Templates.{Driver, driver}
use typedb_client_java.Errors.DriverError.{
  js, raised, of_template, fail_with, show_thrown, thrown, Thrown,
}
use typedb_client_java.Effect.{ok, err, Eff, try_each}
use typedb_client_java.Rpc.Messages.{data_session}
use typedb_client_java.Transport.Protocol.{write}
use typedb_client_java.Transport.Bidirectional.{BidirectionalStream, open_stream}
use typedb_client_java.Transport.Bidirectional
use typedb_client_java.Connection.Database.{run_on_any_replica, task_on}
use typedb_client_java.Connection.Database
use typedb_client_java.Connection.Session.{
  Session, Peers, close, close_resources, pulse, transaction, open_session, open_at,
}
use typedb_client_java.Connection.Session.Closing.{IsShut, Abandoned, close-IsShut, pulse-abandons}
use typedb_client_java.Connection.Session.Opening.{Listed, transaction-Listed}
use typedb_client_java.Connection.Transaction.Closed.{Refuses, close-Refuses}
use typedb_client_java.Examples.Failover.{net, drivers, server}

abbrev pub peers : Peers ℕ
peers = record {
  session_open = λ s r w. (ok (record { session_id = "0xab"; server_duration_millis = 2 }), w);
  session_close = λ s r w. (ok tt, w);
  session_pulse = λ s r w. (err (js "down"), w);
  database = λ name w. (
    ok (
        record {
          database = record { name = name; driver = some server };
          server = "one";
          term = 1;
          primary = true;
          preferred = false;
        }
        ∷ []),
    w,
  );
  milliseconds = λ w. 7;
  open_transaction = λ d id latency type w. (ok w, suc w);
  close_transaction = λ t w. (ok tt, w);
  callback = λ k w. (ok tt, w);
}

abbrev fresh : Session ℕ
fresh = record {
  database_name = "db";
  session_type = data_session;
  id = "";
  replicas = [];
  is_open = false;
  server_driver = none;
  pulse_timer = false;
  network_latency_millis = 1;
  transactions = [];
  on_close = [];
  on_reopen = [];
  sessions = [];
  world = 5;
}

abbrev pub live : Session ℕ
live = record fresh {
  id = "0xab";
  is_open = true;
  server_driver = some server;
  pulse_timer = true;
  transactions = 3 ∷ 4 ∷ [];
  sessions = ("0xab", 0) ∷ [];
}

closes : (close net peers drivers live).0 ≡ ok tt
unfolding close close_resources erase
closes = refl

close-IsShut_example : IsShut net peers drivers (close net peers drivers live).1
close-IsShut_example = close-IsShut net peers drivers live refl closes

pulse-abandons_example : Abandoned net peers drivers live (pulse net peers drivers live).1
pulse-abandons_example = pulse-abandons net peers drivers live server (js "down") refl refl refl

opens : (open_session net peers drivers fresh).0 ≡ ok tt
unfolding open_session open_at Database.run_failsafe run_on_any_replica task_on try_each lookup
opens = refl

begins : (transaction net peers drivers write live).0 ≡ ok 5
unfolding transaction
begins = refl

transaction-Listed_example : Listed net peers drivers 5 (transaction net peers drivers write live).1
transaction-Listed_example = transaction-Listed net peers drivers write live 5 begins

close-Refuses_example :
    Refuses
      (Bidirectional.close none open_stream)
      (raised (of_template (driver Driver.transaction_closed)))
    × ((e : Thrown)
        → Refuses
            (Bidirectional.close (some (thrown e)) open_stream)
            (fail_with (driver Driver.transaction_closed_with_errors) (show_thrown e ∷ [])))
close-Refuses_example = close-Refuses open_stream

abbrev lost : ℕ × Option ℕ → Eff BidirectionalStream (Unit {0})
lost p s = (err (js "lost"), Bidirectional.close (some (thrown (js "lost"))) s)
