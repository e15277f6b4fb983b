-- ===== src/Connection/Session.antt =====
-- nodejs/connection/TypeDBSessionImpl.ts. Transactions and callbacks are named by numbers, and the
-- set of the transactions is a list. Methods run one after the other, each up to its end.
pub mod Closing
pub mod Opening
pub mod Pulses
use typedb_client_java.Prelude.{
  ℕ, ◌-◌, List, [], ◌∷◌, ◌++◌, Option, none, some, String, Bool, true, false, not, ◌==◌, ltb,
  filter, if◌then◌else◌,
}
use typedb_client_java.Prelude.Assoc.{Assoc, erase}
use typedb_client_java.Errors.Templates.{Driver, driver}
use typedb_client_java.Errors.DriverError.{Thrown, raised, of_template}
use typedb_client_java.Effect.{Result, ok, err, Eff, pure, throw, ◌>>=◌, ◌>>◌, try_catch, modify}
use typedb_client_java.Rpc.Messages.{Request, SessionType, SessionOpenRes}
use typedb_client_java.Rpc.Messages
use typedb_client_java.Transport.Protocol.{TransactionType}
use typedb_client_java.Connection.Network.{ServerDriver, Network}
use typedb_client_java.Connection.Database.{Replica, ServerDatabase, null_error}
use typedb_client_java.Connection.Database

-- What a session uses beside the servers' databases.
pub record Peers (W : Type 0) : Type 0 where
  -- The stub's methods.
  pub session_open : ℕ → Request → Eff W SessionOpenRes
  pub session_close : ℕ → Request → Eff W (Unit {0})
  pub session_pulse : ℕ → Request → Eff W Bool
  -- The replicas of the object that `driver.databases.get(name)` gives.
  pub database : String → Eff W (List Replica)
  -- `new Date().getMilliseconds()`
  pub milliseconds : W → ℕ
  -- A new transaction, opened on a server for a session's id and latency.
  pub open_transaction : Option ServerDriver → String → ℕ → TransactionType → Eff W ℕ
  -- The closing of a transaction's stream.
  pub close_transaction : ℕ → Eff W (Unit {0})
  pub callback : ℕ → Eff W (Unit {0})

pub record Session (W : Type 0) : Type 0 where
  pub database_name : String
  pub session_type : SessionType
  pub id : String
  pub replicas : List Replica
  pub is_open : Bool
  pub server_driver : Option ServerDriver
  -- Whether the timer of `_pulse` is set.
  pub pulse_timer : Bool
  pub network_latency_millis : ℕ
  pub transactions : List ℕ
  pub on_close : List ℕ
  pub on_reopen : List ℕ
  -- `_driver._sessions`
  pub sessions : Assoc ℕ
  pub world : W

abbrev pub lift : {W A : Type 0} → Eff W A → Eff (Session W) A
lift m s = let (r, w) = m s.world in (r, record s { world = w })

-- The network as the methods of the session's database use it.
abbrev pub network : {W : Type 0} → Network W → Network (Session W)
network net = record {
  databases_get = λ s r. lift (net.databases_get s r);
  databases_all = λ s r. lift (net.databases_all s r);
  databases_contains = λ s r. lift (net.databases_contains s r);
  databases_create = λ s r. lift (net.databases_create s r);
  database_delete = λ s r. lift (net.database_delete s r);
  database_schema = λ s r. lift (net.database_schema s r);
  database_type_schema = λ s r. lift (net.database_type_schema s r);
  database_rule_schema = λ s r. lift (net.database_rule_schema s r);
  users_all = λ s r. lift (net.users_all s r);
  users_contains = λ s r. lift (net.users_contains s r);
  users_create = λ s r. lift (net.users_create s r);
  users_delete = λ s r. lift (net.users_delete s r);
  users_get = λ s r. lift (net.users_get s r);
  users_password_set = λ s r. lift (net.users_password_set s r);
  user_password_update = λ s r. lift (net.user_password_update s r);
  sleep = λ ms s. record s { world = net.sleep ms s.world };
}

-- A method of the session's database.
abbrev pub on_database : {W A : Type 0} → Eff (Database.State (Session W)) A → Eff (Session W) A
on_database m s =
    let (r, d) = m (record { replicas = s.replicas; world = s }) in
    (r, record d.world { replicas = d.replicas })

abbrev pub session_closed : Thrown
session_closed = raised (of_template (driver Driver.session_closed))

-- `Math.max((end - start) - duration, 1)`: where the difference is negative, 1 as well
abbrev pub latency : ℕ → ℕ → ℕ → ℕ
latency start end duration = let d = end - start - duration in if ltb d 1 then 1 else d

module _ {W : Type 0} (net : Network W) (peers : Peers W)
    (server_drivers : Assoc ServerDriver) where
  opened : ServerDriver → ℕ → SessionOpenRes → Eff (Session W) (Unit {0})
  opened d start res = modify λ s. record s {
    network_latency_millis = latency start (peers.milliseconds s.world) res.server_duration_millis;
    id = res.session_id;
    server_driver = some d;
    is_open = true;
    pulse_timer = true;
  }

  unfoldable pub open_at : Option ServerDriver → Eff (Session W) (Unit {0})
  unfolding opened
  open_at none s = throw null_error s
  open_at (some d) s =
      (lift (peers.session_open d.stub (Messages.session_open s.database_name s.session_type))
          >>= opened d (peers.milliseconds s.world))
        s

  call_each : List ℕ → Eff (Session W) (Unit {0})
  call_each [] = pure tt
  call_each (k ∷ ks) = lift (peers.callback k) >> call_each ks

  reopen_at : Option ServerDriver → Eff (Session W) (Unit {0})
  unfolding call_each
  reopen_at d = open_at d >> (λ s. call_each s.on_reopen s)

  set_replicas : List Replica → Eff (Session W) (Unit {0})
  set_replicas rs = modify λ s. record s { replicas = rs }

  run_failsafe : {T : Type 0} → (Option ServerDriver → Eff (Session W) T) → Eff (Session W) T
  run_failsafe task s =
      on_database
        (Database.run_failsafe (network net) server_drivers s.database_name
          (λ (d : Option ServerDriver) (_ : ServerDatabase). task d))
        s

  unfoldable pub open_session : Eff (Session W) (Unit {0})
  unfolding set_replicas run_failsafe
  open_session = (λ s. lift (peers.database s.database_name) s) >>= λ rs.
      (set_replicas rs >> run_failsafe open_at)

  -- `closed(transaction)`, the session's side of closing a transaction.
  closed : ℕ → Eff (Session W) (Unit {0})
  closed t = modify λ s. record s { transactions = filter (λ x. not (x == t)) s.transactions }

  close_each : List ℕ → Eff (Session W) (Unit {0})
  unfolding closed
  close_each [] = pure tt
  close_each (t ∷ ts) = lift (peers.close_transaction t) >> closed t >> close_each ts

  -- `_driver.closeSession(this)` and `clearTimeout(this._pulse)`
  release : Eff (Session W) (Unit {0})
  release = modify λ s. record s { sessions = erase s.id s.sessions; pulse_timer = false }

  unfoldable pub close_resources : Eff (Session W) (Unit {0})
  unfolding close_each call_each release
  close_resources s =
      (modify (λ s. record s { is_open = false })
          >> close_each s.transactions
          >> call_each s.on_close
          >> release)
        s

  close_remote : Option ServerDriver → String → Eff (Session W) (Unit {0})
  close_remote none id = throw null_error
  close_remote (some d) id = lift (peers.session_close d.stub (Messages.session_close id))

  unfoldable pub close : Eff (Session W) (Unit {0})
  unfolding close_resources close_remote
  close s =
      if s.is_open
      then (close_resources >> (λ t. close_remote t.server_driver t.id t)) s
      else pure tt s

  new_transaction : TransactionType → Eff (Session W) ℕ
  new_transaction type s =
      lift (peers.open_transaction s.server_driver s.id s.network_latency_millis type) s

  -- The task of the reconnection.
  reopen_for : TransactionType → Option ServerDriver → Eff (Session W) ℕ
  unfolding reopen_at new_transaction
  reopen_for type d = reopen_at d >> new_transaction type

  reconnect : TransactionType → Thrown → Eff (Session W) ℕ
  unfolding close run_failsafe reopen_for
  reconnect type e = close >> run_failsafe (reopen_for type)

  add_transaction : ℕ → Eff (Session W) ℕ
  add_transaction t s = (ok t, record s { transactions = s.transactions ++ t ∷ [] })

  unfoldable pub transaction : TransactionType → Eff (Session W) ℕ
  unfolding new_transaction reconnect add_transaction
  transaction type s =
      if s.is_open
      then (try_catch (new_transaction type) (reconnect type) >>= add_transaction) s
      else throw session_closed s

  pub still_alive : Bool → Eff (Session W) (Unit {0})
  unfolding close_resources
  still_alive true = modify λ s. record s { pulse_timer = true }
  still_alive false = close_resources

  ask_alive : Option ServerDriver → String → Eff (Session W) Bool
  ask_alive none id = throw null_error
  ask_alive (some d) id = lift (peers.session_pulse d.stub (Messages.session_pulse id))

  -- The callback of the timer, which is off when it runs.
  unfoldable pub pulse : Eff (Session W) (Unit {0})
  unfolding still_alive ask_alive
  pulse s =
      if s.is_open
      then try_catch (ask_alive s.server_driver s.id >>= still_alive)
          (λ e. modify λ t. record t { is_open = false }) s
      else pure tt s

unfoldable pub add_on_close : {W : Type 0} → ℕ → Session W → Session W
add_on_close k s = record s { on_close = s.on_close ++ k ∷ [] }

unfoldable pub add_on_reopen : {W : Type 0} → ℕ → Session W → Session W
add_on_reopen k s = record s { on_reopen = s.on_reopen ++ k ∷ [] }
