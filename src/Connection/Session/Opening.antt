-- ===== src/Connection/Session/Opening.antt =====
-- Opening, and new transactions, in nodejs/connection/TypeDBSessionImpl.ts.
use typedb_client_java.Prelude.{
  ℕ, List, [], ◌∷◌, ◌++◌, Option, none, some, String, Bool, true, false, ◌≡◌, refl, inl, inr, Any,
  arith, Bool-cases, if◌then◌else◌,
}
use typedb_client_java.Prelude.Assoc.{Assoc, lookup}
use typedb_client_java.Errors.Templates.{Driver}
use typedb_client_java.Errors.DriverError.{Thrown, has_template}
use typedb_client_java.Effect.{
  Result, ok, err, Eff, throw, ◌>>=◌, ◌>>◌, try_catch, Result-cases, Ends, bind-Ends, catch-Ends,
}
use typedb_client_java.Rpc.Messages.{SessionOpenRes}
use typedb_client_java.Rpc.Messages
use typedb_client_java.Transport.Protocol.{TransactionType}
use typedb_client_java.Connection.Network.{ServerDriver, Network}
use typedb_client_java.Connection.Database.{Replica, ServerDatabase, retries_primary, skips_server}
use typedb_client_java.Connection.Database
use typedb_client_java.Connection.Database.Failover.{Rules, run_on_primary-Ends, any-Ends}
use typedb_client_java.Connection.Session.{
  Session, Peers, lift, network, open_session, open_at, opened, call_each, reopen_at, reopen_for,
  set_replicas, run_failsafe, new_transaction, reconnect, add_transaction, transaction, close,
  session_closed,
}

Nothing : {A S : Type 0} → A → S → Type 0
Nothing a s = Unit {0}

Ends-any : {S A : Type 0} (p : Result A × S) → Ends (λ _ _. Unit {0}) (λ _ _. Unit {0}) p
Ends-any (ok a, s) = tt
Ends-any (err e, s) = tt

-- What is thrown is of no interest.
abbrev Yields : {S A : Type 0} → (A → S → Type 0) → Result A × S → Type 0
Yields Q p = Ends Q (λ _ _. Unit {0}) p

yields_at :
    {S A : Type 0} (Q : A → S → Type 0) (p : Result A × S) (a : A)
    → Yields Q p
    → p.0 ≡ ok a
    → Q a p.1
yields_at Q (ok b, s) a h k = ground (arith, h, k)
yields_at Q (err e, s) a h k = cc

module _ {W : Type 0} (net : Network W) (peers : Peers W)
    (server_drivers : Assoc ServerDriver) where
  abbrev IsOpen : {A : Type 0} → A → Session W → Type 0
  IsOpen _ s = s.is_open ≡ true

  -- A step of the world leaves an open session open.
  lift-IsOpen :
      {A : Type 0} (m : Eff W A) (s : Session W) → s.is_open ≡ true → Yields IsOpen (lift m s)
  lift-IsOpen m s h = elim (Result-cases (m s.world).0) [
    | inl (a, done) ↦ rw done h
    | inr (e, failed) ↦ rw failed tt
  ]

  open_at-IsOpen :
      (d : Option ServerDriver) (s : Session W)
      → Yields IsOpen (open_at net peers server_drivers d s)
  unfolding open_at opened
  open_at-IsOpen none s = tt
  open_at-IsOpen (some d) s =
      let req = Messages.session_open s.database_name s.session_type in
      bind-Ends (λ _ _. Unit {0}) (λ _ _. Unit {0}) IsOpen (lift (peers.session_open d.stub req))
        (opened net peers server_drivers d (peers.milliseconds s.world)) s (Ends-any _)
        (λ res t _. refl)

  call_each-IsOpen :
      (ks : List ℕ) (s : Session W)
      → s.is_open ≡ true
      → Yields IsOpen (call_each net peers server_drivers ks s)
  unfolding call_each
  call_each-IsOpen [] s h = h
  call_each-IsOpen (k ∷ ks) s h =
      bind-Ends IsOpen (λ _ _. Unit {0}) IsOpen (lift (peers.callback k))
        (λ _. call_each net peers server_drivers ks) s (lift-IsOpen (peers.callback k) s h)
        (λ _ t. call_each-IsOpen ks t)

  new_transaction-IsOpen :
      (type : TransactionType) (s : Session W)
      → s.is_open ≡ true
      → Yields IsOpen (new_transaction net peers server_drivers type s)
  unfolding new_transaction
  new_transaction-IsOpen type s h =
      lift-IsOpen (peers.open_transaction s.server_driver s.id s.network_latency_millis type) s h

  reopen_for-IsOpen :
      (type : TransactionType) (d : Option ServerDriver) (s : Session W)
      → Yields IsOpen (reopen_for net peers server_drivers type d s)
  unfolding reopen_for reopen_at
  reopen_for-IsOpen type d s =
      bind-Ends IsOpen (λ _ _. Unit {0}) IsOpen (reopen_at net peers server_drivers d)
        (λ _. new_transaction net peers server_drivers type) s
        (bind-Ends IsOpen (λ _ _. Unit {0}) IsOpen (open_at net peers server_drivers d)
          (λ _ t. call_each net peers server_drivers t.on_reopen t) s (open_at-IsOpen d s)
          (λ _ t. call_each-IsOpen t.on_reopen t))
        (λ _. new_transaction-IsOpen type)

  module _ {T : Type 0} (task : Option ServerDriver → Eff (Session W) T)
      (each : (d : Option ServerDriver) (s : Session W) → Yields IsOpen (task d s)) where
    abbrev on_replica : Option ServerDriver → ServerDatabase → Eff (Session W) T
    on_replica d _ = task d

    -- A run of the task, in a loop that goes on after some errors.
    attempt-IsOpen :
        (skip : Thrown → Bool) (p : Result T × Session W)
        → Yields IsOpen p
        → Ends IsOpen (λ e t. (skip e ≡ false → Unit {0}) × (skip e ≡ true → Unit {0})) p
    attempt-IsOpen skip (ok a, s) h = h
    attempt-IsOpen skip (err e, s) h = (λ _. tt, λ _. tt)

    rules :
        (name : String)
        → Rules
            (network net)
            server_drivers
            name
            on_replica
            IsOpen
            (λ _ _. Unit {0})
            (λ _ _. Unit {0})
    rules name = record {
      fetches = λ n. record {
        fetching = λ w f. Ends-any _;
        waiting = λ ms w f. tt;
        giving_up = λ w f. tt;
      };
      running = λ n d db w f. attempt-IsOpen retries_primary (task d w) (each d w);
    }

    database-IsOpen :
        (name : String) (t : Database.State (Session W))
        → Yields
            (λ _ u. u.world.is_open ≡ true)
            (Database.run_failsafe (network net) server_drivers name on_replica t)
    unfolding Database.run_failsafe Database.fall_back Database.task_on
    database-IsOpen name t =
        catch-Ends (λ _ u. u.world.is_open ≡ true) (λ _ _. Unit {0}) (λ _ _. Unit {0})
          (Database.run_on_any_replica (network net) server_drivers name on_replica)
          (Database.fall_back (network net) server_drivers name on_replica) t
          (any-Ends (network net) server_drivers name on_replica IsOpen (λ _ _. Unit {0})
            (λ _ _. Unit {0}) (λ w g. tt)
            (λ r rs w g.
              attempt-IsOpen (has_template Driver.unable_to_connect)
                (task (lookup r.server server_drivers) w) (each (lookup r.server server_drivers) w))
            t tt)
          (λ e u _. elim (Bool-cases (has_template Driver.cloud_replica_not_primary e)) [
            | inl moved ↦ rw moved (
                run_on_primary-Ends (network net) server_drivers name on_replica IsOpen
                  (λ _ _. Unit {0}) (λ _ _. Unit {0}) (rules name) u tt)
            | inr other ↦ rw other tt
          ])

    stored :
        (p : Result T × Database.State (Session W))
        → Yields (λ _ u. u.world.is_open ≡ true) p
        → Yields IsOpen (p.0, record p.1.world { replicas = p.1.replicas })
    stored (ok a, u) h = h
    stored (err e, u) h = h

    run_failsafe-IsOpen :
        (s : Session W) → Yields IsOpen (run_failsafe net peers server_drivers task s)
    unfolding run_failsafe
    run_failsafe-IsOpen s = stored _ (database-IsOpen s.database_name _)

  -- Opening a session, when it succeeds, leaves it open.
  pub open_session-IsOpen :
      (s : Session W)
      → (open_session net peers server_drivers s).0 ≡ ok tt
      → (open_session net peers server_drivers s).1.is_open ≡ true
  unfolding open_session
  open_session-IsOpen s = yields_at IsOpen (open_session net peers server_drivers s) tt (
      bind-Ends (λ _ _. Unit {0}) (λ _ _. Unit {0}) IsOpen
        (λ t. lift (peers.database t.database_name) t)
        (λ rs.
          set_replicas net peers server_drivers rs
          >> run_failsafe net peers server_drivers (open_at net peers server_drivers))
        s (Ends-any _)
        (λ rs t _. run_failsafe-IsOpen (open_at net peers server_drivers) open_at-IsOpen _))

  abbrev pub Listed : ℕ → Session W → Type 0
  Listed t s = (s.is_open ≡ true) × Any (λ x. x ≡ t) s.transactions

  Any-last : (xs : List ℕ) (t : ℕ) → Any (λ x. x ≡ t) (xs ++ t ∷ [])
  Any-last [] t = inl refl
  Any-last (x ∷ xs) t = inr (Any-last xs t)

  transaction-Listed_at :
      (type : TransactionType) (s : Session W) (b : Bool)
      → s.is_open ≡ b
      → Yields Listed (
          if b
          then (try_catch
                  (new_transaction net peers server_drivers type)
                  (reconnect net peers server_drivers type)
                >>= add_transaction net peers server_drivers)
              s
          else throw session_closed s)
  unfolding add_transaction reconnect
  transaction-Listed_at type s true h =
      bind-Ends IsOpen (λ _ _. Unit {0}) Listed
        (try_catch (new_transaction net peers server_drivers type)
          (reconnect net peers server_drivers type))
        (add_transaction net peers server_drivers) s
        (catch-Ends IsOpen (λ _ _. Unit {0}) (λ _ _. Unit {0})
          (new_transaction net peers server_drivers type) (reconnect net peers server_drivers type)
          s (new_transaction-IsOpen type s h)
          (λ e t _.
            bind-Ends (λ _ _. Unit {0}) (λ _ _. Unit {0}) IsOpen (close net peers server_drivers)
              (λ _.
                run_failsafe net peers server_drivers (reopen_for net peers server_drivers type))
              t (Ends-any _)
              (λ _ u _.
                run_failsafe-IsOpen (reopen_for net peers server_drivers type)
                  (reopen_for-IsOpen type) u)))
        (λ t u k. (k, Any-last u.transactions t))
  transaction-Listed_at type s false h = tt

  -- A transaction that the session gives, at once or after it was opened anew on another server, is
  -- in the set that closing the session goes through, and the session is open.
  pub transaction-Listed :
      (type : TransactionType) (s : Session W) (t : ℕ)
      → (transaction net peers server_drivers type s).0 ≡ ok t
      → Listed t (transaction net peers server_drivers type s).1
  unfolding transaction
  transaction-Listed type s t =
      yields_at Listed (transaction net peers server_drivers type s) t
        (transaction-Listed_at type s s.is_open refl)
