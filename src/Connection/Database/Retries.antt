-- ===== src/Connection/Database/Retries.antt =====
-- The failover of nodejs/connection/TypeDBDatabaseImpl.ts as its callers see it.
use typedb_client_java.Prelude.{
  ℕ, ◌+◌, ◌≤◌, [], Option, String, true, false, ◌≡◌, refl, ◌⊎◌, inl, inr, ap, ◌∙◌, arith, length,
  Bool-cases,
}
use typedb_client_java.Prelude.Assoc.{Assoc, lookup, values}
use typedb_client_java.Errors.Templates.{Driver, driver}
use typedb_client_java.Errors.DriverError.{Thrown, has_template}
use typedb_client_java.Errors.DriverError.Laws.{fail_with-has_template}
use typedb_client_java.Effect.{
  Result-cases, err, Eff, Ends, attempt-Ends, Ends-err, Ends-state, catch-Ends, try_each-Ends,
}
use typedb_client_java.Rpc.Messages.{Request}
use typedb_client_java.Rpc.Messages
use typedb_client_java.Connection.Network.{ServerDriver, Network}
use typedb_client_java.Connection.Database.{
  ServerDatabase, State, unreachable, skips_server, retries_primary, fetch_from, fetch_replicas,
  task_on, run_on_any_replica, run_on_primary_replica, run_failsafe, fall_back, max_retries,
}
use typedb_client_java.Connection.Database.Failover.{Rules, run_on_primary-Ends, any-Ends}

module _ {W : Type 0} (net : Network W) (server_drivers : Assoc ServerDriver) (name : String) where
  fetch_replicas-Ends :
      (E : Thrown → W → Type 0) (F : W → Type 0)
      → ((w : W) → F w → E unreachable w)
      → ((d : ServerDriver) (w : W)
          → F w
          → Ends
              (λ _ v. F v)
              (λ e v. (skips_server e ≡ false → E e v) × (skips_server e ≡ true → F v))
              (fetch_from net server_drivers name d w))
      → (w : W) → F w
      → Ends (λ _ v. F v) E (fetch_replicas net server_drivers name w)
  unfolding fetch_replicas
  fetch_replicas-Ends E F final each w f =
      try_each-Ends (fetch_from net server_drivers name) skips_server unreachable (λ _ v. F v) E
        (λ _ v. F v) final (λ d _ v. each d v) (values server_drivers) w f

  fetch_from_world :
      (d : ServerDriver) (w : W)
      → (fetch_from net server_drivers name d w).1
        ≡ (net.databases_get d.stub (Messages.databases_get name) w).1
  unfolding fetch_from
  fetch_from_world d w =
      elim (Result-cases (net.databases_get d.stub (Messages.databases_get name) w).0) [
        | inl (p, h) ↦ ground (arith, h)
        | inr (e, h) ↦ ground (arith, h)
      ]

  fetch_from_error :
      (d : ServerDriver) (w : W) (e : Thrown)
      → (fetch_from net server_drivers name d w).0 ≡ err e
      → (net.databases_get d.stub (Messages.databases_get name) w).0 ≡ err e
  unfolding fetch_from
  fetch_from_error d w e k =
      elim (Result-cases (net.databases_get d.stub (Messages.databases_get name) w).0) [
        | inl (p, h) ↦ ground (arith, h)
        | inr (f, h) ↦ ground (arith, h)
      ]

  module _ {T : Type 0} (task : Option ServerDriver → ServerDatabase → Eff W T) where
    module _ (calls : W → ℕ)
        (each : (d : Option ServerDriver) (db : ServerDatabase) (w : W)
          → calls (task d db w).1 ≤ calls w + 1)
        (fetch : (stub : ℕ) (req : Request) (w : W)
          → calls (net.databases_get stub req w).1 ≡ calls w)
        (sleep : (ms : ℕ) (w : W) → calls (net.sleep ms w) ≡ calls w) where
      bounded_rules :
          (b : ℕ)
          → Rules net server_drivers name task
              (λ _ w. calls w ≤ b)
              (λ _ w. calls w ≤ b)
              (λ n w. calls w + n ≤ b)
      bounded_rules b = record {
        fetches = λ n. record {
          fetching =
              fetch_replicas-Ends (λ _ w. calls w ≤ b) (λ w. calls w + n ≤ b) (λ w f. omega arith)
                (λ d w f.
                  let same = ap calls (fetch_from_world d w) ∙ fetch d.stub _ w in
                  attempt-Ends skips_server (λ _ v. calls v + n ≤ b) (λ _ v. calls v ≤ b)
                    (λ v. calls v + n ≤ b) (fetch_from net server_drivers name d w)
                    (λ rs. omega arith) (λ e h k. omega arith) (omega arith));
          waiting = λ ms w f. omega (arith, sleep ms w);
          giving_up = λ w f. omega arith;
        };
        running = λ n d db w f.
            attempt-Ends retries_primary (λ _ v. calls v ≤ b) (λ _ v. calls v ≤ b)
              (λ v. calls v + n ≤ b) (task d db w) (λ a. omega (arith, each d db w))
              (λ e h k. omega (arith, each d db w)) (omega (arith, each d db w));
      }

      -- With a count of the task's runs that nothing else changes, running on the primary replica
      -- runs the task at most ten times, however it ends.
      pub run_on_primary_replica-bounded :
          (s : State W)
          → calls (run_on_primary_replica net server_drivers name task s).1.world
            ≤ calls s.world + max_retries
      run_on_primary_replica-bounded s =
          Ends-state (λ t. calls t.world ≤ calls s.world + max_retries) _
            (run_on_primary-Ends net server_drivers name task _ _ _
              (bounded_rules (calls s.world + max_retries)) s (omega arith))

      any_bounded :
          (s : State W)
          → Ends
              (λ _ t. calls t.world ≤ calls s.world + length s.replicas + max_retries)
              (λ _ t. calls t.world ≤ calls s.world + length s.replicas)
              (run_on_any_replica net server_drivers name task s)
      unfolding task_on
      any_bounded s =
          let b = calls s.world + length s.replicas in
          any-Ends net server_drivers name task (λ _ w. calls w ≤ b + max_retries)
            (λ _ w. calls w ≤ b) (λ rs w. calls w + length rs ≤ b) (λ w f. omega arith)
            (λ r rs w f.
              let once = each (lookup r.server server_drivers) r.database w in
              attempt-Ends (has_template Driver.unable_to_connect)
                (λ _ v. calls v ≤ b + max_retries) (λ _ v. calls v ≤ b)
                (λ v. calls v + length rs ≤ b) (task_on net server_drivers name task r w)
                (λ a. omega (arith, once)) (λ e h k. omega (arith, once)) (omega (arith, once)))
            s (omega arith)

      failsafe_bounded :
          (s : State W)
          → Ends
              (λ _ t. calls t.world ≤ calls s.world + length s.replicas + max_retries)
              (λ _ t. calls t.world ≤ calls s.world + length s.replicas + max_retries)
              (run_failsafe net server_drivers name task s)
      unfolding run_failsafe
      failsafe_bounded s =
          let b = calls s.world + length s.replicas + max_retries in
          catch-Ends (λ _ t. calls t.world ≤ b)
            (λ _ t. calls t.world ≤ calls s.world + length s.replicas) (λ _ t. calls t.world ≤ b)
            (run_on_any_replica net server_drivers name task)
            (fall_back net server_drivers name task) s (any_bounded s)
            (λ e t h. elim (Bool-cases (has_template Driver.cloud_replica_not_primary e)) [
              | inl moved ↦ rw moved (
                  run_on_primary-Ends net server_drivers name task (λ _ w. calls w ≤ b)
                    (λ _ w. calls w ≤ b) (λ n w. calls w + n ≤ b) (bounded_rules b) t (omega arith))
              | inr other ↦ rw other (omega arith)
            ])

      -- With a count of the task's runs that nothing else changes, `runFailsafe` runs the task at
      -- most once for each replica that the database has at the start, and ten times more, however
      -- it ends.
      pub run_failsafe-bounded :
          (s : State W)
          → calls (run_failsafe net server_drivers name task s).1.world
            ≤ calls s.world + length s.replicas + max_retries
      run_failsafe-bounded s =
          Ends-state (λ t. calls t.world ≤ calls s.world + length s.replicas + max_retries) _
            (failsafe_bounded s)

    -- The template of a failed connection is not the error's.
    abbrev IsRecognised : Thrown → Type 0
    IsRecognised e = has_template Driver.unable_to_connect e ≡ false

    unreachable-IsRecognised : IsRecognised unreachable
    unreachable-IsRecognised =
        fail_with-has_template Driver.unable_to_connect (driver Driver.unable_to_connect) []

    skipped : (e : Thrown) → skips_server e ≡ false → IsRecognised e
    unfolding skips_server
    skipped e h = ground arith

    retried : (e : Thrown) → retries_primary e ≡ false → IsRecognised e
    unfolding retries_primary
    retried e h = ground arith

    failover_rules :
        Rules net server_drivers name task
          (λ _ _. Unit {0})
          (λ e _. IsRecognised e)
          (λ _ _. Unit {0})
    failover_rules = record {
      fetches = λ n. record {
        fetching =
            fetch_replicas-Ends (λ e _. IsRecognised e) (λ _. Unit {0})
              (λ w f. unreachable-IsRecognised)
              (λ d w f.
                attempt-Ends skips_server (λ _ _. Unit {0}) (λ e _. IsRecognised e) (λ _. Unit {0})
                  (fetch_from net server_drivers name d w) (λ rs. tt) (λ e h k. skipped e k) tt);
        waiting = λ ms w f. tt;
        giving_up = λ w f. unreachable-IsRecognised;
      };
      running = λ n d db w f.
          attempt-Ends retries_primary (λ _ _. Unit {0}) (λ e _. IsRecognised e) (λ _. Unit {0})
            (task d db w) (λ a. tt) (λ e h k. retried e k) tt;
    }

    any-IsRecognised :
        (s : State W)
        → Ends
            (λ _ _. Unit {0})
            (λ e _. IsRecognised e)
            (run_on_any_replica net server_drivers name task s)
    any-IsRecognised s =
        any-Ends net server_drivers name task (λ _ _. Unit {0}) (λ e _. IsRecognised e)
          (λ _ _. Unit {0}) (λ w f. unreachable-IsRecognised)
          (λ r rs w f.
            attempt-Ends (has_template Driver.unable_to_connect) (λ _ _. Unit {0})
              (λ e _. IsRecognised e) (λ _. Unit {0}) (task_on net server_drivers name task r w)
              (λ a. tt) (λ e h k. k) tt)
          s tt

    failsafe-IsRecognised :
        (s : State W)
        → Ends
            (λ _ _. Unit {0})
            (λ e _. IsRecognised e)
            (run_failsafe net server_drivers name task s)
    unfolding run_failsafe
    failsafe-IsRecognised s =
        catch-Ends (λ _ _. Unit {0}) (λ e _. IsRecognised e) (λ e _. IsRecognised e)
          (run_on_any_replica net server_drivers name task) (fall_back net server_drivers name task)
          s (any-IsRecognised s)
          (λ e t h. elim (Bool-cases (has_template Driver.cloud_replica_not_primary e)) [
            | inl moved ↦ rw moved (
                run_on_primary-Ends net server_drivers name task (λ _ _. Unit {0})
                  (λ f _. IsRecognised f) (λ _ _. Unit {0}) failover_rules t tt)
            | inr other ↦ rw other h
          ])

    -- An error that `runFailsafe` rejects with never carries the template of a failed connection,
    -- whatever the task and the servers do.
    pub run_failsafe-recognised :
        (s : State W) (e : Thrown)
        → (run_failsafe net server_drivers name task s).0 ≡ err e
        → has_template Driver.unable_to_connect e ≡ false
    run_failsafe-recognised s e h =
        Ends-err (λ _ _. Unit {0}) (λ e _. IsRecognised e) _ e (failsafe-IsRecognised s) h

    -- Where an error that comes out of the failover was thrown.
    abbrev pub Origin : Thrown → Type 0
    Origin e =
        (e ≡ unreachable)
        ⊎ ((retries_primary e ≡ false)
            × (d : Option ServerDriver) × (db : ServerDatabase) × (w : W) × ((task d db w).0
                ≡ err e))
        ⊎ ((skips_server e ≡ false)
            × (d : ServerDriver) × (w : W) × ((net.databases_get d.stub
                  (Messages.databases_get name) w).0
                ≡ err e))

    Origin-rules :
        Rules net server_drivers name task (λ _ _. Unit {0}) (λ e _. Origin e) (λ _ _. Unit {0})
    Origin-rules = record {
      fetches = λ n. record {
        fetching =
            fetch_replicas-Ends (λ e _. Origin e) (λ _. Unit {0}) (λ w f. inl refl)
              (λ d w f.
                attempt-Ends skips_server (λ _ _. Unit {0}) (λ e _. Origin e) (λ _. Unit {0})
                  (fetch_from net server_drivers name d w) (λ rs. tt)
                  (λ e h k. inr (inr (k, d, w, fetch_from_error d w e h))) tt);
        waiting = λ ms w f. tt;
        giving_up = λ w f. inl refl;
      };
      running = λ n d db w f.
          attempt-Ends retries_primary (λ _ _. Unit {0}) (λ e _. Origin e) (λ _. Unit {0})
            (task d db w) (λ a. tt) (λ e h k. inr (inl (k, d, db, w, h))) tt;
    }

    -- An error that running on the primary replica is rejected with is UNABLE_TO_CONNECT, or one that
    -- the task was rejected with and after which it is not run again, or one that fetching the
    -- replicas from a server was rejected with and after which no other server is asked.
    pub run_on_primary_replica-Origin :
        (s : State W) (e : Thrown)
        → (run_on_primary_replica net server_drivers name task s).0 ≡ err e
        → Origin e
    run_on_primary_replica-Origin s e h =
        Ends-err (λ _ _. Unit {0}) (λ f _. Origin f) _ e
          (run_on_primary-Ends net server_drivers name task (λ _ _. Unit {0}) (λ f _. Origin f)
            (λ _ _. Unit {0}) Origin-rules s tt)
          h
