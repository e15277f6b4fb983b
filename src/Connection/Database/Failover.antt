-- ===== src/Connection/Database/Failover.antt =====
-- The loops of nodejs/connection/TypeDBDatabaseImpl.ts, with what each keeps as a parameter.
use typedb_client_java.Prelude.{
  ℕ, zero, suc, List, [], ◌∷◌, Option, none, some, String, true, false, ◌≡◌, refl, inl, inr,
  Bool-cases,
}
use typedb_client_java.Prelude.Assoc.{Assoc, lookup}
use typedb_client_java.Errors.Templates.{Driver}
use typedb_client_java.Errors.DriverError.{Thrown, has_template}
use typedb_client_java.Effect.{
  Result, ok, err, Eff, pure, ◌>>◌, Ends, bind-Ends, catch-Ends, try_each-Ends,
}
use typedb_client_java.Connection.Network.{ServerDriver, Network}
use typedb_client_java.Connection.Database.{
  ServerDatabase, Replica, primary_replica, State, lift, unreachable, retries_primary,
  fetch_replicas, wait_for_primary, settle_primary, set_replicas, seek_from, seek_primary_replica,
  task_on, run_on_any_replica, on_replica, on_primary, retry, primary_from, ensure_primary,
  run_on_primary_replica, max_retries,
}

-- A step of the world ends as the world says, with the replicas unchanged.
lift-Ends :
    {W A : Type 0} (Q : A → W → Type 0) (E : Thrown → W → Type 0) (p : Result A × W)
    (rs : List Replica)
    → Ends Q E p
    → Ends
        (λ a (t : State W). Q a t.world × (t.replicas ≡ rs))
        (λ e t. E e t.world)
        (p.0, record { replicas = rs; world = p.1 })
lift-Ends Q E (ok a, w) rs h = (h, refl)
lift-Ends Q E (err e, w) rs h = h

lift-Ends_world :
    {W A : Type 0} (Q : A → W → Type 0) (E : Thrown → W → Type 0) (p : Result A × W)
    (rs : List Replica)
    → Ends Q E p
    → Ends
        (λ a (t : State W). Q a t.world)
        (λ e t. E e t.world)
        (p.0, record { replicas = rs; world = p.1 })
lift-Ends_world Q E (ok a, w) rs h = h
lift-Ends_world Q E (err e, w) rs h = h

module _ {W : Type 0} (net : Network W) (server_drivers : Assoc ServerDriver) (name : String)
    (E : Thrown → W → Type 0) (F : W → Type 0) where
  -- What fetching the replicas and waiting must keep for a loop to keep it.
  pub record Fetches : Type 0 where
    pub fetching : (w : W) → F w → Ends (λ _ v. F v) E (fetch_replicas net server_drivers name w)
    pub waiting : (ms : ℕ) (w : W) → F w → F (net.sleep ms w)
    pub giving_up : (w : W) → F w → E unreachable w

  abbrev pub Sought : Replica → State W → Type 0
  Sought r t = (primary_replica t.replicas ≡ some r) × F t.world

  module _ (rules : Fetches) where
    settle-Ends :
        (o : Option Replica) (again : Eff (State W) Replica) (s : State W)
        → primary_replica s.replicas ≡ o
        → F s.world
        → ((t : State W) → F t.world → Ends Sought (λ e t. E e t.world) (again t))
        → Ends Sought (λ e t. E e t.world) (settle_primary net server_drivers name o again s)
    unfolding settle_primary wait_for_primary
    settle-Ends (some r) again s h f k = (h, f)
    settle-Ends none again s h f k = k _ (rules.waiting _ s.world f)

    seek_from-Ends :
        (rounds : ℕ) (s : State W)
        → F s.world
        → Ends Sought (λ e t. E e t.world) (seek_from net server_drivers name rounds s)
    unfolding seek_from set_replicas
    seek_from-Ends zero s f = rules.giving_up s.world f
    seek_from-Ends (suc rounds) s f =
        bind-Ends (λ rs t. F t.world × (t.replicas ≡ s.replicas)) (λ e t. E e t.world) Sought
          (lift (fetch_replicas net server_drivers name)) _ s
          (lift-Ends (λ _ v. F v) E (fetch_replicas net server_drivers name s.world) s.replicas
            (rules.fetching s.world f))
          (λ rs t h.
            settle-Ends (primary_replica rs) (seek_from net server_drivers name rounds)
              (record t { replicas = rs }) refl h.0 (seek_from-Ends rounds))

    -- Seeking ends with a primary replica in the state, or with an error.
    pub seek-Ends :
        (s : State W)
        → F s.world
        → Ends Sought (λ e t. E e t.world) (seek_primary_replica net server_drivers name s)
    unfolding seek_primary_replica
    seek-Ends s f = seek_from-Ends max_retries s f

-- The loop of `runOnPrimaryReplica`: `F n` holds before a round when `n` runs of the task are left.
module _ {W T : Type 0} (net : Network W) (server_drivers : Assoc ServerDriver) (name : String)
    (task : Option ServerDriver → ServerDatabase → Eff W T) (Q : T → W → Type 0)
    (E : Thrown → W → Type 0) (F : ℕ → W → Type 0) where
  pub record Rules : Type 0 where
    pub fetches : (n : ℕ) → Fetches net server_drivers name E (F n)
    pub running :
        (n : ℕ) (d : Option ServerDriver) (db : ServerDatabase) (w : W)
        → F (suc n) w
        → Ends Q
            (λ e v. (retries_primary e ≡ false → E e v) × (retries_primary e ≡ true → F n v))
            (task d db w)

  module _ (rules : Rules) where
    on_replica-Ends :
        (n : ℕ) (o : Option Replica) (r : Replica) (w : W)
        → o ≡ some r
        → F (suc n) w
        → Ends Q
            (λ e v. (retries_primary e ≡ false → E e v) × (retries_primary e ≡ true → F n v))
            (on_replica net server_drivers name task o w)
    unfolding on_replica task_on
    on_replica-Ends n none r w h f = cc
    on_replica-Ends n (some q) r w h f =
        rules.running n (lookup q.server server_drivers) q.database w f

    retry-Ends :
        (n : ℕ) (again : Eff (State W) T)
        → ((t : State W) (q : Replica)
            → primary_replica t.replicas ≡ some q
            → F n t.world
            → Ends (λ a u. Q a u.world) (λ e u. E e u.world) (again t))
        → (e : Thrown) (t : State W)
        → (retries_primary e ≡ false → E e t.world) × (retries_primary e ≡ true → F n t.world)
        → Ends
            (λ a u. Q a u.world)
            (λ e u. E e u.world)
            (retry net server_drivers name task again e t)
    unfolding retry wait_for_primary
    retry-Ends n again k e t after = elim (Bool-cases (retries_primary e)) [
      | inl more ↦ rw more (
          bind-Ends (Sought net server_drivers name E (F n)) (λ f u. E f u.world)
            (λ a u. Q a u.world) (seek_primary_replica net server_drivers name) (λ _. again) _
            (seek-Ends net server_drivers name E (F n) (rules.fetches n) _
              ((rules.fetches n).waiting _ t.world (after.1 more)))
            (λ q u h. k u q h.0 h.1))
      | inr stop ↦ rw stop (after.0 stop)
    ]

    primary_from-Ends :
        (n : ℕ) (s : State W) (r : Replica)
        → primary_replica s.replicas ≡ some r
        → F n s.world
        → Ends
            (λ a t. Q a t.world)
            (λ e t. E e t.world)
            (primary_from net server_drivers name task n s)
    unfolding primary_from on_primary wait_for_primary
    primary_from-Ends zero s r h f = (rules.fetches 0).giving_up s.world f
    primary_from-Ends (suc n) s r h f =
        catch-Ends (λ a t. Q a t.world)
          (λ e t.
            (retries_primary e ≡ false → E e t.world) × (retries_primary e ≡ true → F n t.world))
          (λ e t. E e t.world) (on_primary net server_drivers name task)
          (retry net server_drivers name task (primary_from net server_drivers name task n)) s
          (lift-Ends_world Q _
            (on_replica net server_drivers name task (primary_replica s.replicas) s.world)
            s.replicas (on_replica-Ends n (primary_replica s.replicas) r s.world h f))
          (retry-Ends n (primary_from net server_drivers name task n) (primary_from-Ends n))

    abbrev Ready : Unit {0} → State W → Type 0
    Ready _ t = (r : Replica) × (primary_replica t.replicas ≡ some r) × F max_retries t.world

    -- The method as a whole, with ten rounds.
    pub run_on_primary-Ends :
        (s : State W)
        → F max_retries s.world
        → Ends
            (λ a t. Q a t.world)
            (λ e t. E e t.world)
            (run_on_primary_replica net server_drivers name task s)
    unfolding run_on_primary_replica ensure_primary
    run_on_primary-Ends s f = go (primary_replica s.replicas) refl
      where
        go :
            (o : Option Replica)
            → primary_replica s.replicas ≡ o
            → Ends
                (λ a t. Q a t.world)
                (λ e t. E e t.world)
                ((ensure_primary net server_drivers name task o
                    >> primary_from net server_drivers name task max_retries)
                  s)
        go (some r) h = primary_from-Ends max_retries s r h f
        go none h =
            bind-Ends Ready (λ e t. E e t.world) (λ a t. Q a t.world)
              (ensure_primary net server_drivers name task none)
              (λ _. primary_from net server_drivers name task max_retries) s
              (bind-Ends (Sought net server_drivers name E (F max_retries)) (λ e t. E e t.world)
                Ready (seek_primary_replica net server_drivers name) (λ _. pure tt) s
                (seek-Ends net server_drivers name E (F max_retries) (rules.fetches max_retries) s
                  f)
                (λ r t k. (r, k.0, k.1)))
              (λ _ t k. primary_from-Ends max_retries t k.0 k.1 k.2)

module _ {W T : Type 0} (net : Network W) (server_drivers : Assoc ServerDriver) (name : String)
    (task : Option ServerDriver → ServerDatabase → Eff W T) (Q : T → W → Type 0)
    (E : Thrown → W → Type 0) where
  -- The loop over all replicas.
  pub any-Ends :
      (G : List Replica → W → Type 0)
      → ((w : W) → G [] w → E unreachable w)
      → ((r : Replica) (rs : List Replica) (w : W)
          → G (r ∷ rs) w
          → Ends Q
              (λ e v.
                (has_template Driver.unable_to_connect e ≡ false → E e v)
                × (has_template Driver.unable_to_connect e ≡ true → G rs v))
              (task_on net server_drivers name task r w))
      → (s : State W) → G s.replicas s.world
      → Ends
          (λ a t. Q a t.world)
          (λ e t. E e t.world)
          (run_on_any_replica net server_drivers name task s)
  unfolding run_on_any_replica
  any-Ends G final each s g = lift-Ends_world Q E _ s.replicas (
      try_each-Ends (task_on net server_drivers name task) (has_template Driver.unable_to_connect)
        unreachable Q E G final each s.replicas s.world g)
