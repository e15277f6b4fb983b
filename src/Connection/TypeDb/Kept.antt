-- ===== src/Connection/TypeDb/Kept.antt =====
-- What the steps that open a driver of nodejs/connection/TypeDBDriverImpl.ts leave as it is.
use typedb_client_java.Prelude.{ℕ, String, List, [], ◌∷◌, some, Bool, true, ◌≡◌, inl, inr, arith}
use typedb_client_java.Prelude.Assoc.{Assoc}
use typedb_client_java.Effect.{Result, ok, err, Eff, pure, ◌>>=◌, Result-cases}
use typedb_client_java.Effect.Outcomes.{Ends, Ends-state, attempt-Ends, bind-Ends, try_each-Ends}
use typedb_client_java.Connection.Driver.{
  DriverState, Peers, lift, from_result, connect, await_any, fetch_from, advertised, fetch_servers,
}

-- What opening keeps of a driver, and its user manager.
abbrev pub Has : {W : Type 0} → Bool → String → Bool → DriverState W → Type 0
Has cloud name manager s = (s.is_cloud ≡ cloud) × (s.username ≡ name) × (s.user_manager ≡ manager)

module _ {W : Type 0} (peers : Peers W) (cloud : Bool) (name : String) (manager : Bool) where
  abbrev pub Keeps : {A : Type 0} → Result A × DriverState W → Type 0
  Keeps = Ends (λ _ t. Has cloud name manager t) (λ _ t. Has cloud name manager t)

  pub lift-Keeps :
      {A : Type 0} (m : Eff W A) (s : DriverState W) → Has cloud name manager s → Keeps (lift m s)
  lift-Keeps m s h = elim (Result-cases (m s.world).0) [
    | inl (a, done) ↦ rw done h
    | inr (e, failed) ↦ rw failed h
  ]

  pub connect-Keeps :
      (t : Assoc String) (s : DriverState W) → Has cloud name manager s → Keeps (connect peers t s)
  unfolding connect
  connect-Keeps [] s h = h
  connect-Keeps ((id, address) ∷ t) s h =
      bind-Ends (λ _. Has cloud name manager) (λ _. Has cloud name manager)
        (λ _. Has cloud name manager) (connect peers t)
        (λ stubs. pure ((peers.new_stub (some address) s.world).0 ∷ stubs)) _ (connect-Keeps t _ h)
        (λ _ _ k. k)

  -- Two methods one after the other.
  pub then-Keeps :
      {A B : Type 0} (m : Eff (DriverState W) A) (f : A → Eff (DriverState W) B) (s : DriverState W)
      → Keeps (m s)
      → ((a : A) (t : DriverState W) → Has cloud name manager t → Keeps (f a t))
      → Keeps ((m >>= f) s)
  then-Keeps m f s h k =
      bind-Ends (λ _. Has cloud name manager) (λ _. Has cloud name manager)
        (λ _. Has cloud name manager) m f s h k

  fetch_from-Keeps :
      (address : String) (s : DriverState W)
      → Has cloud name manager s
      → Keeps (fetch_from peers address s)
  unfolding fetch_from
  fetch_from-Keeps address s h =
      let (stub, w) = peers.new_stub (some address) s.world in
      then-Keeps (lift (peers.open_stub stub)) (λ _. lift (peers.servers_all stub))
        (record s { world = w }) (lift-Keeps (peers.open_stub stub) (record s { world = w }) h)
        (λ _ t k. lift-Keeps (peers.servers_all stub) t k)

  pub fetch_servers-Keeps :
      (addresses : List String) (s : DriverState W)
      → Has cloud name manager s
      → Keeps (fetch_servers peers addresses s)
  unfolding fetch_servers
  fetch_servers-Keeps addresses s h =
      try_each-Ends _ _ _ (λ _. Has cloud name manager) (λ _. Has cloud name manager)
        (λ _. Has cloud name manager) (λ t k. k)
        (λ x xs t k.
          let kept = Ends-state (Has cloud name manager) _ (fetch_from-Keeps x t k) in
          attempt-Ends (λ _. true) (λ _. Has cloud name manager) (λ _. Has cloud name manager)
            (Has cloud name manager) (fetch_from peers x t) (λ _. kept) (λ _ _ _. kept) kept)
        addresses s h

  pub await_any-Keeps :
      (s : DriverState W)
      → Has cloud name manager s
      → (stubs : List ℕ) → Keeps (await_any peers stubs s)
  unfolding await_any
  await_any-Keeps s h stubs = ground (arith, h)

  pub from_result-Keeps :
      {A : Type 0} (r : Result A) (s : DriverState W)
      → Has cloud name manager s
      → Keeps (from_result r s)
  unfolding from_result
  from_result-Keeps (ok a) s h = h
  from_result-Keeps (err e) s h = h

  pub advertised-Keeps :
      (servers : List String) (s : DriverState W)
      → Has cloud name manager s
      → Keeps (advertised peers servers s)
  unfolding advertised
  advertised-Keeps [] s h = h
  advertised-Keeps (a ∷ rest) s h = h
