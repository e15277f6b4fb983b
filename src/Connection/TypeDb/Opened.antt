-- ===== src/Connection/TypeDb/Opened.antt =====
-- The drivers that nodejs/TypeDB.ts opens.
use typedb_client_java.Prelude.{
  String, List, Option, none, some, is_some, Bool, true, false, ◌≡◌, refl, sym, subst, inl, inr,
  arith, if◌then◌else◌,
}
use typedb_client_java.Effect.{Result, ok, err, ◌>>=◌, ◌>>◌, Result-cases}
use typedb_client_java.Effect.Outcomes.{Ends, bind-Ends}
use typedb_client_java.Connection.Network.{Network}
use typedb_client_java.Connection.Databases.{Databases}
use typedb_client_java.Connection.Driver.{
  Addresses, DriverState, Peers, lift, new_driver, open_driver, require_open, unless_closed,
  from_result, connect, await_any, set_open, set_user_manager, open_servers, open_cloud, open_core,
  addresses_of, new_stub, check_ports, as_list, first_address, or_undefined, add_driver, advertised,
  fetch_servers, translation,
}
use typedb_client_java.Connection.Users
use typedb_client_java.Connection.TypeDb.{
  Credential, no_manager, open_new, returned, user, users, get_user,
}
use typedb_client_java.Connection.TypeDb.Kept.{
  Has, Keeps, lift-Keeps, connect-Keeps, then-Keeps, fetch_servers-Keeps, await_any-Keeps,
  from_result-Keeps, advertised-Keeps,
}

module _ {W : Type 0} (peers : Peers W) (cloud : Bool) (name : String) (manager : Bool) where
  -- What opening ends with; after an error the driver is as it was before.
  abbrev Opens : Bool → Result (Unit {0}) × DriverState W → Type 0
  Opens after =
      Ends (λ _ t. Has cloud name after t × (t.is_open ≡ true)) (λ _. Has cloud name manager)

  open_servers-Opens :
      (servers : List String) (s : DriverState W)
      → Has cloud name manager s
      → Opens true (open_servers peers servers s)
  unfolding open_servers set_user_manager set_open
  open_servers-Opens servers s h =
      let translated = from_result (translation s.init_addresses servers) in
      let awaited = translated >>= connect peers >>= await_any peers in
      let kept : Keeps peers cloud name manager (awaited s) =
        then-Keeps peers cloud name manager (translated >>= connect peers) (await_any peers) s
          (then-Keeps peers cloud name manager translated (connect peers) s
            (from_result-Keeps peers cloud name manager (translation s.init_addresses servers) s h)
            (λ t u k. connect-Keeps peers cloud name manager t u k))
          (λ stubs u k. await_any-Keeps peers cloud name manager u k stubs) in
      bind-Ends (λ _. Has cloud name true) (λ _. Has cloud name manager)
        (λ _ t. Has cloud name true t × (t.is_open ≡ true)) (awaited >> set_user_manager peers)
        (λ _. set_open peers) s
        (bind-Ends (λ _. Has cloud name manager) (λ _. Has cloud name manager)
          (λ _. Has cloud name true) awaited (λ _. set_user_manager peers) s kept
          (λ _ t (c, n, _). (c, n, refl)))
        (λ _ t k. (k, refl))

  open_cloud-Opens :
      (s : DriverState W) → Has cloud name manager s → Opens true (open_cloud peers s)
  unfolding open_cloud
  open_cloud-Opens s h =
      bind-Ends (λ _. Has cloud name manager) (λ _. Has cloud name manager)
        (λ _ t. Has cloud name true t × (t.is_open ≡ true))
        (fetch_servers peers (addresses_of s.init_addresses)) (open_servers peers) s
        (fetch_servers-Keeps peers cloud name manager (addresses_of s.init_addresses) s h)
        (λ servers t k. open_servers-Opens servers t k)

  open_core-Opens :
      (s : DriverState W) → Has cloud name manager s → Opens manager (open_core peers s)
  unfolding open_core new_stub set_open add_driver
  open_core-Opens s h =
      let address = first_address peers s.init_addresses in
      let (stub, w) = peers.new_stub address s.world in
      let asked = lift (peers.open_stub stub) >> lift (peers.servers_all stub) in
      let kept : Keeps peers cloud name manager
          ((asked >>= advertised peers) (record s { world = w })) =
        then-Keeps peers cloud name manager asked (advertised peers) (record s { world = w })
          (then-Keeps peers cloud name manager (lift (peers.open_stub stub))
            (λ _. lift (peers.servers_all stub)) (record s { world = w })
            (lift-Keeps peers cloud name manager (peers.open_stub stub) (record s { world = w }) h)
            (λ _ t k. lift-Keeps peers cloud name manager (peers.servers_all stub) t k))
          (advertised-Keeps peers cloud name manager) in
      bind-Ends (λ _. Has cloud name manager) (λ _. Has cloud name manager)
        (λ _ t. Has cloud name manager t × (t.is_open ≡ true)) (asked >>= advertised peers)
        (λ id. add_driver peers id (or_undefined peers address) stub >> set_open peers)
        (record s { world = w }) kept (λ id t k. (k, refl))

module _ {W : Type 0} (peers : Peers W) where
  -- A driver that opens is open, and has a user manager if it has a credential.
  open_driver-Opens :
      (cloud : Bool) (name : String) (s : DriverState W)
      → Has cloud name false s
      → Opens peers cloud name false cloud (open_driver peers s)
  unfolding open_driver
  open_driver-Opens true name s h =
      subst
        (λ b.
          Opens peers true name false true (if b then open_cloud peers s else open_core peers s))
        (sym h.0) (open_cloud-Opens peers true name false s h)
  open_driver-Opens false name s h =
      subst
        (λ b.
          Opens peers false name false false (if b then open_cloud peers s else open_core peers s))
        (sym h.0) (open_core-Opens peers false name false s h)

  new_driver-Has :
      (addresses : Addresses) (credential : Option String) (w : W) (s : DriverState W)
      → new_driver addresses credential w ≡ ok s
      → Has (is_some credential) (elim credential [ none ↦ "" | some name ↦ name ]) false s
  unfolding new_driver
  new_driver-Has addresses credential w s h =
      elim (Result-cases (check_ports (addresses_of (as_list addresses)))) [
        | inl (_, done) ↦ ground (arith, done, h)
        | inr (e, failed) ↦ ground (arith, failed, h)
      ]

  opened :
      (cloud : Bool) (name : String) (p : Result (Unit {0}) × DriverState W) (s : DriverState W)
      (w : W)
      → Opens peers cloud name false cloud p
      → returned peers p ≡ (ok s, w)
      → Has cloud name cloud s × (s.is_open ≡ true)
  unfolding returned
  opened cloud name (ok _, t) s w h k =
      let same : t ≡ s = cc in subst (λ u. Has cloud name cloud u × (u.is_open ≡ true)) same h
  opened cloud name (err e, t) s w h k = cc

  abbrev name_of : Option Credential → String
  name_of none = ""
  name_of (some c) = c.username

  open_new-opened :
      (addresses : Addresses) (c : Option Credential) (w w' : W) (s : DriverState W)
      → open_new peers addresses c w ≡ (ok s, w')
      → Has (is_some c) (name_of c) (is_some c) s × (s.is_open ≡ true)
  unfolding open_new
  open_new-opened addresses none w w' s h = elim (Result-cases (new_driver addresses none w)) [
    | inl (t, made) ↦
        opened false "" (open_driver peers t) s w'
          (open_driver-Opens false "" t (new_driver-Has addresses none w t made))
          (ground (arith, made, h))
    | inr (e, failed) ↦ ground (arith, failed, h)
  ]
  open_new-opened addresses (some c) w w' s h =
      elim (Result-cases (new_driver addresses (some c.username) w)) [
        | inl (t, made) ↦
            opened true c.username (open_driver peers t) s w'
              (open_driver-Opens true c.username t
                (new_driver-Has addresses (some c.username) w t made))
              (ground (arith, made, h))
        | inr (e, failed) ↦ ground (arith, failed, h)
      ]

module _ {W : Type 0} (peers : Peers (Databases W)) (net : Network W) where
  -- On a driver that was opened with a credential, `user` asks the user manager for the user of the
  -- credential, on the databases of the driver; on a driver that was opened without one, it throws the
  -- TypeError of a manager that is not there, and nothing changes.
  pub user-open_new :
      (addresses : Addresses) (c : Option Credential) (w w' : Databases W)
      (s : DriverState (Databases W))
      → open_new peers addresses c w ≡ (ok s, w')
      → user peers net s ≡ elim c [
        | none ↦ (err no_manager, s)
        | some c ↦ lift (Users.get net s.server_drivers true c.username) s
      ]
  unfolding user users require_open get_user from_result unless_closed
  user-open_new addresses none w w' s h =
      let ((cloud, name, manager), is_open) = open_new-opened peers addresses none w w' s h in
      ground (arith, is_open, manager)
  user-open_new addresses (some c) w w' s h =
      let ((cloud, name, manager), is_open) = open_new-opened peers addresses (some c) w w' s h in
      ground (arith, is_open, manager, cloud, name)
