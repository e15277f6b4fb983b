-- ===== src/Examples/Opened.antt =====
-- nodejs/TypeDB.ts, with servers whose stubs are numbered as they are made.
use typedb_client_java.Prelude.{ℕ, [], ◌∷◌, none, some, true, false, ◌≡◌, refl, ◌+◌}
use typedb_client_java.Prelude.Assoc.{Assoc, insert}
use typedb_client_java.Errors.Templates.{Driver, driver}
use typedb_client_java.Errors.DriverError.{fail_with}
use typedb_client_java.Effect.{ok, err, try_each}
use typedb_client_java.Connection.Network.{ServerDriver}
use typedb_client_java.Connection.Databases.{Databases}
use typedb_client_java.Connection.Driver.{
  DriverState, Peers, listed, lift, as_list, new_driver, addresses_of, has_port, check_ports,
  open_driver, open_cloud, open_core, fetch_servers, fetch_from, new_stub, add_driver, open_servers,
  connect, await_any, open_any, set_user_manager, set_open, translation, identity, from_result,
  first_address, advertised, or_undefined,
}
use typedb_client_java.Connection.Users
use typedb_client_java.Connection.TypeDb.{
  Credential, new_credential, open_new, core_driver, returned, user,
}
use typedb_client_java.Connection.TypeDb.Opened.{user-open_new}
use typedb_client_java.Examples.Failover.{net}
use typedb_client_java.Examples.Manager.{nothing_cached}

abbrev peers : Peers (Databases ℕ)
peers = record {
  new_stub = λ address s. (s.world, record s { world = s.world + 1 });
  open_stub = λ stub s. (ok tt, s);
  servers_all = λ stub s. (ok ("a:1" ∷ []), s);
  open_session = λ database type s. (ok (0, "s"), s);
}

abbrev after : ℕ → Databases ℕ
after n = record nothing_cached { world = n }

abbrev admin : Credential
admin = record { username = "admin"; password = "password"; tls_root_ca_path = none }

abbrev drivers : ℕ → Assoc ServerDriver
drivers stub = ("a:1", record { address = "a:1"; stub = stub }) ∷ []

abbrev cloud : DriverState (Databases ℕ)
cloud = record {
  is_open = true;
  is_cloud = true;
  init_addresses = listed ("a:1" ∷ []);
  username = "admin";
  server_drivers = drivers 1;
  user_manager = true;
  sessions = [];
  world = after 2;
}

abbrev core : DriverState (Databases ℕ)
core = record {
  is_open = true;
  is_cloud = false;
  init_addresses = listed ("a:1" ∷ []);
  username = "";
  server_drivers = drivers 0;
  user_manager = false;
  sessions = [];
  world = after 1;
}

core_opened : core_driver peers (some "a:1") nothing_cached ≡ (ok core, after 1)
unfolding core_driver open_new returned new_driver addresses_of as_list has_port check_ports
    open_driver open_core new_stub add_driver set_open first_address advertised or_undefined insert
core_opened = refl

cloud_opened :
    open_new peers (listed ("a:1" ∷ [])) (some admin) nothing_cached ≡ (ok cloud, after 2)
unfolding open_new returned new_driver addresses_of as_list has_port check_ports open_driver
    open_cloud fetch_servers fetch_from try_each new_stub add_driver open_servers connect await_any
    set_user_manager set_open translation identity from_result insert open_any
cloud_opened = refl

-- A path at which nothing is refuses a credential.
no_certificate :
    new_credential (λ path. false) "admin" "password" (some "ca.pem")
    ≡ err (fail_with (driver Driver.cloud_invalid_root_ca_path) ("ca.pem" ∷ []))
unfolding new_credential
no_certificate = refl

user-open_new_example :
    user peers net cloud ≡ lift (Users.get net cloud.server_drivers true "admin") cloud
user-open_new_example =
    user-open_new peers net (listed ("a:1" ∷ [])) (some admin) nothing_cached (after 2) cloud
      cloud_opened
