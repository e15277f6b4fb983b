-- ===== src/Connection/TypeDb.antt =====
-- nodejs/TypeDB.ts, nodejs/api/connection/TypeDBCredential.ts, and what a driver of
-- nodejs/connection/TypeDBDriverImpl.ts gives to its callers. The file system is a parameter.
pub mod Channel
pub mod Kept
pub mod Opened
use typedb_client_java.Prelude.{
  String, [], ◌∷◌, Option, none, some, Bool, true, false, if◌then◌else◌,
}
use typedb_client_java.Errors.Templates.{Driver, driver}
use typedb_client_java.Errors.DriverError.{Thrown, js, fail_with}
use typedb_client_java.Effect.{Result, ok, err, Eff, throw, ◌>>=◌, ◌>>◌}
use typedb_client_java.Connection.Network.{Network}
use typedb_client_java.Connection.Databases.{Databases}
use typedb_client_java.Connection.Driver.{
  Addresses, single, DriverState, Peers, lift, as_list, new_driver, open_driver, require_open,
}
use typedb_client_java.Connection.Users.{User}
use typedb_client_java.Connection.Users

pub record Credential : Type 0 where
  pub username : String
  pub password : String
  pub tls_root_ca_path : Option String

-- The constructor; `exists` is `fs.existsSync`.
unfoldable pub new_credential :
    (String → Bool) → String → String → Option String → Result Credential
new_credential exists username password none =
    ok (record { username = username; password = password; tls_root_ca_path = none })
new_credential exists username password (some path) =
    if exists path
    then ok (record { username = username; password = password; tls_root_ca_path = some path })
    else err (fail_with (driver Driver.cloud_invalid_root_ca_path) (path ∷ []))

abbrev pub default_address : String
default_address = "127.0.0.1:1729"

-- `undefined.get`
abbrev pub no_manager : Thrown
no_manager = js "TypeError: Cannot read properties of undefined (reading 'get')"

module _ {W : Type 0} (peers : Peers W) where
  -- The object of a method that returns `this`.
  unfoldable pub returned : Result (Unit {0}) × DriverState W → Result (DriverState W) × W
  returned (ok _, s) = (ok s, s.world)
  returned (err e, s) = (err e, s.world)

  -- `new TypeDBDriverImpl(addresses, credential).open()`
  unfoldable pub open_new : Addresses → Option Credential → Eff W (DriverState W)
  unfolding returned new_driver open_driver
  open_new addresses credential w =
      elim (new_driver addresses (elim credential [ none ↦ none | some c ↦ some c.username ]) w) [
        | ok s ↦ returned (open_driver peers s)
        | err e ↦ (err e, w)
      ]

  unfoldable pub core_driver : Option String → Eff W (DriverState W)
  unfolding open_new
  core_driver none = open_new (single default_address) none
  core_driver (some address) = open_new (single address) none

  unfoldable pub cloud_driver : Addresses → Credential → Eff W (DriverState W)
  unfolding open_new as_list
  cloud_driver addresses credential = open_new (as_list addresses) (some credential)

module _ {W : Type 0} (peers : Peers (Databases W)) (net : Network W) where
  -- A method of the manager that the getter `databases` gives.
  unfoldable pub on_databases :
      {A : Type 0} → Eff (Databases W) A → Eff (DriverState (Databases W)) A
  unfolding require_open
  on_databases m = require_open peers >> lift m

  -- The getter `users`: whether the manager is there.
  unfoldable pub users : Eff (DriverState (Databases W)) Bool
  unfolding require_open
  users = require_open peers >> λ s. (ok s.user_manager, s)

  -- `users.get(this._credential.username)`
  unfoldable pub get_user : Bool → Eff (DriverState (Databases W)) User
  get_user true s = lift (Users.get net s.server_drivers s.is_cloud s.username) s
  get_user false s = throw no_manager s

  unfoldable pub user : Eff (DriverState (Databases W)) User
  unfolding require_open users get_user
  user = require_open peers >> users >>= get_user
