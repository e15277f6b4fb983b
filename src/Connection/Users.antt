-- ===== src/Connection/Users.antt =====
-- nodejs/user/UserManagerImpl.ts and UserImpl.ts.
pub mod CloudOnly
use typedb_client_java.Prelude.{ℕ, List, [], map, Option, none, some, String, Bool, if◌then◌else◌}
use typedb_client_java.Prelude.Assoc.{Assoc}
use typedb_client_java.Errors.Templates.{Driver, driver}
use typedb_client_java.Errors.DriverError.{Thrown, raised, of_template}
use typedb_client_java.Effect.{Eff, pure, throw, ◌>>=◌, ◌>>◌}
use typedb_client_java.Rpc.Messages.{UserProto}
use typedb_client_java.Rpc.Messages
use typedb_client_java.Connection.Network.{ServerDriver, Network}
use typedb_client_java.Connection.Database.{ServerDatabase}
use typedb_client_java.Connection.Database
use typedb_client_java.Connection.Databases.{Databases, on_database}
use typedb_client_java.Connection.Databases

pub record User : Type 0 where
  pub username : String
  pub password_expiry_seconds : Option ℕ

-- `UserImpl.of`
unfoldable pub user_of : UserProto → User
user_of p = record {
  username = p.username;
  password_expiry_seconds =
      if p.has_password_expiry_seconds then some p.password_expiry_seconds else none;
}

abbrev pub system_db : String
system_db = "_system"

-- The error is made of the template itself, not of its text.
abbrev pub cloud_only : Thrown
cloud_only = raised (of_template (driver Driver.user_management_cloud_only))

module _ {W : Type 0} (net : Network W) (server_drivers : Assoc ServerDriver)
    (is_cloud : Bool) where
  on_system : {T : Type 0} → (Option ServerDriver → Eff W T) → Eff (Databases W) T
  on_system task = do
    a ← Databases.fetch_database net server_drivers system_db
    on_database a (
        Database.run_on_primary_replica net server_drivers system_db
          (λ (d : Option ServerDriver) (_ : ServerDatabase). task d))

  unfoldable pub run_failsafe : {T : Type 0} → (Option ServerDriver → Eff W T) → Eff (Databases W) T
  unfolding on_system
  run_failsafe task = if is_cloud then on_system task else throw cloud_only

  -- A call of the stub of the server's driver.
  call : {T : Type 0} → (ℕ → Eff W T) → Eff (Databases W) T
  unfolding run_failsafe
  call f = run_failsafe (Databases.with_stub net server_drivers f)

  unfoldable pub all : Eff (Databases W) (List User)
  unfolding call user_of
  all = call λ s. do users ← net.users_all s Messages.users_all; pure (map user_of users)

  unfoldable pub contains : String → Eff (Databases W) Bool
  unfolding call
  contains username = call λ s. net.users_contains s (Messages.users_contains username)

  unfoldable pub create : String → String → Eff (Databases W) (Unit {0})
  unfolding call
  create username password = call λ s. net.users_create s (Messages.users_create username password)

  unfoldable pub delete : String → Eff (Databases W) (Unit {0})
  unfolding call
  delete username = call λ s. net.users_delete s (Messages.users_delete username)

  unfoldable pub get : String → Eff (Databases W) User
  unfolding call user_of
  get username = do
    user ← call λ s. net.users_get s (Messages.users_get username)
    pure (user_of user)

  unfoldable pub password_set : String → String → Eff (Databases W) (Unit {0})
  unfolding call
  password_set username password =
      call λ s. net.users_password_set s (Messages.users_password_set username password)

  -- `UserImpl.passwordUpdate`
  unfoldable pub password_update : User → String → String → Eff (Databases W) (Unit {0})
  unfolding call
  password_update user old new =
      call λ s. net.user_password_update s (Messages.user_password_update user.username old new)
