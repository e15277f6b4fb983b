-- ===== src/Connection/Users/CloudOnly.antt =====
-- The guard of the user manager's methods.
use typedb_client_java.Prelude.{ℕ, String, false, ◌≡◌, refl}
use typedb_client_java.Prelude.Assoc.{Assoc}
use typedb_client_java.Effect.{err, Eff}
use typedb_client_java.Connection.Network.{ServerDriver, Network}
use typedb_client_java.Connection.Databases.{Databases}
use typedb_client_java.Connection.Users.{User, cloud_only, run_failsafe}
use typedb_client_java.Connection.Users

module _ {W : Type 0} (net : Network W) (server_drivers : Assoc ServerDriver) where
  -- The method is rejected for want of a cloud driver, and the servers are not asked.
  abbrev pub Refuses : {T : Type 0} → Eff (Databases W) T → Type 0
  Refuses m = (s : Databases W) → m s ≡ (err cloud_only, s)

  run_failsafe-Refuses :
      {T : Type 0} (f : ℕ → Eff W T) → Refuses (Users.call net server_drivers false f)
  unfolding Users.call run_failsafe
  run_failsafe-Refuses f s = refl

  -- On a driver without a credential, every method of the user manager and the change of a user's
  -- own password is rejected with USER_MANAGEMENT_CLOUD_ONLY; no server is asked, and the databases
  -- and the world stay as they are.
  pub users-Refuses :
      (username password old : String) (user : User)
      → Refuses (Users.all net server_drivers false)
        × Refuses (Users.contains net server_drivers false username)
        × Refuses (Users.create net server_drivers false username password)
        × Refuses (Users.delete net server_drivers false username)
        × Refuses (Users.get net server_drivers false username)
        × Refuses (Users.password_set net server_drivers false username password)
        × Refuses (Users.password_update net server_drivers false user old password)
  unfolding Users.all Users.contains Users.create Users.delete Users.get Users.password_set
      Users.password_update Users.call run_failsafe
  users-Refuses username password old user =
      (λ s. refl, λ s. refl, λ s. refl, λ s. refl, λ s. refl, λ s. refl, λ s. refl)
