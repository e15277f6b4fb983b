-- ===== src/Connection/Driver/Sessions.antt =====
-- Who may use a driver of nodejs/connection/TypeDBDriverImpl.ts, and which sessions it keeps.
use text.Mathlib.TextEquality.{eq_iff}
use typedb_client_java.Prelude.{ℕ, [], ◌∷◌, none, some, String, true, false, ◌≡◌, refl, ◌∙◌, arith}
use typedb_client_java.Prelude.Assoc.{lookup, insert, lookup-insert, lookup-erase}
use typedb_client_java.Errors.Templates.{Driver, driver}
use typedb_client_java.Errors.DriverError.{raised, of_template, fail_with}
use typedb_client_java.Effect.{ok, err}
use typedb_client_java.Rpc.Messages.{SessionType}
use typedb_client_java.Connection.Driver.{
  DriverState, Peers, require_open, session, close_session, unless_closed, from_result, register,
  register_at,
}

module _ {W : Type 0} (peers : Peers W) (s : DriverState W) (database : String)
    (type : SessionType) where
  -- A driver that is not open refuses a session, and nothing changes.
  pub session-closed :
      s.is_open ≡ false
      → session peers database type s
        ≡ (err (raised (of_template (driver Driver.driver_not_open))), s)
  unfolding session require_open unless_closed from_result
  session-closed h = rw h refl

  module _ (n : ℕ) (id : String) (w : W) where
    -- An open driver keeps a session that was opened under its id, unless a session has that id:
    -- then it throws, and keeps the sessions it had.
    pub session-opened :
        s.is_open ≡ true
        → peers.open_session database type s.world ≡ (ok (n, id), w)
        → (lookup id s.sessions ≡ none
            → session peers database type s
              ≡ (ok n, record s { sessions = insert id n s.sessions; world = w }))
          × ((m : ℕ)
              → lookup id s.sessions ≡ some m
              → session peers database type s ≡ (
                err (fail_with (driver Driver.session_id_exists) (id ∷ [])),
                record s { world = w },
              ))
    unfolding session require_open unless_closed from_result register register_at
    session-opened h k =
        (λ free. ground (arith, h, k, free), λ m taken. ground (arith, h, k, taken))

module _ {W : Type 0} (peers : Peers W) (s : DriverState W) (n : ℕ) (id : String) where
  -- A session that is registered under an id that is free, and then closed, leaves every id with the
  -- session it had.
  pub register-close_session :
      (k : String)
      → lookup id s.sessions ≡ none
      → lookup k (close_session peers id (register peers (n, id) s).1).1.sessions
        ≡ lookup k s.sessions
  unfolding register register_at close_session
  register-close_session k free = rw free (
      lookup-erase id k (insert id n s.sessions)
      ∙ ground (arith, lookup-insert id k n s.sessions, eq_iff id k))
