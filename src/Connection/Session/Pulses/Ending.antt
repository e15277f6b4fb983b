-- ===== src/Connection/Session/Pulses/Ending.antt =====
-- How closing leaves a session that nodejs/connection/TypeDBSessionImpl.ts pulses.
use typedb_client_java.Prelude.{
  ℕ, ◌≤◌, List, [], ◌∷◌, Option, none, some, String, Bool, true, false, ◌≡◌, refl, if◌then◌else◌,
  arith,
}
use typedb_client_java.Prelude.Assoc.{Assoc}
use typedb_client_java.Effect.{
  Result, ok, err, Eff, pure, ◌>>=◌, ◌>>◌, try_catch, Ends, Ends-state, bind-Ends, catch-Ends,
}
use typedb_client_java.Rpc.Messages
use typedb_client_java.Connection.Network.{ServerDriver, Network}
use typedb_client_java.Connection.Session.{
  Session, Peers, lift, still_alive, close, close_resources, close_each, call_each, closed, release,
  close_remote,
}
use typedb_client_java.Connection.Session.Pulses.{abandon, timers}

module _ {W : Type 0} (net : Network W) (peers : Peers W)
    (server_drivers : Assoc ServerDriver) where
  -- A session that closing has left closed, with no timer that was not set before.
  abbrev pub Ended : ℕ → Session W → Type 0
  Ended n t = (t.is_open ≡ false) × (timers t ≤ n)

  -- However it ends.
  abbrev Always : {A : Type 0} → ℕ → Result A × Session W → Type 0
  Always n p = Ends (λ _ t. Ended n t) (λ _ t. Ended n t) p

  either : {A : Type 0} (n : ℕ) (r : Result A) (s : Session W) → Ended n s → Always n (r, s)
  either n (ok a) s h = h
  either n (err e) s h = h

  then_Always :
      {A B : Type 0} (n : ℕ) (m : Eff (Session W) A) (f : A → Eff (Session W) B) (s : Session W)
      → Always n (m s)
      → ((a : A) (t : Session W) → Ended n t → Always n (f a t))
      → Always n ((m >>= f) s)
  then_Always n m f s h k =
      bind-Ends (λ _ t. Ended n t) (λ _ t. Ended n t) (λ _ t. Ended n t) m f s h k

  lift-Always : {A : Type 0} (n : ℕ) (m : Eff W A) (s : Session W) → Ended n s → Always n (lift m s)
  unfolding timers
  lift-Always n m s h = either n (m s.world).0 (record s { world = (m s.world).1 }) h

  close_each-Always :
      (n : ℕ) (ts : List ℕ) (s : Session W)
      → Ended n s
      → Always n (close_each net peers server_drivers ts s)
  unfolding close_each closed timers
  close_each-Always n [] s h = h
  close_each-Always n (t ∷ ts) s h =
      then_Always n (lift (peers.close_transaction t) >> closed net peers server_drivers t)
        (λ _. close_each net peers server_drivers ts) s
        (then_Always n (lift (peers.close_transaction t)) (λ _. closed net peers server_drivers t) s
          (lift-Always n (peers.close_transaction t) s h) (λ _ u k. k))
        (λ _ u k. close_each-Always n ts u k)

  call_each-Always :
      (n : ℕ) (ks : List ℕ) (s : Session W)
      → Ended n s
      → Always n (call_each net peers server_drivers ks s)
  unfolding call_each
  call_each-Always n [] s h = h
  call_each-Always n (k ∷ ks) s h =
      then_Always n (lift (peers.callback k)) (λ _. call_each net peers server_drivers ks) s
        (lift-Always n (peers.callback k) s h) (λ _ u h. call_each-Always n ks u h)

  close_resources-Always :
      (n : ℕ) (s : Session W) → timers s ≤ n → Always n (close_resources net peers server_drivers s)
  unfolding close_resources release timers
  close_resources-Always n s few =
      then_Always n
        (λ t.
          (close_each net peers server_drivers s.transactions >> λ u.
          call_each net peers server_drivers s.on_close u)
            t)
        (λ _. release net peers server_drivers) (record s { is_open = false })
        (then_Always n (close_each net peers server_drivers s.transactions)
          (λ _ u. call_each net peers server_drivers s.on_close u) (record s { is_open = false })
          (close_each-Always n s.transactions (record s { is_open = false }) (refl, few))
          (λ _ u h. call_each-Always n s.on_close u h))
        (λ _ u h. (h.0, omega arith))

  -- `closeResources` in the `try` of a pulse.
  pub answer-Ended :
      (s : Session W)
      → Ended
          (timers s)
          (try_catch
            (still_alive net peers server_drivers false)
            (abandon net peers server_drivers)
            s).1
  unfolding still_alive abandon timers
  answer-Ended s = Ends-state (Ended (timers s)) _ (
      catch-Ends (λ _ t. Ended (timers s) t) (λ _ t. Ended (timers s) t) (λ _ t. Ended (timers s) t)
        (close_resources net peers server_drivers) (abandon net peers server_drivers) s
        (close_resources-Always (timers s) s (omega arith)) (λ e t h. (refl, h.1)))

  close_remote-Always :
      (n : ℕ) (d : Option ServerDriver) (id : String) (s : Session W)
      → Ended n s
      → Always n (close_remote net peers server_drivers d id s)
  unfolding close_remote
  close_remote-Always n none id s h = h
  close_remote-Always n (some d) id s h =
      lift-Always n (peers.session_close d.stub (Messages.session_close id)) s h

  close_if-Ended :
      (b : Bool) (s : Session W)
      → s.is_open ≡ b
      → Ended
          (timers s)
          (if b
            then (close_resources net peers server_drivers
                  >> (λ t. close_remote net peers server_drivers t.server_driver t.id t))
                s
            else pure tt s).1
  close_if-Ended true s at = Ends-state (Ended (timers s)) _ (
      then_Always (timers s) (close_resources net peers server_drivers)
        (λ _ t. close_remote net peers server_drivers t.server_driver t.id t) s
        (close_resources-Always (timers s) s (omega arith))
        (λ _ t h. close_remote-Always (timers s) t.server_driver t.id t h))
  close_if-Ended false s at = (at, omega arith)

  pub close-Ended : (s : Session W) → Ended (timers s) (close net peers server_drivers s).1
  unfolding close
  close-Ended s = close_if-Ended s.is_open s refl
