-- ===== src/Connection/Session/Closing.antt =====
-- Closing and the pulse in nodejs/connection/TypeDBSessionImpl.ts.
use typedb_client_java.Prelude.{
  ℕ, List, [], ◌∷◌, Option, none, some, String, Bool, true, false, not, ◌≡◌, refl, inl, inr, ◌==◌,
  filter, Any, All, arith, Bool-cases, if◌then◌else◌,
}
use typedb_client_java.Prelude.Assoc.{Assoc, lookup, erase, lookup-erase}
use text.Mathlib.TextEquality.{eq_iff}
use typedb_client_java.Errors.DriverError.{Thrown}
use typedb_client_java.Effect.{
  Result, ok, err, Eff, pure, ◌>>=◌, ◌>>◌, Result-cases, Ends, bind-Ends, catch-Ends, Ends-state,
  modify,
}
use typedb_client_java.Rpc.Messages
use typedb_client_java.Connection.Network.{ServerDriver, Network}
use typedb_client_java.Connection.Session.{
  Session, Peers, lift, close, close_resources, close_each, call_each, closed, release,
  close_remote, pulse, ask_alive, still_alive,
}

-- Every element of the first list is one of the second.
abbrev Within : List ℕ → List ℕ → Type 0
Within xs ts = All (λ x. Any (λ t. t ≡ x) ts) xs

forget-Within :
    (t : ℕ) (ts xs : List ℕ) → Within xs (t ∷ ts) → Within (filter (λ x. not (x == t)) xs) ts
forget-Within t ts [] h = h
forget-Within t ts (x ∷ xs) (inl same, h) = ground (arith, same, forget-Within t ts xs h)
forget-Within t ts (x ∷ xs) (inr there, h) = elim (Bool-cases (x == t)) [
  | inl same ↦ rw same (forget-Within t ts xs h)
  | inr other ↦ rw other ((there, forget-Within t ts xs h))
]

Within-refl : (xs : List ℕ) → Within xs xs
Within-refl [] = tt
Within-refl (x ∷ xs) = (inl refl, weaken xs (Within-refl xs))
  where
    weaken : (ys : List ℕ) → Within ys xs → Within ys (x ∷ xs)
    weaken [] h = h
    weaken (y ∷ ys) (p, h) = (inr p, weaken ys h)

Within-nil : (xs : List ℕ) → Within xs [] → xs ≡ []
Within-nil [] h = refl
Within-nil (x ∷ xs) h = elim h.0 [ ]

taken : {A : Type 0} (P : A → Type 0) (b : Bool) (x y : A) → b ≡ true → P x → P (if b then x else y)
taken P true x y h p = p
taken P false x y h p = cc

module _ {W : Type 0} (net : Network W) (peers : Peers W)
    (server_drivers : Assoc ServerDriver) where
  -- A step of the world leaves the session's own fields as they are, however it ends.
  world_only :
      {A : Type 0} (P : Session W → Type 0) (m : Eff W A) (s : Session W)
      → ((w : W) → P (record s { world = w }))
      → Ends (λ _ t. P t) (λ _ _. Unit {0}) (lift m s)
  world_only P m s h = elim (Result-cases (m s.world).0) [
    | inl (a, done) ↦ rw done (h (m s.world).1)
    | inr (e, failed) ↦ rw failed tt
  ]

  AnyError : Thrown → Session W → Type 0
  AnyError e t = Unit {0}

  -- Nothing of the session is left with the driver, and its timer is off.
  abbrev pub IsShut : Session W → Type 0
  IsShut t =
      (t.is_open ≡ false)
      × (t.transactions ≡ [])
      × (t.pulse_timer ≡ false)
      × (lookup t.id t.sessions ≡ none)

  abbrev Emptied : Session W → Type 0
  Emptied t = (t.is_open ≡ false) × (t.transactions ≡ [])

  abbrev Left : List ℕ → Session W → Type 0
  Left ts u = (u.is_open ≡ false) × Within u.transactions ts

  close_each-Ends :
      (ts : List ℕ) (s : Session W)
      → s.is_open ≡ false
      → Within s.transactions ts
      → Ends (λ _ t. Emptied t) AnyError (close_each net peers server_drivers ts s)
  unfolding close_each closed AnyError
  close_each-Ends [] s shut h = (shut, Within-nil s.transactions h)
  close_each-Ends (t ∷ ts) s shut h =
      let stream = peers.close_transaction t in
      bind-Ends (λ _ u. Left ts u) AnyError (λ _ u. Emptied u)
        (lift stream >> closed net peers server_drivers t)
        (λ _. close_each net peers server_drivers ts) s
        (bind-Ends (λ _ u. Left (t ∷ ts) u) AnyError (λ _ u. Left ts u) (lift stream)
          (λ _. closed net peers server_drivers t) s
          (world_only (Left (t ∷ ts)) stream s (λ w. (shut, h)))
          (λ _ u k. (k.0, forget-Within t ts u.transactions k.1)))
        (λ _ u k. close_each-Ends ts u k.0 k.1)

  call_each-Ends :
      (ks : List ℕ) (s : Session W)
      → Emptied s
      → Ends (λ _ t. Emptied t) AnyError (call_each net peers server_drivers ks s)
  unfolding call_each AnyError
  call_each-Ends [] s h = h
  call_each-Ends (k ∷ ks) s h =
      bind-Ends (λ _ t. Emptied t) AnyError (λ _ t. Emptied t) (lift (peers.callback k))
        (λ _. call_each net peers server_drivers ks) s
        (world_only Emptied (peers.callback k) s (λ w. h)) (λ _ t. call_each-Ends ks t)

  erased : (id : String) (m : Assoc ℕ) → lookup id (erase id m) ≡ none
  erased id m = ground (arith, lookup-erase id id m, eq_iff id id)

  close_resources-Ends :
      (s : Session W) → Ends (λ _ t. IsShut t) AnyError (close_resources net peers server_drivers s)
  unfolding close_resources release
  close_resources-Ends s =
      let shut = record s { is_open = false } in
      bind-Ends (λ _ t. Emptied t) AnyError (λ _ t. IsShut t)
        (λ t.
          (close_each net peers server_drivers s.transactions >> λ u.
          call_each net peers server_drivers s.on_close u)
            t)
        (λ _. release net peers server_drivers) shut
        (bind-Ends (λ _ t. Emptied t) AnyError (λ _ t. Emptied t)
          (close_each net peers server_drivers s.transactions)
          (λ _. call_each net peers server_drivers s.on_close) shut
          (close_each-Ends s.transactions shut refl (Within-refl s.transactions))
          (λ _ t h. call_each-Ends s.on_close t h))
        (λ _ t h. (h.0, h.1, refl, erased t.id t.sessions))

  close_remote-Ends :
      (d : Option ServerDriver) (id : String) (s : Session W)
      → IsShut s
      → Ends (λ _ t. IsShut t) AnyError (close_remote net peers server_drivers d id s)
  unfolding close_remote AnyError
  close_remote-Ends none id s h = tt
  close_remote-Ends (some d) id s h =
      world_only IsShut (peers.session_close d.stub (Messages.session_close id)) s (λ w. h)

  -- The argument `r` of an outcome that is known to be a value.
  ok-IsShut :
      (p : Result (Unit {0}) × Session W)
      → Ends (λ _ t. IsShut t) AnyError p
      → p.0 ≡ ok tt
      → IsShut p.1
  ok-IsShut (ok a, s) h k = h
  ok-IsShut (err e, s) h k = cc

  -- Closing an open session, when it succeeds, leaves it closed, without transactions, its timer
  -- off, and not among the driver's sessions.
  pub close-IsShut :
      (s : Session W)
      → s.is_open ≡ true
      → (close net peers server_drivers s).0 ≡ ok tt
      → IsShut (close net peers server_drivers s).1
  unfolding close
  close-IsShut s live = rw live (
      ok-IsShut _ (
        bind-Ends (λ _ t. IsShut t) AnyError (λ _ t. IsShut t)
          (close_resources net peers server_drivers)
          (λ _ t. close_remote net peers server_drivers t.server_driver t.id t) s
          (close_resources-Ends s) (λ _ t h. close_remote-Ends t.server_driver t.id t h)))

  asked :
      (s : Session W) (o : Option ServerDriver) (d : ServerDriver) (e : Thrown)
      → o ≡ some d
      → (peers.session_pulse d.stub (Messages.session_pulse s.id) s.world).0 ≡ err e
      → Ends
          (λ _ _. ⊥)
          (λ _ t. (t.transactions ≡ s.transactions) × (t.sessions ≡ s.sessions))
          (ask_alive net peers server_drivers o s.id s)
  unfolding ask_alive
  asked s none d e at failed = cc
  asked s (some c) d e at failed =
      elim (Result-cases (peers.session_pulse c.stub (Messages.session_pulse s.id) s.world).0) [
        | inl (b, done) ↦ cc
        | inr (f, wrong) ↦ rw wrong ((refl, refl))
      ]

  abbrev pub Abandoned : Session W → Session W → Type 0
  Abandoned s t =
      (t.is_open ≡ false)
      × (t.transactions ≡ s.transactions)
      × (t.sessions ≡ s.sessions)
      × (close net peers server_drivers t ≡ (ok tt, t))

  -- A pulse of an open session that fails marks the session as closed and does nothing more: its
  -- transactions stay in the set, the driver keeps the session, and closing it has no effect.
  pub pulse-abandons :
      (s : Session W) (d : ServerDriver) (e : Thrown)
      → s.is_open ≡ true
      → s.server_driver ≡ some d
      → (peers.session_pulse d.stub (Messages.session_pulse s.id) s.world).0 ≡ err e
      → let t = (pulse net peers server_drivers s).1 in
        (t.is_open ≡ false)
        × (t.transactions ≡ s.transactions)
        × (t.sessions ≡ s.sessions)
        × (close net peers server_drivers t ≡ (ok tt, t))
  unfolding pulse close
  pulse-abandons s d e live at failed =
      taken (λ p. Abandoned s p.1) s.is_open _ (pure tt s) live
        (Ends-state (Abandoned s) _ (
          catch-Ends (λ _ t. Abandoned s t)
            (λ _ t. (t.transactions ≡ s.transactions) × (t.sessions ≡ s.sessions))
            (λ _ t. Abandoned s t)
            (ask_alive net peers server_drivers s.server_driver s.id
              >>= still_alive net peers server_drivers)
            (λ f. modify λ t. record t { is_open = false }) s
            (bind-Ends (λ _ _. ⊥)
              (λ _ t. (t.transactions ≡ s.transactions) × (t.sessions ≡ s.sessions))
              (λ _ t. Abandoned s t) (ask_alive net peers server_drivers s.server_driver s.id)
              (still_alive net peers server_drivers) s (asked s s.server_driver d e at failed)
              (λ _ t none_such. elim none_such [ ]))
            (λ f t h. (refl, h.0, h.1, refl))))
