-- ===== src/Rpc/Stub/Laws.antt =====
-- Token renewal in nodejs/connection/TypeDBStubImpl.ts, and the errors of the calls.
use typedb_client_java.Prelude.{
  String, Option, none, some, true, false, ◌≡◌, ◌≢◌, refl, ap, ◌∙◌, sym, subst, Bool-cases, ◌⊎◌,
  inl, inr, arith, if◌then◌else◌,
}
use typedb_client_java.Errors.Templates.{Driver}
use typedb_client_java.Errors.DriverError.{
  ServiceError, Thrown, raised, service, js, of_service, is_service_error, has_template,
}
use typedb_client_java.Effect.{Result, ok, err, Eff, try_catch, pure, throw, Result-cases}
use typedb_client_java.Rpc.Messages.{Request}
use typedb_client_java.Rpc.Messages
use typedb_client_java.Rpc.Stub.{
  GrpcStub, StubState, Credential, password, Metadata, Outcome, failed, replied, Call,
  call_credentials, wrapped, unary, rethrow, may_renew_token, database_delete, connect, open_stub,
}

-- The metadata of a call made without a token.
abbrev pub by_password : Credential → Option Metadata
by_password c = some (record { username = c.username; secret = password c.password })

pub Outcome-cases :
    {A : Type 0} (r : Outcome A)
    → ((a : A) × (r ≡ replied a)) ⊎ ((e : ServiceError) × (r ≡ failed e))
Outcome-cases (replied a) = inl (a, refl)
Outcome-cases (failed e) = inr (e, refl)

-- The state with a new token.
abbrev pub renewed_state : {W : Type 0} → String → W → StubState W
renewed_state t w = record { token = some t; world = w }

-- The call for a new token, made with the password.
abbrev pub asked : {W : Type 0} → GrpcStub W → Credential → W → Outcome String × W
asked grpc c w = grpc.user_token (Messages.user_token c.username) (by_password c) w

module _ {W A : Type 0} where
  -- What is thrown after a second call, by what came of it.
  abbrev pub Wraps : Result A × StubState W → Result A × StubState W → Type 0
  Wraps (ok a, s) m = m ≡ (ok a, s)
  Wraps (err (raised d), s) m = m ≡ (err (raised d), s)
  Wraps (err (service d), s) m = m ≡ (err (raised (of_service d)), s)
  Wraps (err (js t), s) m = m ≡ (err (js t), s)

  -- By what came of the call for a new token.
  abbrev pub AfterToken : Eff (StubState W) A → Outcome String × W → Result A × StubState W → Type 0
  AfterToken fn (failed d, w) m = m ≡ (err (service d), record { token = none; world = w })
  AfterToken fn (replied t, w) m = Wraps (fn (renewed_state t w)) m

  -- By what came of the first call, and of the call for a token after it.
  abbrev pub Renews :
      Eff (StubState W) A
      → (W → Outcome String × W)
      → Result A × StubState W
      → Result A × StubState W
      → Type 0
  Renews fn ask (ok a, s) m = m ≡ (ok a, s)
  Renews fn ask (err e, s) m =
      if has_template Driver.cloud_token_credential_invalid e
      then AfterToken fn (ask s.world) m
      else m ≡ (err e, s)

module _ {W A : Type 0} (grpc : GrpcStub W) where
  -- Without a credential, or where the call does not fail with the template for an invalid token,
  -- the call is made once and its result and state are passed on.
  pub may_renew_token-once :
      (credential : Option Credential) (fn : Eff (StubState W) A) (s : StubState W)
      → (credential ≡ none)
        ⊎ ((e : Thrown)
            → (fn s).0 ≡ err e
            → has_template Driver.cloud_token_credential_invalid e ≡ false)
      → may_renew_token grpc credential fn s ≡ fn s
  unfolding may_renew_token
  may_renew_token-once none fn s h = elim (Result-cases (fn s).0) [
    | inl (a, done) ↦ ground (arith, done)
    | inr (e, bad) ↦ ground (arith, bad)
  ]
  may_renew_token-once (some c) fn s (inl h) = cc
  may_renew_token-once (some c) fn s (inr h) = elim (Result-cases (fn s).0) [
    | inl (a, done) ↦ ground (arith, done)
    | inr (e, bad) ↦ ground (arith, bad, h e bad)
  ]

  lost_token :
      (c : Credential) (fn : Eff (StubState W) A) (s : StubState W) (e : Thrown) (d : ServiceError)
      (w : W)
      → (fn s).0 ≡ err e
      → has_template Driver.cloud_token_credential_invalid e ≡ true
      → asked grpc c (fn s).1.world ≡ (failed d, w)
      → may_renew_token grpc (some c) fn s ≡ (err (service d), record { token = none; world = w })
  unfolding may_renew_token
  lost_token c fn s e d w bad invalid refused = ground arith

  second_call :
      (c : Credential) (fn : Eff (StubState W) A) (s : StubState W) (e : Thrown) (t : String)
      (w : W)
      → (fn s).0 ≡ err e
      → has_template Driver.cloud_token_credential_invalid e ≡ true
      → asked grpc c (fn s).1.world ≡ (replied t, w)
      → may_renew_token grpc (some c) fn s
        ≡ try_catch fn (rethrow grpc (some c)) (renewed_state t w)
  unfolding may_renew_token
  second_call c fn s e t w bad invalid renewed = ground arith

  rethrown-Wraps :
      (c : Credential) (p : Result A × StubState W)
      → Wraps p (try_catch (λ _. p) (rethrow grpc (some c)) p.1)
  unfolding rethrow
  rethrown-Wraps c (ok a, s) = refl
  rethrown-Wraps c (err (raised d), s) = refl
  rethrown-Wraps c (err (service d), s) = refl
  rethrown-Wraps c (err (js t), s) = refl

  after-token :
      (c : Credential) (fn : Eff (StubState W) A) (s : StubState W) (e : Thrown)
      → (fn s).0 ≡ err e
      → has_template Driver.cloud_token_credential_invalid e ≡ true
      → AfterToken fn (asked grpc c (fn s).1.world) (may_renew_token grpc (some c) fn s)
  after-token c fn s e bad invalid =
      let p = asked grpc c (fn s).1.world in
      let m = may_renew_token grpc (some c) fn s in
      elim (Outcome-cases p.0) [
        | inl (t, renewed) ↦
            let at : p ≡ (replied t, p.1) = ap (λ o. (o, p.1)) renewed in
            let again = second_call c fn s e t p.1 bad invalid at in
            subst (λ q. AfterToken fn q m) (sym at)
              (subst (Wraps (fn (renewed_state t p.1))) (sym again)
                (rethrown-Wraps c (fn (renewed_state t p.1))))
        | inr (d, refused) ↦
            let at : p ≡ (failed d, p.1) = ap (λ o. (o, p.1)) refused in
            subst (λ q. AfterToken fn q m) (sym at) (lost_token c fn s e d p.1 bad invalid at)
      ]

  -- With a credential, the value of a call is passed on, and so is an error without the template for
  -- an invalid token. Else a new token is asked for once, with the password. If that fails, its raw
  -- error is thrown and no token is left; if not, the call is made once more under the new token, and
  -- its value or its error is passed on with the state after it, a raw gRPC error wrapped.
  pub may_renew_token-retries :
      (c : Credential) (fn : Eff (StubState W) A) (s : StubState W)
      → Renews fn (asked grpc c) (fn s) (may_renew_token grpc (some c) fn s)
  may_renew_token-retries c fn s = elim (Result-cases (fn s).0) [
    | inl (a, done) ↦
        let once = may_renew_token-once (some c) fn s (inr (λ e bad. ground (arith, done, bad))) in
        rw done (once ∙ ap (λ r. (r, (fn s).1)) done)
    | inr (e, bad) ↦ elim (Bool-cases (has_template Driver.cloud_token_credential_invalid e)) [
      | inl invalid ↦ rw (bad, invalid) (after-token c fn s e bad invalid)
      | inr other ↦
          let same : (f : Thrown)
              → (fn s).0 ≡ err f
              → has_template Driver.cloud_token_credential_invalid f ≡ false =
            λ f at. ground (arith, bad, at, other) in
          let once = may_renew_token-once (some c) fn s (inr same) in
          rw (bad, other) (once ∙ ap (λ r. (r, (fn s).1)) bad)
    ]
  ]

  -- A method that wraps its errors is rejected with a raw gRPC error only where a credential is set
  -- and the call that renews the token failed with that error.
  pub wrapped-raw_error :
      (credential : Option Credential) (call : Call W A) (s : StubState W) (e : ServiceError)
      → (may_renew_token grpc credential (unary credential wrapped call) s).0 ≡ err (service e)
      → (c : Credential) × (w : W) × (credential ≡ some c)
        × ((grpc.user_token (Messages.user_token c.username) (by_password c) w).0 ≡ failed e)
  unfolding may_renew_token unary wrapped call_credentials
  wrapped-raw_error none call s e h = ground arith
  wrapped-raw_error (some c) call s e h =
      (c, (call (call_credentials (some c) s.token) s.world).1, refl, ground arith)

  -- A method that does not wrap is rejected with the raw error of its one call: the token is not
  -- renewed, and the state is that after the call.
  pub raw_error-once :
      (credential : Option Credential) (call : Call W A) (s : StubState W) (e : ServiceError)
      (w : W)
      → call (call_credentials credential s.token) s.world ≡ (failed e, w)
      → may_renew_token grpc credential (unary credential service call) s
        ≡ (err (service e), record s { world = w })
  unfolding may_renew_token unary has_template
  raw_error-once none call s e w h = ground arith
  raw_error-once (some c) call s e w h = ground arith

-- A handler that drops raw gRPC errors and throws the others on.
drop_service-ne :
    {S A : Type 0} (m : Eff S A) (a : A) (s : S) (e : ServiceError)
    → (try_catch m (λ f. if is_service_error f then pure a else throw f) s).0 ≢ err (service e)
unfolding is_service_error
drop_service-ne m a s e h = elim (Result-cases (m s).0) [
  | inl (b, done) ↦ ground (arith, done)
  | inr (raised d, bad) ↦ ground (arith, bad)
  | inr (service f, bad) ↦ ground (arith, bad)
  | inr (js t, bad) ↦ ground (arith, bad)
]

module _ {W : Type 0} (grpc : GrpcStub W) (credential : Option Credential) where
  -- If the call that deletes a database fails, the method is rejected with the gRPC error as it is:
  -- it is not given a template, and the token is not renewed.
  pub database_delete-raw :
      (req : Request) (s : StubState W) (e : ServiceError) (w : W)
      → grpc.database_delete req (call_credentials credential s.token) s.world ≡ (failed e, w)
      → database_delete grpc credential req s ≡ (err (service e), record s { world = w })
  unfolding database_delete
  database_delete-raw req s e w h =
      raw_error-once grpc credential (grpc.database_delete req) s e w h

  -- Opening a stub is never rejected with a raw gRPC error.
  pub open_stub-ne-service :
      (s : StubState W) (e : ServiceError) → (open_stub grpc credential s).0 ≢ err (service e)
  unfolding open_stub
  open_stub-ne-service s e h = drop_service-ne (connect grpc credential) tt s e h
