-- ===== src/Errors/DriverError/Laws.antt =====
-- The classes of errors in nodejs/common/errors/TypeDBDriverError.ts.
use mathlib.Core.Bool.{decide_iff}
use typedb_client_java.Prelude.{
  ◌≡◌, ◌≢◌, refl, ◌↔◌, ◌⊎◌, inl, inr, Option-cases, true, false, Option, some, none, arith, List,
  String,
}
use typedb_client_java.Errors.Templates.{Driver, ErrorMessage, driver, same, ErrorMessage-discrete}
use typedb_client_java.Errors.DriverError.{
  Status, ServiceError, Thrown, of_service, is_unimplemented, is_unreachable, includes,
  has_template, template_of, fail_with,
}

pub same_iff : (a b : ErrorMessage) → (same a b ≡ true) ↔ (a ≡ b)
unfolding same
same_iff a b = decide_iff (ErrorMessage-discrete a b)

-- The test of the `catch` clauses holds exactly of the errors with that template.
pub has_template_iff :
    (t : Driver) (e : Thrown) → (has_template t e ≡ true) ↔ (template_of e ≡ some (driver t))
unfolding has_template
has_template_iff t e = elim (Option-cases (template_of e)) [
  | inl h ↦ ground arith
  | inr (u, h) ↦ ground (arith, same_iff (driver t) u)
]

-- A text as the constructor's argument leaves the template unset.
pub fail_with-has_template :
    (t : Driver) (m : ErrorMessage) (args : List String) → has_template t (fail_with m args) ≡ false
unfolding has_template fail_with
fail_with-has_template t m args = refl

abbrev pub Recognised : Option ErrorMessage → Type 0
Recognised t =
    (t ≡ none)
    ⊎ (t ≡ some (driver Driver.rpc_method_unavailable))
    ⊎ (t ≡ some (driver Driver.unable_to_connect))
    ⊎ (t ≡ some (driver Driver.cloud_replica_not_primary))
    ⊎ (t ≡ some (driver Driver.cloud_token_credential_invalid))

-- A call that did not reach a server, by its status or its message.
abbrev pub IsUnreachable : ServiceError → Type 0
IsUnreachable e =
    (e.code ≡ Status.unavailable)
    ⊎ (e.code ≡ Status.unknown)
    ⊎ (e.code ≡ Status.cancelled)
    ⊎ (includes e.message "Received RST_STREAM" ≡ true)

abbrev pub IsTokenInvalid : ServiceError → Type 0
IsTokenInvalid e = (includes e.message "[CLS08]" ≡ true) ⊎ (includes e.message "[ENT08]" ≡ true)

-- What the `catch` clauses look at.
abbrev pub Carries : Driver → ServiceError → Type 0
Carries t e = (of_service e).message_template ≡ some (driver t)

unimplemented_iff : (c : Status) → (is_unimplemented c ≡ true) ↔ (c ≡ Status.unimplemented)
unfolding is_unimplemented
unimplemented_iff Status.cancelled = (λ h. cc, λ h. cc)
unimplemented_iff Status.unknown = (λ h. cc, λ h. cc)
unimplemented_iff Status.unimplemented = (λ h. refl, λ h. refl)
unimplemented_iff Status.internal = (λ h. cc, λ h. cc)
unimplemented_iff Status.unavailable = (λ h. cc, λ h. cc)
unimplemented_iff Status.other = (λ h. cc, λ h. cc)

unreachable_iff :
    (c : Status)
    → (is_unreachable c ≡ true)
      ↔ ((c ≡ Status.unavailable) ⊎ (c ≡ Status.unknown) ⊎ (c ≡ Status.cancelled))
unfolding is_unreachable
unreachable_iff Status.cancelled = (λ h. inr (inr refl), λ h. refl)
unreachable_iff Status.unknown = (λ h. inr (inl refl), λ h. refl)
unreachable_iff Status.unimplemented = (λ h. cc, λ h. ground arith)
unreachable_iff Status.internal = (λ h. cc, λ h. ground arith)
unreachable_iff Status.unavailable = (λ h. inl refl, λ h. refl)
unreachable_iff Status.other = (λ h. cc, λ h. ground arith)

-- A TypeDBDriverError made of a gRPC error carries RPC_METHOD_UNAVAILABLE exactly if the status is
-- UNIMPLEMENTED; else UNABLE_TO_CONNECT exactly if the status is UNAVAILABLE, UNKNOWN or CANCELLED or
-- the message tells of a reset stream; else CLOUD_REPLICA_NOT_PRIMARY exactly if the message has
-- [RPL01]; else CLOUD_TOKEN_CREDENTIAL_INVALID exactly if it has [CLS08] or [ENT08]. It carries no
-- other template.
pub of_service-Carries :
    (e : ServiceError)
    → (Carries Driver.rpc_method_unavailable e ↔ (e.code ≡ Status.unimplemented))
      × (Carries Driver.unable_to_connect e ↔ (IsUnreachable e × (e.code ≢ Status.unimplemented)))
      × (Carries Driver.cloud_replica_not_primary e ↔ (
          (includes e.message "[RPL01]" ≡ true)
          × (e.code ≢ Status.unimplemented)
          × (¬ IsUnreachable e)))
      × (Carries Driver.cloud_token_credential_invalid e ↔ (
          IsTokenInvalid e
          × (includes e.message "[RPL01]" ≡ false)
          × (e.code ≢ Status.unimplemented)
          × (¬ IsUnreachable e)))
      × Recognised (of_service e).message_template
unfolding of_service
of_service-Carries e =
    let un = unimplemented_iff e.code in
    let down = unreachable_iff e.code in
    (
      ground (arith, un),
      ground (arith, un, down),
      ground (arith, un, down),
      ground (arith, un, down),
      ground arith,
    )
