-- ===== src/Examples/Values.antt =====
-- nodejs/common/errors, nodejs/common/Label.ts and nodejs/concept/answer/ConceptMapImpl.ts.
use typedb_client_java.Prelude.{ℕ, [], ◌∷◌, some, true, false, ◌≡◌, ◌≢◌, ◌↔◌}
use typedb_client_java.Errors.Templates.{Driver, driver}
use typedb_client_java.Errors.Code.{code, find_code}
use typedb_client_java.Errors.Code.Laws.{find_code-code}
use typedb_client_java.Errors.DriverError.{ServiceError, Status, of_service, includes}
use typedb_client_java.Errors.DriverError.Laws.{
  Recognised, Carries, IsUnreachable, IsTokenInvalid, of_service-Carries,
}
use typedb_client_java.Answer.ConceptMap.{ExplainableProto, ExplainablesProto, ConceptMapProto}

find_code-code_example :
    find_code (code (driver Driver.unable_to_connect)) ≡ some (driver Driver.unable_to_connect)
find_code-code_example = find_code-code (driver Driver.unable_to_connect)

abbrev moved : ServiceError
moved = record {
  code = Status.internal;
  message = "[RPL01] moved";
  details = "moved";
  text = "Error: moved";
}

of_service-Carries_example :
    (Carries Driver.rpc_method_unavailable moved ↔ (moved.code ≡ Status.unimplemented))
    × (Carries Driver.unable_to_connect moved
        ↔ (IsUnreachable moved × (moved.code ≢ Status.unimplemented)))
    × (Carries Driver.cloud_replica_not_primary moved ↔ (
        (includes moved.message "[RPL01]" ≡ true)
        × (moved.code ≢ Status.unimplemented)
        × (¬ IsUnreachable moved)))
    × (Carries Driver.cloud_token_credential_invalid moved ↔ (
        IsTokenInvalid moved
        × (includes moved.message "[RPL01]" ≡ false)
        × (moved.code ≢ Status.unimplemented)
        × (¬ IsUnreachable moved)))
    × Recognised (of_service moved).message_template
of_service-Carries_example = of_service-Carries moved

abbrev explained : ExplainableProto
explained = record { conjunction = "a and b"; id = 3 }

abbrev explainables : ExplainablesProto
explainables = record {
  relations = ("r", explained) ∷ [];
  attributes = ("a", explained) ∷ [];
  ownerships = [];
}

abbrev answer : ConceptMapProto ℕ
answer = record { entries = ("x", 4) ∷ ("y", 5) ∷ []; explainables = some explainables }
