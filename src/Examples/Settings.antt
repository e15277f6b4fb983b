-- ===== src/Examples/Settings.antt =====
-- nodejs/api/connection/TypeDBOptions.ts: options of which one number is refused.
use typedb_client_java.Prelude.{List, [], ◌∷◌, true, ◌≡◌, ◌↔◌, All}
use typedb_client_java.Effect.{ok}
use typedb_client_java.Connection.Options.{
  Flag, Number, Setting, flag, number, pos, negsuc, new_options,
}
use typedb_client_java.Connection.Options.Bounds.{IsPositive, accepted, new_options-IsPositive}

abbrev refused : List Setting
refused =
    flag Flag.infer true
    ∷ number Number.prefetch_size (pos 50)
    ∷ number Number.transaction_timeout_millis (negsuc 4)
    ∷ []

new_options-IsPositive_example :
    IsPositive (new_options refused).1
    × (((new_options refused).0 ≡ ok tt) ↔ All (λ x. accepted x ≡ true) refused)
new_options-IsPositive_example = new_options-IsPositive refused
