-- ===== src/Examples/Rules.antt =====
-- nodejs/logic/RuleImpl.ts, with a server that has one rule.
use text.Mathlib.Text.{◌==◌ as same_text}
use typedb_client_java.Prelude.{String, [], ◌∷◌, Option, none, ◌≡◌, refl, if◌then◌else◌}
use typedb_client_java.Errors.DriverError.{js}
use typedb_client_java.Effect.{ok, err, Eff}
use typedb_client_java.Logic.{LogicReq, set_label_req, RuleProto, RuleState, set_label, set_field}
use typedb_client_java.Logic.Renaming.{rename_each}

-- The server's state is the label of its rule; an empty label is refused.
abbrev renaming : String → String → Eff String (Option RuleProto)
renaming a b w =
    if same_text a w
    then (if same_text b "" then (err (js "refused"), w) else (ok none, b))
    else (err (js "no rule"), w)

abbrev serve : LogicReq → Eff String (Option RuleProto)
serve (set_label_req a b) w = renaming a b w
serve _ w = (err (js "unknown"), w)

abbrev rule_state : RuleState String
rule_state = record {
  rule = record { label = "r"; condition = "a"; conclusion = "b" };
  world = "r";
}

-- A refused label is not kept.
renamed_to_last : (rename_each serve ("s" ∷ "" ∷ []) rule_state).rule.label ≡ "s"
unfolding rename_each set_label set_field
renamed_to_last = refl
