-- ===== src/Logic/Renaming.antt =====
-- The label of a rule object of nodejs/logic/RuleImpl.ts and the rules of the server.
use typedb_client_java.Prelude.{String, List, [], ◌∷◌, Option, ◌≡◌, sym, subst, inl, inr, arith}
use typedb_client_java.Errors.DriverError.{Thrown}
use typedb_client_java.Effect.{ok, err, Eff, Result-cases}
use typedb_client_java.Logic.{LogicReq, set_label_req, RuleProto, RuleState, set_label, set_field}

module _ {W : Type 0} (rpc_execute : LogicReq → Eff W (Option RuleProto)) where
  -- Renamings one after the other, by a caller that goes on after an error.
  unfoldable pub rename_each : List String → RuleState W → RuleState W
  rename_each [] s = s
  rename_each (label ∷ labels) s = rename_each labels (set_label rpc_execute label s).1

  module _ (Named : String → W → Type 0)
      (renamed : (a b : String) (w : W) (r : Option RuleProto)
        → (rpc_execute (set_label_req a b) w).0 ≡ ok r
        → Named b (rpc_execute (set_label_req a b) w).1)
      (refused : (a b : String) (w : W) (e : Thrown)
        → (rpc_execute (set_label_req a b) w).0 ≡ err e
        → Named a w
        → Named a (rpc_execute (set_label_req a b) w).1) where
    abbrev OwnNamed : RuleState W → Type 0
    OwnNamed t = Named t.rule.label t.world

    abbrev same_rule : String → RuleState W → RuleState W
    same_rule label s = record s {
      world = (rpc_execute (set_label_req s.rule.label label) s.world).1;
    }

    abbrev renamed_state : String → RuleState W → RuleState W
    renamed_state label s = record (same_rule label s) { rule = record s.rule { label = label } }

    set_label-Named :
        (label : String) (s : RuleState W)
        → Named s.rule.label s.world
        → let t = (set_label rpc_execute label s).1 in Named t.rule.label t.world
    unfolding set_label set_field
    set_label-Named label s h =
        let accepted : (r : Option RuleProto)
            → (rpc_execute (set_label_req s.rule.label label) s.world).0 ≡ ok r
            → (set_label rpc_execute label s).1 ≡ renamed_state label s =
          λ r done. ground (arith, done) in
        let rejected : (e : Thrown)
            → (rpc_execute (set_label_req s.rule.label label) s.world).0 ≡ err e
            → (set_label rpc_execute label s).1 ≡ same_rule label s =
          λ e failed. ground (arith, failed) in
        elim (Result-cases (rpc_execute (set_label_req s.rule.label label) s.world).0) [
          | inl (r, done) ↦
              subst OwnNamed (sym (accepted r done)) (renamed s.rule.label label s.world r done)
          | inr (e, failed) ↦
              subst OwnNamed (sym (rejected e failed))
                (refused s.rule.label label s.world e failed h)
        ]

    -- A rule object keeps the label of a rule that the server has, through renamings that succeed and
    -- that fail, when the server has the rule under its new label after a renaming that it accepts and
    -- keeps the rule when it refuses.
    pub rename_each-Named :
        (labels : List String) (s : RuleState W)
        → Named s.rule.label s.world
        → let t = rename_each labels s in Named t.rule.label t.world
    unfolding rename_each
    rename_each-Named [] s h = h
    rename_each-Named (label ∷ labels) s h =
        rename_each-Named labels (set_label rpc_execute label s).1 (set_label-Named label s h)
