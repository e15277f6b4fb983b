-- ===== src/Logic.antt =====
-- nodejs/logic: rules, their manager and explanations, over what the transaction answers to a request.
pub mod Renaming
use text.Mathlib.Text.{◌==◌ as same_text}
use typedb_client_java.Prelude.{
  if◌then◌else◌, String, List, [], ◌∷◌, Option, none, some, Bool, true, false, not, is_some,
}
use typedb_client_java.Prelude.Assoc.{Assoc}
use typedb_client_java.Errors.DriverError.{js}
use typedb_client_java.Effect.{Result, ok, err, Eff, pure, ◌>>=◌, ◌>>◌, modify}
use typedb_client_java.Answer.ConceptMap.{ConceptMapProto, ConceptMap, of_proto, set_all}
use typedb_client_java.Stream.{Stream, array, mapped, flat_mapped}

pub data LogicReq : Type 0 where
  put_rule_req : (label condition conclusion : String) → LogicReq
  get_rule_req delete_req : (label : String) → LogicReq
  get_rules_req : LogicReq
  set_label_req : (current_label new_label : String) → LogicReq

pub record RuleProto : Type 0 where
  pub label : String
  pub condition : String
  pub conclusion : String

-- `RuleImpl`, with `when` and `then`.
pub record Rule : Type 0 where
  pub label : String
  pub condition : String
  pub conclusion : String

unfoldable pub of_rule_proto : RuleProto → Rule
of_rule_proto p = record { label = p.label; condition = p.condition; conclusion = p.conclusion }

-- A rule object beside the world of its transaction.
pub record RuleState (W : Type 0) : Type 0 where
  pub rule : Rule
  pub world : W

abbrev lift : {W A : Type 0} → Eff W A → Eff (RuleState W) A
lift m s = let (r, w) = m s.world in (r, record s { world = w })

-- `rpc_execute` gives the rule of the response, where it has one.
module _ {W : Type 0} (rpc_execute : LogicReq → Eff W (Option RuleProto)) where
  unfoldable pub get_rule : String → Eff W (Option Rule)
  get_rule label = rpc_execute (get_rule_req label) >>= λ r.
      pure (elim r [ none ↦ none | some p ↦ some (of_rule_proto p) ])

  -- The response to `put_rule_req` is read without asking whether it has a rule.
  unfoldable pub put_rule : String → String → String → Eff W Rule
  put_rule label condition conclusion =
      rpc_execute (put_rule_req label condition conclusion) >>= λ r. λ w. (
        elim r [
          | none ↦ err (js "TypeError: Cannot read properties of undefined (reading 'label')")
          | some p ↦ ok (of_rule_proto p)
        ],
        w,
      )

  unfoldable pub delete_rule : Eff (RuleState W) (Unit {0})
  delete_rule s = (lift (rpc_execute (delete_req s.rule.label)) >> pure tt) s

  unfoldable pub is_deleted : Eff (RuleState W) Bool
  is_deleted s = (lift (get_rule s.rule.label) >>= λ r. pure (not (is_some r))) s

  unfoldable pub set_field : String → Eff (RuleState W) (Unit {0})
  set_field label = modify λ s. record s { rule = record s.rule { label = label } }

  -- `setLabel`: the field is set once the server has answered.
  unfoldable pub set_label : String → Eff (RuleState W) (Unit {0})
  unfolding set_field
  set_label label s = (lift (rpc_execute (set_label_req s.rule.label label)) >> set_field label) s

unfoldable pub get_rules : (LogicReq → Stream (List RuleProto)) → Stream Rule
get_rules rpc_stream =
    flat_mapped (λ part. mapped of_rule_proto (array part)) (rpc_stream get_rules_req)

-- `new Set(vars)`: each name once, in the order in which it first occurs.
add_name : List String → String → List String
add_name [] n = n ∷ []
add_name (m ∷ ms) n = if same_text m n then m ∷ ms else m ∷ add_name ms n

unfoldable pub to_set : List String → List String → List String
unfolding add_name
to_set seen [] = seen
to_set seen (n ∷ ns) = to_set (add_name seen n) ns

pub record ExplanationProto (P : Type 0) : Type 0 where
  pub rule : RuleProto
  pub condition : ConceptMapProto P
  pub conclusion : ConceptMapProto P
  pub var_mapping : Assoc (List String)

pub record Explanation (C : Type 0) : Type 0 where
  pub rule : Rule
  pub condition : ConceptMap C
  pub conclusion : ConceptMap C
  pub variable_mapping : Assoc (List String)

-- `ExplanationImpl.of`, with `read` for the concepts of its maps.
unfoldable pub of_explanation : {P C : Type 0} → (P → C) → ExplanationProto P → Explanation C
of_explanation read p = record {
  rule = of_rule_proto p.rule;
  condition = of_proto read p.condition;
  conclusion = of_proto read p.conclusion;
  variable_mapping = set_all (to_set []) p.var_mapping [];
}
