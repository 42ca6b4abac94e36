-- ===== src/Huml/Context.antt =====
-- internal/huml/evaluator.go: `EvalContext`, and the evaluation of a text as its clients see it.
use flow_ctl.Prelude.{String, [], Assoc, Result}
use flow_ctl.Model.Value.{Value}

pub record EvalContext : Type 0 where
  pub inputs : Assoc Value
  pub steps : Assoc (Assoc Value)
  pub secrets : Assoc String
  pub env : Assoc String

unfoldable pub new_eval_context : EvalContext
new_eval_context = record { inputs = []; steps = []; secrets = []; env = [] }

-- `EvaluateString`: the text, or an error's message.
abbrev pub EvaluateString : Type 0
EvaluateString = String → EvalContext → Result String String
