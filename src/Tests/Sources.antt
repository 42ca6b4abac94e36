-- ===== src/Tests/Sources.antt =====
-- Tests of the workflow language, and its theorems at sample texts.
use flow_ctl.Prelude.{
  ◌≡◌, refl, ℕ, String, true, false, none, some, Option, [], ◌∷◌, ok, err, insert,
}
use flow_ctl.Model.Value.{Value, pos}
use flow_ctl.Model.Workflow.{WorkflowDefinition}
use flow_ctl.Huml.Ast.{
  Expr, ref, literal, binary, unary, Node, bool_node, string_node, assign_node, block_node,
  no_nodes, node_then, WorkflowNode,
}
use flow_ctl.Huml.Expr.{expected_paren, parse_expression}
use flow_ctl.Huml.Convert.{convert}
use flow_ctl.Dag.Build.{step_ids, approval_ids}
use flow_ctl.Validator.Accepted.{input_names}
use flow_ctl.Huml.Convert.Blocks.{convert_blocks}
use flow_ctl.Huml.Source.{parse_huml}
use flow_ctl.Huml.Source.Total.{EndsDefinition, parse_huml-EndsDefinition}

-- Stand-ins for `strconv.ParseFloat` and for `%v` of a node.
abbrev no_float : String → Option ℕ
no_float s = none

abbrev formatted : Node → String
formatted (bool_node true line column) = "&{true}"
formatted (bool_node false line column) = "&{false}"
formatted n = "&{}"

abbrev source : String
source =
    "workflow \"release\" {\n version = \"2\"\n step \"build\" {\n  runner = \"local\"\n  command = \"make ${inputs.target}\"\n  retry {\n   max_attempts = 3\n  }\n }\n approval \"gate\" {\n  depends_on = [\"build\", \"test\"]\n  when = ${!env.skip && inputs.a == 'x'}\n }\n}\n"

abbrev definition : WorkflowDefinition
definition = record {
  name = "release";
  version = "2";
  description = "";
  inputs = [];
  steps =
      record {
        id = "build";
        name = "";
        runner = "local";
        depends_on = [];
        when = "";
        config = [];
        command = "make ${inputs.target}";
        image = "";
        host = "";
        timeout = "";
        retry =
            some (record { max_attempts = pos 3; backoff = ""; initial_wait = ""; max_wait = "" });
        compensation = none;
        inputs = [];
        env = [];
      }
      ∷ [];
  approvals =
      record {
        id = "gate";
        depends_on = "build" ∷ "test" ∷ [];
        when = "${!env.skip && inputs.a == 'x'}";
        required_roles = [];
        message = "";
      }
      ∷ [];
}

source_parses : parse_huml no_float formatted source ≡ ok definition
unfolding parse_huml insert
source_parses = refl

abbrev condition : Expr
condition =
    binary "&&" (unary "!" (ref ("env" ∷ "skip" ∷ [])))
      (binary "==" (ref ("inputs" ∷ "a" ∷ [])) (literal (Value.text "x")))

condition_parses : parse_expression no_float "!env.skip && inputs.a == 'x'" ≡ ok condition
unfolding parse_expression
condition_parses = refl

-- What follows a complete expression is dropped without an error.
trailing_is_dropped :
    parse_expression no_float "inputs.a[0] + 1 no such thing" ≡ ok (ref ("inputs" ∷ "a" ∷ []))
unfolding parse_expression
trailing_is_dropped = refl

left_open : parse_expression no_float "(a" ≡ err expected_paren
unfolding parse_expression
left_open = refl

parse_huml-EndsDefinition_example : EndsDefinition (parse_huml no_float formatted source)
parse_huml-EndsDefinition_example = parse_huml-EndsDefinition no_float formatted source

abbrev node : WorkflowNode
node = record {
  name = "release";
  line = 1;
  column = 1;
  body =
      node_then
        (block_node "step" "build" 2 2
          (node_then (assign_node "runner" (string_node "local" 3 12) 3 3) no_nodes))
        (node_then (block_node "input" "target" 5 2 no_nodes) (
          node_then (assign_node "version" (string_node "2" 6 12) 6 2) (
            node_then (block_node "approval" "gate" 7 2 no_nodes)
              (node_then (block_node "step" "ship" 8 2 no_nodes) no_nodes))));
}

convert_blocks_example :
    (input_names (convert formatted node).inputs ≡ "target" ∷ [])
    × (step_ids (convert formatted node).steps ≡ "build" ∷ "ship" ∷ [])
    × (approval_ids (convert formatted node).approvals ≡ "gate" ∷ [])
convert_blocks_example = convert_blocks formatted node
