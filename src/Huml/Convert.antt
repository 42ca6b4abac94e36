-- ===== src/Huml/Convert.antt =====
-- internal/huml/convert.go: from the tree to the workflow's records. The code returns a nil error on
-- every path, so the functions here give the value.
pub mod Blocks
use Prim.Native.String.{◌++◌ as text_append}
use flow_ctl.Prelude.{
  ℕ, ◌+◌, ◌-◌, ◌*◌, ◌%◌, ◌^◌, String, Bool, true, false, Option, none, some, List, [], ◌∷◌, ◌++◌,
  ◌==◌, ltb, if◌then◌else◌, insert,
}
use flow_ctl.Model.Value.{ℤ, pos, negsuc, Value, null, bool, text, array, Items, nil, item, list_of}
use flow_ctl.Model.Workflow.{
  InputDef, StepDef, ApprovalDef, RetryPolicy, CompensationDef, WorkflowDefinition,
}
use flow_ctl.Huml.Ast.{
  Node, Nodes, WorkflowNode, assign_node, block_node, string_node, number_node, bool_node,
  null_node, list_node, expression_node, identifier_node, no_nodes, node_then,
}
use flow_ctl.Huml.Scan.{digits_of}

-- An int64's bit pattern as an integer.
abbrev pub signed : ℕ → ℤ
signed n = if ltb n (2 ^ 63) then pos n else negsuc (2 ^ 64 - n - 1)

-- `result*10 + int(c-'0')` over the digits, in int64.
unfoldable pub decimal : ℕ → List ℕ → ℕ
decimal result [] = result
decimal result (d ∷ ds) = decimal ((result * 10 + d) % 2 ^ 64) ds

abbrev pub interpolation : String → String
interpolation raw = text_append "${" (text_append raw "}")

unfoldable pub node_to_bool : Node → Bool
node_to_bool (bool_node value line column) = value
node_to_bool _ = false

unfoldable pub node_to_int : Node → ℤ
unfolding decimal
node_to_int (number_node value line column) = signed (decimal 0 (digits_of value))
node_to_int _ = pos 0

-- A nil of Go's `any` is `null`.
unfoldable mutual
  pub node_to_any : Node → Value
  node_to_any (string_node value line column) = text value
  node_to_any (number_node value line column) = text value
  node_to_any (bool_node value line column) = bool value
  node_to_any (list_node items line column) = array (any_items items)
  node_to_any (expression_node raw expr line column) = text (interpolation raw)
  node_to_any (null_node line column) = null
  node_to_any (identifier_node value line column) = null
  node_to_any (assign_node key value line column) = null
  node_to_any (block_node type name line column body) = null

  pub any_items : Nodes → Items
  any_items no_nodes = nil
  any_items (node_then n ns) = item (node_to_any n) (any_items ns)

unfoldable pub node_to_slice : Node → List Value
unfolding any_items list_of
node_to_slice (list_node items line column) = list_of (any_items items)
node_to_slice _ = []

abbrev pub empty_input : String → InputDef
empty_input name = record {
  name = name;
  type = "";
  required = false;
  default = null;
  description = "";
  enum = [];
}

abbrev pub empty_step : String → StepDef
empty_step id = record {
  id = id;
  name = "";
  runner = "";
  depends_on = [];
  when = "";
  config = [];
  command = "";
  image = "";
  host = "";
  timeout = "";
  retry = none;
  compensation = none;
  inputs = [];
  env = [];
}

abbrev pub empty_approval : String → ApprovalDef
empty_approval id = record {
  id = id;
  depends_on = [];
  when = "";
  required_roles = [];
  message = "";
}

abbrev pub empty_retry : RetryPolicy
empty_retry = record { max_attempts = pos 0; backoff = ""; initial_wait = ""; max_wait = "" }

abbrev pub empty_compensation : CompensationDef
empty_compensation = record { runner = ""; config = []; command = "" }

abbrev pub empty_workflow : String → WorkflowDefinition
empty_workflow name = record {
  name = name;
  version = "";
  description = "";
  inputs = [];
  steps = [];
  approvals = [];
}

-- The loop over a body that reads its assignments and skips the rest.
unfoldable pub set_all : {A : Type 0} → (A → String → Node → A) → A → Nodes → A
set_all set a no_nodes = a
set_all set a (node_then (assign_node key value line column) ns) = set_all set (set a key value) ns
set_all set a (node_then _ ns) = set_all set a ns

-- `formatted` is `fmt.Sprintf("%v", n)` of a node that is no text.
module _ (formatted : Node → String) where
  unfoldable pub node_to_string : Node → String
  node_to_string (string_node value line column) = value
  node_to_string (expression_node raw expr line column) = interpolation raw
  node_to_string (identifier_node value line column) = value
  node_to_string (number_node value line column) = value
  node_to_string n = formatted n

  unfoldable pub strings_of : Nodes → List String
  unfolding node_to_string
  strings_of no_nodes = []
  strings_of (node_then n ns) = node_to_string n ∷ strings_of ns

  unfoldable pub node_to_string_slice : Node → List String
  unfolding strings_of
  node_to_string_slice (list_node items line column) = strings_of items
  node_to_string_slice _ = []

  -- One assignment of the body of an input.
  unfoldable pub set_input : InputDef → (key : String) → Node → InputDef
  unfolding node_to_string node_to_bool node_to_any node_to_slice
  set_input i key value =
      if key == "type"
      then record i { type = node_to_string value }
      else if key == "required"
      then record i { required = node_to_bool value }
      else if key == "default"
      then record i { default = node_to_any value }
      else if key == "description"
      then record i { description = node_to_string value }
      else if key == "enum"
      then record i { enum = node_to_slice value }
      else i

  unfoldable pub set_approval : ApprovalDef → (key : String) → Node → ApprovalDef
  unfolding node_to_string node_to_string_slice
  set_approval a key value =
      if key == "depends_on"
      then record a { depends_on = node_to_string_slice value }
      else if key == "when"
      then record a { when = node_to_string value }
      else if key == "required_roles"
      then record a { required_roles = node_to_string_slice value }
      else if key == "message"
      then record a { message = node_to_string value }
      else a

  unfoldable pub set_retry : RetryPolicy → (key : String) → Node → RetryPolicy
  unfolding node_to_string node_to_int
  set_retry r key value =
      if key == "max_attempts"
      then record r { max_attempts = node_to_int value }
      else if key == "backoff"
      then record r { backoff = node_to_string value }
      else if key == "initial_wait"
      then record r { initial_wait = node_to_string value }
      else if key == "max_wait"
      then record r { max_wait = node_to_string value }
      else r

  unfoldable pub set_compensation : CompensationDef → (key : String) → Node → CompensationDef
  unfolding node_to_string node_to_any
  set_compensation c key value =
      if key == "runner"
      then record c { runner = node_to_string value }
      else if key == "command"
      then record c { command = node_to_string value }
      else record c { config = insert key (node_to_any value) c.config }

  unfoldable pub set_step : StepDef → (key : String) → Node → StepDef
  unfolding node_to_string node_to_string_slice node_to_any
  set_step s key value =
      if key == "runner"
      then record s { runner = node_to_string value }
      else if key == "image"
      then record s { image = node_to_string value }
      else if key == "command"
      then record s { command = node_to_string value }
      else if key == "host"
      then record s { host = node_to_string value }
      else if key == "timeout"
      then record s { timeout = node_to_string value }
      else if key == "depends_on"
      then record s { depends_on = node_to_string_slice value }
      else if key == "when"
      then record s { when = node_to_string value }
      else if key == "name"
      then record s { name = node_to_string value }
      else record s { config = insert key (node_to_any value) s.config }

  unfoldable pub convert_input : (name : String) → Nodes → InputDef
  unfolding set_all set_input
  convert_input name body = set_all set_input (empty_input name) body

  unfoldable pub convert_approval : (name : String) → Nodes → ApprovalDef
  unfolding set_all set_approval
  convert_approval name body = set_all set_approval (empty_approval name) body

  unfoldable pub convert_retry : Nodes → RetryPolicy
  unfolding set_all set_retry
  convert_retry body = set_all set_retry empty_retry body

  unfoldable pub convert_compensation : Nodes → CompensationDef
  unfolding set_all set_compensation
  convert_compensation body = set_all set_compensation empty_compensation body

  -- A block in the body of a step.
  unfoldable pub set_block : StepDef → (type : String) → Nodes → StepDef
  unfolding convert_retry convert_compensation
  set_block s type body =
      if type == "retry"
      then record s { retry = some (convert_retry body) }
      else if type == "compensation"
      then record s { compensation = some (convert_compensation body) }
      else s

  unfoldable pub step_body : StepDef → Nodes → StepDef
  unfolding set_step set_block
  step_body s no_nodes = s
  step_body s (node_then (assign_node key value line column) ns) =
      step_body (set_step s key value) ns
  step_body s (node_then (block_node type name line column body) ns) =
      step_body (set_block s type body) ns
  step_body s (node_then _ ns) = step_body s ns

  unfoldable pub convert_step : (name : String) → Nodes → StepDef
  unfolding step_body
  convert_step name body = step_body (empty_step name) body

  unfoldable pub set_header : WorkflowDefinition → (key : String) → Node → WorkflowDefinition
  unfolding node_to_string
  set_header def key value =
      if key == "version"
      then record def { version = node_to_string value }
      else if key == "description"
      then record def { description = node_to_string value }
      else def

  unfoldable pub add_block : WorkflowDefinition → (type name : String) → Nodes → WorkflowDefinition
  unfolding convert_input convert_step convert_approval
  add_block def type name body =
      if type == "input"
      then record def { inputs = def.inputs ++ convert_input name body ∷ [] }
      else if type == "step"
      then record def { steps = def.steps ++ convert_step name body ∷ [] }
      else if type == "approval"
      then record def { approvals = def.approvals ++ convert_approval name body ∷ [] }
      else def

  unfoldable pub convert_body : WorkflowDefinition → Nodes → WorkflowDefinition
  unfolding set_header add_block
  convert_body def no_nodes = def
  convert_body def (node_then (assign_node key value line column) ns) =
      convert_body (set_header def key value) ns
  convert_body def (node_then (block_node type name line column body) ns) =
      convert_body (add_block def type name body) ns
  convert_body def (node_then _ ns) = convert_body def ns

  unfoldable pub convert : WorkflowNode → WorkflowDefinition
  unfolding convert_body
  convert node = convert_body (empty_workflow node.name) node.body
