-- ===== src/Huml/Convert/Blocks.antt =====
-- internal/huml/convert.go: the blocks of the text and the inputs, steps and approvals of the definition.
use flow_ctl.Prelude.{
  ◌≡◌, refl, sym, ap, ◌∙◌, String, Bool, true, false, List, [], ◌∷◌, ◌++◌, ◌==◌, if◌then◌else◌,
  arith, inl, inr, ==-cases,
}
use mathlib.Core.List.{append_assoc, append-nil}
use flow_ctl.Model.Workflow.{InputDef, StepDef, ApprovalDef, WorkflowDefinition}
use flow_ctl.Dag.Build.{step_ids, approval_ids}
use flow_ctl.Validator.Accepted.{input_names}
use flow_ctl.Huml.Ast.{
  Node, Nodes, WorkflowNode, assign_node, block_node, string_node, number_node, bool_node,
  null_node, list_node, expression_node, identifier_node, no_nodes, node_then,
}
use flow_ctl.Huml.Convert.{
  set_all, empty_input, empty_step, empty_approval, set_input, set_approval, set_step, set_block,
  step_body, set_header, convert_input, convert_step, convert_approval, add_block, convert_body,
  convert,
}

-- The names of the blocks of a type, in the order of the text.
abbrev pub block_names : (type : String) → Nodes → List String
block_names type no_nodes = []
block_names type (node_then (block_node t name line column body) ns) =
    let rest = block_names type ns in if t == type then name ∷ rest else rest
block_names type (node_then _ ns) = block_names type ns

-- A loop over assignments keeps what each assignment keeps.
set_all-keeps :
    {A : Type 0} (f : A → String) (set : A → String → Node → A)
    → ((a : A) (k : String) (n : Node) → f (set a k n) ≡ f a)
    → (a : A) (ns : Nodes) → f (set_all set a ns) ≡ f a
unfolding set_all
set_all-keeps f set h a no_nodes = refl
set_all-keeps f set h a (node_then (assign_node k v l c) ns) =
    set_all-keeps f set h (set a k v) ns ∙ h a k v
set_all-keeps f set h a (node_then (block_node t n l c b) ns) = set_all-keeps f set h a ns
set_all-keeps f set h a (node_then (string_node v l c) ns) = set_all-keeps f set h a ns
set_all-keeps f set h a (node_then (number_node v l c) ns) = set_all-keeps f set h a ns
set_all-keeps f set h a (node_then (bool_node v l c) ns) = set_all-keeps f set h a ns
set_all-keeps f set h a (node_then (null_node l c) ns) = set_all-keeps f set h a ns
set_all-keeps f set h a (node_then (list_node v l c) ns) = set_all-keeps f set h a ns
set_all-keeps f set h a (node_then (expression_node r e l c) ns) = set_all-keeps f set h a ns
set_all-keeps f set h a (node_then (identifier_node v l c) ns) = set_all-keeps f set h a ns

module _ (formatted : Node → String) where
  convert_input-name : (name : String) (ns : Nodes) → (convert_input formatted name ns).name ≡ name
  unfolding convert_input set_input
  convert_input-name name ns =
      set_all-keeps (λ (i : InputDef). i.name) (set_input formatted) (λ a k n. ground arith)
        (empty_input name) ns

  convert_approval-id :
      (name : String) (ns : Nodes) → (convert_approval formatted name ns).id ≡ name
  unfolding convert_approval set_approval
  convert_approval-id name ns =
      set_all-keeps (λ (a : ApprovalDef). a.id) (set_approval formatted) (λ a k n. ground arith)
        (empty_approval name) ns

  set_step-id : (s : StepDef) (k : String) (n : Node) → (set_step formatted s k n).id ≡ s.id
  unfolding set_step
  set_step-id s k n = ground arith

  set_block-id :
      (s : StepDef) (type : String) (ns : Nodes) → (set_block formatted s type ns).id ≡ s.id
  unfolding set_block
  set_block-id s type ns = ground arith

  step_body-id : (s : StepDef) (ns : Nodes) → (step_body formatted s ns).id ≡ s.id
  unfolding step_body
  step_body-id s no_nodes = refl
  step_body-id s (node_then (assign_node k v l c) ns) =
      step_body-id (set_step formatted s k v) ns ∙ set_step-id s k v
  step_body-id s (node_then (block_node t n l c b) ns) =
      step_body-id (set_block formatted s t b) ns ∙ set_block-id s t b
  step_body-id s (node_then (string_node v l c) ns) = step_body-id s ns
  step_body-id s (node_then (number_node v l c) ns) = step_body-id s ns
  step_body-id s (node_then (bool_node v l c) ns) = step_body-id s ns
  step_body-id s (node_then (null_node l c) ns) = step_body-id s ns
  step_body-id s (node_then (list_node v l c) ns) = step_body-id s ns
  step_body-id s (node_then (expression_node r e l c) ns) = step_body-id s ns
  step_body-id s (node_then (identifier_node v l c) ns) = step_body-id s ns

  convert_step-id : (name : String) (ns : Nodes) → (convert_step formatted name ns).id ≡ name
  unfolding convert_step
  convert_step-id name ns = step_body-id (empty_step name) ns

step_ids-snoc :
    (ss : List StepDef) (s : StepDef) → step_ids (ss ++ s ∷ []) ≡ step_ids ss ++ s.id ∷ []
step_ids-snoc [] s = refl
step_ids-snoc (t ∷ ss) s = ap (λ l. t.id ∷ l) (step_ids-snoc ss s)

approval_ids-snoc :
    (as_ : List ApprovalDef) (a : ApprovalDef)
    → approval_ids (as_ ++ a ∷ []) ≡ approval_ids as_ ++ a.id ∷ []
approval_ids-snoc [] a = refl
approval_ids-snoc (t ∷ rest) a = ap (λ l. t.id ∷ l) (approval_ids-snoc rest a)

input_names-snoc :
    (is : List InputDef) (i : InputDef) → input_names (is ++ i ∷ []) ≡ input_names is ++ i.name ∷ []
input_names-snoc [] i = refl
input_names-snoc (t ∷ is) i = ap (λ l. t.name ∷ l) (input_names-snoc is i)

-- The names that `names` reads off a definition grow by those of the blocks of `type`.
record Grows (type : String) (names : WorkflowDefinition → List String) (formatted : Node → String)
    : Type 0 where
  header :
      (def : WorkflowDefinition) (k : String) (n : Node)
      → names (set_header formatted def k n) ≡ names def
  block :
      (def : WorkflowDefinition) (t name : String) (body : Nodes)
      → names (add_block formatted def t name body)
        ≡ names def ++ (if t == type then name ∷ [] else [])

module _ (formatted : Node → String) {type : String} {names : WorkflowDefinition → List String}
    (g : Grows type names formatted) where
  names-convert_body :
      (def : WorkflowDefinition) (ns : Nodes)
      → names (convert_body formatted def ns) ≡ names def ++ block_names type ns
  unfolding convert_body
  names-convert_body def no_nodes = sym (append-nil (names def))
  names-convert_body def (node_then (assign_node k v l c) ns) =
      names-convert_body (set_header formatted def k v) ns
      ∙ ap (λ x. x ++ block_names type ns) (g.header def k v)
  names-convert_body def (node_then (block_node t name l c b) ns) =
      names-convert_body (add_block formatted def t name b) ns
      ∙ ap (λ x. x ++ block_names type ns) (g.block def t name b)
      ∙ by_type (t == type)
    where
      by_type :
          (b : Bool)
          → (names def ++ (if b then name ∷ [] else [])) ++ block_names type ns
            ≡ names def ++ (if b then name ∷ block_names type ns else block_names type ns)
      by_type true = append_assoc (names def) (name ∷ []) (block_names type ns)
      by_type false = append_assoc (names def) [] (block_names type ns)
  names-convert_body def (node_then (string_node v l c) ns) = names-convert_body def ns
  names-convert_body def (node_then (number_node v l c) ns) = names-convert_body def ns
  names-convert_body def (node_then (bool_node v l c) ns) = names-convert_body def ns
  names-convert_body def (node_then (null_node l c) ns) = names-convert_body def ns
  names-convert_body def (node_then (list_node v l c) ns) = names-convert_body def ns
  names-convert_body def (node_then (expression_node r e l c) ns) = names-convert_body def ns
  names-convert_body def (node_then (identifier_node v l c) ns) = names-convert_body def ns

module _ (formatted : Node → String) where
  steps-Grows : Grows "step" (λ def. step_ids def.steps) formatted
  unfolding set_header add_block
  steps-Grows = record {
    header = λ def k n. ground arith;
    block = λ def t name body. elim (==-cases t "step") [
      | inl e ↦ rw e.1 (
          step_ids-snoc def.steps (convert_step formatted name body)
          ∙ ap (λ x. step_ids def.steps ++ x ∷ []) (convert_step-id formatted name body))
      | inr e ↦ rw e.0 (ground (arith, append-nil (step_ids def.steps)))
    ];
  }

  inputs-Grows : Grows "input" (λ def. input_names def.inputs) formatted
  unfolding set_header add_block
  inputs-Grows = record {
    header = λ def k n. ground arith;
    block = λ def t name body. elim (==-cases t "input") [
      | inl e ↦ rw e.1 (
          input_names-snoc def.inputs (convert_input formatted name body)
          ∙ ap (λ x. input_names def.inputs ++ x ∷ []) (convert_input-name formatted name body))
      | inr e ↦ rw e.0 (ground (arith, append-nil (input_names def.inputs)))
    ];
  }

  approvals-Grows : Grows "approval" (λ def. approval_ids def.approvals) formatted
  unfolding set_header add_block
  approvals-Grows = record {
    header = λ def k n. ground arith;
    block = λ def t name body. elim (==-cases t "approval") [
      | inl e ↦ rw e.1 (
          approval_ids-snoc def.approvals (convert_approval formatted name body)
          ∙ ap (λ x. approval_ids def.approvals ++ x ∷ [])
              (convert_approval-id formatted name body))
      | inr e ↦ rw e.0 (ground (arith, append-nil (approval_ids def.approvals)))
    ];
  }

  -- Convert takes every input, step and approval block at the top of the text, each once, in the order
  -- of the text, and names it as the block is named.
  pub convert_blocks :
      (node : WorkflowNode)
      → (input_names (convert formatted node).inputs ≡ block_names "input" node.body)
        × (step_ids (convert formatted node).steps ≡ block_names "step" node.body)
        × (approval_ids (convert formatted node).approvals ≡ block_names "approval" node.body)
  unfolding convert
  convert_blocks node = (
    names-convert_body formatted inputs-Grows _ node.body,
    names-convert_body formatted steps-Grows _ node.body,
    names-convert_body formatted approvals-Grows _ node.body,
  )
