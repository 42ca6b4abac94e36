-- ===== src/Huml/Ast.antt =====
-- internal/huml/ast.go: the tree of a workflow's text, and that of an expression.
use flow_ctl.Prelude.{ℕ, String, Bool, List, [], ◌∷◌}
use flow_ctl.Model.Value.{Value}

mutual
  pub data Expr : Type 0 where
    ref : (path : List String) → Expr
    literal : Value → Expr
    binary : (op : String) → (left right : Expr) → Expr
    unary : (op : String) → (operand : Expr) → Expr
    func_call : (name : String) → (args : Exprs) → Expr
    conditional : (cond on_true on_false : Expr) → Expr
    index : (obj idx : Expr) → Expr

  pub data Exprs : Type 0 where
    no_exprs : Exprs
    expr_then : Expr → Exprs → Exprs

-- Each node has its line and its column.
mutual
  pub data Node : Type 0 where
    assign_node : (key : String) → (value : Node) → (line column : ℕ) → Node
    block_node : (type name : String) → (line column : ℕ) → (body : Nodes) → Node
    string_node : (value : String) → (line column : ℕ) → Node
    number_node : (value : String) → (line column : ℕ) → Node
    bool_node : (value : Bool) → (line column : ℕ) → Node
    null_node : (line column : ℕ) → Node
    list_node : (items : Nodes) → (line column : ℕ) → Node
    expression_node : (raw : String) → (expr : Expr) → (line column : ℕ) → Node
    identifier_node : (value : String) → (line column : ℕ) → Node

  pub data Nodes : Type 0 where
    no_nodes : Nodes
    node_then : Node → Nodes → Nodes

pub record WorkflowNode : Type 0 where
  pub name : String
  pub line : ℕ
  pub column : ℕ
  pub body : Nodes

-- The lists that the code appends to, as the trees hold them.
abbrev pub nodes_of : List Node → Nodes
nodes_of [] = no_nodes
nodes_of (n ∷ ns) = node_then n (nodes_of ns)

abbrev pub node_list : Nodes → List Node
node_list no_nodes = []
node_list (node_then n ns) = n ∷ node_list ns

abbrev pub exprs_of : List Expr → Exprs
exprs_of [] = no_exprs
exprs_of (e ∷ es) = expr_then e (exprs_of es)
