-- ===== src/Huml/Source.antt =====
-- internal/huml/huml.go: `ParseHUML`, from a text to a workflow's definition.
pub mod Total
use flow_ctl.Prelude.{ℕ, String, Option, Result, ok, err}
use flow_ctl.Model.Workflow.{WorkflowDefinition}
use flow_ctl.Huml.Lexer.{LexError, tokenize}
use flow_ctl.Huml.Ast.{Node}
use flow_ctl.Huml.Parser.{ParserError, parse}
use flow_ctl.Huml.Convert.{convert}

pub data HumlError : Type 0 where
  lexing : LexError → HumlError
  parsing : ParserError → HumlError

-- The two parameters are `strconv.ParseFloat` and `fmt.Sprintf("%v", n)` of a node.
unfoldable pub parse_huml :
    (parse_float : String → Option ℕ) (formatted : Node → String)
    → (source : String) → Result HumlError WorkflowDefinition
unfolding tokenize parse convert
parse_huml parse_float formatted source = elim (tokenize source) [
  | err e ↦ err (lexing e)
  | ok tokens ↦ elim (parse parse_float tokens) [
    | err e ↦ err (parsing e)
    | ok node ↦ ok (convert formatted node)
  ]
]
