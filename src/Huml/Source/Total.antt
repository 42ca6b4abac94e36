-- ===== src/Huml/Source/Total.antt =====
-- internal/huml/huml.go: `ParseHUML` comes to an end.
use flow_ctl.Prelude.{ℕ, String, Option, List, Result, ok, err}
use flow_ctl.Model.Workflow.{WorkflowDefinition}
use flow_ctl.Huml.Lexer.{LexError, Token, tokenize}
use flow_ctl.Huml.Lexer.Ends as Lexing
use flow_ctl.Huml.Ast.{Node, WorkflowNode}
use flow_ctl.Huml.Parser.{ParserError, parse}
use flow_ctl.Huml.Parser.Ends as Parsing
use flow_ctl.Huml.Parser.Total.{EndsWorkflow, parse-Ends}
use flow_ctl.Huml.Convert.{convert}
use flow_ctl.Huml.Source.{HumlError, lexing, parsing, parse_huml}

-- The result is a definition, or an error of the source.
abbrev pub EndsDefinition : Result HumlError WorkflowDefinition → Type 0
EndsDefinition (ok def) = Unit
EndsDefinition (err (lexing e)) = Lexing.IsUnterminated e
EndsDefinition (err (parsing e)) = Parsing.IsMessage e

module _ (parse_float : String → Option ℕ) (formatted : Node → String) where
  parsed : Result ParserError WorkflowNode → Result HumlError WorkflowDefinition
  parsed (err e) = err (parsing e)
  parsed (ok node) = ok (convert formatted node)

  parsed-EndsDefinition :
      (r : Result ParserError WorkflowNode) → EndsWorkflow parse_float r → EndsDefinition (parsed r)
  unfolding parsed
  parsed-EndsDefinition (ok node) h = tt
  parsed-EndsDefinition (err e) h = h

  -- On every text ParseHUML comes to an end, with a definition or with one of the errors of the source.
  pub parse_huml-EndsDefinition :
      (source : String) → EndsDefinition (parse_huml parse_float formatted source)
  unfolding parse_huml parsed
  parse_huml-EndsDefinition source = on (tokenize source) (Lexing.tokenize-Ends source)
    where
      on :
          (r : Result LexError (List Token))
          → Lexing.Ends r
          → EndsDefinition (elim r [
            | err e ↦ err (lexing e)
            | ok tokens ↦ elim (parse parse_float tokens) [
              | err e ↦ err (parsing e)
              | ok node ↦ ok (convert formatted node)
            ]
          ])
      on (err e) h = h
      on (ok tokens) h =
          parsed-EndsDefinition (parse parse_float tokens) (parse-Ends parse_float tokens)
