-- ===== src/Huml/Parser.antt =====
-- internal/huml/parser.go: `Parse`, by recursive descent on the tokens that are left.
pub mod Ends
pub mod Total
use flow_ctl.Prelude.{
  ℕ, zero, suc, String, Bool, true, false, Option, none, some, List, [], ◌∷◌, ◌++◌, ◌==◌, ◌&&◌,
  ◌||◌, eqb, length, if◌then◌else◌, Result, ok, err,
}
use flow_ctl.Huml.Lexer.{TokenType, Token}
use flow_ctl.Huml.Ast.{
  Node, Nodes, WorkflowNode, assign_node, block_node, string_node, number_node, bool_node,
  null_node, list_node, expression_node, identifier_node, nodes_of,
}
use flow_ctl.Huml.Expr.{ExprError, parse_expression}

pub data Message : Type 0 where
  expected_workflow : Message
  expected : (wanted found : TokenType) → (value : String) → Message
  unexpected : (found : TokenType) → (value : String) → Message
  invalid_expression : ExprError → Message

-- An error at a line and a column, or behind the last token; and that the fuel ran out.
pub data ParserError : Type 0 where
  parse_error : (position : Option (ℕ × ℕ)) → Message → ParserError
  unfinished : ParserError

abbrev pub Parser : Type 0 → Type 0
Parser A = List Token → Result ParserError (A × List Token)

infixl 5 ◌>>=◌
abbrev pub ◌>>=◌ :
    {A B : Type 0}
    → Result ParserError (A × List Token)
    → (A → Parser B)
    → Result ParserError (B × List Token)
ok (a, ts) >>= f = f a ts
err e >>= f = err e

-- The numbers of the constants.
abbrev pub type_number : TokenType → ℕ
type_number TokenType.eof = 0
type_number TokenType.newline = 1
type_number TokenType.indent = 2
type_number TokenType.dedent = 3
type_number TokenType.identifier = 4
type_number TokenType.string = 5
type_number TokenType.number = 6
type_number TokenType.bool = 7
type_number TokenType.null = 8
type_number TokenType.block_start = 9
type_number TokenType.block_end = 10
type_number TokenType.assign = 11
type_number TokenType.colon = 12
type_number TokenType.comma = 13
type_number TokenType.dot = 14
type_number TokenType.list_start = 15
type_number TokenType.list_end = 16
type_number TokenType.expression = 17
type_number TokenType.comment = 18
type_number TokenType.pipe = 19

abbrev pub is_type : TokenType → TokenType → Bool
is_type a b = eqb (type_number a) (type_number b)

-- `current`: behind the last token stands an end mark without a value.
unfoldable pub current_type : List Token → TokenType
current_type [] = TokenType.eof
current_type (t ∷ ts) = t.type

unfoldable pub current_value : List Token → String
current_value [] = ""
current_value (t ∷ ts) = t.value

unfoldable pub position : List Token → Option (ℕ × ℕ)
position [] = none
position (t ∷ ts) = some (t.line, t.column)

abbrev pub current_is : TokenType → List Token → Bool
current_is type ts = is_type (current_type ts) type

unfoldable pub advance : List Token → List Token
advance [] = []
advance (t ∷ ts) = ts

unfoldable pub expect : TokenType → Parser (Unit {0})
unfolding current_type current_value position advance
expect type ts =
    if current_is type ts
    then ok (tt, advance ts)
    else err (parse_error (position ts) (expected type (current_type ts) (current_value ts)))

unfoldable pub skip_newlines : List Token → List Token
skip_newlines [] = []
skip_newlines (t ∷ ts) =
    let more = skip_newlines ts in if is_type t.type TokenType.newline then more else t ∷ ts

unfoldable pub skip_comma : List Token → List Token
unfolding current_type advance skip_newlines
skip_comma ts = if current_is TokenType.comma ts then skip_newlines (advance ts) else ts

-- The name behind a keyword, if a text stands there.
unfoldable pub optional_name : List Token → String × List Token
unfolding current_type current_value advance
optional_name ts =
    if current_is TokenType.string ts then (current_value ts, advance ts) else ("", ts)

unfoldable pub is_block_keyword : String → Bool
is_block_keyword s =
    s == "step"
    || s == "input"
    || s == "approval"
    || s == "retry"
    || s == "compensation"
    || s == "workflow"

-- The loop of `parseList`; `value` is `parseValue`.
unfoldable pub items_loop : Parser Node → (fuel : ℕ) → List Node → Parser (List Node)
unfolding current_type skip_newlines skip_comma
items_loop value zero items ts =
    if current_is TokenType.list_end ts || current_is TokenType.eof ts
    then ok (items, ts)
    else err unfinished
items_loop value (suc fuel) items ts =
    elim (current_is TokenType.list_end ts || current_is TokenType.eof ts) [
      | true ↦ ok (items, ts)
      | false ↦ value ts >>= λ item ts'.
          items_loop value fuel (items ++ item ∷ []) (skip_comma (skip_newlines ts'))
    ]

-- `tok` is the opening bracket.
unfoldable pub parse_list : Parser Node → Token → Parser Node
unfolding items_loop skip_newlines expect
parse_list value tok ts = items_loop value (length ts) [] (skip_newlines ts) >>= λ items ts₁.
    expect TokenType.list_end ts₁ >>= λ _ ts₂.
    ok (list_node (nodes_of items) tok.line tok.column, ts₂)

-- The loop of `parseBody`; a statement may be none.
unfoldable pub body_loop : Parser (Option Node) → (fuel : ℕ) → List Node → Parser (List Node)
unfolding current_type skip_newlines
body_loop statement zero nodes ts =
    if current_is TokenType.block_end ts || current_is TokenType.eof ts
    then ok (nodes, ts)
    else err unfinished
body_loop statement (suc fuel) nodes ts =
    elim (current_is TokenType.block_end ts || current_is TokenType.eof ts) [
      | true ↦ ok (nodes, ts)
      | false ↦ statement ts >>= λ node ts'.
          body_loop statement fuel (elim node [ none ↦ nodes | some n ↦ nodes ++ n ∷ [] ])
            (skip_newlines ts')
    ]

-- `body` is `parseBody`: a keyword, an optional name, and a body in braces.
unfoldable pub parse_braces : Parser (List Node) → Parser (String × List Node)
unfolding optional_name expect
parse_braces body ts =
    let (name, ts₁) = optional_name ts in
    expect TokenType.block_start ts₁ >>= λ _ ts₂.
    body ts₂ >>= λ nodes ts₃. expect TokenType.block_end ts₃ >>= λ _ ts₄. ok ((name, nodes), ts₄)

unfoldable pub parse_block : Parser (List Node) → Token → Parser Node
unfolding parse_braces
parse_block body tok ts = parse_braces body ts >>= λ (name, nodes) ts'.
    ok (block_node tok.value name tok.line tok.column (nodes_of nodes), ts')

module _ (parse_float : String → Option ℕ) where
  unfoldable pub parse_interpolation : Token → Parser Node
  unfolding parse_expression
  parse_interpolation tok ts = elim (parse_expression parse_float tok.value) [
    | err e ↦ err (parse_error (some (tok.line, tok.column)) (invalid_expression e))
    | ok e ↦ ok (expression_node tok.value e tok.line tok.column, ts)
  ]

  -- The `switch` of `parseValue`: `tok` is the current token, `ts` what follows it.
  unfoldable pub value_at : Parser Node → TokenType → Token → Parser Node
  unfolding parse_interpolation parse_list
  value_at value TokenType.string tok ts = ok (string_node tok.value tok.line tok.column, ts)
  value_at value TokenType.number tok ts = ok (number_node tok.value tok.line tok.column, ts)
  value_at value TokenType.bool tok ts =
      ok (bool_node (tok.value == "true") tok.line tok.column, ts)
  value_at value TokenType.null tok ts = ok (null_node tok.line tok.column, ts)
  value_at value TokenType.expression tok ts = parse_interpolation tok ts
  value_at value TokenType.list_start tok ts = parse_list value tok ts
  value_at value TokenType.identifier tok ts =
      ok (identifier_node tok.value tok.line tok.column, ts)
  value_at value type tok ts =
      err (parse_error (some (tok.line, tok.column)) (unexpected type tok.value))

  -- Each level of nesting takes a bracket.
  unfoldable pub parse_value : (fuel : ℕ) → Parser Node
  unfolding value_at
  parse_value zero ts = err unfinished
  parse_value (suc fuel) [] = err (parse_error none (unexpected TokenType.eof ""))
  parse_value (suc fuel) (tok ∷ ts) = value_at (parse_value fuel) tok.type tok ts

  -- `tok` is the key, and the current token is the `=`.
  unfoldable pub parse_assignment : Token → Parser Node
  unfolding parse_value advance
  parse_assignment tok ts = parse_value (suc (length ts)) (advance ts) >>= λ value ts'.
      ok (assign_node tok.value value tok.line tok.column, ts')

  abbrev pub present : Node → Parser (Option Node)
  present n ts = ok (some n, ts)

  unfoldable pub identifier_statement : Parser (List Node) → Token → Parser (Option Node)
  unfolding is_block_keyword parse_block current_type parse_assignment
  identifier_statement body tok ts =
      if is_block_keyword tok.value
      then parse_block body tok ts >>= present
      else if current_is TokenType.assign ts
      then parse_assignment tok ts >>= present
      else ok (some (identifier_node tok.value tok.line tok.column), ts)

  unfoldable pub parse_statement : Parser (List Node) → Parser (Option Node)
  unfolding identifier_statement
  parse_statement body [] = ok (none, [])
  parse_statement body (tok ∷ ts) =
      if is_type tok.type TokenType.identifier
      then identifier_statement body tok ts
      else ok (none, ts)

  unfoldable pub parse_body : (fuel : ℕ) → Parser (List Node)
  unfolding body_loop parse_statement skip_newlines
  parse_body zero ts = err unfinished
  parse_body (suc fuel) ts =
      body_loop (parse_statement (parse_body fuel)) (length ts) [] (skip_newlines ts)

  -- `matchIdentifier("workflow")`
  unfoldable pub starts_workflow : List Token → Bool
  unfolding current_type current_value
  starts_workflow ts = current_is TokenType.identifier ts && current_value ts == "workflow"

  unfoldable pub parse : List Token → Result ParserError WorkflowNode
  unfolding skip_newlines starts_workflow position advance parse_braces parse_body
  parse tokens =
      let ts = skip_newlines tokens in
      if starts_workflow ts
      then elim (parse_braces (parse_body (suc (length tokens))) (advance ts)) [
        | err e ↦ err e
        | ok ((name, nodes), rest) ↦
            ok (record { name = name; line = 1; column = 1; body = nodes_of nodes })
      ]
      else err (parse_error (position ts) expected_workflow)
