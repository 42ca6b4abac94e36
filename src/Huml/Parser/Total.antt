-- ===== src/Huml/Parser/Total.antt =====
-- internal/huml/parser.go: `Parse` comes to an end.
use flow_ctl.Prelude.{
  ◌≡◌, refl, ℕ, zero, suc, ◌≤◌, ◌<◌, String, Bool, true, false, Option, none, some, List, [], ◌∷◌,
  ◌++◌, ◌||◌, arith, length, if◌then◌else◌, Result, ok, err,
}
use flow_ctl.Huml.Lexer.{TokenType, Token}
use flow_ctl.Huml.Ast.{Expr, Node, WorkflowNode, expression_node, nodes_of}
use flow_ctl.Huml.Expr.{ExprError, parse_expression}
use flow_ctl.Huml.Expr.Total.{EndsExpr, parse_expression-Ends}
use flow_ctl.Huml.Parser.{
  expected_workflow, position, invalid_expression, ParserError, parse_error, Parser, ◌>>=◌, is_type,
  current_type, current_is, advance, expect, skip_newlines, skip_comma, optional_name,
  is_block_keyword, items_loop, parse_list, body_loop, parse_braces, parse_block,
  parse_interpolation, value_at, parse_value, parse_assignment, present, identifier_statement,
  parse_statement, parse_body, starts_workflow, parse,
}
use flow_ctl.Huml.Parser.Ends.{
  IsMessage, Ends, Ends-bind, Ends-weaken, Ends-if, advance-le, expect-Ends, skip_newlines-le,
  skip_comma-le, optional_name-le,
}

-- Where no token is left, every loop ends.
no_tokens :
    (type : TokenType) (ts : List Token)
    → length ts ≤ 0
    → (current_is type ts || current_is TokenType.eof ts) ≡ true
unfolding current_type
no_tokens type [] h = ground arith
no_tokens type (t ∷ ts) h = absurd (omega arith)

-- On less than `n` tokens, and not at the end mark, the parser ends and takes a token.
abbrev Takes : {A : Type 0} → ℕ → Parser A → Type 0
Takes n p =
    (ts : List Token)
    → current_is TokenType.eof ts ≡ false
    → length ts < n
    → Ends (length ts) (p ts)

-- The body of a loop over tokens: it stops at the end mark or at a token of the type `type`.
loop-Ends :
    {A : Type 0} (type : TokenType) (n : ℕ) (ts : List Token)
    (stop more : Result ParserError (A × List Token))
    → Ends n stop
    → (current_is TokenType.eof ts ≡ false → Ends n more)
    → Ends n
        (elim (current_is type ts || current_is TokenType.eof ts) [ true ↦ stop | false ↦ more ])
loop-Ends {A} type n ts stop more h k =
    on (current_is type ts || current_is TokenType.eof ts) (λ e. k (ground (arith, e)))
  where
    on : (b : Bool) → (b ≡ false → Ends n more) → Ends n (elim b [ true ↦ stop | false ↦ more ])
    on true k = h
    on false k = k refl

module _ (n : ℕ) (value : Parser Node) (takes : Takes n value) where
  items_loop-Ends :
      (fuel : ℕ) (items : List Node) (ts : List Token)
      → length ts ≤ fuel
      → length ts < n
      → Ends (suc (length ts)) (items_loop value fuel items ts)
  unfolding items_loop
  items_loop-Ends zero items ts h small =
      Ends-if (current_is TokenType.list_end ts || current_is TokenType.eof ts) (suc (length ts))
        (ok (items, ts)) _ (λ _. omega arith) (λ e. cc (no_tokens TokenType.list_end ts h))
  items_loop-Ends (suc fuel) items ts h small =
      let on = items_loop-Ends fuel in
      loop-Ends TokenType.list_end (suc (length ts)) ts (ok (items, ts)) _ (omega arith) (λ e.
        Ends-bind (length ts) (suc (length ts)) (value ts) _ (takes ts e small) (λ item ts' k.
          let left = skip_comma (skip_newlines ts') in
          let l : length left ≤ length ts' =
            omega (arith, skip_comma-le (skip_newlines ts'), skip_newlines-le ts') in
          Ends-weaken (suc (length left)) (suc (length ts)) _ (omega (arith, k, l))
            (on (items ++ item ∷ []) left (omega (arith, h, k, l)) (omega (arith, small, k, l)))))

  parse_list-Ends :
      (tok : Token) (ts : List Token)
      → length ts < n
      → Ends (suc (length ts)) (parse_list value tok ts)
  unfolding parse_list
  parse_list-Ends tok ts small =
      Ends-bind (suc (length (skip_newlines ts))) (suc (length ts))
        (items_loop value (length ts) [] (skip_newlines ts)) _
        (items_loop-Ends (length ts) [] (skip_newlines ts) (skip_newlines-le ts)
          (omega (arith, small, skip_newlines-le ts)))
        (λ items ts₁ k.
          Ends-bind (length ts₁) (suc (length ts)) (expect TokenType.list_end ts₁) _
            (expect-Ends TokenType.list_end ts₁ refl)
            (λ _ ts₂ l. omega (arith, k, l, skip_newlines-le ts)))

module _ (n : ℕ) (statement : Parser (Option Node)) (takes : Takes n statement) where
  body_loop-Ends :
      (fuel : ℕ) (nodes : List Node) (ts : List Token)
      → length ts ≤ fuel
      → length ts < n
      → Ends (suc (length ts)) (body_loop statement fuel nodes ts)
  unfolding body_loop
  body_loop-Ends zero nodes ts h small =
      Ends-if (current_is TokenType.block_end ts || current_is TokenType.eof ts) (suc (length ts))
        (ok (nodes, ts)) _ (λ _. omega arith) (λ e. cc (no_tokens TokenType.block_end ts h))
  body_loop-Ends (suc fuel) nodes ts h small =
      let on = body_loop-Ends fuel in
      loop-Ends TokenType.block_end (suc (length ts)) ts (ok (nodes, ts)) _ (omega arith) (λ e.
        Ends-bind (length ts) (suc (length ts)) (statement ts) _ (takes ts e small) (λ node ts' k.
          let left = skip_newlines ts' in
          let l : length left ≤ length ts' = skip_newlines-le ts' in
          Ends-weaken (suc (length left)) (suc (length ts)) _ (omega (arith, k, l)) (
            on (elim node [ none ↦ nodes | some n ↦ nodes ++ n ∷ [] ]) left (omega (arith, h, k, l))
              (omega (arith, small, k, l)))))

-- `body` ends on less than `n` tokens.
module _ (n : ℕ) (body : Parser (List Node))
    (ends : (ts : List Token) → length ts < n → Ends (suc (length ts)) (body ts)) where
  parse_braces-Ends :
      (ts : List Token) → length ts ≤ n → Ends (suc (length ts)) (parse_braces body ts)
  unfolding parse_braces
  parse_braces-Ends ts small =
      let ts₁ = (optional_name ts).1 in
      Ends-bind (length ts₁) (suc (length ts)) (expect TokenType.block_start ts₁) _
        (expect-Ends TokenType.block_start ts₁ refl)
        (λ _ ts₂ k.
          Ends-bind (suc (length ts₂)) (suc (length ts)) (body ts₂) _
            (ends ts₂ (omega (arith, small, k, optional_name-le ts)))
            (λ nodes ts₃ l.
              Ends-bind (length ts₃) (suc (length ts)) (expect TokenType.block_end ts₃) _
                (expect-Ends TokenType.block_end ts₃ refl)
                (λ _ ts₄ j. omega (arith, k, l, j, optional_name-le ts))))

  parse_block-Ends :
      (tok : Token) (ts : List Token)
      → length ts ≤ n
      → Ends (suc (length ts)) (parse_block body tok ts)
  unfolding parse_block
  parse_block-Ends tok ts small =
      Ends-bind (suc (length ts)) (suc (length ts)) (parse_braces body ts) _
        (parse_braces-Ends ts small) (λ (name, nodes) ts' k. k)

module _ (parse_float : String → Option ℕ) where
  parse_interpolation-Ends :
      (tok : Token) (ts : List Token)
      → Ends (suc (length ts)) (parse_interpolation parse_float tok ts)
  unfolding parse_interpolation
  parse_interpolation-Ends tok ts =
      on (parse_expression parse_float tok.value) (parse_expression-Ends parse_float tok.value)
    where
      on :
          (r : Result ExprError Expr)
          → EndsExpr parse_float r
          → Ends (suc (length ts)) (elim r [
            | err e ↦ err (parse_error (some (tok.line, tok.column)) (invalid_expression e))
            | ok e ↦ ok (expression_node tok.value e tok.line tok.column, ts)
          ])
      on (ok e) h = omega arith
      on (err e) h = h

  value_at-Ends :
      (n : ℕ) (value : Parser Node)
      → Takes n value
      → (type : TokenType) (tok : Token) (ts : List Token) → length ts < n
      → Ends (suc (length ts)) (value_at parse_float value type tok ts)
  unfolding value_at
  value_at-Ends n value takes TokenType.string tok ts small = omega arith
  value_at-Ends n value takes TokenType.number tok ts small = omega arith
  value_at-Ends n value takes TokenType.bool tok ts small = omega arith
  value_at-Ends n value takes TokenType.null tok ts small = omega arith
  value_at-Ends n value takes TokenType.expression tok ts small = parse_interpolation-Ends tok ts
  value_at-Ends n value takes TokenType.list_start tok ts small =
      parse_list-Ends n value takes tok ts small
  value_at-Ends n value takes TokenType.identifier tok ts small = omega arith
  value_at-Ends n value takes _ tok ts small = tt

  parse_value-Ends :
      (fuel : ℕ) (ts : List Token)
      → length ts < fuel
      → Ends (length ts) (parse_value parse_float fuel ts)
  unfolding parse_value
  parse_value-Ends zero ts h = absurd (omega arith)
  parse_value-Ends (suc fuel) [] h = tt
  parse_value-Ends (suc fuel) (tok ∷ ts) h =
      value_at-Ends fuel (parse_value parse_float fuel) (λ us e l. parse_value-Ends fuel us l)
        tok.type tok ts (omega (arith, h))

  parse_assignment-Ends :
      (tok : Token) (ts : List Token) → Ends (suc (length ts)) (parse_assignment parse_float tok ts)
  unfolding parse_assignment
  parse_assignment-Ends tok ts =
      Ends-bind (length (advance ts)) (suc (length ts))
        (parse_value parse_float (suc (length ts)) (advance ts)) _
        (parse_value-Ends (suc (length ts)) (advance ts) (omega (arith, advance-le ts)))
        (λ value ts' k. omega (arith, k, advance-le ts))

  present-Ends :
      (n : ℕ) (r : Result ParserError (Node × List Token))
      → Ends n r
      → Ends n (r >>= present parse_float)
  present-Ends n r h = Ends-bind n n r _ h (λ node ts k. k)

  module _ (n : ℕ) (body : Parser (List Node))
      (ends : (ts : List Token) → length ts < n → Ends (suc (length ts)) (body ts)) where
    parse_statement-Takes : Takes (suc n) (parse_statement parse_float body)
    unfolding parse_statement identifier_statement current_type
    parse_statement-Takes [] e small = absurd (ground (arith, e))
    parse_statement-Takes (tok ∷ ts) e small =
        Ends-if (is_type tok.type TokenType.identifier) (suc (length ts)) _ _
          (λ _.
            Ends-if (is_block_keyword tok.value) (suc (length ts)) _ _
              (λ _.
                present-Ends (suc (length ts)) _
                  (parse_block-Ends n body ends tok ts (omega (arith, small))))
              (λ _.
                Ends-if (current_is TokenType.assign ts) (suc (length ts)) _ _
                  (λ _. present-Ends (suc (length ts)) _ (parse_assignment-Ends tok ts))
                  (λ _. omega arith)))
          (λ _. omega arith)

  parse_body-Ends :
      (fuel : ℕ) (ts : List Token)
      → length ts < fuel
      → Ends (suc (length ts)) (parse_body parse_float fuel ts)
  unfolding parse_body
  parse_body-Ends zero ts h = absurd (omega arith)
  parse_body-Ends (suc fuel) ts h =
      Ends-weaken (suc (length (skip_newlines ts))) (suc (length ts)) _
        (omega (arith, skip_newlines-le ts))
        (body_loop-Ends (suc fuel) (parse_statement parse_float (parse_body parse_float fuel))
          (parse_statement-Takes fuel (parse_body parse_float fuel)
            (λ us l. parse_body-Ends fuel us l))
          (length ts) [] (skip_newlines ts) (skip_newlines-le ts)
          (omega (arith, h, skip_newlines-le ts)))

  abbrev pub EndsWorkflow : Result ParserError WorkflowNode → Type 0
  EndsWorkflow (ok node) = Unit
  EndsWorkflow (err e) = IsMessage e

  pub parse-Ends : (tokens : List Token) → EndsWorkflow (parse parse_float tokens)
  unfolding parse
  parse-Ends tokens = by_start (starts_workflow parse_float (skip_newlines tokens))
    where
      ts : List Token
      ts = advance (skip_newlines tokens)

      braces : Result ParserError ((String × List Node) × List Token)
      braces = parse_braces (parse_body parse_float (suc (length tokens))) ts

      shorter : length ts ≤ length tokens
      shorter = omega (arith, advance-le (skip_newlines tokens), skip_newlines-le tokens)

      result :
          Result ParserError ((String × List Node) × List Token) → Result ParserError WorkflowNode
      result (err e) = err e
      result (ok ((name, nodes), rest)) =
          ok (record { name = name; line = 1; column = 1; body = nodes_of nodes })

      by_braces :
          (r : Result ParserError ((String × List Node) × List Token))
          → Ends (suc (length ts)) r
          → EndsWorkflow (result r)
      by_braces (ok ((name, nodes), rest)) h = tt
      by_braces (err e) h = h

      by_start :
          (b : Bool)
          → EndsWorkflow (
              if b
              then result braces
              else err (parse_error (position (skip_newlines tokens)) expected_workflow))
      by_start true = by_braces braces (
          parse_braces-Ends (suc (length tokens)) (parse_body parse_float (suc (length tokens)))
            (λ us l. parse_body-Ends (suc (length tokens)) us l) ts (omega (arith, shorter)))
      by_start false = tt
