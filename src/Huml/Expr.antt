-- ===== src/Huml/Expr.antt =====
-- internal/huml/parser.go: `ParseExpression`, by recursive descent on the text that is left.
pub mod Ends
pub mod Total
use Prim.Native.Char.{Char, code}
use flow_ctl.Prelude.{
  ℕ, zero, suc, String, Bool, true, false, Option, none, some, List, [], ◌∷◌, ◌++◌, ◌==◌, ◌&&◌,
  ◌||◌, if◌then◌else◌, Result, ok, err,
}
use flow_ctl.Model.Value.{Value, null, bool, float64, text}
use flow_ctl.Huml.Scan.{is, is_digit, is_letter, uncons, next_is}
use flow_ctl.Huml.Scan.Shorter.{size}
use flow_ctl.Huml.Chars.{
  Part, skip_whitespace, read_ident, after, match_str, scan_literal, read_number,
}
use flow_ctl.Huml.Ast.{Expr, ref, literal, binary, unary, func_call, conditional, exprs_of}

-- The messages of the source, and that the fuel ran out.
pub data ExprError : Type 0 where
  expected_colon unexpected_end expected_paren expected_identifier expected_end_of_args : ExprError
  unterminated_literal : ExprError
  unexpected_character : Char → ExprError
  invalid_number : String → ExprError
  unfinished : ExprError

-- What is read, and the text that is left.
abbrev pub Parser : Type 0 → Type 0
Parser A = String → Result ExprError (A × String)

infixl 5 ◌>>=◌
abbrev pub ◌>>=◌ :
    {A B : Type 0} → Result ExprError (A × String) → (A → Parser B) → Result ExprError (B × String)
ok (a, s) >>= f = f a s
err e >>= f = err e

-- An operator, and what follows it, if one stands next.
abbrev pub Operator : Type 0
Operator = String → Option (String × String)

abbrev pub operator_text : String → Operator
operator_text op s = elim (match_str op s) [ none ↦ none | some rest ↦ some (op, rest) ]

abbrev pub addition_op : Operator
addition_op s = elim (after b'+' s) [
  | some rest ↦ some ("+", rest)
  | none ↦ elim (after b'-' s) [ some rest ↦ some ("-", rest) | none ↦ none ]
]

abbrev pub multiplication_op : Operator
multiplication_op s = elim (after b'*' s) [
  | some rest ↦ some ("*", rest)
  | none ↦ elim (after b'/' s) [
    | some rest ↦ some ("/", rest)
    | none ↦ elim (after b'%' s) [ some rest ↦ some ("%", rest) | none ↦ none ]
  ]
]

-- The loops of `parseOr`, `parseAnd`, `parseAddition` and `parseMultiplication`: as long as an
-- operator stands next, an operand follows.
unfoldable pub binary_loop : Operator → Parser Expr → (fuel : ℕ) → Expr → Parser Expr
unfolding skip_whitespace
binary_loop op operand zero left s = elim (op (skip_whitespace s)) [
  | none ↦ ok (left, skip_whitespace s)
  | some (o, rest) ↦ err unfinished
]
binary_loop op operand (suc fuel) left s = elim (op (skip_whitespace s)) [
  | none ↦ ok (left, skip_whitespace s)
  | some (o, rest) ↦
      operand rest >>= λ right s'. binary_loop op operand fuel (binary o left right) s'
]

unfoldable pub binary_level : Operator → Parser Expr → Parser Expr
unfolding binary_loop
binary_level op operand s = operand s >>= λ left s'. binary_loop op operand (size s') left s'

-- The loop over the comparison operators: each is tried once, in this order.
unfoldable pub comparisons : Parser Expr → List String → Expr → Parser Expr
unfolding skip_whitespace match_str
comparisons operand [] left s = ok (left, s)
comparisons operand (op ∷ ops) left s = elim (match_str op s) [
  | none ↦ comparisons operand ops left s
  | some rest ↦ operand rest >>= λ right s'.
      comparisons operand ops (binary op left right) (skip_whitespace s')
]

abbrev pub comparison_ops : List String
comparison_ops = "==" ∷ "!=" ∷ "<=" ∷ ">=" ∷ "<" ∷ ">" ∷ []

unfoldable pub parse_comparison : Parser Expr → Parser Expr
unfolding comparisons skip_whitespace
parse_comparison operand s =
    operand s >>= λ left s'. comparisons operand comparison_ops left (skip_whitespace s')

-- The loop over `.name`.
unfoldable pub dot_chain : (fuel : ℕ) → (path : List String) → Parser (List String)
unfolding read_ident
dot_chain zero path s = elim (after b'.' s) [ none ↦ ok (path, s) | some rest ↦ err unfinished ]
dot_chain (suc fuel) path s = elim (after b'.' s) [
  | none ↦ ok (path, s)
  | some rest ↦ elim ((read_ident rest).text == "") [
    | true ↦ err expected_identifier
    | false ↦ dot_chain fuel (path ++ (read_ident rest).text ∷ []) (read_ident rest).rest
  ]
]

unfoldable pub parse_path : (ident : String) → Parser Expr
unfolding dot_chain
parse_path ident s = dot_chain (size s) (ident ∷ []) s >>= λ path s'. ok (ref path, s')

unfoldable pub parse_string_literal : (quote : Char) → Parser Expr
unfolding scan_literal
parse_string_literal quote s = elim (scan_literal (code quote) false s) [
  | none ↦ err unterminated_literal
  | some p ↦ ok (literal (text p.text), p.rest)
]

-- The words of `parseRef` that are no references.
abbrev pub word_literal : String → Option Value
word_literal ident =
    if ident == "true"
    then some (bool true)
    else if ident == "false"
    then some (bool false)
    else if ident == "null" || ident == "nil"
    then some null
    else none

unfoldable pub parse_unary : Parser Expr → (fuel : ℕ) → Parser Expr
unfolding skip_whitespace
parse_unary primary zero s = elim (after b'!' (skip_whitespace s)) [
  | none ↦ primary (skip_whitespace s)
  | some rest ↦ err unfinished
]
parse_unary primary (suc fuel) s = elim (after b'!' (skip_whitespace s)) [
  | none ↦ primary (skip_whitespace s)
  | some rest ↦ parse_unary primary fuel rest >>= λ operand s'. ok (unary "!" operand, s')
]

-- `parse_float` is `strconv.ParseFloat`, as the bits of a float64; none is its error.
module _ (parse_float : String → Option ℕ) where
  unfoldable pub parse_number_literal : Parser Expr
  unfolding read_number
  parse_number_literal s = elim (parse_float (read_number s).text) [
    | none ↦ err (invalid_number (read_number s).text)
    | some f ↦ ok (literal (float64 f), (read_number s).rest)
  ]

  -- `nested` is `parseExpr`.
  module _ (nested : Parser Expr) where
    -- The loop over the arguments; `args` are those before.
    unfoldable pub args_loop : (fuel : ℕ) → (args : List Expr) → Parser (List Expr)
    unfolding skip_whitespace
    args_loop zero args s = err unfinished
    args_loop (suc fuel) args s = nested (skip_whitespace s) >>= λ arg s'.
        elim (after b',' (skip_whitespace s')) [
          | none ↦ ok (args ++ arg ∷ [], skip_whitespace s')
          | some rest ↦ args_loop fuel (args ++ arg ∷ []) rest
        ]

    -- `s` is what follows the parenthesis.
    unfoldable pub parse_func_call : (name : String) → Parser Expr
    unfolding skip_whitespace args_loop
    parse_func_call name s = elim (after b')' (skip_whitespace s)) [
      | some rest ↦ ok (func_call name (exprs_of []), rest)
      | none ↦ args_loop (suc (size s)) [] (skip_whitespace s) >>= λ args s'.
          elim (after b')' (skip_whitespace s')) [
            | none ↦ err expected_end_of_args
            | some rest ↦ ok (func_call name (exprs_of args), rest)
          ]
    ]

    unfoldable pub parse_ref : Parser Expr
    unfolding read_ident parse_func_call parse_path
    parse_ref s =
        let ident = (read_ident s).text in
        let rest = (read_ident s).rest in
        elim (word_literal ident) [
          | some v ↦ ok (literal v, rest)
          | none ↦ elim (after b'(' rest) [
            | some args ↦ parse_func_call ident args
            | none ↦ parse_path ident rest
          ]
        ]

    -- `s` is what follows the parenthesis.
    unfoldable pub parse_parens : Parser Expr
    unfolding skip_whitespace
    parse_parens s = nested s >>= λ e s'. elim (after b')' (skip_whitespace s')) [
      | none ↦ err expected_paren
      | some rest ↦ ok (e, rest)
    ]

    -- The character `c` stands next, and `rest` follows; `s` is both.
    unfoldable pub primary_at : Char → (rest s : String) → Result ExprError (Expr × String)
    unfolding parse_parens parse_string_literal parse_number_literal parse_ref is_digit is_letter
    primary_at c rest s =
        if is c b'('
        then parse_parens rest
        else if is c b'\'' || is c b'"'
        then parse_string_literal c rest
        else if is_digit c || is c b'-' && next_is is_digit rest
        then parse_number_literal s
        else if is_letter c || is c b'_'
        then parse_ref s
        else err (unexpected_character c)

    unfoldable pub parse_primary : Parser Expr
    unfolding skip_whitespace primary_at
    parse_primary s = elim (uncons (skip_whitespace s)) [
      | none ↦ err unexpected_end
      | some (c, rest) ↦ primary_at c rest (skip_whitespace s)
    ]

    unfoldable pub parse_or : Parser Expr
    unfolding binary_level parse_comparison parse_unary parse_primary match_str
    parse_or = binary_level (operator_text "||") (
        binary_level (operator_text "&&") (
          parse_comparison (
            binary_level addition_op
              (binary_level multiplication_op (λ s. parse_unary parse_primary (size s) s)))))

    -- `s` is what follows the question mark.
    unfoldable pub parse_branches : Expr → Parser Expr
    unfolding skip_whitespace
    parse_branches cond s = nested (skip_whitespace s) >>= λ on_true s₁.
        elim (after b':' (skip_whitespace s₁)) [
          | none ↦ err expected_colon
          | some rest ↦ nested (skip_whitespace rest) >>= λ on_false s₂.
              ok (conditional cond on_true on_false, s₂)
        ]

    unfoldable pub parse_ternary : Parser Expr
    unfolding parse_or skip_whitespace parse_branches
    parse_ternary s = parse_or s >>= λ e s'. elim (after b'?' (skip_whitespace s')) [
      | none ↦ ok (e, skip_whitespace s')
      | some rest ↦ parse_branches e rest
    ]

  -- Each level of nesting takes a character at least.
  unfoldable pub parse_expr : (fuel : ℕ) → Parser Expr
  unfolding parse_ternary
  parse_expr zero s = err unfinished
  parse_expr (suc fuel) s = parse_ternary (parse_expr fuel) s

  -- What is left behind the expression is dropped.
  unfoldable pub parse_expression : String → Result ExprError Expr
  unfolding parse_expr
  parse_expression input = elim (parse_expr (suc (size input)) input) [
    | err e ↦ err e
    | ok (e, rest) ↦ ok e
  ]
