-- ===== src/Huml/Interpolate.antt =====
-- internal/huml/evaluator.go: `EvaluateString`, which replaces each `${…}` of a text by its value.
pub mod Braces
pub mod Segments
use Prim.Native.Char.{Char}
use Prim.Native.String.{◌++◌ as text_append}
use flow_ctl.Prelude.{
  ℕ, zero, suc, String, Bool, true, false, Option, none, some, ◌&&◌, if◌then◌else◌, Result, ok, err,
}
use flow_ctl.Model.Value.{Value}
use flow_ctl.Huml.Context.{EvalContext}
use flow_ctl.Huml.Scan.{is, uncons, next_is}
use flow_ctl.Huml.Scan.Shorter.{size}
use flow_ctl.Huml.Chars.{Part, after}
use flow_ctl.Huml.Ast.{Expr}
use flow_ctl.Huml.Expr.{ExprError, parse_expression}
use flow_ctl.Huml.Evaluate.Values.{Library, contains_text}
use flow_ctl.Huml.Evaluate.{EvalError, evaluate}
use flow_ctl.Huml.Interpolate.Braces.{until_brace, char_then}

-- Both errors name the expression; and that the fuel ran out.
pub data InterpolationError : Type 0 where
  parsing : (expression : String) → ExprError → InterpolationError
  evaluating : (expression : String) → EvalError → InterpolationError
  unfinished : InterpolationError

abbrev pub Interpolated : Type 0
Interpolated = Result InterpolationError String

-- `result` holds what is written before.
abbrev pub written : String → Interpolated → Interpolated
written s (ok t) = ok (text_append s t)
written s (err e) = err e

module _ (parse_float : String → Option ℕ) (g : Library) (c : EvalContext) where
  -- The value of one expression, as text.
  unfoldable pub interpolate_one : (expression : String) → Interpolated
  unfolding parse_expression evaluate
  interpolate_one expression = elim (parse_expression parse_float expression) [
    | err e ↦ err (parsing expression e)
    | ok expr ↦ elim (evaluate g c expr) [
      | err e ↦ err (evaluating expression e)
      | ok val ↦ ok (g.format val)
    ]
  ]

  -- What follows a value.
  abbrev pub value_then : Interpolated → Interpolated → Interpolated
  value_then (err e) more = err e
  value_then (ok s) more = written s more

  -- The loop: what is left of the text, with what it comes to.
  unfoldable pub interpolate_loop : (fuel : ℕ) → String → Interpolated
  unfolding interpolate_one until_brace
  interpolate_loop zero s = elim (uncons s) [ none ↦ ok "" | some (ch, rest) ↦ err unfinished ]
  interpolate_loop (suc fuel) s = elim (uncons s) [
    | none ↦ ok ""
    | some (ch, rest) ↦ elim (is ch b'$') [
      | false ↦ written (char_then ch "") (interpolate_loop fuel rest)
      | true ↦ elim (after b'{' rest) [
        | none ↦ written (char_then ch "") (interpolate_loop fuel rest)
        | some inner ↦
            value_then (interpolate_one (until_brace 0 inner).text)
              (interpolate_loop fuel (until_brace 0 inner).rest)
      ]
    ]
  ]

  unfoldable pub evaluate_string : (raw : String) → Interpolated
  unfolding interpolate_loop
  evaluate_string raw = if contains_text raw "${" then interpolate_loop (size raw) raw else ok raw
