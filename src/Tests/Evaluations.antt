-- ===== src/Tests/Evaluations.antt =====
-- Tests of the evaluation of expressions, and its theorems at sample texts.
use Prim.Native.String.{len}
use flow_ctl.Prelude.{
  ◌≡◌, refl, ℕ, ◌+◌, ◌*◌, ◌-◌, ◌/◌, String, true, false, none, Option, List, [], ◌∷◌, ok, err, eqb,
  ltb, leb, arith, count, lookup, ==-cases, inl, inr, ◌<◌, sym,
}
use flow_ctl.Model.Value.{ℤ, Value, text, bool, pos}
use flow_ctl.Huml.Context.{EvalContext}
use flow_ctl.Huml.Ast.{Expr, ref, literal, binary, conditional}
use flow_ctl.Huml.Evaluate.{secret_not_found, evaluate}
use flow_ctl.Huml.Evaluate.Values.{Library}
use flow_ctl.Huml.Evaluate.Secrets.{secrets_in, evaluate_secrets}
use flow_ctl.Huml.Interpolate.{evaluate_string, evaluating}
use flow_ctl.Huml.Interpolate.Segments.{
  Segment, plain, expression, render, value, evaluate_string-render,
}

-- A stand-in for Go's libraries, on the numbers that are counts.
abbrev to_nat : ℤ → ℕ
to_nat (pos n) = n
to_nat _ = 0

abbrev formatted : Value → String
formatted (text s) = s
formatted (bool true) = "true"
formatted (bool false) = "false"
formatted v = "?"

abbrev counts : Library
counts = record {
  add = λ a b. a + b;
  sub = λ a b. a - b;
  mul = λ a b. a * b;
  div = λ a b. a / b;
  neg = λ a. 0;
  lt = ltb;
  le = leb;
  is_zero = λ a. eqb a 0;
  of_int = to_nat;
  to_int64 = pos;
  scan_float = len;
  format = formatted;
  to_upper = λ s. s;
  to_lower = λ s. s;
}

abbrev context : EvalContext
context = record {
  inputs = ("target", text "app") ∷ [];
  steps = ("build", ("status", text "succeeded") ∷ []) ∷ [];
  secrets = ("token", "abc") ∷ ("unused", "x") ∷ [];
  env = ("REGION", "eu") ∷ [];
}

abbrev no_float : String → Option ℕ
no_float s = none

abbrev segments : List Segment
segments =
    plain "make "
    ∷ expression "inputs.target"
    ∷ plain " in "
    ∷ expression "steps.build.status == 'succeeded'"
    ∷ []

replaces :
    evaluate_string no_float counts context "make ${inputs.target}, ${env.NONE}!" ≡ ok "make app, !"
unfolding evaluate_string
replaces = refl

missing_secret :
    evaluate_string no_float counts context "${secrets.password}"
    ≡ err (evaluating "secrets.password" (secret_not_found "password"))
unfolding evaluate_string
missing_secret = refl

evaluate_string-render_example :
    evaluate_string no_float counts context (render segments)
    ≡ value no_float counts context segments
evaluate_string-render_example =
    evaluate_string-render no_float counts context segments (ground arith)

-- The choice names one secret; the other may differ.
abbrev choice : Expr
choice =
    conditional (binary "==" (ref ("secrets" ∷ "token" ∷ [])) (literal (text "abc")))
      (ref ("env" ∷ "REGION" ∷ [])) (literal (text "us"))

abbrev fewer : List (String × String)
fewer = ("token", "abc") ∷ []

-- The two agree on the secret named.
agree : (k : String) → 0 < count k ("token" ∷ []) → lookup k context.secrets ≡ lookup k fewer
unfolding lookup
agree k p = elim (==-cases "token" k) [
  | inl e ↦ rw (sym e.1) refl
  | inr e ↦ absurd (ground (arith, e.0, p))
]

evaluate_secrets_example :
    evaluate counts context choice ≡ evaluate counts (record context { secrets = fewer }) choice
unfolding secrets_in
evaluate_secrets_example = evaluate_secrets counts context fewer choice agree
