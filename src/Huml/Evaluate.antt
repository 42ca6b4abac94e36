-- ===== src/Huml/Evaluate.antt =====
-- internal/huml/evaluator.go: `Evaluate`. What Go's libraries compute is a record of functions.
pub mod Values
pub mod Secrets
use Prim.Native.String.{len, ◌++◌ as text_append}
use flow_ctl.Prelude.{
  ℕ, zero, suc, ◌%◌, String, Bool, true, false, Option, none, some, List, [], ◌∷◌, ◌==◌, ◌&&◌, ◌||◌,
  not, eqb, ltb, length, if◌then◌else◌, Assoc, lookup, Result, ok, err, ◌>>=◌,
}
use flow_ctl.Model.Value.{
  ℤ, pos, negsuc, Value, null, bool, float64, int, int64, text, array, object, steps_map,
  string_map, Items, nil, item, Fields, end, field, fields_of, assoc_of, list_of,
}
use flow_ctl.Huml.Context.{EvalContext}
use flow_ctl.Huml.Ast.{
  Expr, Exprs, ref, literal, binary, unary, func_call, conditional, index, no_exprs, expr_then,
}
use flow_ctl.Huml.Evaluate.Values.{
  Library, to_bool, to_float, to_numeric, int_of, remainder, contains_text, is_zero_int, array_get,
}

-- The messages of the source.
pub data EvalError : Type 0 where
  empty_path secret_required division_by_zero modulo_by_zero : EvalError
  input_not_found step_not_found secret_not_found unknown_root cannot_access field_not_found :
      String → EvalError
  step_field_not_found : (step field : String) → EvalError
  unknown_operator unknown_unary unknown_function : String → EvalError
  wrong_arguments : (name : String) → (count : ℕ) → EvalError
  index_out_of_range : ℤ → EvalError
  cannot_index no_length : Value → EvalError

abbrev pub Evaluated : Type 0
Evaluated = Result EvalError Value

-- The Go map that `m` is, if it is a `map[string]any`.
abbrev pub as_object : Value → Option (Assoc Value)
as_object (object fs) = some (assoc_of fs)
as_object _ = none

unfoldable pub drill_down : Value → (path : List String) → Evaluated
unfolding assoc_of lookup
drill_down val [] = ok val
drill_down val (key ∷ path) = elim (as_object val) [
  | none ↦ err (cannot_access key)
  | some m ↦ elim (lookup key m) [ none ↦ err (field_not_found key) | some v ↦ drill_down v path ]
]

abbrev pub steps_value : Assoc (Assoc Value) → Fields
unfolding fields_of
steps_value [] = end
steps_value ((id, m) ∷ rest) = field id (object (fields_of m)) (steps_value rest)

unfoldable pub resolve_input : EvalContext → List String → Evaluated
unfolding drill_down fields_of lookup
resolve_input c [] = ok (object (fields_of c.inputs))
resolve_input c (name ∷ path) = elim (lookup name c.inputs) [
  | none ↦ err (input_not_found name)
  | some v ↦ drill_down v path
]

unfoldable pub resolve_field : (step : String) → Assoc Value → List String → Evaluated
unfolding drill_down fields_of lookup
resolve_field step data_ [] = ok (object (fields_of data_))
resolve_field step data_ (name ∷ path) = elim (lookup name data_) [
  | none ↦ err (step_field_not_found step name)
  | some v ↦ drill_down v path
]

unfoldable pub resolve_step : EvalContext → List String → Evaluated
unfolding resolve_field lookup
resolve_step c [] = ok (steps_map (steps_value c.steps))
resolve_step c (id ∷ path) = elim (lookup id c.steps) [
  | none ↦ err (step_not_found id)
  | some m ↦ resolve_field id m path
]

-- What follows the name is not read.
unfoldable pub resolve_secret : EvalContext → List String → Evaluated
unfolding lookup
resolve_secret c [] = err secret_required
resolve_secret c (name ∷ path) = elim (lookup name c.secrets) [
  | none ↦ err (secret_not_found name)
  | some v ↦ ok (text v)
]

-- A missing variable reads as the empty text.
unfoldable pub resolve_env : EvalContext → List String → Evaluated
unfolding lookup
resolve_env c [] = ok (string_map c.env)
resolve_env c (name ∷ path) = elim (lookup name c.env) [
  | none ↦ ok (text "")
  | some v ↦ ok (text v)
]

unfoldable pub resolve_ref : EvalContext → (path : List String) → Evaluated
unfolding resolve_input resolve_step resolve_secret resolve_env
resolve_ref c [] = err empty_path
resolve_ref c (root ∷ path) =
    if root == "inputs"
    then resolve_input c path
    else if root == "steps"
    then resolve_step c path
    else if root == "secrets"
    then resolve_secret c path
    else if root == "env"
    then resolve_env c path
    else err (unknown_root root)

module _ (g : Library) where
  -- `+`: a sum if both are numbers, else the two texts.
  unfoldable pub plus : Value → Value → Value
  plus left right = elim (to_numeric g left) [
    | none ↦ text (text_append (g.format left) (g.format right))
    | some l ↦ elim (to_numeric g right) [
      | none ↦ text (text_append (g.format left) (g.format right))
      | some r ↦ float64 (g.add l r)
    ]
  ]

  unfoldable pub divide : Value → Value → Evaluated
  divide left right =
      if g.is_zero (to_float g right)
      then err division_by_zero
      else ok (float64 (g.div (to_float g left) (to_float g right)))

  unfoldable pub modulo : Value → Value → Evaluated
  modulo left right =
      if is_zero_int (g.to_int64 (to_float g right))
      then err modulo_by_zero
      else ok (int64 (remainder (g.to_int64 (to_float g left)) (g.to_int64 (to_float g right))))

  unfoldable pub eval_binary : (op : String) → Value → Value → Evaluated
  unfolding plus divide modulo
  eval_binary op left right =
      if op == "=="
      then ok (bool (g.format left == g.format right))
      else if op == "!="
      then ok (bool (not (g.format left == g.format right)))
      else if op == "&&"
      then ok (bool (to_bool g left && to_bool g right))
      else if op == "||"
      then ok (bool (to_bool g left || to_bool g right))
      else if op == "<"
      then ok (bool (g.lt (to_float g left) (to_float g right)))
      else if op == ">"
      then ok (bool (g.lt (to_float g right) (to_float g left)))
      else if op == "<="
      then ok (bool (g.le (to_float g left) (to_float g right)))
      else if op == ">="
      then ok (bool (g.le (to_float g right) (to_float g left)))
      else if op == "+"
      then ok (plus left right)
      else if op == "-"
      then ok (float64 (g.sub (to_float g left) (to_float g right)))
      else if op == "*"
      then ok (float64 (g.mul (to_float g left) (to_float g right)))
      else if op == "/"
      then divide left right
      else if op == "%"
      then modulo left right
      else err (unknown_operator op)

  unfoldable pub eval_unary : (op : String) → Value → Evaluated
  eval_unary op val =
      if op == "!"
      then ok (bool (not (to_bool g val)))
      else if op == "-"
      then ok (float64 (g.neg (to_float g val)))
      else err (unknown_unary op)

  unfoldable pub length_of : Value → Evaluated
  unfolding list_of assoc_of
  length_of (text s) = ok (int (pos (len s)))
  length_of (array vs) = ok (int (pos (length (list_of vs))))
  length_of (object fs) = ok (int (pos (length (assoc_of fs))))
  length_of v = err (no_length v)

  unfoldable pub default_of : Value → Value → Value
  default_of null other = other
  default_of v other = if g.format v == "" then other else v

  -- A function of one argument, and one of two.
  unfoldable pub unary_call : (name : String) → (Value → Evaluated) → List Value → Evaluated
  unary_call name f (v ∷ []) = f v
  unary_call name f _ = err (wrong_arguments name 1)

  unfoldable pub binary_call :
      (name : String) → (Value → Value → Evaluated) → List Value → Evaluated
  binary_call name f (v ∷ w ∷ []) = f v w
  binary_call name f _ = err (wrong_arguments name 2)

  unfoldable pub call : (name : String) → List Value → Evaluated
  unfolding unary_call binary_call length_of default_of
  call name args =
      if name == "len"
      then unary_call name length_of args
      else if name == "toJSON"
      then unary_call name (λ v. ok (text (g.format v))) args
      else if name == "upper"
      then unary_call name (λ v. ok (text (g.to_upper (g.format v)))) args
      else if name == "lower"
      then unary_call name (λ v. ok (text (g.to_lower (g.format v)))) args
      else if name == "contains"
      then binary_call name (λ v w. ok (bool (contains_text (g.format v) (g.format w)))) args
      else if name == "default"
      then binary_call name (λ v w. ok (default_of v w)) args
      else err (unknown_function name)

  -- `index_access`: a missing key reads as nil.
  unfoldable pub index_access : (obj idx : Value) → Evaluated
  unfolding assoc_of list_of lookup
  index_access (object fs) idx = elim (lookup (g.format idx) (assoc_of fs)) [
    | none ↦ ok null
    | some v ↦ ok v
  ]
  index_access (array vs) idx = elim (array_get (int_of g (to_float g idx)) (list_of vs)) [
    | none ↦ err (index_out_of_range (int_of g (to_float g idx)))
    | some v ↦ ok v
  ]
  index_access v idx = err (cannot_index v)

  unfoldable mutual
    unfolding resolve_ref eval_binary eval_unary call index_access

    pub evaluate : EvalContext → Expr → Evaluated
    evaluate c (literal v) = ok v
    evaluate c (ref path) = resolve_ref c path
    evaluate c (binary op left right) =
        evaluate c left >>= λ l. evaluate c right >>= λ r. eval_binary op l r
    evaluate c (unary op operand) = evaluate c operand >>= λ v. eval_unary op v
    evaluate c (conditional cond on_true on_false) = evaluate c cond >>= λ v. elim (to_bool g v) [
      | true ↦ evaluate c on_true
      | false ↦ evaluate c on_false
    ]
    evaluate c (func_call name args) = evaluate_all c args >>= λ vs. call name vs
    evaluate c (index obj idx) = evaluate c obj >>= λ o. evaluate c idx >>= λ i. index_access o i

    pub evaluate_all : EvalContext → Exprs → Result EvalError (List Value)
    evaluate_all c no_exprs = ok []
    evaluate_all c (expr_then e es) = evaluate c e >>= λ v. evaluate_all c es >>= λ vs. ok (v ∷ vs)
