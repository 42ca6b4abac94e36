-- ===== src/Huml/Evaluate/Secrets.antt =====
-- internal/huml/evaluator.go: which secrets an expression can read.
use flow_ctl.Prelude.{
  ◌≡◌, refl, ap, ◌<◌, String, true, false, Option, none, some, List, [], ◌∷◌, ◌++◌, ◌==◌,
  if◌then◌else◌, Assoc, lookup, count, count-append, eq_refl, ==-cases, inl, inr, arith, ok, err,
  ◌>>=◌,
}
use flow_ctl.Model.Value.{text}
use flow_ctl.Huml.Context.{EvalContext}
use flow_ctl.Huml.Ast.{
  Expr, Exprs, ref, literal, binary, unary, func_call, conditional, index, no_exprs, expr_then,
}
use flow_ctl.Huml.Evaluate.Values.{Library, to_bool}
use flow_ctl.Huml.Evaluate.{
  unknown_root, secret_not_found, Evaluated, resolve_ref, resolve_secret, resolve_input,
  resolve_step, resolve_env, eval_binary, eval_unary, call, index_access, evaluate, evaluate_all,
}

-- The secrets that a path names, and those that an expression does.
abbrev pub secrets_in_path : List String → List String
secrets_in_path (root ∷ name ∷ path) = if root == "secrets" then name ∷ [] else []
secrets_in_path _ = []

unfoldable mutual
  pub secrets_in : Expr → List String
  secrets_in (literal v) = []
  secrets_in (ref path) = secrets_in_path path
  secrets_in (binary op left right) = secrets_in left ++ secrets_in right
  secrets_in (unary op operand) = secrets_in operand
  secrets_in (conditional cond on_true on_false) =
      secrets_in cond ++ (secrets_in on_true ++ secrets_in on_false)
  secrets_in (func_call name args) = secrets_in_all args
  secrets_in (index obj idx) = secrets_in obj ++ secrets_in idx

  pub secrets_in_all : Exprs → List String
  secrets_in_all no_exprs = []
  secrets_in_all (expr_then e es) = secrets_in e ++ secrets_in_all es

module _ (g : Library) (c : EvalContext) (others : Assoc String) where
  abbrev other_context : EvalContext
  other_context = record c { secrets = others }

  -- The secrets named in `names` are the same in both.
  abbrev Agree : List String → Type 0
  Agree names = (k : String) → 0 < count k names → lookup k c.secrets ≡ lookup k others

  Agree-left : (xs ys : List String) → Agree (xs ++ ys) → Agree xs
  Agree-left xs ys h k p = h k (omega (arith, p, count-append k xs ys))

  Agree-right : (xs ys : List String) → Agree (xs ++ ys) → Agree ys
  Agree-right xs ys h k p = h k (omega (arith, p, count-append k xs ys))

  resolve_ref-Agree :
      (path : List String)
      → Agree (secrets_in_path path)
      → resolve_ref c path ≡ resolve_ref other_context path
  unfolding resolve_ref resolve_secret resolve_input resolve_step resolve_env
  resolve_ref-Agree [] h = refl
  resolve_ref-Agree (root ∷ []) h = refl
  resolve_ref-Agree (root ∷ name ∷ path) h = elim (==-cases root "secrets") [
    | inl e ↦
        (let named : 0 < count name (if root == "secrets" then name ∷ [] else []) =
            rw e.0 (ground (arith, eq_refl name)) in
          let same = ap secret_of (h name named) in
          ap
            (λ x.
              if root == "inputs"
              then resolve_input c (name ∷ path)
              else if root == "steps"
              then resolve_step c (name ∷ path)
              else if root == "secrets"
              then x
              else if root == "env"
              then resolve_env c (name ∷ path)
              else err (unknown_root root))
            same)
    | inr e ↦ rw e.0 refl
  ]
    where
      secret_of : Option String → Evaluated
      secret_of none = err (secret_not_found name)
      secret_of (some v) = ok (text v)

  mutual
    unfolding evaluate secrets_in

    evaluate-Agree : (e : Expr) → Agree (secrets_in e) → evaluate g c e ≡ evaluate g other_context e
    evaluate-Agree (literal v) h = refl
    evaluate-Agree (ref path) h = resolve_ref-Agree path h
    evaluate-Agree (binary op left right) h = λ i.
        evaluate-Agree left (Agree-left (secrets_in left) (secrets_in right) h) i >>= λ l.
        evaluate-Agree right (Agree-right (secrets_in left) (secrets_in right) h) i >>= λ r.
        eval_binary g op l r
    evaluate-Agree (unary op operand) h = λ i. evaluate-Agree operand h i >>= λ v. eval_unary g op v
    evaluate-Agree (conditional cond on_true on_false) h =
        let branches =
          Agree-right (secrets_in cond) (secrets_in on_true ++ secrets_in on_false) h in
        λ i.
          evaluate-Agree cond
            (Agree-left (secrets_in cond) (secrets_in on_true ++ secrets_in on_false) h) i
          >>= λ v. elim (to_bool g v) [
            | true ↦
                evaluate-Agree on_true
                  (Agree-left (secrets_in on_true) (secrets_in on_false) branches) i
            | false ↦
                evaluate-Agree on_false
                  (Agree-right (secrets_in on_true) (secrets_in on_false) branches) i
          ]
    evaluate-Agree (func_call name args) h =
        λ i. evaluate_all-Agree args h i >>= λ vs. call g name vs
    evaluate-Agree (index obj idx) h = λ i.
        evaluate-Agree obj (Agree-left (secrets_in obj) (secrets_in idx) h) i >>= λ o.
        evaluate-Agree idx (Agree-right (secrets_in obj) (secrets_in idx) h) i >>= λ x.
        index_access g o x

    evaluate_all-Agree :
        (es : Exprs)
        → Agree (secrets_in_all es)
        → evaluate_all g c es ≡ evaluate_all g other_context es
    evaluate_all-Agree no_exprs h = refl
    evaluate_all-Agree (expr_then e es) h = λ i.
        evaluate-Agree e (Agree-left (secrets_in e) (secrets_in_all es) h) i >>= λ v.
        evaluate_all-Agree es (Agree-right (secrets_in e) (secrets_in_all es) h) i >>= λ vs.
        ok (v ∷ vs)

  -- Evaluation depends on the secrets only through those that the expression names: two contexts that
  -- agree on them, and on all else, give the same value or the same error.
  pub evaluate_secrets :
      (e : Expr)
      → ((k : String) → 0 < count k (secrets_in e) → lookup k c.secrets ≡ lookup k others)
      → evaluate g c e ≡ evaluate g (record c { secrets = others }) e
  evaluate_secrets e h = evaluate-Agree e h
