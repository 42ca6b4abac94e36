-- ===== src/Huml/Expr/Total.antt =====
-- internal/huml/parser.go: `ParseExpression` comes to an end.
use Prim.Native.Char.{Char, code}
use flow_ctl.Prelude.{
  ◌≡◌, refl, ℕ, zero, suc, ◌≤◌, ◌<◌, String, Bool, true, false, Option, none, some, List, [], ◌∷◌,
  ◌++◌, ◌==◌, ◌&&◌, ◌||◌, arith, Result, ok, err,
}
use flow_ctl.Model.Value.{Value, float64}
use flow_ctl.Huml.Scan.{is, is_digit, is_letter, uncons, next_is}
use flow_ctl.Huml.Scan.Shorter.{size, size-uncons}
use flow_ctl.Huml.Chars.{
  Part, skip_whitespace, read_ident, after, match_str, scan_literal, read_number,
}
use flow_ctl.Huml.Chars.Shrink.{
  skip_whitespace-le, match_str-le, read_ident-le, Leaves, after-Leaves, LeavesPart,
  scan_literal-LeavesPart, read_number-le,
}
use flow_ctl.Huml.Ast.{Expr, literal, binary, unary, func_call, conditional, exprs_of}
use flow_ctl.Huml.Expr.{
  ExprError, expected_colon, unexpected_end, expected_paren, expected_identifier,
  expected_end_of_args, unterminated_literal, invalid_number, unfinished, Parser, ◌>>=◌,
  comparisons, comparison_ops, parse_comparison, dot_chain, parse_path, parse_string_literal,
  word_literal, parse_unary, parse_number_literal, args_loop, parse_func_call, parse_ref,
  parse_parens, primary_at, parse_primary, parse_or, parse_branches, parse_ternary, parse_expr,
  parse_expression,
}
use flow_ctl.Huml.Expr.Ends.{
  IsMessage, Ends, Ends-bind, Ends-weaken, Ends-if, Good, addition_op-Takes,
  multiplication_op-Takes, or_op-Takes, and_op-Takes, binary_level-Good,
}

-- How a parser goes on behind a character that it looks for.
by_after :
    {A : Type 0} (c n : ℕ) (s : String) (no_more : Result ExprError (A × String)) (more : Parser A)
    → Ends n no_more
    → ((rest : String) → size rest < size s → Ends n (more rest))
    → Ends n (elim (after c s) [ none ↦ no_more | some rest ↦ more rest ])
by_after {A} c n s no_more more h k = on (after c s) (after-Leaves c s)
  where
    on :
        (o : Option String)
        → Leaves (size s) o
        → Ends n (elim o [ none ↦ no_more | some rest ↦ more rest ])
    on none l = h
    on (some rest) l = k rest l

module _ (n : ℕ) (operand : Parser Expr) (good : Good n operand) where
  comparisons-Ends :
      (ops : List String) (left : Expr) (s : String)
      → size s ≤ n
      → Ends (suc (size s)) (comparisons operand ops left s)
  unfolding comparisons
  comparisons-Ends [] left s small = omega arith
  comparisons-Ends (op ∷ ops) left s small =
      by_op (match_str op s) (match_str-le op s) (comparisons-Ends ops)
    where
      by_op :
          (o : Option String)
          → Leaves (suc (size s)) o
          → ((e : Expr) (s' : String)
              → size s' ≤ n
              → Ends (suc (size s')) (comparisons operand ops e s'))
          → Ends (suc (size s)) (elim o [
            | none ↦ comparisons operand ops left s
            | some rest ↦ operand rest >>= λ right s'.
                comparisons operand ops (binary op left right) (skip_whitespace s')
          ])
      by_op none l on = on left s small
      by_op (some rest) l on =
          Ends-bind (suc (size rest)) (suc (size s)) (operand rest) _ (good rest (omega arith))
            (λ right s' k.
              Ends-weaken (suc (size (skip_whitespace s'))) (suc (size s)) _
                (omega (arith, l, k, skip_whitespace-le s'))
                (on (binary op left right) (skip_whitespace s')
                  (omega (arith, l, k, skip_whitespace-le s'))))

  parse_comparison-Good : Good n (parse_comparison operand)
  unfolding parse_comparison
  parse_comparison-Good s small =
      Ends-bind (suc (size s)) (suc (size s)) (operand s) _ (good s small) (λ left s' k.
        Ends-weaken (suc (size (skip_whitespace s'))) (suc (size s)) _
          (omega (arith, k, skip_whitespace-le s'))
          (comparisons-Ends comparison_ops left (skip_whitespace s')
            (omega (arith, k, skip_whitespace-le s'))))

dot_chain-Ends :
    (fuel : ℕ) (path : List String) (s : String)
    → size s ≤ fuel
    → Ends (suc (size s)) (dot_chain fuel path s)
unfolding dot_chain
dot_chain-Ends zero path s h =
    by_after b'.' (suc (size s)) s (ok (path, s)) (λ rest. err unfinished) (omega arith)
      (λ rest l. absurd (omega (arith, l)))
dot_chain-Ends (suc fuel) path s h =
    by_after b'.' (suc (size s)) s (ok (path, s)) (more (dot_chain fuel)) (omega arith)
      (λ rest l. by_name rest l ((read_ident rest).text == "") (dot_chain-Ends fuel))
  where
    more : (List String → Parser (List String)) → Parser (List String)
    more on rest = elim ((read_ident rest).text == "") [
      | true ↦ err expected_identifier
      | false ↦ on (path ++ (read_ident rest).text ∷ []) (read_ident rest).rest
    ]

    by_name :
        (rest : String)
        → size rest < size s
        → (b : Bool)
        → ((p : List String) (s' : String)
            → size s' ≤ fuel
            → Ends (suc (size s')) (dot_chain fuel p s'))
        → Ends (suc (size s)) (elim b [
          | true ↦ err expected_identifier
          | false ↦ dot_chain fuel (path ++ (read_ident rest).text ∷ []) (read_ident rest).rest
        ])
    by_name rest l true on = tt
    by_name rest l false on =
        Ends-weaken (suc (size (read_ident rest).rest)) (suc (size s)) _
          (omega (arith, l, read_ident-le rest))
          (on _ (read_ident rest).rest (omega (arith, h, l, read_ident-le rest)))

parse_path-Ends : (ident s : String) → Ends (suc (size s)) (parse_path ident s)
unfolding parse_path
parse_path-Ends ident s =
    Ends-bind (suc (size s)) (suc (size s)) (dot_chain (size s) (ident ∷ []) s) _
      (dot_chain-Ends (size s) (ident ∷ []) s (omega arith)) (λ path s' k. k)

parse_string_literal-Ends :
    (quote : Char) (s : String) → Ends (suc (size s)) (parse_string_literal quote s)
unfolding parse_string_literal
parse_string_literal-Ends quote s =
    on (scan_literal (code quote) false s) (scan_literal-LeavesPart (code quote) false s)
  where
    on :
        (o : Option Part)
        → LeavesPart (suc (size s)) o
        → Ends (suc (size s)) (elim o [
          | none ↦ err unterminated_literal
          | some p ↦ ok (literal (Value.text p.text), p.rest)
        ])
    on none l = tt
    on (some p) l = l

module _ (n : ℕ) (primary : Parser Expr) (good : Good n primary) where
  parse_unary-Ends :
      (fuel : ℕ) (s : String)
      → size s ≤ fuel
      → size s ≤ n
      → Ends (suc (size s)) (parse_unary primary fuel s)
  unfolding parse_unary
  parse_unary-Ends zero s h small =
      by_after b'!' (suc (size s)) (skip_whitespace s) (primary (skip_whitespace s))
        (λ rest. err unfinished)
        (Ends-weaken (suc (size (skip_whitespace s))) _ _ (omega (arith, skip_whitespace-le s))
          (good (skip_whitespace s) (omega (arith, skip_whitespace-le s))))
        (λ rest l. absurd (omega (arith, l, skip_whitespace-le s)))
  parse_unary-Ends (suc fuel) s h small =
      let on = parse_unary-Ends fuel in
      by_after b'!' (suc (size s)) (skip_whitespace s) (primary (skip_whitespace s))
        (λ rest. parse_unary primary fuel rest >>= λ operand s'. ok (unary "!" operand, s'))
        (Ends-weaken (suc (size (skip_whitespace s))) _ _ (omega (arith, skip_whitespace-le s))
          (good (skip_whitespace s) (omega (arith, skip_whitespace-le s))))
        (λ rest l.
          Ends-bind (suc (size rest)) (suc (size s)) (parse_unary primary fuel rest) _
            (on rest (omega (arith, l, h, skip_whitespace-le s))
              (omega (arith, l, small, skip_whitespace-le s)))
            (λ operand s' k. omega (arith, k, l, skip_whitespace-le s)))

module _ (parse_float : String → Option ℕ) where
  parse_number_literal-Ends :
      (s : String) → Ends (suc (size s)) (parse_number_literal parse_float s)
  unfolding parse_number_literal
  parse_number_literal-Ends s = on (parse_float (read_number s).text)
    where
      on :
          (o : Option ℕ)
          → Ends (suc (size s)) (elim o [
            | none ↦ err (invalid_number (read_number s).text)
            | some f ↦ ok (literal (float64 f), (read_number s).rest)
          ])
      on none = tt
      on (some f) = omega (arith, read_number-le s)

  -- `nested` ends on texts of less than `n` characters.
  module _ (nested : Parser Expr) (n : ℕ)
      (inner : (s : String) → size s < n → Ends (suc (size s)) (nested s)) where
    args_loop-Ends :
        (fuel : ℕ) (args : List Expr) (s : String)
        → size s < fuel
        → size s < n
        → Ends (suc (size s)) (args_loop parse_float nested fuel args s)
    unfolding args_loop
    args_loop-Ends zero args s h small = absurd (omega arith)
    args_loop-Ends (suc fuel) args s h small =
        let on = args_loop-Ends fuel in
        Ends-bind (suc (size (skip_whitespace s))) (suc (size s)) (nested (skip_whitespace s)) _
          (inner (skip_whitespace s) (omega (arith, skip_whitespace-le s)))
          (λ arg s' k.
            by_after b',' (suc (size s)) (skip_whitespace s')
              (ok (args ++ arg ∷ [], skip_whitespace s'))
              (λ rest. args_loop parse_float nested fuel (args ++ arg ∷ []) rest)
              (omega (arith, k, skip_whitespace-le s, skip_whitespace-le s'))
              (λ rest l.
                Ends-weaken (suc (size rest)) (suc (size s)) _
                  (omega (arith, k, l, skip_whitespace-le s, skip_whitespace-le s'))
                  (on (args ++ arg ∷ []) rest
                    (omega (arith, h, k, l, skip_whitespace-le s, skip_whitespace-le s'))
                    (omega (arith, small, k, l, skip_whitespace-le s, skip_whitespace-le s')))))

    parse_func_call-Ends :
        (name s : String)
        → size s < n
        → Ends (suc (size s)) (parse_func_call parse_float nested name s)
    unfolding parse_func_call
    parse_func_call-Ends name s small =
        by_after b')' (suc (size s)) (skip_whitespace s)
          (args_loop parse_float nested (suc (size s)) [] (skip_whitespace s) >>= close)
          (λ rest. ok (func_call name (exprs_of []), rest))
          (Ends-bind (suc (size (skip_whitespace s))) (suc (size s))
            (args_loop parse_float nested (suc (size s)) [] (skip_whitespace s)) close
            (args_loop-Ends (suc (size s)) [] (skip_whitespace s)
              (omega (arith, skip_whitespace-le s)) (omega (arith, small, skip_whitespace-le s)))
            (λ args s' k.
              by_after b')' (suc (size s)) (skip_whitespace s') (err expected_end_of_args)
                (λ rest. ok (func_call name (exprs_of args), rest)) tt
                (λ rest l. omega (arith, k, l, skip_whitespace-le s, skip_whitespace-le s'))))
          (λ rest l. omega (arith, l, skip_whitespace-le s))
      where
        close : List Expr → Parser Expr
        close args s' = elim (after b')' (skip_whitespace s')) [
          | none ↦ err expected_end_of_args
          | some rest ↦ ok (func_call name (exprs_of args), rest)
        ]

    parse_ref-Ends :
        (s : String) → size s ≤ n → Ends (suc (size s)) (parse_ref parse_float nested s)
    unfolding parse_ref
    parse_ref-Ends s small = by_word (word_literal (read_ident s).text)
      where
        path_or_call : Ends (suc (size s)) (elim (after b'(' (read_ident s).rest) [
          | some args ↦ parse_func_call parse_float nested (read_ident s).text args
          | none ↦ parse_path (read_ident s).text (read_ident s).rest
        ])
        path_or_call =
            by_after b'(' (suc (size s)) (read_ident s).rest
              (parse_path (read_ident s).text (read_ident s).rest)
              (parse_func_call parse_float nested (read_ident s).text)
              (Ends-weaken (suc (size (read_ident s).rest)) (suc (size s)) _
                (omega (arith, read_ident-le s))
                (parse_path-Ends (read_ident s).text (read_ident s).rest))
              (λ args l.
                Ends-weaken (suc (size args)) (suc (size s)) _ (omega (arith, l, read_ident-le s)) (
                  parse_func_call-Ends (read_ident s).text args
                    (omega (arith, l, small, read_ident-le s))))

        by_word :
            (o : Option Value)
            → Ends (suc (size s)) (elim o [
              | some v ↦ ok (literal v, (read_ident s).rest)
              | none ↦ elim (after b'(' (read_ident s).rest) [
                | some args ↦ parse_func_call parse_float nested (read_ident s).text args
                | none ↦ parse_path (read_ident s).text (read_ident s).rest
              ]
            ])
        by_word (some v) = omega (arith, read_ident-le s)
        by_word none = path_or_call

    parse_parens-Ends :
        (s : String) → size s < n → Ends (suc (size s)) (parse_parens parse_float nested s)
    unfolding parse_parens
    parse_parens-Ends s small =
        Ends-bind (suc (size s)) (suc (size s)) (nested s) _ (inner s small) (λ e s' k.
          by_after b')' (suc (size s)) (skip_whitespace s') (err expected_paren)
            (λ rest. ok (e, rest)) tt (λ rest l. omega (arith, k, l, skip_whitespace-le s')))

    parse_primary-Good : Good n (parse_primary parse_float nested)
    unfolding parse_primary primary_at
    parse_primary-Good s small = by_head (uncons (skip_whitespace s)) refl
      where
        at_head :
            (c : Char) (rest : String)
            → size (skip_whitespace s) ≡ suc (size rest)
            → Ends (suc (size s)) (primary_at parse_float nested c rest (skip_whitespace s))
        at_head c rest e =
            let shorter =
              λ (r : Result ExprError (Expr × String)) (m : ℕ) (l : m ≤ size s)
                  (h : Ends (suc m) r).
                Ends-weaken (suc m) (suc (size s)) r (omega (arith, l)) h in
            let all : size (skip_whitespace s) ≤ size s = skip_whitespace-le s in
            Ends-if (is c b'(') (suc (size s)) _ _
              (shorter _ (size rest) (omega arith) (parse_parens-Ends rest (omega arith)))
              (Ends-if (is c b'\'' || is c b'"') (suc (size s)) _ _
                (shorter _ (size rest) (omega arith) (parse_string_literal-Ends c rest))
                (Ends-if (is_digit c || is c b'-' && next_is is_digit rest) (suc (size s)) _ _
                  (shorter _ (size (skip_whitespace s)) all
                    (parse_number_literal-Ends (skip_whitespace s)))
                  (Ends-if (is_letter c || is c b'_') (suc (size s)) _ _
                    (shorter _ (size (skip_whitespace s)) all
                      (parse_ref-Ends (skip_whitespace s) (omega (arith, small))))
                    tt)))

        by_head :
            (o : Option (Char × String))
            → uncons (skip_whitespace s) ≡ o
            → Ends (suc (size s)) (elim o [
              | none ↦ err unexpected_end
              | some (c, rest) ↦ primary_at parse_float nested c rest (skip_whitespace s)
            ])
        by_head none e = tt
        by_head (some (c, rest)) e = at_head c rest (size-uncons (skip_whitespace s) c rest e)

    parse_or-Good : Good n (parse_or parse_float nested)
    unfolding parse_or
    parse_or-Good = binary_level-Good n _ or_op-Takes _ (
        binary_level-Good n _ and_op-Takes _ (
          parse_comparison-Good n _ (
            binary_level-Good n _ addition_op-Takes _ (
              binary_level-Good n _ multiplication_op-Takes _ (λ s small.
                parse_unary-Ends n _ parse_primary-Good (size s) s (omega arith) small)))))

    parse_branches-Ends :
        (cond : Expr) (s : String)
        → size s < n
        → Ends (suc (size s)) (parse_branches parse_float nested cond s)
    unfolding parse_branches
    parse_branches-Ends cond s small =
        Ends-bind (suc (size (skip_whitespace s))) (suc (size s)) (nested (skip_whitespace s)) _
          (inner (skip_whitespace s) (omega (arith, skip_whitespace-le s)))
          (λ on_true s₁ k.
            by_after b':' (suc (size s)) (skip_whitespace s₁) (err expected_colon)
              (λ rest. nested (skip_whitespace rest) >>= λ on_false s₂.
                ok (conditional cond on_true on_false, s₂))
              tt
              (λ rest l.
                Ends-bind (suc (size (skip_whitespace rest))) (suc (size s))
                  (nested (skip_whitespace rest)) _
                  (inner (skip_whitespace rest) (
                    omega (
                      arith,
                      small,
                      k,
                      l,
                      skip_whitespace-le s,
                      skip_whitespace-le s₁,
                      skip_whitespace-le rest,
                    )))
                  (λ on_false s₂ j. omega (
                    arith,
                    j,
                    k,
                    l,
                    skip_whitespace-le s,
                    skip_whitespace-le s₁,
                    skip_whitespace-le rest,
                  ))))

    parse_ternary-Ends :
        (s : String) → size s ≤ n → Ends (suc (size s)) (parse_ternary parse_float nested s)
    unfolding parse_ternary
    parse_ternary-Ends s small =
        Ends-bind (suc (size s)) (suc (size s)) (parse_or parse_float nested s) _
          (parse_or-Good s small)
          (λ e s' k.
            by_after b'?' (suc (size s)) (skip_whitespace s') (ok (e, skip_whitespace s'))
              (parse_branches parse_float nested e) (omega (arith, k, skip_whitespace-le s'))
              (λ rest l.
                Ends-weaken (suc (size rest)) (suc (size s)) _
                  (omega (arith, k, l, skip_whitespace-le s'))
                  (parse_branches-Ends e rest (omega (arith, small, k, l, skip_whitespace-le s')))))

  parse_expr-Ends :
      (fuel : ℕ) (s : String) → size s < fuel → Ends (suc (size s)) (parse_expr parse_float fuel s)
  unfolding parse_expr
  parse_expr-Ends zero s h = absurd (omega arith)
  parse_expr-Ends (suc fuel) s h =
      parse_ternary-Ends (parse_expr parse_float fuel) fuel (λ t l. parse_expr-Ends fuel t l) s
        (omega (arith, h))

  abbrev pub EndsExpr : Result ExprError Expr → Type 0
  EndsExpr (ok e) = Unit
  EndsExpr (err e) = IsMessage e

  pub parse_expression-Ends : (input : String) → EndsExpr (parse_expression parse_float input)
  unfolding parse_expression
  parse_expression-Ends input =
      on (parse_expr parse_float (suc (size input)) input)
        (parse_expr-Ends (suc (size input)) input (omega arith))
    where
      on :
          (r : Result ExprError (Expr × String))
          → Ends (suc (size input)) r
          → EndsExpr (elim r [ err e ↦ err e | ok (e, rest) ↦ ok e ])
      on (ok (e, rest)) h = tt
      on (err e) h = h
