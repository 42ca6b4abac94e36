-- ===== src/Huml/Expr/Ends.antt =====
-- internal/huml/parser.go: how the parsers of an expression end, and the loops over operators.
use flow_ctl.Prelude.{
  ℕ, zero, suc, ◌≤◌, ◌<◌, String, Bool, true, false, Option, none, some, arith, if◌then◌else◌,
  Result, ok, err,
}
use flow_ctl.Huml.Scan.Shorter.{size}
use flow_ctl.Huml.Chars.{skip_whitespace, after, match_str}
use flow_ctl.Huml.Chars.Shrink.{skip_whitespace-le, Leaves, after-Leaves, match_str-Leaves}
use flow_ctl.Huml.Ast.{Expr, binary}
use flow_ctl.Huml.Expr.{
  ExprError, unfinished, Parser, ◌>>=◌, Operator, operator_text, addition_op, multiplication_op,
  binary_loop, binary_level,
}

-- An error of the source.
abbrev pub IsMessage : ExprError → Type 0
IsMessage unfinished = ⊥
IsMessage _ = Unit

-- Less than `n` characters are left, or the error is one of the source.
abbrev pub Ends : {A : Type 0} → ℕ → Result ExprError (A × String) → Type 0
Ends n (ok (a, s)) = size s < n
Ends n (err e) = IsMessage e

module _ {A B : Type 0} where
  pub Ends-bind :
      (n m : ℕ) (r : Result ExprError (A × String)) (f : A → Parser B)
      → Ends n r
      → ((a : A) (s : String) → size s < n → Ends m (f a s))
      → Ends m (r >>= f)
  Ends-bind n m (ok (a, s)) f h k = k a s h
  Ends-bind n m (err e) f h k = h

module _ {A : Type 0} where
  pub Ends-weaken : (n m : ℕ) (r : Result ExprError (A × String)) → n ≤ m → Ends n r → Ends m r
  Ends-weaken n m (ok (a, s)) l h = omega arith
  Ends-weaken n m (err e) l h = h

  pub Ends-if :
      (b : Bool) (n : ℕ) (r q : Result ExprError (A × String))
      → Ends n r
      → Ends n q
      → Ends n (if b then r else q)
  Ends-if true n r q hr hq = hr
  Ends-if false n r q hr hq = hq

-- On texts of at most `n` characters the parser ends and leaves no more than it was given.
abbrev pub Good : {A : Type 0} → ℕ → Parser A → Type 0
Good n p = (s : String) → size s ≤ n → Ends (suc (size s)) (p s)

-- An operator takes a character.
abbrev pub LeavesOp : ℕ → Option (String × String) → Type 0
LeavesOp n none = Unit
LeavesOp n (some (o, rest)) = size rest < n

abbrev pub Takes : Operator → Type 0
Takes op = (s : String) → LeavesOp (size s) (op s)

named-LeavesOp :
    (name : String) (n : ℕ) (o : Option String)
    → Leaves n o
    → LeavesOp n (elim o [ none ↦ none | some rest ↦ some (name, rest) ])
named-LeavesOp name n none h = tt
named-LeavesOp name n (some rest) h = h

or_else-LeavesOp :
    (name : String) (n : ℕ) (o : Option String) (p : Option (String × String))
    → Leaves n o
    → LeavesOp n p
    → LeavesOp n (elim o [ none ↦ p | some rest ↦ some (name, rest) ])
or_else-LeavesOp name n none p h k = k
or_else-LeavesOp name n (some rest) p h k = h

pub addition_op-Takes : Takes addition_op
addition_op-Takes s =
    or_else-LeavesOp "+" (size s) (after b'+' s) _ (after-Leaves b'+' s)
      (named-LeavesOp "-" (size s) (after b'-' s) (after-Leaves b'-' s))

pub multiplication_op-Takes : Takes multiplication_op
multiplication_op-Takes s = or_else-LeavesOp "*" (size s) (after b'*' s) _ (after-Leaves b'*' s) (
    or_else-LeavesOp "/" (size s) (after b'/' s) _ (after-Leaves b'/' s)
      (named-LeavesOp "%" (size s) (after b'%' s) (after-Leaves b'%' s)))

pub or_op-Takes : Takes (operator_text "||")
or_op-Takes s = named-LeavesOp "||" (size s) (match_str "||" s) (match_str-Leaves "|" "|" s)

pub and_op-Takes : Takes (operator_text "&&")
and_op-Takes s = named-LeavesOp "&&" (size s) (match_str "&&" s) (match_str-Leaves "&" "&" s)

module _ (n : ℕ) (op : Operator) (takes : Takes op) (operand : Parser Expr)
    (good : Good n operand) where
  binary_loop-Ends :
      (fuel : ℕ) (left : Expr) (s : String)
      → size s ≤ fuel
      → size s ≤ n
      → Ends (suc (size s)) (binary_loop op operand fuel left s)
  unfolding binary_loop
  binary_loop-Ends zero left s h small = by_op (op (skip_whitespace s)) (takes (skip_whitespace s))
    where
      by_op :
          (o : Option (String × String))
          → LeavesOp (size (skip_whitespace s)) o
          → Ends
              (suc (size s))
              (elim o [ none ↦ ok (left, skip_whitespace s) | some (o, rest) ↦ err unfinished ])
      by_op none l = omega (arith, skip_whitespace-le s)
      by_op (some (o, rest)) l = absurd (omega (arith, l, skip_whitespace-le s))
  binary_loop-Ends (suc fuel) left s h small =
      by_op (op (skip_whitespace s)) (takes (skip_whitespace s)) (binary_loop-Ends fuel)
    where
      by_op :
          (o : Option (String × String))
          → LeavesOp (size (skip_whitespace s)) o
          → ((e : Expr) (s' : String)
              → size s' ≤ fuel
              → size s' ≤ n
              → Ends (suc (size s')) (binary_loop op operand fuel e s'))
          → Ends (suc (size s)) (elim o [
            | none ↦ ok (left, skip_whitespace s)
            | some (o, rest) ↦
                operand rest >>= λ right s'. binary_loop op operand fuel (binary o left right) s'
          ])
      by_op none l on = omega (arith, skip_whitespace-le s)
      by_op (some (o, rest)) l on =
          Ends-bind (suc (size rest)) (suc (size s)) (operand rest) _
            (good rest (omega (arith, l, skip_whitespace-le s)))
            (λ right s' k.
              Ends-weaken (suc (size s')) (suc (size s)) _
                (omega (arith, l, k, skip_whitespace-le s))
                (on (binary o left right) s' (omega (arith, l, k, skip_whitespace-le s))
                  (omega (arith, l, k, skip_whitespace-le s))))

  pub binary_level-Good : Good n (binary_level op operand)
  unfolding binary_level
  binary_level-Good s small =
      Ends-bind (suc (size s)) (suc (size s)) (operand s) _ (good s small) (λ left s' k.
        Ends-weaken (suc (size s')) (suc (size s)) _ (omega (arith, k))
          (binary_loop-Ends (size s') left s' (omega arith) (omega (arith, k))))
