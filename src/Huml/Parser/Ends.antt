-- ===== src/Huml/Parser/Ends.antt =====
-- internal/huml/parser.go: how the parsers of tokens end.
use flow_ctl.Prelude.{
  ◌≡◌, refl, ℕ, ◌≤◌, ◌<◌, Bool, true, false, List, [], ◌∷◌, arith, length, if◌then◌else◌, Result,
  ok, err,
}
use flow_ctl.Huml.Lexer.{TokenType, Token}
use flow_ctl.Huml.Expr.Ends as Expressions
use flow_ctl.Huml.Parser.{
  Message, invalid_expression, ParserError, parse_error, unfinished, Parser, ◌>>=◌, is_type,
  current_type, current_is, advance, expect, skip_newlines, skip_comma, optional_name,
}

abbrev IsText : Message → Type 0
IsText (invalid_expression e) = Expressions.IsMessage e
IsText _ = Unit

-- An error of the source.
abbrev pub IsMessage : ParserError → Type 0
IsMessage unfinished = ⊥
IsMessage (parse_error position message) = IsText message

-- Less than `n` tokens are left, or the error is one of the source.
abbrev pub Ends : {A : Type 0} → ℕ → Result ParserError (A × List Token) → Type 0
Ends n (ok (a, ts)) = length ts < n
Ends n (err e) = IsMessage e

module _ {A B : Type 0} where
  pub Ends-bind :
      (n m : ℕ) (r : Result ParserError (A × List Token)) (f : A → Parser B)
      → Ends n r
      → ((a : A) (ts : List Token) → length ts < n → Ends m (f a ts))
      → Ends m (r >>= f)
  Ends-bind n m (ok (a, ts)) f h k = k a ts h
  Ends-bind n m (err e) f h k = h

module _ {A : Type 0} where
  pub Ends-weaken :
      (n m : ℕ) (r : Result ParserError (A × List Token)) → n ≤ m → Ends n r → Ends m r
  Ends-weaken n m (ok (a, ts)) l h = omega arith
  Ends-weaken n m (err e) l h = h

  pub Ends-if :
      (b : Bool) (n : ℕ) (r q : Result ParserError (A × List Token))
      → (b ≡ true → Ends n r)
      → (b ≡ false → Ends n q)
      → Ends n (if b then r else q)
  Ends-if true n r q hr hq = hr refl
  Ends-if false n r q hr hq = hq refl

pub advance-le : (ts : List Token) → length (advance ts) ≤ length ts
unfolding advance
advance-le [] = omega arith
advance-le (t ∷ ts) = omega arith

-- A token of a type other than the end mark is taken.
pub advance-lt :
    (type : TokenType) (ts : List Token)
    → is_type TokenType.eof type ≡ false
    → current_is type ts ≡ true
    → length (advance ts) < length ts
unfolding advance current_type
advance-lt type [] no_eof here = absurd (ground arith)
advance-lt type (t ∷ ts) no_eof here = omega arith

pub expect-Ends :
    (type : TokenType) (ts : List Token)
    → is_type TokenType.eof type ≡ false
    → Ends (length ts) (expect type ts)
unfolding expect
expect-Ends type ts no_eof =
    Ends-if (current_is type ts) (length ts) _ _ (λ here. advance-lt type ts no_eof here) (λ _. tt)

pub skip_newlines-le : (ts : List Token) → length (skip_newlines ts) ≤ length ts
unfolding skip_newlines
skip_newlines-le [] = omega arith
skip_newlines-le (t ∷ ts) = ground (arith, skip_newlines-le ts)

pub skip_comma-le : (ts : List Token) → length (skip_comma ts) ≤ length ts
unfolding skip_comma
skip_comma-le ts = ground (arith, skip_newlines-le (advance ts), advance-le ts)

pub optional_name-le : (ts : List Token) → length (optional_name ts).1 ≤ length ts
unfolding optional_name
optional_name-le ts = ground (arith, advance-le ts)
