-- ===== src/Huml/Evaluate/Values.antt =====
-- internal/huml/evaluator.go: `toBool`, `toFloat`, `toNumeric`, and what Go's libraries compute.
use Prim.Native.Char.{code}
use Prim.Native.String.{[], ◌∷◌}
use flow_ctl.Prelude.{
  ℕ, zero, suc, ◌%◌, String, Bool, true, false, Option, none, some, List, ◌==◌, ◌&&◌, ◌||◌, not,
  eqb, if◌then◌else◌,
}
use flow_ctl.Model.Value.{ℤ, pos, negsuc, Value, null, bool, float64, int, int64, text}

-- The operations on float64, as bits; `int64(f)`; `fmt.Sscanf(s, "%f", &f)`, 0 if it fails; `%v` of a
-- value; and `strings.ToUpper` and `strings.ToLower`.
pub record Library : Type 0 where
  pub add : ℕ → ℕ → ℕ
  pub sub : ℕ → ℕ → ℕ
  pub mul : ℕ → ℕ → ℕ
  pub div : ℕ → ℕ → ℕ
  pub neg : ℕ → ℕ
  pub lt : ℕ → ℕ → Bool
  pub le : ℕ → ℕ → Bool
  pub is_zero : ℕ → Bool
  pub of_int : ℤ → ℕ
  pub to_int64 : ℕ → ℤ
  pub scan_float : String → ℕ
  pub format : Value → String
  pub to_upper : String → String
  pub to_lower : String → String

abbrev pub is_zero_int : ℤ → Bool
is_zero_int (pos zero) = true
is_zero_int _ = false

-- Go's `%` has the sign of the dividend.
abbrev pub magnitude : ℤ → ℕ
magnitude (pos n) = n
magnitude (negsuc n) = suc n

abbrev pub negated : ℕ → ℤ
negated zero = pos 0
negated (suc n) = negsuc n

unfoldable pub remainder : ℤ → ℤ → ℤ
remainder (pos n) b = pos (n % magnitude b)
remainder (negsuc n) b = negated (suc n % magnitude b)

-- `strings.HasPrefix(s, p)` and `strings.Contains(s, t)`
abbrev pub has_prefix : (p s : String) → Bool
has_prefix [] s = true
has_prefix (c ∷ p) [] = false
has_prefix (c ∷ p) (d ∷ s) = eqb (code c) (code d) && has_prefix p s

abbrev pub contains_text : (s t : String) → Bool
contains_text [] t = has_prefix t []
contains_text (c ∷ s) t = has_prefix t (c ∷ s) || contains_text s t

abbrev get_elem? : {A : Type 0} → List A → ℕ → Option A
get_elem? List.[] i = none
get_elem? (List.◌∷◌ x xs) zero = some x
get_elem? (List.◌∷◌ x xs) (suc i) = get_elem? xs i

-- The element at an index from 0 on.
abbrev pub array_get : {A : Type 0} → ℤ → List A → Option A
array_get (pos i) xs = get_elem? xs i
array_get (negsuc i) xs = none

module _ (g : Library) where
  unfoldable pub to_bool : Value → Bool
  to_bool (bool b) = b
  to_bool null = false
  to_bool (text s) = not (s == "")
  to_bool (float64 f) = not (g.is_zero f)
  to_bool (int n) = not (is_zero_int n)
  to_bool (int64 n) = not (is_zero_int n)
  to_bool _ = true

  unfoldable pub to_float : Value → ℕ
  to_float (float64 f) = f
  to_float (int n) = g.of_int n
  to_float (int64 n) = g.of_int n
  to_float (text s) = g.scan_float s
  to_float (bool b) = if b then g.of_int (pos 1) else 0
  to_float _ = 0

  unfoldable pub to_numeric : Value → Option ℕ
  to_numeric (float64 f) = some f
  to_numeric (int n) = some (g.of_int n)
  to_numeric (int64 n) = some (g.of_int n)
  to_numeric _ = none

  -- `int(f)` is `int64(f)` on the platforms of the program.
  abbrev pub int_of : ℕ → ℤ
  int_of f = g.to_int64 f
