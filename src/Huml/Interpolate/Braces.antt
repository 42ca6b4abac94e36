-- ===== src/Huml/Interpolate/Braces.antt =====
-- internal/huml/evaluator.go: the inner loop of `EvaluateString`, up to the closing brace.
use Prim.Native.Char.{Char}
use Prim.Native.String.{[], ◌∷◌}
use flow_ctl.Prelude.{ℕ, ◌≤◌, String, ◌&&◌, eqb, if◌then◌else◌, arith}
use flow_ctl.Huml.Scan.{is, nesting}
use flow_ctl.Huml.Scan.Shorter.{size}
use flow_ctl.Huml.Chars.{Part, before}

abbrev pub char_then : Char → String → String
char_then c s = c ∷ s

-- At `depth` = `inner` + 1: the text of the expression, and what follows its brace. Without a closing
-- brace the expression is all that is left.
unfoldable pub until_brace : (inner : ℕ) → String → Part
until_brace inner [] = record { text = []; rest = [] }
until_brace inner (c ∷ s) =
    let more = before c (until_brace (nesting c inner) s) in
    let stop : Part = record { text = []; rest = s } in
    if is c b'}' && eqb inner 0 then stop else more

pub until_brace-le : (inner : ℕ) (s : String) → size (until_brace inner s).rest ≤ size s
unfolding until_brace
until_brace-le inner [] = omega arith
until_brace-le inner (c ∷ s) = ground (arith, until_brace-le (nesting c inner) s)
