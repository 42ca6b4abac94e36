-- ===== src/Huml/Chars.antt =====
-- internal/huml/parser.go: what `exprParser` reads of its text character by character. The part of
-- `input` from `pos` on is the text that is left.
pub mod Shrink
use Prim.Native.Char.{Char, code}
use Prim.Native.String.{[], ◌∷◌}
use flow_ctl.Prelude.{
  ℕ, String, Bool, true, false, Option, none, some, ◌&&◌, ◌||◌, not, eqb, if◌then◌else◌,
}
use flow_ctl.Huml.Scan.{is, is_digit, is_letter}

-- A part that was read, and what is left.
pub record Part : Type 0 where
  pub text : String
  pub rest : String

abbrev pub before : Char → Part → Part
before c p = record p { text = c ∷ p.text }

abbrev pub before? : Char → Option Part → Option Part
before? c none = none
before? c (some p) = some (before c p)

unfoldable pub skip_whitespace : String → String
skip_whitespace [] = []
skip_whitespace (c ∷ s) =
    let more = skip_whitespace s in if is c b' ' || is c b'\t' then more else c ∷ s

abbrev pub continues_ident : Char → Bool
continues_ident c = is_letter c || is_digit c || is c b'_'

unfoldable pub read_ident : String → Part
unfolding is_letter is_digit
read_ident [] = record { text = []; rest = [] }
read_ident (c ∷ s) =
    let more = before c (read_ident s) in
    let stop : Part = record { text = []; rest = c ∷ s } in if continues_ident c then more else stop

-- What follows the character `n`, if it stands next.
abbrev pub after : (n : ℕ) → String → Option String
after n [] = none
after n (c ∷ s) = if is c n then some s else none

-- `matchStr`: what follows `prefix`, if it stands next.
unfoldable pub match_str : (prefix : String) → String → Option String
match_str [] s = some s
match_str (c ∷ p) [] = none
match_str (c ∷ p) (d ∷ s) = let more = match_str p s in if is d (code c) then more else none

-- The loop of `parseStringLiteral` behind the opening quote, after a backslash or not.
unfoldable pub scan_literal : (quote : ℕ) → (escaped : Bool) → String → Option Part
scan_literal quote escaped [] = none
scan_literal quote escaped (c ∷ s) =
    let more = scan_literal quote (is c b'\\' && not escaped) s in
    if escaped
    then before? c more
    else if is c b'\\'
    then more
    else if is c quote
    then some (record { text = []; rest = s })
    else before? c more

-- The loop of `parseNumberLiteral` behind the sign.
unfoldable pub scan_digits : String → Part
unfolding is_digit
scan_digits [] = record { text = []; rest = [] }
scan_digits (c ∷ s) =
    let more = before c (scan_digits s) in
    let stop : Part = record { text = []; rest = c ∷ s } in
    if is_digit c || is c b'.' then more else stop

unfoldable pub read_number : String → Part
unfolding scan_digits
read_number [] = record { text = []; rest = [] }
read_number (c ∷ s) = if is c b'-' then before c (scan_digits s) else scan_digits (c ∷ s)
