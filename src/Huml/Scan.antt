-- ===== src/Huml/Scan.antt =====
-- internal/huml/lexer.go: the loops over the characters of one token. Each takes what is left of
-- the input and gives the token's text, what is left behind it, and the position there.
pub mod Shorter
pub mod Quoted
use Prim.Native.Char.{Char, code}
use Prim.Native.String.{[], ◌∷◌}
use flow_ctl.Prelude.{
  ℕ, suc, ◌+◌, ◌-◌, String, List, Bool, true, false, Option, none, some, ◌&&◌, ◌||◌, not, eqb, leb,
  if◌then◌else◌,
}

abbrev pub is : Char → ℕ → Bool
is c n = eqb (code c) n

unfoldable pub is_digit : Char → Bool
is_digit c = leb b'0' (code c) && leb (code c) b'9'

unfoldable pub is_letter : Char → Bool
is_letter c =
    leb b'a' (code c) && leb (code c) b'z' || leb b'A' (code c) && leb (code c) b'Z' || is c b'_'

-- `l.input[l.pos]` and what follows it.
abbrev pub uncons : String → Option (Char × String)
uncons [] = none
uncons (c ∷ s) = some (c, s)

abbrev pub next_is : (Char → Bool) → String → Bool
next_is p [] = false
next_is p (c ∷ s) = p c

pub record Scanned : Type 0 where
  pub text : String
  pub rest : String
  pub line : ℕ
  pub col : ℕ

abbrev pub prefixed : Char → Scanned → Scanned
prefixed c t = record t { text = c ∷ t.text }

abbrev pub then_prefixed : Char → Option Scanned → Option Scanned
then_prefixed c none = none
then_prefixed c (some t) = some (prefixed c t)

-- What a backslash and `c` stand for.
unfoldable pub unescape : Char → Option Scanned → Option Scanned
unescape c t =
    if is c b'n'
    then then_prefixed "\n" t
    else if is c b't'
    then then_prefixed "\t" t
    else if is c b'"'
    then then_prefixed "\"" t
    else if is c b'\\'
    then then_prefixed "\\" t
    else then_prefixed "\\" (then_prefixed c t)

-- The loop of `readString`, in the middle of an escape or not; none if no quote closes the text.
unfoldable pub scan_string : (escaped : Bool) → (line col : ℕ) → String → Option Scanned
unfolding unescape
scan_string escaped line col [] = none
scan_string escaped line col (c ∷ s) =
    let breaks = is c b'\n' && not escaped in
    let more =
      scan_string (is c b'\\' && not escaped) (if breaks then line + 1 else line)
        (if breaks then 1 else col + 1) s in
    if escaped
    then unescape c more
    else if is c b'\\'
    then more
    else if is c b'"'
    then some (record { text = []; rest = s; line = line; col = col + 1 })
    else then_prefixed c more

abbrev pub nesting : Char → ℕ → ℕ
nesting c inner = if is c b'{' then suc inner else if is c b'}' then inner - 1 else inner

-- The loop of `readExpression`, at `depth` = `inner` + 1. The line stays as it was.
unfoldable pub scan_expression : (inner line col : ℕ) → String → Option Scanned
scan_expression inner line col [] = none
scan_expression inner line col (c ∷ s) =
    let more = scan_expression (nesting c inner) line (col + 1) s in
    if is c b'}' && eqb inner 0
    then some (record { text = []; rest = s; line = line; col = col + 1 })
    else then_prefixed c more

-- The loop of `readNumber` behind the sign.
unfoldable pub scan_number : (has_decimal : Bool) → (line col : ℕ) → String → Scanned
unfolding is_digit
scan_number has_decimal line col [] = record { text = []; rest = []; line = line; col = col }
scan_number has_decimal line col (c ∷ s) =
    let more = prefixed c (scan_number (has_decimal || not (is_digit c)) line (col + 1) s) in
    let stop : Scanned = record { text = []; rest = c ∷ s; line = line; col = col } in
    if is_digit c || is c b'.' && not has_decimal then more else stop

unfoldable pub continues_name : Char → Bool
unfolding is_letter is_digit
continues_name c = is_letter c || is_digit c || is c b'_' || is c b'-'

-- The loop of `readIdentifier`.
unfoldable pub scan_name : (line col : ℕ) → String → Scanned
unfolding continues_name
scan_name line col [] = record { text = []; rest = []; line = line; col = col }
scan_name line col (c ∷ s) =
    let more = prefixed c (scan_name line (col + 1) s) in
    let stop : Scanned = record { text = []; rest = c ∷ s; line = line; col = col } in
    if continues_name c then more else stop

-- `skipComment`; the text is what it skips.
unfoldable pub skip_comment : (line col : ℕ) → String → Scanned
skip_comment line col [] = record { text = []; rest = []; line = line; col = col }
skip_comment line col (c ∷ s) =
    let more = prefixed c (skip_comment line (col + 1) s) in
    let stop : Scanned = record { text = []; rest = c ∷ s; line = line; col = col } in
    if is c b'\n' then stop else more

-- The values of the digits in a text.
abbrev pub digits_of : String → List ℕ
unfolding is_digit
digits_of [] = List.[]
digits_of (c ∷ s) =
    let rest = digits_of s in if is_digit c then List.◌∷◌ (code c - b'0') rest else rest
