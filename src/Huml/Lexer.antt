-- ===== src/Huml/Lexer.antt =====
-- internal/huml/lexer.go: the tokens, and `Tokenize`. The part of `input` from `pos` on is `rest`.
pub mod Ends
pub mod Texts
use Prim.Native.Char.{Char}
use flow_ctl.Prelude.{
  ℕ, zero, suc, ◌+◌, String, Bool, true, false, Option, none, some, List, [], ◌∷◌, ◌++◌, ◌==◌, ◌&&◌,
  ◌||◌, if◌then◌else◌, Result, ok, err,
}
use flow_ctl.Huml.Scan.{
  is, is_digit, is_letter, uncons, next_is, Scanned, prefixed, scan_string, scan_expression,
  scan_number, scan_name, skip_comment,
}
use flow_ctl.Huml.Scan.Shorter.{size}

pub data TokenType : Type 0 where
  eof newline indent dedent identifier string number bool null block_start block_end assign colon
        comma :
      TokenType
  dot list_start list_end expression comment pipe : TokenType

pub record Token : Type 0 where
  pub type : TokenType
  pub value : String
  pub line : ℕ
  pub column : ℕ

-- The two errors of the source, at a line and a column, and that the fuel ran out.
pub data LexError : Type 0 where
  unterminated_string unterminated_expression : (line column : ℕ) → LexError
  unfinished : LexError

pub record Lexer : Type 0 where
  pub rest : String
  pub line : ℕ
  pub col : ℕ
  pub tokens : List Token

unfoldable pub new_lexer : String → Lexer
new_lexer input = record { rest = input; line = 1; col = 1; tokens = [] }

unfoldable pub emit : TokenType → String → Lexer → Lexer
emit type value l = record l {
  tokens = l.tokens ++ record { type = type; value = value; line = l.line; column = l.col } ∷ [];
}

-- `l.pos++; l.col++`, to what is left.
abbrev pub advance : String → Lexer → Lexer
advance rest l = record l { rest = rest; col = l.col + 1 }

abbrev pub break_line : String → Lexer → Lexer
break_line rest l = record l { rest = rest; line = l.line + 1; col = 1 }

-- The lexer behind what was scanned; the token starts where `l` stands.
abbrev pub behind : Scanned → Lexer → Lexer
behind t l = record l { rest = t.rest; line = t.line; col = t.col }

unfoldable pub skip_to_line_end : Lexer → Lexer
unfolding skip_comment
skip_to_line_end l = behind (skip_comment l.line l.col l.rest) l

-- `rest` is what follows the opening quote.
unfoldable pub read_string : String → Lexer → Result LexError Lexer
unfolding emit scan_string
read_string rest l = elim (scan_string false l.line (l.col + 1) rest) [
  | none ↦ err (unterminated_string l.line l.col)
  | some t ↦ ok (behind t (emit TokenType.string t.text l))
]

-- `rest` is what follows `${`.
unfoldable pub read_expression : String → Lexer → Result LexError Lexer
unfolding emit scan_expression
read_expression rest l = elim (scan_expression 0 l.line (l.col + 2) rest) [
  | none ↦ err (unterminated_expression l.line l.col)
  | some t ↦ ok (behind t (emit TokenType.expression t.text l))
]

-- The number starts with `c`, a digit or the sign.
unfoldable pub read_number : Char → String → Lexer → Lexer
unfolding emit scan_number
read_number c rest l =
    let t = prefixed c (scan_number false l.line (l.col + 1) rest) in
    behind t (emit TokenType.number t.text l)

unfoldable pub name_type : String → TokenType
name_type value =
    if value == "true" || value == "false"
    then TokenType.bool
    else if value == "null" || value == "nil"
    then TokenType.null
    else TokenType.identifier

unfoldable pub read_identifier : Char → String → Lexer → Lexer
unfolding emit name_type scan_name
read_identifier c rest l =
    let t = prefixed c (scan_name l.line (l.col + 1) rest) in
    behind t (emit (name_type t.text) t.text l)

-- The token of a character that is one by itself.
unfoldable pub single : Char → Option (TokenType × String)
single c =
    if is c b'{'
    then some (TokenType.block_start, "{")
    else if is c b'}'
    then some (TokenType.block_end, "}")
    else if is c b'='
    then some (TokenType.assign, "=")
    else if is c b':'
    then some (TokenType.colon, ":")
    else if is c b','
    then some (TokenType.comma, ",")
    else if is c b'.'
    then some (TokenType.dot, ".")
    else if is c b'['
    then some (TokenType.list_start, "[")
    else if is c b']'
    then some (TokenType.list_end, "]")
    else if is c b'|'
    then some (TokenType.pipe, "|")
    else none

-- The cases of the `switch` behind those of single characters.
unfoldable pub read_longer : Char → String → Lexer → Result LexError Lexer
unfolding read_string read_expression read_number read_identifier is_digit is_letter
read_longer c rest l =
    if is c b'"'
    then read_string rest l
    else if is c b'$' && next_is (λ d. is d b'{') rest
    then elim (uncons rest) [ none ↦ ok (advance rest l) | some (d, more) ↦ read_expression more l ]
    else if is_digit c || is c b'-' && next_is is_digit rest
    then ok (read_number c rest l)
    else if is_letter c || is c b'_'
    then ok (read_identifier c rest l)
    else ok (advance rest l)

unfoldable pub read_token : Char → String → Lexer → Result LexError Lexer
unfolding single emit read_longer
read_token c rest l = elim (single c) [
  | some (type, value) ↦ ok (advance rest (emit type value l))
  | none ↦ read_longer c rest l
]

-- The body of the loop: `c` is the next character, `rest` what follows it.
unfoldable pub lex_step : Char → String → Lexer → Result LexError Lexer
unfolding skip_to_line_end emit read_token
lex_step c rest l =
    if is c b'#'
    then ok (skip_to_line_end l)
    else if is c b'\n'
    then ok (break_line rest (emit TokenType.newline "\n" l))
    else if is c b' ' || is c b'\t'
    then ok (advance rest l)
    else read_token c rest l

unfoldable pub tokenize_loop : (fuel : ℕ) → Lexer → Result LexError (List Token)
unfolding lex_step emit
tokenize_loop zero l = elim (uncons l.rest) [
  | none ↦ ok (emit TokenType.eof "" l).tokens
  | some (c, rest) ↦ err unfinished
]
tokenize_loop (suc fuel) l = elim (uncons l.rest) [
  | none ↦ ok (emit TokenType.eof "" l).tokens
  | some (c, rest) ↦ elim (lex_step c rest l) [ err e ↦ err e | ok l' ↦ tokenize_loop fuel l' ]
]

-- Each pass takes a character at least, so as many as the input has suffice.
unfoldable pub tokenize : String → Result LexError (List Token)
unfolding tokenize_loop new_lexer
tokenize input = tokenize_loop (size input) (new_lexer input)
