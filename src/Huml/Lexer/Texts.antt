-- ===== src/Huml/Lexer/Texts.antt =====
-- internal/huml/lexer.go: `Tokenize` on a text that was written between quotes.
use flow_ctl.Prelude.{
  ◌≡◌, refl, ap, ◌∙◌, ℕ, zero, suc, ◌+◌, String, none, some, List, [], ◌∷◌, Result, ok, err, Option,
}
use flow_ctl.Huml.Scan.{uncons, Scanned}
use flow_ctl.Huml.Scan.Shorter.{size}
use flow_ctl.Huml.Scan.Quoted.{quoted, quoted_before, quoted_width, scan_string-quoted}
use flow_ctl.Huml.Lexer.{
  TokenType, Token, LexError, unterminated_string, Lexer, new_lexer, emit, behind, lex_step,
  tokenize_loop, tokenize, read_string, read_longer, read_token, single,
}

tokenize_loop-end :
    (fuel : ℕ) (l : Lexer)
    → uncons l.rest ≡ none
    → tokenize_loop fuel l ≡ ok (emit TokenType.eof "" l).tokens
unfolding tokenize_loop
tokenize_loop-end zero l h = rw (h, tokenize_loop) refl
tokenize_loop-end (suc fuel) l h = rw (h, tokenize_loop) refl

-- The string token at the start, then the end mark behind the closing quote.
abbrev pub tokens_of_quoted : String → List Token
tokens_of_quoted s =
    record { type = TokenType.string; value = s; line = 1; column = 1 }
    ∷ record { type = TokenType.eof; value = ""; line = 1; column = 2 + quoted_width s }
    ∷ []

-- Tokenizing a text written between quotes, its newlines, tabs, quotes and backslashes escaped, gives
-- one string token with that text and the end mark.
pub tokenize-quoted : (s : String) → tokenize (quoted s) ≡ ok (tokens_of_quoted s)
unfolding tokenize new_lexer tokenize_loop lex_step read_token single read_longer read_string emit
tokenize-quoted s =
    ap after (scan_string-quoted s "" 1 2) ∙ tokenize_loop-end (size (quoted_before "" s)) _ refl
  where
    start : Lexer
    start = new_lexer (quoted s)

    after : Option Scanned → Result LexError (List Token)
    after o =
        let r : Result LexError Lexer = elim o [
          | none ↦ err (unterminated_string 1 1)
          | some t ↦ ok (behind t (emit TokenType.string t.text start))
        ] in
        elim r [ err e ↦ err e | ok l' ↦ tokenize_loop (size (quoted_before "" s)) l' ]
