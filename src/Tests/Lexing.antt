-- ===== src/Tests/Lexing.antt =====
-- Tests of the lexer, and its theorems at sample texts.
use flow_ctl.Prelude.{◌≡◌, refl, String, List, [], ◌∷◌, map, ok, err}
use flow_ctl.Huml.Scan.Quoted.{quoted}
use flow_ctl.Huml.Lexer.{TokenType, Token, unterminated_string, tokenize}
use flow_ctl.Huml.Lexer.Ends.{Ends, tokenize-Ends}
use flow_ctl.Huml.Lexer.Texts.{tokens_of_quoted, tokenize-quoted}

abbrev types : List Token → List TokenType
types ts = map (λ (t : Token). t.type) ts

abbrev types_of : String → List TokenType
types_of s = elim (tokenize s) [ ok ts ↦ types ts | err e ↦ [] ]

step_line :
    types_of "step a { retry = -1.5 # twice\n}"
    ≡ TokenType.identifier ∷ TokenType.identifier ∷ TokenType.block_start ∷ TokenType.identifier
      ∷ TokenType.assign ∷ TokenType.number ∷ TokenType.newline ∷ TokenType.block_end
      ∷ TokenType.eof ∷ []
unfolding tokenize
step_line = refl

interpolated :
    types_of "when = ${inputs.a == {1}} | true"
    ≡ TokenType.identifier ∷ TokenType.assign ∷ TokenType.expression ∷ TokenType.pipe
      ∷ TokenType.bool ∷ TokenType.eof ∷ []
unfolding tokenize
interpolated = refl

left_open : tokenize "a \"b" ≡ err (unterminated_string 1 3)
unfolding tokenize
left_open = refl

tokenize-Ends_example : Ends (tokenize "a {}\n")
tokenize-Ends_example = tokenize-Ends "a {}\n"

tokenize-quoted_example : tokenize (quoted "say \"hi\"\n") ≡ ok (tokens_of_quoted "say \"hi\"\n")
tokenize-quoted_example = tokenize-quoted "say \"hi\"\n"
