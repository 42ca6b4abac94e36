-- ===== src/Huml/Lexer/Ends.antt =====
-- internal/huml/lexer.go: the passes of `Tokenize`, and how its result ends.
use Prim.Native.Char.{Char}
use flow_ctl.Prelude.{
  ◌≡◌, refl, ℕ, zero, suc, ◌+◌, ◌≤◌, String, Bool, true, false, Option, none, some, List, [], ◌∷◌,
  ◌++◌, ◌&&◌, ◌||◌, arith, All, All-append, if◌then◌else◌, Result, ok, err,
}
use flow_ctl.Huml.Scan.{
  is, is_digit, is_letter, uncons, next_is, Scanned, prefixed, scan_string, scan_expression,
  scan_name,
}
use flow_ctl.Huml.Scan.Shorter.{
  size, LeavesLess, scan_string-LeavesLess, scan_expression-LeavesLess, scan_number-le,
  scan_name-le, skip_comment-lt, size-uncons,
}
use flow_ctl.Huml.Lexer.{
  TokenType, Token, LexError, unterminated_string, unterminated_expression, unfinished, Lexer,
  new_lexer, emit, behind, advance, skip_to_line_end, read_string, read_expression, read_number,
  name_type, read_identifier, single, read_longer, read_token, lex_step, tokenize_loop, tokenize,
}

abbrev pub is_end : TokenType → Bool
is_end TokenType.eof = true
is_end _ = false

abbrev pub NoEnd : List Token → Type 0
NoEnd ts = All (λ (t : Token). is_end t.type ≡ false) ts

-- The error of a text or an expression that is not closed.
abbrev pub IsUnterminated : LexError → Type 0
IsUnterminated (unterminated_string line col) = Unit
IsUnterminated (unterminated_expression line col) = Unit
IsUnterminated unfinished = ⊥

-- After a pass: at most `n` characters are left, and no end mark was emitted.
abbrev Passes : ℕ → Result LexError Lexer → Type 0
Passes n (ok l) = NoEnd l.tokens × (size l.rest ≤ n)
Passes n (err e) = IsUnterminated e

Passes-if :
    (b : Bool) (n : ℕ) (r q : Result LexError Lexer)
    → (b ≡ true → Passes n r)
    → Passes n q
    → Passes n (if b then r else q)
Passes-if true n r q hr hq = hr refl
Passes-if false n r q hr hq = hq

emit-NoEnd :
    (type : TokenType) (value : String) (l : Lexer)
    → is_end type ≡ false
    → NoEnd l.tokens
    → NoEnd (emit type value l).tokens
unfolding emit
emit-NoEnd type value l h clean =
    All-append (λ (t : Token). is_end t.type ≡ false) l.tokens _ clean (h, tt)

read_string-Passes :
    (rest : String) (l : Lexer) → NoEnd l.tokens → Passes (size rest) (read_string rest l)
unfolding read_string
read_string-Passes rest l clean =
    by_scan (scan_string false l.line (l.col + 1) rest)
      (scan_string-LeavesLess false l.line (l.col + 1) rest)
  where
    by_scan :
        (o : Option Scanned)
        → LeavesLess (suc (size rest)) o
        → Passes (size rest) (elim o [
          | none ↦ err (unterminated_string l.line l.col)
          | some t ↦ ok (behind t (emit TokenType.string t.text l))
        ])
    by_scan none h = tt
    by_scan (some t) h = (emit-NoEnd TokenType.string t.text l refl clean, omega arith)

read_expression-Passes :
    (n : ℕ) (rest : String) (l : Lexer)
    → size rest ≤ n
    → NoEnd l.tokens
    → Passes n (read_expression rest l)
unfolding read_expression
read_expression-Passes n rest l le clean =
    by_scan (scan_expression 0 l.line (l.col + 2) rest)
      (scan_expression-LeavesLess 0 l.line (l.col + 2) rest)
  where
    by_scan :
        (o : Option Scanned)
        → LeavesLess (suc (size rest)) o
        → Passes n (elim o [
          | none ↦ err (unterminated_expression l.line l.col)
          | some t ↦ ok (behind t (emit TokenType.expression t.text l))
        ])
    by_scan none h = tt
    by_scan (some t) h = (emit-NoEnd TokenType.expression t.text l refl clean, omega arith)

name_type-not_end : (value : String) → is_end (name_type value) ≡ false
unfolding name_type
name_type-not_end value = ground arith

read_longer-Passes :
    (c : Char) (rest : String) (l : Lexer)
    → NoEnd l.tokens
    → Passes (size rest) (read_longer c rest l)
unfolding read_longer read_number read_identifier
read_longer-Passes c rest l clean =
    let n = size rest in
    Passes-if (is c b'"') n _ _ (λ _. read_string-Passes rest l clean)
      (Passes-if (is c b'$' && next_is (λ d. is d b'{') rest) n _ _
        (λ _. behind_brace (uncons rest) refl)
        (Passes-if (is_digit c || is c b'-' && next_is is_digit rest) n _ _
          (λ _. (
            emit-NoEnd TokenType.number _ l refl clean,
            scan_number-le false l.line (l.col + 1) rest,
          ))
          (Passes-if (is_letter c || is c b'_') n _ _
            (λ _. (
              emit-NoEnd _ _ l
                  (name_type-not_end (prefixed c (scan_name l.line (l.col + 1) rest)).text) clean,
              scan_name-le l.line (l.col + 1) rest,
            ))
            (clean, omega arith))))
  where
    behind_brace :
        (o : Option (Char × String))
        → uncons rest ≡ o
        → Passes
            (size rest)
            (elim o [ none ↦ ok (advance rest l) | some (d, more) ↦ read_expression more l ])
    behind_brace none e = (clean, omega arith)
    behind_brace (some (d, more)) e =
        read_expression-Passes (size rest) more l (omega (arith, size-uncons rest d more e)) clean

NotEnd : Option (TokenType × String) → Type 0
NotEnd none = Unit
NotEnd (some (type, value)) = is_end type ≡ false

NotEnd-if :
    (b : Bool) (x y : Option (TokenType × String))
    → NotEnd x
    → NotEnd y
    → NotEnd (if b then x else y)
NotEnd-if true x y hx hy = hx
NotEnd-if false x y hx hy = hy

single-NotEnd : (c : Char) → NotEnd (single c)
unfolding single NotEnd
single-NotEnd c = NotEnd-if (is c b'{') (some (TokenType.block_start, "{")) _ refl (
    NotEnd-if (is c b'}') (some (TokenType.block_end, "}")) _ refl (
      NotEnd-if (is c b'=') (some (TokenType.assign, "=")) _ refl (
        NotEnd-if (is c b':') (some (TokenType.colon, ":")) _ refl (
          NotEnd-if (is c b',') (some (TokenType.comma, ",")) _ refl (
            NotEnd-if (is c b'.') (some (TokenType.dot, ".")) _ refl (
              NotEnd-if (is c b'[') (some (TokenType.list_start, "[")) _ refl (
                NotEnd-if (is c b']') (some (TokenType.list_end, "]")) _ refl
                  (NotEnd-if (is c b'|') (some (TokenType.pipe, "|")) _ refl tt))))))))

read_token-Passes :
    (c : Char) (rest : String) (l : Lexer)
    → NoEnd l.tokens
    → Passes (size rest) (read_token c rest l)
unfolding read_token NotEnd emit
read_token-Passes c rest l clean = by_single (single c) (single-NotEnd c)
  where
    by_single :
        (o : Option (TokenType × String))
        → NotEnd o
        → Passes (size rest) (elim o [
          | some (type, value) ↦ ok (advance rest (emit type value l))
          | none ↦ read_longer c rest l
        ])
    by_single none h = read_longer-Passes c rest l clean
    by_single (some (type, value)) h = (emit-NoEnd type value l h clean, omega arith)

-- A pass over `c` and what follows it.
lex_step-Passes :
    (c : Char) (rest : String) (l : Lexer)
    → uncons l.rest ≡ some (c, rest)
    → NoEnd l.tokens
    → Passes (size rest) (lex_step c rest l)
unfolding lex_step skip_to_line_end
lex_step-Passes c rest l head clean =
    let n = size rest in
    Passes-if (is c b'#') n _ _
      (λ mark. (
        clean,
        omega (
          arith,
          skip_comment-lt l.line l.col l.rest c rest head mark,
          size-uncons l.rest c rest head,
        ),
      ))
      (Passes-if (is c b'\n') n _ _
        (λ _. (emit-NoEnd TokenType.newline "\n" l refl clean, omega arith))
        (Passes-if (is c b' ' || is c b'\t') n _ _ (λ _. (clean, omega arith))
          (read_token-Passes c rest l clean)))

-- The end mark stands at the end and nowhere else, or the error is one of the source's two.
abbrev pub Ends : Result LexError (List Token) → Type 0
Ends (ok ts) =
    (before : List Token) × (last : Token) × (ts ≡ before ++ last ∷ [])
    × NoEnd before
    × (last.type ≡ TokenType.eof)
Ends (err e) = IsUnterminated e

tokenize_loop-Ends :
    (fuel : ℕ) (l : Lexer) → size l.rest ≤ fuel → NoEnd l.tokens → Ends (tokenize_loop fuel l)
unfolding tokenize_loop emit
tokenize_loop-Ends zero l enough clean = by_head (uncons l.rest) refl
  where
    by_head :
        (o : Option (Char × String))
        → uncons l.rest ≡ o
        → Ends (elim o [
          | none ↦ ok (emit TokenType.eof "" l).tokens
          | some (c, rest) ↦ err unfinished
        ])
    by_head none e = (l.tokens, _, refl, clean, refl)
    by_head (some (c, rest)) e = absurd (omega (arith, enough, size-uncons l.rest c rest e))
tokenize_loop-Ends (suc fuel) l enough clean =
    by_head (uncons l.rest) refl (tokenize_loop-Ends fuel)
  where
    by_pass :
        (n : ℕ) (r : Result LexError Lexer)
        → n ≤ fuel
        → Passes n r
        → ((l' : Lexer) → size l'.rest ≤ fuel → NoEnd l'.tokens → Ends (tokenize_loop fuel l'))
        → Ends (elim r [ err e ↦ err e | ok l' ↦ tokenize_loop fuel l' ])
    by_pass n (err e) le h on = h
    by_pass n (ok l') le h on = on l' (omega (arith, le, h.1)) h.0

    by_head :
        (o : Option (Char × String))
        → uncons l.rest ≡ o
        → ((l' : Lexer) → size l'.rest ≤ fuel → NoEnd l'.tokens → Ends (tokenize_loop fuel l'))
        → Ends (elim o [
          | none ↦ ok (emit TokenType.eof "" l).tokens
          | some (c, rest) ↦ elim (lex_step c rest l) [
            | err e ↦ err e
            | ok l' ↦ tokenize_loop fuel l'
          ]
        ])
    by_head none e on = (l.tokens, _, refl, clean, refl)
    by_head (some (c, rest)) e on =
        by_pass (size rest) (lex_step c rest l) (omega (arith, enough, size-uncons l.rest c rest e))
          (lex_step-Passes c rest l e clean) on

pub tokenize-Ends : (input : String) → Ends (tokenize input)
unfolding tokenize new_lexer
tokenize-Ends input = tokenize_loop-Ends (size input) (new_lexer input) (omega arith) tt
