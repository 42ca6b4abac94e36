-- ===== src/Huml/Scan/Quoted.antt =====
-- internal/huml/lexer.go: `readString` on what was written between quotes.
use Prim.Native.Char.{Char, code}
use Prim.Native.String.{[], ◌∷◌}
use text.Mathlib.TextEquality.{Char-path}
use flow_ctl.Prelude.{
  ◌≡◌, refl, ap, sym, subst, ◌∙◌, ℕ, ◌+◌, String, true, false, some, ◌||◌, arith, if◌then◌else◌,
  Bool-cases, inl, inr,
}
use flow_ctl.Huml.Scan.{is, then_prefixed, unescape, scan_string}

-- `c` as it is written between quotes, before `s`.
abbrev escape : Char → String → String
escape c s =
    if is c b'\n'
    then "\\" ∷ "n" ∷ s
    else if is c b'\t'
    then "\\" ∷ "t" ∷ s
    else if is c b'"'
    then "\\" ∷ "\"" ∷ s
    else if is c b'\\'
    then "\\" ∷ "\\" ∷ s
    else c ∷ s

-- The text `s` as it is written, with its closing quote, before `rest`.
abbrev pub quoted_before : String → String → String
quoted_before rest [] = "\"" ∷ rest
quoted_before rest (c ∷ s) = escape c (quoted_before rest s)

abbrev pub escape_width : Char → ℕ
escape_width c = if is c b'\n' || is c b'\t' || is c b'"' || is c b'\\' then 2 else 1

abbrev pub quoted_width : String → ℕ
quoted_width [] = 1
quoted_width (c ∷ s) = escape_width c + quoted_width s

is-eq : (c d : Char) → is c (code d) ≡ true → c ≡ d
is-eq c d h = Char-path c d (ground arith)

-- Scanning `c` as it is written gives `c`.
Reads : Char → (line col : ℕ) → String → Type 0
Reads c line col s =
    scan_string false line col (escape c s)
    ≡ then_prefixed c (scan_string false line (col + escape_width c) s)

two :
    (c : Char) (line col : ℕ) (s : String)
    → then_prefixed c (scan_string false line (col + 1 + 1) s)
      ≡ then_prefixed c (scan_string false line (col + 2) s)
two c line col s = ap (λ k. then_prefixed c (scan_string false line k s)) (omega arith)

scan_escape : (c : Char) (line col : ℕ) (s : String) → Reads c line col s
unfolding scan_string unescape Reads
scan_escape c line col s = elim (Bool-cases (is c b'\n')) [
  | inl e ↦ subst (λ d. Reads d line col s) (sym (is-eq c "\n" e)) (two "\n" line col s)
  | inr n ↦ elim (Bool-cases (is c b'\t')) [
    | inl e ↦ subst (λ d. Reads d line col s) (sym (is-eq c "\t" e)) (two "\t" line col s)
    | inr t ↦ elim (Bool-cases (is c b'"')) [
      | inl e ↦ subst (λ d. Reads d line col s) (sym (is-eq c "\"" e)) (two "\"" line col s)
      | inr q ↦ elim (Bool-cases (is c b'\\')) [
        | inl e ↦ subst (λ d. Reads d line col s) (sym (is-eq c "\\" e)) (two "\\" line col s)
        | inr b ↦ ground (arith, n, t, q, b)
      ]
    ]
  ]
]

-- Reading a quoted text gives the text, and what follows the quote.
pub scan_string-quoted :
    (s rest : String) (line col : ℕ)
    → scan_string false line col (quoted_before rest s)
      ≡ some (record { text = s; rest = rest; line = line; col = col + quoted_width s })
unfolding scan_string Reads
scan_string-quoted [] rest line col = refl
scan_string-quoted (c ∷ s) rest line col =
    scan_escape c line col (quoted_before rest s)
    ∙ ap (then_prefixed c) (scan_string-quoted s rest line (col + escape_width c))
    ∙ ap (λ k. some (record { text = c ∷ s; rest = rest; line = line; col = k })) (omega arith)

-- The text `s` between quotes.
abbrev pub quoted : String → String
quoted s = "\"" ∷ quoted_before [] s
