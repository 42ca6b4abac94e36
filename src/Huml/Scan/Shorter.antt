-- ===== src/Huml/Scan/Shorter.antt =====
-- internal/huml/lexer.go: what the loops over a token's characters leave of the input.
use Prim.Native.Char.{Char}
use Prim.Native.String.{[], ◌∷◌}
use flow_ctl.Prelude.{
  ◌≡◌, ap, ◌∙◌, ℕ, suc, ◌+◌, ◌≤◌, ◌<◌, String, Bool, true, false, Option, none, some, ◌&&◌, ◌||◌,
  not, arith, if◌then◌else◌, eqb,
}
use flow_ctl.Huml.Scan.{
  is, uncons, nesting, is_digit, Scanned, then_prefixed, unescape, scan_string, scan_expression,
  scan_number, scan_name, skip_comment,
}

-- The number of characters.
abbrev pub size : String → ℕ
size [] = 0
size (c ∷ s) = suc (size s)

-- Whatever is found, less than `n` characters are left.
abbrev pub LeavesLess : ℕ → Option Scanned → Type 0
LeavesLess n none = Unit
LeavesLess n (some t) = size t.rest < n

then_prefixed-LeavesLess :
    (c : Char) (m n : ℕ) (t : Option Scanned)
    → m ≤ n
    → LeavesLess m t
    → LeavesLess n (then_prefixed c t)
then_prefixed-LeavesLess c m n none l h = tt
then_prefixed-LeavesLess c m n (some t) l h = omega arith

unescape-LeavesLess :
    (c : Char) (m n : ℕ) (t : Option Scanned) → m ≤ n → LeavesLess m t → LeavesLess n (unescape c t)
unfolding unescape
unescape-LeavesLess c m n none l h = ground arith
unescape-LeavesLess c m n (some t) l h = ground arith

LeavesLess-if :
    (b : Bool) (n : ℕ) (t u : Option Scanned)
    → LeavesLess n t
    → LeavesLess n u
    → LeavesLess n (if b then t else u)
LeavesLess-if true n t u ht hu = ht
LeavesLess-if false n t u ht hu = hu

LeavesLess-weaken : (m n : ℕ) (t : Option Scanned) → m ≤ n → LeavesLess m t → LeavesLess n t
LeavesLess-weaken m n none l h = tt
LeavesLess-weaken m n (some t) l h = omega arith

pub scan_string-LeavesLess :
    (escaped : Bool) (line col : ℕ) (s : String)
    → LeavesLess (suc (size s)) (scan_string escaped line col s)
unfolding scan_string
scan_string-LeavesLess escaped line col [] = tt
scan_string-LeavesLess escaped line col (c ∷ s) =
    let breaks = is c b'\n' && not escaped in
    let more =
      scan_string-LeavesLess (is c b'\\' && not escaped) (if breaks then line + 1 else line)
        (if breaks then 1 else col + 1) s in
    let n = suc (suc (size s)) in
    let done : Option Scanned = some (record { text = []; rest = s; line = line; col = col + 1 }) in
    LeavesLess-if escaped n _ _ (unescape-LeavesLess c _ n _ (omega arith) more) (
      LeavesLess-if (is c b'\\') n _ _ (LeavesLess-weaken _ n _ (omega arith) more) (
        LeavesLess-if (is c b'"') n done _ (omega arith)
          (then_prefixed-LeavesLess c _ n _ (omega arith) more)))

pub scan_expression-LeavesLess :
    (inner line col : ℕ) (s : String) → LeavesLess (suc (size s)) (scan_expression inner line col s)
unfolding scan_expression
scan_expression-LeavesLess inner line col [] = tt
scan_expression-LeavesLess inner line col (c ∷ s) =
    let n = suc (suc (size s)) in
    let done : Option Scanned = some (record { text = []; rest = s; line = line; col = col + 1 }) in
    LeavesLess-if (is c b'}' && eqb inner 0) n done _ (omega arith) (
      then_prefixed-LeavesLess c _ n _ (omega arith)
        (scan_expression-LeavesLess (nesting c inner) line (col + 1) s))

pub scan_number-le :
    (dotted : Bool) (line col : ℕ) (s : String) → size (scan_number dotted line col s).rest ≤ size s
unfolding scan_number
scan_number-le dotted line col [] = omega arith
scan_number-le dotted line col (c ∷ s) =
    ground (arith, scan_number-le (dotted || not (is_digit c)) line (col + 1) s)

pub scan_name-le : (line col : ℕ) (s : String) → size (scan_name line col s).rest ≤ size s
unfolding scan_name
scan_name-le line col [] = omega arith
scan_name-le line col (c ∷ s) = ground (arith, scan_name-le line (col + 1) s)

pub skip_comment-le : (line col : ℕ) (s : String) → size (skip_comment line col s).rest ≤ size s
unfolding skip_comment
skip_comment-le line col [] = omega arith
skip_comment-le line col (c ∷ s) = ground (arith, skip_comment-le line (col + 1) s)

-- A comment is skipped with its mark.
pub skip_comment-lt :
    (line col : ℕ) (s : String) (c : Char) (rest : String)
    → uncons s ≡ some (c, rest)
    → is c b'#' ≡ true
    → size (skip_comment line col s).rest < size s
unfolding skip_comment
skip_comment-lt line col [] c rest h m = absurd (ground (arith, h))
skip_comment-lt line col (d ∷ s) c rest h m =
    let mark : is d b'#' ≡ true = by_head h in
    ground (arith, skip_comment-le line (col + 1) s, mark)
  where
    first_is : Option (Char × String) → Bool
    first_is none = false
    first_is (some (x, y)) = is x b'#'

    by_head : ◌≡◌ {A = Option (Char × String)} (some (d, s)) (some (c, rest)) → is d b'#' ≡ true
    by_head e = ap (λ o. first_is o) e ∙ m

pub size-uncons :
    (s : String) (c : Char) (rest : String) → uncons s ≡ some (c, rest) → size s ≡ suc (size rest)
size-uncons [] c rest h = absurd (ground (arith, h))
size-uncons (d ∷ s) c rest h = ap (λ o. left o) h
  where
    left : Option (Char × String) → ℕ
    left none = 0
    left (some (x, y)) = suc (size y)
