-- ===== src/Huml/Chars/Shrink.antt =====
-- internal/huml/parser.go: what the readers of characters leave of their text.
use Prim.Native.Char.{Char}
use Prim.Native.String.{[], ◌∷◌}
use flow_ctl.Prelude.{
  ℕ, suc, ◌≤◌, ◌<◌, String, Bool, Option, none, some, ◌&&◌, not, arith, if◌then◌else◌, true, false,
}
use flow_ctl.Huml.Scan.{is}
use flow_ctl.Huml.Scan.Shorter.{size}
use flow_ctl.Huml.Chars.{
  Part, before?, skip_whitespace, read_ident, after, match_str, scan_literal, scan_digits,
  read_number,
}

pub skip_whitespace-le : (s : String) → size (skip_whitespace s) ≤ size s
unfolding skip_whitespace
skip_whitespace-le [] = omega arith
skip_whitespace-le (c ∷ s) = ground (arith, skip_whitespace-le s)

pub read_ident-le : (s : String) → size (read_ident s).rest ≤ size s
unfolding read_ident
read_ident-le [] = omega arith
read_ident-le (c ∷ s) = ground (arith, read_ident-le s)

-- What is left after a reader that may fail is less than `n` characters.
abbrev pub Leaves : ℕ → Option String → Type 0
Leaves n none = Unit
Leaves n (some rest) = size rest < n

abbrev pub LeavesPart : ℕ → Option Part → Type 0
LeavesPart n none = Unit
LeavesPart n (some p) = size p.rest < n

pub after-Leaves : (n : ℕ) (s : String) → Leaves (size s) (after n s)
after-Leaves n [] = tt
after-Leaves n (c ∷ s) = ground arith

Leaves-if : (b : Bool) (n : ℕ) (o : Option String) → Leaves n o → Leaves n (if b then o else none)
Leaves-if true n o h = h
Leaves-if false n o h = tt

Leaves-suc : (n : ℕ) (o : Option String) → Leaves n o → Leaves (suc n) o
Leaves-suc n none h = tt
Leaves-suc n (some s) h = omega arith

pub match_str-le : (prefix s : String) → Leaves (suc (size s)) (match_str prefix s)
unfolding match_str
match_str-le [] s = omega arith
match_str-le (c ∷ p) [] = tt
match_str-le (c ∷ p) (d ∷ s) = Leaves-if _ _ _ (Leaves-suc _ _ (match_str-le p s))

pub match_str-Leaves : (c : Char) (p s : String) → Leaves (size s) (match_str (c ∷ p) s)
unfolding match_str
match_str-Leaves c p [] = tt
match_str-Leaves c p (d ∷ s) = Leaves-if _ _ _ (match_str-le p s)

LeavesPart-before? :
    (c : Char) (n : ℕ) (o : Option Part) → LeavesPart n o → LeavesPart (suc n) (before? c o)
LeavesPart-before? c n none h = tt
LeavesPart-before? c n (some p) h = omega arith

LeavesPart-suc : (n : ℕ) (o : Option Part) → LeavesPart n o → LeavesPart (suc n) o
LeavesPart-suc n none h = tt
LeavesPart-suc n (some p) h = omega arith

LeavesPart-if :
    (b : Bool) (n : ℕ) (o p : Option Part)
    → LeavesPart n o
    → LeavesPart n p
    → LeavesPart n (if b then o else p)
LeavesPart-if true n o p h k = h
LeavesPart-if false n o p h k = k

pub scan_literal-LeavesPart :
    (quote : ℕ) (escaped : Bool) (s : String)
    → LeavesPart (suc (size s)) (scan_literal quote escaped s)
unfolding scan_literal
scan_literal-LeavesPart quote escaped [] = tt
scan_literal-LeavesPart quote escaped (c ∷ s) =
    let more = scan_literal-LeavesPart quote (is c b'\\' && not escaped) s in
    let n = suc (suc (size s)) in
    LeavesPart-if escaped n _ _ (LeavesPart-before? c _ _ more) (
      LeavesPart-if (is c b'\\') n _ _ (LeavesPart-suc _ _ more) (
        LeavesPart-if (is c quote) n (some (record { text = []; rest = s })) _ (omega arith)
          (LeavesPart-before? c _ _ more)))

scan_digits-le : (s : String) → size (scan_digits s).rest ≤ size s
unfolding scan_digits
scan_digits-le [] = omega arith
scan_digits-le (c ∷ s) = ground (arith, scan_digits-le s)

pub read_number-le : (s : String) → size (read_number s).rest ≤ size s
unfolding read_number
read_number-le [] = omega arith
read_number-le (c ∷ s) = ground (arith, scan_digits-le s, scan_digits-le (c ∷ s))
