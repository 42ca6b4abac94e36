-- ===== src/Huml/Interpolate/Segments.antt =====
-- internal/huml/evaluator.go: what `EvaluateString` makes of a text built of plain parts and expressions.
use Prim.Native.Char.{Char}
use Prim.Native.String.{[], ◌∷◌, ◌++◌ as text_append}
use text.Mathlib.TextLemmas.{cons-append, nil-append}
use flow_ctl.Prelude.{
  ◌≡◌, refl, sym, ap, ◌∙◌, ℕ, zero, suc, ◌≤◌, String, true, false, Option, none, List, arith,
  Bool-cases, inl, inr, ok, err,
}
use flow_ctl.Huml.Context.{EvalContext}
use flow_ctl.Huml.Scan.{is}
use flow_ctl.Huml.Scan.Shorter.{size}
use flow_ctl.Huml.Chars.{after}
use flow_ctl.Huml.Evaluate.Values.{Library, contains_text}
use flow_ctl.Huml.Interpolate.{
  Interpolated, written, interpolate_one, value_then, interpolate_loop, evaluate_string,
}
use flow_ctl.Huml.Interpolate.Braces.{until_brace, char_then}

pub data Segment : Type 0 where
  plain : String → Segment
  expression : String → Segment

-- `s` before `rest`, and `${s}` before `rest`.
abbrev pub plain_then : (s rest : String) → String
plain_then [] rest = rest
plain_then (c ∷ s) rest = c ∷ plain_then s rest

abbrev pub braced_then : (s rest : String) → String
braced_then s rest = "$" ∷ "{" ∷ plain_then s ("}" ∷ rest)

abbrev pub render : List Segment → String
render List.[] = []
render (List.◌∷◌ (plain s) rest) = plain_then s (render rest)
render (List.◌∷◌ (expression s) rest) = braced_then s (render rest)

-- No character of the text is `n`.
abbrev pub Lacks : (n : ℕ) → String → Type 0
Lacks n [] = Unit
Lacks n (c ∷ s) = (is c n ≡ false) × Lacks n s

-- Plain parts have no dollar sign, and expressions no brace.
abbrev pub AreClear : List Segment → Type 0
AreClear List.[] = Unit
AreClear (List.◌∷◌ (plain s) rest) = Lacks b'$' s × AreClear rest
AreClear (List.◌∷◌ (expression s) rest) = (Lacks b'{' s × Lacks b'}' s) × AreClear rest

until_brace_lem :
    (s rest : String)
    → Lacks b'{' s
    → Lacks b'}' s
    → until_brace 0 (plain_then s ("}" ∷ rest)) ≡ record { text = s; rest = rest }
unfolding until_brace
until_brace_lem [] rest h k = refl
until_brace_lem (c ∷ s) rest h k = rw (h.0, k.0, until_brace_lem s rest h.1 k.1)

written-nil : (v : Interpolated) → written "" v ≡ v
written-nil (ok t) = ap ok (nil-append t)
written-nil (err e) = refl

append-char : (c : Char) (t : String) → text_append (char_then c "") t ≡ char_then c t
append-char c t = cons-append c "" t ∙ ap (char_then c) (nil-append t)

written-char :
    (c : Char) (s : String) (v : Interpolated)
    → written (char_then c "") (written s v) ≡ written (char_then c s) v
written-char c s (ok t) = ap ok (append-char c (text_append s t) ∙ sym (cons-append c s t))
written-char c s (err e) = refl

size-plain_then : (s rest : String) → size rest ≤ size (plain_then s rest)
size-plain_then [] rest = omega arith
size-plain_then (c ∷ s) rest = omega (arith, size-plain_then s rest)

no_brace :
    (ch : Char) (s : String)
    → is ch b'$' ≡ true
    → contains_text (ch ∷ s) "${" ≡ false
    → after b'{' s ≡ none
no_brace ch [] h k = refl
no_brace ch (d ∷ s) h k = ground (arith, h, k)

module _ (parse_float : String → Option ℕ) (g : Library) (c : EvalContext) where
  -- What a text of segments comes to: the plain parts as they are, and the values of the expressions.
  abbrev pub value : List Segment → Interpolated
  value List.[] = ok ""
  value (List.◌∷◌ (plain s) rest) = written s (value rest)
  value (List.◌∷◌ (expression s) rest) =
      value_then parse_float g c (interpolate_one parse_float g c s) (value rest)

  -- With enough fuel the loop over `s` gives `v`.
  Gives : String → Interpolated → Type 0
  Gives s v = (fuel : ℕ) → size s ≤ fuel → interpolate_loop parse_float g c fuel s ≡ v

  Gives-nil : Gives "" (ok "")
  unfolding Gives interpolate_loop
  Gives-nil zero h = refl
  Gives-nil (suc fuel) h = refl

  Gives-plain :
      (s rest : String) (v : Interpolated)
      → Lacks b'$' s
      → Gives rest v
      → Gives (plain_then s rest) (written s v)
  unfolding Gives interpolate_loop
  Gives-plain [] rest v h k fuel l = k fuel l ∙ sym (written-nil v)
  Gives-plain (ch ∷ s) rest v h k zero l = absurd (omega (arith, l))
  Gives-plain (ch ∷ s) rest v h k (suc fuel) l =
      rw (h.0, interpolate_loop)
        (ap (written (char_then ch "")) (Gives-plain s rest v h.1 k fuel (omega (arith, l)))
          ∙ written-char ch s v)

  Gives-expression :
      (s rest : String) (v : Interpolated)
      → Lacks b'{' s
      → Lacks b'}' s
      → Gives rest v
      → Gives
          (braced_then s rest)
          (value_then parse_float g c (interpolate_one parse_float g c s) v)
  unfolding Gives interpolate_loop
  Gives-expression s rest v h j k zero l = absurd (omega (arith, l))
  Gives-expression s rest v h j k (suc fuel) l =
      rw
        (
          until_brace_lem s rest h j,
          k fuel (omega (arith, l, size-plain_then s (char_then "}" rest))),
        )
        refl

  render-Gives :
      (segments : List Segment) → AreClear segments → Gives (render segments) (value segments)
  render-Gives List.[] h = Gives-nil
  render-Gives (List.◌∷◌ (plain s) rest) h =
      Gives-plain s (render rest) (value rest) h.0 (render-Gives rest h.1)
  render-Gives (List.◌∷◌ (expression s) rest) h =
      Gives-expression s (render rest) (value rest) h.0.0 h.0.1 (render-Gives rest h.1)

  -- Without "${" the loop changes nothing.
  Gives-raw : (s : String) → contains_text s "${" ≡ false → Gives s (ok s)
  unfolding Gives interpolate_loop
  Gives-raw [] h fuel l = Gives-nil fuel l
  Gives-raw (ch ∷ s) h zero l = absurd (omega (arith, l))
  Gives-raw (ch ∷ s) h (suc fuel) l = elim (Bool-cases (is ch b'$')) [
    | inr other ↦
        rw (other, interpolate_loop)
          (ap (written (char_then ch "")) (Gives-raw s (ground (arith, h)) fuel (omega (arith, l)))
            ∙ ap ok (append-char ch s))
    | inl dollar ↦
        rw (dollar, no_brace ch s dollar h, interpolate_loop)
          (ap (written (char_then ch "")) (Gives-raw s (ground (arith, h)) fuel (omega (arith, l)))
            ∙ ap ok (append-char ch s))
  ]

  -- A text of plain parts without dollar signs and expressions without braces comes to the plain parts
  -- as they are with the value of each expression in its place, or to the first error.
  pub evaluate_string-render :
      (segments : List Segment)
      → AreClear segments
      → evaluate_string parse_float g c (render segments) ≡ value segments
  unfolding evaluate_string Gives
  evaluate_string-render segments h =
      let s = render segments in
      let gives = render-Gives segments h (size s) (omega arith) in
      elim (Bool-cases (contains_text s "${")) [
        | inl e ↦ rw e gives
        | inr e ↦ rw e (sym (Gives-raw s e (size s) (omega arith)) ∙ gives)
      ]
