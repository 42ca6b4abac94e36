-- ===== src/Prelude/Counts.antt =====
-- How often a text stands in a list. Membership, absence of duplicates and "the same elements"
-- are statements about this number, so `omega` reads them.
use Prim.Native.Nat.{ℕ, suc, ◌+◌, ◌-◌, ◌≤◌, ◌<◌}
use Prim.Native.String.{String}
use mathlib.Core.Path.{◌≡◌, refl}
use mathlib.Core.Logic.{◌≢◌, inl, inr}
use mathlib.Core.Bool.{Bool, true, false}
use mathlib.Core.List.{List, [], ◌∷◌, ◌++◌}
use native.Mathlib.Omega.{arith}
use text.Mathlib.Text.{◌==◌}
use text.Mathlib.TextPositions.{eq_refl}
use flow_ctl.Prelude.Tests.{ltb, if◌then◌else◌, ==-cases}
use flow_ctl.Prelude.Lists.{length, select}

abbrev pub bit : Bool → ℕ
bit true = 1
bit false = 0

abbrev pub count : String → List String → ℕ
count a [] = 0
count a (x ∷ xs) = bit (x == a) + count a xs

abbrev pub mem : String → List String → Bool
mem a xs = ltb 0 (count a xs)

pub count-append : (a : String) (xs ys : List String) → count a (xs ++ ys) ≡ count a xs + count a ys
count-append a [] ys = omega arith
count-append a (x ∷ xs) ys = omega (arith, count-append a xs ys)

pub count-cons_self : (a : String) (xs : List String) → count a (a ∷ xs) ≡ suc (count a xs)
count-cons_self a xs = ground (arith, eq_refl a)

-- Selecting by a test keeps the elements that pass as often as they stood, and no other.
pub count-select :
    (p : String → Bool) (a : String) (xs : List String)
    → count a (select p xs) ≡ (if p a then count a xs else 0)
count-select p a [] = ground arith
count-select p a (x ∷ xs) = elim (==-cases x a) [
  | inl e ↦ rw (e.1) (ground (arith, count-select p a xs, eq_refl a))
  | inr e ↦ ground (arith, count-select p a xs, e.0)
]

-- One occurrence taken out.
abbrev remove : String → List String → List String
remove a [] = []
remove a (x ∷ xs) = let rest = x ∷ remove a xs in if x == a then xs else rest

count-remove_self : (a : String) (xs : List String) → count a (remove a xs) ≡ count a xs - 1
count-remove_self a [] = omega arith
count-remove_self a (x ∷ xs) = ground (arith, count-remove_self a xs)

count-remove_ne : (a b : String) (xs : List String) → a ≢ b → count b (remove a xs) ≡ count b xs
count-remove_ne a b [] h = refl
count-remove_ne a b (x ∷ xs) h = elim (==-cases x a) [
  | inl e ↦ elim (==-cases x b) [
    | inl f ↦ absurd (h (cc (e.1, f.1)))
    | inr f ↦ ground (arith, e.0, f.0)
  ]
  | inr e ↦ ground (arith, e.0, count-remove_ne a b xs h)
]

length-remove :
    (a : String) (xs : List String) → 0 < count a xs → suc (length (remove a xs)) ≡ length xs
length-remove a [] h = absurd (omega arith)
length-remove a (x ∷ xs) h = ground (arith, length-remove a xs)

-- The pigeonhole principle: where no element of `xs` stands more often than in `ys`, and `xs` is
-- not shorter, every element of `ys` stands in `xs`.
pub count-le_of_length :
    (xs ys : List String)
    → ((a : String) → count a xs ≤ count a ys)
    → length ys ≤ length xs
    → (a : String) → count a ys ≤ count a xs
count-le_of_length [] [] h l a = omega arith
count-le_of_length [] (y ∷ ys) h l a = absurd (omega arith)
count-le_of_length (x ∷ xs) ys h l a =
    let here : 0 < count x ys = omega (arith, h x, count-cons_self x xs) in
    let fewer : (b : String) → count b xs ≤ count b (remove x ys) = λ b. elim (==-cases x b) [
      | inl e ↦ rw (← e.1) (omega (arith, h x, count-cons_self x xs, count-remove_self x ys))
      | inr e ↦ rw (count-remove_ne x b ys e.1) (ground (arith, h b, e.0))
    ] in
    let rest =
      count-le_of_length xs (remove x ys) fewer (omega (arith, length-remove x ys here)) a in
    elim (==-cases x a) [
      | inl e ↦ ground (arith, e.0, ap-count e.1, count-remove_self x ys, rest)
      | inr e ↦ ground (arith, e.0, count-remove_ne x a ys e.1, rest)
    ]
  where
    ap-count : x ≡ a → count x ys ≡ count a ys
    ap-count e = rw e

pub length_le_of_count :
    (xs ys : List String) → ((a : String) → count a xs ≤ count a ys) → length xs ≤ length ys
length_le_of_count [] ys h = omega arith
length_le_of_count (x ∷ xs) ys h =
    let here : 0 < count x ys = omega (arith, h x, count-cons_self x xs) in
    let fewer : (b : String) → count b xs ≤ count b (remove x ys) = λ b. elim (==-cases x b) [
      | inl e ↦ rw (← e.1) (omega (arith, h x, count-cons_self x xs, count-remove_self x ys))
      | inr e ↦ rw (count-remove_ne x b ys e.1) (ground (arith, h b, e.0))
    ] in
    omega (arith, length_le_of_count xs (remove x ys) fewer, length-remove x ys here)

abbrev pub flat : List (List String) → List String
flat [] = []
flat (l ∷ ls) = l ++ flat ls

pub flat-snoc :
    (a : String) (ls : List (List String)) (l : List String)
    → count a (flat (ls ++ l ∷ [])) ≡ count a (flat ls) + count a l
flat-snoc a [] l = omega (arith, count-append a l [])
flat-snoc a (m ∷ ls) l =
    omega
      (arith, count-append a m (flat ls), count-append a m (flat (ls ++ l ∷ [])), flat-snoc a ls l)
