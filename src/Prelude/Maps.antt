-- ===== src/Prelude/Maps.antt =====
-- A Go map with text keys: an association list in which a key stands once.
use Prim.Native.String.{String}
use Prim.Native.Nat.{suc, ◌+◌, ◌≤◌}
use mathlib.Core.Path.{◌≡◌, refl, ap, ◌∙◌}
use mathlib.Core.Logic.{inl, inr}
use mathlib.Core.Bool.{Bool, true, false}
use mathlib.Core.Option.{Option, none, some}
use mathlib.Core.List.{List, [], ◌∷◌, ◌++◌}
use native.Mathlib.Omega.{arith}
use text.Mathlib.Text.{◌==◌}
use text.Mathlib.TextEquality.{eq_iff}
use flow_ctl.Prelude.Tests.{if◌then◌else◌, ==-cases}
use flow_ctl.Prelude.Lists.{length}
use flow_ctl.Prelude.Counts.{count, bit, mem}

abbrev pub Assoc {ℓ} : Type ℓ → Type ℓ
Assoc V = List (String × V)

module _ {ℓ} {V : Type ℓ} where
  abbrev pub keys : Assoc V → List String
  keys [] = []
  keys ((k, v) ∷ m) = k ∷ keys m

  pub length-keys : (m : Assoc V) → length (keys m) ≡ length m
  length-keys [] = refl
  length-keys ((k, v) ∷ m) = ap suc (length-keys m)

  unfoldable pub lookup : (key : String) → Assoc V → Option V
  lookup key [] = none
  lookup key ((name, a) ∷ rest) = if name == key then some a else lookup key rest

  unfoldable pub insert : (key : String) → V → Assoc V → Assoc V
  insert key a [] = (key, a) ∷ []
  insert key a ((name, b) ∷ rest) =
      if name == key then (name, a) ∷ rest else (name, b) ∷ insert key a rest

  -- Reading a key after a write of another, or of the same one.
  pub lookup-insert :
      (k j : String) (a : V) (table : Assoc V)
      → lookup j (insert k a table) ≡ (if k == j then some a else lookup j table)
  unfolding lookup insert
  lookup-insert k j a [] = refl
  lookup-insert k j a ((name, b) ∷ rest) =
      ground (arith, lookup-insert k j a rest, eq_iff name k, eq_iff name j, eq_iff k j)

  abbrev pub has : String → Assoc V → Bool
  has k m = elim (lookup k m) [ none ↦ false | some _ ↦ true ]

  pub has-count : (k : String) (m : Assoc V) → has k m ≡ mem k (keys m)
  unfolding lookup
  has-count k [] = ground arith
  has-count k ((j, v) ∷ m) = ground (arith, has-count k m)

  pub has-insert :
      (k j : String) (v : V) (m : Assoc V)
      → has j (insert k v m) ≡ (if k == j then true else has j m)
  has-insert k j v m = ground (arith, lookup-insert k j v m)

  -- Writing a key adds it to the keys only if it was not there.
  pub count-keys-insert :
      (k j : String) (v : V) (m : Assoc V)
      → count j (keys (insert k v m))
        ≡ (if has k m then count j (keys m) else bit (k == j) + count j (keys m))
  unfolding lookup insert
  count-keys-insert k j v [] = ground arith
  count-keys-insert k j v ((i, w) ∷ m) =
      ground (arith, eq_iff k j, eq_iff i k, eq_iff i j, count-keys-insert k j v m)

  -- No key stands twice.
  abbrev pub IsMap : Assoc V → Type 0
  IsMap m = (k : String) → count k (keys m) ≤ 1

  pub insert-IsMap : (k : String) (v : V) (m : Assoc V) → IsMap m → IsMap (insert k v m)
  insert-IsMap k v m h j =
      ground (arith, count-keys-insert k j v m, h j, h k, has-count k m, eq_iff k j)

-- A map of slices: a missing key reads as the empty slice.
unfoldable pub get_list : String → Assoc (List String) → List String
get_list k m = elim (lookup k m) [ none ↦ [] | some l ↦ l ]

-- `m[k] = append(m[k], v)`.
unfoldable pub append_at : String → String → Assoc (List String) → Assoc (List String)
append_at k v m = insert k (get_list k m ++ v ∷ []) m

pub get_list-insert :
    (k j : String) (l : List String) (m : Assoc (List String))
    → get_list j (insert k l m) ≡ (if k == j then l else get_list j m)
unfolding get_list
get_list-insert k j l m = ground (arith, lookup-insert k j l m)

pub get_list-append_at :
    (k j v : String) (m : Assoc (List String))
    → get_list j (append_at k v m) ≡ (if k == j then get_list j m ++ v ∷ [] else get_list j m)
unfolding append_at
get_list-append_at k j v m = get_list-insert k j (get_list k m ++ v ∷ []) m ∙ same
  where
    same :
        (if k == j then get_list k m ++ v ∷ [] else get_list j m)
        ≡ (if k == j then get_list j m ++ v ∷ [] else get_list j m)
    same = elim (==-cases k j) [ inl e ↦ rw (e.0, e.1) | inr e ↦ rw e.0 ]
