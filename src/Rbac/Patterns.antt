-- ===== src/Rbac/Patterns.antt =====
-- internal/auth/rbac.go: `matchesResource` and `matchesAction`.
use Prim.Native.Char.{Char, code}
use Prim.Native.String.{[], ◌∷◌}
use flow_ctl.Prelude.{String, Bool, true, false, Option, none, some, ◌==◌, ◌&&◌, eqb, if◌then◌else◌}

-- `strings.HasPrefix(s, prefix)`
abbrev pub has_prefix : (prefix s : String) → Bool
has_prefix [] s = true
has_prefix (c ∷ p) [] = false
has_prefix (c ∷ p) (d ∷ s) = eqb (code c) (code d) && has_prefix p s

abbrev then_prefixed : Char → Option String → Option String
then_prefixed c none = none
then_prefixed c (some s) = some (c ∷ s)

-- The pattern without its last "*", if it ends in ":*".
abbrev pub wildcard_prefix : String → Option String
wildcard_prefix [] = none
wildcard_prefix (c ∷ []) = none
wildcard_prefix (c ∷ d ∷ s) =
    let rest = wildcard_prefix (d ∷ s) in
    elim s [
      | [] ↦ if eqb (code c) b':' && eqb (code d) b'*' then some (c ∷ []) else none
      | e ∷ more ↦ then_prefixed c rest
    ]

unfoldable pub matches_resource : (pattern resource : String) → Bool
matches_resource pattern resource =
    if pattern == "*" then true else elim (wildcard_prefix pattern) [
      | some prefix ↦ has_prefix prefix resource
      | none ↦ pattern == resource
    ]

unfoldable pub matches_action : (pattern action : String) → Bool
matches_action pattern action = if pattern == "*" then true else pattern == action
