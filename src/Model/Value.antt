-- ===== src/Model/Value.antt =====
-- The dynamic values (Go's `any`) of inputs, outputs and expressions, and the signed integers.
use flow_ctl.Prelude.{ℕ, String, Bool, List, [], ◌∷◌, Assoc}

-- `negsuc n` is -(n + 1).
pub data ℤ : Type 0 where
  pos : ℕ → ℤ
  negsuc : ℕ → ℤ

-- A `float64` is kept as its bit pattern: its operations are parameters where they are used.
mutual
  pub data Value : Type 0 where
    null : Value
    bool : Bool → Value
    float64 : ℕ → Value
    int : ℤ → Value
    int64 : ℤ → Value
    text : String → Value
    array : Items → Value
    object : Fields → Value
    steps_map : Fields → Value
    string_map : List (String × String) → Value

  pub data Items : Type 0 where
    nil : Items
    item : Value → Items → Items

  pub data Fields : Type 0 where
    end : Fields
    field : String → Value → Fields → Fields

-- A `map[string]any` as an association list, and back.
unfoldable pub fields_of : Assoc Value → Fields
fields_of [] = end
fields_of ((k, v) ∷ m) = field k v (fields_of m)

unfoldable pub assoc_of : Fields → Assoc Value
assoc_of end = []
assoc_of (field k v m) = (k, v) ∷ assoc_of m

unfoldable pub items_of : List Value → Items
items_of [] = nil
items_of (v ∷ vs) = item v (items_of vs)

unfoldable pub list_of : Items → List Value
list_of nil = []
list_of (item v vs) = v ∷ list_of vs
