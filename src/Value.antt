-- ===== src/Value.antt =====
-- The values that a YAML or JSON document decodes to, as Python holds them, after
-- `_freeze_config_value` of sovereignflow/domain/models.py: a list is a tuple, a mapping is read-only.
-- A finite float is the integer `numerator` over 2 ^ `exponent`.
use sovereign_flow.Prelude.{ℕ, String, Bool, List, [], ◌∷◌}
use sovereign_flow.Prelude.Int.{ℤ}

pub data Float : Type 0 where
  finite : (numerator : ℤ) → (exponent : ℕ) → Float
  infinity : (negative : Bool) → Float
  nan : Float

mutual
  pub data Value : Type 0 where
    null : Value
    bool : Bool → Value
    int : ℤ → Value
    float : Float → Value
    str : String → Value
    sequence : Items → Value
    mapping : Fields → Value

  pub data Items : Type 0 where
    nil : Items
    cons : Value → Items → Items

  pub data Fields : Type 0 where
    end : Fields
    field : String → Value → Fields → Fields

-- The entries of a mapping, in order.
abbrev pub entries : Fields → List (String × Value)
entries Fields.end = []
entries (Fields.field k v fs) = (k, v) ∷ entries fs

abbrev pub elements : Items → List Value
elements Items.nil = []
elements (Items.cons v vs) = v ∷ elements vs

abbrev pub from_entries : List (String × Value) → Fields
from_entries [] = Fields.end
from_entries ((k, v) ∷ es) = Fields.field k v (from_entries es)

abbrev pub from_list : List Value → Items
from_list [] = Items.nil
from_list (v ∷ vs) = Items.cons v (from_list vs)
