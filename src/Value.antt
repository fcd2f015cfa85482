-- ===== src/Value.antt =====
-- Go's `interface{}` as the program's switches read it (paramutil, template/redaction, state, util):
-- a value decoded from YAML or produced by a module. A slice is `list`, a `map[string]interface{}` is
-- `dict` and a `map[interface{}]interface{}` is `generic`. A float is known by its bits, and a value
-- of a type that no switch names by a number.
use gxo.Prelude.{ℕ, String, Bool, List}
use gxo.Prelude.Int.{ℤ}

pub data Width : Type 0 where
  w8 w16 w32 w64 : Width

mutual
  pub data Value : Type 0 where
    null : Value
    bool : Bool → Value
    int : ℤ → Value
    sized_int : Width → ℤ → Value
    float32 float64 : ℕ → Value
    str : String → Value
    strings : List String → Value
    list : Items → Value
    dict : Fields → Value
    generic : Pairs → Value
    other : ℕ → Value

  pub data Items : Type 0 where
    nil : Items
    cons : Value → Items → Items

  pub data Fields : Type 0 where
    end : Fields
    field : String → Value → Fields → Fields

  pub data Pairs : Type 0 where
    stop : Pairs
    pair : Value → Value → Pairs → Pairs
