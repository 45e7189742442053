-- ===== src/Base/Json.antt =====
-- Python's `Any`, where the program keeps JSON-like data: there are no floats.
use Prim.Native.String.{String}
use mathlib.Core.Bool.{Bool}
use agenyx.Base.Int.{ℤ}

mutual
  pub data Value : Type 0 where
    null : Value
    bool : Bool → Value
    int : ℤ → Value
    str : String → Value
    array : Items → Value
    object : Fields → Value

  pub data Items : Type 0 where
    nil : Items
    cons : Value → Items → Items

  pub data Fields : Type 0 where
    end : Fields
    field : String → Value → Fields → Fields
