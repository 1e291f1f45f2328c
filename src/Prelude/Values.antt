-- ===== src/Prelude/Values.antt =====
-- A Go value of type `any`, as decoded from YAML or JSON. A number is left as the text of its
-- literal, since no code that is modelled computes with it.
use Prim.Native.String.{String}
use mathlib.Core.Bool.{Bool}

mutual
  pub data Value : Type 0 where
    null : Value
    bool : Bool → Value
    number : String → Value
    string : String → Value
    array : Items → Value
    object : Fields → Value

  pub data Items : Type 0 where
    array_end : Items
    array_next : Value → Items → Items

  pub data Fields : Type 0 where
    object_end : Fields
    object_next : String → Value → Fields → Fields
