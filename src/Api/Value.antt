-- ===== src/Api/Value.antt =====
-- The values that the records of pkg/api hold: instants, floats as their bit patterns, and `any`.
use mlops.Base.{ℕ, String, Bool}
use mlops.Base.Int.{ℤ}

-- Go's `time.Time` in UTC: nanoseconds since 1970.
abbrev pub Time : Type 0
Time = ℕ

-- Go's `float64`: the 64 bits of its IEEE 754 pattern.
abbrev pub Float64 : Type 0
Float64 = ℕ

-- Go's `any`, as far as the program stores it: what JSON decodes to, and the values of audit
-- metadata.
mutual
  pub data Any : Type 0 where
    null : Any
    bool : Bool → Any
    float : Float64 → Any
    int : ℤ → Any
    text : String → Any
    time : Time → Any
    slice : Items → Any
    object : Fields → Any

  pub data Items : Type 0 where
    nil : Items
    cons : Any → Items → Items

  pub data Fields : Type 0 where
    end : Fields
    field : String → Any → Fields → Fields
