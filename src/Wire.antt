-- ===== src/Wire.antt =====
-- JSON values as `json.loads` and `model_dump(mode="json")` give them, and the walk of
-- backend/app/persistence/result_payloads.py that refuses keys which the schema dropped.
pub mod Payload
use quantlineage.Prelude.{String, Bool, Option, none, some, ◌==◌, if◌then◌else◌}
use quantlineage.Prelude.Int.{ℤ}

-- An IEEE double: mantissa times a power of two, or one of the three other values.
pub data Double : Type 0 where
  finite : ℤ → ℤ → Double
  infinite : Bool → Double
  nan : Double

mutual
  pub data Json : Type 0 where
    null : Json
    bool : Bool → Json
    int : ℤ → Json
    float : Double → Json
    text : String → Json
    list : Items → Json
    obj : Fields → Json

  pub data Items : Type 0 where
    nil : Items
    cons : Json → Items → Items

  -- A `dict`: its entries in order, each key once.
  pub data Fields : Type 0 where
    end : Fields
    field : String → Json → Fields → Fields

-- d.get(key)
unfoldable pub find : String → Fields → Option Json
find k end = none
find k (field j v fs) = if j == k then some v else find k fs
