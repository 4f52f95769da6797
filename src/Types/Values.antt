-- ===== src/Types/Values.antt =====
-- `serde_json::Value`, as far as the engine reads it, and the bit patterns of `f64`.
use pascals_discrete_attract.Base.{ℕ, Text, Bool, Option, none, some, ◌==◌, if◌then◌else◌}

-- An `f64` is its 64-bit pattern; its arithmetic is a parameter (`FloatOps`).
abbrev pub F64 : Type 0
F64 = ℕ

-- `0.0` has the pattern with no bit set.
abbrev pub f64_zero : F64
f64_zero = 0

-- `a + b` and `a > b` of IEEE 754 doubles, and the format `{:.2}`.
pub record FloatOps : Type 0 where
  pub add : F64 → F64 → F64
  pub gt : F64 → F64 → Bool
  pub two_decimals : F64 → Text

-- A number carries what `to_string` and `as_f64` give for it.
mutual
  pub data Json : Type 0 where
    null : Json
    bool : Bool → Json
    number : Text → F64 → Json
    string : Text → Json
    array : Items → Json
    object : Fields → Json

  pub data Items : Type 0 where
    nil : Items
    cons : Json → Items → Items

  pub data Fields : Type 0 where
    end : Fields
    field : Text → Json → Fields → Fields

unfoldable pub as_str : Json → Option Text
as_str (string s) = some s
as_str _ = none

unfoldable pub as_f64 : Json → Option F64
as_f64 (number s x) = some x
as_f64 _ = none

unfoldable pub as_array : Json → Option Items
as_array (array xs) = some xs
as_array _ = none

get_field : Text → Fields → Option Json
get_field k end = none
get_field k (field j v rest) = if j == k then some v else get_field k rest

-- `Value::get` with a key.
unfoldable pub get : Text → Json → Option Json
unfolding get_field
get k (object fs) = get_field k fs
get k _ = none
