-- ===== src/Common/Json.antt =====
-- Values as `JSON.parse` gives them. No part reads the number in a number, so a natural one stands for
-- it. A key is no name of a member that every JavaScript object or array has, such as `length`.
use Prim.Native.Nat.{ℕ}
use Prim.Native.String.{String}
use mathlib.Core.Path.{◌≡◌, refl}
use mathlib.Core.Bool.{Bool, true, false}
use mathlib.Core.Option.{Option, none, some}
use text.Mathlib.Text.{◌==◌ as str_eq}
use text.Mathlib.TextEquality.{eq_iff}
use native.Mathlib.Omega.{arith}
use ngotag_platform.Common.Tests.{if◌then◌else◌}

mutual
  pub data Value : Type 0 where
    null : Value
    boolean : Bool → Value
    number : ℕ → Value
    str : String → Value
    list : Items → Value
    object : Fields → Value

  pub data Items : Type 0 where
    no_items : Items
    item : Value → Items → Items

  pub data Fields : Type 0 where
    no_fields : Fields
    field : String → Value → Fields → Fields

unfoldable pub lookup : Fields → String → Option Value
lookup no_fields k = none
lookup (field j v fs) k = let rest = lookup fs k in if str_eq j k then some v else rest

-- `value[k]`, where `value` may be undefined; an array has no member of that name.
abbrev pub member : Option Value → String → Option Value
member (some (object fs)) k = lookup fs k
member v k = none

-- `fs[k] = v`, and a later entry of an object literal.
unfoldable pub put : Fields → String → Value → Fields
put no_fields k v = field k v no_fields
put (field j w fs) k v =
    let rest = put fs k v in if str_eq j k then field j v fs else field j w rest

pub lookup-put :
    (fs : Fields) (k : String) (v : Value) (j : String)
    → lookup (put fs k v) j ≡ (if str_eq k j then some v else lookup fs j)
unfolding lookup put
lookup-put no_fields k v j = refl
lookup-put (field i w fs) k v j =
    ground (arith, eq_iff i k, eq_iff i j, eq_iff k j, lookup-put fs k v j)

-- `'object' === typeof value && null !== value`, which holds of an array too.
abbrev pub is_object : Option Value → Bool
is_object (some (object fs)) = true
is_object (some (list vs)) = true
is_object v = false
