-- ===== src/Extend/Defs.antt =====
-- The function `extend` on JavaScript values (web-phalcon/public/js/netgraphz/tools.js).
use netgraphz2_gpl.Common.{
  Bool, Option, String, false, if◌then◌else◌, none, some, str_eq, true, ◌&&◌, ◌>>=◌,
}

mutual
  -- `atom` is a number, a Boolean or a function, `listed` a text or an array with its elements as
  -- properties. The properties that are own and not enumerable, such as `length`, are left aside.
  pub data Value : Type 0 where
    undefined_value : Value
    null_value : Value
    atom : String → Value
    listed : Properties → Value
    object : Properties → Value

  -- The enumerable properties, in their order.
  pub data Properties : Type 0 where
    no_more : Properties
    property : String → Value → Properties → Properties

unfoldable pub find_property : String → Properties → Option Value
find_property key no_more = none
find_property key (property name x rest) =
    if str_eq name key then some x else find_property key rest

-- `b.hasOwnProperty(key)` and `b[key]`; `none` if it throws, `b` being `null`.
unfoldable pub own_property : String → Value → Option (Option Value)
own_property key undefined_value = none
own_property key null_value = none
own_property key (atom a) = some none
own_property key (listed ps) = some (find_property key ps)
own_property key (object ps) = some (find_property key ps)

-- `typeof x === "object" && !Array.isArray(x)`.
unfoldable pub is_object : Value → Bool
is_object undefined_value = false
is_object null_value = true
is_object (atom a) = false
is_object (listed ps) = false
is_object (object ps) = true

unfoldable pub is_undefined : Value → Bool
is_undefined undefined_value = true
is_undefined null_value = false
is_undefined (atom a) = false
is_undefined (listed ps) = false
is_undefined (object ps) = false

-- The value of one key; `deeper` is what `extend` gives of both values.
unfoldable pub chosen : Bool → Value → Option Value → (Value → Option Value) → Option Value
unfolding is_object
chosen deep_extend x none deeper = some x
chosen deep_extend x (some y) deeper = if deep_extend && is_object y then deeper y else some y

-- `extend(a, b, deep_extend)`; `none` if it throws. The properties of `a` are given with it.
unfoldable mutual
  pub extend : Bool → Value → Value → Option Value
  extend deep undefined_value b =
      if is_undefined b then some undefined_value else some (object no_more)
  extend deep null_value b = if is_undefined b then some null_value else some (object no_more)
  extend deep (atom a) b = if is_undefined b then some (atom a) else some (object no_more)
  extend deep (listed ps) b =
      let merged = extend_properties deep ps b in
      if is_undefined b then some (listed ps) else merged >>= λ qs. some (object qs)
  extend deep (object ps) b =
      let merged = extend_properties deep ps b in
      if is_undefined b then some (object ps) else merged >>= λ qs. some (object qs)

  pub extend_properties : Bool → Properties → Value → Option Properties
  extend_properties deep no_more b = some no_more
  extend_properties deep (property key x rest) b = do
    own ← own_property key b
    v ← chosen deep x own (λ y. extend true x y)
    qs ← extend_properties deep rest b
    some (property key v qs)
