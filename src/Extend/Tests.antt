-- ===== src/Extend/Tests.antt =====
-- Tests of `extend` (web-phalcon/public/js/netgraphz/tools.js).
use netgraphz2_gpl.Common.{refl, some, true, ◌≡◌}
use netgraphz2_gpl.Extend.Defs.{
  Properties, Value, atom, chosen, extend, extend_properties, find_property, is_object,
  is_undefined, no_more, object, own_property, property,
}
use netgraphz2_gpl.Extend.Keys.{Merged, extend_lem, key_names}

abbrev default_settings : Properties
default_settings =
    property "timeout" (atom "5")
      (property "init" (object (property "retry" (atom "3") no_more)) no_more)

abbrev given_settings : Value
given_settings = object (
    property "init" (object (property "retry" (atom "7") (property "other" (atom "1") no_more)))
      no_more)

extend_merges :
    extend true (object default_settings) given_settings
    ≡ some (
        object (
          property "timeout"
            (atom "5")
            (property "init" (object (property "retry" (atom "7") no_more)) no_more)))
unfolding extend extend_properties chosen own_property find_property is_object is_undefined
extend_merges = refl

extend_lem_example :
    (qs : Properties) × (extend true (object default_settings) given_settings ≡ some (object qs))
    × (key_names qs ≡ key_names default_settings)
    × Merged true given_settings "init"
        (find_property "init" default_settings)
        (find_property "init" qs)
unfolding find_property is_undefined
extend_lem_example =
    extend_lem true default_settings given_settings "init" (((tt, (tt, tt)), tt)) refl
