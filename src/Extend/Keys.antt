-- ===== src/Extend/Keys.antt =====
-- What `extend` keeps and what it takes over (web-phalcon/public/js/netgraphz/tools.js).
use mathlib.Core.Path.{subst}
use netgraphz2_gpl.Extend.Defs.{
  Properties, Value, atom, chosen, extend, extend_properties, find_property, is_object,
  is_undefined, listed, no_more, null_value, object, own_property, property, undefined_value,
}
use netgraphz2_gpl.Common.{
  ◌>>=◌, List, Bool, Bool-cases, Option, String, [], ap, arith, false, inl, inr, none, refl, some,
  str_eq, true, ◌&&◌, ◌∙◌, ◌∷◌, ◌≡◌, eq_iff, sym,
}

-- There is no `null` in the value.
abbrev mutual
  pub HasNoNull : Value → Type 0
  HasNoNull undefined_value = Unit {0}
  HasNoNull null_value = ⊥
  HasNoNull (atom a) = Unit {0}
  HasNoNull (listed ps) = HaveNoNull ps
  HasNoNull (object ps) = HaveNoNull ps

  pub HaveNoNull : Properties → Type 0
  HaveNoNull no_more = Unit {0}
  HaveNoNull (property name x rest) = HasNoNull x × HaveNoNull rest

unfoldable pub key_names : Properties → List String
key_names no_more = []
key_names (property name x rest) = name ∷ key_names rest

find_property-HasNoNull :
    (key : String) (ps : Properties) (y : Value)
    → HaveNoNull ps
    → find_property key ps ≡ some y
    → HasNoNull y
unfolding find_property
find_property-HasNoNull key no_more y h e = cc
find_property-HasNoNull key (property name x rest) y h e = elim (Bool-cases (str_eq name key)) [
  | inl hit ↦ subst HasNoNull (ground arith) h.0
  | inr miss ↦ find_property-HasNoNull key rest y h.1 (ground arith)
]

own_property-some :
    (key : String) (b : Value)
    → HasNoNull b
    → is_undefined b ≡ false
    → (o : Option Value) × (own_property key b ≡ some o)
unfolding own_property is_undefined
own_property-some key undefined_value h d = cc
own_property-some key null_value h d = absurd h
own_property-some key (atom a) h d = (none, refl)
own_property-some key (listed ps) h d = (find_property key ps, refl)
own_property-some key (object ps) h d = (find_property key ps, refl)

own_property-HasNoNull :
    (key : String) (b y : Value) → HasNoNull b → own_property key b ≡ some (some y) → HasNoNull y
unfolding own_property
own_property-HasNoNull key undefined_value y h e = cc
own_property-HasNoNull key null_value y h e = absurd h
own_property-HasNoNull key (atom a) y h e = cc
own_property-HasNoNull key (listed ps) y h e = find_property-HasNoNull key ps y h (ground arith)
own_property-HasNoNull key (object ps) y h e = find_property-HasNoNull key ps y h (ground arith)

chosen_total :
    (deep : Bool) (x : Value) (o : Option Value) (deeper : Value → Option Value)
    → ((y : Value) → HasNoNull y → (v : Value) × (deeper y ≡ some v))
    → ((y : Value) → o ≡ some y → HasNoNull y)
    → (v : Value) × (chosen deep x o deeper ≡ some v)
unfolding chosen
chosen_total deep x none deeper total h = (x, refl)
chosen_total deep x (some y) deeper total h = elim (Bool-cases (deep && is_object y)) [
  | inl e ↦ let (v, eq) = total y (h y refl) in (v, rw e eq)
  | inr e ↦ (y, rw e refl)
]

-- The property of a value that can have one.
abbrev pub found_in : Value → String → Option Value
found_in undefined_value key = none
found_in null_value key = none
found_in (atom a) key = none
found_in (listed ps) key = find_property key ps
found_in (object ps) key = find_property key ps

own_property-found_in :
    (key : String) (b : Value) (o : Option Value) → own_property key b ≡ some o → o ≡ found_in b key
unfolding own_property
own_property-found_in key undefined_value o e = cc
own_property-found_in key null_value o e = cc
own_property-found_in key (atom a) o e = cc
own_property-found_in key (listed ps) o e = cc
own_property-found_in key (object ps) o e = cc

-- The value `v` that is taken of the first argument's `x` and the second argument's, if any.
abbrev pub Taken : Bool → Value → Option Value → Value → Type 0
Taken deep x none v = v ≡ x
Taken false x (some y) v = v ≡ y
Taken true x (some undefined_value) v = v ≡ undefined_value
Taken true x (some null_value) v = extend true x null_value ≡ some v
Taken true x (some (atom a)) v = v ≡ atom a
Taken true x (some (listed qs)) v = v ≡ listed qs
Taken true x (some (object qs)) v = extend true x (object qs) ≡ some v

chosen-Taken :
    (deep : Bool) (x : Value) (o : Option Value) (v : Value)
    → chosen deep x o (λ y. extend true x y) ≡ some v
    → Taken deep x o v
unfolding chosen is_object
chosen-Taken deep x none v e = cc
chosen-Taken false x (some y) v e = cc
chosen-Taken true x (some undefined_value) v e = cc
chosen-Taken true x (some null_value) v e = e
chosen-Taken true x (some (atom a)) v e = cc
chosen-Taken true x (some (listed qs)) v e = cc
chosen-Taken true x (some (object qs)) v e = e

-- What is at a key of the result, by what is there in the first argument.
abbrev pub Merged : Bool → Value → String → Option Value → Option Value → Type 0
Merged deep b key none q = q ≡ none
Merged deep b key (some x) q = (v : Value) × (q ≡ some v) × Taken deep x (found_in b key) v

Merged-property :
    (deep : Bool) (b x v : Value) (o : Option Value) (name key : String) (ps qs : Properties)
    → own_property name b ≡ some o
    → chosen deep x o (λ y. extend true x y) ≡ some v
    → Merged deep b key (find_property key ps) (find_property key qs)
    → Merged deep b key
        (find_property key (property name x ps))
        (find_property key (property name v qs))
unfolding find_property
Merged-property deep b x v o name key ps qs own taken rest = elim (Bool-cases (str_eq name key)) [
  | inl hit ↦
      let found : o ≡ found_in b key =
        own_property-found_in key b o
          (ap (λ t. own_property t b) (sym ((eq_iff name key).0 hit)) ∙ own) in
      rw hit (v, refl, subst (λ p. Taken deep x p v) found (chosen-Taken deep x o v taken))
  | inr miss ↦ rw miss rest
]

mutual
  unfolding extend extend_properties key_names find_property

  extend_total :
      (deep : Bool) (a b : Value) → HasNoNull b → (c : Value) × (extend deep a b ≡ some c)
  extend_total deep undefined_value b h = elim (Bool-cases (is_undefined b)) [
    | inl e ↦ (undefined_value, rw e refl)
    | inr e ↦ (object no_more, rw e refl)
  ]
  extend_total deep null_value b h = elim (Bool-cases (is_undefined b)) [
    | inl e ↦ (null_value, rw e refl)
    | inr e ↦ (object no_more, rw e refl)
  ]
  extend_total deep (atom a) b h = elim (Bool-cases (is_undefined b)) [
    | inl e ↦ (atom a, rw e refl)
    | inr e ↦ (object no_more, rw e refl)
  ]
  extend_total deep (listed ps) b h = elim (Bool-cases (is_undefined b)) [
    | inl e ↦ (listed ps, rw e refl)
    | inr e ↦
        let (qs, eq, _, _) = extend_properties_total deep ps b h e in
        (object qs, rw e (ap (λ m. m >>= λ rs. some (object rs)) eq))
  ]
  extend_total deep (object ps) b h = elim (Bool-cases (is_undefined b)) [
    | inl e ↦ (object ps, rw e refl)
    | inr e ↦
        let (qs, eq, _, _) = extend_properties_total deep ps b h e in
        (object qs, rw e (ap (λ m. m >>= λ rs. some (object rs)) eq))
  ]

  extend_properties_total :
      (deep : Bool) (ps : Properties) (b : Value)
      → HasNoNull b
      → is_undefined b ≡ false
      → (qs : Properties) × (extend_properties deep ps b ≡ some qs)
        × (key_names qs ≡ key_names ps)
        × ((key : String) → Merged deep b key (find_property key ps) (find_property key qs))
  extend_properties_total deep no_more b h d = (no_more, refl, refl, λ key. refl)
  extend_properties_total deep (property name x rest) b h d =
      let (o, own) = own_property-some name b h d in
      let (v, taken) =
        chosen_total deep x o (λ y. extend true x y) (λ y h'. extend_total true x y h')
          (λ y e. own_property-HasNoNull name b y h (own ∙ ap some e)) in
      let (qs, eq, keys, merged) = extend_properties_total deep rest b h d in
      (
        property name v qs,
        rw (own, taken, eq) refl,
        ap (◌∷◌ name) keys,
        λ key. Merged-property deep b x v o name key rest qs own taken (merged key),
      )

-- Over a second argument that is given and has no `null` in it, `extend` of an object does not throw.
-- The result has the object's keys and no other. At a key that the second argument has, it is that
-- argument's value, or if `deep_extend` is set and the value is an object, what `extend` gives of the
-- two values; at any other key it is the object's own.
pub extend_lem :
    (deep : Bool) (ps : Properties) (b : Value) (key : String)
    → HasNoNull b
    → is_undefined b ≡ false
    → (qs : Properties) × (extend deep (object ps) b ≡ some (object qs))
      × (key_names qs ≡ key_names ps)
      × Merged deep b key (find_property key ps) (find_property key qs)
unfolding extend
extend_lem deep ps b key h d =
    let (qs, eq, keys, merged) = extend_properties_total deep ps b h d in
    (qs, rw d (ap (λ m. m >>= λ rs. some (object rs)) eq), keys, merged key)
