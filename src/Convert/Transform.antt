-- ===== src/Convert/Transform.antt =====
-- The function transform of heimdall2-master/libs/inspecjs/src/generated_parsers/v_1_0/exec-json.ts
-- and those inside it. The map of the named types is an argument.
use security_scan.Prelude.{
  ℕ, zero, suc, String, Bool, true, false, Option, none, some, List, [], ◌∷◌, str_eq, any,
  if◌then◌else◌,
}
use security_scan.Convert.{
  Value, Elements, Properties, Schema, Schemas, Props, undefined_value, null_value, boolean, number,
  string, array, object, no_elements, element, no_properties, property, any_type, null_type, never,
  undefined_type, text_type, number_type, boolean_type, enum, array_items, union_members, props,
  ref, no_schemas, schema, no_props, prop, put_field, own, value_or_undefined, entry_of,
  json_to_js_props, js_to_json_props,
}

-- What a conversion gives: a value, or the error that invalidValue throws. The model's own error ends a
-- conversion whose fuel is too small.
pub data Converted {ℓ} (A : Type ℓ) : Type ℓ where
  done : A → Converted A
  invalid_value : Converted A
  out_of_fuel : Converted A

abbrev pub then_convert {ℓ} : {A B : Type ℓ} → Converted A → (A → Converted B) → Converted B
then_convert (done v) next = next v
then_convert invalid_value next = invalid_value
then_convert out_of_fuel next = out_of_fuel

-- transform, by the call of itself on a smaller amount of fuel
module _ (go : Value → Schema → Converted Value) where
  -- the first member that does not throw
  unfoldable pub transform_union : Schemas → Value → Converted Value
  transform_union no_schemas v = invalid_value
  transform_union (schema s ss) v = elim (go v s) [
    | done w ↦ done w
    | invalid_value ↦ transform_union ss v
    | out_of_fuel ↦ out_of_fuel
  ]

  unfoldable pub transform_items : Schema → Elements → Converted Elements
  transform_items typ no_elements = done no_elements
  transform_items typ (element v vs) =
      then_convert (go v typ)
        (λ w. then_convert (transform_items typ vs) (λ ws. done (element w ws)))

  unfoldable pub transform_array : Schema → Value → Converted Value
  unfolding transform_items
  transform_array typ (array vs) = then_convert (transform_items typ vs) (λ ws. done (array ws))
  transform_array typ other = invalid_value

  -- the properties of the map, in its order
  unfoldable pub transform_props : Props → Properties → Properties → Converted Properties
  transform_props no_props val result = done result
  transform_props (prop key target typ ps) val result =
      then_convert (go (value_or_undefined (own key val)) typ)
        (λ w. transform_props ps val (put_field target w result))

  -- the properties of the value that the map does not have
  unfoldable pub transform_additional :
      Props → Schema → Properties → Properties → Converted Properties
  transform_additional ps additional no_properties result = done result
  transform_additional ps additional (property key v fs) result = elim (entry_of key ps) [
    | some e ↦ transform_additional ps additional fs result
    | none ↦
        then_convert (go v additional)
          (λ w. transform_additional ps additional fs (put_field key w result))
  ]

  unfoldable pub transform_object : Props → Schema → Value → Converted Value
  unfolding transform_props transform_additional
  transform_object ps additional (object val) =
      then_convert (transform_props ps val no_properties) (λ known.
        then_convert (transform_additional ps additional val known)
          (λ result. done (object result)))
  transform_object ps additional other = invalid_value

-- `cases.indexOf(val) !== -1`
unfoldable pub transform_enum : List String → Value → Converted Value
transform_enum cases (string s) =
    if any (λ c. str_eq c s) cases then done (string s) else invalid_value
transform_enum cases other = invalid_value

-- `typ === null`
unfoldable pub transform_null : Value → Converted Value
transform_null null_value = done null_value
transform_null other = invalid_value

-- The results of typeof.
pub data Kind : Type 0 where
  of_undefined of_object of_boolean of_number of_string : Kind

abbrev pub typeof : Value → Kind
typeof undefined_value = of_undefined
typeof null_value = of_object
typeof (boolean b) = of_boolean
typeof (number n) = of_number
typeof (string s) = of_string
typeof (array vs) = of_object
typeof (object fs) = of_object

abbrev pub same_kind : Kind → Kind → Bool
same_kind of_undefined of_undefined = true
same_kind of_object of_object = true
same_kind of_boolean of_boolean = true
same_kind of_number of_number = true
same_kind of_string of_string = true
same_kind j k = false

unfoldable pub transform_primitive : Kind → Value → Converted Value
transform_primitive k v = if same_kind k (typeof v) then done v else invalid_value

-- The tests on the shape of a type that the references lead to.
module _ (get_props : Props → Props) (go : Value → Schema → Converted Value) where
  unfoldable pub dispatch : Schema → Value → Converted Value
  unfolding transform_union transform_array transform_object transform_enum transform_primitive
  dispatch (ref name) v = out_of_fuel
  dispatch (enum cases) v = transform_enum cases v
  dispatch (union_members ss) v = transform_union go ss v
  dispatch (array_items typ) v = transform_array go typ v
  dispatch (props ps additional) v = transform_object go (get_props ps) additional v
  dispatch any_type v = transform_primitive of_string v
  dispatch null_type v = invalid_value
  dispatch never v = transform_primitive of_boolean v
  dispatch undefined_type v = transform_primitive of_undefined v
  dispatch text_type v = transform_primitive of_string v
  dispatch number_type v = transform_primitive of_number v
  dispatch boolean_type v = transform_primitive of_boolean v

-- A type map as its list of entries.
abbrev pub find_type : List (String × Schema) → String → Option Schema
find_type [] name = none
find_type ((n, s) ∷ rest) name = if str_eq n name then some s else find_type rest name

module _ (type_map : String → Option Schema) where
  -- `typeMap[typ.ref]`
  abbrev pub named : String → Schema
  named name = elim (type_map name) [ none ↦ undefined_type | some s ↦ s ]

  -- `while (typeof typ === 'object' && typ.ref !== undefined)`
  unfoldable pub follow : ℕ → Schema → Schema
  follow zero s = s
  follow (suc fuel) (ref name) = follow fuel (named name)
  follow (suc fuel) s = s

  unfoldable pub transform : (Props → Props) → ℕ → Value → Schema → Converted Value
  unfolding transform_null dispatch follow
  transform get_props zero v s = out_of_fuel
  transform get_props (suc fuel) v any_type = done v
  transform get_props (suc fuel) v null_type = transform_null v
  transform get_props (suc fuel) v never = invalid_value
  transform get_props (suc fuel) v s =
      dispatch get_props (transform get_props fuel) (follow (suc fuel) s) v

  abbrev pub cast : ℕ → Value → Schema → Converted Value
  cast = transform json_to_js_props

  abbrev pub uncast : ℕ → Value → Schema → Converted Value
  uncast = transform js_to_json_props

  -- `cast(JSON.parse(json), r(root))`; a text that is not JSON is no value
  abbrev pub read_as : ℕ → String → (String → Option Value) → String → Converted Value
  read_as depth root json_parse text = elim (json_parse text) [
    | none ↦ invalid_value
    | some v ↦ cast depth v (ref root)
  ]

  -- `JSON.stringify(uncast(value, r(root)))`
  abbrev pub write_as : ℕ → String → (Value → String) → Value → Converted String
  write_as depth root json_stringify v =
      then_convert (uncast depth v (ref root)) (λ w. done (json_stringify w))
