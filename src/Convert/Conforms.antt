-- ===== src/Convert/Conforms.antt =====
-- When a value is of a type of heimdall2-master/libs/inspecjs/src/generated_parsers/v_1_0/exec-json.ts,
-- said without the conversion.
use security_scan.Prelude.{◌≡◌, String, Bool, Option, none, some, List, In}
use security_scan.Convert.{
  Value, Elements, Properties, Schema, Schemas, Props, undefined_value, null_value, boolean, number,
  string, array, object, no_elements, element, no_properties, property, any_type, null_type,
  undefined_type, text_type, number_type, boolean_type, enum, array_items, union_members, props,
  ref, schema, no_props, prop, own, value_or_undefined, entry_of,
}
use security_scan.Convert.Transform.{named}

module _ (type_map : String → Option Schema) where
  mutual
    pub data Conforms : Value → Schema → Type 0 where
      is_any : {v : Value} → Conforms v any_type
      is_null : Conforms null_value null_type
      is_undefined : Conforms undefined_value undefined_type
      is_text : (s : String) → Conforms (string s) text_type
      is_number : (n : String) → Conforms (number n) number_type
      is_boolean : (b : Bool) → Conforms (boolean b) boolean_type
      is_case : {s : String} {cases : List String} → In s cases → Conforms (string s) (enum cases)
      is_array :
          {vs : Elements} {s : Schema} → ItemsConform vs s → Conforms (array vs) (array_items s)
      is_member : {v : Value} {ss : Schemas} → Member v ss → Conforms v (union_members ss)
      is_object :
          {fs : Properties} {ps : Props} {additional : Schema}
          → PropsConform fs ps
          → OthersConform ps additional fs
          → Conforms (object fs) (props ps additional)
      is_named :
          {v : Value} {name : String} → Conforms v (named type_map name) → Conforms v (ref name)

    pub data ItemsConform : Elements → Schema → Type 0 where
      no_items_conform : {s : Schema} → ItemsConform no_elements s
      item_conforms :
          {v : Value} {vs : Elements} {s : Schema}
          → Conforms v s
          → ItemsConform vs s
          → ItemsConform (element v vs) s

    -- of one of the types
    pub data Member : Value → Schemas → Type 0 where
      first_member : {v : Value} {s : Schema} {ss : Schemas} → Conforms v s → Member v (schema s ss)
      later_member : {v : Value} {s : Schema} {ss : Schemas} → Member v ss → Member v (schema s ss)

    -- each property of the type; one that is not there counts as undefined
    pub data PropsConform : Properties → Props → Type 0 where
      no_props_conform : {fs : Properties} → PropsConform fs no_props
      prop_conforms :
          {fs : Properties} {json js : String} {s : Schema} {ps : Props}
          → Conforms (value_or_undefined (own json fs)) s
          → PropsConform fs ps
          → PropsConform fs (prop json js s ps)

    -- each property of the value that the type does not have
    pub data OthersConform : Props → Schema → Properties → Type 0 where
      no_others : {ps : Props} {additional : Schema} → OthersConform ps additional no_properties
      known_conforms :
          {ps : Props} {additional : Schema} {key : String} {v : Value} {fs : Properties}
          (e : String × Schema)
          → entry_of key ps ≡ some e
          → OthersConform ps additional fs
          → OthersConform ps additional (property key v fs)
      other_conforms :
          {ps : Props} {additional : Schema} {key : String} {v : Value} {fs : Properties}
          → entry_of key ps ≡ none
          → Conforms v additional
          → OthersConform ps additional fs
          → OthersConform ps additional (property key v fs)
