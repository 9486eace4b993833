-- ===== src/Convert.antt =====
-- The conversion of heimdall2-master/libs/inspecjs/src/generated_parsers/v_1_0/exec-json.ts: values
-- against schemas. A number is its literal, since none is looked at. Not here: Date, which no type of
-- the map names, and the caches jsonToJS and jsToJSON, which hold what is computed again.
pub mod Transform
pub mod ExecJson
pub mod ExecJsonMin
pub mod ProfileJson
pub mod Conforms
pub mod Fits
pub mod Plain
pub mod Decides
pub mod Primitives
pub mod Accepts
pub mod Objects
pub mod Typed
use security_scan.Prelude.{String, Bool, Option, none, some, List, [], ◌∷◌, str_eq, if◌then◌else◌}

-- What JSON.parse makes, and `undefined`. An object is its own properties.
mutual
  pub data Value : Type 0 where
    undefined_value null_value : Value
    object : Properties → Value
    array : Elements → Value
    boolean : Bool → Value
    number string : String → Value

  pub data Properties : Type 0 where
    no_properties : Properties
    property : String → Value → Properties → Properties

  pub data Elements : Type 0 where
    no_elements : Elements
    element : Value → Elements → Elements

-- The types: 'any', null, false, undefined, the primitives by their examples, and a, u, o, m, r.
mutual
  pub data Schema : Type 0 where
    any_type null_type never undefined_type text_type number_type boolean_type : Schema
    enum : List String → Schema
    array_items : Schema → Schema
    union_members : Schemas → Schema
    props : Props → Schema → Schema
    ref : String → Schema

  pub data Schemas : Type 0 where
    no_schemas : Schemas
    schema : Schema → Schemas → Schemas

  -- the name in the JSON, the name in the program, the type
  pub data Props : Type 0 where
    no_props : Props
    prop : String → String → Schema → Props → Props

abbrev pub a : Schema → Schema
a typ = array_items typ

abbrev pub u : List Schema → Schema
u typs = union_members (members typs)
  where
    members : List Schema → Schemas
    members [] = no_schemas
    members (s ∷ ss) = schema s (members ss)

-- A property as the map writes it: `{json, js, typ}`.
abbrev pub o : List (String × String × Schema) → Schema → Schema
o ps additional = props (listed ps) additional
  where
    listed : List (String × String × Schema) → Props
    listed [] = no_props
    listed ((json, js, typ) ∷ rest) = prop json js typ (listed rest)

abbrev pub m : Schema → Schema
m additional = props no_props additional

abbrev pub r : String → Schema
r name = ref name

-- `map[key] = {key, typ}`: the entry of the key is replaced in its place.
unfoldable pub put_prop : String → String → Schema → Props → Props
put_prop key target typ no_props = prop key target typ no_props
put_prop key target typ (prop k t s ps) =
    if str_eq k key then prop key target typ ps else prop k t s (put_prop key target typ ps)

abbrev pub by_json : Props → Props → Props
by_json found no_props = found
by_json found (prop json js typ ps) = by_json (put_prop json js typ found) ps

abbrev pub by_js : Props → Props → Props
by_js found no_props = found
by_js found (prop json js typ ps) = by_js (put_prop js json typ found) ps

abbrev pub json_to_js_props : Props → Props
json_to_js_props ps = by_json no_props ps

abbrev pub js_to_json_props : Props → Props
js_to_json_props ps = by_js no_props ps

-- `result[key] = v`
unfoldable pub put_field : String → Value → Properties → Properties
put_field key v no_properties = property key v no_properties
put_field key v (property k w fs) =
    if str_eq k key then property key v fs else property k w (put_field key v fs)

-- `val[key]` of an own property
unfoldable pub own : String → Properties → Option Value
own key no_properties = none
own key (property k v fs) = if str_eq k key then some v else own key fs

-- `hasOwnProperty.call(val, key) ? val[key] : undefined`
abbrev pub value_or_undefined : Option Value → Value
value_or_undefined none = undefined_value
value_or_undefined (some v) = v

-- The entry of a key: the name to write and the type.
unfoldable pub entry_of : String → Props → Option (String × Schema)
entry_of key no_props = none
entry_of key (prop k t s ps) = if str_eq k key then some (t, s) else entry_of key ps
