-- ===== src/Convert/Fits.antt =====
-- The type maps of heimdall2-master/libs/inspecjs/src/generated_parsers/v_1_0, tested once: the names
-- of their properties are the same in the JSON and in the program and are distinct, their references
-- lead to enumerations, arrays, unions or objects, and the types nest no deeper than the fuel.
use security_scan.Prelude.{
  ℕ, zero, suc, ◌≡◌, refl, String, Bool, true, false, ◌&&◌, Option, none, some, str_eq,
}
use security_scan.Convert.{
  Schema, Schemas, Props, any_type, null_type, never, undefined_type, text_type, number_type,
  boolean_type, enum, array_items, union_members, props, ref, no_schemas, schema, no_props, prop,
  entry_of, r,
}
use security_scan.Convert.Transform.{named}
use security_scan.Convert.ExecJson
use security_scan.Convert.ExecJsonMin
use security_scan.Convert.ProfileJson

abbrev pub absent : Option (String × Schema) → Bool
absent none = true
absent (some e) = false

unfoldable pub plain : Props → Bool
plain no_props = true
plain (prop json js s ps) = str_eq json js && absent (entry_of json ps) && plain ps

abbrev pub all_props : (Schema → Bool) → Props → Bool
all_props fit no_props = true
all_props fit (prop json js s ps) = fit s && all_props fit ps

abbrev pub all_members : (Schema → Bool) → Schemas → Bool
all_members fit no_schemas = true
all_members fit (schema s ss) = fit s && all_members fit ss

-- `top` is the answer for the types that are tested before the references are followed.
unfoldable pub shape_fits : Bool → (Schema → Bool) → Schema → Bool
unfolding plain
shape_fits top fit any_type = top
shape_fits top fit null_type = top
shape_fits top fit never = top
shape_fits top fit undefined_type = top
shape_fits top fit text_type = top
shape_fits top fit number_type = top
shape_fits top fit boolean_type = top
shape_fits top fit (ref name) = false
shape_fits top fit (enum cases) = true
shape_fits top fit (array_items s) = fit s
shape_fits top fit (union_members ss) = all_members fit ss
shape_fits top fit (props ps additional) = plain ps && all_props fit ps && fit additional

unfoldable pub fits : (String → Option Schema) → ℕ → Schema → Bool
unfolding shape_fits
fits types zero s = false
fits types (suc n) (ref name) = shape_fits false (fits types n) (named types name)
fits types (suc n) s = shape_fits true (fits types n) s

pub exec_json_fits : fits ExecJson.type_map ExecJson.depth (r "ExecJSON") ≡ true
unfolding fits ExecJson.type_map entry_of
exec_json_fits = refl

pub exec_jsonmin_fits : fits ExecJsonMin.type_map ExecJsonMin.depth (r "ExecJsonmin") ≡ true
unfolding fits ExecJsonMin.type_map entry_of
exec_jsonmin_fits = refl

pub profile_json_fits : fits ProfileJson.type_map ProfileJson.depth (r "ProfileJSON") ≡ true
unfolding fits ProfileJson.type_map entry_of
profile_json_fits = refl
