-- ===== src/Convert/Plain.antt =====
-- The maps jsonToJSProps and jsToJSONProps of
-- heimdall2-master/libs/inspecjs/src/generated_parsers/v_1_0/exec-json.ts, for properties whose names
-- are the same on both sides and distinct.
use security_scan.Prelude.{
  ◌≡◌, refl, ◌∙◌, ap, String, true, false, none, str_eq, eq_iff, arith, Bool-cases, inl, inr,
}
use security_scan.Convert.{
  Schema, Props, no_props, prop, put_prop, entry_of, json_to_js_props, js_to_json_props, by_json,
  by_js,
}
use security_scan.Convert.Fits.{plain}

abbrev append_props : Props → Props → Props
append_props no_props qs = qs
append_props (prop k t s ps) qs = prop k t s (append_props ps qs)

put_prop-absent :
    (k t : String) (s : Schema) (found : Props)
    → entry_of k found ≡ none
    → put_prop k t s found ≡ append_props found (prop k t s no_props)
unfolding put_prop entry_of
put_prop-absent k t s no_props h = refl
put_prop-absent k t s (prop j u v ps) h = ground (arith, put_prop-absent k t s ps)

append-prop :
    (found : Props) (k t : String) (s : Schema) (ps : Props)
    → append_props (append_props found (prop k t s no_props)) ps
      ≡ append_props found (prop k t s ps)
append-prop no_props k t s ps = refl
append-prop (prop j u v found) k t s ps = ap (prop j u v) (append-prop found k t s ps)

entry_of-append :
    (j : String) (found : Props) (k t : String) (s : Schema)
    → entry_of j found ≡ none
    → str_eq k j ≡ false
    → entry_of j (append_props found (prop k t s no_props)) ≡ none
unfolding entry_of
entry_of-append j no_props k t s h d = ground arith
entry_of-append j (prop i u v found) k t s h d = ground (arith, entry_of-append j found k t s)

-- No property of the second list stands in the first.
abbrev Fresh : Props → Props → Type 0
Fresh found no_props = Unit
Fresh found (prop k t s ps) = (entry_of k found ≡ none) × Fresh found ps

Fresh-append :
    (found : Props) (k t : String) (s : Schema) (ps : Props)
    → Fresh found ps
    → entry_of k ps ≡ none
    → Fresh (append_props found (prop k t s no_props)) ps
unfolding entry_of
Fresh-append found k t s no_props f h = tt
Fresh-append found k t s (prop j u v ps) f h = elim (Bool-cases (str_eq j k)) [
  | inl e ↦ ground arith
  | inr e ↦ (
    entry_of-append j found k t s f.0 (ground (arith, eq_iff j k, eq_iff k j)),
    Fresh-append found k t s ps f.1 (ground arith),
  )
]

Fresh-none : (ps : Props) → Fresh no_props ps
unfolding entry_of
Fresh-none no_props = tt
Fresh-none (prop k t s ps) = (refl, Fresh-none ps)

-- What `plain` says of the first property.
pub record Head (json js : String) (ps : Props) : Type 0 where
  pub one_name : json ≡ js
  pub is_absent : entry_of json ps ≡ none
  pub tail_plain : plain ps ≡ true

pub plain-Head :
    (json js : String) (s : Schema) (ps : Props)
    → plain (prop json js s ps) ≡ true
    → Head json js ps
unfolding plain
plain-Head json js s ps h = record {
  one_name = ground (arith, eq_iff json js);
  is_absent = ground arith;
  tail_plain = ground arith;
}

by_json-plain :
    (found ps : Props) → plain ps ≡ true → Fresh found ps → by_json found ps ≡ append_props found ps
unfolding plain
by_json-plain no_props no_props h f = refl
by_json-plain (prop k t s found) no_props h f = ap (prop k t s) (by_json-plain found no_props h f)
by_json-plain found (prop json js s ps) h f =
    let p = plain-Head json js s ps h in
    ap (λ q. by_json q ps) (put_prop-absent json js s found f.0)
    ∙ by_json-plain (append_props found (prop json js s no_props)) ps p.tail_plain
        (Fresh-append found json js s ps f.1 p.is_absent)
    ∙ append-prop found json js s ps

-- On such properties both maps are the properties themselves.
pub json_to_js_props-plain : (ps : Props) → plain ps ≡ true → json_to_js_props ps ≡ ps
json_to_js_props-plain ps h = by_json-plain no_props ps h (Fresh-none ps)

by_js-by_json : (found ps : Props) → plain ps ≡ true → by_js found ps ≡ by_json found ps
by_js-by_json found no_props h = refl
by_js-by_json found (prop json js s ps) h =
    let p = plain-Head json js s ps h in
    rw p.one_name (by_js-by_json (put_prop js js s found) ps p.tail_plain)

pub js_to_json_props-plain : (ps : Props) → plain ps ≡ true → js_to_json_props ps ≡ ps
js_to_json_props-plain ps h = by_js-by_json no_props ps h ∙ json_to_js_props-plain ps h
