-- ===== src/Convert/Typed.antt =====
-- The conversions of heimdall2-master/libs/inspecjs/src/generated_parsers/v_1_0/exec-json.ts against the
-- types of its map.
use security_scan.Prelude.{
  ℕ, zero, suc, ◌≡◌, refl, sym, subst, String, Bool, true, false, Option, some, arith, Option-cases,
  inl, inr,
}
use security_scan.Convert.{
  Value, Schema, Props, any_type, null_type, never, undefined_type, text_type, number_type,
  boolean_type, enum, array_items, union_members, props, ref, r, json_to_js_props, js_to_json_props,
}
use security_scan.Convert.Transform.{
  Converted, done, then_convert, dispatch, named, follow, transform, read_as, write_as,
}
use security_scan.Convert.ExecJson.{type_map, depth, to_exec_json, exec_json_to_json}
use security_scan.Convert.Conforms.{Conforms, is_any, is_named}
use security_scan.Convert.Fits.{plain, shape_fits, fits, exec_json_fits}
use security_scan.Convert.Plain.{json_to_js_props-plain, js_to_json_props-plain}
use security_scan.Convert.Decides.{Decides, accepts, rejects, weaken_decision}
use security_scan.Convert.Primitives.{
  Decided, enum_decides, null_decides, undefined_decides, string_decides, number_decides,
  boolean_decides,
}
use security_scan.Convert.Accepts.{union_decides, array_decides}
use security_scan.Convert.Objects.{object_decides}

module _ (types : String → Option Schema) (get_props : Props → Props)
    (agree : (ps : Props) → plain ps ≡ true → get_props ps ≡ ps) where
  module _ (go : Value → Schema → Converted Value) (fit : Schema → Bool)
      (go_decides : (v : Value) (s : Schema) → fit s ≡ true → Decided types s v (go v s)) where
    shape_decides :
        (s : Schema) (v : Value)
        → shape_fits false fit s ≡ true
        → Decided types s v (dispatch get_props go s v)
    unfolding shape_fits dispatch
    shape_decides any_type v h = absurd (ground (arith, h))
    shape_decides null_type v h = absurd (ground (arith, h))
    shape_decides never v h = absurd (ground (arith, h))
    shape_decides undefined_type v h = absurd (ground (arith, h))
    shape_decides text_type v h = absurd (ground (arith, h))
    shape_decides number_type v h = absurd (ground (arith, h))
    shape_decides boolean_type v h = absurd (ground (arith, h))
    shape_decides (ref name) v h = absurd (ground (arith, h))
    shape_decides (enum cases) v h = enum_decides types cases v
    shape_decides (array_items s) v h = array_decides types go fit go_decides s v h
    shape_decides (union_members ss) v h = union_decides types go fit go_decides ss v h
    shape_decides (props ps additional) v h =
        let p : plain ps ≡ true = ground arith in
        rw (agree ps p, dispatch)
          (object_decides types go fit go_decides ps additional v p (ground arith) (ground arith))

  follow-shape :
      (fit : Schema → Bool) (n : ℕ) (s : Schema)
      → shape_fits false fit s ≡ true
      → follow types n s ≡ s
  unfolding shape_fits follow
  follow-shape fit zero s h = refl
  follow-shape fit (suc n) (ref name) h = absurd (ground (arith, h))
  follow-shape fit (suc n) any_type h = refl
  follow-shape fit (suc n) null_type h = refl
  follow-shape fit (suc n) never h = refl
  follow-shape fit (suc n) undefined_type h = refl
  follow-shape fit (suc n) text_type h = refl
  follow-shape fit (suc n) number_type h = refl
  follow-shape fit (suc n) boolean_type h = refl
  follow-shape fit (suc n) (enum cases) h = refl
  follow-shape fit (suc n) (array_items s) h = refl
  follow-shape fit (suc n) (union_members ss) h = refl
  follow-shape fit (suc n) (props ps additional) h = refl

  no_value : {v : Value} → ¬ Conforms types v never
  no_value d = elim d [ ]

  named_of :
      {v : Value} {name : String}
      → Conforms types v (ref name)
      → Conforms types v (named types name)
  named_of (is_named d) = d

  transform_decides :
      (n : ℕ) (v : Value) (s : Schema)
      → fits types n s ≡ true
      → Decided types s v (transform types get_props n v s)
  unfolding fits shape_fits transform follow dispatch
  transform_decides zero v s h = absurd (ground (arith, h))
  transform_decides (suc n) v any_type h = accepts is_any is_any
  transform_decides (suc n) v null_type h = null_decides types v
  transform_decides (suc n) v never h = rejects no_value
  transform_decides (suc n) v undefined_type h = undefined_decides types v
  transform_decides (suc n) v text_type h = string_decides types v
  transform_decides (suc n) v number_type h = number_decides types v
  transform_decides (suc n) v boolean_type h = boolean_decides types v
  transform_decides (suc n) v (ref name) h =
      subst (λ s. Decided types (ref name) v (dispatch get_props (transform types get_props n) s v))
        (sym (follow-shape (fits types n) n (named types name) h))
        (weaken_decision
          (shape_decides (transform types get_props n) (fits types n) (transform_decides n)
            (named types name) v h)
          is_named named_of (λ w. is_named))
  transform_decides (suc n) v (enum cases) h =
      shape_decides (transform types get_props n) (fits types n) (transform_decides n) (enum cases)
        v h
  transform_decides (suc n) v (array_items s) h =
      shape_decides (transform types get_props n) (fits types n) (transform_decides n)
        (array_items s) v h
  transform_decides (suc n) v (union_members ss) h =
      shape_decides (transform types get_props n) (fits types n) (transform_decides n)
        (union_members ss) v h
  transform_decides (suc n) v (props ps additional) h =
      shape_decides (transform types get_props n) (fits types n) (transform_decides n)
        (props ps additional) v h

-- The conversions of a text and back, for a map and a root that fit.
module _ (types : String → Option Schema) (depth : ℕ) (root : String)
    (fit : fits types depth (r root) ≡ true) where
  pub read_as-Decides :
      (json_parse : String → Option Value) (text : String) (v : Value)
      → json_parse text ≡ some v
      → Decided types (r root) v (read_as types depth root json_parse text)
  read_as-Decides json_parse text v h =
      rw (h, read_as)
        (transform_decides types json_to_js_props json_to_js_props-plain depth v (r root) fit)

  accepted_result :
      {c : Converted Value} {v w : Value}
      → Decided types (r root) v c
      → c ≡ done w
      → Conforms types w (r root)
  accepted_result (accepts p q) h = subst (λ w. Conforms types w (r root)) (ground (arith, h)) q
  accepted_result (rejects n) h = absurd (ground (arith, h))

  result_of :
      (json_parse : String → Option Value) (text : String) (w : Value)
      → read_as types depth root json_parse text ≡ done w
      → Conforms types w (r root)
  result_of json_parse text w h = elim (Option-cases (json_parse text)) [
    | inl e ↦ absurd (ground (arith, e, h))
    | inr (v, e) ↦ accepted_result (read_as-Decides json_parse text v e) h
  ]

  accepted_by :
      {c : Converted Value} {v : Value} (write : Value → String)
      → Decided types (r root) v c
      → Conforms types v (r root)
      → (x : Value) × (then_convert c (λ w. done (write w)) ≡ done (write x))
        × Conforms types x (r root)
  accepted_by write (accepts {v} p q) d = (v, refl, q)
  accepted_by write (rejects n) d = absurd (n d)

  pub write_as-read_as :
      (json_parse : String → Option Value) (json_stringify : Value → String) (text : String)
      (w : Value)
      → read_as types depth root json_parse text ≡ done w
      → (x : Value) × (write_as types depth root json_stringify w ≡ done (json_stringify x))
        × Conforms types x (r root)
  write_as-read_as json_parse json_stringify text w h =
      accepted_by json_stringify
        (transform_decides types js_to_json_props js_to_json_props-plain depth w (r root) fit)
        (result_of json_parse text w h)

-- A text that JSON.parse reads as a value is converted exactly when the value is of the type ExecJSON,
-- and then to a value of that type; otherwise the conversion throws.
pub to_exec_json-Decides :
    (json_parse : String → Option Value) (text : String) (v : Value)
    → json_parse text ≡ some v
    → Decides
        (Conforms type_map v (r "ExecJSON"))
        (λ w. Conforms type_map w (r "ExecJSON"))
        (to_exec_json json_parse text)
to_exec_json-Decides json_parse text v h =
    read_as-Decides type_map depth "ExecJSON" exec_json_fits json_parse text v h

-- What a text is converted to can be written back: no conversion to JSON throws on it, and what is
-- written is of the type ExecJSON again.
pub exec_json_to_json-to_exec_json :
    (json_parse : String → Option Value) (json_stringify : Value → String) (text : String)
    (w : Value)
    → to_exec_json json_parse text ≡ done w
    → (x : Value) × (exec_json_to_json json_stringify w ≡ done (json_stringify x))
      × Conforms type_map x (r "ExecJSON")
exec_json_to_json-to_exec_json = write_as-read_as type_map depth "ExecJSON" exec_json_fits
