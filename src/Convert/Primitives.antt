-- ===== src/Convert/Primitives.antt =====
-- transformEnum, transformPrimitive and the test on null of
-- heimdall2-master/libs/inspecjs/src/generated_parsers/v_1_0/exec-json.ts decide what they test.
use security_scan.Prelude.{
  ◌≡◌, String, true, false, Option, List, [], ◌∷◌, In, here, there, any, str_eq, eq_iff, arith,
  Bool-cases, inl, inr,
}
use security_scan.Convert.{
  Value, Schema, undefined_value, null_value, boolean, number, string, array, object, null_type,
  undefined_type, text_type, number_type, boolean_type, enum,
}
use security_scan.Convert.Transform.{
  Converted, transform_enum, transform_null, transform_primitive, of_undefined, of_boolean,
  of_number, of_string,
}
use security_scan.Convert.Conforms.{
  Conforms, is_null, is_undefined, is_text, is_number, is_boolean, is_case,
}
use security_scan.Convert.Decides.{Decides, accepts, rejects}

module _ (types : String → Option Schema) where
  abbrev pub Decided : Schema → Value → Converted Value → Type 0
  Decided s v = Decides (Conforms types v s) (λ w. Conforms types w s)

  includes-In : (s : String) (cases : List String) → any (λ c. str_eq c s) cases ≡ true → In s cases
  includes-In s [] h = ground arith
  includes-In s (c ∷ cs) h = elim (Bool-cases (str_eq c s)) [
    | inl e ↦ rw ((eq_iff c s).0 e) here
    | inr e ↦ there (includes-In s cs (ground arith))
  ]

  In-includes : (s : String) (cases : List String) → In s cases → any (λ c. str_eq c s) cases ≡ true
  In-includes s [] h = elim h [ ]
  In-includes s (c ∷ cs) here = ground (arith, eq_iff s s)
  In-includes s (c ∷ cs) (there h) = ground (arith, In-includes s cs h)

  pub enum_decides :
      (cases : List String) (v : Value) → Decided (enum cases) v (transform_enum cases v)
  unfolding transform_enum
  enum_decides cases (string s) = elim (Bool-cases (any (λ c. str_eq c s) cases)) [
    | inl e ↦ rw e (accepts (is_case (includes-In s cases e)) (is_case (includes-In s cases e)))
    | inr e ↦ rw e (rejects (λ d. not_case d e))
  ]
    where
      not_case :
          {s : String} {cases : List String}
          → Conforms types (string s) (enum cases)
          → any (λ c. str_eq c s) cases ≡ false
          → ⊥
      not_case (is_case {s} {cases} h) e = ground (arith, In-includes s cases h)
  enum_decides cases undefined_value = rejects (λ d. elim d [ ])
  enum_decides cases null_value = rejects (λ d. elim d [ ])
  enum_decides cases (boolean b) = rejects (λ d. elim d [ ])
  enum_decides cases (number n) = rejects (λ d. elim d [ ])
  enum_decides cases (array vs) = rejects (λ d. elim d [ ])
  enum_decides cases (object fs) = rejects (λ d. elim d [ ])

  pub null_decides : (v : Value) → Decided null_type v (transform_null v)
  unfolding transform_null
  null_decides null_value = accepts is_null is_null
  null_decides undefined_value = rejects (λ d. elim d [ ])
  null_decides (boolean b) = rejects (λ d. elim d [ ])
  null_decides (number n) = rejects (λ d. elim d [ ])
  null_decides (string s) = rejects (λ d. elim d [ ])
  null_decides (array vs) = rejects (λ d. elim d [ ])
  null_decides (object fs) = rejects (λ d. elim d [ ])

  pub undefined_decides :
      (v : Value) → Decided undefined_type v (transform_primitive of_undefined v)
  unfolding transform_primitive
  undefined_decides undefined_value = accepts is_undefined is_undefined
  undefined_decides null_value = rejects (λ d. elim d [ ])
  undefined_decides (boolean b) = rejects (λ d. elim d [ ])
  undefined_decides (number n) = rejects (λ d. elim d [ ])
  undefined_decides (string s) = rejects (λ d. elim d [ ])
  undefined_decides (array vs) = rejects (λ d. elim d [ ])
  undefined_decides (object fs) = rejects (λ d. elim d [ ])

  pub string_decides : (v : Value) → Decided text_type v (transform_primitive of_string v)
  unfolding transform_primitive
  string_decides undefined_value = rejects (λ d. elim d [ ])
  string_decides null_value = rejects (λ d. elim d [ ])
  string_decides (boolean b) = rejects (λ d. elim d [ ])
  string_decides (number n) = rejects (λ d. elim d [ ])
  string_decides (string s) = accepts (is_text s) (is_text s)
  string_decides (array vs) = rejects (λ d. elim d [ ])
  string_decides (object fs) = rejects (λ d. elim d [ ])

  pub number_decides : (v : Value) → Decided number_type v (transform_primitive of_number v)
  unfolding transform_primitive
  number_decides undefined_value = rejects (λ d. elim d [ ])
  number_decides null_value = rejects (λ d. elim d [ ])
  number_decides (boolean b) = rejects (λ d. elim d [ ])
  number_decides (number n) = accepts (is_number n) (is_number n)
  number_decides (string s) = rejects (λ d. elim d [ ])
  number_decides (array vs) = rejects (λ d. elim d [ ])
  number_decides (object fs) = rejects (λ d. elim d [ ])

  pub boolean_decides : (v : Value) → Decided boolean_type v (transform_primitive of_boolean v)
  unfolding transform_primitive
  boolean_decides undefined_value = rejects (λ d. elim d [ ])
  boolean_decides null_value = rejects (λ d. elim d [ ])
  boolean_decides (boolean b) = accepts (is_boolean b) (is_boolean b)
  boolean_decides (number n) = rejects (λ d. elim d [ ])
  boolean_decides (string s) = rejects (λ d. elim d [ ])
  boolean_decides (array vs) = rejects (λ d. elim d [ ])
  boolean_decides (object fs) = rejects (λ d. elim d [ ])
