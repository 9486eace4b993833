-- ===== src/Convert/Objects.antt =====
-- transformObject of heimdall2-master/libs/inspecjs/src/generated_parsers/v_1_0/exec-json.ts decides
-- what it tests, if the calls of transform inside it do, for properties whose names are the same on
-- both sides and distinct.
use security_scan.Prelude.{
  ◌≡◌, refl, sym, ◌∙◌, String, Bool, true, false, Option, none, some, str_eq, eq_iff, if◌then◌else◌,
  arith, Bool-cases, inl, inr, subst, Option-cases,
}
use security_scan.Convert.{
  Value, Properties, Schema, Props, undefined_value, null_value, boolean, number, string, array,
  object, no_properties, property, props, no_props, prop, put_field, own, value_or_undefined,
  entry_of,
}
use security_scan.Convert.Transform.{
  Converted, transform_props, transform_additional, transform_object,
}
use security_scan.Convert.Conforms.{
  Conforms, PropsConform, OthersConform, is_object, no_props_conform, prop_conforms, no_others,
  known_conforms, other_conforms,
}
use security_scan.Convert.Fits.{plain, all_props}
use security_scan.Convert.Plain.{plain-Head}
use security_scan.Convert.Decides.{Decides, accepts, rejects, then-Decides, weaken_decision}
use security_scan.Convert.Primitives.{Decided}

-- A property that is read after a write.
own-put_field :
    (j k : String) (v : Value) (fs : Properties)
    → own j (put_field k v fs) ≡ (if str_eq k j then some v else own j fs)
unfolding own put_field
own-put_field j k v no_properties = refl
own-put_field j k v (property i w fs) =
    ground (arith, own-put_field j k v fs, eq_iff i k, eq_iff i j, eq_iff k j, eq_iff k k)

own-put_other :
    (j k : String) (v : Value) (fs : Properties)
    → str_eq k j ≡ false
    → own j (put_field k v fs) ≡ own j fs
own-put_other j k v fs h = ground (arith, own-put_field j k v fs)

own-put_same : (k : String) (v : Value) (fs : Properties) → own k (put_field k v fs) ≡ some v
own-put_same k v fs = ground (arith, own-put_field k k v fs, eq_iff k k)

module _ (types : String → Option Schema) where
  -- A property that the type does not have leaves its properties as they are.
  PropsConform-put :
      {ps : Props} {result : Properties} (k : String) (v : Value)
      → entry_of k ps ≡ none
      → PropsConform types result ps
      → PropsConform types (put_field k v result) ps
  unfolding entry_of
  PropsConform-put k v h no_props_conform = no_props_conform
  PropsConform-put k v h (prop_conforms {fs} {json} {js} {s} {ps} d ds) =
      prop_conforms
        (subst (λ o. Conforms types (value_or_undefined o) s)
          (sym (own-put_other json k v fs (ground (arith, eq_iff json k, eq_iff k json)))) d)
        (PropsConform-put k v (ground arith) ds)

  -- What may be written under a key.
  data Allowed (ps : Props) (additional : Schema) (k : String) (v : Value) : Type 0 where
    known : (e : String × Schema) → entry_of k ps ≡ some e → Allowed ps additional k v
    other : entry_of k ps ≡ none → Conforms types v additional → Allowed ps additional k v

  first-Allowed :
      {ps : Props} {additional : Schema} {k : String} {v : Value} {fs : Properties}
      → Allowed ps additional k v
      → OthersConform types ps additional fs
      → OthersConform types ps additional (property k v fs)
  first-Allowed (known e h) ds = known_conforms e h ds
  first-Allowed (other h d) ds = other_conforms h d ds

  others_tail :
      {ps : Props} {additional : Schema} {j : String} {u : Value} {fs : Properties}
      → OthersConform types ps additional (property j u fs)
      → OthersConform types ps additional fs
  others_tail (known_conforms e h ds) = ds
  others_tail (other_conforms h d ds) = ds

  head-Allowed :
      {ps : Props} {additional : Schema} {j : String} {u : Value} {fs : Properties}
      → OthersConform types ps additional (property j u fs)
      → Allowed ps additional j u
  head-Allowed (known_conforms e h ds) = known e h
  head-Allowed (other_conforms h d ds) = other h d

  other_of :
      {ps : Props} {additional : Schema} {j : String} {u : Value} {fs : Properties}
      → entry_of j ps ≡ none
      → OthersConform types ps additional (property j u fs)
      → Conforms types u additional
  other_of n (known_conforms e h ds) = absurd (ground (arith, n, h))
  other_of n (other_conforms h d ds) = d

  head_conforms :
      {fs : Properties} {json js : String} {s : Schema} {ps : Props}
      → PropsConform types fs (prop json js s ps)
      → Conforms types (value_or_undefined (own json fs)) s
  head_conforms (prop_conforms d ds) = d

  tail_conforms :
      {fs : Properties} {json js : String} {s : Schema} {ps : Props}
      → PropsConform types fs (prop json js s ps)
      → PropsConform types fs ps
  tail_conforms (prop_conforms d ds) = ds

  OthersConform-put :
      {ps : Props} {additional : Schema} (k : String) (v : Value) (fs : Properties)
      → Allowed ps additional k v
      → OthersConform types ps additional fs
      → OthersConform types ps additional (put_field k v fs)
  unfolding put_field
  OthersConform-put k v no_properties w ds = first-Allowed w ds
  OthersConform-put {ps} {additional} k v (property j u fs) w ds = elim (Bool-cases (str_eq j k)) [
    | inl e ↦ rw (e, put_field) (first-Allowed w (others_tail ds))
    | inr e ↦
        rw (e, put_field)
          (first-Allowed (head-Allowed ds) (OthersConform-put k v fs w (others_tail ds)))
  ]

  -- What holds of the result when the properties `ps` of all those of the type have been written.
  record Written (full ps : Props) (additional : Schema) (before result : Properties) : Type 0 where
    conform : PropsConform types result ps
    kept : (j : String) → entry_of j ps ≡ none → own j result ≡ own j before
    others : OthersConform types full additional result

  abbrev Covers : Props → Props → Type 0
  Covers ps full = (j : String) → entry_of j full ≡ none → entry_of j ps ≡ none

  tail-Covers :
      (k t : String) (s : Schema) (ps full : Props) → Covers (prop k t s ps) full → Covers ps full
  unfolding entry_of
  tail-Covers k t s ps full c j h = elim (Bool-cases (str_eq k j)) [
    | inl e ↦ ground (arith, c j h)
    | inr e ↦ ground (arith, c j h)
  ]

  prop-Allowed :
      (k t : String) (s : Schema) (ps full : Props) {additional : Schema} {v : Value}
      → Covers (prop k t s ps) full
      → Allowed full additional k v
  unfolding entry_of
  prop-Allowed k t s ps full c = elim (Option-cases (entry_of k full)) [
    | inl e ↦ absurd (ground (arith, c k e, eq_iff k k))
    | inr (x, e) ↦ known x e
  ]

  prop-Written :
      {full ps : Props} {additional : Schema} {k t : String} {s : Schema} {v : Value}
      {before result : Properties}
      → entry_of k ps ≡ none
      → Conforms types v s
      → Written full ps additional (put_field k v before) result
      → Written full (prop k t s ps) additional before result
  unfolding entry_of
  prop-Written {k = k} {s = s} {v = v} {before = before} {result = result} h d w = record {
    conform =
        prop_conforms
          (subst (λ o. Conforms types (value_or_undefined o) s)
            (sym (w.kept k h ∙ own-put_same k v before)) d)
          w.conform;
    kept = λ j e. ground (arith, w.kept j, own-put_field j k v before);
    others = w.others;
  }

  module _ (go : Value → Schema → Converted Value) (ok : Schema → Bool)
      (go_decides : (v : Value) (s : Schema) → ok s ≡ true → Decided types s v (go v s)) where
    props_decide :
        (full : Props) (additional : Schema) (ps : Props) (val result : Properties)
        → plain ps ≡ true
        → all_props ok ps ≡ true
        → Covers ps full
        → OthersConform types full additional result
        → Decides
            (PropsConform types val ps)
            (Written full ps additional result)
            (transform_props go ps val result)
    unfolding transform_props
    props_decide full additional no_props val result p h c d =
        accepts no_props_conform
          (record { conform = no_props_conform; kept = λ j e. refl; others = d })
    props_decide full additional (prop json js s ps) val result p h c d =
        let first = plain-Head json js s ps p in
        then-Decides (λ w. transform_props go ps val (put_field js w result))
          (go_decides (value_or_undefined (own json val)) s (ground arith))
          (λ w x y.
            subst
              (λ k.
                Decides (PropsConform types val (prop json js s ps))
                  (Written full (prop json js s ps) additional result)
                  (transform_props go ps val (put_field k w result)))
              first.one_name
              (weaken_decision
                (props_decide full additional ps val (put_field json w result) first.tail_plain
                  (ground arith) (tail-Covers json js s ps full c)
                  (OthersConform-put json w result (prop-Allowed json js s ps full c) d))
                (prop_conforms x) tail_conforms (λ r q. prop-Written first.is_absent y q)))
          head_conforms

    others_decide :
        (ps : Props) (additional : Schema) (fs result : Properties)
        → ok additional ≡ true
        → PropsConform types result ps
        → OthersConform types ps additional result
        → Decides
            (OthersConform types ps additional fs)
            (λ r. PropsConform types r ps × OthersConform types ps additional r)
            (transform_additional go ps additional fs result)
    unfolding transform_additional
    others_decide ps additional no_properties result h d o = accepts no_others (d, o)
    others_decide ps additional (property k v fs) result h d o =
        elim (Option-cases (entry_of k ps)) [
          | inr (x, e) ↦
              rw (e, transform_additional)
                (weaken_decision (others_decide ps additional fs result h d o) (known_conforms x e)
                  others_tail (λ w q. q))
          | inl e ↦
              rw (e, transform_additional)
                (then-Decides (λ w. transform_additional go ps additional fs (put_field k w result))
                  (go_decides v additional h)
                  (λ w x y.
                    weaken_decision
                      (others_decide ps additional fs (put_field k w result) h
                        (PropsConform-put k w e d) (OthersConform-put k w result (other e y) o))
                      (other_conforms e x) others_tail (λ r q. q))
                  (other_of e))
        ]

    props_of :
        {fs : Properties} {ps : Props} {additional : Schema}
        → Conforms types (object fs) (props ps additional)
        → PropsConform types fs ps
    props_of (is_object d o) = d

    others_of :
        {fs : Properties} {ps : Props} {additional : Schema}
        → Conforms types (object fs) (props ps additional)
        → OthersConform types ps additional fs
    others_of (is_object d o) = o

    pub object_decides :
        (ps : Props) (additional : Schema) (v : Value)
        → plain ps ≡ true
        → all_props ok ps ≡ true
        → ok additional ≡ true
        → Decided types (props ps additional) v (transform_object go ps additional v)
    unfolding transform_object
    object_decides ps additional (object fs) p h k =
        then-Decides _ (props_decide ps additional ps fs no_properties p h (λ j e. e) no_others)
          (λ known x y.
            then-Decides _ (others_decide ps additional fs known k y.conform y.others)
              (λ r z q. accepts (is_object x z) (is_object q.0 q.1)) others_of)
          props_of
    object_decides ps additional undefined_value p h k = rejects (λ d. elim d [ ])
    object_decides ps additional null_value p h k = rejects (λ d. elim d [ ])
    object_decides ps additional (boolean b) p h k = rejects (λ d. elim d [ ])
    object_decides ps additional (number n) p h k = rejects (λ d. elim d [ ])
    object_decides ps additional (string t) p h k = rejects (λ d. elim d [ ])
    object_decides ps additional (array vs) p h k = rejects (λ d. elim d [ ])
