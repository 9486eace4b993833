-- ===== src/Convert/Accepts.antt =====
-- transformUnion and transformArray of
-- heimdall2-master/libs/inspecjs/src/generated_parsers/v_1_0/exec-json.ts decide what they test, if the
-- calls of transform inside them do.
use security_scan.Prelude.{◌≡◌, refl, String, Bool, true, Option, arith}
use security_scan.Convert.{
  Value, Elements, Schema, Schemas, undefined_value, null_value, boolean, number, string, array,
  object, no_elements, element, array_items, union_members, no_schemas, schema,
}
use security_scan.Convert.Transform.{Converted, transform_union, transform_items, transform_array}
use security_scan.Convert.Conforms.{
  Conforms, ItemsConform, Member, is_array, is_member, no_items_conform, item_conforms,
  first_member, later_member,
}
use security_scan.Convert.Fits.{all_members}
use security_scan.Convert.Decides.{Decides, accepts, rejects, then-Decides, weaken_decision}
use security_scan.Convert.Primitives.{Decided}

module _ (types : String → Option Schema) (go : Value → Schema → Converted Value)
    (ok : Schema → Bool)
    (go_decides : (v : Value) (s : Schema) → ok s ≡ true → Decided types s v (go v s)) where
  abbrev MemberDecided : Schemas → Value → Converted Value → Type 0
  MemberDecided ss v = Decides (Member types v ss) (λ w. Member types w ss)

  no_member : (v : Value) → ¬ Member types v no_schemas
  no_member v h = elim h [ ]

  neither :
      {v : Value} {s : Schema} {ss : Schemas}
      → ¬ Conforms types v s
      → ¬ Member types v ss
      → ¬ Member types v (schema s ss)
  neither n m (first_member d) = n d
  neither n m (later_member d) = m d

  union_step :
      (s : Schema) (ss : Schemas) (v : Value) (c : Converted Value)
      → go v s ≡ c
      → Decided types s v c
      → MemberDecided ss v (transform_union go ss v)
      → MemberDecided (schema s ss) v (transform_union go (schema s ss) v)
  unfolding transform_union
  union_step s ss v _ e (accepts p q) rest =
      rw (e, transform_union) (accepts (first_member p) (first_member q))
  union_step s ss v _ e (rejects n) rest = rw (e, transform_union) (later_decided n rest)
    where
      later_decided :
          {v : Value} {s : Schema} {ss : Schemas} {c : Converted Value}
          → ¬ Conforms types v s
          → MemberDecided ss v c
          → MemberDecided (schema s ss) v c
      later_decided n (accepts p q) = accepts (later_member p) (later_member q)
      later_decided n (rejects m) = rejects (neither n m)

  members_decide :
      (ss : Schemas) (v : Value)
      → all_members ok ss ≡ true
      → MemberDecided ss v (transform_union go ss v)
  unfolding transform_union
  members_decide no_schemas v h = rejects (no_member v)
  members_decide (schema s ss) v h =
      union_step s ss v (go v s) refl (go_decides v s (ground arith))
        (members_decide ss v (ground arith))

  member_of : {v : Value} {ss : Schemas} → Conforms types v (union_members ss) → Member types v ss
  member_of (is_member d) = d

  pub union_decides :
      (ss : Schemas) (v : Value)
      → all_members ok ss ≡ true
      → Decided types (union_members ss) v (transform_union go ss v)
  union_decides ss v h =
      weaken_decision (members_decide ss v h) is_member member_of (λ w. is_member)

  head_of :
      {v : Value} {vs : Elements} {s : Schema}
      → ItemsConform types (element v vs) s
      → Conforms types v s
  head_of (item_conforms d ds) = d

  tail_of :
      {v : Value} {vs : Elements} {s : Schema}
      → ItemsConform types (element v vs) s
      → ItemsConform types vs s
  tail_of (item_conforms d ds) = ds

  items_decide :
      (s : Schema) (vs : Elements)
      → ok s ≡ true
      → Decides (ItemsConform types vs s) (λ ws. ItemsConform types ws s) (transform_items go s vs)
  unfolding transform_items
  items_decide s no_elements h = accepts no_items_conform no_items_conform
  items_decide s (element v vs) h =
      then-Decides _ (go_decides v s h)
        (λ w p q.
          then-Decides _ (items_decide s vs h)
            (λ ws ps qs. accepts (item_conforms p ps) (item_conforms q qs)) tail_of)
        head_of

  items_of :
      {vs : Elements} {s : Schema}
      → Conforms types (array vs) (array_items s)
      → ItemsConform types vs s
  items_of (is_array d) = d

  pub array_decides :
      (s : Schema) (v : Value)
      → ok s ≡ true
      → Decided types (array_items s) v (transform_array go s v)
  unfolding transform_array
  array_decides s (array vs) h =
      then-Decides _ (items_decide s vs h) (λ ws ps qs. accepts (is_array ps) (is_array qs))
        items_of
  array_decides s undefined_value h = rejects (λ d. elim d [ ])
  array_decides s null_value h = rejects (λ d. elim d [ ])
  array_decides s (boolean b) h = rejects (λ d. elim d [ ])
  array_decides s (number n) h = rejects (λ d. elim d [ ])
  array_decides s (string t) h = rejects (λ d. elim d [ ])
  array_decides s (object fs) h = rejects (λ d. elim d [ ])
