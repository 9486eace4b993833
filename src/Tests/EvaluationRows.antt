-- ===== src/Tests/EvaluationRows.antt =====
-- A value of the interface to the tables of evaluations, on which their handlers can be run.
use security_scan.Prelude.Outcome.{Outcome, ok, throw, internal_error}
use security_scan.Prelude.{
  arith, sym, ap, subst, ◌&&◌, ◌||◌, In, ◌∙◌, eq_iff, Bool-cases, inl, inr, Option, ◌≡◌, refl, Bool,
  false, not, none, some, List, [], ◌∷◌, String, str_eq, any, filter, if◌then◌else◌,
}
use security_scan.Authz.{Group, Evaluation}
use security_scan.Evaluations.Table.{
  EvaluationTable, NewEvaluation, UpdateEvaluationDto, Tag, updated, written, tags_left,
  without_groups,
}

-- One evaluation at most, with one tag at most; a new evaluation takes the place of the old one, and a
-- report is any text but the empty one.
pub record OneEvaluation : Type 0 where
  pub evaluation : Option Evaluation
  pub tag : Option Tag
  pub group : Group
  -- the groups, each with the identifier of the evaluation that it is shared with
  pub shares : List (Group × String)

abbrev with_id : Option Evaluation → String → Option Evaluation
with_id none id = none
with_id (some e) id = if str_eq e.id id then some e else none

pub with_id_lem :
    (o : Option Evaluation) (id : String) (e : Evaluation) → with_id o id ≡ some e → e.id ≡ id
with_id_lem none id e h = absurd (ground (arith, h))
with_id_lem (some f) id e h = elim (Bool-cases (str_eq f.id id)) [
  | inl same ↦
      (let one : f ≡ e = ground (arith, rw same at h) in
        sym (ap (λ x. x.id) one) ∙ (eq_iff f.id id).0 same)
  | inr other ↦ absurd (ground (arith, rw other at h))
]

abbrev uploaded : NewEvaluation String → Evaluation
uploaded new = record {
  id = "9";
  filename = new.filename;
  is_public = new.is_public;
  user_id = new.user_id;
  groups = [];
}

abbrev with_tag : Option Tag → Option Evaluation → String → Option (Tag × Evaluation)
with_tag (some tag) (some e) id = if str_eq tag.id id then some (tag, e) else none
with_tag _ _ id = none

abbrev share_with : Group → Option Evaluation → Option Evaluation
share_with g none = none
share_with g (some e) = some (record e { groups = g ∷ e.groups })

abbrev shared_in : List (Group × String) → Group → String → Bool
shared_in shares g id = any (λ p. str_eq p.0.id g.id && str_eq p.1 id) shares

abbrev ended :
    OneEvaluation → OneEvaluation × Outcome (Unit {0}) → OneEvaluation × Outcome (Unit {0})
ended s (t, ok done) = (t, ok done)
ended s (t, throw e) = (s, throw e)

abbrev tag_list : Option Tag → List Tag
tag_list none = []
tag_list (some tag) = tag ∷ []

abbrev evaluation_list : Option Evaluation → List Evaluation
evaluation_list none = []
evaluation_list (some e) = e ∷ []

abbrev tags_with : Option Tag → Option Evaluation → List (Tag × Evaluation)
tags_with (some tag) (some e) = (tag, e) ∷ []
tags_with _ _ = []

pub inserted_evaluation :
    (s t : OneEvaluation) (new : NewEvaluation String) (e : Evaluation)
    → ◌≡◌ {A = OneEvaluation × Outcome Evaluation}
        (record s { evaluation = some (uploaded new); shares = [] }, ok (uploaded new))
        (t, ok e)
    → (e.user_id ≡ new.user_id)
      × (e.filename ≡ new.filename)
      × (e.is_public ≡ new.is_public)
      × ((g : Group) → shared_in t.shares g e.id ≡ false)
inserted_evaluation s t new e h =
    let none_yet : t.shares ≡ [] = ground (arith, h) in
    (ground (arith, h), ground (arith, h), ground (arith, h), λ g. rw none_yet refl)

abbrev rewritten : UpdateEvaluationDto String → String → Option Evaluation → Option Evaluation
rewritten dto at none = none
rewritten dto at (some e) = some (if str_eq at e.id then updated dto e else e)

with_id-rewritten :
    (dto : UpdateEvaluationDto String) (at id : String) (o : Option Evaluation)
    → with_id (rewritten dto at o) id ≡ written dto at id (with_id o id)
with_id-rewritten dto at id none = refl
with_id-rewritten dto at id (some e) = elim (Bool-cases (str_eq e.id id)) [
  | inl same ↦
      (let e_id : e.id ≡ id = (eq_iff e.id id).0 same in
        elim (Bool-cases (str_eq at e.id)) [
          | inl here ↦
              rw (here, same)
                (ap (λ b. some (if b then updated dto e else e))
                  (sym (ap (str_eq at) (sym e_id) ∙ here)))
          | inr there ↦
              rw (there, same)
                (ap (λ b. some (if b then updated dto e else e))
                  (sym (ap (str_eq at) (sym e_id) ∙ there)))
        ])
  | inr other ↦ elim (Bool-cases (str_eq at e.id)) [
    | inl here ↦ rw (here, other) refl
    | inr there ↦ rw (there, other) refl
  ]
]

pub updated_evaluation :
    (s t : OneEvaluation) (e u : Evaluation) (dto : UpdateEvaluationDto String)
    → ◌≡◌ {A = OneEvaluation × Outcome Evaluation}
        (record s { evaluation = rewritten dto e.id s.evaluation }, ok (updated dto e))
        (t, ok u)
    → (u ≡ updated dto e)
      × ((id : String) → with_id t.evaluation id ≡ written dto e.id id (with_id s.evaluation id))
updated_evaluation s t e u dto h =
    let row : t.evaluation ≡ rewritten dto e.id s.evaluation = ground (arith, h) in
    (ground (arith, h), λ id. rw row (with_id-rewritten dto e.id id s.evaluation))

abbrev without_id : Option Evaluation → String → Option Evaluation
without_id none id = none
without_id (some e) id = if str_eq e.id id then none else some e

with_id-without_id : (o : Option Evaluation) (id : String) → with_id (without_id o id) id ≡ none
with_id-without_id none id = refl
with_id-without_id (some e) id = elim (Bool-cases (str_eq e.id id)) [
  | inl same ↦ rw same refl
  | inr other ↦ rw other (rw other refl)
]

abbrev tags_in : Option Tag → String → List Tag
tags_in o id = filter (λ tag. str_eq tag.evaluation_id id) (tag_list o)

pub destroyed_evaluation :
    (s t : OneEvaluation) (e : Evaluation)
    → ◌≡◌ {A = OneEvaluation × Outcome (Unit {0})}
        (record s { evaluation = without_id s.evaluation e.id }, ok tt)
        (t, ok tt)
    → (with_id t.evaluation e.id ≡ none)
      × ((id : String) (tag : Tag) → In tag (tags_in t.tag id) → In tag (tags_in s.tag id))
destroyed_evaluation s t e h =
    let gone : t.evaluation ≡ without_id s.evaluation e.id = ground (arith, h) in
    let kept : t.tag ≡ s.tag = ground (arith, h) in
    (
      rw gone (with_id-without_id s.evaluation e.id),
      λ id tag m. subst (λ o. In tag (tags_in o id)) kept m,
    )

-- A tag called locked is not destroyed.
abbrev locked : Tag → Bool
locked tag = str_eq tag.value "locked"

abbrev tag_without : Option Tag → String → Option Tag
tag_without none id = none
tag_without (some tag) id = if str_eq tag.id id then none else some tag

abbrev destroyed_tag : OneEvaluation → Tag → OneEvaluation × Outcome (Unit {0})
destroyed_tag s tag =
    if locked tag
    then (s, throw internal_error)
    else (record s { tag = tag_without s.tag tag.id }, ok tt)

tags_in-tag_without :
    (o : Option Tag) (tag : Tag) (id : String)
    → tags_in (tag_without o tag.id) id
      ≡ filter (λ other. not (str_eq other.id tag.id)) (tags_in o id)
tags_in-tag_without none tag id = refl
tags_in-tag_without (some other) tag id = ground arith

pub destroyed_tag_lem :
    (s : OneEvaluation) (tag : Tag) (id : String)
    → tags_in (destroyed_tag s tag).0.tag id
      ≡ tags_left (destroyed_tag s tag).1 tag (tags_in s.tag id)
destroyed_tag_lem s tag id = elim (Bool-cases (locked tag)) [
  | inl e ↦ rw e refl
  | inr e ↦ rw e (tags_in-tag_without s.tag tag id)
]

-- The end of a transaction: what it did stands, or none of it.
abbrev transaction :
    (OneEvaluation → OneEvaluation × Outcome (Unit {0}))
    → OneEvaluation
    → OneEvaluation × Outcome (Unit {0})
transaction body s = ended s (body s)

pub transaction_lem :
    (s t : OneEvaluation) (r : OneEvaluation × Outcome (Unit {0}))
    → ended s r ≡ (t, ok tt)
    → r ≡ (t, ok tt)
transaction_lem s t (u, ok done) h = h
transaction_lem s t (u, throw e) h = absurd (ground (arith, h))

pub shared_more :
    (shares : List (Group × String)) (g h : Group) (id k : String)
    → shared_in ((g, id) ∷ shares) h k ≡ (shared_in shares h k || (str_eq g.id h.id && str_eq id k))
shared_more shares g h id k = ground arith

abbrev pub evaluation_table : EvaluationTable
evaluation_table = record {
  State = OneEvaluation;
  Document = String;
  parse_json = λ text. if str_eq text "" then none else some text;
  find_by_pk = λ s id. with_id s.evaluation id;
  find_with_tags = λ s id. without_groups (with_id s.evaluation id);
  find_all = λ s. evaluation_list s.evaluation;
  find_groups = λ s ids. filter (λ g. any (str_eq g.id) ids) (s.group ∷ []);
  tags_of = λ s id. tags_in s.tag id;
  insert = λ s new. (record s { evaluation = some (uploaded new); shares = [] }, ok (uploaded new));
  update =
      λ s e dto. (record s { evaluation = rewritten dto e.id s.evaluation }, ok (updated dto e));
  destroy_tag = destroyed_tag;
  destroy = λ s e. (record s { evaluation = without_id s.evaluation e.id }, ok tt);
  transaction = transaction;
  is_shared = λ s g id. shared_in s.shares g id;
  add_to_group =
      λ s g id. record s { evaluation = share_with g s.evaluation; shares = (g, id) ∷ s.shares };
  find_tag = λ s id. with_tag s.tag s.evaluation id;
  find_all_tags = λ s. tags_with s.tag s.evaluation;
  insert_tag = λ s id value. (
    record s { tag = some (record { id = "5"; value = value; evaluation_id = id }) },
    ok (record { id = "5"; value = value; evaluation_id = id }),
  );
  find_with_tags_lem = λ s id. refl;
  find_by_pk_lem = λ s id e h. with_id_lem s.evaluation id e h;
  insert_lem = inserted_evaluation;
  update_lem = updated_evaluation;
  add_to_group_lem = λ s g h id k. shared_more s.shares g h id k;
  destroy_tag_lem = destroyed_tag_lem;
  transaction_lem = λ body s t h. transaction_lem s t (body s) h;
  destroy_lem = destroyed_evaluation;
}
