-- ===== src/Evaluations/Table.antt =====
-- What the program relies on in sequelize for the tables of evaluations, of their tags and of the
-- groups that they are shared with, and in JSON.parse.
use security_scan.Prelude.Outcome.{Outcome, ok, throw}
use security_scan.Prelude.{
  String, ◌≡◌, Bool, ◌&&◌, ◌||◌, not, false, Option, none, some, List, [], str_eq, filter, In,
  if◌then◌else◌,
}
use security_scan.Authz.{Group, Evaluation}

pub record Tag : Type 0 where
  pub id : String
  pub value : String
  pub evaluation_id : String

-- A new row, with the values of its tags.
pub record NewEvaluation (Document : Type 0) : Type 0 where
  pub filename : String
  pub tags : List String
  pub is_public : Bool
  pub document : Document
  pub user_id : String

pub record UpdateEvaluationDto (Document : Type 0) : Type 0 where
  pub filename : Option String
  pub document : Option Document
  pub is_public : Option Bool

abbrev given_or : {A : Type 0} → Option A → A → A
given_or none old = old
given_or (some new) old = new

-- `evaluation.update(dto)` sets the fields that are given.
abbrev pub updated : {Document : Type 0} → UpdateEvaluationDto Document → Evaluation → Evaluation
updated dto e = record e {
  filename = given_or dto.filename e.filename;
  is_public = given_or dto.is_public e.is_public;
}

-- What an update of one evaluation makes of the row of an identifier.
abbrev pub written :
    {Document : Type 0}
    → UpdateEvaluationDto Document
    → String
    → String
    → Option Evaluation
    → Option Evaluation
written dto at id none = none
written dto at id (some e) = some (if str_eq at id then updated dto e else e)

-- The tags that the end of a statement leaves: a tag is gone after it, unless the statement failed.
abbrev pub tags_left : Outcome (Unit {0}) → Tag → List Tag → List Tag
tags_left (ok done) tag tags = filter (λ other. not (str_eq other.id tag.id)) tags
tags_left (throw e) tag tags = tags

-- An evaluation that was read without its groups.
abbrev pub without_groups : Option Evaluation → Option Evaluation
without_groups none = none
without_groups (some e) = some (record e { groups = [] })

pub record EvaluationTable : Type 1 where
  pub State : Type 0
  -- the value of a report
  pub Document : Type 0
  pub parse_json : String → Option Document
  -- with the groups and their users included, and with the tags only
  pub find_by_pk : State → String → Option Evaluation
  pub find_with_tags : State → String → Option Evaluation
  pub find_all : State → List Evaluation
  -- GroupsService.findByIds
  pub find_groups : State → List String → List Group
  pub tags_of : State → String → List Tag
  pub insert : State → NewEvaluation Document → State × Outcome Evaluation
  pub update : State → Evaluation → UpdateEvaluationDto Document → State × Outcome Evaluation
  -- `tag.destroy(…)` and `evaluation.destroy(…)`, in a transaction or not
  pub destroy_tag : State → Tag → State × Outcome (Unit {0})
  pub destroy : State → Evaluation → State × Outcome (Unit {0})
  -- `sequelize.transaction(…)`
  pub transaction : (State → State × Outcome (Unit {0})) → State → State × Outcome (Unit {0})
  -- whether an evaluation is shared with a group
  pub is_shared : State → Group → String → Bool
  -- GroupsService.addEvaluationToGroup
  pub add_to_group : State → Group → String → State
  -- a tag with its evaluation, that one's groups and their users included
  pub find_tag : State → String → Option (Tag × Evaluation)
  pub find_all_tags : State → List (Tag × Evaluation)
  pub insert_tag : State → String → String → State × Outcome Tag
  pub find_with_tags_lem :
      (s : State) (id : String) → find_with_tags s id ≡ without_groups (find_by_pk s id)
  pub find_by_pk_lem :
      (s : State) (id : String) (e : Evaluation) → find_by_pk s id ≡ some e → e.id ≡ id
  pub insert_lem :
      (s t : State) (new : NewEvaluation Document) (e : Evaluation)
      → insert s new ≡ (t, ok e)
      → (e.user_id ≡ new.user_id)
        × (e.filename ≡ new.filename)
        × (e.is_public ≡ new.is_public)
        × ((g : Group) → is_shared t g e.id ≡ false)
  pub add_to_group_lem :
      (s : State) (g h : Group) (id k : String)
      → is_shared (add_to_group s g id) h k ≡ (is_shared s h k || (str_eq g.id h.id && str_eq id k))
  pub update_lem :
      (s t : State) (e u : Evaluation) (dto : UpdateEvaluationDto Document)
      → update s e dto ≡ (t, ok u)
      → (u ≡ updated dto e)
        × ((id : String) → find_by_pk t id ≡ written dto e.id id (find_by_pk s id))
  pub destroy_tag_lem :
      (s : State) (tag : Tag) (id : String)
      → tags_of (destroy_tag s tag).0 id ≡ tags_left (destroy_tag s tag).1 tag (tags_of s id)
  pub destroy_lem :
      (s t : State) (e : Evaluation)
      → destroy s e ≡ (t, ok tt)
      → (find_by_pk t e.id ≡ none)
        × ((id : String) (tag : Tag) → In tag (tags_of t id) → In tag (tags_of s id))
  -- A transaction that succeeds did what its body did, which succeeded.
  pub transaction_lem :
      (body : State → State × Outcome (Unit {0})) (s t : State)
      → transaction body s ≡ (t, ok tt)
      → body s ≡ (t, ok tt)
