-- ===== src/Evaluations.antt =====
-- heimdall2-master/apps/backend/src/evaluations (service and controller), evaluation-tags (service and
-- controller) and interceptors/create-evaluation-interceptor.ts: uploading, sharing, changing and
-- deleting evaluations and their tags. A handler gives beside an evaluation whether its reader may
-- edit it, as EvaluationDto does.
pub mod Table
pub mod Access
pub mod Remove
pub mod Form
use security_scan.Prelude.Outcome.{Outcome, ok, throw, internal_error}
use security_scan.Prelude.Handler.{Handler, with_found, throw_unless}
use security_scan.Prelude.{
  ℕ, String, Bool, true, false, ◌&&◌, Option, none, some, List, [], ◌∷◌, map, filter, if◌then◌else◌,
  Text, text_eq, codes, ◌==◌,
}
use security_scan.Authz.{
  User, Group, Evaluation, read, update, delete, add_evaluation, remove_evaluation, a_group,
  an_evaluation,
}
use security_scan.Authz.Casl.{Casl}
use security_scan.Authz.Permissions.{allows}
use security_scan.Evaluations.Table.{EvaluationTable, Tag, NewEvaluation, UpdateEvaluationDto}

-- The fields of the form, each a text if it is there.
pub record UploadForm : Type 0 where
  pub filename : Text
  pub is_public : Option Text
  pub evaluation_tags : Option Text
  pub groups : Option Text

-- The first word of a split grows by a unit.
abbrev pub push_unit : ℕ → List Text → List Text
push_unit c [] = (c ∷ []) ∷ []
push_unit c (w ∷ ws) = (c ∷ w) ∷ ws

-- `split(',')`
unfoldable pub split_commas : Text → List Text
split_commas [] = [] ∷ []
split_commas (c ∷ s) =
    let rest = split_commas s in if c == b',' then [] ∷ rest else push_unit c rest

-- The field `public`: as it was, if it is missing or empty, or what the interceptor has read.
pub data PublicField : Type 0 where
  untouched : Option Text → PublicField
  read_as : Bool → PublicField

pub record Intercepted : Type 0 where
  pub is_public : PublicField
  pub evaluation_tags : List Text
  pub groups : Option (List Text)

abbrev read_public : Option Text → PublicField
read_public none = untouched none
read_public (some []) = untouched (some [])
read_public (some (c ∷ s)) = read_as (text_eq (c ∷ s) (codes "true"))

abbrev read_tags : Option Text → List Text
read_tags none = []
read_tags (some []) = []
read_tags (some (c ∷ s)) = split_commas (c ∷ s)

abbrev read_groups : Option Text → Option (List Text)
read_groups none = none
read_groups (some s) = some (split_commas s)

-- CreateEvaluationInterceptor.intercept
unfoldable pub intercept : UploadForm → Intercepted
unfolding split_commas
intercept form = record {
  is_public = read_public form.is_public;
  evaluation_tags = read_tags form.evaluation_tags;
  groups = read_groups form.groups;
}

-- The body of POST evaluations after the interceptor and the validation.
pub record CreateEvaluationDto : Type 0 where
  pub filename : String
  pub is_public : Bool
  pub evaluation_tags : Option (List String)
  pub groups : Option (List String)

abbrev pub or_nil : Option (List String) → List String
or_nil none = []
or_nil (some l) = l

module _ (casl : Casl) (table : EvaluationTable) where
  open table use {
    State, Document, parse_json, find_by_pk, find_with_tags, find_all, find_groups, tags_of, insert,
    update as update_row, destroy_tag, destroy, transaction, add_to_group, find_tag, find_all_tags,
    insert_tag,
  }

  abbrev pub may : User → Evaluation → Bool
  may actor e = allows casl actor update (an_evaluation e)

  -- GET :id
  unfoldable pub get_evaluation : User → String → Handler State (Evaluation × Bool)
  get_evaluation actor id s =
      with_found (find_by_pk s id)
        (λ e.
          throw_unless (allows casl actor read (an_evaluation e)) (λ t. (t, ok (e, may actor e))))
        s

  -- GET :id/groups
  unfoldable pub get_evaluation_groups : User → String → Handler State (List Group)
  get_evaluation_groups actor id s =
      with_found (find_by_pk s id)
        (λ e t. (
          t,
          ok (
              filter
                (λ g.
                  allows casl actor add_evaluation (a_group g)
                  && allows casl actor remove_evaluation (a_group g))
                e.groups),
        ))
        s

  -- GET /
  unfoldable pub get_evaluations : User → Handler State (List (Evaluation × Bool))
  get_evaluations actor s = (
    s,
    ok (
        map (λ e. (e, may actor e))
          (filter (λ e. allows casl actor read (an_evaluation e)) (find_all s))),
  )

  -- the loop of `create` over the groups
  unfoldable pub add_to_groups : List Group → String → State → State
  add_to_groups [] id s = s
  add_to_groups (g ∷ gs) id s = add_to_groups gs id (add_to_group s g id)

  abbrev pub share : List Group → State × Outcome Evaluation → State × Outcome Evaluation
  share gs (s, throw e) = (s, throw e)
  share gs (s, ok e) = (add_to_groups gs e.id s, ok e)

  -- The groups of the request to which the user may add evaluations.
  abbrev pub chosen_groups : User → CreateEvaluationDto → State → List Group
  chosen_groups actor dto s =
      filter (λ g. allows casl actor add_evaluation (a_group g)) (find_groups s (or_nil dto.groups))

  -- POST /, with the uploaded file as a text; JSON.parse may throw
  unfoldable pub post_evaluation : User → CreateEvaluationDto → String → Handler State Evaluation
  unfolding add_to_groups
  post_evaluation actor dto data_text s = elim (parse_json data_text) [
    | none ↦ (s, throw internal_error)
    | some document ↦ share (chosen_groups actor dto s) (
        insert s (record {
          filename = dto.filename;
          tags = or_nil dto.evaluation_tags;
          is_public = dto.is_public;
          document = document;
          user_id = actor.id;
        }))
  ]

  abbrev pub with_editable : User → State × Outcome Evaluation → State × Outcome (Evaluation × Bool)
  with_editable actor (s, throw e) = (s, throw e)
  with_editable actor (s, ok e) = (s, ok (e, may actor e))

  -- EvaluationsService.update
  unfoldable pub update_evaluation :
      String → UpdateEvaluationDto Document → Handler State Evaluation
  update_evaluation id dto s = with_found (find_with_tags s id) (λ e t. update_row t e dto) s

  -- PUT :id
  unfoldable pub put_evaluation :
      User → String → UpdateEvaluationDto Document → Handler State (Evaluation × Bool)
  put_evaluation actor id dto s =
      with_found (find_by_pk s id)
        (λ e. throw_unless (may actor e) (λ t. with_editable actor (update_evaluation id dto t))) s

  -- The statements of the tags are started and not waited for: `Promise.all` is given an array in an
  -- array. Each goes to the connection of the transaction before the statement of the evaluation; one
  -- that fails is an unhandled rejection, which this handler does not see.
  unfoldable pub start_tags : List Tag → State → State
  start_tags [] s = s
  start_tags (tag ∷ tags) s = start_tags tags (destroy_tag s tag).0

  -- The value that a handler returns after a statement, unless that throws.
  abbrev pub then_return : {A : Type 0} → A → State × Outcome (Unit {0}) → State × Outcome A
  then_return a (s, throw e) = (s, throw e)
  then_return a (s, ok done) = (s, ok a)

  -- EvaluationsService.remove
  unfoldable pub remove_evaluation_row : String → Handler State Evaluation
  unfolding start_tags
  remove_evaluation_row id s =
      with_found (find_with_tags s id)
        (λ e t. then_return e (transaction (λ u. destroy (start_tags (tags_of t e.id) u) e) t)) s

  -- DELETE :id
  unfoldable pub delete_evaluation : User → String → Handler State Evaluation
  delete_evaluation actor id s =
      with_found (find_by_pk s id)
        (λ e. throw_unless (allows casl actor delete (an_evaluation e)) (remove_evaluation_row id))
        s

  -- GET evaluation-tags
  unfoldable pub get_tags : User → Handler State (List Tag)
  get_tags actor s = (
    s,
    ok (
        map (λ p. p.0)
          (filter (λ p. allows casl actor read (an_evaluation p.1)) (find_all_tags s))),
  )

  -- GET evaluation-tags/:id
  unfoldable pub get_tag : User → String → Handler State Tag
  get_tag actor id s =
      with_found (find_tag s id)
        (λ p. throw_unless (allows casl actor read (an_evaluation p.1)) (λ t. (t, ok p.0))) s

  -- POST evaluation-tags/:evaluationId
  unfoldable pub post_tag : User → String → String → Handler State Tag
  post_tag actor evaluation_id value s =
      with_found (find_by_pk s evaluation_id)
        (λ e. throw_unless (may actor e) (λ t. insert_tag t evaluation_id value)) s

  -- EvaluationTagsService.remove
  unfoldable pub remove_tag : String → Handler State Tag
  remove_tag id s = with_found (find_tag s id) (λ p t. then_return p.0 (destroy_tag t p.0)) s

  -- DELETE evaluation-tags/:id
  unfoldable pub delete_tag : User → String → Handler State Tag
  delete_tag actor id s =
      with_found (find_tag s id)
        (λ p. throw_unless (allows casl actor delete (an_evaluation p.1)) (remove_tag id)) s
