-- ===== src/Tests/EvaluationRuns.antt =====
-- Runs of the handlers of evaluations and of their tags on a table of one evaluation.
use security_scan.Prelude.Outcome.{ok, throw, forbidden}
use security_scan.Prelude.Handler.{with_found, throw_unless}
use security_scan.Prelude.{
  String, ◌≡◌, refl, true, false, ◌||◌, none, some, [], ◌∷◌, str_eq, In, codes,
}
use security_scan.Authz.{User, Evaluation, create_for_user, is_admin}
use security_scan.Authz.Permissions.{allows}
use security_scan.Evaluations.Table.{Tag, UpdateEvaluationDto, updated}
use security_scan.Evaluations.{
  UploadForm, split_commas, intercept, CreateEvaluationDto, update_evaluation, put_evaluation,
  start_tags, remove_evaluation_row, delete_evaluation, remove_tag, delete_tag, get_evaluation,
}
use security_scan.Evaluations.Remove.{
  Controls, Failed, delete_evaluation_authorised, delete_tag_authorised,
}
use security_scan.Evaluations.Access.{put_evaluation_editable}
use security_scan.Tests.Instances.{casl}
use security_scan.Tests.EvaluationRows.{evaluation_table, OneEvaluation}
use security_scan.Tests.AuthzRuns.{alice, group, evaluation}

abbrev tag : Tag
tag = record { id = "5"; value = "nightly"; evaluation_id = "9" }

abbrev state : OneEvaluation
state = record {
  evaluation = some evaluation;
  tag = some tag;
  group = group;
  shares = (group, "9") ∷ [];
}

abbrev emptied : OneEvaluation
emptied = record state { evaluation = none; tag = none }

abbrev ungrouped : Evaluation
ungrouped = record evaluation { groups = [] }

delete_run : delete_evaluation casl evaluation_table alice "9" state ≡ (emptied, ok ungrouped)
unfolding delete_evaluation remove_evaluation_row start_tags with_found throw_unless allows
    create_for_user
delete_run = refl

-- A tag whose statement fails stays, and the evaluation goes with a success all the same.
abbrev with_locked : OneEvaluation
with_locked = record state { tag = some (record tag { value = "locked" }) }

abbrev tag_left : OneEvaluation
tag_left = record with_locked { evaluation = none }

locked_run :
    delete_evaluation casl evaluation_table alice "9" with_locked ≡ (tag_left, ok ungrouped)
unfolding delete_evaluation remove_evaluation_row start_tags with_found throw_unless allows
    create_for_user
locked_run = refl

delete_evaluation_authorised_example :
    (found : Evaluation) × (evaluation_table.find_by_pk with_locked "9" ≡ some found)
    × Controls casl evaluation_table alice found
    × (evaluation_table.find_by_pk tag_left "9" ≡ none)
    × ((x : Tag)
        → In x (evaluation_table.tags_of tag_left "9")
        → Failed casl evaluation_table (evaluation_table.tags_of with_locked "9") with_locked x)
delete_evaluation_authorised_example =
    delete_evaluation_authorised casl evaluation_table alice "9" with_locked tag_left ungrouped
      locked_run

-- One who is neither an administrator nor concerned with the evaluation.
abbrev carol : User
carol = record alice { id = "4" }

refuse_run : delete_evaluation casl evaluation_table carol "9" state ≡ (state, throw forbidden)
unfolding delete_evaluation with_found throw_unless allows create_for_user
refuse_run = refl

delete_tag_run :
    delete_tag casl evaluation_table alice "5" state ≡ (record state { tag = none }, ok tag)
unfolding delete_tag remove_tag with_found throw_unless allows create_for_user
delete_tag_run = refl

delete_tag_authorised_example :
    (e : Evaluation) × (evaluation_table.find_tag state "5" ≡ some (tag, e))
    × Controls casl evaluation_table alice e
    × (evaluation_table.destroy_tag state tag ≡ (record state { tag = none }, ok tt))
delete_tag_authorised_example =
    delete_tag_authorised casl evaluation_table alice "5" state (record state { tag = none }) tag
      delete_tag_run

abbrev upload : CreateEvaluationDto
upload = record {
  filename = "new.json";
  is_public = true;
  evaluation_tags = none;
  groups = some ("7" ∷ "8" ∷ []);
}

abbrev uploaded : Evaluation
uploaded = record { id = "9"; filename = "new.json"; is_public = true; user_id = "1"; groups = [] }

abbrev shared : OneEvaluation
shared = record state { evaluation = some (record uploaded { groups = group ∷ [] }) }

abbrev rename : UpdateEvaluationDto String
rename = record { filename = some "web.json"; document = none; is_public = none }

-- An owner of the group who is no administrator and did not upload the evaluation.
abbrev dave : User
dave = record alice { id = "3" }

abbrev renamed : Evaluation
renamed = record ungrouped { filename = "web.json" }

abbrev after_rename : OneEvaluation
after_rename = record state { evaluation = some (record evaluation { filename = "web.json" }) }

put_run :
    put_evaluation casl evaluation_table dave "9" rename state ≡ (after_rename, ok (renamed, false))
unfolding put_evaluation update_evaluation with_found throw_unless allows create_for_user
put_run = refl

-- A GET of the evaluation by the same user calls it editable.
get_run : get_evaluation casl evaluation_table dave "9" state ≡ (state, ok (evaluation, true))
unfolding get_evaluation with_found throw_unless allows create_for_user
get_run = refl

put_evaluation_editable_example :
    (found : Evaluation) × (evaluation_table.find_by_pk state "9" ≡ some found)
    × Controls casl evaluation_table dave found
    × (renamed ≡ updated rename (record found { groups = [] }))
    × (evaluation_table.find_by_pk after_rename "9" ≡ some (updated rename found))
    × ((other : String)
        → str_eq "9" other ≡ false
        → evaluation_table.find_by_pk after_rename other ≡ evaluation_table.find_by_pk state other)
    × (false ≡ (is_admin dave || str_eq found.user_id dave.id))
put_evaluation_editable_example =
    put_evaluation_editable casl evaluation_table dave "9" rename state after_rename renamed false
      put_run

abbrev form : UploadForm
form = record {
  filename = codes "new.json";
  is_public = some (codes "true");
  evaluation_tags = some (codes "a,,b");
  groups = some (codes "7,8");
}

intercept_run : (intercept form).evaluation_tags ≡ (codes "a" ∷ [] ∷ codes "b" ∷ [])
unfolding intercept split_commas
intercept_run = refl
