-- ===== src/Evaluations/Access.antt =====
-- Who may read, share and change evaluations: evaluations.controller.ts.
use security_scan.Prelude.Outcome.{Outcome, ok, throw}
use security_scan.Prelude.Handler.{with_found_inv, throw_unless_inv}
use security_scan.Prelude.{
  String, ◌≡◌, sym, ap, ◌∙◌, Bool, true, ◌||◌, Option, none, some, [], arith, str_eq, refl, false,
  eq_iff,
}
use security_scan.Authz.{User, Group, Evaluation, update, is_admin}
use security_scan.Authz.Casl.{Casl, has_user}
use security_scan.Authz.Permissions.{allows-an_evaluation}
use security_scan.Evaluations.Table.{
  EvaluationTable, UpdateEvaluationDto, updated, written, without_groups,
}
use security_scan.Evaluations.{may, put_evaluation, update_evaluation, with_editable}
use security_scan.Evaluations.Remove.{Controls}

module _ (casl : Casl) (table : EvaluationTable) where
  open table use {
    State, Document, parse_json, find_by_pk, find_with_tags, find_groups, insert,
    update as update_row, find_with_tags_lem, find_by_pk_lem, is_shared, add_to_group,
    add_to_group_lem, insert_lem, update_lem,
  }

  -- An administrator or a member.
  abbrev pub MayAdd : User → Group → Type 0
  MayAdd actor g = (is_admin actor || has_user actor.id g.users) ≡ true

  with_editable_inv :
      (actor : User) (r : State × Outcome Evaluation) (t : State) (e : Evaluation) (editable : Bool)
      → with_editable casl table actor r ≡ (t, ok (e, editable))
      → (r ≡ (t, ok e)) × (editable ≡ may casl table actor e)
  with_editable_inv actor (s, throw x) t e editable h = absurd (ground (arith, h))
  with_editable_inv actor (s, ok f) t e editable h = (ground (arith, h), ground (arith, h))

  read_without_groups :
      (o : Option Evaluation) (found e : Evaluation)
      → o ≡ some found
      → without_groups o ≡ some e
      → e ≡ record found { groups = [] }
  read_without_groups none found e p h = cc
  read_without_groups (some f) found e p h = ground arith

  may-updated :
      (actor : User) (dto : UpdateEvaluationDto Document) (found u : Evaluation)
      → u ≡ updated dto (record found { groups = [] })
      → may casl table actor u ≡ (is_admin actor || str_eq found.user_id actor.id)
  may-updated actor dto found u e = rw e (
      ground (
        arith,
        allows-an_evaluation casl actor (updated dto (record found { groups = [] })) update,
      ))

  written-found :
      (dto : UpdateEvaluationDto Document) (at id : String) (o : Option Evaluation)
      (found : Evaluation)
      → o ≡ some found
      → str_eq at id ≡ true
      → written dto at id o ≡ some (updated dto found)
  written-found dto at id none found e same = cc
  written-found dto at id (some f) found e same =
      let one : f ≡ found = ground (arith, e) in rw same (ap (λ x. some (updated dto x)) one)

  written-other :
      (dto : UpdateEvaluationDto Document) (at id : String) (o : Option Evaluation)
      → str_eq at id ≡ false
      → written dto at id o ≡ o
  written-other dto at id none other = refl
  written-other dto at id (some f) other = rw other refl

  -- A successful PUT evaluations/:id was made by one who controls the evaluation; after it the
  -- evaluation is found with the name and the visibility that are given and else as before, and every
  -- other one as before. The answer calls it editable only for an administrator and the uploader,
  -- since it is read a second time without its groups: an owner of a group is told that the
  -- evaluation cannot be edited.
  pub put_evaluation_editable :
      (actor : User) (id : String) (dto : UpdateEvaluationDto Document) (s t : State)
      (u : Evaluation) (editable : Bool)
      → put_evaluation casl table actor id dto s ≡ (t, ok (u, editable))
      → (found : Evaluation) × (find_by_pk s id ≡ some found)
        × Controls casl table actor found
        × (u ≡ updated dto (record found { groups = [] }))
        × (find_by_pk t id ≡ some (updated dto found))
        × ((other : String) → str_eq id other ≡ false → find_by_pk t other ≡ find_by_pk s other)
        × (editable ≡ (is_admin actor || str_eq found.user_id actor.id))
  unfolding put_evaluation update_evaluation
  put_evaluation_editable actor id dto s t u editable h =
      let (found, in_table, allowed) = with_found_inv (find_by_pk s id) _ s t (u, editable) h in
      let (can, done) = throw_unless_inv (may casl table actor found) _ s t (u, editable) allowed in
      let (r, said) = with_editable_inv actor _ t u editable done in
      let (e, read_again, wrote) = with_found_inv (find_with_tags s id) _ s t u r in
      let e_is : e ≡ record found { groups = [] } =
        read_without_groups (find_by_pk s id) found e in_table
          (sym (find_with_tags_lem s id) ∙ read_again) in
      let (answer, rows) = update_lem s t e u dto wrote in
      let u_is : u ≡ updated dto (record found { groups = [] }) = answer ∙ ap (updated dto) e_is in
      let e_id : e.id ≡ id = ap (λ x. x.id) e_is ∙ find_by_pk_lem s id found in_table in
      (
        found,
        in_table,
        ground (arith, can, allows-an_evaluation casl actor found update),
        u_is,
        rows id
            ∙ written-found dto e.id id (find_by_pk s id) found in_table ((eq_iff e.id id).1 e_id),
        (λ other differs.
            rows other
            ∙ written-other dto e.id other (find_by_pk s other)
                (ap (λ i. str_eq i other) e_id ∙ differs)),
        said ∙ may-updated actor dto found u u_is,
      )
