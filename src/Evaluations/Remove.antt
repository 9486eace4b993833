-- ===== src/Evaluations/Remove.antt =====
-- DELETE evaluations/:id and DELETE evaluation-tags/:id: evaluations and evaluation-tags.
use security_scan.Prelude.Outcome.{Outcome, ok, throw, Exception}
use security_scan.Prelude.Handler.{with_found_inv, throw_unless_inv}
use security_scan.Prelude.{
  String, ◌≡◌, refl, sym, ap, subst, ◌∙◌, true, ◌||◌, not, Option, none, some, List, [], ◌∷◌, ◌++◌,
  arith, str_eq, eq_iff, any, In, here, there, In-filter_inv,
}
use security_scan.Authz.{User, Evaluation, delete, an_evaluation, is_admin}
use security_scan.Authz.Casl.{Casl, has_member}
use security_scan.Authz.Permissions.{allows, allows-an_evaluation}
use security_scan.Evaluations.Table.{EvaluationTable, Tag, tags_left, without_groups}
use security_scan.Evaluations.{
  start_tags, then_return, remove_evaluation_row, delete_evaluation, remove_tag, delete_tag,
}

module _ (casl : Casl) (table : EvaluationTable) where
  open table use {
    State, find_by_pk, find_with_tags, tags_of, destroy_tag, destroy, find_tag, find_with_tags_lem,
    find_by_pk_lem, destroy_tag_lem, destroy_lem, transaction_lem,
  }

  -- An administrator, the uploader, or an owner of one of the groups of the evaluation.
  abbrev pub Controls : User → Evaluation → Type 0
  Controls actor e =
      (is_admin actor
        || (str_eq e.user_id actor.id || any (λ g. has_member actor.id "owner" g.users) e.groups))
      ≡ true

  Controls-delete :
      (actor : User) (e : Evaluation)
      → allows casl actor delete (an_evaluation e) ≡ true
      → Controls actor e
  Controls-delete actor e h = ground (arith, allows-an_evaluation casl actor e delete)

  then_return_inv :
      {A : Type 0} (r : State × Outcome (Unit {0})) (t : State) (a b : A)
      → then_return casl table a r ≡ (t, ok b)
      → (r ≡ (t, ok tt)) × (b ≡ a)
  then_return_inv (s, throw e) t a b h = absurd (ground (arith, h))
  then_return_inv (s, ok done) t a b h = (ground (arith, h), ground (arith, h))

  without_groups_id :
      (o : Option Evaluation) (e : Evaluation)
      → without_groups o ≡ some e
      → (f : Evaluation) × (o ≡ some f) × (e.id ≡ f.id)
  without_groups_id none e h = absurd (ground (arith, h))
  without_groups_id (some f) e h = (f, refl, ground arith)

  In-tags_left :
      (o : Outcome (Unit {0})) (tag x : Tag) (tags : List Tag)
      → In x (tags_left o tag tags)
      → In x tags
  In-tags_left (throw e) tag x tags m = m
  In-tags_left (ok done) tag x tags m =
      (In-filter_inv (λ other. not (str_eq other.id tag.id)) tags m).0

  tags_left-itself :
      (o : Outcome (Unit {0})) (tag : Tag) (tags : List Tag)
      → In tag (tags_left o tag tags)
      → (e : Exception) × (o ≡ throw e)
  tags_left-itself (throw e) tag tags m = (e, refl)
  tags_left-itself (ok done) tag tags m = absurd (
      ground (
        arith,
        (In-filter_inv (λ other. not (str_eq other.id tag.id)) tags m).1,
        (eq_iff tag.id tag.id).1 refl,
      ))

  start_tags-In :
      (tags : List Tag) (s : State) (id : String) (x : Tag)
      → In x (tags_of (start_tags casl table tags s) id)
      → In x (tags_of s id)
  unfolding start_tags
  start_tags-In [] s id x m = m
  start_tags-In (tag ∷ tags) s id x m = In-tags_left (destroy_tag s tag).1 tag x (tags_of s id) (
      subst (λ l. In x l) (destroy_tag_lem s tag id)
        (start_tags-In tags (destroy_tag s tag).0 id x m))

  -- The statement of the tag failed when it was its turn, after those of the tags before it.
  abbrev pub Failed : List Tag → State → Tag → Type 0
  Failed tags s x =
      (before after : List Tag) × (tags ≡ before ++ (x ∷ after))
      × ((e : Exception) × ((destroy_tag (start_tags casl table before s) x).1 ≡ throw e))

  start_tags-Failed :
      (tags : List Tag) (s : State) (id : String) (x : Tag)
      → In x tags
      → In x (tags_of (start_tags casl table tags s) id)
      → Failed tags s x
  unfolding start_tags
  start_tags-Failed [] s id x n m = elim n [ ]
  start_tags-Failed (_ ∷ tags) s id x here m = (
    [],
    tags,
    refl,
    tags_left-itself (destroy_tag s x).1 x (tags_of s id) (
        subst (λ l. In x l) (destroy_tag_lem s x id)
          (start_tags-In tags (destroy_tag s x).0 id x m)),
  )
  start_tags-Failed (tag ∷ tags) s id x (there n) m =
      let (before, after, e, failed) = start_tags-Failed tags (destroy_tag s tag).0 id x n m in
      (tag ∷ before, after, ap (λ l. tag ∷ l) e, failed)

  remove_evaluation_row_inv :
      (id : String) (s t : State) (e : Evaluation)
      → remove_evaluation_row casl table id s ≡ (t, ok e)
      → (e.id ≡ id) × (destroy (start_tags casl table (tags_of s e.id) s) e ≡ (t, ok tt))
  unfolding remove_evaluation_row
  remove_evaluation_row_inv id s t e h =
      let (read, found, done) = with_found_inv (find_with_tags s id) _ s t e h in
      let (ended, same) = then_return_inv _ t read e done in
      let (f, in_table, same_id) =
        without_groups_id (find_by_pk s id) read (sym (find_with_tags_lem s id) ∙ found) in
      (
        ap (λ x. x.id) same ∙ same_id ∙ find_by_pk_lem s id f in_table,
        subst (λ x. destroy (start_tags casl table (tags_of s x.id) s) x ≡ (t, ok tt)) (sym same)
            (transaction_lem (λ u. destroy (start_tags casl table (tags_of s read.id) u) read) s t
              ended),
      )

  -- A successful DELETE evaluations/:id was made by an administrator, the uploader or an owner of one
  -- of the groups of the evaluation, which is not found any more. A tag that the evaluation still has
  -- was one of its tags, and its own statement failed, which the handler does not notice.
  pub delete_evaluation_authorised :
      (actor : User) (id : String) (s t : State) (e : Evaluation)
      → delete_evaluation casl table actor id s ≡ (t, ok e)
      → (found : Evaluation) × (find_by_pk s id ≡ some found)
        × Controls actor found
        × (find_by_pk t id ≡ none)
        × ((x : Tag) → In x (tags_of t id) → Failed (tags_of s id) s x)
  unfolding delete_evaluation
  delete_evaluation_authorised actor id s t e h =
      let (found, in_table, allowed) = with_found_inv (find_by_pk s id) _ s t e h in
      let (may, done) =
        throw_unless_inv (allows casl actor delete (an_evaluation found)) _ s t e allowed in
      let (same_id, gone) = remove_evaluation_row_inv id s t e done in
      let started : State = start_tags casl table (tags_of s id) s in
      let ended : destroy started e ≡ (t, ok tt) =
        subst (λ i. destroy (start_tags casl table (tags_of s i) s) e ≡ (t, ok tt)) same_id gone in
      let (missing, fewer) = destroy_lem started t e ended in
      (
        found,
        in_table,
        Controls-delete actor found may,
        ap (find_by_pk t) (sym same_id) ∙ missing,
        λ x m.
            let left = fewer id x m in
            start_tags-Failed (tags_of s id) s id x (start_tags-In (tags_of s id) s id x left) left,
      )

  -- A successful DELETE evaluation-tags/:id was made by one who controls the evaluation of the tag,
  -- and deleted that tag.
  pub delete_tag_authorised :
      (actor : User) (id : String) (s t : State) (tag : Tag)
      → delete_tag casl table actor id s ≡ (t, ok tag)
      → (e : Evaluation) × (find_tag s id ≡ some (tag, e))
        × Controls actor e
        × (destroy_tag s tag ≡ (t, ok tt))
  unfolding delete_tag remove_tag
  delete_tag_authorised actor id s t tag h =
      let (p, found, allowed) = with_found_inv (find_tag s id) _ s t tag h in
      let (may, done) =
        throw_unless_inv (allows casl actor delete (an_evaluation p.1)) _ s t tag allowed in
      let (q, again, ended) = with_found_inv (find_tag s id) _ s t tag done in
      let (gone, same) = then_return_inv (destroy_tag s q.0) t q.0 tag ended in
      let one : p ≡ q = ground (arith, found, again) in
      (
        p.1,
        found ∙ ap some (ground (arith, same, one)),
        Controls-delete actor p.1 may,
        rw same gone,
      )
