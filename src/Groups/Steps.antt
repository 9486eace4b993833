-- ===== src/Groups/Steps.antt =====
-- Inversion of the steps that the handlers of groups.controller.ts share.
use security_scan.Prelude.Outcome.{ok}
use security_scan.Prelude.{
  String, ◌≡◌, refl, Bool, true, false, some, inl, inr, arith, Option-cases,
}
use security_scan.Authz.{User, Group, Evaluation}
use security_scan.Authz.Casl.{Casl}
use security_scan.Groups.Table.{GroupTable}
use security_scan.Groups.{Handler, with_group, with_user, with_evaluation, throw_unless}

module _ (casl : Casl) (table : GroupTable) {A : Type 0} where
  open table use {State, find_user, find_evaluation, find_by_pk}

  pub with_group_inv :
      (id : String) (rest : Group → Handler casl table A) (s t : State) (a : A)
      → with_group casl table id rest s ≡ (t, ok a)
      → (group : Group) × (find_by_pk s id ≡ some group) × (rest group s ≡ (t, ok a))
  unfolding with_group
  with_group_inv id rest s t a h = elim (Option-cases (find_by_pk s id)) [
    | inl e ↦ absurd (ground (arith, h, e))
    | inr (group, e) ↦ (group, e, ground (arith, h, e))
  ]

  pub with_user_inv :
      (id : String) (rest : User → Handler casl table A) (s t : State) (a : A)
      → with_user casl table id rest s ≡ (t, ok a)
      → (user : User) × (find_user s id ≡ some user) × (rest user s ≡ (t, ok a))
  unfolding with_user
  with_user_inv id rest s t a h = elim (Option-cases (find_user s id)) [
    | inl e ↦ absurd (ground (arith, h, e))
    | inr (user, e) ↦ (user, e, ground (arith, h, e))
  ]

  pub with_evaluation_inv :
      (id : String) (rest : Evaluation → Handler casl table A) (s t : State) (a : A)
      → with_evaluation casl table id rest s ≡ (t, ok a)
      → (e : Evaluation) × (find_evaluation s id ≡ some e) × (rest e s ≡ (t, ok a))
  unfolding with_evaluation
  with_evaluation_inv id rest s t a h = elim (Option-cases (find_evaluation s id)) [
    | inl e ↦ absurd (ground (arith, h, e))
    | inr (evaluation, e) ↦ (evaluation, e, ground (arith, h, e))
  ]

  pub throw_unless_inv :
      (allowed : Bool) (rest : Handler casl table A) (s t : State) (a : A)
      → throw_unless casl table allowed rest s ≡ (t, ok a)
      → (allowed ≡ true) × (rest s ≡ (t, ok a))
  unfolding throw_unless
  throw_unless_inv true rest s t a h = (refl, h)
  throw_unless_inv false rest s t a h = absurd (ground (arith, h))
