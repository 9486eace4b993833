-- ===== src/Authz/Permissions.antt =====
-- What the rules of createForUser and createForAnonymous permit, asked about an instance or a class.
use security_scan.Prelude.{
  String, List, [], ◌∷◌, true, ◌≡◌, ◌∙◌, Bool, false, ◌&&◌, ◌||◌, arith, str_eq, any, if◌then◌else◌,
}
use security_scan.Authz.{
  Member, Action, manage, create, read, update, delete, read_slim, add_evaluation,
  remove_evaluation, User, Group, Evaluation, Subject, class, user_type, a_user, a_group,
  an_evaluation, is_admin, create_for_user, create_for_anonymous,
}
use security_scan.Authz.Casl.{Casl, verdict, is_action, has_user, has_member}

-- An owner is a member.
pub has_user_of-has_member :
    (id r : String) (ms : List Member) → has_member id r ms ≡ true → has_user id ms ≡ true
has_user_of-has_member id r [] h = cc
has_user_of-has_member id r (m ∷ ms) h = ground (arith, has_user_of-has_member id r ms)

module _ (casl : Casl) where
  -- `abac.can`, for the ability of a user
  unfoldable pub allows : User → Action → Subject → Bool
  allows user action subject = casl.can (create_for_user user) action subject

  allows-verdict :
      (user : User) (action : Action) (subject : Subject)
      → allows user action subject
        ≡ verdict casl.matches (create_for_user user) action subject false
  unfolding allows
  allows-verdict user action subject = casl.last_rule_decides (create_for_user user) action subject

  user_verdict :
      (user target : User) (action : Action)
      → verdict casl.matches (create_for_user user) action (a_user target) false ≡ (
          is_action action read_slim
          || (if str_eq target.id user.id
              then is_action action read || (is_action action update || is_action action delete)
              else is_admin user))
  unfolding create_for_user
  user_verdict user target manage = ground (arith, casl.matches_id user.id target)
  user_verdict user target _ = ground (arith, casl.matches_id user.id target)

  -- Everyone may see users in the slim form; one may read, update and delete one's own account and
  -- do nothing else with it; an administrator may do everything with the account of another.
  pub allows-a_user :
      (user target : User) (action : Action)
      → allows user action (a_user target) ≡ (
          is_action action read_slim
          || (if str_eq target.id user.id
              then is_action action read || (is_action action update || is_action action delete)
              else is_admin user))
  allows-a_user user target action =
      allows-verdict user action (a_user target) ∙ user_verdict user target action

  group_verdict :
      (user : User) (group : Group) (action : Action)
      → verdict casl.matches (create_for_user user) action (a_group group) false ≡ (
          is_admin user
          || (has_member user.id "owner" group.users
              || (is_action action create
                  || ((is_action action read && (group.is_public || has_user user.id group.users))
                      || ((is_action action add_evaluation || is_action action remove_evaluation)
                          && has_user user.id group.users)))))
  unfolding create_for_user
  group_verdict user group manage = ground (
    arith,
    casl.matches_public_group group,
    casl.matches_users_id user.id group,
    casl.matches_users user.id "owner" group,
  )
  group_verdict user group _ = ground (
    arith,
    casl.matches_public_group group,
    casl.matches_users_id user.id group,
    casl.matches_users user.id "owner" group,
  )

  -- Of a group, an administrator and an owner may do everything; everyone may create one; a public
  -- group may be read by everyone, any group by its members, who may add and remove evaluations.
  pub allows-a_group :
      (user : User) (group : Group) (action : Action)
      → allows user action (a_group group) ≡ (
          is_admin user
          || (has_member user.id "owner" group.users
              || (is_action action create
                  || ((is_action action read && (group.is_public || has_user user.id group.users))
                      || ((is_action action add_evaluation || is_action action remove_evaluation)
                          && has_user user.id group.users)))))
  allows-a_group user group action =
      allows-verdict user action (a_group group) ∙ group_verdict user group action

  evaluation_verdict :
      (user : User) (e : Evaluation) (action : Action)
      → verdict casl.matches (create_for_user user) action (an_evaluation e) false ≡ (
          is_admin user
          || (str_eq e.user_id user.id
              || (any (λ g. has_member user.id "owner" g.users) e.groups
                  || (is_action action create
                      || (is_action action read
                          && (e.is_public || any (λ g. has_user user.id g.users) e.groups))))))
  unfolding create_for_user
  evaluation_verdict user e manage = ground (
    arith,
    casl.matches_public_evaluation e,
    casl.matches_user_id user.id e,
    casl.matches_groups_users_id user.id e,
    casl.matches_groups_users user.id "owner" e,
  )
  evaluation_verdict user e _ = ground (
    arith,
    casl.matches_public_evaluation e,
    casl.matches_user_id user.id e,
    casl.matches_groups_users_id user.id e,
    casl.matches_groups_users user.id "owner" e,
  )

  -- Of an evaluation, an administrator, its uploader and the owners of its groups may do everything;
  -- everyone may create one; a public evaluation may be read by everyone, any evaluation by the
  -- members of its groups.
  pub allows-an_evaluation :
      (user : User) (e : Evaluation) (action : Action)
      → allows user action (an_evaluation e) ≡ (
          is_admin user
          || (str_eq e.user_id user.id
              || (any (λ g. has_member user.id "owner" g.users) e.groups
                  || (is_action action create
                      || (is_action action read
                          && (e.is_public || any (λ g. has_user user.id g.users) e.groups))))))
  allows-an_evaluation user e action =
      allows-verdict user action (an_evaluation e) ∙ evaluation_verdict user e action

  anonymous_verdict :
      (action : Action) (subject : Subject)
      → verdict casl.matches create_for_anonymous action subject false ≡ false
  unfolding create_for_anonymous
  anonymous_verdict action subject = ground arith

  -- Without an account nothing is permitted.
  pub anonymous_denied :
      (action : Action) (subject : Subject) → casl.can create_for_anonymous action subject ≡ false
  anonymous_denied action subject =
      casl.last_rule_decides create_for_anonymous action subject ∙ anonymous_verdict action subject

  class_verdict :
      (user : User) (action : Action)
      → verdict casl.matches (create_for_user user) action (class user_type) false ≡ (
          is_admin user
          || (is_action action read_slim
              || (is_action action read || (is_action action update || is_action action delete))))
  unfolding create_for_user
  class_verdict user manage = ground arith
  class_verdict user _ = ground arith

  -- Asked about users in general, an administrator may do everything, and every other user may
  -- read, update and delete some user and list users in the slim form.
  pub allows-class_user :
      (user : User) (action : Action)
      → allows user action (class user_type) ≡ (
          is_admin user
          || (is_action action read_slim
              || (is_action action read || (is_action action update || is_action action delete))))
  allows-class_user user action =
      allows-verdict user action (class user_type) ∙ class_verdict user action
