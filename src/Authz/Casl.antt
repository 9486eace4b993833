-- ===== src/Authz/Casl.antt =====
-- What the program relies on in @casl/ability, as an interface: an ability is built from rules, the
-- last rule that applies decides, and a query reads the fields of an instance as MongoDB does.
use security_scan.Prelude.{
  ℕ, String, ◌≡◌, Bool, true, false, ◌&&◌, ◌||◌, not, Option, none, some, List, [], ◌∷◌, str_eq,
  any, if◌then◌else◌, ◌==◌,
}
use security_scan.Authz.{
  Action, manage, create, read, update, delete, read_all, read_slim, delete_no_password,
  update_no_password, skip_force_password_change, update_role, add_evaluation, remove_evaluation,
  view_statistics, force_registration, User, Member, Group, Evaluation, SubjectType, user_type,
  evaluation_type, group_type, Subject, class, a_user, a_group, an_evaluation, Condition, id_is,
  public_is_true, user_id_is, users_id_is, users_match, groups_users_id_is, groups_users_match,
  RuleSubject, all_subjects, only, Rule,
}

-- The strings of the enumeration are told apart by these numbers.
abbrev pub action_tag : Action → ℕ
action_tag manage = 0
action_tag create = 1
action_tag read = 2
action_tag update = 3
action_tag delete = 4
action_tag read_all = 5
action_tag read_slim = 6
action_tag delete_no_password = 7
action_tag update_no_password = 8
action_tag skip_force_password_change = 9
action_tag update_role = 10
action_tag add_evaluation = 11
action_tag remove_evaluation = 12
action_tag view_statistics = 13
action_tag force_registration = 14

abbrev pub is_action : Action → Action → Bool
is_action a b = action_tag a == action_tag b

abbrev type_tag : SubjectType → ℕ
type_tag user_type = 0
type_tag evaluation_type = 1
type_tag group_type = 2

abbrev type_of : Subject → SubjectType
type_of (class t) = t
type_of (a_user u) = user_type
type_of (a_group g) = group_type
type_of (an_evaluation e) = evaluation_type

-- `manage` stands for every action.
abbrev pub for_action : List Action → Action → Bool
for_action l a = any (λ b. is_action b manage || is_action b a) l

abbrev pub for_subject : RuleSubject → Subject → Bool
for_subject all_subjects s = true
for_subject (only t) s = type_tag t == type_tag (type_of s)

abbrev pub has_user : String → List Member → Bool
has_user x l = any (λ m. str_eq m.user_id x) l

abbrev pub has_member : String → String → List Member → Bool
has_member x r l = any (λ m. str_eq m.user_id x && str_eq m.group_role r) l

module _ (matches : Condition → Subject → Bool) where
  -- Asked about a class, a rule with a query applies unless it forbids.
  abbrev pub for_conditions : Option Condition → Bool → Subject → Bool
  for_conditions none inverted s = true
  for_conditions (some c) inverted (class t) = not inverted
  for_conditions (some c) inverted (a_user u) = matches c (a_user u)
  for_conditions (some c) inverted (a_group g) = matches c (a_group g)
  for_conditions (some c) inverted (an_evaluation e) = matches c (an_evaluation e)

  abbrev pub applies : Rule → Action → Subject → Bool
  applies r a s =
      for_action r.actions a && for_subject r.subject s && for_conditions r.conditions r.inverted s

  -- The verdict of the last rule that applies, over the verdict so far.
  abbrev pub verdict : List Rule → Action → Subject → Bool → Bool
  verdict [] a s v = v
  verdict (r ∷ rs) a s v = verdict rs a s (if applies r a s then not r.inverted else v)

pub record Casl : Type 0 where
  pub matches : Condition → Subject → Bool
  pub can : List Rule → Action → Subject → Bool
  pub last_rule_decides :
      (rules : List Rule) (a : Action) (s : Subject)
      → can rules a s ≡ verdict matches rules a s false
  pub matches_id : (x : String) (u : User) → matches (id_is x) (a_user u) ≡ str_eq u.id x
  pub matches_public_group : (g : Group) → matches public_is_true (a_group g) ≡ g.is_public
  pub matches_users_id :
      (x : String) (g : Group) → matches (users_id_is x) (a_group g) ≡ has_user x g.users
  pub matches_users :
      (x r : String) (g : Group) → matches (users_match x r) (a_group g) ≡ has_member x r g.users
  pub matches_public_evaluation :
      (e : Evaluation) → matches public_is_true (an_evaluation e) ≡ e.is_public
  pub matches_user_id :
      (x : String) (e : Evaluation) → matches (user_id_is x) (an_evaluation e) ≡ str_eq e.user_id x
  pub matches_groups_users_id :
      (x : String) (e : Evaluation)
      → matches (groups_users_id_is x) (an_evaluation e) ≡ any (λ g. has_user x g.users) e.groups
  pub matches_groups_users :
      (x r : String) (e : Evaluation)
      → matches (groups_users_match x r) (an_evaluation e)
        ≡ any (λ g. has_member x r g.users) e.groups
