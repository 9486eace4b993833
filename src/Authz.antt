-- ===== src/Authz.antt =====
-- heimdall2-master/apps/backend/src/casl/casl-ability.factory.ts: the permissions of a user, as the
-- rules that the factory declares, in their order. The models are those of users/user.model.ts,
-- groups/group.model.ts and evaluations/evaluation.model.ts with what the rules read, and the
-- other columns of a user. What the rules mean is the business of the library @casl/ability,
-- which Authz/Casl takes as a parameter.
pub mod Casl
pub mod Permissions
use security_scan.Prelude.{
  ℕ, String, Bool, true, false, Option, none, some, List, [], ◌∷◌, ◌++◌, str_eq, if◌then◌else◌,
}

pub data Action : Type 0 where
  manage create read update delete read_all read_slim : Action
  delete_no_password update_no_password skip_force_password_change update_role : Action
  add_evaluation remove_evaluation view_statistics force_registration : Action

pub record User : Type 0 where
  pub id : String
  pub email : String
  pub first_name : Option String
  pub last_name : Option String
  pub organization : Option String
  pub title : Option String
  pub encrypted_password : String
  pub force_password_change : Bool
  pub last_login : Option ℕ
  pub login_count : ℕ
  pub password_changed_at : Option ℕ
  pub role : String
  pub creation_method : String

-- A user of a group, with the role of the join table GroupUsers.
pub record Member : Type 0 where
  pub user_id : String
  pub group_role : String

pub record Group : Type 0 where
  pub id : String
  pub name : String
  pub is_public : Bool
  pub users : List Member

pub record Evaluation : Type 0 where
  pub id : String
  pub filename : String
  pub is_public : Bool
  pub user_id : String
  pub groups : List Group

pub data SubjectType : Type 0 where
  user_type evaluation_type group_type : SubjectType

-- What an ability is asked about: a class, or an instance of one.
pub data Subject : Type 0 where
  class : SubjectType → Subject
  a_user : User → Subject
  a_group : Group → Subject
  an_evaluation : Evaluation → Subject

-- The queries of the rules.
pub data Condition : Type 0 where
  -- {id: x}
  id_is : String → Condition
  -- {public: true}
  public_is_true : Condition
  -- {userId: x}
  user_id_is : String → Condition
  -- {'users.id': x}
  users_id_is : String → Condition
  -- {users: {$elemMatch: {id: x, 'GroupUser.role': r}}}
  users_match : String → String → Condition
  -- {'groups.users.id': x}
  groups_users_id_is : String → Condition
  -- {'groups.users': {$elemMatch: {id: x, 'GroupUser.role': r}}}
  groups_users_match : String → String → Condition

pub data RuleSubject : Type 0 where
  all_subjects : RuleSubject
  only : SubjectType → RuleSubject

pub record Rule : Type 0 where
  pub actions : List Action
  pub subject : RuleSubject
  pub conditions : Option Condition
  pub inverted : Bool

abbrev can_do : List Action → RuleSubject → Option Condition → Rule
can_do a s c = record { actions = a; subject = s; conditions = c; inverted = false }

abbrev cannot_do : List Action → RuleSubject → Option Condition → Rule
cannot_do a s c = record { actions = a; subject = s; conditions = c; inverted = true }

abbrev pub is_admin : User → Bool
is_admin u = str_eq u.role "admin"

abbrev admin_rules : User → List Rule
admin_rules user =
    can_do (manage ∷ []) all_subjects none
    ∷ can_do (view_statistics ∷ []) all_subjects none
    ∷ cannot_do (manage ∷ []) (only user_type) (some (id_is user.id))
    ∷ []

abbrev user_rules : User → List Rule
user_rules user =
    can_do (read_slim ∷ []) (only user_type) none
    ∷ can_do (read ∷ update ∷ delete ∷ []) (only user_type) (some (id_is user.id))
    ∷ can_do (create ∷ []) (only group_type) none
    ∷ can_do (read ∷ []) (only group_type) (some public_is_true)
    ∷ can_do (read ∷ add_evaluation ∷ remove_evaluation ∷ []) (only group_type)
        (some (users_id_is user.id))
    ∷ can_do (manage ∷ []) (only group_type) (some (users_match user.id "owner"))
    ∷ can_do (create ∷ []) (only evaluation_type) none
    ∷ can_do (read ∷ []) (only evaluation_type) (some public_is_true)
    ∷ can_do (manage ∷ []) (only evaluation_type) (some (user_id_is user.id))
    ∷ can_do (read ∷ []) (only evaluation_type) (some (groups_users_id_is user.id))
    ∷ can_do (manage ∷ []) (only evaluation_type) (some (groups_users_match user.id "owner"))
    ∷ []

-- createForUser
unfoldable pub create_for_user : User → List Rule
create_for_user user = (if is_admin user then admin_rules user else []) ++ user_rules user

-- createForAnonymous
unfoldable pub create_for_anonymous : List Rule
create_for_anonymous = cannot_do (manage ∷ []) all_subjects none ∷ []
