-- ===== src/Groups/Table.antt =====
-- What the program relies on in sequelize for the tables of groups, of their members and of
-- evaluations.
use security_scan.Prelude.Outcome.{Outcome}
use security_scan.Prelude.{String, ◌≡◌, Bool, not, Option, some, List, str_eq, filter}
use security_scan.Authz.{User, Member, Group, Evaluation}

pub record CreateGroupDto : Type 0 where
  pub name : String
  pub is_public : Bool

abbrev pub other_than : String → Member → Bool
other_than id m = not (str_eq m.user_id id)

pub record GroupTable : Type 1 where
  pub State : Type 0
  pub find_user : State → String → Option User
  pub find_evaluation : State → String → Option Evaluation
  -- with the users of each group included
  pub find_by_pk : State → String → Option Group
  pub find_all : State → List Group
  -- `user.$get('groups')`, with the users of each group included
  pub groups_of : State → User → List Group
  -- `group.$get('users')`
  pub members : State → Group → List Member
  pub insert : State → CreateGroupDto → State × Outcome Group
  pub save : State → Group → State × Outcome Group
  pub destroy : State → Group → State
  -- `group.$add('user', …)` with a role, `group.$remove('user', …)`, and the same for evaluations
  pub add_user : State → Group → String → String → State
  pub remove_user : State → Group → String → State
  pub add_evaluation : State → Group → String → State
  pub remove_evaluation : State → Group → String → State
  pub find_user_lem : (s : State) (id : String) (u : User) → find_user s id ≡ some u → u.id ≡ id
  pub remove_user_lem :
      (s : State) (g : Group) (id : String)
      → members (remove_user s g id) g ≡ filter (other_than id) (members s g)
