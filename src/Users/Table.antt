-- ===== src/Users/Table.antt =====
-- What the program relies on in sequelize for the table of users: the rows that a query reads, and
-- those that stand after a statement.
use security_scan.Prelude.Outcome.{Outcome, ok}
use security_scan.Prelude.{
  ℕ, String, ◌≡◌, Bool, false, not, Option, none, some, List, [], map, str_eq, filter, find,
  count_p, if◌then◌else◌,
}
use security_scan.Authz.{User}

-- A new row, before the database gives it an id and the defaults.
pub record NewUser : Type 0 where
  pub email : String
  pub first_name : Option String
  pub last_name : Option String
  pub organization : Option String
  pub title : Option String
  pub encrypted_password : String
  pub role : String
  pub creation_method : String

abbrev pub row_of : String → NewUser → User
row_of id u = record {
  id = id;
  email = u.email;
  first_name = u.first_name;
  last_name = u.last_name;
  organization = u.organization;
  title = u.title;
  encrypted_password = u.encrypted_password;
  force_password_change = false;
  last_login = none;
  login_count = 0;
  password_changed_at = none;
  role = u.role;
  creation_method = u.creation_method;
}

abbrev pub has_id : String → User → Bool
has_id id u = str_eq u.id id

abbrev pub replace : User → List User → List User
replace user = map (λ u. if str_eq u.id user.id then user else u)

pub record UserTable : Type 1 where
  pub State : Type 0
  pub rows : State → List User
  pub find_by_pk : State → String → Option User
  pub find_by_email : State → String → Option User
  pub find_all : State → List User
  pub count_where : State → (User → Bool) → ℕ
  pub insert : State → NewUser → State × Outcome User
  pub save : State → User → Outcome State
  pub destroy : State → User → State
  -- `destroy({where: {}})`
  pub destroy_all : State → State
  pub find_by_pk_lem : (s : State) (id : String) → find_by_pk s id ≡ find (has_id id) (rows s)
  pub count_where_lem : (s : State) (p : User → Bool) → count_where s p ≡ count_p p (rows s)
  pub save_lem : (s t : State) (user : User) → save s user ≡ ok t → rows t ≡ replace user (rows s)
  -- an address has one row at most
  pub insert_lem :
      (s t : State) (new : NewUser) (user : User)
      → insert s new ≡ (t, ok user)
      → ((id : String) × (user ≡ row_of id new)) × (find_by_email t new.email ≡ some user)
  pub destroy_lem :
      (s : State) (user : User)
      → rows (destroy s user) ≡ filter (λ u. not (has_id user.id u)) (rows s)
  pub destroy_all_lem : (s : State) → rows (destroy_all s) ≡ []
