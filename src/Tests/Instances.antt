-- ===== src/Tests/Instances.antt =====
-- Values of the interfaces: they show that what the theorems assume of the libraries can be met.
use security_scan.Prelude.Outcome.{Outcome, ok}
use security_scan.Prelude.Int.{ℤ, pos}
use security_scan.Prelude.{
  arith, sym, ap, ◌∙◌, eq_iff, Bool-cases, inl, inr, Option, ◌≡◌, refl, Bool, false, not, none,
  some, List, [], ◌∷◌, String, str_eq, any, find, filter, count_p, Text, if◌then◌else◌,
}
use security_scan.Authz.{
  User, Member, Group, Evaluation, Subject, a_user, a_group, an_evaluation, Condition, id_is,
  public_is_true, user_id_is, users_id_is, users_match, groups_users_id_is, groups_users_match,
}
use security_scan.Authz.Casl.{Casl, verdict, has_user, has_member}
use security_scan.Users.Table.{NewUser, UserTable, row_of, has_id, replace}
use security_scan.Users.{Bcrypt}
use security_scan.Groups.Table.{GroupTable, other_than}

abbrev matches : Condition → Subject → Bool
matches (id_is x) (a_user u) = str_eq u.id x
matches public_is_true (a_group g) = g.is_public
matches public_is_true (an_evaluation e) = e.is_public
matches (user_id_is x) (an_evaluation e) = str_eq e.user_id x
matches (users_id_is x) (a_group g) = has_user x g.users
matches (users_match x r) (a_group g) = has_member x r g.users
matches (groups_users_id_is x) (an_evaluation e) = any (λ g. has_user x g.users) e.groups
matches (groups_users_match x r) (an_evaluation e) = any (λ g. has_member x r g.users) e.groups
matches _ _ = false

abbrev pub casl : Casl
casl = record {
  matches = matches;
  can = λ rules a s. verdict matches rules a s false;
  last_rule_decides = λ rules a s. refl;
  matches_id = λ x u. refl;
  matches_public_group = λ g. refl;
  matches_users_id = λ x g. refl;
  matches_users = λ x r g. refl;
  matches_public_evaluation = λ e. refl;
  matches_user_id = λ x e. refl;
  matches_groups_users_id = λ x e. refl;
  matches_groups_users = λ x r e. refl;
}

-- A hash that only marks the text.
abbrev pub bcrypt : Bcrypt
bcrypt = record {
  compare = λ password stored. some (str_eq stored password);
  hash = λ password. some password;
}

pub replaced : (s t : List User) (user : User) → ok (replace user s) ≡ ok t → t ≡ replace user s
replaced s t user e = cc

pub inserted :
    (s t : List User) (new : NewUser) (user : User)
    → ◌≡◌ {A = List User × Outcome User} (row_of "new" new ∷ s, ok (row_of "new" new)) (t, ok user)
    → ((id : String) × (user ≡ row_of id new))
      × (find (λ u. str_eq u.email new.email) t ≡ some user)
inserted s t new user e =
    let same : user ≡ row_of "new" new = ground (arith, e) in
    let rows : t ≡ row_of "new" new ∷ s = ground (arith, e) in
    (("new", same), rw rows (rw ((eq_iff new.email new.email).1 refl) (ap some (sym same))))

abbrev pub user_table : UserTable
user_table = record {
  State = List User;
  rows = λ s. s;
  find_by_pk = λ s id. find (has_id id) s;
  find_by_email = λ s email. find (λ u. str_eq u.email email) s;
  find_all = λ s. s;
  count_where = λ s p. count_p p s;
  insert = λ s new. (row_of "new" new ∷ s, ok (row_of "new" new));
  save = λ s user. ok (replace user s);
  destroy = λ s user. filter (λ u. not (has_id user.id u)) s;
  destroy_all = λ s. [];
  find_by_pk_lem = λ s id. refl;
  count_where_lem = λ s p. refl;
  save_lem = replaced;
  insert_lem = inserted;
  destroy_lem = λ s user. refl;
  destroy_all_lem = λ s. refl;
}

-- One group with its members, one user to add, and one evaluation.
pub record OneGroup : Type 0 where
  pub group : Group
  pub members : List Member
  pub user : User
  pub evaluation : Evaluation

abbrev only_user : User → String → Option User
only_user u id = if str_eq u.id id then some u else none

pub only_user_lem : (v : User) (id : String) (u : User) → only_user v id ≡ some u → u.id ≡ id
only_user_lem v id u h = elim (Bool-cases (str_eq v.id id)) [
  | inl same ↦
      (let one : v ≡ u = ground (arith, rw same at h) in
        sym (ap (λ x. x.id) one) ∙ (eq_iff v.id id).0 same)
  | inr other ↦ absurd (ground (arith, rw other at h))
]

abbrev pub group_table : GroupTable
group_table = record {
  State = OneGroup;
  find_user = λ s id. only_user s.user id;
  find_evaluation = λ s id. if str_eq s.evaluation.id id then some s.evaluation else none;
  find_by_pk = λ s id. if str_eq s.group.id id then some s.group else none;
  find_all = λ s. s.group ∷ [];
  groups_of = λ s user. s.group ∷ [];
  members = λ s g. s.members;
  insert = λ s dto. (s, ok s.group);
  save = λ s g. (record s { group = g }, ok g);
  destroy = λ s g. s;
  add_user = λ s g id role. record s {
    members = record { user_id = id; group_role = role } ∷ filter (other_than id) s.members;
  };
  remove_user = λ s g id. record s { members = filter (other_than id) s.members };
  add_evaluation = λ s g id. s;
  remove_evaluation = λ s g id. s;
  find_user_lem = λ s id u h. only_user_lem s.user id u h;
  remove_user_lem = λ s g id. refl;
}

-- A collation that tells no texts apart.
abbrev pub same_collation : Text → Text → ℤ
same_collation s t = pos 0
