-- ===== src/Tests/AuthzRuns.antt =====
-- Runs of casl-ability.factory.ts for concrete accounts.
use security_scan.Prelude.{
  ◌≡◌, true, false, ◌&&◌, ◌||◌, none, some, List, [], ◌∷◌, str_eq, any, if◌then◌else◌,
}
use security_scan.Authz.{
  User, Member, Group, Evaluation, create, read, update, delete, read_slim, add_evaluation,
  remove_evaluation, a_user, a_group, an_evaluation, is_admin,
}
use security_scan.Authz.Casl.{is_action, has_user, has_member}
use security_scan.Authz.Permissions.{allows, allows-a_user, allows-a_group, allows-an_evaluation}
use security_scan.Tests.Instances.{casl}

abbrev pub alice : User
alice = record {
  id = "1";
  email = "alice@example.org";
  first_name = some "Alice";
  last_name = none;
  organization = none;
  title = none;
  encrypted_password = "Old-Password-2020";
  force_password_change = true;
  last_login = none;
  login_count = 0;
  password_changed_at = none;
  role = "user";
  creation_method = "local";
}

abbrev pub root : User
root = record alice {
  id = "2";
  email = "root@example.org";
  role = "admin";
  force_password_change = false;
}

abbrev pub bob : User
bob = record root { id = "3"; email = "bob@example.org" }

abbrev pub alice_owns : List Member
alice_owns =
    record { user_id = "1"; group_role = "owner" }
    ∷ record { user_id = "3"; group_role = "owner" }
    ∷ []

abbrev pub group : Group
group = record { id = "7"; name = "Scans"; is_public = false; users = alice_owns }

abbrev pub evaluation : Evaluation
evaluation = record {
  id = "9";
  filename = "rhel.json";
  is_public = false;
  user_id = "1";
  groups = group ∷ [];
}

allows-a_user_example : allows casl alice update (a_user root) ≡ (
    is_action update read_slim
    || (if str_eq root.id alice.id
        then is_action update read || (is_action update update || is_action update delete)
        else is_admin alice))
allows-a_user_example = allows-a_user casl alice root update

allows-a_group_example : allows casl bob add_evaluation (a_group group) ≡ (
    is_admin bob
    || (has_member bob.id "owner" group.users
        || (is_action add_evaluation create
            || ((is_action add_evaluation read && (group.is_public || has_user bob.id group.users))
                || ((is_action add_evaluation add_evaluation
                      || is_action add_evaluation remove_evaluation)
                    && has_user bob.id group.users)))))
allows-a_group_example = allows-a_group casl bob group add_evaluation

allows-an_evaluation_example : allows casl alice delete (an_evaluation evaluation) ≡ (
    is_admin alice
    || (str_eq evaluation.user_id alice.id
        || (any (λ g. has_member alice.id "owner" g.users) evaluation.groups
            || (is_action delete create
                || (is_action delete read
                    && (evaluation.is_public
                        || any (λ g. has_user alice.id g.users) evaluation.groups))))))
allows-an_evaluation_example = allows-an_evaluation casl alice evaluation delete
