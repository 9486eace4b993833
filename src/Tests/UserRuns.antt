-- ===== src/Tests/UserRuns.antt =====
-- Runs of users.service.ts and users.controller.ts on a table of three accounts.
use security_scan.Prelude.Outcome.{ok, throw, forbidden}
use security_scan.Prelude.{
  ◌≡◌, ◌<◌, refl, ◌⊎◌, true, false, ◌&&◌, ltb, none, some, List, [], ◌∷◌, count_p,
}
use security_scan.Authz.{User, create_for_user, is_admin}
use security_scan.Authz.Permissions.{allows}
use security_scan.Users.Table.{replace}
use security_scan.Users.{
  UpdateUserDto, put_user, update_user, write_update, with_password, with_columns, with_names,
  with_role, test_password, delete_user, remove_user,
}
use security_scan.Users.Clear.{clear, count, find_by_email_bang}
use security_scan.Users.Update.{Oversees, OwnsWithPassword, put_user_authorised, forced_change_gap}
use security_scan.Users.Remove.{UniqueIds, without, MayDelete, delete_user_keeps_admin}
use security_scan.Users.Success.{with_hash}
use security_scan.Tests.Instances.{casl, bcrypt, user_table}
use security_scan.Tests.AuthzRuns.{alice, root, bob}

abbrev accounts : List User
accounts = alice ∷ root ∷ bob ∷ []

-- A new password, with the current one.
abbrev dto : UpdateUserDto
dto = record {
  email = none;
  first_name = none;
  last_name = some "Liddell";
  organization = none;
  title = none;
  role = some "admin";
  password = some "New-Password-2021";
  force_password_change = none;
  current_password = some "Old-Password-2020";
}

abbrev alice_updated : User
alice_updated = record alice {
  last_name = some "Liddell";
  encrypted_password = "New-Password-2021";
  password_changed_at = some 5;
  force_password_change = false;
}

-- The owner changes the password and not the role.
put_run :
    put_user casl bcrypt user_table 5 alice "1" dto accounts
    ≡ (replace alice_updated accounts, ok alice_updated)
unfolding put_user update_user write_update with_password with_columns with_names with_role
    test_password allows create_for_user
put_run = refl

put_user_authorised_example :
    (user : User) × (user_table.find_by_pk accounts "1" ≡ some user)
    × (Oversees casl bcrypt user_table alice user
        ⊎ OwnsWithPassword casl bcrypt user_table alice user dto)
    × (replace alice_updated accounts ≡ replace alice_updated accounts)
    × (alice_updated.id ≡ user.id)
    × ((alice_updated.role ≡ user.role) ⊎ Oversees casl bcrypt user_table alice user)
put_user_authorised_example =
    put_user_authorised casl bcrypt user_table 5 alice "1" dto accounts
      (replace alice_updated accounts) alice_updated put_run

-- Another's account is not the owner's to change.
put_other_run :
    put_user casl bcrypt user_table 5 alice "2" dto accounts ≡ (accounts, throw forbidden)
unfolding put_user allows create_for_user
put_other_run = refl

abbrev no_password : UpdateUserDto
no_password = record dto { password = none }

abbrev empty_password : UpdateUserDto
empty_password = record dto { password = some "" }

knows_password : test_password casl bcrypt user_table empty_password alice ≡ true
unfolding test_password
knows_password = refl

forced_change_gap_example :
    (u : User) × (update_user casl bcrypt user_table 5 alice alice empty_password accounts
      ≡ (replace (with_columns casl bcrypt user_table alice empty_password alice) accounts, ok u))
    × (u.encrypted_password ≡ alice.encrypted_password)
    × (u.force_password_change ≡ true)
forced_change_gap_example =
    forced_change_gap casl bcrypt user_table 5 alice alice empty_password accounts
      (replace (with_columns casl bcrypt user_table alice empty_password alice) accounts) refl refl
      knows_password refl

accounts-UniqueIds : UniqueIds accounts
accounts-UniqueIds = (refl, (refl, (refl, tt)))

-- One administrator deletes another.
delete_run : delete_user casl bcrypt user_table root "3" none accounts ≡ (alice ∷ root ∷ [], ok bob)
unfolding delete_user remove_user allows create_for_user
delete_run = refl

-- The last administrator stays.
delete_last_run :
    delete_user casl bcrypt user_table root "2" (some "Old-Password-2020") (alice ∷ root ∷ [])
    ≡ (alice ∷ root ∷ [], throw forbidden)
unfolding delete_user remove_user allows create_for_user
delete_last_run = refl

delete_user_keeps_admin_example :
    (MayDelete casl bcrypt user_table root bob none)
    × (alice ∷ root ∷ [] ≡ without "3" accounts)
    × UniqueIds (alice ∷ root ∷ [])
    × ((count_p is_admin accounts ≡ 0) ⊎ (0 < count_p is_admin (alice ∷ root ∷ [])))
delete_user_keeps_admin_example =
    delete_user_keeps_admin casl bcrypt user_table root "3" none accounts (alice ∷ root ∷ []) bob
      accounts-UniqueIds delete_run

two_admins : (is_admin bob && ltb (user_table.count_where accounts is_admin) 2) ≡ false
two_admins = refl

saved_run :
    user_table.save accounts (
      with_columns casl bcrypt user_table alice dto
        (with_hash casl bcrypt user_table 5 "New-Password-2021" alice))
    ≡ ok (replace alice_updated accounts)
unfolding with_columns with_names with_role allows create_for_user
saved_run = refl

-- The table is emptied in a test of the interface only.
cleared_run : clear user_table (some "test") (some "true") accounts ≡ ([], ok tt)
unfolding clear
cleared_run = refl

guarded_run :
    clear user_table (some "production") (some "true") accounts ≡ (accounts, throw forbidden)
unfolding clear
guarded_run = refl

found_run : find_by_email_bang user_table alice.email accounts ≡ (accounts, ok alice)
unfolding find_by_email_bang
found_run = refl

count_run : count user_table accounts ≡ 3
unfolding count
count_run = refl
