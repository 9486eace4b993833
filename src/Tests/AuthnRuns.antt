-- ===== src/Tests/AuthnRuns.antt =====
-- Runs of authn.service.ts and of the strategies on a table of three accounts.
use security_scan.Prelude.Outcome.{ok, throw, unauthorized}
use security_scan.Prelude.{◌≡◌, refl, ◌↔◌, ◌⊎◌, false, none, some, List, [], ◌∷◌}
use security_scan.Authz.{User}
use security_scan.Authn.{
  split_spaces, split_name, logged_in, sign_in, refresh, validate_user, validate_local,
  validate_or_create_user, validate_okta,
}
use security_scan.Authn.Login.{Knows, validate_local_iff}
use security_scan.Authn.Providers.{SameAccount, validate_or_create_user-role}
use security_scan.Tests.Instances.{casl, bcrypt, user_table}
use security_scan.Tests.AuthzRuns.{alice, root, bob}

abbrev accounts : List User
accounts = alice ∷ root ∷ bob ∷ []

split_run :
    split_name "Alice P. Liddell" ≡ record { first_name = "Alice P."; last_name = "Liddell" }
unfolding split_name split_spaces
split_run = refl

validate_local_iff_example :
    ((validate_local casl bcrypt user_table 5 alice.email "Old-Password-2020" accounts).1
      ≡ ok (logged_in casl bcrypt user_table 5 alice))
    ↔ ((user : User) × Knows casl bcrypt user_table accounts alice.email "Old-Password-2020" user
        × (logged_in casl bcrypt user_table 5 alice ≡ logged_in casl bcrypt user_table 5 user))
validate_local_iff_example =
    validate_local_iff casl bcrypt user_table 5 alice.email "Old-Password-2020" accounts
      (logged_in casl bcrypt user_table 5 alice)

wrong_run :
    validate_local casl bcrypt user_table 5 alice.email "old" accounts
    ≡ (accounts, throw unauthorized)
unfolding validate_local validate_user
wrong_run = refl

-- The provider gives another last name.
abbrev renamed : User
renamed = record alice { last_name = some "Liddell" }

abbrev returned : User
returned = logged_in casl bcrypt user_table 5 renamed

provider_run :
    validate_or_create_user casl bcrypt user_table 5 "secret" alice.email "Alice" "Liddell" "okta"
      accounts
    ≡ (returned ∷ root ∷ bob ∷ [], ok returned)
unfolding validate_or_create_user refresh sign_in
provider_run = refl

validate_or_create_user-role_example :
    ((user : User) × (user_table.find_by_email accounts alice.email ≡ some user)
      × SameAccount casl bcrypt user_table returned user)
    ⊎ ((user_table.find_by_email accounts alice.email ≡ none) × (returned.role ≡ "user"))
validate_or_create_user-role_example =
    validate_or_create_user-role casl bcrypt user_table 5 "secret" alice.email "Alice" "Liddell"
      "okta" accounts (returned ∷ root ∷ bob ∷ []) returned provider_run

-- An address that the provider has not verified.
unverified_run :
    validate_okta casl bcrypt user_table 5 "secret" "Alice" "Liddell"
      (record { value = alice.email; verified = false })
      accounts
    ≡ (accounts, throw unauthorized)
unfolding validate_okta
unverified_run = refl
