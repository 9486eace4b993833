-- ===== src/Users/Clear.antt =====
-- The queries of heimdall2-master/apps/backend/src/users/users.service.ts that no handler of Users makes, and
-- POST users/clear of users.controller.ts behind guards/test.guard.ts.
use security_scan.Prelude.Outcome.{Outcome, ok, throw, not_found, forbidden}
use security_scan.Prelude.{
  ℕ, String, Bool, true, false, ◌&&◌, ◌||◌, Option, none, some, str_eq, if◌then◌else◌,
}
use security_scan.Authz.{User}
use security_scan.Users.Table.{UserTable}

-- TestGuard.canActivate, by NODE_ENV and CYPRESS_TESTING
abbrev pub can_activate : Option String → Option String → Bool
can_activate none cypress = false
can_activate (some environment) none = false
can_activate (some environment) (some cypress) =
    (str_eq environment "development" || str_eq environment "test") && str_eq cypress "true"

module _ (table : UserTable) where
  open table use {State, find_by_email, count_where, destroy_all}

  -- count
  unfoldable pub count : State → ℕ
  count s = count_where s (λ u. true)

  -- findByEmail, by findOneBang
  unfoldable pub find_by_email_bang : String → State → State × Outcome User
  find_by_email_bang email s = elim (find_by_email s email) [
    | none ↦ (s, throw not_found)
    | some user ↦ (s, ok user)
  ]

  -- POST /clear
  unfoldable pub clear : Option String → Option String → State → State × Outcome (Unit {0})
  clear environment cypress s =
      if can_activate environment cypress then (destroy_all s, ok tt) else (s, throw forbidden)
