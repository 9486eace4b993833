-- ===== src/Tests/SessionRuns.antt =====
-- Runs of the session of the frontend.
use security_scan.Prelude.{
  ◌≡◌, refl, true, false, Option, none, some, [], ◌∷◌, Text, codes, is_empty,
}
use security_scan.Session.{
  Json, UserInfo, ServerResponse, Session, page, default_settings, reload, get, get_user_info,
  restore, handle_login, check_for_server, logout, fetch_all_users,
}
use security_scan.Session.Reach.{
  Consistent, Reachable-Consistent, Reachable, opened, after, checked,
}
use security_scan.Session.Persistence.{
  resumed, signed_out, check_for_server-login, check_for_server-logout,
}

-- A text in JSON that is marked by one character.
abbrev marked : Text → Text
marked t = b'"' ∷ t

abbrev unmarked : Text → Option (Option Text)
unmarked [] = none
unmarked (c ∷ t) = some (some t)

unmarked-marked : (t : Text) → unmarked (marked t) ≡ some (some t)
unmarked-marked t = refl

marked-filled : (t : Text) → is_empty (marked t) ≡ false
marked-filled t = refl

abbrev json : Json
json = record {
  stringify = marked;
  parse = unmarked;
  parse-stringify = unmarked-marked;
  stringify-filled = marked-filled;
}

abbrev user : UserInfo
user = record { id = codes "7"; rest = 1 }

abbrev answer : ServerResponse
answer = record { status = 200; settings = default_settings }

abbrev fresh : Session
fresh = page none none none none

-- A session that a provider has started by its cookies.
abbrev by_cookies : Session
by_cookies =
    check_for_server json (some answer) (some user) none
      (page none none (some (codes "t")) (some (codes "7")))

cookies_run : by_cookies.token ≡ codes "t"
unfolding check_for_server restore get get_user_info
cookies_run = refl

-- The server does not know the user: the storage is cleared, and the page loads again.
unknown_run : (handle_login json (codes "7") (codes "t") none none fresh).reloading ≡ true
unfolding handle_login get_user_info logout
unknown_run = refl

check_for_server-login_example :
    check_for_server json
      (some answer)
      (some user)
      none
      (reload (handle_login json (codes "7") (codes "t") (some user) none fresh))
    ≡ fetch_all_users json none (resumed json (codes "7") (codes "t") user answer)
check_for_server-login_example =
    check_for_server-login json (codes "7") (codes "t") user user none none answer fresh refl refl
      refl

by_cookies-Reachable : Reachable json by_cookies
by_cookies-Reachable =
    after (opened none none (some (codes "t")) (some (codes "7")) refl)
      (checked (some answer) (some user) none refl)

by_cookies-in_server_mode : by_cookies.server_mode ≡ true
unfolding check_for_server restore get get_user_info
by_cookies-in_server_mode = refl

check_for_server-logout_example :
    check_for_server json (some answer) (some user) none (reload (logout json by_cookies))
    ≡ signed_out json (some answer)
check_for_server-logout_example =
    check_for_server-logout json by_cookies (some answer) (some user) none by_cookies-Reachable
      by_cookies-in_server_mode

Reachable-Consistent_example : Consistent json by_cookies
Reachable-Consistent_example = Reachable-Consistent json by_cookies-Reachable
