-- ===== src/Session/Persistence.antt =====
-- A session of heimdall2-master/apps/frontend/src/store/server.ts across reloads of the page.
use security_scan.Prelude.{
  true, false, Option, none, some, List, ◌≡◌, refl, ◌∙◌, ap, ◌==◌, is_empty, if◌then◌else◌, Text,
  Bool-cases, inl, inr,
}
use security_scan.Session.{
  Json, UserInfo, ServerResponse, Session, page, reload, bearer, get, get_user_info, handle_login,
  logout, restore, check_for_server, fetch_all_users,
}
use security_scan.Session.Reach.{Reachable, Reachable-Consistent}

module _ (json : Json) where
  get-stringify :
      (t : Text) → get json (some (json.stringify t)) ≡ (some t, some (json.stringify t))
  unfolding get
  get-stringify t = rw (json.stringify-filled t, get) (rw (json.parse-stringify t) refl)

  -- What a page makes of the items of a session, if the server answers and knows the user.
  abbrev pub resumed : Text → Text → UserInfo → ServerResponse → Session
  resumed user_id access_token user answer =
      record (page (some (json.stringify access_token)) (some (json.stringify user_id)) none none) {
        server_mode = true;
        loading = false;
        settings = answer.settings;
        token = access_token;
        authorization = some (bearer access_token);
        user_info = user;
      }

  resume :
      (user_id access_token : Text) (user : UserInfo) (users : Option (List UserInfo))
      (answer : ServerResponse) (c d : Option Text)
      → is_empty user_id ≡ false
      → is_empty access_token ≡ false
      → answer.status ≡ 200
      → check_for_server json
          (some answer)
          (some user)
          users
          (page (some (json.stringify access_token)) (some (json.stringify user_id)) c d)
        ≡ fetch_all_users json users (resumed user_id access_token user answer)
  unfolding check_for_server restore get_user_info
  resume user_id access_token user none answer c d u a ok =
      rw (ok, get-stringify access_token, get-stringify user_id) (rw (a, u) (rw u refl))
  resume user_id access_token user (some us) answer c d u a ok =
      rw (ok, get-stringify access_token, get-stringify user_id) (rw (a, u) (rw u refl))

  reload-login :
      (user_id access_token : Text) (user : UserInfo) (users : Option (List UserInfo)) (s : Session)
      → is_empty user_id ≡ false
      → reload (handle_login json user_id access_token (some user) users s)
        ≡ page
            (some (json.stringify access_token))
            (some (json.stringify user_id))
            s.token_cookie
            s.user_cookie
  unfolding handle_login get_user_info
  reload-login user_id access_token user none s u = rw u refl
  reload-login user_id access_token user (some us) s u = rw u refl

  -- A page without items and cookies.
  abbrev pub signed_out : Option ServerResponse → Session
  signed_out none = record (page none none none none) { loading = false }
  signed_out (some answer) =
      if answer.status == 200
      then record (page none none none none) {
        server_mode = true;
        loading = false;
        settings = answer.settings;
      }
      else record (page none none none none) { loading = false }

  check-signed_out :
      (answer : Option ServerResponse) (user : Option UserInfo) (users : Option (List UserInfo))
      → check_for_server json answer user users (page none none none none) ≡ signed_out answer
  unfolding check_for_server restore get_user_info get
  check-signed_out none user users = refl
  check-signed_out (some a) user users = elim (Bool-cases (a.status == 200)) [
    | inl e ↦ rw e refl
    | inr e ↦ rw e refl
  ]

-- Whoever signs in, with a user id and a token that are not empty, stays signed in across a reload of the
-- page: if the server knows the user at the login, and answers with the status 200 and knows the user after
-- it, the next check for the server gives the session with the same token in the header of its requests,
-- with the user that the server answers, and with no cookies left.
pub check_for_server-login :
    (json : Json) (user_id access_token : Text) (first second : UserInfo)
    (users others : Option (List UserInfo)) (answer : ServerResponse) (s : Session)
    → is_empty user_id ≡ false
    → is_empty access_token ≡ false
    → answer.status ≡ 200
    → check_for_server json
        (some answer)
        (some second)
        others
        (reload (handle_login json user_id access_token (some first) users s))
      ≡ fetch_all_users json others (resumed json user_id access_token second answer)
check_for_server-login json user_id access_token first second users others answer s u a ok =
    ap (check_for_server json (some answer) (some second) others)
      (reload-login json user_id access_token first users s u)
    ∙ resume json user_id access_token second others answer s.token_cookie s.user_cookie u a ok

-- Whoever signs out is signed out: from any reachable session in server mode, after a logout and the
-- reload of the page, the next check for the server leaves no token, no header, no items in the storage and
-- no cookies, whatever the server answers.
pub check_for_server-logout :
    (json : Json) (s : Session) (answer : Option ServerResponse) (user : Option UserInfo)
    (users : Option (List UserInfo))
    → Reachable json s
    → s.server_mode ≡ true
    → check_for_server json answer user users (reload (logout json s)) ≡ signed_out json answer
unfolding logout
check_for_server-logout json s answer user users r h =
    let c = (Reachable-Consistent json r).booted h in
    ap (λ i. check_for_server json answer user users (page none none i s.user_cookie)) c.1
    ∙ ap (λ i. check_for_server json answer user users (page none none none i)) c.2
    ∙ check-signed_out json answer user users
