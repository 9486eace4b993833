-- ===== src/Session.antt =====
-- heimdall2-master/apps/frontend/src/store/server.ts: the session of the frontend with the server, and the
-- values that it keeps in the storage of the browser, LocalStorageVal of
-- heimdall2-master/apps/frontend/src/utilities/helper_util.ts. What the server answers is an argument, an answer
-- that fails is none. The groups that follow a fetch are those of ServerLists. Other tabs, which share the
-- storage, are left out.
pub mod Reach
pub mod Persistence
use security_scan.Prelude.{
  ℕ, Bool, true, false, not, Option, none, some, List, [], ◌∷◌, ◌++◌, ◌==◌, is_empty, if◌then◌else◌,
  ◌≡◌, ◌≢◌, Text, codes, text_eq,
}

-- JSON.stringify of a text, which is never empty, and JSON.parse, which gives a text or null or throws.
pub record Json : Type 0 where
  pub stringify : Text → Text
  pub parse : Text → Option (Option Text)
  pub parse-stringify : (t : Text) → parse (stringify t) ≡ some (some t)
  pub stringify-filled : (t : Text) → is_empty (stringify t) ≡ false

pub record UserInfo : Type 0 where
  pub id : Text
  -- the other fields, by which record they are
  pub rest : ℕ

pub record StartupSettings : Type 0 where
  pub banner : Text
  pub enabled_oauth : List Text
  pub registration_enabled : Bool
  pub oidc_name : Text
  pub ldap : Bool

pub record Session : Type 0 where
  pub server_mode : Bool
  pub loading : Bool
  pub settings : StartupSettings
  pub all_users : List UserInfo
  pub token : Text
  pub user_info : UserInfo
  -- axios.defaults.headers.common['Authorization']
  pub authorization : Option Text
  -- the items auth_token and localUserID of the storage
  pub token_item : Option Text
  pub user_item : Option Text
  -- the cookies accessToken and userID
  pub token_cookie : Option Text
  pub user_cookie : Option Text
  -- location.reload() was called
  pub reloading : Bool

abbrev pub default_settings : StartupSettings
default_settings = record {
  banner = [];
  enabled_oauth = [];
  registration_enabled = true;
  oidc_name = [];
  ldap = false;
}

-- The state of a page that was just loaded, with what the browser kept.
abbrev pub page : Option Text → Option Text → Option Text → Option Text → Session
page token_item user_item token_cookie user_cookie = record {
  server_mode = false;
  loading = true;
  settings = default_settings;
  all_users = [];
  token = [];
  user_info = record { id = []; rest = 0 };
  authorization = none;
  token_item = token_item;
  user_item = user_item;
  token_cookie = token_cookie;
  user_cookie = user_cookie;
  reloading = false;
}

-- The reload of the page.
abbrev pub reload : Session → Session
reload s = page s.token_item s.user_item s.token_cookie s.user_cookie

abbrev pub bearer : Text → Text
bearer t = codes "Bearer " ++ t

-- `x || y` of texts that may be null
abbrev pub or_else : Option Text → Option Text → Option Text
or_else none y = y
or_else (some x) y = if is_empty x then y else some x

-- A response of /server: its status and its data.
pub record ServerResponse : Type 0 where
  pub status : ℕ
  pub settings : StartupSettings

module _ (json : Json) where
  -- LocalStorageVal.get: the value, and the item that is left
  abbrev pub parsed : Text → Option (Option Text) → Option Text × Option Text
  parsed s none = (none, none)
  parsed s (some v) = (v, some s)

  unfoldable pub get : Option Text → Option Text × Option Text
  get none = (none, none)
  get (some s) = if is_empty s then (none, some s) else parsed s (json.parse s)

  -- SET_TOKEN
  abbrev pub set_token : Text → Session → Session
  set_token new_token s = record s {
    token = new_token;
    token_item = some (json.stringify new_token);
    authorization = some (bearer new_token);
  }

  -- SET_USERID
  abbrev pub set_userid : Text → Session → Session
  set_userid new_id s = record s {
    user_item = some (json.stringify new_id);
    user_info = record (s.user_info) { id = new_id };
  }

  abbrev pub set_startup_settings : StartupSettings → Session → Session
  set_startup_settings settings s = record s { settings = settings }

  abbrev pub set_user_info : UserInfo → Session → Session
  set_user_info info s = record s { user_info = info }

  abbrev pub set_server : Session → Session
  set_server s = record s { server_mode = true }

  abbrev pub set_loading : Bool → Session → Session
  set_loading loading s = record s { loading = loading }

  abbrev pub set_all_users : List UserInfo → Session → Session
  set_all_users users s = record s { all_users = users }

  abbrev pub clear_token : Session → Session
  clear_token s = record s { token_item = none }

  abbrev pub clear_userid : Session → Session
  clear_userid s = record s { user_item = none }

  -- Logout
  unfoldable pub logout : Session → Session
  logout s = record (clear_token (clear_userid s)) { reloading = true }

  -- FetchAllUsers
  abbrev pub fetch_all_users : Option (List UserInfo) → Session → Session
  fetch_all_users none s = s
  fetch_all_users (some users) s = set_all_users users s

  abbrev pub user_answered : Option UserInfo → Session → Session
  user_answered none s = logout s
  user_answered (some info) s = set_user_info info s

  -- GetUserInfo
  unfoldable pub get_user_info : Option UserInfo → Option (List UserInfo) → Session → Session
  unfolding logout
  get_user_info user users s =
      if not (is_empty s.user_info.id) then fetch_all_users users (user_answered user s) else s

  -- handleLogin
  unfoldable pub handle_login :
      Text → Text → Option UserInfo → Option (List UserInfo) → Session → Session
  unfolding get_user_info
  handle_login user_id access_token user users s =
      get_user_info user users (set_token access_token (set_userid user_id s))

  -- Login, LoginLDAP and LoginGithub: the user id and the token, if the server answers
  unfoldable pub login :
      Option (Text × Text) → Option UserInfo → Option (List UserInfo) → Session → Session
  unfolding handle_login
  login none user users s = s
  login (some (user_id, access_token)) user users s = handle_login user_id access_token user users s

  -- updateUserInfo
  unfoldable pub update_user_info : Option UserInfo → Session → Session
  update_user_info none s = s
  update_user_info (some info) s =
      if text_eq s.user_info.id info.id then set_user_info info s else s

  abbrev pub set_token_if : Option Text → Session → Session
  set_token_if none s = s
  set_token_if (some t) s = set_token t s

  abbrev pub set_userid_if : Option Text → Session → Session
  set_userid_if none s = s
  set_userid_if (some t) s = set_userid t s

  -- The token and the user id of the storage or of the cookies, which are removed.
  unfoldable pub restore : Session → Session
  unfolding get
  restore s =
      let (token, token_left) = get s.token_item in
      let (user, user_left) = get s.user_item in
      set_userid_if (or_else user s.user_cookie) (
        set_token_if (or_else token s.token_cookie) (record s {
          token_item = token_left;
          user_item = user_left;
          token_cookie = none;
          user_cookie = none;
        }))

  abbrev pub server_answered :
      Option ServerResponse → Option UserInfo → Option (List UserInfo) → Session → Session
  server_answered none user users s = s
  server_answered (some answer) user users s =
      if answer.status == 200
      then get_user_info user users (restore (set_startup_settings answer.settings (set_server s)))
      else s

  -- CheckForServer
  unfoldable pub check_for_server :
      Option ServerResponse → Option UserInfo → Option (List UserInfo) → Session → Session
  unfolding restore get_user_info
  check_for_server answer user users s =
      if not s.loading then s else set_loading false (server_answered answer user users s)
