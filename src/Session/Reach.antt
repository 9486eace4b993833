-- ===== src/Session/Reach.antt =====
-- The sessions that the actions of heimdall2-master/apps/frontend/src/store/server.ts reach, and what holds in
-- all of them.
use security_scan.Prelude.{
  Bool, true, false, not, Option, none, some, List, [], ◌≡◌, refl, sym, ◌∙◌, subst, ◌⊎◌, inl, inr,
  ◌==◌, is_empty, if◌then◌else◌, Text, text_eq, arith, Bool-cases,
}
use security_scan.Session.{
  Json, UserInfo, ServerResponse, Session, page, reload, bearer, set_token, set_userid,
  set_token_if, set_userid_if, set_loading, set_startup_settings, set_server, parsed,
  StartupSettings, or_else, get, logout, fetch_all_users, user_answered, get_user_info,
  handle_login, login, update_user_info, restore, server_answered, check_for_server,
}

module _ (json : Json) where
  -- An action, with what the server answers to it; a reload of the page; or the return from the page
  -- of a provider, with new cookies.
  pub data Step (s t : Session) : Type 0 where
    checked :
        (answer : Option ServerResponse) (user : Option UserInfo) (users : Option (List UserInfo))
        → t ≡ check_for_server json answer user users s
        → Step s t
    logged_in :
        (answer : Option (Text × Text)) (user : Option UserInfo) (users : Option (List UserInfo))
        → t ≡ login json answer user users s
        → Step s t
    updated : (answer : Option UserInfo) → t ≡ update_user_info json answer s → Step s t
    logged_out : t ≡ logout json s → Step s t
    reloaded : t ≡ reload s → Step s t
    returned : (c d : Option Text) → t ≡ page s.token_item s.user_item c d → Step s t

  pub data Reachable : Session → Type 0 where
    opened : {s : Session} (a b c d : Option Text) → s ≡ page a b c d → Reachable s
    after : {s t : Session} → Reachable s → Step s t → Reachable t

  -- The header of the requests is that of the token, which is kept in the storage unless it was cleared; in
  -- server mode the loading is over and the cookies are gone.
  pub record Consistent (s : Session) : Type 0 where
    pub held :
        ((s.authorization ≡ none) × (s.token ≡ []))
        ⊎ ((s.authorization ≡ some (bearer s.token))
            × ((s.token_item ≡ none) ⊎ (s.token_item ≡ some (json.stringify s.token))))
    pub booted :
        s.server_mode ≡ true
        → (s.loading ≡ false) × (s.token_cookie ≡ none) × (s.user_cookie ≡ none)

  page-Consistent : (a b c d : Option Text) → Consistent (page a b c d)
  page-Consistent a b c d = record {
    held = inl (refl, refl);
    booted = λ h. absurd (ground (arith, h));
  }

  logout-Consistent : (s : Session) → Consistent s → Consistent (logout json s)
  unfolding logout
  logout-Consistent s c = record {
    held = elim c.held [ inl h ↦ inl h | inr h ↦ inr (h.0, inl refl) ];
    booted = c.booted;
  }

  user_answered-Consistent :
      (user : Option UserInfo) (s : Session) → Consistent s → Consistent (user_answered json user s)
  user_answered-Consistent none s c = logout-Consistent s c
  user_answered-Consistent (some info) s c = record { held = c.held; booted = c.booted }

  fetch_all_users-Consistent :
      (users : Option (List UserInfo)) (s : Session)
      → Consistent s
      → Consistent (fetch_all_users json users s)
  fetch_all_users-Consistent none s c = c
  fetch_all_users-Consistent (some us) s c = record { held = c.held; booted = c.booted }

  get_user_info-Consistent :
      (user : Option UserInfo) (users : Option (List UserInfo)) (s : Session)
      → Consistent s
      → Consistent (get_user_info json user users s)
  unfolding get_user_info
  get_user_info-Consistent user users s c = elim (Bool-cases (is_empty s.user_info.id)) [
    | inl e ↦ rw (e, get_user_info) c
    | inr e ↦
        rw (e, get_user_info)
          (fetch_all_users-Consistent users (user_answered json user s)
            (user_answered-Consistent user s c))
  ]

  set_token-Consistent : (t : Text) (s : Session) → Consistent s → Consistent (set_token json t s)
  set_token-Consistent t s c = record { held = inr (refl, inr refl); booted = c.booted }

  set_userid-Consistent : (t : Text) (s : Session) → Consistent s → Consistent (set_userid json t s)
  set_userid-Consistent t s c = record { held = c.held; booted = c.booted }

  login-Consistent :
      (answer : Option (Text × Text)) (user : Option UserInfo) (users : Option (List UserInfo))
      (s : Session)
      → Consistent s
      → Consistent (login json answer user users s)
  unfolding login handle_login
  login-Consistent none user users s c = c
  login-Consistent (some (i, t)) user users s c =
      get_user_info-Consistent user users (set_token json t (set_userid json i s))
        (set_token-Consistent t (set_userid json i s) (set_userid-Consistent i s c))

  update_user_info-Consistent :
      (answer : Option UserInfo) (s : Session)
      → Consistent s
      → Consistent (update_user_info json answer s)
  unfolding update_user_info
  update_user_info-Consistent none s c = c
  update_user_info-Consistent (some info) s c = elim (Bool-cases (text_eq s.user_info.id info.id)) [
    | inl e ↦ rw (e, update_user_info) (record { held = c.held; booted = c.booted })
    | inr e ↦ rw (e, update_user_info) c
  ]

  -- The end of the loading can be set before the token and the user id,
  loaded_ids :
      (x y : Option Text) (s : Session)
      → set_loading json false (set_userid_if json y (set_token_if json x s))
        ≡ set_userid_if json y (set_token_if json x (set_loading json false s))
  loaded_ids none none s = refl
  loaded_ids none (some i) s = refl
  loaded_ids (some t) none s = refl
  loaded_ids (some t) (some i) s = refl

  -- and before the user is asked for.
  loaded_answers :
      (user : Option UserInfo) (users : Option (List UserInfo)) (s : Session)
      → set_loading json false (fetch_all_users json users (user_answered json user s))
        ≡ fetch_all_users json users (user_answered json user (set_loading json false s))
  unfolding logout
  loaded_answers none none s = refl
  loaded_answers none (some us) s = refl
  loaded_answers (some info) none s = refl
  loaded_answers (some info) (some us) s = refl

  loaded_user :
      (user : Option UserInfo) (users : Option (List UserInfo)) (s : Session)
      → set_loading json false (get_user_info json user users s)
        ≡ get_user_info json user users (set_loading json false s)
  unfolding get_user_info
  loaded_user user users s = elim (Bool-cases (is_empty s.user_info.id)) [
    | inl e ↦ rw (e, get_user_info) refl
    | inr e ↦ rw (e, get_user_info) (loaded_answers user users s)
  ]

  ids-Consistent :
      (x y : Option Text) (s : Session)
      → Consistent s
      → Consistent (set_userid_if json y (set_token_if json x s))
  ids-Consistent none none s c = c
  ids-Consistent none (some i) s c = set_userid-Consistent i s c
  ids-Consistent (some t) none s c = set_token-Consistent t s c
  ids-Consistent (some t) (some i) s c =
      set_userid-Consistent i (set_token json t s) (set_token-Consistent t s c)

  -- A read leaves the item or clears it.
  get_left : (i : Option Text) → ((get json i).1 ≡ none) ⊎ ((get json i).1 ≡ i)
  unfolding get
  get_left none = inl refl
  get_left (some s) = elim (Bool-cases (is_empty s)) [
    | inl e ↦ rw (e, get) (inr refl)
    | inr e ↦ rw (e, get) (of_parse (json.parse s))
  ]
    where
      of_parse :
          {s : Text} (p : Option (Option Text))
          → ((parsed json s p).1 ≡ none) ⊎ ((parsed json s p).1 ≡ some s)
      of_parse none = inl refl
      of_parse (some v) = inr refl

  -- The session whose token and user id are read.
  abbrev read_from : StartupSettings → Session → Session
  read_from settings s = record s {
    server_mode = true;
    loading = false;
    settings = settings;
    token_item = (get json s.token_item).1;
    user_item = (get json s.user_item).1;
    token_cookie = none;
    user_cookie = none;
  }

  read_from-Consistent :
      (settings : StartupSettings) (s : Session) → Consistent s → Consistent (read_from settings s)
  read_from-Consistent settings s c = record {
    held = elim c.held [ inl h ↦ inl h | inr h ↦ inr (h.0, kept_item (get_left s.token_item) h.1) ];
    booted = λ h. (refl, refl, refl);
  }
    where
      kept_item :
          {i j : Option Text} {t : Text}
          → (j ≡ none) ⊎ (j ≡ i)
          → (i ≡ none) ⊎ (i ≡ some t)
          → (j ≡ none) ⊎ (j ≡ some t)
      kept_item (inl e) h = inl e
      kept_item (inr e) (inl h) = inl (e ∙ h)
      kept_item (inr e) (inr h) = inr (e ∙ h)

  restored-Consistent :
      (settings : StartupSettings) (s : Session)
      → Consistent s
      → Consistent (
          set_loading json false
            (restore json (set_startup_settings json settings (set_server json s))))
  unfolding restore
  restored-Consistent settings s c =
      subst Consistent
        (sym (
          loaded_ids (or_else (get json s.token_item).0 s.token_cookie)
            (or_else (get json s.user_item).0 s.user_cookie) _))
        (ids-Consistent (or_else (get json s.token_item).0 s.token_cookie)
          (or_else (get json s.user_item).0 s.user_cookie) (read_from settings s)
          (read_from-Consistent settings s c))

  -- Without an answer of the server nothing but the end of the loading changes.
  unanswered-Consistent : (s : Session) → Consistent s → Consistent (set_loading json false s)
  unanswered-Consistent s c = record {
    held = c.held;
    booted = λ h. (refl, (c.booted h).1, (c.booted h).2);
  }

  server_answered-Consistent :
      (answer : Option ServerResponse) (user : Option UserInfo) (users : Option (List UserInfo))
      (s : Session)
      → Consistent s
      → Consistent (set_loading json false (server_answered json answer user users s))
  server_answered-Consistent none user users s c = unanswered-Consistent s c
  server_answered-Consistent (some a) user users s c = elim (Bool-cases (a.status == 200)) [
    | inl e ↦ rw e (
        subst Consistent
          (sym (
            loaded_user user users
              (restore json (set_startup_settings json a.settings (set_server json s)))))
          (get_user_info-Consistent user users
            (set_loading json false
              (restore json (set_startup_settings json a.settings (set_server json s))))
            (restored-Consistent a.settings s c)))
    | inr e ↦ rw e (unanswered-Consistent s c)
  ]

  loading_case :
      (loading : Bool) (s t : Session)
      → Consistent s
      → Consistent t
      → Consistent (if not loading then s else t)
  loading_case true s t c d = d
  loading_case false s t c d = c

  check_for_server-Consistent :
      (answer : Option ServerResponse) (user : Option UserInfo) (users : Option (List UserInfo))
      (s : Session)
      → Consistent s
      → Consistent (check_for_server json answer user users s)
  unfolding check_for_server
  check_for_server-Consistent answer user users s c =
      loading_case s.loading s (set_loading json false (server_answered json answer user users s)) c
        (server_answered-Consistent answer user users s c)

  step-Consistent : {s t : Session} → Step s t → Consistent s → Consistent t
  step-Consistent {s} (checked a u us e) c =
      subst Consistent (sym e) (check_for_server-Consistent a u us s c)
  step-Consistent {s} (logged_in a u us e) c =
      subst Consistent (sym e) (login-Consistent a u us s c)
  step-Consistent {s} (updated a e) c = subst Consistent (sym e) (update_user_info-Consistent a s c)
  step-Consistent {s} (logged_out e) c = subst Consistent (sym e) (logout-Consistent s c)
  step-Consistent {s} (reloaded e) c =
      subst Consistent (sym e)
        (page-Consistent s.token_item s.user_item s.token_cookie s.user_cookie)
  step-Consistent {s} (returned x y e) c =
      subst Consistent (sym e) (page-Consistent s.token_item s.user_item x y)

  -- In every session that the actions reach, either the requests have no authorization header and
  -- there is no token, or the header is that of the token, which the storage holds unless that was
  -- cleared; in server mode the loading is over and the cookies are gone.
  pub Reachable-Consistent : {s : Session} → Reachable s → Consistent s
  Reachable-Consistent (opened x y z w e) = subst Consistent (sym e) (page-Consistent x y z w)
  Reachable-Consistent (after r step) = step-Consistent step (Reachable-Consistent r)
