-- ===== src/Model/VscodeSessions.antt =====
-- The sign-in sessions of the VSCode extension (model/vscode_auth_session.go): a map from ids to
-- sessions in memory. A deletion that the code starts in a goroutine is an entry of
-- `auth_cleanups` until it runs. Reading the clock gives `now`, and ids are drawn by the caller.
pub mod Expiry
use new_api_blues.Prelude.{
  ℕ, ℤ, pos, ◌+ℤ◌, String, str_eq, Bool, true, false, not, ◌&&◌, Option, none, some, List, [], ◌∷◌,
  ◌++◌, ◌==◌, if◌then◌else◌, ltb_ℤ, lookup, insert,
}
use new_api_blues.Model.Store.{
  M, World, Token, AuthSession, Error, Result, ok, err, message, get, modify, return, throw,
  attempt, statement, ◌>>=◌, ◌>>◌,
}
use new_api_blues.Model.Tokens.{token_update, find_token_of}

abbrev pub Sessions : Type 0
Sessions = List (String × AuthSession)

-- delete(m, key)
unfoldable pub delete : String → Sessions → Sessions
delete id [] = []
delete id ((key, s) ∷ m) = let rest = delete id m in if str_eq key id then rest else (key, s) ∷ rest

-- time.Now().Unix() > session.ExpiresAt
abbrev pub expired : ℤ → AuthSession → Bool
expired now s = ltb_ℤ s.expires_at now

unfoldable pub store_session : AuthSession → M (Unit {0})
store_session s =
    if str_eq s.id ""
    then throw (message "invalid session or session ID")
    else modify (λ w. record w { auth_sessions = insert s.id s w.auth_sessions })

unfoldable pub found_session : String → Option AuthSession → M AuthSession
found_session id none = throw (message "session not found")
found_session id (some s) = do
  w ← get
  if expired w.now s
      then (do
        modify (λ v. record v { auth_cleanups = v.auth_cleanups ++ id ∷ [] })
        throw (message "session expired"))
      else return s

unfoldable pub get_session : String → M AuthSession
get_session id =
    if str_eq id ""
    then throw (message "session ID is empty")
    else (do w ← get; found_session id (lookup id w.auth_sessions))

unfoldable pub delete_session : String → M (Unit {0})
delete_session id =
    if str_eq id ""
    then throw (message "session ID is empty")
    else modify (λ w. record w { auth_sessions = delete id w.auth_sessions })

-- The ids whose session is over, and their deletion.
unfoldable pub expired_ids : ℤ → Sessions → List String
expired_ids now [] = []
expired_ids now ((key, s) ∷ m) =
    let rest = expired_ids now m in if expired now s then key ∷ rest else rest

unfoldable pub delete_all : List String → Sessions → Sessions
delete_all [] m = m
delete_all (id ∷ ids) m = delete_all ids (delete id m)

unfoldable pub cleanup_expired : World → World
cleanup_expired w = record w {
  auth_sessions = delete_all (expired_ids w.now w.auth_sessions) w.auth_sessions;
}

-- A value of the map of updates.
pub data Value : Type 0 where
  text : String → Value
  number : ℕ → Value

-- One key and value; a value of another type, and another key, change nothing.
unfoldable pub set_text : String → String → AuthSession → AuthSession
set_text key value s =
    if str_eq key "status"
    then record s { status = value }
    else if str_eq key "api_token"
    then record s { api_token = value }
    else if str_eq key "token_name"
    then record s { token_name = value }
    else if str_eq key "username"
    then record s { username = value }
    else if str_eq key "display_name"
    then record s { display_name = value }
    else if str_eq key "provider"
    then record s { provider = value }
    else if str_eq key "provider_url"
    then record s { provider_url = value }
    else if str_eq key "external_token"
    then record s { external_token = value }
    else if str_eq key "external_user"
    then record s { external_user = value }
    else s

unfoldable pub apply_update : String × Value → AuthSession → AuthSession
apply_update (key, text value) s = set_text key value s
apply_update (key, number value) s =
    if str_eq key "user_id" then record s { user_id = value } else s

unfoldable pub apply_updates : List (String × Value) → AuthSession → AuthSession
apply_updates [] s = s
apply_updates (u ∷ us) s = apply_updates us (apply_update u s)

unfoldable pub update_found : String → List (String × Value) → Option AuthSession → M (Unit {0})
update_found id changes none = throw (message "session not found")
update_found id changes (some s) = do
  w ← get
  if expired w.now s
      then (do
        modify (λ v. record v { auth_sessions = delete id v.auth_sessions })
        throw (message "session expired"))
      else modify
          (λ v. record v { auth_sessions = insert id (apply_updates changes s) v.auth_sessions })

unfoldable pub update_session : String → List (String × Value) → M (Unit {0})
update_session id changes =
    if str_eq id ""
    then throw (message "session ID is empty")
    else (do w ← get; update_found id changes (lookup id w.auth_sessions))

-- A session that waits for a user to sign in, for ten minutes.
unfoldable pub pending_session :
    (id client_name version provider provider_url : String) → ℤ → AuthSession
pending_session id client_name version provider provider_url now = record {
  id = id;
  status = "pending";
  api_token = "";
  token_name = "";
  user_id = 0;
  username = "";
  display_name = "";
  client_name = if str_eq client_name "" then "VSCode Extension" else client_name;
  version = if str_eq version "" then "1.0.0" else version;
  created_time = now;
  expires_at = now +ℤ pos 600;
  provider = provider;
  provider_url = provider_url;
  external_token = "";
  external_user = "";
}

unfoldable pub create_external_provider_session :
    (drawn client_name version provider provider_url : String) → M AuthSession
create_external_provider_session drawn client_name version provider provider_url =
    if str_eq provider "" then throw (message "provider is required") else (do
      w ← get
      let s = pending_session drawn client_name version provider provider_url w.now
      stored ← attempt (store_session s)
      elim stored [ err e ↦ throw (message "failed to store session") | ok _ ↦ return s ])

unfoldable pub rename_token : String → Token → M Token
rename_token token_name t = if str_eq t.name token_name then return t else (do
  attempt (token_update (record t { name = token_name }))
  return (record t { name = token_name }))

unfoldable pub any_token : ℕ → M Token
any_token user_id = do
  found ← attempt statement
  w ← get
  elim found [
    | err e ↦ throw (message "no API tokens found for user - this should not happen")
    | ok _ ↦ elim (find_token_of (λ t. t.user_id == user_id) w.tokens) [
      | none ↦ throw (message "no API tokens found for user - this should not happen")
      | some t ↦ return t
    ]
  ]

unfoldable pub get_or_create_user_default_token : ℕ → String → M Token
get_or_create_user_default_token user_id token_name =
    if user_id == 0 then throw (message "user ID is empty") else (do
      statement
      w ← get
      elim (find_token_of (λ t. t.user_id == user_id && str_eq t.name "default") w.tokens) [
        | none ↦ any_token user_id
        | some t ↦ rename_token token_name t
      ])
