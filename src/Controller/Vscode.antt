-- ===== src/Controller/Vscode.antt =====
-- The sign-in of the VSCode extension (controller/vscode_auth.go, and completeVSCodeAuth of
-- controller/user.go) and its variant for a Coder deployment (controller/coder_auth.go). The URLs
-- and codes of the answers are left out. The body of a request can be read once: the second
-- ShouldBindJSON, which InitVSCodeAuth makes through InitCoderAuth, fails.
pub mod SignIn
pub mod History
pub mod Rehash
pub mod Accounts
pub mod Quiet
pub mod Callback
use new_api_blues.Prelude.{
  ℕ, zero, suc, pos, String, str_eq, not, ◌&&◌, ◌||◌, true, false, Option, none, some, List, [],
  ◌∷◌, if◌then◌else◌,
}
use new_api_blues.Model.Store.{
  M, World, User, Token, AuthSession, Error, Result, ok, err, message, get, modify, return, throw,
  attempt, ◌>>=◌, ◌>>◌,
}
use new_api_blues.Model.Quota.{Config}
use new_api_blues.Model.Accounts.{
  Bonus, Drawn, no_user, first_user_by, user_update, insert_user, role_common_user,
  user_status_enabled,
}
use new_api_blues.Model.VscodeSessions.{
  Value, text, number, expired, pending_session, store_session, get_session, delete_session,
  update_session, create_external_provider_session, get_or_create_user_default_token,
}

pub data Answer : Type 0 where
  refused : String → Answer
  started : AuthSession → Answer
  waiting : Answer
  signed_in : AuthSession → Answer  -- the token and the user of the session
  redirected : Answer

-- The end of a handler: every error is answered.
abbrev pub answer_of : Result Answer × World → Answer × World
answer_of (ok a, w) = (a, w)
answer_of (err (message s), w) = (refused s, w)
answer_of (err e, w) = (refused "database error", w)

abbrev pub answering : M Answer → World → Answer × World
answering m w = answer_of (m w)

-- An error is replaced by the text of an answer.
abbrev pub otherwise : {A : Type 0} → String → Result A → M A
otherwise s (ok a) = return a
otherwise s (err e) = throw (message s)

pub record AuthInitRequest : Type 0 where
  pub client_name : String
  pub version : String
  pub provider : String
  pub coder_url : String

unfoldable pub init_coder_auth : String → Option AuthInitRequest → World → Answer × World
init_coder_auth drawn none w = (refused "Invalid request parameters", w)
init_coder_auth drawn (some req) w =
    let provider = if str_eq req.provider "" then "github" else req.provider in
    if str_eq req.coder_url ""
    then (refused "Coder URL is required", w)
    else if not (str_eq provider "github") && not (str_eq provider "oidc")
    then (refused "Provider must be either 'github' or 'oidc'", w)
    else answering
        (do
          created ← attempt (
              create_external_provider_session drawn req.client_name req.version "coder"
                req.coder_url)
          s ← otherwise "Failed to create authentication session" created
          return (started s))
        w

unfoldable pub init_vscode_auth : String → Option AuthInitRequest → World → Answer × World
init_vscode_auth drawn none w = (refused "Invalid request parameters", w)
init_vscode_auth drawn (some req) w =
    let provider = if str_eq req.provider "" then "local" else req.provider in
    if str_eq provider "coder"
    then (if str_eq req.coder_url ""
        then (refused "Coder URL is required for Coder provider", w)
        else init_coder_auth drawn none w)
    else if not (str_eq provider "local")
    then (refused "Unsupported provider", w)
    else answering
        (do
          v ← get
          let s = pending_session drawn req.client_name req.version "local" "" v.now
          stored ← attempt (store_session s)
          otherwise "Failed to create authentication session" stored
          return (started s))
        w

-- The answer to a poll for a session that was found. A session that is handed out is deleted by a
-- goroutine.
unfoldable pub session_status : String → AuthSession → M Answer
session_status id s = do
  w ← get
  if expired w.now s
      then (do attempt (delete_session id); throw (message "Authentication session expired"))
      else if str_eq s.status "pending"
      then return waiting
      else if str_eq s.status "completed"
      then (do
        modify (λ v. record v { auth_cleanups = id ∷ v.auth_cleanups })
        return (signed_in s))
      else throw (message "Unknown session status")

unfoldable pub get_vscode_auth_status : String → World → Answer × World
get_vscode_auth_status id w =
    if str_eq id ""
    then (refused "Session ID is required", w)
    else answering
        (do
          found ← attempt (get_session id)
          s ← otherwise "Invalid or expired session" found
          session_status id s)
        w

-- A user who has logged in completes a session; the session's state before is not looked at.
unfoldable pub complete_vscode_auth : User → String → M (Unit {0})
complete_vscode_auth u id = do
  s ← get_session id
  token ← get_or_create_user_default_token u.id "VSCode Integration"
  store_session (record s {
    status = "completed";
    api_token = token.key;
    token_name = token.name;
    user_id = u.id;
    username = u.username;
    display_name = u.display_name;
  })

-- One of the goroutines that wait to delete a session, and the others.
unfoldable pub pick : ℕ → List String → Option (String × List String)
pick n [] = none
pick zero (id ∷ ids) = some (id, ids)
pick (suc n) (id ∷ ids) = elim (pick n ids) [ none ↦ none | some (x, xs) ↦ some (x, id ∷ xs) ]

unfoldable pub run_picked : Option (String × List String) → World → World
run_picked none w = w
run_picked (some (id, ids)) w = (delete_session id (record w { auth_cleanups = ids })).1

-- The n-th of them runs.
unfoldable pub run_cleanup : ℕ → World → World
run_cleanup n w = run_picked (pick n w.auth_cleanups) w

-- What a Coder deployment says of a user.
pub record CoderUser : Type 0 where
  pub id : String
  pub username : String
  pub email : String
  pub name : String

abbrev pub coder_user : CoderUser
coder_user = record {
  id = "coder_user_123";
  username = "coder_user";
  email = "user@coder.example.com";
  name = "Coder User";
}

abbrev pub renamed : CoderUser → User → User
renamed c u =
    if not (str_eq u.display_name c.name) && not (str_eq c.name "")
    then record u { display_name = c.name }
    else u

abbrev pub readdressed : CoderUser → User → User
readdressed c u =
    if not (str_eq u.email c.email) && not (str_eq c.email "")
    then record u { email = c.email }
    else u

module _ (hash : String → Result String) (config : Config) (bonus : Bonus) (drawn : Drawn) where
  -- `oauth_password` is the text "oauth2_user_" and the id.
  unfoldable pub create_coder_user : String → CoderUser → M User
  create_coder_user oauth_password c = do
    password ← (λ w. (hash oauth_password, w))
    insert_user hash config bonus drawn
        (record no_user {
          username = c.username;
          email = c.email;
          display_name = if str_eq c.name "" then c.username else c.name;
          role = role_common_user;
          status = user_status_enabled;
          quota = pos 500000;
          password = password;
        })
        0

  unfoldable pub find_or_create_coder_user : String → CoderUser → M User
  find_or_create_coder_user oauth_password c = do
    by_email ← attempt (first_user_by (λ u. u.email) c.email)
    elim by_email [
      | ok u ↦
          if not (str_eq u.display_name c.name) && not (str_eq c.name "")
          then (do attempt (user_update hash true (renamed c u)); return (renamed c u))
          else return u
      | err _ ↦ (do
        by_name ← attempt (first_user_by (λ u. u.username) c.username)
        elim by_name [
          | ok u ↦ (do
            attempt (user_update hash true (renamed c (readdressed c u)))
            return (renamed c (readdressed c u)))
          | err _ ↦ create_coder_user oauth_password c
        ])
    ]

  -- `external_user` is the text of the user in JSON.
  unfoldable pub coder_auth_callback :
      (oauth_password external_user : String) → String → World → Answer × World
  coder_auth_callback oauth_password external_user id w =
      if str_eq id ""
      then (refused "Session ID is required", w)
      else answering
          (do
            found ← attempt (get_session id)
            s ← otherwise "Invalid or expired session" found
            if not (str_eq s.provider "coder")
                then throw (message "Invalid provider for this callback")
                else (do
                  made ← attempt (find_or_create_coder_user oauth_password coder_user)
                  u ← otherwise "Failed to authenticate user" made
                  given ← attempt (get_or_create_user_default_token u.id "Coder Integration")
                  token ← otherwise "Failed to create API token" given
                  updated ← attempt (
                      update_session id (
                        ("status", text "completed")
                        ∷ ("api_token", text token.key)
                        ∷ ("token_name", text token.name)
                        ∷ ("user_id", number u.id)
                        ∷ ("username", text u.username)
                        ∷ ("display_name", text u.display_name)
                        ∷ ("external_user", text external_user)
                        ∷ []))
                  otherwise "Failed to complete authentication" updated
                  return redirected))
          w
