-- ===== src/Middleware/Session.antt =====
-- The gate of the web API, authHelper (middleware/auth.go), with ValidateAccessToken
-- (model/user.go). The values of the session's cookie are one record. The standard library's
-- strings.Replace, which takes the first "Bearer " out of a text, is the argument `bare`. UserAuth,
-- AdminAuth and RootAuth are the gate with the roles 1, 10 and 100.
pub mod Banned
use new_api_blues.Prelude.{
  ℕ, String, str_eq, not, ◌||◌, Option, none, some, ◌==◌, if◌then◌else◌, ltb,
}
use new_api_blues.Model.Store.{
  M, World, User, Result, ok, err, get, return, attempt, statement, ◌>>=◌, ◌>>◌,
}
use new_api_blues.Model.Accounts.{
  find_user_by, is_user_banned, user_status_disabled, role_common_user, role_admin_user,
  role_root_user,
}

pub record Session : Type 0 where
  pub username : String
  pub role : ℕ
  pub id : ℕ
  pub status : ℕ

pub data Verdict : Type 0 where
  no_credentials : Verdict
  invalid_token : Verdict
  banned : Verdict
  insufficient : Verdict
  next : (username : String) → (role id : ℕ) → Verdict

abbrev pub session_of : User → Session
session_of u = record { username = u.username; role = u.role; id = u.id; status = u.status }

-- The user whose row an access token is in.
unfoldable pub validate_access_token : (String → String) → String → M (Option User)
validate_access_token bare token = if str_eq token "" then return none else (do
  found ← attempt statement
  w ← get
  elim found [
    | err e ↦ return none
    | ok _ ↦ return (find_user_by (λ u. u.access_token) (bare token) w.users)
  ])

-- The checks of status and role; a banned user's session is cleared.
unfoldable pub check_session : ℕ → Session → Option Session → World → Verdict × Option Session
check_session min_role who kept w =
    if who.status == user_status_disabled || is_user_banned who.id w
    then (banned, none)
    else if ltb who.role min_role
    then (insufficient, kept)
    else (next who.username who.role who.id, kept)

unfoldable pub check_user : ℕ → Option User → World → Verdict × Option Session
check_user min_role none w = (invalid_token, none)
check_user min_role (some u) w =
    if str_eq u.username ""
    then (invalid_token, none)
    else check_session min_role (session_of u) none w

-- The verdict and the session that is left.
unfoldable pub auth_helper :
    (bare : String → String) (min_role : ℕ)
    → Option Session
    → (authorization : String) → M (Verdict × Option Session)
auth_helper bare min_role (some s) authorization = do
  w ← get
  return (check_session min_role s (some s) w)
auth_helper bare min_role none authorization =
    if str_eq authorization "" then return (no_credentials, none) else (do
      u ← validate_access_token bare authorization
      w ← get
      return (check_user min_role u w))

abbrev pub user_auth : (String → String) → Option Session → String → M (Verdict × Option Session)
user_auth bare = auth_helper bare role_common_user

abbrev pub admin_auth : (String → String) → Option Session → String → M (Verdict × Option Session)
admin_auth bare = auth_helper bare role_admin_user

abbrev pub root_auth : (String → String) → Option Session → String → M (Verdict × Option Session)
root_auth bare = auth_helper bare role_root_user
