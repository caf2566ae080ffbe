-- ===== src/Model/Access.antt =====
-- Which keys and users are let in: ValidateUserToken (model/token.go), CacheGetTokenByKey
-- (model/cache.go), IsAdmin and IsUserEnabled (model/user.go). What Redis holds under token:<key>
-- is the argument `redis_token`, and the write-back to it is left out.
pub mod Usable
use new_api_blues.Prelude.{
  ℕ, ℤ, pos, negsuc, String, str_eq, Bool, true, false, not, ◌&&◌, Option, none, some, List, [],
  ◌∷◌, ◌==◌, if◌then◌else◌, ltb_ℤ, leb_ℤ, eqb_ℤ, leb,
}
use new_api_blues.Model.Store.{
  M, World, Token, User, Error, Result, ok, err, message, record_not_found, get, return, throw,
  attempt, statement, write_token, user_row, ◌>>=◌, ◌>>◌,
}
use new_api_blues.Model.Quota.{Config}
use new_api_blues.Model.Accounts.{role_admin_user, user_status_enabled}

abbrev pub token_status_enabled : ℕ
token_status_enabled = 1

abbrev pub token_status_expired : ℕ
token_status_expired = 3

abbrev pub token_status_exhausted : ℕ
token_status_exhausted = 4

-- SELECT … WHERE key = ? LIMIT 1
unfoldable pub find_token : String → List Token → Option Token
find_token key [] = none
find_token key (t ∷ ts) = if str_eq t.key key then some t else find_token key ts

-- Role and status of a user without a row are 0, as `Find` leaves them.
abbrev pub role_or_zero : Option User → ℕ
role_or_zero none = 0
role_or_zero (some u) = u.role

abbrev pub status_or_zero : Option User → ℕ
status_or_zero none = 0
status_or_zero (some u) = u.status

unfoldable pub is_admin : ℕ → M Bool
is_admin user_id = if user_id == 0 then return false else (do
  found ← attempt statement
  w ← get
  elim found [
    | err e ↦ return false
    | ok _ ↦ return (leb role_admin_user (role_or_zero (user_row w user_id)))
  ])

unfoldable pub is_user_enabled : ℕ → M Bool
is_user_enabled user_id = if user_id == 0 then throw (message "user id is empty") else (do
  statement
  w ← get
  return (status_or_zero (user_row w user_id) == user_status_enabled))

module _ (config : Config) (redis_token : String → Option Token) where
  unfoldable pub get_token_by_key : String → M Token
  get_token_by_key key = do
    statement
    w ← get
    elim (find_token key w.tokens) [ none ↦ throw record_not_found | some t ↦ return t ]

  unfoldable pub cache_get_token_by_key : String → M Token
  cache_get_token_by_key key =
      if config.redis_enabled
      then elim (redis_token key) [ none ↦ get_token_by_key key | some t ↦ return t ]
      else get_token_by_key key

  -- SelectUpdate after the status was set; its error is logged.
  unfoldable pub set_token_status : ℕ → ℕ → M (Unit {0})
  set_token_status id status =
      if config.redis_enabled
      then return tt
      else (do attempt (write_token id (λ t. record t { status = status })); return tt)

  unfoldable pub validate_found : Token → M Token
  validate_found token = do
    w ← get
    if token.status == token_status_exhausted
        then throw (message "quota exhausted")
        else if token.status == token_status_expired
        then throw (message "Token has expired")
        else if not (token.status == token_status_enabled)
        then throw (message "Token status unavailable")
        else if not (eqb_ℤ token.expired_time (negsuc 0)) && ltb_ℤ token.expired_time w.now
        then (do
          set_token_status token.id token_status_expired
          throw (message "Token has expired"))
        else if not token.unlimited_quota && leb_ℤ token.remain_quota (pos 0)
        then (do
          set_token_status token.id token_status_exhausted
          throw (message "Token quota exhausted"))
        else return token

  unfoldable pub validate_user_token : String → M Token
  validate_user_token key = if str_eq key "" then throw (message "Token not provided") else (do
    found ← attempt (cache_get_token_by_key key)
    elim found [
      | err record_not_found ↦ throw (message "Invalid token")
      | err _ ↦ throw (message "Token validation failed")
      | ok token ↦ validate_found token
    ])
