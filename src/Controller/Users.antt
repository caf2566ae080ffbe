-- ===== src/Controller/Users.antt =====
-- The handlers of controller/user.go that read and write the rows of users. A handler gets the
-- decoded request (`none` where the body cannot be decoded) and the id and role that the session
-- of the caller holds; it answers with a reply. The validator, password hashing and the values
-- drawn at random are arguments; logs and translations of texts are left out, as is the copy of
-- the root user's address in the options.
pub mod Commands
pub mod Managed
pub mod Rank
pub mod Own
use new_api_blues.Prelude.{
  ℕ, ℤ, String, str_eq, Bool, true, false, not, ◌&&◌, ◌||◌, Option, none, some, List, [], ◌∷◌, ◌==◌,
  if◌then◌else◌, ltb_ℤ, leb,
}
use new_api_blues.Model.Store.{
  M, World, User, Error, Result, ok, err, message, get, return, throw, attempt, statement, user_row,
  ◌>>=◌, ◌>>◌,
}
use new_api_blues.Model.Quota.{Config}
use new_api_blues.Model.Quota
use new_api_blues.Model.Accounts.{
  Bonus, Drawn, no_user, find_user_by, get_user_by_id, user_update, user_delete, delete_user_by_id,
  insert_user, fill_user_by_id, validate_and_fill, role_common_user, role_admin_user,
  role_root_user, user_status_enabled, user_status_disabled,
}

pub data Reply : Type 0 where
  failure : Error → Reply
  invalid : String → Reply  -- a failure with the translation of a key
  success : Reply
  user : User → Reply
  text : String → Reply
  amount : ℤ → Reply
  nothing : Reply  -- the handler returns and has written no body

-- The guards answer by `throw`: every error ends the handler with its text.
abbrev pub Handler : Type 0
Handler = World → Reply × World

abbrev pub reply_of : Result Reply × World → Reply × World
reply_of (ok r, w) = (r, w)
reply_of (err e, w) = (failure e, w)

abbrev pub handler : M Reply → Handler
handler m w = reply_of (m w)

-- c.JSON with a refusal, and return.
abbrev pub refuse : String → M Reply
refuse s = throw (message s)

-- Whom the session names.
pub record Actor : Type 0 where
  pub id : ℕ
  pub role : ℕ

-- myRole <= role && myRole != RoleRootUser
abbrev pub outranked : Actor → ℕ → Bool
outranked actor role = leb actor.role role && not (actor.role == role_root_user)

abbrev placeholder : String
placeholder = "$I_LOVE_U"

unfoldable pub with_placeholder : User → User
with_placeholder u = if str_eq u.password "" then record u { password = placeholder } else u

unfoldable pub without_placeholder : User → User
without_placeholder u = if str_eq u.password placeholder then record u { password = "" } else u

pub record ManageRequest : Type 0 where
  pub username : String
  pub action : String

-- DB.Where(&user).First(&user) with a username only: an empty one is no condition.
unfoldable pub first_user : String → List User → Option User
first_user username [] = none
first_user username (x ∷ xs) =
    if str_eq username "" then some x else find_user_by (λ u. u.username) username (x ∷ xs)

-- The user of a read whose error is dropped.
abbrev pub user_of : Result User → User
user_of (err e) = no_user
user_of (ok u) = u

-- Whether the query for a user by its access token and its id finds one.
abbrev pub has_access_token : String → Result (Unit {0}) → Option User → Bool
has_access_token uuid (err e) found = false
has_access_token uuid (ok _) none = false
has_access_token uuid (ok _) (some x) = str_eq x.access_token uuid

unfoldable pub get_user : Actor → Option ℕ → Handler
get_user actor none w = (failure (message "invalid syntax"), w)
get_user actor (some id) w =
    handler
      (do
        u ← get_user_by_id id false
        if outranked actor u.role
            then refuse
                "No permission to access information of users with same or higher privilege level"
            else return (user u))
      w

module _ (valid : User → Bool) (hash : String → Result String) where
  unfoldable pub update_user : Actor → Option User → Handler
  update_user actor none w = (invalid "invalid_parameter", w)
  update_user actor (some body) w =
      let updated = with_placeholder body in
      if body.id == 0
      then (invalid "invalid_parameter", w)
      else if not (valid updated)
      then (invalid "invalid_input", w)
      else handler
          (do
            origin ← get_user_by_id updated.id false
            if outranked actor origin.role
                then refuse
                    "No permission to update user information of same or higher privilege level"
                else if outranked actor updated.role
                then refuse
                    "No permission to elevate other users' privilege level to equal or higher than your own"
                else (do
                  let u = without_placeholder updated
                  user_update hash (not (str_eq u.password "")) u
                  return success))
          w

  unfoldable pub update_self : Actor → Option User → Handler
  update_self actor none w = (invalid "invalid_parameter", w)
  update_self actor (some body) w =
      let updated = with_placeholder body in
      if not (valid updated)
      then (invalid "invalid_input", w)
      else handler
          (do
            let u = without_placeholder updated
            user_update hash (not (str_eq u.password "")) (record no_user {
              id = actor.id;
              username = u.username;
              password = u.password;
              display_name = u.display_name;
            })
            return success)
          w

  unfoldable pub create_user : Config → Bonus → Drawn → Actor → Option User → Handler
  create_user config bonus drawn actor none w = (invalid "invalid_parameter", w)
  create_user config bonus drawn actor (some body) w =
      if str_eq body.username "" || str_eq body.password ""
      then (invalid "invalid_parameter", w)
      else if not (valid body)
      then (invalid "invalid_input", w)
      else handler
          (if leb actor.role body.role
            then refuse "Cannot create users with privilege level greater than or equal to your own"
            else (do
              insert_user hash config bonus drawn
                  (record no_user {
                    username = body.username;
                    password = body.password;
                    display_name =
                        if str_eq body.display_name "" then body.username else body.display_name;
                  })
                  0
              return success))
          w

module _ (hash : String → Result String) where
  -- Only a failed deletion is answered, and as a success.
  unfoldable pub delete_user : String → Actor → Option ℕ → Handler
  delete_user uuid actor none w = (failure (message "invalid syntax"), w)
  delete_user uuid actor (some id) w =
      handler
        (do
          origin ← get_user_by_id id false
          if leb actor.role origin.role
              then refuse "No permission to delete users with same or higher permission level"
              else (do
                deleted ← attempt (delete_user_by_id hash uuid id)
                elim deleted [ err e ↦ return success | ok _ ↦ return nothing ]))
        w

  unfoldable pub delete_self : String → Actor → Handler
  delete_self uuid actor w =
      handler
        (do
          found ← attempt (get_user_by_id actor.id false)
          let u = user_of found
          if u.role == role_root_user
              then refuse "Cannot delete super administrator account"
              else (do delete_user_by_id hash uuid actor.id; return success))
        w

  -- The switch on the action: the user as it is to be written.
  unfoldable pub manage_action : String → Actor → String → User → M User
  manage_action uuid actor action u =
      if str_eq action "disable"
      then (if u.role == role_root_user
          then throw (message "Cannot disable super administrator user")
          else return (record u { status = user_status_disabled }))
      else if str_eq action "enable"
      then return (record u { status = user_status_enabled })
      else if str_eq action "delete"
      then (if u.role == role_root_user
          then throw (message "Cannot delete super administrator user")
          else user_delete hash uuid u)
      else if str_eq action "promote"
      then (if not (actor.role == role_root_user)
          then throw (message "Regular admin users cannot promote other users to administrator")
          else if leb role_admin_user u.role
          then throw (message "This user is already an administrator")
          else return (record u { role = role_admin_user }))
      else if str_eq action "demote"
      then (if u.role == role_root_user
          then throw (message "Cannot demote super administrator user")
          else if u.role == role_common_user
          then throw (message "This user is already a regular user")
          else return (record u { role = role_common_user }))
      else return u

  unfoldable pub manage_found : String → Actor → String → Option User → M Reply
  manage_found uuid actor action none = refuse "User does not exist"
  manage_found uuid actor action (some u) =
      if outranked actor u.role
      then refuse "No permission to update user information of same or higher privilege level"
      else (do
        changed ← manage_action uuid actor action u
        user_update hash false changed
        return (user (record no_user { role = changed.role; status = changed.status })))

  unfoldable pub manage_user : String → Actor → Option ManageRequest → Handler
  manage_user uuid actor none w = (invalid "invalid_parameter", w)
  manage_user uuid actor (some req) w =
      handler
        (do
          found ← attempt statement
          v ← get
          manage_found uuid actor req.action
              (elim found [ err e ↦ none | ok _ ↦ first_user req.username v.users ]))
        w

  -- The look-up for a duplicate also asks for the user's own id.
  unfoldable pub generate_access_token : String → Actor → Handler
  generate_access_token uuid actor w =
      handler
        (do
          u ← get_user_by_id actor.id true
          found ← attempt statement
          v ← get
          if has_access_token uuid found (user_row v u.id)
              then refuse "Please try again, the system-generated UUID is duplicated!"
              else (do
                user_update hash false (record u { access_token = uuid })
                return (text uuid)))
        w

  unfoldable pub get_aff_code : String → Actor → Handler
  get_aff_code drawn actor w =
      handler
        (do
          u ← get_user_by_id actor.id true
          if str_eq u.aff_code ""
              then (do user_update hash false (record u { aff_code = drawn }); return (text drawn))
              else return (text u.aff_code))
        w

  -- `code_ok` is what VerifyCodeWithKey says of the address and the code.
  unfoldable pub email_bind : Bool → String → Actor → Handler
  email_bind code_ok email actor w =
      if not code_ok
      then (failure (message "Verification code is incorrect or expired"), w)
      else handler
          (do
            u ← fill_user_by_id actor.id
            user_update hash false (record u { email = email })
            return success)
          w
