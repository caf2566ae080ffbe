-- ===== src/Model/Accounts.antt =====
-- The rows of users (model/user.go): creation with its bonuses, updates, deletion, the password
-- check and the look-ups. gorm's `Updates` writes the fields of a struct that are not zero, its
-- `Create` puts the columns' defaults for zero fields, and the unique columns username,
-- access_token and aff_code refuse a value that another row has. Password hashing (bcrypt) and the
-- random values are arguments; the logs are left out.
pub mod Ids
pub mod Login
pub mod Rows
use new_api_blues.Prelude.{
  ℕ, suc, ℤ, pos, negsuc, String, str_eq, Bool, true, false, not, ◌&&◌, ◌||◌, Option, none, some,
  List, [], ◌∷◌, ◌++◌, ◌==◌, if◌then◌else◌, ltb_ℤ, eqb_ℤ, is_some,
}
use new_api_blues.Model.Store.{
  M, World, User, Token, Error, Result, ok, err, message, record_not_found, database, get, modify,
  return, throw, attempt, statement, user_row, user_id_of, find_row, update_rows, ◌>>=◌, ◌>>◌,
}
use new_api_blues.Model.Quota.{Config}
use new_api_blues.Model.Quota
use new_api_blues.Model.Tokens.{token_insert}

abbrev pub role_common_user : ℕ
role_common_user = 1

abbrev pub role_admin_user : ℕ
role_admin_user = 10

abbrev pub role_root_user : ℕ
role_root_user = 100

abbrev pub user_status_enabled : ℕ
user_status_enabled = 1

abbrev pub user_status_disabled : ℕ
user_status_disabled = 2

abbrev pub user_status_deleted : ℕ
user_status_deleted = 3

-- A user with no field set.
abbrev pub no_user : User
no_user = record {
  id = 0;
  username = "";
  password = "";
  display_name = "";
  role = 0;
  status = 0;
  email = "";
  access_token = "";
  github_id = "";
  lark_id = "";
  oidc_id = "";
  quota = pos 0;
  used_quota = pos 0;
  request_count = pos 0;
  group = "";
  aff_code = "";
  inviter_id = 0;
}

abbrev pub text_or : String → String → String
text_or new old = if str_eq new "" then old else new

abbrev pub number_or : ℕ → ℕ → ℕ
number_or new old = if new == 0 then old else new

abbrev pub amount_or : ℤ → ℤ → ℤ
amount_or new old = if eqb_ℤ new (pos 0) then old else new

-- The columns that an update by a struct sets.
unfoldable pub patch : User → User → User
patch new old = record old {
  username = text_or new.username old.username;
  password = text_or new.password old.password;
  display_name = text_or new.display_name old.display_name;
  role = number_or new.role old.role;
  status = number_or new.status old.status;
  email = text_or new.email old.email;
  access_token = text_or new.access_token old.access_token;
  github_id = text_or new.github_id old.github_id;
  lark_id = text_or new.lark_id old.lark_id;
  oidc_id = text_or new.oidc_id old.oidc_id;
  quota = amount_or new.quota old.quota;
  used_quota = amount_or new.used_quota old.used_quota;
  request_count = amount_or new.request_count old.request_count;
  group = text_or new.group old.group;
  aff_code = text_or new.aff_code old.aff_code;
  inviter_id = number_or new.inviter_id old.inviter_id;
}

-- An update does not write an empty text.
abbrev pub same_text : String → String → Bool
same_text a b = not (str_eq a "") && str_eq a b

-- Whether another row has one of the values that have to be unique, by a comparison of texts.
unfoldable pub conflicts : (String → String → Bool) → User → List User → Bool
conflicts same u [] = false
conflicts same u (x ∷ xs) =
    let rest = conflicts same u xs in
    if not (x.id == u.id)
      && (same u.username x.username
          || same u.access_token x.access_token
          || same u.aff_code x.aff_code)
    then true
    else rest

-- Whether an update of a row that is there breaks a unique column.
unfoldable pub violates : User → List User → Bool
violates u xs = is_some (find_row user_id_of u.id xs) && conflicts same_text u xs

-- DB.Model(user).Updates(user)
unfoldable pub updates : User → M (Unit {0})
updates u = if u.id == 0 then throw (message "WHERE conditions required") else (do
  statement
  w ← get
  if violates u w.users
      then throw database
      else modify (λ v. record v { users = update_rows user_id_of u.id (patch u) v.users }))

-- DB.Create(user), of a user without an id: the new row's id.
unfoldable pub insert_row : User → M ℕ
insert_row u = do
  statement
  w ← get
  let row = record u {
    id = w.next_user;
    role = number_or u.role role_common_user;
    status = number_or u.status user_status_enabled;
    group = text_or u.group "default";
  }
  if conflicts str_eq row w.users then throw database else (do
    modify (λ v. record v { users = v.users ++ row ∷ []; next_user = suc v.next_user })
    return row.id)

-- The blacklist, a set of ids.
unfoldable pub ban_user : ℕ → M (Unit {0})
ban_user id = modify (λ w. record w { banned = id ∷ w.banned })

unfoldable pub without : ℕ → List ℕ → List ℕ
without id [] = []
without id (x ∷ xs) = let rest = without id xs in if x == id then rest else x ∷ rest

unfoldable pub unban_user : ℕ → M (Unit {0})
unban_user id = modify (λ w. record w { banned = without id w.banned })

unfoldable pub holds : ℕ → List ℕ → Bool
holds id [] = false
holds id (x ∷ xs) = let rest = holds id xs in if x == id then true else rest

unfoldable pub is_user_banned : ℕ → World → Bool
is_user_banned id w = holds id w.banned

-- GetUserById; without `select_all` two columns are left out.
abbrev pub masked : Bool → User → User
masked select_all u = if select_all then u else record u { password = ""; access_token = "" }

unfoldable pub get_user_by_id : ℕ → Bool → M User
get_user_by_id id select_all = if id == 0 then throw (message "id is empty!") else (do
  statement
  w ← get
  elim (user_row w id) [ none ↦ throw record_not_found | some u ↦ return (masked select_all u) ])

-- The first row whose column is a text.
unfoldable pub find_user_by : (User → String) → String → List User → Option User
find_user_by column text [] = none
find_user_by column text (x ∷ xs) =
    if str_eq (column x) text then some x else find_user_by column text xs

unfoldable pub first_user_by : (User → String) → String → M User
first_user_by column text = do
  statement
  w ← get
  elim (find_user_by column text w.users) [ none ↦ throw record_not_found | some u ↦ return u ]

unfoldable pub get_user_id_by_aff_code : String → M ℕ
get_user_id_by_aff_code aff_code =
    if str_eq aff_code ""
    then throw (message "affCode is empty!")
    else (do u ← first_user_by (λ u. u.aff_code) aff_code; return u.id)

-- RowsAffected == 1; a failed query affects none.
unfoldable pub count_users_by : (User → String) → String → List User → ℕ
count_users_by column text [] = 0
count_users_by column text (x ∷ xs) =
    let rest = count_users_by column text xs in if str_eq (column x) text then suc rest else rest

unfoldable pub is_already_taken : (User → String) → String → M Bool
is_already_taken column text = do
  found ← attempt statement
  w ← get
  elim found [ err e ↦ return false | ok _ ↦ return (count_users_by column text w.users == 1) ]

-- The values that an insertion draws.
pub record Drawn : Type 0 where
  pub uuid : String
  pub aff_code : String
  pub key : String

pub record Bonus : Type 0 where
  pub quota_for_new_user : ℤ
  pub quota_for_invitee : ℤ
  pub quota_for_inviter : ℤ

-- The token that every new user gets.
unfoldable pub default_token : ℕ → ℤ → String → Token
default_token user_id now key = record {
  id = 0;
  user_id = user_id;
  key = key;
  status = 1;
  name = "default";
  created_time = now;
  accessed_time = now;
  expired_time = negsuc 0;
  remain_quota = negsuc 0;
  unlimited_quota = true;
  used_quota = pos 0;
  models = none;
  subnet = some "";
}

-- Its insertion does not block.
unfoldable pub insert_default_token : ℕ → String → M (Unit {0})
insert_default_token user_id key = do
  w ← get
  attempt (token_insert (default_token user_id w.now key))
  return tt

unfoldable pub invitation_bonus : Config → Bonus → ℕ → ℕ → M (Unit {0})
invitation_bonus config bonus user_id inviter_id = if inviter_id == 0 then return tt else (do
  if ltb_ℤ (pos 0) bonus.quota_for_invitee
      then (do
        attempt (Quota.increase_user_quota config user_id bonus.quota_for_invitee)
        return tt)
      else return tt
  if ltb_ℤ (pos 0) bonus.quota_for_inviter
      then (do
        attempt (Quota.increase_user_quota config inviter_id bonus.quota_for_inviter)
        return tt)
      else return tt)

-- UPDATE … SET password = ? WHERE email = ?
unfoldable pub reset_passwords : String → String → List User → List User
reset_passwords email password [] = []
reset_passwords email password (x ∷ xs) =
    (if str_eq x.email email then record x { password = password } else x)
    ∷ reset_passwords email password xs

module _ (hash : String → Result String) where
  abbrev pub hashed : String → M String
  hashed password w = (hash password, w)

  unfoldable pub user_update : Bool → User → M (Unit {0})
  user_update update_password u = do
    password ← (if update_password then hashed u.password else return u.password)
    if u.status == user_status_disabled
        then ban_user u.id
        else if u.status == user_status_enabled
        then unban_user u.id
        else return tt
    updates (record u { password = password })

  -- The deleted user, as the receiver is left.
  unfoldable pub user_delete : String → User → M User
  user_delete uuid u = if u.id == 0 then throw (message "id is empty!") else (do
    ban_user u.id
    let gone = record u { username = uuid; status = user_status_deleted }
    updates gone
    return gone)

  unfoldable pub delete_user_by_id : String → ℕ → M (Unit {0})
  delete_user_by_id uuid id =
      if id == 0
      then throw (message "id is empty!")
      else (do user_delete uuid (record no_user { id = id }); return tt)

  -- User.Insert: the user as the receiver is left.
  unfoldable pub insert_user : Config → Bonus → Drawn → User → ℕ → M User
  insert_user config bonus drawn u inviter_id = do
    password ← (if str_eq u.password "" then return "" else hashed u.password)
    let filled = record u {
      password = password;
      quota = bonus.quota_for_new_user;
      access_token = drawn.uuid;
      aff_code = drawn.aff_code;
    }
    id ← insert_row filled
    invitation_bonus config bonus id inviter_id
    insert_default_token id drawn.key
    return (record filled { id = id })

  unfoldable pub reset_user_password_by_email : String → String → M (Unit {0})
  reset_user_password_by_email email password =
      if str_eq email "" || str_eq password ""
      then throw (message "Email address or password is empty!")
      else (do
        hashed_password ← hashed password
        statement
        modify (λ w. record w { users = reset_passwords email hashed_password w.users }))

-- FillUserById; whatever the query says, the call succeeds.
unfoldable pub fill_user_by_id : ℕ → M User
fill_user_by_id id = if id == 0 then throw (message "id is empty!") else (do
  found ← attempt statement
  w ← get
  elim found [
    | err e ↦ return (record no_user { id = id })
    | ok _ ↦ elim (user_row w id) [ none ↦ return (record no_user { id = id }) | some u ↦ return u ]
  ])

-- ValidateAndFill: by username, then by e-mail address.
unfoldable pub find_login : String → M User
find_login username = do
  named ← attempt (first_user_by (λ u. u.username) username)
  elim named [ ok u ↦ return u | err e ↦ first_user_by (λ u. u.email) username ]

unfoldable pub validate_and_fill : (String → String → Bool) → String → String → M User
validate_and_fill verify username password =
    if str_eq username "" || str_eq password ""
    then throw (message "Username or password is empty")
    else (do
      found ← attempt (find_login username)
      elim found [
        | err e ↦ throw (message "Incorrect username or password, or user has been banned")
        | ok u ↦
            if not (verify password u.password) || not (u.status == user_status_enabled)
            then throw (message "Incorrect username or password, or user has been banned")
            else return u
      ])
