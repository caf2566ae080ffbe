-- ===== src/Tests/Accounts.antt =====
-- The theorems on users, tokens and sign-in at concrete inputs.
use new_api_blues.Prelude.{
  pos, String, str_eq, true, false, none, some, ◌⊎◌, [], ◌∷◌, ◌≡◌, refl, arith, Bool, Distinct,
  ◌==◌, if◌then◌else◌, ◌&&◌, ◌-◌, ltb,
}
use new_api_blues.Model.Store.{
  World, User, Result, ok, user_row, token_row, find_row, update_rows, statement,
}
use new_api_blues.Model.Accounts.{
  Bonus, Drawn, no_user, get_user_by_id, user_update, updates, patch, unban_user, without, ban_user,
  is_user_banned, holds, find_login, first_user_by, insert_user, validate_and_fill, conflicts,
  violates, find_user_by,
}
use new_api_blues.Model.Accounts.Ids.{IdsInOrder, InOrder}
use new_api_blues.Model.Accounts.Login.{insert-login, inserted}
use new_api_blues.Common.Verification.{
  Codes, verify_code_with_key, register_verification_code_with_key, joined,
}
use new_api_blues.Common.Verification.Codes.{register-verify}
use new_api_blues.Controller.Users.{
  update_self, Actor, ManageRequest, user, manage_user, manage_found, manage_action, first_user,
  update_user, with_placeholder, without_placeholder, outranked,
}
use new_api_blues.Controller.Users.Managed.{Command, run, update, manage}
use new_api_blues.Controller.Users.Rank.{
  run-protects, run-grants, run_all-admins, run_all, AllAdmins, admin_row,
}
use new_api_blues.Controller.Users.Own.{Same, update_self-Same}
use new_api_blues.Controller.Tokens.Rows.{UniqueIds}
use new_api_blues.Controller.Tokens.Owner.{delete, run_token, run_token-others}
use new_api_blues.Controller.Login.{
  LoginOptions, LoginRequest, Query, login, login_checked, setup_login, logged_in, clean_user,
}
use new_api_blues.Controller.Login.Source.{login-session}
use new_api_blues.Middleware.Session.{Session, auth_helper, check_session, next, banned, session_of}
use new_api_blues.Middleware.Session.Banned.{
  auth_helper-Passes, disable-auth_helper, Behind, Passes,
}
use new_api_blues.Tests.Data.{alice, key_one, world, direct}

abbrev root : User
root = record alice { id = 1; username = "root"; role = 100; access_token = "r" }

abbrev admin : User
admin = record alice { id = 2; username = "admin"; role = 10; access_token = "a" }

abbrev staff : World
staff = record world { users = root ∷ admin ∷ alice ∷ [] }

abbrev by_admin : Actor
by_admin = record { id = 2; role = 10 }

abbrev kept : String → Result String
kept p = ok p

abbrev equal : String → String → Bool
equal p h = str_eq p h

abbrev raise : Command
raise = update (some (record alice { role = 5 }))

abbrev promote : Command
promote = manage "deleted_1" (some (record { username = "alice"; action = "promote" }))

staff-InOrder : IdsInOrder staff
unfolding InOrder
staff-InOrder = ground arith

root_found : user_row staff 1 ≡ some root
unfolding find_row
root_found = refl

run-protects_example : user_row (run (λ u. true) kept direct by_admin raise staff).1 1 ≡ some root
run-protects_example =
    run-protects (λ u. true) kept direct by_admin raise staff 1 root ground arith staff-InOrder
      root_found refl

raised :
    user_row (run (λ u. true) kept direct by_admin raise staff).1 7
    ≡ some (record alice { role = 5 })
unfolding run update_user with_placeholder without_placeholder get_user_by_id statement user_update
    updates violates conflicts patch update_rows find_row unban_user without
raised = refl

run-grants_example :
    ((x : User) × (user_row staff 7 ≡ some x) × (5 ≡ x.role)) ⊎ (outranked by_admin 5 ≡ false)
run-grants_example =
    run-grants (λ u. true) kept direct by_admin raise staff 7 (record alice { role = 5 }) ground
      arith staff-InOrder raised

both_admins : AllAdmins ((by_admin, raise) ∷ (by_admin, promote) ∷ [])
unfolding AllAdmins
both_admins = (refl, (refl, tt))

run_all-admins_example :
    admin_row
      (run_all (λ u. true) kept direct ((by_admin, raise) ∷ (by_admin, promote) ∷ []) staff)
      1
    ≡ admin_row staff 1
run_all-admins_example =
    run_all-admins (λ u. true) kept direct ((by_admin, raise) ∷ (by_admin, promote) ∷ []) staff 1
      both_admins staff-InOrder

abbrev by_admin_session : Session
by_admin_session = session_of admin

admin_passes :
    (auth_helper (λ t. t) 10 (some by_admin_session) "" staff).0
    ≡ ok (next "admin" 10 2, some by_admin_session)
unfolding auth_helper check_session is_user_banned holds
admin_passes = refl

auth_helper-Passes_example :
    (s : Session) × Behind (λ t. t) (some by_admin_session) "" staff s
    × Passes 10 s staff "admin" 10 2
auth_helper-Passes_example =
    auth_helper-Passes (λ t. t) 10 (some by_admin_session) (some by_admin_session) "" staff "admin"
      10 2 admin_passes

abbrev off : ManageRequest
off = record { username = "alice"; action = "disable" }

disabled :
    (manage_user kept "deleted_1" by_admin (some off) staff).0
    ≡ user (record no_user { role = 1; status = 2 })
unfolding manage_user manage_found manage_action first_user find_user_by statement user_update
    updates violates conflicts ban_user find_row
disabled = refl

alice_first : first_user "alice" staff.users ≡ some alice
unfolding first_user find_user_by
alice_first = refl

disable-auth_helper_example :
    (auth_helper
      (λ t. t)
      1
      (some (session_of alice))
      ""
      (manage_user kept "deleted_1" by_admin (some off) staff).1).0
    ≡ ok (banned, none)
disable-auth_helper_example =
    disable-auth_helper kept "deleted_1" by_admin "alice" (λ t. t) 1 "" alice
      (record no_user { role = 1; status = 2 }) (session_of alice) staff refl alice_first disabled
      refl

keys-UniqueIds : UniqueIds world.tokens
unfolding UniqueIds find_row
keys-UniqueIds = (refl, tt)

key_one_found : token_row world 3 ≡ some key_one
unfolding find_row
key_one_found = refl

run_token-others_example : token_row (run_token (λ s. true) 9 (delete 3) world).1 3 ≡ some key_one
run_token-others_example =
    run_token-others (λ s. true) 9 (delete 3) world 3 key_one keys-UniqueIds key_one_found refl

abbrev no_codes : Codes
no_codes = []

no_codes-Distinct : Distinct no_codes
unfolding Distinct
no_codes-Distinct = tt

register-verify_example :
    verify_code_with_key "a@b" "123" "v" 9000000000
      (register_verification_code_with_key "a@b" "123" "v" 5000000000 no_codes)
    ≡ (if str_eq (joined "v" "a@b") (joined "v" "a@b")
        then str_eq "123" "123" && ltb (9000000000 - 5000000000) 600000000000
        else verify_code_with_key "a@b" "123" "v" 9000000000 no_codes)
register-verify_example =
    register-verify "a@b" "123" "v" "a@b" "123" "v" 5000000000 9000000000 no_codes ground arith
      no_codes-Distinct

abbrev gift : Bonus
gift = record { quota_for_new_user = pos 100; quota_for_invitee = pos 0; quota_for_inviter = pos 0 }

abbrev draws : Drawn
draws = record { uuid = "u-1"; aff_code = "AB12"; key = "k-1" }

abbrev bob : User
bob = record no_user { username = "bob"; password = "secret" }

no_conflict : conflicts str_eq (inserted gift draws "secret" bob world) world.users ≡ false
unfolding conflicts
no_conflict = refl

world-InOrder : IdsInOrder world
unfolding InOrder
world-InOrder = ground arith

insert-login_example :
    (validate_and_fill equal "bob" "secret" (insert_user kept direct gift draws bob 0 world).1).0
    ≡ ok (inserted gift draws "secret" bob world)
insert-login_example =
    insert-login kept equal direct gift draws bob "secret" world refl world-InOrder refl refl refl
      refl refl no_conflict

abbrev options : LoginOptions
options = record {
  password_login_enabled = true;
  register_enabled = true;
  password_register_enabled = true;
  email_verification_enabled = false;
}

abbrev carol : User
carol = record alice { password = "secret" }

abbrev club : World
club = record world { users = carol ∷ [] }

abbrev ask : LoginRequest
ask = record { username = "alice"; password = "secret" }

abbrev from_web : Query
from_web = record { source = "web"; session_id = "" }

in_club :
    (login equal true options from_web none (some ask) club).0
    ≡ ok (logged_in (clean_user carol), some (session_of carol))
unfolding login login_checked setup_login validate_and_fill find_login first_user_by find_user_by
    statement
in_club = refl

login-session_example :
    (u : User) × (options.password_login_enabled ≡ true)
    × ((validate_and_fill equal "alice" "secret" club).0 ≡ ok u)
    × (equal "secret" u.password ≡ true)
    × ((u.status == 1) ≡ true)
    × (clean_user carol ≡ clean_user u)
    × (some (session_of carol) ≡ some (session_of u))
login-session_example =
    login-session equal true options from_web none (some (session_of carol)) ask club
      (clean_user carol) in_club

abbrev new_name : User
new_name = record no_user { username = "alicia"; role = 100; quota = pos 9999 }

alice_found : user_row staff 7 ≡ some alice
unfolding find_row
alice_found = refl

update_self-Same_example :
    (y : User) × (user_row
        (update_self (λ u. true) kept (record { id = 7; role = 1 }) (some new_name) staff).1
        7
      ≡ some y)
    × Same alice y
    × (((7 == 7) ≡ true) ⊎ (y ≡ alice))
update_self-Same_example =
    update_self-Same (λ u. true) kept (record { id = 7; role = 1 }) (some new_name) staff 7 alice
      alice_found
