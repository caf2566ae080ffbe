-- ===== src/Controller/Login.antt =====
-- Logging in and registering with a password (Login, SetupLogin, Logout and Register of
-- controller/user.go). A handler gets the decoded body (`none` where it cannot be decoded) and the
-- parameters of the query; whether the cookie can be saved is the argument `save_ok`.
pub mod Source
use new_api_blues.Prelude.{
  ℕ, String, str_eq, Bool, true, false, not, ◌&&◌, ◌||◌, Option, none, some, if◌then◌else◌,
}
use new_api_blues.Model.Store.{
  M, World, User, Error, Result, ok, err, message, get, return, throw, attempt, ◌>>=◌, ◌>>◌,
}
use new_api_blues.Model.Quota.{Config}
use new_api_blues.Model.Accounts.{
  Bonus, Drawn, no_user, validate_and_fill, insert_user, get_user_id_by_aff_code,
}
use new_api_blues.Common.Verification.{Codes, verify_code_with_key}
use new_api_blues.Middleware.Session.{Session, session_of}
use new_api_blues.Controller.Vscode.{complete_vscode_auth}

pub record LoginOptions : Type 0 where
  pub password_login_enabled : Bool
  pub register_enabled : Bool
  pub password_register_enabled : Bool
  pub email_verification_enabled : Bool

pub record LoginRequest : Type 0 where
  pub username : String
  pub password : String

pub record Query : Type 0 where
  pub source : String
  pub session_id : String

pub data LoginReply : Type 0 where
  refused : Error → LoginReply
  invalid : String → LoginReply  -- a refusal with the translation of a key
  logged_in : User → LoginReply
  redirected : LoginReply
  done : LoginReply

abbrev pub valid_source : String → Bool
valid_source source =
    str_eq source "vscode" || str_eq source "web" || str_eq source "mobile" || str_eq source "api"

abbrev pub bad_source : String → Bool
bad_source source = not (str_eq source "") && not (valid_source source)

-- What the browser is told of the user.
abbrev pub clean_user : User → User
clean_user u = record no_user {
  id = u.id;
  username = u.username;
  display_name = u.display_name;
  role = u.role;
  status = u.status;
}

-- The session of the cookie that is left, besides the reply.
abbrev pub Outcome : Type 0
Outcome = LoginReply × Option Session

abbrev pub completion : Session → Result (Unit {0}) → Outcome
completion s (ok _) = (redirected, some s)
completion s (err e) = (refused (message "Failed to complete VSCode authentication"), some s)

unfoldable pub setup_login : (save_ok : Bool) → Query → Option Session → User → M Outcome
setup_login save_ok query before u =
    if not save_ok
    then return (refused (message "Unable to save session information, please try again"), before)
    else if str_eq query.source "vscode" && not (str_eq query.session_id "")
    then (do
      finished ← attempt (complete_vscode_auth u query.session_id)
      return (completion (session_of u) finished))
    else return (logged_in (clean_user u), some (session_of u))

unfoldable pub login_checked :
    (verify : String → String → Bool) (save_ok : Bool)
    → Query
    → Option Session
    → LoginRequest
    → M Outcome
login_checked verify save_ok query before req =
    if str_eq req.username "" || str_eq req.password ""
    then return (invalid "invalid_parameter", before)
    else (do
      found ← attempt (validate_and_fill verify req.username req.password)
      elim found [ err e ↦ return (refused e, before) | ok u ↦ setup_login save_ok query before u ])

unfoldable pub login :
    (verify : String → String → Bool) (save_ok : Bool)
    → LoginOptions
    → Query
    → Option Session
    → Option LoginRequest
    → M Outcome
login verify save_ok options query before body =
    if not options.password_login_enabled
    then return (refused (message "Administrator has disabled password login"), before)
    else if bad_source query.source
    then return (invalid "invalid_parameter", before)
    else elim body [
      | none ↦ return (invalid "invalid_parameter", before)
      | some req ↦ login_checked verify save_ok query before req
    ]

abbrev pub logout : (save_ok : Bool) → Option Session → Outcome
logout save_ok before =
    if save_ok then (done, none) else (refused (message "the session cannot be saved"), before)

-- The inviter is 0 where the look-up fails.
abbrev pub inviter_of : Result ℕ → ℕ
inviter_of (ok id) = id
inviter_of (err e) = 0

module _ (hash : String → Result String) (config : Config) (bonus : Bonus) (drawn : Drawn) where
  unfoldable pub register_user : LoginOptions → User → M LoginReply
  register_user options u = do
    inviter ← attempt (get_user_id_by_aff_code u.aff_code)
    insert_user hash config bonus drawn
        (record no_user {
          username = u.username;
          password = u.password;
          display_name = u.username;
          inviter_id = inviter_of inviter;
          email = if options.email_verification_enabled then u.email else "";
        })
        (inviter_of inviter)
    return done

  abbrev pub replied : Result LoginReply × World → LoginReply × World
  replied (ok r, w) = (r, w)
  replied (err e, w) = (refused e, w)

  -- The verification code is a field of the body, and `clock` the time in nanoseconds.
  unfoldable pub register_checked :
      LoginOptions
      → Codes
      → (clock : ℕ) → (verification_code : String) → User
      → World
      → LoginReply × World
  register_checked options codes clock verification_code u w =
      if options.email_verification_enabled && (str_eq u.email "" || str_eq verification_code "")
      then (
        refused (
            message
              "Administrator has enabled email verification, please enter email address and verification code"),
        w,
      )
      else if options.email_verification_enabled
          && not (verify_code_with_key u.email verification_code "v" clock codes)
      then (refused (message "Verification code is incorrect or expired"), w)
      else replied (register_user options u w)

  unfoldable pub register :
      (valid : User → Bool)
      → LoginOptions
      → Codes
      → (clock : ℕ) → (source : String) → Option (User × String)
      → World
      → LoginReply × World
  register valid options codes clock source none w =
      if not options.register_enabled
      then (refused (message "Administrator has disabled new user registration"), w)
      else if not options.password_register_enabled
      then (refused (message "Administrator has disabled password registration"), w)
      else (invalid "invalid_parameter", w)
  register valid options codes clock source (some (u, verification_code)) w =
      if not options.register_enabled
      then (refused (message "Administrator has disabled new user registration"), w)
      else if not options.password_register_enabled
      then (refused (message "Administrator has disabled password registration"), w)
      else if bad_source source
      then (invalid "invalid_parameter", w)
      else if not (valid u)
      then (invalid "invalid_input", w)
      else register_checked options codes clock verification_code u w
