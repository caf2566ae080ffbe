-- ===== src/Controller/Login/Source.antt =====
-- What a password login leaves in the cookie (controller/user.go).
use new_api_blues.Prelude.{
  String, str_eq, Bool, true, not, ◌&&◌, ◌||◌, Option, some, inl, inr, ◌≡◌, arith, ◌==◌, Bool-cases,
}
use new_api_blues.Model.Store.{World, User, ok, Result-cases}
use new_api_blues.Model.Accounts.{validate_and_fill, find_login}
use new_api_blues.Middleware.Session.{Session, session_of}
use new_api_blues.Controller.Vscode.{complete_vscode_auth}
use new_api_blues.Controller.Login.{
  LoginOptions, LoginRequest, logged_in, Query, login, login_checked, setup_login, clean_user,
  bad_source,
}

validated :
    (verify : String → String → Bool) (name password : String) (w : World) (u : User)
    → (validate_and_fill verify name password w).0 ≡ ok u
    → (verify password u.password ≡ true) × ((u.status == 1) ≡ true)
unfolding validate_and_fill
validated verify name password w u e = elim (Bool-cases (str_eq name "" || str_eq password "")) [
  | inl a ↦ ground (arith, e, a)
  | inr a ↦ elim (Result-cases (find_login name w).0) [
    | inr (x, f) ↦ ground (arith, e, a, f)
    | inl (x, f) ↦ elim (Bool-cases (not (verify password x.password) || not (x.status == 1))) [
      | inl b ↦ ground (arith, e, a, f, b)
      | inr b ↦ ground (arith, e, a, f, b)
    ]
  ]
]

setup_shown :
    (save_ok : Bool) (query : Query) (before left : Option Session) (u : User) (w : World)
    (shown : User)
    → (setup_login save_ok query before u w).0 ≡ ok (logged_in shown, left)
    → (shown ≡ clean_user u) × (left ≡ some (session_of u))
unfolding setup_login
setup_shown save_ok query before left u w shown e = elim (Bool-cases (not save_ok)) [
  | inl a ↦ ground (arith, e, a)
  | inr a ↦ elim (Bool-cases (str_eq query.source "vscode" && not (str_eq query.session_id ""))) [
    | inr b ↦ ground (arith, e, a, b)
    | inl b ↦ elim (Result-cases (complete_vscode_auth u query.session_id w).0) [
      | inl (x, f) ↦ ground (arith, e, a, b, f)
      | inr (x, f) ↦ ground (arith, e, a, b, f)
    ]
  ]
]

-- If Login answers with a user, then logging in with a password is enabled, the password of the
-- request is verified by the password of a user whose status is "enabled" and whom ValidateAndFill
-- finds by the name of the request, and the cookie holds the name, role, id and status of that
-- user.
pub login-session :
    (verify : String → String → Bool) (save_ok : Bool) (options : LoginOptions) (query : Query)
    (before left : Option Session) (req : LoginRequest) (w : World) (shown : User)
    → (login verify save_ok options query before (some req) w).0 ≡ ok (logged_in shown, left)
    → (u : User) × (options.password_login_enabled ≡ true)
      × ((validate_and_fill verify req.username req.password w).0 ≡ ok u)
      × (verify req.password u.password ≡ true)
      × ((u.status == 1) ≡ true)
      × (shown ≡ clean_user u)
      × (left ≡ some (session_of u))
unfolding login login_checked
login-session verify save_ok options query before left req w shown e =
    elim (Bool-cases (not options.password_login_enabled)) [
      | inl a ↦ ground (arith, e, a)
      | inr a ↦ elim (Bool-cases (bad_source query.source)) [
        | inl b ↦ ground (arith, e, a, b)
        | inr b ↦ elim (Bool-cases (str_eq req.username "" || str_eq req.password "")) [
          | inl c ↦ ground (arith, e, a, b, c)
          | inr c ↦ elim (Result-cases (validate_and_fill verify req.username req.password w).0) [
            | inr (x, f) ↦ ground (arith, e, a, b, c, f)
            | inl (u, f) ↦
                let (v, s) = validated verify req.username req.password w u f in
                let (i, j) =
                  setup_shown save_ok query before left u
                    (validate_and_fill verify req.username req.password w).1 shown ground
                    (arith, e, a, b, c, f) in
                (u, ground (arith, a), f, v, s, i, j)
          ]
        ]
      ]
    ]
