-- ===== src/Middleware/Session/Banned.antt =====
-- What the gate of the web API lets through, and that a user whom an administrator disables is
-- stopped by it at once (middleware/auth.go, controller/user.go, model/user.go).
use new_api_blues.Prelude.{
  ℕ, ◌≤◌, String, str_eq, ◌||◌, false, Option, none, some, [], ◌∷◌, ◌⊎◌, inl, inr, ◌≡◌, refl, arith,
  ap, sym, ◌∙◌, ◌==◌, ==_self, ltb, Option-cases, Bool-cases,
}
use new_api_blues.Model.Store.{
  World, User, Result, ok, err, statement_ok, statement_cases, then_return,
}
use new_api_blues.Model.Accounts.{
  is_user_banned, find_user_by, ban_user, holds, updates, user_update, violates, no_user,
}
use new_api_blues.Controller.Users.{
  Actor, Reply, user, reply_of, ManageRequest, first_user, outranked, manage_user, manage_found,
  manage_action,
}
use new_api_blues.Controller.Users.Commands.{reply_world}
use new_api_blues.Middleware.Session.{
  Session, next, banned, check_session, check_user, auth_helper, validate_access_token, session_of,
}

-- A session passes only with the names it holds, where its status is not "disabled", its user is
-- not on the blacklist, and its role is the gate's or above.
abbrev pub Passes : ℕ → Session → World → String → ℕ → ℕ → Type 0
Passes min_role s w name role id =
    (s.username ≡ name)
    × (s.role ≡ role)
    × (s.id ≡ id)
    × ((s.status == 2) ≡ false)
    × (is_user_banned id w ≡ false)
    × (min_role ≤ role)

check_session-Passes :
    (min_role : ℕ) (s : Session) (kept : Option Session) (w : World) (name : String) (role id : ℕ)
    → (check_session min_role s kept w).0 ≡ next name role id
    → Passes min_role s w name role id
unfolding check_session
check_session-Passes min_role s kept w name role id e =
    elim (Bool-cases (s.status == 2 || is_user_banned s.id w)) [
      | inl a ↦ ground (arith, e, a)
      | inr a ↦ elim (Bool-cases (ltb s.role min_role)) [
        | inl b ↦ ground (arith, e, a, b)
        | inr b ↦ ground (arith, e, a, b)
      ]
    ]

-- Who may be behind a request that the gate lets through: the user of the session's cookie, or
-- without a session the user whose access token the request carries.
abbrev pub Behind : (String → String) → Option Session → String → World → Session → Type 0
Behind bare session authorization w s =
    (session ≡ some s)
    ⊎ ((u : User) × (session ≡ none)
        × (find_user_by (λ x. x.access_token) (bare authorization) w.users ≡ some u)
        × (session_of u ≡ s))

-- If authHelper lets a request through with a name, a role and an id, these are those of the
-- session's cookie, or without a session those of a row with the access token of the request;
-- the status there is not "disabled", the id is not on the blacklist, and the role is the gate's
-- or above.
pub auth_helper-Passes :
    (bare : String → String) (min_role : ℕ) (session left : Option Session) (authorization : String)
    (w : World) (name : String) (role id : ℕ)
    → (auth_helper bare min_role session authorization w).0 ≡ ok (next name role id, left)
    → (s : Session) × Behind bare session authorization w s × Passes min_role s w name role id
unfolding auth_helper validate_access_token check_user is_user_banned
auth_helper-Passes bare min_role (some s) left authorization w name role id e =
    (s, inl refl, check_session-Passes min_role s (some s) w name role id ground (arith, e))
auth_helper-Passes bare min_role none left authorization w name role id e =
    let (fs, outcome) = statement_cases w in
    elim (Bool-cases (str_eq authorization "")) [
      | inl a ↦ ground (arith, e, a)
      | inr a ↦ elim outcome [
        | inl s ↦ ground (arith, e, a, s)
        | inr s ↦
            elim (Option-cases (find_user_by (λ x. x.access_token) (bare authorization) w.users)) [
              | inl f ↦ ground (arith, e, a, s, f)
              | inr (u, f) ↦ elim (Bool-cases (str_eq u.username "")) [
                | inl n ↦ ground (arith, e, a, s, f, n)
                | inr n ↦ (
                  session_of u,
                  inr (u, refl, f, refl),
                  check_session-Passes min_role (session_of u) none (record w { faults = fs }) name
                      role id ground (arith, e, a, s, f, n),
                )
              ]
            ]
      ]
    ]

-- A user row that is written with the status "disabled" puts its id on the blacklist, whatever
-- the database says.
updates-banned : (u : User) (w : World) → (updates u w).1.banned ≡ w.banned
unfolding updates
updates-banned u w =
    let (fs, outcome) = statement_cases w in
    elim (Bool-cases (u.id == 0)) [
      | inl e ↦ rw e refl
      | inr e ↦ elim outcome [
        | inl s ↦ rw (e, s) refl
        | inr s ↦ elim (Bool-cases (violates u w.users)) [
          | inl c ↦ rw (e, s, c) refl
          | inr c ↦ rw (e, s, c) refl
        ]
      ]
    ]

reply_user :
    (r : Result Reply × World) (shown : User) → (reply_of r).0 ≡ user shown → r.0 ≡ ok (user shown)
reply_user (ok x, w) shown e = ap ok e
reply_user (err x, w) shown e = ground (arith, e)

module _ (hash : String → Result String) (uuid : String) (actor : Actor) (name : String) where
  disabled_banned :
      (u shown : User) (w : World)
      → (manage_found hash uuid actor "disable" (some u) w).0 ≡ ok (user shown)
      → (manage_found hash uuid actor "disable" (some u) w).1.banned ≡ u.id ∷ w.banned
  unfolding manage_found manage_action user_update ban_user
  disabled_banned u shown w e =
      let off = record u { status = 2 } in
      elim (Bool-cases (outranked actor u.role)) [
        | inl a ↦ ground (arith, e, a)
        | inr a ↦ elim (Bool-cases (u.role == 100)) [
          | inl b ↦ ground (arith, e, a, b)
          | inr b ↦
              rw
                (
                  a,
                  b,
                  then_return (updates off)
                      (λ _. user (record no_user { role = u.role; status = 2 }))
                      (record w { banned = u.id ∷ w.banned }),
                )
                (updates-banned off (record w { banned = u.id ∷ w.banned }))
        ]
      ]

  -- If ManageUser disables the user that a name stands for and answers with a user, the gate then
  -- refuses every session of that user as banned, whatever role and status the session holds, and
  -- clears it. No statement fails.
  pub disable-auth_helper :
      (bare : String → String) (min_role : ℕ) (authorization : String) (u shown : User)
      (s : Session) (w : World)
      → w.faults ≡ []
      → first_user name w.users ≡ some u
      → (manage_user hash uuid actor (some (record { username = name; action = "disable" })) w).0
        ≡ user shown
      → s.id ≡ u.id
      → (auth_helper bare min_role
          (some s)
          authorization
          (manage_user hash uuid actor
            (some (record { username = name; action = "disable" }))
            w).1).0
        ≡ ok (banned, none)
  unfolding manage_user auth_helper check_session is_user_banned holds
  disable-auth_helper bare min_role authorization u shown s w h f e i =
      let found = manage_found hash uuid actor "disable" (some u) w in
      let request : ManageRequest = record { username = name; action = "disable" } in
      let run : manage_user hash uuid actor (some request) w ≡ reply_of found =
        ground (arith, statement_ok w h, f) in
      let shows : found.0 ≡ ok (user shown) =
        reply_user found shown (ap (λ r. r.0) (sym run) ∙ e) in
      rw (run, reply_world found, disabled_banned u shown w shows, i, ==_self u.id) ground arith
