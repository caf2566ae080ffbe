-- ===== src/Controller/Vscode/Accounts.antt =====
-- The writes of accounts leave the sign-in sessions alone (model/user.go,
-- controller/coder_auth.go).
use new_api_blues.Prelude.{
  ℕ, pos, String, str_eq, true, not, ◌&&◌, inl, inr, ◌==◌, ◌≡◌, refl, arith, ◌∙◌, if◌then◌else◌,
  Bool-cases, Option-cases,
}
use new_api_blues.Model.Store.{
  World, User, Result, then_do, return, Result-cases, statement_cases, ◌>>◌,
}
use new_api_blues.Model.Quota.{Config}
use new_api_blues.Model.Tokens.{token_insert, has_key}
use new_api_blues.Model.Accounts.{
  Bonus, Drawn, no_user, find_user_by, first_user_by, violates, updates, ban_user, unban_user,
  user_update, conflicts, number_or, text_or, insert_row, insert_default_token, default_token,
  invitation_bonus, insert_user, role_common_user, user_status_enabled,
}
use new_api_blues.Controller.Vscode.{
  CoderUser, renamed, readdressed, create_coder_user, find_or_create_coder_user,
}

first_user-sessions :
    (column : User → String) (value : String) (w : World)
    → (first_user_by column value w).1.auth_sessions ≡ w.auth_sessions
unfolding first_user_by
first_user-sessions column value w =
    let (fs, outcome) = statement_cases w in
    elim outcome [
      | inl s ↦ rw s refl
      | inr s ↦ elim (Option-cases (find_user_by column value w.users)) [
        | inl e ↦ ground (arith, s, e)
        | inr (u, e) ↦ ground (arith, s, e)
      ]
    ]

updates-sessions : (u : User) (w : World) → (updates u w).1.auth_sessions ≡ w.auth_sessions
unfolding updates
updates-sessions u w =
    let (fs, outcome) = statement_cases w in
    elim (Bool-cases (u.id == 0)) [
      | inl e ↦ rw e refl
      | inr e ↦ elim outcome [
        | inl s ↦ rw (e, s) refl
        | inr s ↦ elim (Bool-cases (violates u w.users)) [
          | inl c ↦ rw (e, s, c) refl
          | inr c ↦ rw (e, s, c) refl
        ]
      ]
    ]

user_update-sessions :
    (hash : String → Result String) (u : User) (w : World)
    → (user_update hash true u w).1.auth_sessions ≡ w.auth_sessions
unfolding user_update ban_user unban_user
user_update-sessions hash u w = elim (Result-cases (hash u.password)) [
  | inr (x, g) ↦ rw g refl
  | inl (h, g) ↦
      let v = record u { password = h } in
      elim (Bool-cases (u.status == 2)) [
        | inl d ↦ rw (g, d) (updates-sessions v (ban_user u.id w).1)
        | inr d ↦ elim (Bool-cases (u.status == 1)) [
          | inl e ↦ rw (g, d, e) (updates-sessions v (unban_user u.id w).1)
          | inr e ↦ rw (g, d, e) (updates-sessions v w)
        ]
      ]
]

insert_row-sessions : (u : User) (w : World) → (insert_row u w).1.auth_sessions ≡ w.auth_sessions
unfolding insert_row
insert_row-sessions u w =
    let (fs, outcome) = statement_cases w in
    let row = record u {
      id = w.next_user;
      role = number_or u.role role_common_user;
      status = number_or u.status user_status_enabled;
      group = text_or u.group "default";
    } in
    elim outcome [
      | inl s ↦ rw s refl
      | inr s ↦ elim (Bool-cases (conflicts str_eq row w.users)) [
        | inl c ↦ rw (s, c) refl
        | inr c ↦ rw (s, c) refl
      ]
    ]

insert_default_token-sessions :
    (id : ℕ) (key : String) (w : World)
    → (insert_default_token id key w).1.auth_sessions ≡ w.auth_sessions
unfolding insert_default_token token_insert default_token
insert_default_token-sessions id key w =
    let (fs, outcome) = statement_cases w in
    elim outcome [
      | inl s ↦ rw s refl
      | inr s ↦ elim (Bool-cases (has_key key w.tokens)) [
        | inl c ↦ rw (s, c) refl
        | inr c ↦ rw (s, c) refl
      ]
    ]

insert_user-sessions :
    (hash : String → Result String) (config : Config) (bonus : Bonus) (drawn : Drawn) (u : User)
    (w : World)
    → (insert_user hash config bonus drawn u 0 w).1.auth_sessions ≡ w.auth_sessions
unfolding insert_user invitation_bonus
insert_user-sessions hash config bonus drawn u w = elim (Bool-cases (str_eq u.password "")) [
  | inl e ↦ rw e (stored "")
  | inr e ↦ elim (Result-cases (hash u.password)) [
    | inl (p, h) ↦ rw (e, h) (stored p)
    | inr (x, h) ↦ rw (e, h) refl
  ]
]
  where
    filled : String → User
    filled p = record u {
      password = p;
      quota = bonus.quota_for_new_user;
      access_token = drawn.uuid;
      aff_code = drawn.aff_code;
    }

    returned :
        (p : String) (id : ℕ) (v : World)
        → (then_do
            (insert_default_token id drawn.key v)
            (λ _. return (record (filled p) { id = id }))).1.auth_sessions
          ≡ v.auth_sessions
    returned p id v = elim (Result-cases (insert_default_token id drawn.key v).0) [
      | inr (x, e) ↦ rw e (insert_default_token-sessions id drawn.key v)
      | inl (x, e) ↦ rw e (insert_default_token-sessions id drawn.key v)
    ]

    stored :
        (p : String)
        → (then_do (insert_row (filled p) w) (λ id. do
          invitation_bonus config bonus id 0
          insert_default_token id drawn.key
          return (record (filled p) { id = id }))).1.auth_sessions
          ≡ w.auth_sessions
    stored p = elim (Result-cases (insert_row (filled p) w).0) [
      | inr (x, e) ↦ rw e (insert_row-sessions (filled p) w)
      | inl (id, e) ↦
          rw e (returned p id (insert_row (filled p) w).1 ∙ insert_row-sessions (filled p) w)
    ]

create_coder_user-sessions :
    (hash : String → Result String) (config : Config) (bonus : Bonus) (drawn : Drawn)
    (oauth_password : String) (c : CoderUser) (w : World)
    → (create_coder_user hash config bonus drawn oauth_password c w).1.auth_sessions
      ≡ w.auth_sessions
unfolding create_coder_user
create_coder_user-sessions hash config bonus drawn oauth_password c w =
    elim (Result-cases (hash oauth_password)) [
      | inr (x, e) ↦ rw e refl
      | inl (password, e) ↦ rw e (
          insert_user-sessions hash config bonus drawn
            (record no_user {
              username = c.username;
              email = c.email;
              display_name = if str_eq c.name "" then c.username else c.name;
              role = role_common_user;
              status = user_status_enabled;
              quota = pos 500000;
              password = password;
            })
            w)
    ]

pub find_or_create_coder_user-sessions :
    (hash : String → Result String) (config : Config) (bonus : Bonus) (drawn : Drawn)
    (oauth_password : String) (c : CoderUser) (w : World)
    → (find_or_create_coder_user hash config bonus drawn oauth_password c w).1.auth_sessions
      ≡ w.auth_sessions
unfolding find_or_create_coder_user
find_or_create_coder_user-sessions hash config bonus drawn oauth_password c w =
    let r = first_user_by (λ u. u.email) c.email w in
    let by_email = first_user-sessions (λ u. u.email) c.email w in
    elim (Result-cases r.0) [
      | inl (u, e) ↦
          elim (Bool-cases (not (str_eq u.display_name c.name) && not (str_eq c.name ""))) [
            | inl n ↦
                rw (e, n)
                  (user_update-sessions hash (record u { display_name = c.name }) r.1 ∙ by_email)
            | inr n ↦ rw (e, n) by_email
          ]
      | inr (x, e) ↦
          let q = first_user_by (λ u. u.username) c.username r.1 in
          let by_name = first_user-sessions (λ u. u.username) c.username r.1 ∙ by_email in
          elim (Result-cases q.0) [
            | inl (u, d) ↦
                rw (e, d) (user_update-sessions hash (renamed c (readdressed c u)) q.1 ∙ by_name)
            | inr (y, d) ↦
                rw (e, d)
                  (create_coder_user-sessions hash config bonus drawn oauth_password c q.1
                    ∙ by_name)
          ]
    ]
