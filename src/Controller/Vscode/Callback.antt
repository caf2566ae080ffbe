-- ===== src/Controller/Vscode/Callback.antt =====
-- The sign-in through Coder and the sessions of others (controller/coder_auth.go).
use new_api_blues.Prelude.{
  String, str_eq, true, false, not, ◌&&◌, Option, none, some, inl, inr, List, [], ◌∷◌, ◌≡◌, refl,
  arith, sym, subst, ◌∙◌, if◌then◌else◌, lookup, insert, lookup-insert, Bool-cases, Option-cases,
}
use new_api_blues.Model.Store.{World, AuthSession, Result, Result-cases}
use new_api_blues.Model.Quota.{Config}
use new_api_blues.Model.Accounts.{Bonus, Drawn}
use new_api_blues.Model.VscodeSessions.{
  Value, text, number, expired, get_session, set_text, apply_update, apply_updates, update_found,
  update_session, store_session, pending_session, create_external_provider_session,
  get_or_create_user_default_token,
}
use new_api_blues.Controller.Vscode.{
  AuthInitRequest, init_coder_auth, coder_user, find_or_create_coder_user, coder_auth_callback,
}
use new_api_blues.Controller.Vscode.Accounts.{find_or_create_coder_user-sessions}
use new_api_blues.Controller.Vscode.Quiet.{
  Quiet, keyed, keyed-lookup, keyed-insert, Quiet-delete, Quiet-store, get_session-sessions,
  default-sessions,
}

set_text-id : (key value : String) (s : AuthSession) → (set_text key value s).id ≡ s.id
unfolding set_text
set_text-id key value s = ground arith

apply_update-id : (u : String × Value) (s : AuthSession) → (apply_update u s).id ≡ s.id
unfolding apply_update
apply_update-id (key, text value) s = set_text-id key value s
apply_update-id (key, number value) s = ground arith

apply_updates-id :
    (changes : List (String × Value)) (s : AuthSession) → (apply_updates changes s).id ≡ s.id
unfolding apply_updates
apply_updates-id [] s = refl
apply_updates-id (u ∷ us) s = apply_updates-id us (apply_update u s) ∙ apply_update-id u s

-- An update of another session.
Quiet-update :
    (id other : String) (changes : List (String × Value)) (w : World)
    → str_eq other id ≡ false
    → Quiet id w.auth_sessions
    → Quiet id (update_session other changes w).1.auth_sessions
unfolding update_session update_found
Quiet-update id other changes w n (k, q) = elim (Bool-cases (str_eq other "")) [
  | inl e ↦ rw e (k, q)
  | inr e ↦ elim (Option-cases (lookup other w.auth_sessions)) [
    | inl f ↦ rw (e, f) (k, q)
    | inr (s, f) ↦ elim (Bool-cases (expired w.now s)) [
      | inl x ↦ rw (e, f, x) (Quiet-delete id other w.auth_sessions (k, q))
      | inr x ↦
          let t = apply_updates changes s in
          let own : t.id ≡ other =
            apply_updates-id changes s ∙ keyed-lookup other w.auth_sessions s k f in
          rw (e, f, x)
            (
              subst (λ key. keyed (insert key t w.auth_sessions) ≡ true) own
                  (keyed-insert t w.auth_sessions k),
              rw (lookup-insert other id t w.auth_sessions, n) q,
            )
    ]
  ]
]

pub Quiet-init_coder :
    (id drawn : String) (req : Option AuthInitRequest) (w : World)
    → Quiet id w.auth_sessions
    → Quiet id (init_coder_auth drawn req w).1.auth_sessions
unfolding init_coder_auth create_external_provider_session pending_session
Quiet-init_coder id drawn none w q = q
Quiet-init_coder id drawn (some req) w q =
    let provider = if str_eq req.provider "" then "github" else req.provider in
    let s = pending_session drawn req.client_name req.version "coder" req.coder_url w.now in
    let after : Quiet id (store_session s w).1.auth_sessions = Quiet-store id s w ground arith q in
    elim (Bool-cases (str_eq req.coder_url "")) [
      | inl c ↦ rw c q
      | inr c ↦ elim (Bool-cases (not (str_eq provider "github") && not (str_eq provider "oidc"))) [
        | inl d ↦ rw (c, d) q
        | inr d ↦ elim (Result-cases (store_session s w).0) [
          | inl (x, e) ↦ rw (c, d, e) after
          | inr (x, e) ↦ rw (c, d, e) after
        ]
      ]
    ]

module _ (hash : String → Result String) (config : Config) (bonus : Bonus) (drawn : Drawn) where
  -- CoderAuthCallback for another session.
  pub Quiet-callback :
      (id oauth_password external_user other : String) (w : World)
      → str_eq other id ≡ false
      → Quiet id w.auth_sessions
      → Quiet id
          (coder_auth_callback hash config bonus drawn oauth_password external_user other
            w).1.auth_sessions
  unfolding coder_auth_callback
  Quiet-callback id oauth_password external_user other w n q =
      let r = get_session other w in
      let read = subst (Quiet id) (sym (get_session-sessions other w)) q in
      let made = find_or_create_coder_user hash config bonus drawn oauth_password coder_user r.1 in
      let after : Quiet id made.1.auth_sessions =
        subst (Quiet id)
          (sym (
            find_or_create_coder_user-sessions hash config bonus drawn oauth_password coder_user
              r.1))
          read in
      elim (Bool-cases (str_eq other "")) [
        | inl e ↦ rw e q
        | inr e ↦ elim (Result-cases r.0) [
          | inr (x, f) ↦ rw (e, f) read
          | inl (s, f) ↦ elim (Bool-cases (str_eq s.provider "coder")) [
            | inr p ↦ rw (e, f, p) read
            | inl p ↦ elim (Result-cases made.0) [
              | inr (x, g) ↦ rw (e, f, p, g) after
              | inl (u, g) ↦
                  let given = get_or_create_user_default_token u.id "Coder Integration" made.1 in
                  let kept : Quiet id given.1.auth_sessions =
                    subst (Quiet id) (sym (default-sessions u.id "Coder Integration" made.1))
                      after in
                  elim (Result-cases given.0) [
                    | inr (x, h) ↦ rw (e, f, p, g, h) kept
                    | inl (t, h) ↦
                        let changes =
                          ("status", text "completed")
                          ∷ ("api_token", text t.key)
                          ∷ ("token_name", text t.name)
                          ∷ ("user_id", number u.id)
                          ∷ ("username", text u.username)
                          ∷ ("display_name", text u.display_name)
                          ∷ ("external_user", text external_user)
                          ∷ [] in
                        let last = Quiet-update id other changes given.1 n kept in
                        elim (Result-cases (update_session other changes given.1).0) [
                          | inr (x, k) ↦ rw (e, f, p, g, h, k) last
                          | inl (x, k) ↦ rw (e, f, p, g, h, k) last
                        ]
                  ]
            ]
          ]
        ]
      ]
