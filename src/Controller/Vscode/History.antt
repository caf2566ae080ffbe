-- ===== src/Controller/Vscode/History.antt =====
-- Histories of the editor plugin's sign-in: no poll gives out the token of a session that nobody
-- signed in to (controller/vscode_auth.go, controller/user.go, model/vscode_auth_session.go).
use new_api_blues.Prelude.{
  ℕ, ℤ, String, str_eq, Bool, true, false, not, ◌&&◌, Option, inl, inr, List, [], ◌∷◌, ◌≡◌, ◌≢◌,
  refl, arith, sym, subst, lookup, Bool-cases,
}
use new_api_blues.Model.Store.{World, User, AuthSession, Result, Result-cases}
use new_api_blues.Model.Quota.{Config}
use new_api_blues.Model.Accounts.{Bonus, Drawn}
use new_api_blues.Model.VscodeSessions.{expired, expired_ids, cleanup_expired, get_session}
use new_api_blues.Controller.Vscode.{
  signed_in, AuthInitRequest, init_vscode_auth, get_vscode_auth_status, session_status,
  complete_vscode_auth, run_cleanup, init_coder_auth, coder_auth_callback,
}
use new_api_blues.Controller.Vscode.Callback.{Quiet-init_coder, Quiet-callback}
use new_api_blues.Controller.Vscode.Quiet.{
  Quiet, keyed, waits, Quiet-complete, Quiet-poll, Quiet-init, Quiet-run, Quiet-delete_all,
  get_session-found,
}

-- What happens to the sessions: a client starts one of either kind or polls, a user signs in to
-- one, the callback for Coder is called, a goroutine deletes one, the clean-up routine runs, or
-- time passes.
pub data Event : Type 0 where
  start : (drawn : String) → Option AuthInitRequest → Event
  start_coder : (drawn : String) → Option AuthInitRequest → Event
  callback : (drawn : Drawn) (oauth_password external_user id : String) → Event
  poll : String → Event
  sign_in : User → String → Event
  cleanup : ℕ → Event
  sweep : Event
  wait_until : ℤ → Event

module _ (hash : String → Result String) (config : Config) (bonus : Bonus) where
  unfoldable pub happen : Event → World → World
  happen (start drawn req) w = (init_vscode_auth drawn req w).1
  happen (start_coder drawn req) w = (init_coder_auth drawn req w).1
  happen (callback drawn oauth_password external_user id) w =
      (coder_auth_callback hash config bonus drawn oauth_password external_user id w).1
  happen (poll id) w = (get_vscode_auth_status id w).1
  happen (sign_in u id) w = (complete_vscode_auth u id w).1
  happen (cleanup n) w = run_cleanup n w
  happen sweep w = cleanup_expired w
  happen (wait_until t) w = record w { now = t }

  unfoldable pub happen_all : List Event → World → World
  happen_all [] w = w
  happen_all (e ∷ es) w = happen_all es (happen e w)

-- Whether nobody signs in to a session and the callback is not called for it.
abbrev pub leaves_alone : String → Event → Bool
leaves_alone id (sign_in u other) = not (str_eq other id)
leaves_alone id (callback _ _ _ other) = not (str_eq other id)
leaves_alone id _ = true

unfoldable pub no_sign_in : String → List Event → Bool
no_sign_in id [] = true
no_sign_in id (e ∷ es) = let rest = no_sign_in id es in leaves_alone id e && rest

poll_waits :
    (id : String) (s : AuthSession) (w : World)
    → Quiet id w.auth_sessions
    → (get_vscode_auth_status id w).0 ≡ signed_in s
    → true ≡ false
unfolding get_vscode_auth_status session_status
poll_waits id s w (k, q) e = elim (Bool-cases (str_eq id "")) [
  | inl a ↦ ground (arith, e, a)
  | inr a ↦ elim (Result-cases (get_session id w).0) [
    | inr (x, f) ↦ ground (arith, e, a, f)
    | inl (t, f) ↦
        let p : str_eq t.status "pending" ≡ true =
          subst (λ o. waits o ≡ true) (get_session-found id t w f) q in
        elim (Bool-cases (expired (get_session id w).1.now t)) [
          | inl x ↦ ground (arith, e, a, f, x)
          | inr x ↦ ground (arith, e, a, f, x, p)
        ]
  ]
]

module _ (hash : String → Result String) (config : Config) (bonus : Bonus) where
  happen-Quiet :
      (id : String) (e : Event) (w : World)
      → leaves_alone id e ≡ true
      → Quiet id w.auth_sessions
      → Quiet id (happen hash config bonus e w).auth_sessions
  unfolding happen cleanup_expired
  happen-Quiet id (start drawn req) w n q = Quiet-init id drawn req w q
  happen-Quiet id (start_coder drawn req) w n q = Quiet-init_coder id drawn req w q
  happen-Quiet id (callback drawn oauth_password external_user other) w n q =
      Quiet-callback hash config bonus drawn id oauth_password external_user other w ground
        (arith, n) q
  happen-Quiet id (poll other) w n q = Quiet-poll id other w q
  happen-Quiet id (sign_in u other) w n q = Quiet-complete id other u w ground (arith, n) q
  happen-Quiet id (cleanup k) w n q = Quiet-run id k w q
  happen-Quiet id sweep w n q =
      Quiet-delete_all id (expired_ids w.now w.auth_sessions) w.auth_sessions q
  happen-Quiet id (wait_until t) w n q = q

  happen_all-Quiet :
      (id : String) (es : List Event) (w : World)
      → no_sign_in id es ≡ true
      → Quiet id w.auth_sessions
      → Quiet id (happen_all hash config bonus es w).auth_sessions
  unfolding happen_all no_sign_in
  happen_all-Quiet id [] w n q = q
  happen_all-Quiet id (e ∷ es) w n q =
      happen_all-Quiet id es (happen hash config bonus e w) ground (arith, n)
        (happen-Quiet id e w ground (arith, n) q)

  -- If there are no sessions at first, then after any sequence of starts of both kinds, polls,
  -- sign-ins, calls of Coder's callback, deletions, clean-ups and waiting, in which nobody signs in to
  -- the session of an id and the callback is not called for that id, a poll for that id is not
  -- answered with a token.
  pub history-no_token :
      (id : String) (es : List Event) (w : World) (s : AuthSession)
      → w.auth_sessions ≡ []
      → no_sign_in id es ≡ true
      → (get_vscode_auth_status id (happen_all hash config bonus es w)).0 ≢ signed_in s
  unfolding keyed lookup
  history-no_token id es w s h n e = ground (
    arith,
    poll_waits id s (happen_all hash config bonus es w)
        (happen_all-Quiet id es w n (subst (Quiet id) (sym h) (refl, refl))) e,
  )
