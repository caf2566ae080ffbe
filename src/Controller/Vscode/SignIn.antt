-- ===== src/Controller/Vscode/SignIn.antt =====
-- What a sign-in session hands out, and how often (controller/vscode_auth.go).
use new_api_blues.Prelude.{
  ℕ, String, str_eq, eq_iff, false, none, some, [], ◌∷◌, ◌≡◌, refl, arith, ap, ◌∙◌, ◌==◌, ◌&&◌,
  lookup, insert, lookup-insert,
}
use new_api_blues.Model.Store.{World, User, Token, AuthSession, ok, statement_ok, write_token}
use new_api_blues.Model.Tokens.{token_update, find_token_of, find_token_of_wanted}
use new_api_blues.Model.VscodeSessions.{
  expired, get_session, found_session, store_session, delete_session,
  get_or_create_user_default_token, rename_token,
}
use new_api_blues.Model.VscodeSessions.Expiry.{lookup-delete}
use new_api_blues.Controller.Vscode.{
  refused, signed_in, get_vscode_auth_status, session_status, complete_vscode_auth, run_cleanup,
  run_picked, pick,
}

-- A session that is in the map and not over, with an id that is not empty.
abbrev pub Open : String → AuthSession → World → Type 0
Open id s w =
    (str_eq id "" ≡ false) × (lookup id w.auth_sessions ≡ some s) × (expired w.now s ≡ false)

get_session_lem :
    (id : String) (s : AuthSession) (w : World) → Open id s w → get_session id w ≡ (ok s, w)
unfolding get_session found_session
get_session_lem id s w (n, f, e) = rw (n, f, found_session, e) refl

poll_completed :
    (id : String) (s : AuthSession) (w : World)
    → Open id s w
    → s.status ≡ "completed"
    → get_vscode_auth_status id w ≡ (signed_in s, record w { auth_cleanups = id ∷ w.auth_cleanups })
unfolding get_vscode_auth_status session_status
poll_completed id s w (n, f, e) c = rw (n, get_session_lem id s w (n, f, e), e, c) refl

poll_missing :
    (id : String) (w : World)
    → str_eq id "" ≡ false
    → lookup id w.auth_sessions ≡ none
    → (get_vscode_auth_status id w).0 ≡ refused "Invalid or expired session"
unfolding get_vscode_auth_status get_session found_session
poll_missing id w n f = rw (n, f) refl

deleted :
    (id : String) (w : World)
    → str_eq id "" ≡ false
    → lookup id (delete_session id w).1.auth_sessions ≡ none
unfolding delete_session
deleted id w n = rw n (lookup-delete id id w.auth_sessions ∙ rw ((eq_iff id id).1 refl) refl)

gone :
    (id : String) (w : World)
    → str_eq id "" ≡ false
    → lookup id (run_cleanup 0 (record w { auth_cleanups = id ∷ w.auth_cleanups })).auth_sessions
      ≡ none
unfolding run_cleanup run_picked pick
gone id w n = deleted id w n

-- If the session of an id is completed and not over, a poll answers with it. A second poll that
-- comes before the goroutine started by the first has run is answered with it again; one that comes
-- after is refused.
pub status-twice :
    (id : String) (s : AuthSession) (w : World)
    → Open id s w
    → s.status ≡ "completed"
    → ((get_vscode_auth_status id w).0 ≡ signed_in s)
      × ((get_vscode_auth_status id (get_vscode_auth_status id w).1).0 ≡ signed_in s)
      × ((get_vscode_auth_status id (run_cleanup 0 (get_vscode_auth_status id w).1)).0
          ≡ refused "Invalid or expired session")
unfolding run_cleanup run_picked pick delete_session
status-twice id s w (n, f, e) c = (
  ap (λ r. r.0) (poll_completed id s w (n, f, e) c),
  rw (poll_completed id s w (n, f, e) c) (
      ap (λ r. r.0)
        (poll_completed id s (record w { auth_cleanups = id ∷ w.auth_cleanups }) (n, f, e) c)),
  rw (poll_completed id s w (n, f, e) c) (
      poll_missing id (run_cleanup 0 (record w { auth_cleanups = id ∷ w.auth_cleanups })) n
        (gone id w n)),
)

-- The session that a user completes with a token.
abbrev pub completed_by : User → Token → AuthSession → AuthSession
completed_by u t s = record s {
  status = "completed";
  api_token = t.key;
  token_name = "VSCode Integration";
  user_id = u.id;
  username = u.username;
  display_name = u.display_name;
}

default_token_lem :
    (user_id : ℕ) (t : Token) (w : World)
    → w.faults ≡ []
    → (user_id == 0) ≡ false
    → find_token_of (λ x. x.user_id == user_id && str_eq x.name "default") w.tokens ≡ some t
    → (v : World) × (get_or_create_user_default_token user_id "VSCode Integration" w
        ≡ (ok (record t { name = "VSCode Integration" }), v))
      × (v.auth_sessions ≡ w.auth_sessions)
      × (v.now ≡ w.now)
unfolding get_or_create_user_default_token rename_token token_update write_token
default_token_lem user_id t w h n e =
    let wanted =
      find_token_of_wanted (λ x. x.user_id == user_id && str_eq x.name "default") w.tokens t e in
    let name : t.name ≡ "default" = (eq_iff t.name "default").0 ground (arith, wanted) in
    let renamed = record t { name = "VSCode Integration" } in
    (
      (token_update renamed w).1,
      rw (n, statement_ok w h) ground
          (arith, e, ap (λ x. str_eq x "VSCode Integration") name, statement_ok w h),
      rw (statement_ok w h) refl,
      rw (statement_ok w h) refl,
    )

-- If a session is in the map under its own id and not over, the user is not 0 and has a token
-- named "default", and no statement fails, then the completion of the session by that user
-- succeeds, and a poll is answered with the key of that token and the user's names.
pub complete-status :
    (s : AuthSession) (u : User) (t : Token) (w : World)
    → Open s.id s w
    → w.faults ≡ []
    → (u.id == 0) ≡ false
    → find_token_of (λ x. x.user_id == u.id && str_eq x.name "default") w.tokens ≡ some t
    → ((complete_vscode_auth u s.id w).0 ≡ ok tt)
      × ((get_vscode_auth_status s.id (complete_vscode_auth u s.id w).1).0
          ≡ signed_in (completed_by u t s))
unfolding complete_vscode_auth store_session
complete-status s u t w (n, f, e) h z d =
    let (v, g, sessions, now) = default_token_lem u.id t w h z d in
    let done = record v { auth_sessions = insert s.id (completed_by u t s) v.auth_sessions } in
    (
      rw (get_session_lem s.id s w (n, f, e), g, n) refl,
      rw (get_session_lem s.id s w (n, f, e), g, n)
          (ap (λ r. r.0)
            (poll_completed s.id (completed_by u t s) done
              (
                n,
                lookup-insert s.id s.id (completed_by u t s) v.auth_sessions
                    ∙ rw ((eq_iff s.id s.id).1 refl) refl,
                rw now e,
              )
              refl)),
    )
