-- ===== src/Controller/Vscode/Quiet.antt =====
-- A sign-in session that waits goes on waiting, whatever happens to the other sessions
-- (controller/vscode_auth.go, controller/user.go, model/vscode_auth_session.go).
use new_api_blues.Prelude.{
  ℕ, String, str_eq, eq_iff, Bool, true, false, not, ◌&&◌, Option, none, some, inl, inr, List, [],
  ◌∷◌, ◌==◌, ◌≡◌, refl, arith, sym, ap, subst, if◌then◌else◌, lookup, insert, lookup-insert,
  Bool-cases, Option-cases,
}
use new_api_blues.Model.Store.{
  World, User, Token, AuthSession, Result, ok, err, message, record_not_found, database,
  Result-cases, statement_cases, write_token,
}
use new_api_blues.Model.Tokens.{token_update, find_token_of}
use new_api_blues.Model.VscodeSessions.{
  Sessions, delete, delete_all, expired, get_session, found_session, store_session, delete_session,
  pending_session, get_or_create_user_default_token, rename_token, any_token,
}
use new_api_blues.Model.VscodeSessions.Expiry.{lookup-delete}
use new_api_blues.Controller.Vscode.{
  Answer, answer_of, AuthInitRequest, init_vscode_auth, init_coder_auth, get_vscode_auth_status,
  session_status, complete_vscode_auth, run_cleanup, run_picked, pick,
}

-- A session of the map stands under its own id, and the session of one id waits for a sign-in.
unfoldable pub keyed : Sessions → Bool
keyed [] = true
keyed ((key, s) ∷ m) = let rest = keyed m in str_eq s.id key && rest

abbrev pub waits : Option AuthSession → Bool
waits none = true
waits (some s) = str_eq s.status "pending"

abbrev pub Quiet : String → Sessions → Type 0
Quiet id m = (keyed m ≡ true) × (waits (lookup id m) ≡ true)

pub keyed-lookup :
    (key : String) (m : Sessions) (s : AuthSession)
    → keyed m ≡ true
    → lookup key m ≡ some s
    → s.id ≡ key
unfolding keyed lookup
keyed-lookup key [] s k e = ground (arith, e)
keyed-lookup key ((at, t) ∷ m) s k e = elim (Bool-cases (str_eq at key)) [
  | inl a ↦ ground (arith, k, e, a, eq_iff at key, eq_iff t.id at)
  | inr a ↦ keyed-lookup key m s ground (arith, k) ground (arith, e, a)
]

pub keyed-insert :
    (s : AuthSession) (m : Sessions) → keyed m ≡ true → keyed (insert s.id s m) ≡ true
unfolding keyed insert
keyed-insert s [] k = ground (arith, eq_iff s.id s.id)
keyed-insert s ((at, t) ∷ m) k = ground (arith, k, eq_iff s.id s.id, keyed-insert s m)

keyed-delete : (id : String) (m : Sessions) → keyed m ≡ true → keyed (delete id m) ≡ true
unfolding keyed delete
keyed-delete id [] k = refl
keyed-delete id ((at, t) ∷ m) k = ground (arith, k, keyed-delete id m)

pub Quiet-delete : (id gone : String) (m : Sessions) → Quiet id m → Quiet id (delete gone m)
Quiet-delete id gone m (k, q) = (keyed-delete gone m k, ground (arith, q, lookup-delete gone id m))

pub Quiet-delete_all :
    (id : String) (ids : List String) (m : Sessions) → Quiet id m → Quiet id (delete_all ids m)
unfolding delete_all
Quiet-delete_all id [] m q = q
Quiet-delete_all id (gone ∷ ids) m q =
    Quiet-delete_all id ids (delete gone m) (Quiet-delete id gone m q)

-- A session that is stored is for another id, or waits.
pub Quiet-store :
    (id : String) (s : AuthSession) (w : World)
    → (str_eq s.id id && not (str_eq s.status "pending")) ≡ false
    → Quiet id w.auth_sessions
    → Quiet id (store_session s w).1.auth_sessions
unfolding store_session
Quiet-store id s w n (k, q) = elim (Bool-cases (str_eq s.id "")) [
  | inl e ↦ rw e (k, q)
  | inr e ↦ rw e (
    keyed-insert s w.auth_sessions k,
    ground (arith, n, q, lookup-insert s.id id s w.auth_sessions),
  )
]

-- A look-up of a session leaves the map as it is.
pub get_session-sessions :
    (id : String) (w : World) → (get_session id w).1.auth_sessions ≡ w.auth_sessions
unfolding get_session found_session
get_session-sessions id w = elim (Bool-cases (str_eq id "")) [
  | inl e ↦ rw e refl
  | inr e ↦ elim (Option-cases (lookup id w.auth_sessions)) [
    | inl n ↦ rw (e, n, found_session) refl
    | inr (s, f) ↦ elim (Bool-cases (expired w.now s)) [
      | inl x ↦ rw (e, f, found_session, x) refl
      | inr x ↦ rw (e, f, found_session, x) refl
    ]
  ]
]

rename-sessions :
    (name : String) (t : Token) (w : World)
    → (rename_token name t w).1.auth_sessions ≡ w.auth_sessions
unfolding rename_token token_update write_token
rename-sessions name t w =
    let (fs, outcome) = statement_cases w in
    elim (Bool-cases (str_eq t.name name)) [
      | inl e ↦ rw e refl
      | inr e ↦ elim outcome [ inl s ↦ rw (e, s) refl | inr s ↦ rw (e, s) refl ]
    ]

any-sessions : (user_id : ℕ) (w : World) → (any_token user_id w).1.auth_sessions ≡ w.auth_sessions
unfolding any_token
any-sessions user_id w =
    let (fs, outcome) = statement_cases w in
    elim outcome [
      | inl s ↦ rw s refl
      | inr s ↦ elim (Option-cases (find_token_of (λ t. t.user_id == user_id) w.tokens)) [
        | inl e ↦ ground (arith, s, e)
        | inr (t, e) ↦ ground (arith, s, e)
      ]
    ]

pub default-sessions :
    (user_id : ℕ) (name : String) (w : World)
    → (get_or_create_user_default_token user_id name w).1.auth_sessions ≡ w.auth_sessions
unfolding get_or_create_user_default_token
default-sessions user_id name w =
    let (fs, outcome) = statement_cases w in
    let v : World = record w { faults = fs } in
    elim (Bool-cases (user_id == 0)) [
      | inl z ↦ rw z refl
      | inr z ↦ elim outcome [
        | inl s ↦ rw (z, s) refl
        | inr s ↦
            elim (Option-cases
              (find_token_of (λ t. t.user_id == user_id && str_eq t.name "default") w.tokens)) [
                | inl e ↦ ground (arith, z, s, e, any-sessions user_id v)
                | inr (t, e) ↦ ground (arith, z, s, e, rename-sessions name t v)
              ]
      ]
    ]

pub get_session-found :
    (id : String) (s : AuthSession) (w : World)
    → (get_session id w).0 ≡ ok s
    → lookup id w.auth_sessions ≡ some s
unfolding get_session found_session
get_session-found id s w g = elim (Bool-cases (str_eq id "")) [
  | inl e ↦ ground (arith, g, e)
  | inr e ↦ elim (Option-cases (lookup id w.auth_sessions)) [
    | inl n ↦ ground (arith, g, e, n)
    | inr (t, f) ↦ elim (Bool-cases (expired w.now t)) [
      | inl x ↦ ground (arith, g, e, f, x)
      | inr x ↦ ground (arith, g, e, f, x)
    ]
  ]
]

Quiet-deleted :
    (id gone : String) (w : World)
    → Quiet id w.auth_sessions
    → Quiet id (delete_session gone w).1.auth_sessions
unfolding delete_session
Quiet-deleted id gone w q = elim (Bool-cases (str_eq gone "")) [
  | inl e ↦ rw e q
  | inr e ↦ rw e (Quiet-delete id gone w.auth_sessions q)
]

pub answer_world : (r : Result Answer × World) → (answer_of r).1 ≡ r.1
answer_world (ok a, w) = refl
answer_world (err (message s), w) = refl
answer_world (err record_not_found, w) = refl
answer_world (err database, w) = refl

Quiet-status :
    (id other : String) (s : AuthSession) (w : World)
    → Quiet id w.auth_sessions
    → Quiet id (session_status other s w).1.auth_sessions
unfolding session_status
Quiet-status id other s w q = elim (Bool-cases (expired w.now s)) [
  | inl x ↦ rw x (Quiet-deleted id other w q)
  | inr x ↦ elim (Bool-cases (str_eq s.status "pending")) [
    | inl p ↦ rw (x, p) q
    | inr p ↦ elim (Bool-cases (str_eq s.status "completed")) [
      | inl c ↦ rw (x, p, c) q
      | inr c ↦ rw (x, p, c) q
    ]
  ]
]

pub Quiet-complete :
    (id other : String) (u : User) (w : World)
    → str_eq other id ≡ false
    → Quiet id w.auth_sessions
    → Quiet id (complete_vscode_auth u other w).1.auth_sessions
unfolding complete_vscode_auth
Quiet-complete id other u w n q =
    let r = get_session other w in
    let after : Quiet id r.1.auth_sessions =
      subst (Quiet id) (sym (get_session-sessions other w)) q in
    elim (Result-cases r.0) [
      | inr (x, e) ↦ rw e after
      | inl (s, e) ↦
          let d = get_or_create_user_default_token u.id "VSCode Integration" r.1 in
          let kept : Quiet id d.1.auth_sessions =
            subst (Quiet id) (sym (default-sessions u.id "VSCode Integration" r.1)) after in
          let own : s.id ≡ other =
            keyed-lookup other w.auth_sessions s q.0 (get_session-found other s w e) in
          elim (Result-cases d.0) [
            | inr (x, f) ↦ rw (e, f) kept
            | inl (t, f) ↦
                rw (e, f)
                  (Quiet-store id
                    (record s {
                      status = "completed";
                      api_token = t.key;
                      token_name = t.name;
                      user_id = u.id;
                      username = u.username;
                      display_name = u.display_name;
                    })
                    d.1 ground (arith, n, own, ap (λ k. str_eq k id) own) kept)
          ]
    ]

pub Quiet-poll :
    (id other : String) (w : World)
    → Quiet id w.auth_sessions
    → Quiet id (get_vscode_auth_status other w).1.auth_sessions
unfolding get_vscode_auth_status
Quiet-poll id other w q =
    let r = get_session other w in
    let after : Quiet id r.1.auth_sessions =
      subst (Quiet id) (sym (get_session-sessions other w)) q in
    elim (Bool-cases (str_eq other "")) [
      | inl e ↦ rw e q
      | inr e ↦ elim (Result-cases r.0) [
        | inr (x, f) ↦ rw (e, f) after
        | inl (s, f) ↦
            rw (e, f, answer_world (session_status other s r.1)) (Quiet-status id other s r.1 after)
      ]
    ]

pub Quiet-init :
    (id drawn : String) (req : Option AuthInitRequest) (w : World)
    → Quiet id w.auth_sessions
    → Quiet id (init_vscode_auth drawn req w).1.auth_sessions
unfolding init_vscode_auth init_coder_auth pending_session
Quiet-init id drawn none w q = q
Quiet-init id drawn (some req) w q =
    let provider = if str_eq req.provider "" then "local" else req.provider in
    let s = pending_session drawn req.client_name req.version "local" "" w.now in
    let after : Quiet id (store_session s w).1.auth_sessions = Quiet-store id s w ground arith q in
    elim (Bool-cases (str_eq provider "coder")) [
      | inl c ↦ elim (Bool-cases (str_eq req.coder_url "")) [
        | inl d ↦ rw (c, d) q
        | inr d ↦ rw (c, d) q
      ]
      | inr c ↦ elim (Bool-cases (str_eq provider "local")) [
        | inr l ↦ rw (c, l) q
        | inl l ↦ elim (Result-cases (store_session s w).0) [
          | inl (x, e) ↦ rw (c, l, e) after
          | inr (x, e) ↦ rw (c, l, e) after
        ]
      ]
    ]

pub Quiet-run :
    (id : String) (n : ℕ) (w : World)
    → Quiet id w.auth_sessions
    → Quiet id (run_cleanup n w).auth_sessions
unfolding run_cleanup run_picked
Quiet-run id n w q = elim (Option-cases (pick n w.auth_cleanups)) [
  | inl e ↦ rw (e, run_picked) q
  | inr (x, e) ↦ rw (e, run_picked) (Quiet-deleted id x.0 (record w { auth_cleanups = x.1 }) q)
]
