-- ===== src/Model/VscodeSessions/Expiry.antt =====
-- The clean-up of expired sign-in sessions (model/vscode_auth_session.go), and the map it works
-- on, where a key stands once.
use new_api_blues.Prelude.{
  ℤ, String, str_eq, eq_iff, Bool, true, false, Option, none, some, inl, inr, List, [], ◌∷◌, ◌≡◌,
  refl, arith, sym, ap, ◌∙◌, if◌then◌else◌, lookup, Distinct, Option-cases, Bool-cases,
}
use new_api_blues.Model.Store.{World, AuthSession}
use new_api_blues.Model.VscodeSessions.{
  Sessions, delete, delete_all, expired, expired_ids, cleanup_expired,
}

pub lookup-delete :
    (gone asked : String) (m : Sessions)
    → lookup asked (delete gone m) ≡ (if str_eq gone asked then none else lookup asked m)
unfolding lookup delete
lookup-delete gone asked [] = ground arith
lookup-delete gone asked ((key, s) ∷ m) =
    ground (arith, lookup-delete gone asked m, eq_iff gone asked, eq_iff key asked, eq_iff key gone)

pub delete-Distinct : (gone : String) (m : Sessions) → Distinct m → Distinct (delete gone m)
unfolding delete Distinct
delete-Distinct gone [] h = h
delete-Distinct gone ((key, s) ∷ m) (h, hs) = elim (Bool-cases (str_eq key gone)) [
  | inl e ↦ rw e (delete-Distinct gone m hs)
  | inr e ↦ rw e (ground (arith, h, lookup-delete gone key m), delete-Distinct gone m hs)
]

holds : String → List String → Bool
holds id [] = false
holds id (x ∷ xs) = let rest = holds id xs in if str_eq x id then true else rest

lookup-delete_all :
    (asked : String) (ids : List String) (m : Sessions)
    → lookup asked (delete_all ids m) ≡ (if holds asked ids then none else lookup asked m)
unfolding delete_all holds
lookup-delete_all asked [] m = refl
lookup-delete_all asked (id ∷ ids) m =
    ground (arith, lookup-delete_all asked ids (delete id m), lookup-delete id asked m)

abbrev over : ℤ → Option AuthSession → Bool
over now none = false
over now (some s) = expired now s

holds-expired_ids :
    (asked : String) (now : ℤ) (m : Sessions)
    → Distinct m
    → holds asked (expired_ids now m) ≡ over now (lookup asked m)
unfolding holds expired_ids Distinct lookup
holds-expired_ids asked now [] h = refl
holds-expired_ids asked now ((key, s) ∷ m) (h, hs) = elim (Bool-cases (str_eq key asked)) [
  | inl e ↦ elim (Bool-cases (expired now s)) [
    | inl x ↦ rw (e, x, e) refl
    | inr x ↦
        rw (e, x)
          (holds-expired_ids asked now m hs
            ∙ ap (over now) (ap (λ k. lookup k m) (sym ((eq_iff key asked).0 e)) ∙ h))
  ]
  | inr e ↦ elim (Bool-cases (expired now s)) [
    | inl x ↦ rw (e, x, e) (holds-expired_ids asked now m hs)
    | inr x ↦ rw (e, x) (holds-expired_ids asked now m hs)
  ]
]

-- What the clean-up leaves of a session.
abbrev pub unless_over : ℤ → Option AuthSession → Option AuthSession
unless_over now none = none
unless_over now (some s) = if expired now s then none else some s

-- After CleanupExpiredVSCodeSessions a session is found if it was before and is not expired, and
-- unchanged; an expired one is not found. A key stands once in the map.
pub cleanup-expired :
    (id : String) (w : World)
    → Distinct w.auth_sessions
    → lookup id (cleanup_expired w).auth_sessions ≡ unless_over w.now (lookup id w.auth_sessions)
unfolding cleanup_expired
cleanup-expired id w h = elim (Option-cases (lookup id w.auth_sessions)) [
  | inl e ↦ ground (
    arith,
    e,
    lookup-delete_all id (expired_ids w.now w.auth_sessions) w.auth_sessions,
    holds-expired_ids id w.now w.auth_sessions h,
  )
  | inr (s, e) ↦ ground (
    arith,
    e,
    lookup-delete_all id (expired_ids w.now w.auth_sessions) w.auth_sessions,
    holds-expired_ids id w.now w.auth_sessions h,
  )
]
