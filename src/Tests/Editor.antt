-- ===== src/Tests/Editor.antt =====
-- The theorems on the sign-in sessions of the editor plugin at concrete inputs.
use new_api_blues.Prelude.{
  String, false, pos, List, str_eq, true, some, [], ◌∷◌, ◌≡◌, ◌≢◌, refl, arith, lookup, Distinct,
  ◌==◌, ◌&&◌,
}
use new_api_blues.Model.Store.{World, Token, AuthSession, ok, User, Result, user_row, find_row}
use new_api_blues.Model.VscodeSessions.{cleanup_expired}
use new_api_blues.Model.VscodeSessions.Expiry.{cleanup-expired, unless_over}
use new_api_blues.Model.Tokens.{find_token_of}
use new_api_blues.Controller.Vscode.{
  refused, signed_in, AuthInitRequest, get_vscode_auth_status, complete_vscode_auth, run_cleanup,
  coder_user, find_or_create_coder_user,
}
use new_api_blues.Controller.Vscode.SignIn.{status-twice, complete-status, completed_by}
use new_api_blues.Controller.Vscode.History.{
  Event, start, start_coder, callback, poll, sign_in, sweep, no_sign_in, happen_all,
  history-no_token,
}
use new_api_blues.Model.Accounts.{Bonus, Drawn, find_user_by, conflicts, violates}
use new_api_blues.Model.Accounts.Ids.{IdsInOrder, InOrder}
use new_api_blues.Controller.Vscode.Rehash.{find_or_create_coder_user-rehash}
use new_api_blues.Tests.Data.{direct, alice, key_one, world}

abbrev session_one : AuthSession
session_one = record {
  id = "s1";
  status = "pending";
  api_token = "";
  token_name = "";
  user_id = 0;
  username = "";
  display_name = "";
  client_name = "VSCode Extension";
  version = "1.0.0";
  created_time = pos 900;
  expires_at = pos 1500;
  provider = "local";
  provider_url = "";
  external_token = "";
  external_user = "";
}

abbrev key_default : Token
key_default = record key_one { name = "default" }

abbrev waiting : World
waiting = record world { auth_sessions = ("s1", session_one) ∷ []; tokens = key_default ∷ [] }

abbrev finished : AuthSession
finished = record session_one { status = "completed"; api_token = "abc"; user_id = 7 }

abbrev ready : World
ready = record world { auth_sessions = ("s1", finished) ∷ [] }

waiting_found : lookup "s1" waiting.auth_sessions ≡ some session_one
unfolding lookup
waiting_found = refl

ready_found : lookup "s1" ready.auth_sessions ≡ some finished
unfolding lookup
ready_found = refl

default_found :
    find_token_of (λ x. x.user_id == 7 && str_eq x.name "default") waiting.tokens ≡ some key_default
unfolding find_token_of
default_found = refl

waiting-Distinct : Distinct waiting.auth_sessions
unfolding Distinct lookup
waiting-Distinct = (refl, tt)

cleanup-expired_example :
    lookup "s1" (cleanup_expired waiting).auth_sessions
    ≡ unless_over (pos 1000) (lookup "s1" waiting.auth_sessions)
cleanup-expired_example = cleanup-expired "s1" waiting waiting-Distinct

status-twice_example :
    ((get_vscode_auth_status "s1" ready).0 ≡ signed_in finished)
    × ((get_vscode_auth_status "s1" (get_vscode_auth_status "s1" ready).1).0 ≡ signed_in finished)
    × ((get_vscode_auth_status "s1" (run_cleanup 0 (get_vscode_auth_status "s1" ready).1)).0
        ≡ refused "Invalid or expired session")
status-twice_example = status-twice "s1" finished ready (refl, ready_found, refl) refl

complete-status_example :
    ((complete_vscode_auth alice "s1" waiting).0 ≡ ok tt)
    × ((get_vscode_auth_status "s1" (complete_vscode_auth alice "s1" waiting).1).0
        ≡ signed_in (completed_by alice key_default session_one))
complete-status_example =
    complete-status session_one alice key_default waiting (refl, waiting_found, refl) refl refl
      default_found

abbrev twice : String → Result String
twice p = ok "h2"

abbrev no_bonus : Bonus
no_bonus = record {
  quota_for_new_user = pos 0;
  quota_for_invitee = pos 0;
  quota_for_inviter = pos 0;
}

abbrev no_draws : Drawn
no_draws = record { uuid = "u"; aff_code = "c"; key = "k" }

abbrev asked : AuthInitRequest
asked = record { client_name = "ed"; version = ""; provider = ""; coder_url = "" }

abbrev story : List Event
story =
    start "s1" (some asked)
    ∷ start "s2" (some asked)
    ∷ start_coder "s3" (some (record asked { coder_url = "https://c" }))
    ∷ sign_in alice "s2"
    ∷ callback no_draws "oauth2_user_1" "" "s3"
    ∷ poll "s1"
    ∷ sweep
    ∷ []

story_quiet : no_sign_in "s1" story ≡ true
unfolding no_sign_in
story_quiet = refl

history-no_token_example :
    (get_vscode_auth_status "s1" (happen_all twice direct no_bonus story world)).0
    ≢ signed_in finished
history-no_token_example =
    history-no_token twice direct no_bonus "s1" story world finished refl story_quiet

abbrev dana : User
dana = record alice { email = "user@coder.example.com"; password = "h1" }

abbrev office : World
office = record world { users = dana ∷ [] }

dana_found : find_user_by (λ x. x.email) coder_user.email office.users ≡ some dana
unfolding find_user_by
dana_found = refl

dana_alone :
    violates (record dana { display_name = "Coder User"; password = "h2" }) office.users ≡ false
unfolding violates conflicts find_row
dana_alone = refl

office-InOrder : IdsInOrder office
unfolding InOrder
office-InOrder = ground arith

find_or_create_coder_user-rehash_example :
    user_row
      (find_or_create_coder_user twice direct no_bonus no_draws "oauth2_user_1" coder_user office).1
      7
    ≡ some (record dana { display_name = "Coder User"; password = "h2" })
find_or_create_coder_user-rehash_example =
    find_or_create_coder_user-rehash twice direct no_bonus no_draws "oauth2_user_1" coder_user dana
      "h2" office refl office-InOrder dana_found refl refl refl dana_alone
