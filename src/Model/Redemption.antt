-- ===== src/Model/Redemption.antt =====
-- Redeeming a code (model/redemption.go). `helper.GetTimestamp()` is the world's clock. The log
-- entry that follows a success is left out.
pub mod Once
use new_api_blues.Prelude.{
  ℕ, ℤ, ◌+ℤ◌, String, str_eq, Option, none, some, List, [], ◌∷◌, ◌==◌, if◌then◌else◌,
}
use new_api_blues.Model.Store.{
  M, World, User, throw, Redemption, Result, ok, err, message, get, modify, return, attempt,
  statement, write_user, update_rows, ◌>>=◌, ◌>>◌,
}

abbrev pub redemption_code_status_enabled : ℕ
redemption_code_status_enabled = 1

abbrev pub redemption_code_status_used : ℕ
redemption_code_status_used = 3

-- DB.Transaction: where the block or the commit fails, nothing of it is kept.
abbrev pub rolled_back : World → World → World
rolled_back before after = record before { faults = after.faults }

abbrev pub committed : {A : Type 0} → World → A → Result (Unit {0}) × World → Result A × World
committed before a (err e, w) = (err e, rolled_back before w)
committed before a (ok _, w) = (ok a, w)

abbrev pub commit : {A : Type 0} → World → Result A × World → Result A × World
commit before (err e, w) = (err e, rolled_back before w)
commit before (ok a, w) = committed before a (statement w)

unfoldable pub transaction : {A : Type 0} → M A → M A
transaction m w = commit w (m w)

-- SELECT … WHERE key = ? LIMIT 1
unfoldable pub find_code : String → List Redemption → Option Redemption
find_code key [] = none
find_code key (r ∷ rs) = if str_eq r.key key then some r else find_code key rs

abbrev pub redemption_id_of : Redemption → ℕ
redemption_id_of r = r.id

-- tx.Save: every column of the row with this primary key.
unfoldable pub save_redemption : Redemption → M (Unit {0})
save_redemption r = do
  statement
  modify λ w. record w { redemptions = update_rows redemption_id_of r.id (λ _. r) w.redemptions }

-- The redemption once it is used.
abbrev pub used_at : ℤ → Redemption → Redemption
used_at time r = record r { status = redemption_code_status_used; redeemed_time = time }

unfoldable pub redeem_block : String → ℕ → M ℤ
redeem_block key user_id = do
  found ← attempt statement
  w ← get
  elim found [
    | err e ↦ throw (message "Invalid redemption code")
    | ok _ ↦ elim (find_code key w.redemptions) [
      | none ↦ throw (message "Invalid redemption code")
      | some r ↦
          if r.status == redemption_code_status_enabled
          then (do
            write_user user_id (λ u. record u { quota = u.quota +ℤ r.quota })
            save_redemption (used_at w.now r)
            return r.quota)
          else throw (message "This redemption code has been used")
    ]
  ]

unfoldable pub redeem : String → ℕ → M ℤ
redeem key user_id =
    if str_eq key ""
    then throw (message "Redemption code not provided")
    else if user_id == 0
    then throw (message "Invalid user id")
    else (do
      r ← attempt (transaction (redeem_block key user_id))
      elim r [ err e ↦ throw (message "Redemption failed") | ok quota ↦ return quota ])
