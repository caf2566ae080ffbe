-- ===== src/Tests/Ledger.antt =====
-- The theorems on quota and codes (model/) at concrete inputs.
use mathlib.Core.List.Perm
use new_api_blues.Prelude.{pos, neg, neg64, some, List, [], ◌∷◌, ◌≡◌, refl, arith, ◌⊎◌}
use new_api_blues.Model.Store.{World, Error, ok, err, write_user, token_row, statement, find_row}
use new_api_blues.Model.Batch.{batch_update, add_new_record, add_value, user_quota}
use new_api_blues.Model.Quota.{
  Config, pre_consume_token_quota, post_consume_token_quota, get_token_by_id, get_user_quota,
}
use new_api_blues.Model.Quota
use new_api_blues.Model.Balance.Account.{
  user_balance, token_remain, token_used, row_amount, balance, no_pending, plus,
}
use new_api_blues.Model.Balance.Calls.{Call, decrease_user, decrease_token, use_user}
use new_api_blues.Model.Balance.Refinement.{batched-refines-direct, run}
use new_api_blues.Model.Balance.Round.{batch_update-balance}
use new_api_blues.Model.Balance.Pending.{IsBounded}
use new_api_blues.Model.Settle.Refund.{pre_consume-refund}
use new_api_blues.Model.Settle.Post.{post_consume-balance}
use new_api_blues.Model.Redemption.{redeem, transaction, redeem_block, save_redemption, find_code}
use new_api_blues.Model.Redemption.Once.{redeem_cases, redeem-once, Kept, Redeemed}
use new_api_blues.Tests.Data.{key_one, world, direct, batched}

none_pending : IsBounded 0 no_pending
none_pending user_quota = tt
none_pending _ = tt

abbrev calls : List Call
calls = decrease_user 7 (pos 30) ∷ decrease_token 3 (pos 30) ∷ use_user 7 (pos 30) ∷ []

batched-refines-direct_example :
    row_amount (batch_update (λ m. m) (run batched calls world)).1 (user_balance 7)
    ≡ row_amount (run direct calls world) (user_balance 7)
batched-refines-direct_example =
    batched-refines-direct batched direct (λ m. m) calls world (user_balance 7) refl refl
      (λ m. Perm.refl m) refl refl (omega arith)

-- A world in which 30 are still to be taken from the user.
abbrev waiting : World
waiting = record world { pending = record no_pending { user_quota = (7, neg (pos 30)) ∷ [] } }

batch_update-balance_example :
    let w = waiting in
    let v = (batch_update (λ m. m) w).1 in
    (balance v (user_balance 7) ≡ balance w (user_balance 7))
    × (row_amount v (user_balance 7) ≡ balance w (user_balance 7))
    × (v.faults ≡ [])
batch_update-balance_example =
    batch_update-balance (λ m. m) (λ m. Perm.refl m) waiting (user_balance 7) refl

pre_consumed : (pre_consume_token_quota batched 3 (pos 50) world).0 ≡ ok tt
unfolding pre_consume_token_quota get_token_by_id get_user_quota statement find_row
    Quota.decrease_token_quota Quota.decrease_user_quota add_new_record add_value
pre_consumed = refl

key_found : token_row world 3 ≡ some key_one
unfolding find_row
key_found = refl

pre_consume-refund_example :
    let v = (pre_consume_token_quota batched 3 (pos 50) world).1 in
    (balance (post_consume_token_quota batched 3 (neg64 (pos 50)) v).1 (token_remain 3)
      ≡ balance world (token_remain 3))
    × ((post_consume_token_quota batched 3 (neg64 (pos 50)) v).0 ≡ ok tt)
pre_consume-refund_example =
    pre_consume-refund batched 3 50 0 world (token_remain 3) refl none_pending (omega arith)
      pre_consumed

post_consume-balance_example :
    let v = (post_consume_token_quota direct 3 (pos 40) world).1 in
    (balance v (user_balance 7) ≡ plus (balance world (user_balance 7)) (neg (pos 40)))
    × (balance v (token_remain 3) ≡ plus (balance world (token_remain 3)) (neg (pos 40)))
    × (balance v (token_used 3) ≡ plus (balance world (token_used 3)) (pos 40))
post_consume-balance_example =
    post_consume-balance direct 3 (pos 40) 0 world key_one refl none_pending (omega arith) refl
      key_found

redeem_cases_example :
    Kept world (redeem "gift" 7 world) ⊎ Redeemed "gift" 7 world (redeem "gift" 7 world)
redeem_cases_example = redeem_cases "gift" 7 world

redeem_gift : (redeem "gift" 7 world).0 ≡ ok (pos 100)
unfolding redeem transaction redeem_block save_redemption write_user statement find_code
redeem_gift = refl

redeem-once_example :
    let v = (redeem "gift" 7 world).1 in (e : Error) × ((redeem "gift" 9 v).0 ≡ err e)
redeem-once_example = redeem-once "gift" 7 9 world (pos 100) redeem_gift
