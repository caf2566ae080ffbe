-- ===== src/Model/Settle/Post.antt =====
-- What PostConsumeTokenQuota (model/token.go) moves, for an amount of either sign.
use new_api_blues.Prelude.{
  ℕ, zero, suc, ℤ, pos, negsuc, neg, neg64, wrap64, ◌+ℤ◌, Bool, true, false, [], ◌≡◌, sym, ap, ap₂,
  ◌∙◌, arith, ◌<◌, ◌+◌, ◌*◌, two63, some, ltb_ℤ, ◌==◌, pos_part, neg_part, +ℤ-zero, zero-+ℤ,
  if◌then◌else◌,
}
use new_api_blues.Model.Store.{World, Token, token_row, statement_ok}
use new_api_blues.Model.Quota.{Config, get_token_by_id, post_consume_token_quota}
use new_api_blues.Model.Balance.Account.{
  Account, user_balance, token_remain, token_used, balance, plus, plus-plus,
}
use new_api_blues.Model.Balance.Pending.{IsBounded, IsBounded-mono}
use new_api_blues.Model.Balance.Calls.{
  Call, increase_user, decrease_user, increase_token, decrease_token, exec, worth,
}
use new_api_blues.Model.Balance.Modes.{magnitude}
use new_api_blues.Model.Settle.Step.{exec-Moves}

abbrev pub user_call : ℕ → ℤ → Call
user_call owner quota =
    if ltb_ℤ (pos 0) quota then decrease_user owner quota else increase_user owner (neg64 quota)

abbrev pub token_call : ℕ → ℤ → Call
token_call id quota =
    if ltb_ℤ (pos 0) quota then decrease_token id quota else increase_token id (neg64 quota)

abbrev pub post_calls : Config → ℕ → ℕ → Bool → ℤ → World → World
post_calls config id owner true quota w = (exec config (user_call owner quota) w).1
post_calls config id owner false quota w =
    (exec config (token_call id quota) (exec config (user_call owner quota) w).1).1

post_consume-calls :
    (config : Config) (id : ℕ) (quota : ℤ) (w : World) (t : Token)
    → w.faults ≡ []
    → (id == 0) ≡ false
    → token_row w id ≡ some t
    → (post_consume_token_quota config id quota w).1
      ≡ post_calls config id t.user_id t.unlimited_quota quota w
unfolding post_consume_token_quota get_token_by_id exec
post_consume-calls config id quota w t h e found = ground (arith, statement_ok w h, found, e)

-- The size of an amount.
abbrev pub size_of : ℤ → ℕ
size_of q = pos_part q + neg_part q

neg64-negsuc : (q : ℕ) → suc q < two63 → neg64 (negsuc q) ≡ pos (suc q)
unfolding neg64 wrap64 neg
neg64-negsuc q h = ground arith

user_call_lem :
    (o : ℕ) (quota : ℤ)
    → size_of quota < two63
    → (worth (user_call o quota) (user_balance o) ≡ neg quota)
      × ((id : ℕ) → worth (user_call o quota) (token_remain id) ≡ pos 0)
      × ((id : ℕ) → worth (user_call o quota) (token_used id) ≡ pos 0)
      × (magnitude (user_call o quota) ≡ size_of quota)
unfolding worth neg64 wrap64 neg
user_call_lem o (pos zero) h = (ground arith, λ id. ground arith, λ id. ground arith, ground arith)
user_call_lem o (pos (suc q)) h =
    (ground arith, λ id. ground arith, λ id. ground arith, ground arith)
user_call_lem o (negsuc q) h = (ground arith, λ id. ground arith, λ id. ground arith, ground arith)

token_call_lem :
    (id : ℕ) (quota : ℤ)
    → size_of quota < two63
    → ((o : ℕ) → worth (token_call id quota) (user_balance o) ≡ pos 0)
      × (worth (token_call id quota) (token_remain id) ≡ neg quota)
      × (worth (token_call id quota) (token_used id) ≡ quota)
      × (magnitude (token_call id quota) ≡ size_of quota)
unfolding worth neg64 wrap64 neg
token_call_lem id (pos zero) h = (λ o. ground arith, ground arith, ground arith, ground arith)
token_call_lem id (pos (suc q)) h = (λ o. ground arith, ground arith, ground arith, ground arith)
token_call_lem id (negsuc q) h = (λ o. ground arith, ground arith, ground arith, ground arith)

-- Where an amount goes: out of the owner's balance, and out of the token unless it is unlimited.
abbrev pub unless_unlimited : Bool → ℤ → ℤ
unless_unlimited true amount = pos 0
unless_unlimited false amount = amount

drop_zero : (b : Bool) (x : ℤ) → x +ℤ unless_unlimited b (pos 0) ≡ x
drop_zero true x = +ℤ-zero x
drop_zero false x = +ℤ-zero x

module _ (config : Config) (id owner : ℕ) (quota : ℤ) (m : ℕ) (w : World) (h : w.faults ≡ [])
    (hb : IsBounded m w.pending) (small : m + 2 * size_of quota < two63) where
  both_calls :
      (a : Account) (x y : ℤ) (unlimited : Bool)
      → worth (user_call owner quota) a ≡ x
      → worth (token_call id quota) a ≡ y
      → balance (post_calls config id owner unlimited quota w) a
        ≡ plus (balance w a) (x +ℤ unless_unlimited unlimited y)
  both_calls a x y true hx hy =
      let mu = (user_call_lem owner quota (omega (arith, small))).3 in
      let one = exec-Moves config (user_call owner quota) m w h hb (omega (arith, small, mu)) in
      one.by_worth a ∙ ap (plus (balance w a)) (hx ∙ sym (+ℤ-zero x))
  both_calls a x y false hx hy =
      let fit : size_of quota < two63 = omega (arith, small) in
      let mu = (user_call_lem owner quota fit).3 in
      let mt = (token_call_lem id quota fit).3 in
      let one = exec-Moves config (user_call owner quota) m w h hb (omega (arith, small, mu)) in
      let w1 : World = (exec config (user_call owner quota) w).1 in
      let two =
        exec-Moves config (token_call id quota) (m + magnitude (user_call owner quota)) w1
          one.no_faults one.bounded (omega (arith, small, mu, mt)) in
      two.by_worth a
      ∙ ap₂ plus (one.by_worth a ∙ ap (plus (balance w a)) hx) hy
      ∙ plus-plus (balance w a) x y

  calls_state :
      (unlimited : Bool)
      → IsBounded (m + 2 * size_of quota) (post_calls config id owner unlimited quota w).pending
        × ((post_calls config id owner unlimited quota w).faults ≡ [])
  calls_state true =
      let mu = (user_call_lem owner quota (omega (arith, small))).3 in
      let one = exec-Moves config (user_call owner quota) m w h hb (omega (arith, small, mu)) in
      (
        IsBounded-mono (m + magnitude (user_call owner quota)) (m + 2 * size_of quota) _
            (omega (arith, mu)) one.bounded,
        one.no_faults,
      )
  calls_state false =
      let fit : size_of quota < two63 = omega (arith, small) in
      let mu = (user_call_lem owner quota fit).3 in
      let mt = (token_call_lem id quota fit).3 in
      let one = exec-Moves config (user_call owner quota) m w h hb (omega (arith, small, mu)) in
      let w1 : World = (exec config (user_call owner quota) w).1 in
      let two =
        exec-Moves config (token_call id quota) (m + magnitude (user_call owner quota)) w1
          one.no_faults one.bounded (omega (arith, small, mu, mt)) in
      (
        IsBounded-mono (m + magnitude (user_call owner quota) + magnitude (token_call id quota))
            (m + 2 * size_of quota) _ (omega (arith, mu, mt)) two.bounded,
        two.no_faults,
      )

-- On a database without faults, for a token that exists, and while the amounts fit in 64 bits:
-- settling a request at any amount, of either sign, takes that amount from the balance of the
-- token's owner, and, unless the token is unlimited, moves it from the token's remaining quota to
-- its used one, batched or not.
pub post_consume-balance :
    (config : Config) (id : ℕ) (quota : ℤ) (m : ℕ) (w : World) (t : Token)
    → w.faults ≡ []
    → IsBounded m w.pending
    → m + 2 * size_of quota < two63
    → (id == 0) ≡ false
    → token_row w id ≡ some t
    → let v = (post_consume_token_quota config id quota w).1 in
      (balance v (user_balance t.user_id) ≡ plus (balance w (user_balance t.user_id)) (neg quota))
      × (balance v (token_remain id)
          ≡ plus (balance w (token_remain id)) (unless_unlimited t.unlimited_quota (neg quota)))
      × (balance v (token_used id)
          ≡ plus (balance w (token_used id)) (unless_unlimited t.unlimited_quota quota))
post_consume-balance config id quota m w t h hb small nonzero found =
    let o = t.user_id in
    let u = user_call_lem o quota (omega (arith, small)) in
    let k = token_call_lem id quota (omega (arith, small)) in
    let calls = both_calls config id o quota m w h hb small in
    rw (post_consume-calls config id quota w t h nonzero found) (
      calls (user_balance o) (neg quota) (pos 0) t.unlimited_quota u.0 (k.0 o)
          ∙ ap (plus (balance w (user_balance o))) (drop_zero t.unlimited_quota (neg quota)),
      calls (token_remain id) (pos 0) (neg quota) t.unlimited_quota (u.1 id) k.1
          ∙ ap (plus (balance w (token_remain id))) (zero-+ℤ _),
      calls (token_used id) (pos 0) quota t.unlimited_quota (u.2 id) k.2
          ∙ ap (plus (balance w (token_used id))) (zero-+ℤ _),
    )

pub post_consume_state :
    (config : Config) (id : ℕ) (quota : ℤ) (m : ℕ) (w : World) (t : Token)
    → w.faults ≡ []
    → IsBounded m w.pending
    → m + 2 * size_of quota < two63
    → (id == 0) ≡ false
    → token_row w id ≡ some t
    → let v = (post_consume_token_quota config id quota w).1 in
      IsBounded (m + 2 * size_of quota) v.pending × (v.faults ≡ [])
post_consume_state config id quota m w t h hb small nonzero found =
    rw (post_consume-calls config id quota w t h nonzero found)
      (calls_state config id t.user_id quota m w h hb small t.unlimited_quota)
