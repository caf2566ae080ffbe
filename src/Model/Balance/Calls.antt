-- ===== src/Model/Balance/Calls.antt =====
-- Each call of the quota operations moves every balance by what it says, batched or not.
use new_api_blues.Prelude.{
  ℕ, ℤ, pos, negsuc, ◌+ℤ◌, neg, false, [], ◌∷◌, ◌==◌, if◌then◌else◌, ◌≡◌, refl, sym, ◌∙◌, int_laws,
  arith, ltb_ℤ, Bool-cases, inl, inr, List, +ℤ-zero, zero-+ℤ, Bool-cases, inl, inr,
}
use new_api_blues.Model.Store.{M}
use new_api_blues.Model.Batch.{
  BatchUpdateType, user_quota, token_quota, used_quota, channel_used_quota, request_count,
}
use new_api_blues.Model.Quota.{Config}
use new_api_blues.Model.Quota
use new_api_blues.Model.Balance.Account.{
  Account, user_balance, token_remain, token_used, user_used, user_requests, channel_used, total,
  held, contribution,
}

-- The calls that other packages make.
pub data Call : Type 0 where
  increase_user decrease_user increase_token decrease_token : ℕ → ℤ → Call
  use_user use_channel : ℕ → ℤ → Call

unfoldable pub exec : Config → Call → M (Unit {0})
exec config (increase_user id quota) = Quota.increase_user_quota config id quota
exec config (decrease_user id quota) = Quota.decrease_user_quota config id quota
exec config (increase_token id quota) = Quota.increase_token_quota config id quota
exec config (decrease_token id quota) = Quota.decrease_token_quota config id quota
exec config (use_user id quota) = Quota.update_user_used_quota_and_request_count config id quota
exec config (use_channel id quota) = Quota.update_channel_used_quota config id quota

-- The specification: what a call is worth to an account.
abbrev pub at : ℕ → ℕ → ℤ → ℤ
at id j amount = if id == j then amount else pos 0

-- A negative amount is refused.
abbrev pub accepted : ℤ → ℤ
accepted quota = if ltb_ℤ quota (pos 0) then pos 0 else quota

unfoldable pub worth : Call → Account → ℤ
worth (increase_user id q) (user_balance j) = at id j (accepted q)
worth (decrease_user id q) (user_balance j) = at id j (neg (accepted q))
worth (increase_token id q) (token_remain j) = at id j (accepted q)
worth (increase_token id q) (token_used j) = at id j (neg (accepted q))
worth (decrease_token id q) (token_remain j) = at id j (neg (accepted q))
worth (decrease_token id q) (token_used j) = at id j (accepted q)
worth (use_user id q) (user_used j) = at id j q
worth (use_user id q) (user_requests j) = at id j (pos 1)
worth (use_channel id q) (channel_used j) = at id j q
worth _ _ = pos 0

-- What a call asks for, as entries of the stores; nothing where it is refused.
abbrev pub Delta : Type 0
Delta = BatchUpdateType × ℕ × ℤ

abbrev pub deltas : Call → List Delta
deltas (increase_user id (pos q)) = (user_quota, id, pos q) ∷ []
deltas (decrease_user id (pos q)) = (user_quota, id, neg (pos q)) ∷ []
deltas (increase_token id (pos q)) = (token_quota, id, pos q) ∷ []
deltas (decrease_token id (pos q)) = (token_quota, id, neg (pos q)) ∷ []
deltas (use_user id q) = (used_quota, id, q) ∷ (request_count, id, pos 1) ∷ []
deltas (use_channel id q) = (channel_used_quota, id, q) ∷ []
deltas _ = []

abbrev pub deltas_total : List Delta → Account → ℤ
deltas_total [] a = pos 0
deltas_total ((type, id, v) ∷ ds) a = contribution type ((id, v) ∷ []) a +ℤ deltas_total ds a

pub nonneg : (q : ℕ) → ltb_ℤ (pos q) (pos 0) ≡ false
nonneg q = ground arith

at-total : (id j : ℕ) (v : ℤ) → at id j v ≡ total j ((id, v) ∷ []) +ℤ pos 0
unfolding total held
at-total id j v = sym (+ℤ-zero _ ∙ +ℤ-zero _)

at-neg-total : (id j : ℕ) (v : ℤ) → at id j (neg v) ≡ neg (total j ((id, v) ∷ [])) +ℤ pos 0
unfolding total held neg
at-neg-total id j v = ground (arith, +ℤ-zero v, +ℤ-zero (pos 0), +ℤ-zero (neg v))

refused_zero : (id j q : ℕ) → at id j (accepted (negsuc q)) ≡ pos 0
refused_zero id j q = ground arith

refused_neg_zero : (id j q : ℕ) → at id j (neg (accepted (negsuc q))) ≡ pos 0
unfolding neg
refused_neg_zero id j q = ground arith

neg-neg-total : (id j q : ℕ) → at id j (pos q) ≡ neg (total j ((id, neg (pos q)) ∷ [])) +ℤ pos 0
unfolding total held
neg-neg-total id j q = elim (Bool-cases (id == j)) [
  | inl e ↦ rw e (omega int_laws)
  | inr e ↦ rw e (omega int_laws)
]

-- The specification is what the entries come to.
pub worth_lem : (c : Call) (a : Account) → worth c a ≡ deltas_total (deltas c) a
unfolding worth ◌+ℤ◌
worth_lem (increase_user id (pos q)) (user_balance j) = rw nonneg (at-total id j (pos q))
worth_lem (increase_user id (negsuc q)) (user_balance j) = refused_zero id j q
worth_lem (decrease_user id (pos q)) (user_balance j) = rw nonneg (at-total id j (neg (pos q)))
worth_lem (decrease_user id (negsuc q)) (user_balance j) = refused_neg_zero id j q
worth_lem (increase_token id (pos q)) (token_remain j) = rw nonneg (at-total id j (pos q))
worth_lem (increase_token id (pos q)) (token_used j) = rw nonneg (at-neg-total id j (pos q))
worth_lem (increase_token id (negsuc q)) (token_remain j) = refused_zero id j q
worth_lem (increase_token id (negsuc q)) (token_used j) = refused_neg_zero id j q
worth_lem (decrease_token id (pos q)) (token_remain j) = rw nonneg (at-total id j (neg (pos q)))
worth_lem (decrease_token id (pos q)) (token_used j) = rw nonneg (neg-neg-total id j q)
worth_lem (decrease_token id (negsuc q)) (token_remain j) = refused_neg_zero id j q
worth_lem (decrease_token id (negsuc q)) (token_used j) = refused_zero id j q
worth_lem (use_user id q) (user_used j) = at-total id j q
worth_lem (use_user id q) (user_requests j) = at-total id j (pos 1) ∙ sym (zero-+ℤ _)
worth_lem (use_channel id q) (channel_used j) = at-total id j q
worth_lem (increase_token id (negsuc q)) _ = refl
worth_lem (decrease_token id (negsuc q)) _ = refl
worth_lem _ _ = refl
