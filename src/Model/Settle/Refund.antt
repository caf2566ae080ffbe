-- ===== src/Model/Settle/Refund.antt =====
-- Taking quota beforehand and giving the same amount back.
use new_api_blues.Prelude.{
  ℕ, ℤ, pos, neg, ◌+ℤ◌, zero-+ℤ, neg64, Bool, true, false, ◌||◌, [], ◌≡◌, refl, ap, ap₂, ◌∙◌, arith,
  ◌<◌, ◌+◌, ◌*◌, two63, Option, none, some, Option-cases, inl, inr, int_laws, ltb_ℤ, leb_ℤ, ◌==◌,
  ◌≤ℤ◌, if◌then◌else◌, wrap64,
}
use new_api_blues.Model.Store.{World, Token, ok, token_row, user_row, statement_ok}
use new_api_blues.Model.Quota.{
  Config, get_token_by_id, get_user_quota, quota_or_zero, pre_consume_token_quota,
  post_consume_token_quota,
}
use new_api_blues.Model.Balance.Account.{
  Account, user_balance, token_remain, token_used, balance, plus, plus-plus, plus_zero,
}
use new_api_blues.Model.Balance.Pending.{IsBounded, IsBounded-mono}
use new_api_blues.Model.Balance.Calls.{
  increase_user, decrease_user, increase_token, decrease_token, exec, worth, accepted,
}
use new_api_blues.Model.Settle.Step.{terms_of, exec-Moves, exec_ok}

-- What a pre-consumption asks of the ledger.
abbrev pub pre_calls : Config → ℕ → ℕ → Bool → ℕ → World → World
pre_calls config id owner true q w = (exec config (decrease_user owner (pos q)) w).1
pre_calls config id owner false q w =
    (exec config (decrease_user owner (pos q)) (exec config (decrease_token id (pos q)) w).1).1

-- A pre-consumption that succeeds found the token, and both the token, unless it is unlimited, and
-- its owner held enough.
pub pre_consume_inv :
    (config : Config) (id q : ℕ) (w : World)
    → w.faults ≡ []
    → (pre_consume_token_quota config id (pos q) w).0 ≡ ok tt
    → (t : Token) × (token_row w id ≡ some t)
      × ((t.unlimited_quota || leb_ℤ (pos q) t.remain_quota) ≡ true)
      × (pos q ≤ℤ quota_or_zero (user_row w t.user_id))
      × ((pre_consume_token_quota config id (pos q) w).1
          ≡ pre_calls config id t.user_id t.unlimited_quota q w)
      × ((id == 0) ≡ false)
unfolding pre_consume_token_quota get_token_by_id get_user_quota exec
pre_consume_inv config id q w h done = elim (Option-cases (token_row w id)) [
  | inl e ↦ absurd (ground (arith, statement_ok w h, e))
  | inr (t, e) ↦ (
    t,
    e,
    ground (arith, statement_ok w h, e),
    ground (arith, statement_ok w h, e),
    ground (arith, statement_ok w h, e, (exec_ok config id q w h).3),
    ground (arith, statement_ok w h, e),
  )
]

-- What giving back asks of the ledger.
abbrev pub refund_calls : Config → ℕ → ℕ → Bool → ℕ → World → World
refund_calls config id owner true q w = (exec config (increase_user owner (pos q)) w).1
refund_calls config id owner false q w =
    (exec config (increase_token id (pos q)) (exec config (increase_user owner (pos q)) w).1).1

neg64-neg64 : (q : ℕ) → q < two63 → neg64 (neg64 (pos q)) ≡ pos q
unfolding neg64 wrap64 neg
neg64-neg64 q h = ground arith

not_pos : (q : ℕ) → q < two63 → ltb_ℤ (pos 0) (neg64 (pos q)) ≡ false
unfolding neg64 wrap64 neg
not_pos q h = ground arith

pub refund_lem :
    (config : Config) (id q : ℕ) (w : World) (t : Token)
    → w.faults ≡ []
    → q < two63
    → (id == 0) ≡ false
    → token_row w id ≡ some t
    → (exec config (increase_user t.user_id (pos q)) w).1.faults ≡ []
    → ((post_consume_token_quota config id (neg64 (pos q)) w).1
        ≡ refund_calls config id t.user_id t.unlimited_quota q w)
      × ((post_consume_token_quota config id (neg64 (pos q)) w).0 ≡ ok tt)
unfolding post_consume_token_quota get_token_by_id exec
refund_lem config id q w t h small found e h' = (
  ground (
    arith,
    statement_ok w h,
    e,
    not_pos q,
    neg64-neg64 q,
    (exec_ok config id q (exec config (increase_user t.user_id (pos q)) w).1 h').2,
  ),
  ground (
    arith,
    statement_ok w h,
    e,
    not_pos q,
    neg64-neg64 q,
    (exec_ok config id q (exec config (increase_user t.user_id (pos q)) w).1 h').2,
  ),
)

at_opposite :
    (id j : ℕ) (x : ℤ) (b : Bool) → (if b then neg x else pos 0) +ℤ (if b then x else pos 0) ≡ pos 0
at_opposite id j x true = omega int_laws
at_opposite id j x false = omega int_laws

at_opposite' :
    (id j : ℕ) (x : ℤ) (b : Bool) → (if b then x else pos 0) +ℤ (if b then neg x else pos 0) ≡ pos 0
at_opposite' id j x true = omega int_laws
at_opposite' id j x false = omega int_laws

user_opposite :
    (id q : ℕ) (a : Account)
    → worth (decrease_user id (pos q)) a +ℤ worth (increase_user id (pos q)) a ≡ pos 0
unfolding worth
user_opposite id q (user_balance j) = at_opposite id j (accepted (pos q)) (id == j)
user_opposite id q _ = zero-+ℤ (pos 0)

token_opposite :
    (id q : ℕ) (a : Account)
    → worth (decrease_token id (pos q)) a +ℤ worth (increase_token id (pos q)) a ≡ pos 0
unfolding worth
token_opposite id q (token_remain j) = at_opposite id j (accepted (pos q)) (id == j)
token_opposite id q (token_used j) = at_opposite' id j (accepted (pos q)) (id == j)
token_opposite id q _ = zero-+ℤ (pos 0)

-- Two or four moves that cancel.
cancel_two : (o : Option ℤ) (a b : ℤ) → a +ℤ b ≡ pos 0 → plus (plus o a) b ≡ o
cancel_two o a b h = plus-plus o a b ∙ ap (plus o) h ∙ plus_zero o

cancel_four :
    (o : Option ℤ) (a b c d : ℤ)
    → b +ℤ c ≡ pos 0
    → a +ℤ d ≡ pos 0
    → plus (plus (plus (plus o a) b) c) d ≡ o
cancel_four o a b c d h k = ap (λ p. plus p d) (cancel_two (plus o a) b c h) ∙ cancel_two o a d k

terms_found :
    (t : Token) (o : Option Token)
    → terms_of o ≡ terms_of (some t)
    → (t' : Token) × (o ≡ some t')
      × (t'.user_id ≡ t.user_id)
      × (t'.unlimited_quota ≡ t.unlimited_quota)
terms_found t none h = absurd (ground arith)
terms_found t (some t') h = (t', refl, ground arith, ground arith)

-- After the calls of a pre-consumption, those of its refund restore every balance.
refund_calls_lem :
    (config : Config) (id owner : ℕ) (unlimited : Bool) (q m : ℕ) (w : World)
    → w.faults ≡ []
    → IsBounded m w.pending
    → m + 4 * q < two63
    → let v = pre_calls config id owner unlimited q w in
      ((a : Account) → balance (refund_calls config id owner unlimited q v) a ≡ balance w a)
      × (v.faults ≡ [])
      × IsBounded (m + 2 * q) v.pending
      × (terms_of (token_row v id) ≡ terms_of (token_row w id))
refund_calls_lem config id owner true q m w h hb small =
    let one = exec-Moves config (decrease_user owner (pos q)) m w h hb (omega arith) in
    let w1 : World = (exec config (decrease_user owner (pos q)) w).1 in
    let two =
      exec-Moves config (increase_user owner (pos q)) (m + (q + 0)) w1 one.no_faults one.bounded
        (omega arith) in
    (
      (λ a.
          two.by_worth a
          ∙ ap (λ o. plus o (worth (increase_user owner (pos q)) a)) (one.by_worth a)
          ∙ cancel_two (balance w a) (worth (decrease_user owner (pos q)) a)
              (worth (increase_user owner (pos q)) a) (user_opposite owner q a)),
      one.no_faults,
      IsBounded-mono (m + (q + 0)) (m + 2 * q) w1.pending (omega arith) one.bounded,
      one.same_terms id,
    )
refund_calls_lem config id owner false q m w h hb small =
    let one = exec-Moves config (decrease_token id (pos q)) m w h hb (omega arith) in
    let w1 : World = (exec config (decrease_token id (pos q)) w).1 in
    let two =
      exec-Moves config (decrease_user owner (pos q)) (m + (q + 0)) w1 one.no_faults one.bounded
        (omega arith) in
    let w2 : World = (exec config (decrease_user owner (pos q)) w1).1 in
    let three =
      exec-Moves config (increase_user owner (pos q)) (m + (q + 0) + (q + 0)) w2 two.no_faults
        two.bounded (omega arith) in
    let w3 : World = (exec config (increase_user owner (pos q)) w2).1 in
    let four =
      exec-Moves config (increase_token id (pos q)) (m + (q + 0) + (q + 0) + (q + 0)) w3
        three.no_faults three.bounded (omega arith) in
    (
      (λ a.
          four.by_worth a
          ∙ ap (λ o. plus o (worth (increase_token id (pos q)) a))
              (three.by_worth a
                ∙ ap (λ o. plus o (worth (increase_user owner (pos q)) a))
                    (two.by_worth a
                      ∙ ap (λ o. plus o (worth (decrease_user owner (pos q)) a)) (one.by_worth a)))
          ∙ cancel_four (balance w a) (worth (decrease_token id (pos q)) a)
              (worth (decrease_user owner (pos q)) a) (worth (increase_user owner (pos q)) a)
              (worth (increase_token id (pos q)) a) (user_opposite owner q a)
              (token_opposite id q a)),
      two.no_faults,
      IsBounded-mono (m + (q + 0) + (q + 0)) (m + 2 * q) w2.pending (omega arith) two.bounded,
      two.same_terms id ∙ one.same_terms id,
    )

-- On a database without faults and while the amounts fit in 64 bits: a pre-consumption that
-- succeeded, followed by giving the same amount back, leaves every balance as it was, and the
-- giving back succeeds.
pub pre_consume-refund :
    (config : Config) (id q m : ℕ) (w : World) (a : Account)
    → w.faults ≡ []
    → IsBounded m w.pending
    → m + 4 * q < two63
    → (pre_consume_token_quota config id (pos q) w).0 ≡ ok tt
    → let v = (pre_consume_token_quota config id (pos q) w).1 in
      (balance (post_consume_token_quota config id (neg64 (pos q)) v).1 a ≡ balance w a)
      × ((post_consume_token_quota config id (neg64 (pos q)) v).0 ≡ ok tt)
pre_consume-refund config id q m w a h hb small done =
    let (t, e, _, _, taken, nonzero) = pre_consume_inv config id q w h done in
    let v : World = pre_calls config id t.user_id t.unlimited_quota q w in
    let ledger = refund_calls_lem config id t.user_id t.unlimited_quota q m w h hb small in
    let (t', e', owner, flag) = terms_found t (token_row v id) (ledger.3 ∙ ap terms_of e) in
    let step =
      exec-Moves config (increase_user t'.user_id (pos q)) (m + 2 * q) v ledger.1 ledger.2
        (omega arith) in
    let given = refund_lem config id q v t' ledger.1 (omega arith) nonzero e' step.no_faults in
    rw taken (
      ap (λ x. balance x a) (given.0 ∙ ap₂ (λ o f. refund_calls config id o f q v) owner flag)
          ∙ ledger.0 a,
      given.1,
    )

worth_owner : (o q : ℕ) → worth (decrease_user o (pos q)) (user_balance o) ≡ neg (pos q)
unfolding worth
worth_owner o q = ground arith

worth_token_owner : (id o q : ℕ) → worth (decrease_token id (pos q)) (user_balance o) ≡ pos 0
unfolding worth
worth_token_owner id o q = refl

-- A pre-consumption takes its amount from the owner.
pub pre_calls_owner :
    (config : Config) (id owner : ℕ) (unlimited : Bool) (q m : ℕ) (w : World)
    → w.faults ≡ []
    → IsBounded m w.pending
    → m + 4 * q < two63
    → balance (pre_calls config id owner unlimited q w) (user_balance owner)
      ≡ plus (balance w (user_balance owner)) (neg (pos q))
pre_calls_owner config id owner true q m w h hb small =
    (exec-Moves config (decrease_user owner (pos q)) m w h hb (omega arith)).by_worth
      (user_balance owner)
    ∙ ap (plus (balance w (user_balance owner))) (worth_owner owner q)
pre_calls_owner config id owner false q m w h hb small =
    let one = exec-Moves config (decrease_token id (pos q)) m w h hb (omega arith) in
    let w1 : World = (exec config (decrease_token id (pos q)) w).1 in
    let two =
      exec-Moves config (decrease_user owner (pos q)) (m + (q + 0)) w1 one.no_faults one.bounded
        (omega arith) in
    two.by_worth (user_balance owner)
    ∙ ap₂ plus
        (one.by_worth (user_balance owner)
          ∙ ap (plus (balance w (user_balance owner))) (worth_token_owner id owner q)
          ∙ plus_zero (balance w (user_balance owner)))
        (worth_owner owner q)
