-- ===== src/Model/Balance/Refinement.antt =====
-- Batched quota updates refine direct ones.
use mathlib.Core.List.{Perm}
use new_api_blues.Prelude.{
  ℕ, ℤ, pos, negsuc, ◌+ℤ◌, neg_bounds, pos_part, neg_part, true, false, [], ◌∷◌, ◌≡◌, refl, sym, ap,
  ◌∙◌, arith, ◌<◌, ◌≤◌, ◌+◌, two63, List,
}
use new_api_blues.Model.Store.{World, Pending}
use new_api_blues.Model.Batch.{batch_update, user_quota, add_new_record}
use new_api_blues.Model.Quota.{Config}
use new_api_blues.Model.Balance.Account.{
  Account, user_balance, row_amount, pending_amount, balance, plus, plus-plus, plus_zero,
  contribution, no_pending,
}
use new_api_blues.Model.Balance.Pending.{
  IsBounded, IsBounded-mono, add_new_record_lem, add_new_record-faults,
}
use new_api_blues.Model.Balance.Flush.{written, written_frame, row_amount-written}
use new_api_blues.Model.Balance.Round.{batch_update-balance, pending_amount-no_pending}
use new_api_blues.Model.Balance.Calls.{
  Call, increase_user, decrease_user, increase_token, decrease_token, exec, Delta, deltas,
  deltas_total, worth, worth_lem,
}
use new_api_blues.Model.Balance.Modes.{
  record_all, write_all, magnitude, batched-record_all, direct-write_all,
}

abbrev pub deltas_size : List Delta → ℕ
deltas_size [] = 0
deltas_size ((type, id, v) ∷ ds) = pos_part v + neg_part v + deltas_size ds

pub deltas_size-le : (c : Call) → deltas_size (deltas c) ≤ magnitude c
deltas_size-le (decrease_user id (pos q)) = omega (arith, neg_bounds (pos q))
deltas_size-le (decrease_token id (pos q)) = omega (arith, neg_bounds (pos q))
deltas_size-le (increase_user id (negsuc q)) = omega arith
deltas_size-le (increase_token id (negsuc q)) = omega arith
deltas_size-le _ = omega arith

pub record_all-faults : (ds : List Delta) (w : World) → (record_all ds w).faults ≡ w.faults
record_all-faults [] w = refl
record_all-faults ((type, id, v) ∷ ds) w =
    record_all-faults ds (add_new_record type id v w).1 ∙ add_new_record-faults type id v w

pub record_all-balance :
    (ds : List Delta) (m : ℕ) (w : World)
    → IsBounded m w.pending
    → m + deltas_size ds < two63
    → ((a : Account) → balance (record_all ds w) a ≡ plus (balance w a) (deltas_total ds a))
      × IsBounded (m + deltas_size ds) (record_all ds w).pending
record_all-balance [] m w hb h =
    ((λ a. sym (plus_zero (balance w a))), IsBounded-mono m (m + 0) w.pending (omega arith) hb)
record_all-balance ((type, id, v) ∷ ds) m w hb h =
    let n = pos_part v + neg_part v in
    let w' : World = (add_new_record type id v w).1 in
    let first = λ (a : Account).
      add_new_record_lem type id v m n w a hb (omega arith, omega arith) (omega arith) in
    let rest = record_all-balance ds (m + n) w' (first (user_balance 0)).1 (omega arith) in
    (
      (λ a.
          rest.0 a
          ∙ ap (λ o. plus o (deltas_total ds a)) (first a).0
          ∙ plus-plus (balance w a) (contribution type ((id, v) ∷ []) a) (deltas_total ds a)),
      IsBounded-mono (m + n + deltas_size ds) (m + (n + deltas_size ds)) (record_all ds w').pending
          (omega arith) rest.1,
    )

pub write_all-balance :
    (ds : List Delta) (w : World) (a : Account)
    → (row_amount (write_all ds w) a ≡ plus (row_amount w a) (deltas_total ds a))
      × ((write_all ds w).pending ≡ w.pending)
      × ((write_all ds w).faults ≡ w.faults)
write_all-balance [] w a = (sym (plus_zero _), refl, refl)
write_all-balance ((type, id, v) ∷ ds) w a =
    let frame = written_frame type id v w in
    let rest = write_all-balance ds (written type id v w) a in
    (
      rest.0
          ∙ ap (λ o. plus o (deltas_total ds a)) (row_amount-written type id v w a)
          ∙ plus-plus (row_amount w a) (contribution type ((id, v) ∷ []) a) (deltas_total ds a),
      rest.1 ∙ frame.1,
      rest.2 ∙ frame.0,
    )

-- The calls of a run, one after the other.
unfoldable pub run : Config → List Call → World → World
run config [] w = w
run config (c ∷ cs) w = run config cs (exec config c w).1

abbrev pub worths : List Call → Account → ℤ
worths [] a = pos 0
worths (c ∷ cs) a = worth c a +ℤ worths cs a

abbrev pub magnitudes : List Call → ℕ
magnitudes [] = 0
magnitudes (c ∷ cs) = magnitude c + magnitudes cs

-- While the amounts of a batched run add up to less than 2^63, every call moves every balance by
-- its worth.
batched_run :
    (config : Config) (cs : List Call) (m : ℕ) (w : World)
    → config.batch_update_enabled ≡ true
    → IsBounded m w.pending
    → m + magnitudes cs < two63
    → ((a : Account) → balance (run config cs w) a ≡ plus (balance w a) (worths cs a))
      × ((run config cs w).faults ≡ w.faults)
unfolding run
batched_run config [] m w on hb h = ((λ a. sym (plus_zero (balance w a))), refl)
batched_run config (c ∷ cs) m w on hb h =
    let e = batched-record_all config c w on (omega arith) in
    let small = deltas_size-le c in
    let first = record_all-balance (deltas c) m w hb (omega arith) in
    let rest =
      batched_run config cs (m + magnitude c) (exec config c w).1 on
        (rw e (
          IsBounded-mono (m + deltas_size (deltas c)) (m + magnitude c)
            (record_all (deltas c) w).pending (omega arith) first.1))
        (omega arith) in
    (
      (λ a.
          rest.0 a
          ∙ ap (λ o. plus o (worths cs a))
              (ap (λ v. balance v a) e ∙ first.0 a ∙ ap (plus (balance w a)) (sym (worth_lem c a)))
          ∙ plus-plus (balance w a) (worth c a) (worths cs a)),
      rest.1 ∙ ap (λ v. v.faults) e ∙ record_all-faults (deltas c) w,
    )

-- Without batching the rows themselves move.
direct_run :
    (config : Config) (cs : List Call) (w : World) (a : Account)
    → config.batch_update_enabled ≡ false
    → w.faults ≡ []
    → row_amount (run config cs w) a ≡ plus (row_amount w a) (worths cs a)
unfolding run
direct_run config [] w a off h = sym (plus_zero (row_amount w a))
direct_run config (c ∷ cs) w a off h =
    let e = direct-write_all config c w off h in
    let first = write_all-balance (deltas c) w a in
    direct_run config cs (exec config c w).1 a off (ap (λ v. v.faults) e ∙ first.2 ∙ h)
    ∙ ap (λ o. plus o (worths cs a))
        (ap (λ v. row_amount v a) e ∙ first.0 ∙ ap (plus (row_amount w a)) (sym (worth_lem c a)))
    ∙ plus-plus (row_amount w a) (worth c a) (worths cs a)

no_pending-IsBounded : IsBounded 0 no_pending
no_pending-IsBounded user_quota = tt
no_pending-IsBounded _ = tt

-- Batching refines direct writes. From a world with nothing pending and no database fault to come,
-- for any calls whose amounts add up to less than 2^63: running them batched and then flushing
-- leaves in every row the amount that running them unbatched leaves, whatever the order in which
-- the flush walks its maps.
pub batched-refines-direct :
    (batched direct : Config) (order : Pending → Pending) (cs : List Call) (w : World) (a : Account)
    → batched.batch_update_enabled ≡ true
    → direct.batch_update_enabled ≡ false
    → ((m : Pending) → Perm (order m) m)
    → w.pending ≡ no_pending
    → w.faults ≡ []
    → magnitudes cs < two63
    → row_amount (batch_update order (run batched cs w)).1 a ≡ row_amount (run direct cs w) a
batched-refines-direct batched direct order cs w a on off permutes fresh h small =
    let bounded : IsBounded 0 w.pending = rw fresh no_pending-IsBounded in
    let ran = batched_run batched cs 0 w on bounded (omega arith) in
    let flushed = batch_update-balance order permutes (run batched cs w) a (ran.1 ∙ h) in
    flushed.1
    ∙ ran.0 a
    ∙ ap (λ o. plus o (worths cs a))
        (ap (plus (row_amount w a))
            (ap (λ s. pending_amount s a) fresh ∙ pending_amount-no_pending a)
          ∙ plus_zero (row_amount w a))
    ∙ sym (direct_run direct cs w a off h)
