-- ===== src/Model/Balance/Round.antt =====
-- A round of the batch updater, over all the stores and in any order within one.
use mathlib.Core.List.{Permᴰ, Perm}
use mathlib.Core.Logic.{∥∥₁_elim}
use new_api_blues.Prelude.{
  ℕ, ℤ, pos, ◌+ℤ◌, [], ◌≡◌, refl, sym, +ℤ-zero, ap, ap₂, ◌∙◌, int_laws, neg,
}
use new_api_blues.Model.Store.{World, Pending, BatchStores, ok, >>=-ok}
use new_api_blues.Model.Batch.{
  BatchUpdateType, user_quota, token_quota, used_quota, channel_used_quota, request_count, store_at,
  set_store_at, flush_store, batch_update,
}
use new_api_blues.Model.Balance.Account.{
  Account, row_amount, total, held, share, Share, nothing, adds, takes, share_total,
  share_total-nil, contribution, pending_amount, no_pending, balance, plus, plus-plus, plus_zero,
}
use new_api_blues.Model.Balance.Flush.{row_amount-flush_entries}

+ℤ_swap : (a b c : ℤ) → a +ℤ (b +ℤ c) ≡ b +ℤ (a +ℤ c)
+ℤ_swap a b c = omega int_laws

total-permᴰ : (id : ℕ) {m n : Pending} → Permᴰ m n → total id m ≡ total id n
unfolding total
total-permᴰ id Permᴰ.nil = refl
total-permᴰ id (Permᴰ.cons e p) = cc (ap (held id) e, total-permᴰ id p)
total-permᴰ id (Permᴰ.swap {a} {b} {a' = a'} {b' = b'} {l = l} e f) =
    rw (ap (held id) e, ap (held id) f) (+ℤ_swap (held id b') (held id a') (total id l))
total-permᴰ id (Permᴰ.trans p q) = total-permᴰ id p ∙ total-permᴰ id q

ℤ-set : IsSet ℤ
ℤ-set = hlevel

total-perm : (id : ℕ) (m n : Pending) → Perm m n → total id m ≡ total id n
total-perm id m n p = ∥∥₁_elim p (ℤ-set _ _) (total-permᴰ id)

share_total-perm : (s : Share) (m n : Pending) → Perm m n → share_total s m ≡ share_total s n
share_total-perm nothing m n p = refl
share_total-perm (adds id) m n p = total-perm id m n p
share_total-perm (takes id) m n p = ap neg (total-perm id m n p)

-- Emptying one store takes its contribution out of what is pending.
pending_amount-set_store_at :
    (type : BatchUpdateType) (s : BatchStores) (a : Account)
    → contribution type (store_at type s) a +ℤ pending_amount (set_store_at type [] s) a
      ≡ pending_amount s a
unfolding pending_amount
pending_amount-set_store_at user_quota s a =
    rw (share_total-nil (share user_quota a)) (omega int_laws)
pending_amount-set_store_at token_quota s a =
    rw (share_total-nil (share token_quota a)) (omega int_laws)
pending_amount-set_store_at used_quota s a =
    rw (share_total-nil (share used_quota a)) (omega int_laws)
pending_amount-set_store_at channel_used_quota s a =
    rw (share_total-nil (share channel_used_quota a)) (omega int_laws)
pending_amount-set_store_at request_count s a =
    rw (share_total-nil (share request_count a)) (omega int_laws)

pub pending_amount-no_pending : (a : Account) → pending_amount no_pending a ≡ pos 0
unfolding pending_amount
pending_amount-no_pending a = simp (
  share_total-nil (share user_quota a),
  share_total-nil (share token_quota a),
  share_total-nil (share used_quota a),
  share_total-nil (share channel_used_quota a),
  share_total-nil (share request_count a),
  +ℤ-zero,
)

module _ (order : Pending → Pending) (permutes : (m : Pending) → Perm (order m) m) where
  -- One store, written out: no balance moves, and the store is empty.
  flush_store_lem :
      (type : BatchUpdateType) (w : World) (a : Account)
      → w.faults ≡ []
      → (balance (flush_store order type w).1 a ≡ balance w a)
        × ((flush_store order type w).1.faults ≡ [])
        × ((flush_store order type w).1.pending ≡ set_store_at type [] w.pending)
        × ((flush_store order type w).0 ≡ ok tt)
  unfolding flush_store
  flush_store_lem type w a h =
      let emptied : World = record w { pending = set_store_at type [] w.pending } in
      let m = store_at type w.pending in
      let written = row_amount-flush_entries type (order m) emptied a h in
      (
        ap₂ (λ o s. plus o (pending_amount s a)) written.0 written.2
            ∙ plus-plus (row_amount w a) (contribution type (order m) a)
                (pending_amount (set_store_at type [] w.pending) a)
            ∙ ap (plus (row_amount w a)) (
                ap (λ c. c +ℤ pending_amount (set_store_at type [] w.pending) a)
                  (share_total-perm (share type a) (order m) m (permutes m))
                ∙ pending_amount-set_store_at type w.pending a),
        written.1,
        written.2,
        written.3,
      )

  -- A whole round of the batch updater, from a database without faults to come, moves no balance,
  -- and afterwards every row shows the account's whole balance, whatever the order in which a map
  -- is walked.
  pub batch_update-balance :
      (w : World) (a : Account)
      → w.faults ≡ []
      → (balance (batch_update order w).1 a ≡ balance w a)
        × (row_amount (batch_update order w).1 a ≡ balance w a)
        × ((batch_update order w).1.faults ≡ [])
  unfolding batch_update
  batch_update-balance w a h =
      let s1 = flush_store_lem user_quota w a h in
      let w1 : World = (flush_store order user_quota w).1 in
      let s2 = flush_store_lem token_quota w1 a s1.1 in
      let w2 : World = (flush_store order token_quota w1).1 in
      let s3 = flush_store_lem used_quota w2 a s2.1 in
      let w3 : World = (flush_store order used_quota w2).1 in
      let s4 = flush_store_lem channel_used_quota w3 a s3.1 in
      let w4 : World = (flush_store order channel_used_quota w3).1 in
      let s5 = flush_store_lem request_count w4 a s4.1 in
      let w5 : World = (flush_store order request_count w4).1 in
      let kept : balance w5 a ≡ balance w a = s5.0 ∙ s4.0 ∙ s3.0 ∙ s2.0 ∙ s1.0 in
      let whole : batch_update order w ≡ flush_store order request_count w4 =
        >>=-ok (flush_store order user_quota) _ w tt s1.3
        ∙ >>=-ok (flush_store order token_quota) _ w1 tt s2.3
        ∙ >>=-ok (flush_store order used_quota) _ w2 tt s3.3
        ∙ >>=-ok (flush_store order channel_used_quota) _ w3 tt s4.3 in
      let empty : w5.pending ≡ no_pending =
        s5.2
        ∙ ap (set_store_at request_count []) (
            s4.2
            ∙ ap (set_store_at channel_used_quota []) (
                s3.2
                ∙ ap (set_store_at used_quota [])
                    (s2.2 ∙ ap (set_store_at token_quota []) s1.2))) in
      rw whole (
        kept,
        sym (plus_zero (row_amount w5 a))
            ∙ ap (plus (row_amount w5 a))
                (sym (ap (λ s. pending_amount s a) empty ∙ pending_amount-no_pending a))
            ∙ kept,
        s5.1,
      )
