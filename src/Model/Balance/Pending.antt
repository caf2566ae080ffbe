-- ===== src/Model/Balance/Pending.antt =====
-- Recording deltas in the batch updater's stores, within the range of int64.
use new_api_blues.Prelude.{
  ℕ, ℤ, pos, ◌+ℤ◌, add64, pos_part, neg_part, [], ◌∷◌, ◌==◌, ◌≡◌, refl, sym, ap, ◌∙◌, int_laws,
  arith, wrap64_of_IsInt64, ◌<◌, ◌≤◌, ◌+◌, two63, All, Bool-cases, inl, inr, ==_iff, +ℤ_bounds,
  +ℤ-zero,
}
use new_api_blues.Model.Store.{World, Pending, BatchStores, ok}
use new_api_blues.Model.Batch.{
  BatchUpdateType, user_quota, token_quota, used_quota, channel_used_quota, request_count, store_at,
  set_store_at, add_value, add_new_record,
}
use new_api_blues.Model.Balance.Account.{
  Account, row_amount, total, share, Share, nothing, adds, takes, share_total, held, contribution,
  pending_amount, balance, plus, plus-plus,
}

-- The values of a store keep within a bound, and n may still be added.
abbrev pub IsWithin : ℕ → ℤ → Type 0
IsWithin n x = (pos_part x ≤ n) × (neg_part x ≤ n)

abbrev pub AreWithin : ℕ → Pending → Type 0
AreWithin n = All (λ entry. IsWithin n entry.1)

add64_of_within :
    (m n : ℕ) (x v : ℤ) → IsWithin m x → IsWithin n v → m + n < two63 → add64 x v ≡ x +ℤ v
unfolding add64
add64_of_within m n x v hx hv h =
    wrap64_of_IsInt64 (x +ℤ v) (omega (arith, +ℤ_bounds x v), omega (arith, +ℤ_bounds x v))

held_merge :
    (j id : ℕ) (x v : ℤ) (t : ℤ)
    → held j (id, x +ℤ v) +ℤ t ≡ held j (id, v) +ℤ pos 0 +ℤ (held j (id, x) +ℤ t)
unfolding held
held_merge j id x v t = elim (Bool-cases (id == j)) [
  | inl e ↦ rw e (omega int_laws)
  | inr e ↦ rw e (omega int_laws)
]

+ℤ_shift : (a b c : ℤ) → a +ℤ (b +ℤ c) ≡ b +ℤ (a +ℤ c)
+ℤ_shift a b c = omega int_laws

-- Recording a value adds it to the total of its id, as long as no sum passes int64.
total-add_value :
    (j id : ℕ) (v : ℤ) (m n : ℕ) (s : Pending)
    → AreWithin m s
    → IsWithin n v
    → m + n < two63
    → total j (add_value id v s) ≡ total j ((id, v) ∷ []) +ℤ total j s
unfolding total add_value
total-add_value j id v m n [] hs hv h = sym (+ℤ-zero _)
total-add_value j id v m n ((key, old) ∷ s) hs hv h = elim (Bool-cases (key == id)) [
  | inl e ↦
      rw (e, add64_of_within m n old v hs.0 hv h, (==_iff key id).0 e)
        (held_merge j id old v (total j s))
  | inr e ↦
      rw (e, total-add_value j id v m n s hs.1 hv h)
        (+ℤ_shift (held j (key, old)) (held j (id, v) +ℤ pos 0) (total j s))
]

AreWithin-mono : (m k : ℕ) (s : Pending) → m ≤ k → AreWithin m s → AreWithin k s
AreWithin-mono m k [] h a = tt
AreWithin-mono m k (x ∷ s) h a =
    ((omega (arith, a.0), omega (arith, a.0)), AreWithin-mono m k s h a.1)

add_value-AreWithin :
    (id : ℕ) (v : ℤ) (m n : ℕ) (s : Pending)
    → AreWithin m s
    → IsWithin n v
    → m + n < two63
    → AreWithin (m + n) (add_value id v s)
unfolding add_value
add_value-AreWithin id v m n [] hs hv h = ((omega arith, omega arith), tt)
add_value-AreWithin id v m n ((key, old) ∷ s) hs hv h = elim (Bool-cases (key == id)) [
  | inl e ↦
      rw (e, add64_of_within m n old v hs.0 hv h)
        (
          (omega (arith, +ℤ_bounds old v, hs.0), omega (arith, +ℤ_bounds old v, hs.0)),
          AreWithin-mono m (m + n) s (omega arith) hs.1,
        )
  | inr e ↦
      rw e ((omega (arith, hs.0), omega (arith, hs.0)), add_value-AreWithin id v m n s hs.1 hv h)
]

-- Every store keeps within the bound.
abbrev pub IsBounded : ℕ → BatchStores → Type 0
IsBounded n s = (type : BatchUpdateType) → AreWithin n (store_at type s)

pub IsBounded-mono : (m k : ℕ) (s : BatchStores) → m ≤ k → IsBounded m s → IsBounded k s
IsBounded-mono m k s h b type = AreWithin-mono m k (store_at type s) h (b type)

pub add_new_record-faults :
    (type : BatchUpdateType) (id : ℕ) (v : ℤ) (w : World)
    → (add_new_record type id v w).1.faults ≡ w.faults
unfolding add_new_record
add_new_record-faults type id v w = refl

share_total-add_value :
    (sh : Share) (id : ℕ) (v : ℤ) (m n : ℕ) (s : Pending)
    → AreWithin m s
    → IsWithin n v
    → m + n < two63
    → share_total sh (add_value id v s) ≡ share_total sh ((id, v) ∷ []) +ℤ share_total sh s
share_total-add_value nothing id v m n s hs hv h = sym (+ℤ-zero _)
share_total-add_value (adds j) id v m n s hs hv h = total-add_value j id v m n s hs hv h
share_total-add_value (takes j) id v m n s hs hv h =
    rw (total-add_value j id v m n s hs hv h) (omega int_laws)

-- Recording a value in one store adds its contribution to what is pending.
pending_amount-set_store_at :
    (type : BatchUpdateType) (s : BatchStores) (m : Pending) (d : ℤ) (a : Account)
    → contribution type m a ≡ d +ℤ contribution type (store_at type s) a
    → pending_amount (set_store_at type m s) a ≡ pending_amount s a +ℤ d
unfolding pending_amount
pending_amount-set_store_at user_quota s m d a h = rw h (omega int_laws)
pending_amount-set_store_at token_quota s m d a h = rw h (omega int_laws)
pending_amount-set_store_at used_quota s m d a h = rw h (omega int_laws)
pending_amount-set_store_at channel_used_quota s m d a h = rw h (omega int_laws)
pending_amount-set_store_at request_count s m d a h = rw h (omega int_laws)

set_store_at-IsBounded :
    (type : BatchUpdateType) (n : ℕ) (s : BatchStores) (m : Pending)
    → IsBounded n s
    → AreWithin n m
    → IsBounded n (set_store_at type m s)
set_store_at-IsBounded user_quota n s m hs hm user_quota = hm
set_store_at-IsBounded token_quota n s m hs hm token_quota = hm
set_store_at-IsBounded used_quota n s m hs hm used_quota = hm
set_store_at-IsBounded channel_used_quota n s m hs hm channel_used_quota = hm
set_store_at-IsBounded request_count n s m hs hm request_count = hm
set_store_at-IsBounded _ n s m hs hm other = hs other

-- A record leaves the rows alone and adds to the balances.
pub add_new_record_lem :
    (type : BatchUpdateType) (id : ℕ) (v : ℤ) (m n : ℕ) (w : World) (a : Account)
    → IsBounded m w.pending
    → IsWithin n v
    → m + n < two63
    → (balance (add_new_record type id v w).1 a
        ≡ plus (balance w a) (contribution type ((id, v) ∷ []) a))
      × IsBounded (m + n) (add_new_record type id v w).1.pending
      × ((add_new_record type id v w).0 ≡ ok tt)
unfolding add_new_record
add_new_record_lem type id v m n w a hs hv h = (
  ap (plus (row_amount w a)) (
        pending_amount-set_store_at type w.pending (add_value id v (store_at type w.pending))
          (contribution type ((id, v) ∷ []) a) a
          (share_total-add_value (share type a) id v m n (store_at type w.pending) (hs type) hv h))
      ∙ sym (
          plus-plus (row_amount w a) (pending_amount w.pending a)
            (contribution type ((id, v) ∷ []) a)),
  set_store_at-IsBounded type (m + n) w.pending (add_value id v (store_at type w.pending))
      (λ other. AreWithin-mono m (m + n) (store_at other w.pending) (omega arith) (hs other))
      (add_value-AreWithin id v m n (store_at type w.pending) (hs type) hv h),
  refl,
)
