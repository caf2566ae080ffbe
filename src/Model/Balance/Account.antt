-- ===== src/Model/Balance/Account.antt =====
-- The accounts that the quota operations move, and their balances.
use new_api_blues.Prelude.{
  ℕ, ℤ, pos, ◌+ℤ◌, neg, Option, none, some, List, [], ◌∷◌, ◌==◌, if◌then◌else◌, ◌≡◌, refl, ap,
  int_laws, arith, +ℤ-zero,
}
use new_api_blues.Model.Store.{
  World, Pending, BatchStores, user_row, token_row, channel_row, find_row, update_rows,
}
use new_api_blues.Model.Batch.{
  BatchUpdateType, user_quota, token_quota, used_quota, channel_used_quota, request_count,
}

pub data Account : Type 0 where
  user_balance token_remain token_used user_used user_requests channel_used : ℕ → Account

abbrev pub amount_of : {A : Type 0} → (A → ℤ) → Option A → Option ℤ
amount_of f none = none
amount_of f (some a) = some (f a)

abbrev pub row_amount : World → Account → Option ℤ
row_amount w (user_balance id) = amount_of (λ u. u.quota) (user_row w id)
row_amount w (token_remain id) = amount_of (λ t. t.remain_quota) (token_row w id)
row_amount w (token_used id) = amount_of (λ t. t.used_quota) (token_row w id)
row_amount w (user_used id) = amount_of (λ u. u.used_quota) (user_row w id)
row_amount w (user_requests id) = amount_of (λ u. u.request_count) (user_row w id)
row_amount w (channel_used id) = amount_of (λ c. c.used_quota) (channel_row w id)

unfoldable pub held : ℕ → ℕ × ℤ → ℤ
held id (key, value) = if key == id then value else pos 0

-- The sum of what a store holds for an id.
unfoldable pub total : ℕ → Pending → ℤ
total id [] = pos 0
total id (entry ∷ m) = held id entry +ℤ total id m

-- How a store counts for an account: not at all, or with the sum for an id, or against it.
pub data Share : Type 0 where
  nothing : Share
  adds takes : ℕ → Share

abbrev pub share : BatchUpdateType → Account → Share
share user_quota (user_balance id) = adds id
share token_quota (token_remain id) = adds id
share token_quota (token_used id) = takes id
share used_quota (user_used id) = adds id
share request_count (user_requests id) = adds id
share channel_used_quota (channel_used id) = adds id
share _ _ = nothing

abbrev pub share_total : Share → Pending → ℤ
share_total nothing m = pos 0
share_total (adds id) m = total id m
share_total (takes id) m = neg (total id m)

abbrev pub contribution : BatchUpdateType → Pending → Account → ℤ
contribution type m a = share_total (share type a) m

pub share_total-nil : (s : Share) → share_total s [] ≡ pos 0
unfolding total neg
share_total-nil nothing = refl
share_total-nil _ = refl

pub share_total-cons :
    (s : Share) (k : ℕ) (v : ℤ) (m : Pending)
    → share_total s ((k, v) ∷ []) +ℤ share_total s m ≡ share_total s ((k, v) ∷ m)
unfolding total
share_total-cons nothing k v m = omega int_laws
share_total-cons (adds id) k v m = omega int_laws
share_total-cons (takes id) k v m = omega int_laws

unfoldable pub pending_amount : BatchStores → Account → ℤ
pending_amount s a =
    contribution user_quota s.user_quota a
    +ℤ contribution token_quota s.token_quota a
    +ℤ contribution used_quota s.used_quota a
    +ℤ contribution channel_used_quota s.channel_used_quota a
    +ℤ contribution request_count s.request_count a

abbrev pub no_pending : BatchStores
no_pending = record {
  user_quota = [];
  token_quota = [];
  used_quota = [];
  channel_used_quota = [];
  request_count = [];
}

abbrev pub plus : Option ℤ → ℤ → Option ℤ
plus none d = none
plus (some x) d = some (x +ℤ d)

-- An account without a row has no balance: what is pending for it is lost.
abbrev pub balance : World → Account → Option ℤ
balance w a = plus (row_amount w a) (pending_amount w.pending a)

pub plus_zero : (o : Option ℤ) → plus o (pos 0) ≡ o
plus_zero none = refl
plus_zero (some x) = ap some (+ℤ-zero x)

pub plus-plus : (o : Option ℤ) (a b : ℤ) → plus (plus o a) b ≡ plus o (a +ℤ b)
plus-plus none a b = refl
plus-plus (some x) a b = ap some (omega int_laws)

pub plus_swap : (o : Option ℤ) (a b : ℤ) → plus (plus o a) b ≡ plus (plus o b) a
plus_swap none a b = refl
plus_swap (some x) a b = ap some (omega int_laws)

module _ {A : Type 0} (ident : A → ℕ) (amount : A → ℤ) (k j : ℕ) (f : A → A) where
  -- An update that adds d to a column adds d to what is read back for that id.
  pub amount_of-update_rows :
      (d : ℤ) (xs : List A)
      → ((x : A) → ident (f x) ≡ ident x)
      → ((x : A) → amount (f x) ≡ amount x +ℤ d)
      → amount_of amount (find_row ident j (update_rows ident k f xs))
        ≡ plus (amount_of amount (find_row ident j xs)) (if k == j then d else pos 0)
  unfolding find_row update_rows
  amount_of-update_rows d [] keep more = refl
  amount_of-update_rows d (x ∷ xs) keep more =
      ground (arith, keep x, more x, +ℤ-zero (amount x), amount_of-update_rows d xs keep more)

  -- An update that leaves a column alone changes nothing that is read from it.
  pub amount_of-update_rows_same :
      (xs : List A)
      → ((x : A) → ident (f x) ≡ ident x)
      → ((x : A) → amount (f x) ≡ amount x)
      → amount_of amount (find_row ident j (update_rows ident k f xs))
        ≡ amount_of amount (find_row ident j xs)
  unfolding find_row update_rows
  amount_of-update_rows_same [] keep same = refl
  amount_of-update_rows_same (x ∷ xs) keep same =
      ground (arith, keep x, same x, amount_of-update_rows_same xs keep same)
