-- ===== src/Model/Batch.antt =====
-- The batch updater (model/utils.go): deltas are summed per id in memory, and `batch_update`
-- writes them out. A Go map is an association list; Go ranges over it in any order, which is the
-- parameter `order`.
use new_api_blues.Prelude.{ℕ, ℤ, [], ◌∷◌, ◌==◌, if◌then◌else◌, add64}
use new_api_blues.Model.Store.{M, Pending, BatchStores, attempt, get, modify, return, ◌>>=◌, ◌>>◌}
use new_api_blues.Model.Rows

-- BatchUpdateTypeCount is the number of constructors.
pub data BatchUpdateType : Type 0 where
  user_quota token_quota used_quota channel_used_quota request_count : BatchUpdateType

abbrev pub store_at : BatchUpdateType → BatchStores → Pending
store_at user_quota s = s.user_quota
store_at token_quota s = s.token_quota
store_at used_quota s = s.used_quota
store_at channel_used_quota s = s.channel_used_quota
store_at request_count s = s.request_count

abbrev pub set_store_at : BatchUpdateType → Pending → BatchStores → BatchStores
set_store_at user_quota m s = record s { user_quota = m }
set_store_at token_quota m s = record s { token_quota = m }
set_store_at used_quota m s = record s { used_quota = m }
set_store_at channel_used_quota m s = record s { channel_used_quota = m }
set_store_at request_count m s = record s { request_count = m }

-- store[id] = value, or store[id] += value, which wraps as int64.
unfoldable pub add_value : ℕ → ℤ → Pending → Pending
add_value id value [] = (id, value) ∷ []
add_value id value ((key, old) ∷ m) =
    if key == id then (key, add64 old value) ∷ m else (key, old) ∷ add_value id value m

unfoldable pub add_new_record : BatchUpdateType → ℕ → ℤ → M (Unit {0})
add_new_record type id value = modify λ w. record w {
  pending = set_store_at type (add_value id value (store_at type w.pending)) w.pending;
}

-- The body of the loop over one store; an error is logged and the loop goes on.
unfoldable pub flush_entry : BatchUpdateType → ℕ → ℤ → M (Unit {0})
flush_entry user_quota key value = do attempt (Rows.increase_user_quota key value); return tt
flush_entry token_quota key value = do attempt (Rows.increase_token_quota key value); return tt
flush_entry used_quota key value = do attempt (Rows.update_user_used_quota key value); return tt
flush_entry request_count key value = do
  attempt (Rows.update_user_request_count key value)
  return tt
flush_entry channel_used_quota key value = do
  attempt (Rows.update_channel_used_quota key value)
  return tt

unfoldable pub flush_entries : BatchUpdateType → Pending → M (Unit {0})
flush_entries type [] = return tt
flush_entries type ((key, value) ∷ m) = do flush_entry type key value; flush_entries type m

module _ (order : Pending → Pending) where
  -- One round of the outer loop: the store is swapped for an empty one and written out.
  unfoldable pub flush_store : BatchUpdateType → M (Unit {0})
  flush_store type = do
    w ← get
    modify (λ v. record v { pending = set_store_at type [] v.pending })
    flush_entries type (order (store_at type w.pending))

  unfoldable pub batch_update : M (Unit {0})
  batch_update = do
    flush_store user_quota
    flush_store token_quota
    flush_store used_quota
    flush_store channel_used_quota
    flush_store request_count
