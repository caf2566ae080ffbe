-- ===== src/Model/Accounts/Ids.antt =====
-- The ids of the rows of users: they ascend and stay below the next id, since rows are appended
-- with it. A row that is found by a text is then the one found by its id.
use new_api_blues.Prelude.{
  ℕ, suc, ◌≤◌, ◌<◌, String, str_eq, some, inl, inr, List, [], ◌∷◌, ◌++◌, ◌≡◌, arith, ◌==◌,
  if◌then◌else◌, Bool-cases,
}
use new_api_blues.Model.Store.{User, World, user_id_of, find_row, update_rows}
use new_api_blues.Model.Accounts.{find_user_by}

unfoldable pub InOrder : ℕ → ℕ → List User → Type 0
InOrder from next [] = from ≤ next
InOrder from next (x ∷ xs) = (from ≤ x.id) × InOrder (suc x.id) next xs

abbrev pub IdsInOrder : World → Type 0
IdsInOrder w = InOrder 0 w.next_user w.users

pub InOrder-append :
    (from next : ℕ) (xs : List User) (row : User)
    → InOrder from next xs
    → row.id ≡ next
    → InOrder from (suc next) (xs ++ row ∷ [])
unfolding InOrder
InOrder-append from next [] row h e = ground (arith, h, e)
InOrder-append from next (x ∷ xs) row h e = (h.0, InOrder-append (suc x.id) next xs row h.1 e)

pub InOrder-update_rows :
    (from next id : ℕ) (f : User → User) (xs : List User)
    → ((x : User) → (f x).id ≡ x.id)
    → InOrder from next xs
    → InOrder from next (update_rows user_id_of id f xs)
unfolding InOrder update_rows
InOrder-update_rows from next id f [] keep h = h
InOrder-update_rows from next id f (x ∷ xs) keep h =
    let rest = InOrder-update_rows (suc x.id) next id f xs keep h.1 in
    elim (Bool-cases (x.id == id)) [ inl e ↦ rw (e, keep x) (h.0, rest) | inr e ↦ rw e (h.0, rest) ]

pub InOrder-le : (from next : ℕ) (xs : List User) → InOrder from next xs → from ≤ next
unfolding InOrder
InOrder-le from next [] h = h
InOrder-le from next (x ∷ xs) h = ground (arith, h, InOrder-le (suc x.id) next xs h.1)

-- A row that is found is at or above the bound, and below the next id.
pub find_row_bounds :
    (from next id : ℕ) (xs : List User) (x : User)
    → InOrder from next xs
    → find_row user_id_of id xs ≡ some x
    → (from ≤ id) × (id < next)
unfolding InOrder find_row
find_row_bounds from next id [] x h e = ground (arith, e)
find_row_bounds from next id (y ∷ xs) x h e = elim (Bool-cases (y.id == id)) [
  | inl t ↦ ground (arith, t, h, InOrder-le (suc y.id) next xs h.1)
  | inr t ↦ ground (arith, t, h, e, find_row_bounds (suc y.id) next id xs x h.1)
]

pub find_user_by_id :
    (column : User → String) (text : String) (from next : ℕ) (xs : List User) (x : User)
    → InOrder from next xs
    → find_user_by column text xs ≡ some x
    → (find_row user_id_of x.id xs ≡ some x) × (from ≤ x.id)
unfolding InOrder find_row find_user_by
find_user_by_id column text from next [] x h e = ground (arith, e)
find_user_by_id column text from next (y ∷ xs) x h e = elim (Bool-cases (str_eq (column y) text)) [
  | inl t ↦ ground (arith, t, e, h)
  | inr t ↦ ground (arith, t, e, h, find_user_by_id column text (suc y.id) next xs x h.1)
]

-- A row at the end is found by its id, and hides no other.
pub find_row-append :
    (from next id : ℕ) (xs : List User) (row : User)
    → InOrder from next xs
    → row.id ≡ next
    → find_row user_id_of id (xs ++ row ∷ [])
      ≡ (if id == next then some row else find_row user_id_of id xs)
unfolding InOrder find_row
find_row-append from next id [] row h e = ground (arith, h, e)
find_row-append from next id (x ∷ xs) row h e = ground (
  arith,
  h,
  e,
  find_row-append (suc x.id) next id xs row h.1 e,
  InOrder-le (suc x.id) next xs h.1,
)
