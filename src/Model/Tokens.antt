-- ===== src/Model/Tokens.antt =====
-- The writes of a token's row (model/token.go): insertion, the two updates and deletion.
use new_api_blues.Prelude.{
  ℕ, suc, pos, negsuc, eqb_ℤ, String, str_eq, Bool, true, false, Option, none, some, List, [], ◌∷◌,
  ◌++◌, ◌==◌, ◌&&◌, if◌then◌else◌, ◌≡◌, arith, inl, inr, Bool-cases,
}
use new_api_blues.Model.Store.{
  M, Token, message, record_not_found, database, get, modify, return, throw, statement, write_token,
  ◌>>=◌, ◌>>◌,
}

unfoldable pub has_key : String → List Token → Bool
has_key key [] = false
has_key key (t ∷ ts) = let rest = has_key key ts in if str_eq t.key key then true else rest

-- The row that DB.Create makes of a token without an id: zero fields get the columns' defaults.
unfoldable pub token_created : ℕ → Token → Token
token_created id t = record t {
  id = id;
  status = if t.status == 0 then 1 else t.status;
  expired_time = if eqb_ℤ t.expired_time (pos 0) then negsuc 0 else t.expired_time;
  subnet = elim t.subnet [ none ↦ some "" | some s ↦ some s ];
}

-- Token.Insert, of a token without an id: the token as the receiver is left. Keys are unique.
unfoldable pub token_insert : Token → M Token
token_insert t = do
  statement
  w ← get
  let row = token_created w.next_token t
  if has_key t.key w.tokens then throw database else (do
    modify (λ v. record v { tokens = v.tokens ++ row ∷ []; next_token = suc v.next_token })
    return row)

-- Token.Update: the selected columns, zero values included.
unfoldable pub token_update : Token → M (Unit {0})
token_update t = write_token t.id (λ x. record x {
  name = t.name;
  status = t.status;
  expired_time = t.expired_time;
  remain_quota = t.remain_quota;
  unlimited_quota = t.unlimited_quota;
  models = t.models;
  subnet = t.subnet;
})

-- DELETE … WHERE id = ?
unfoldable pub without_token : ℕ → List Token → List Token
without_token id [] = []
without_token id (t ∷ ts) = let rest = without_token id ts in if t.id == id then rest else t ∷ rest

unfoldable pub token_delete : Token → M (Unit {0})
token_delete t = do statement; modify (λ w. record w { tokens = without_token t.id w.tokens })

-- The first token of an id that belongs to a user.
unfoldable pub find_token_of : (Token → Bool) → List Token → Option Token
find_token_of wanted [] = none
find_token_of wanted (t ∷ ts) = if wanted t then some t else find_token_of wanted ts

-- A token that is found is one that was wanted.
pub find_token_of_wanted :
    (wanted : Token → Bool) (ts : List Token) (t : Token)
    → find_token_of wanted ts ≡ some t
    → wanted t ≡ true
unfolding find_token_of
find_token_of_wanted wanted [] t e = ground (arith, e)
find_token_of_wanted wanted (x ∷ ts) t e = elim (Bool-cases (wanted x)) [
  | inl f ↦ ground (arith, e, f)
  | inr f ↦ ground (arith, e, f, find_token_of_wanted wanted ts t)
]

-- GetTokenByIds
unfoldable pub get_token_by_ids : ℕ → ℕ → M Token
get_token_by_ids id user_id =
    if id == 0
    then throw (message "id or userId is empty!")
    else if user_id == 0
    then throw (message "id or userId is empty!")
    else (do
      statement
      w ← get
      elim (find_token_of (λ t. t.id == id && t.user_id == user_id) w.tokens) [
        | none ↦ throw record_not_found
        | some t ↦ return t
      ])

-- DeleteTokenById: only a token of the user.
unfoldable pub delete_token_by_id : ℕ → ℕ → M (Unit {0})
delete_token_by_id id user_id = do t ← get_token_by_ids id user_id; token_delete t
