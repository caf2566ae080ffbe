-- ===== src/Model/Accounts/Login.antt =====
-- A user who was inserted can log in with the password given (model/user.go).
use new_api_blues.Prelude.{
  ℕ, suc, String, str_eq, eq_iff, Bool, true, false, some, inl, inr, List, [], ◌∷◌, ◌++◌, ◌==◌, ◌≡◌,
  refl, ap, ◌∙◌, arith, Bool-cases,
}
use new_api_blues.Model.Store.{World, User, Result, ok, statement_ok}
use new_api_blues.Model.Quota.{Config}
use new_api_blues.Model.Tokens.{token_insert, has_key}
use new_api_blues.Model.Accounts.{
  Bonus, Drawn, conflicts, find_user_by, first_user_by, find_login, validate_and_fill, insert_row,
  insert_user, insert_default_token, invitation_bonus, number_or, text_or, default_token,
}
use new_api_blues.Model.Accounts.Ids.{InOrder, InOrder-le, IdsInOrder}

-- The row that User.Insert makes of a user with a hashed password.
abbrev pub inserted : Bonus → Drawn → String → User → World → User
inserted bonus drawn hashed u w = record u {
  id = w.next_user;
  password = hashed;
  role = number_or u.role 1;
  status = number_or u.status 1;
  access_token = drawn.uuid;
  quota = bonus.quota_for_new_user;
  group = text_or u.group "default";
  aff_code = drawn.aff_code;
}

-- A name that no other row has is found at the end.
found_at_end :
    (from next : ℕ) (xs : List User) (row : User)
    → InOrder from next xs
    → row.id ≡ next
    → conflicts str_eq row xs ≡ false
    → find_user_by (λ x. x.username) row.username (xs ++ row ∷ []) ≡ some row
unfolding InOrder conflicts find_user_by
found_at_end from next [] row h i c = ground (arith, eq_iff row.username row.username)
found_at_end from next (x ∷ xs) row (h, hs) i c =
    let below = InOrder-le (suc x.id) next xs hs in
    elim (Bool-cases (str_eq x.username row.username)) [
      | inl e ↦
          ground
            (arith, e, c, i, below, eq_iff x.username row.username, eq_iff row.username x.username)
      | inr e ↦ rw e (found_at_end (suc x.id) next xs row hs i ground (arith, c))
    ]

stored_token :
    (id : ℕ) (key : String) (w : World)
    → w.faults ≡ []
    → ((insert_default_token id key w).1.users ≡ w.users)
      × ((insert_default_token id key w).1.faults ≡ [])
unfolding insert_default_token token_insert default_token
stored_token id key w h = elim (Bool-cases (has_key key w.tokens)) [
  | inl k ↦ rw (statement_ok w h, k) (refl, h)
  | inr k ↦ rw (statement_ok w h, k) (refl, h)
]

first_ok :
    (name : String) (row : User) (w : World)
    → w.faults ≡ []
    → find_user_by (λ x. x.username) name w.users ≡ some row
    → first_user_by (λ x. x.username) name w ≡ (ok row, w)
unfolding first_user_by
first_ok name row w h f = ground (arith, statement_ok w h, f)

find_ok :
    (name : String) (row : User) (w : World)
    → w.faults ≡ []
    → find_user_by (λ x. x.username) name w.users ≡ some row
    → find_login name w ≡ (ok row, w)
unfolding find_login
find_ok name row w h f = rw (first_ok name row w h f) refl

login_found :
    (verify : String → String → Bool) (name password : String) (row : User) (w : World)
    → w.faults ≡ []
    → str_eq name "" ≡ false
    → str_eq password "" ≡ false
    → find_user_by (λ x. x.username) name w.users ≡ some row
    → verify password row.password ≡ true
    → (row.status == 1) ≡ true
    → (validate_and_fill verify name password w).0 ≡ ok row
unfolding validate_and_fill
login_found verify name password row w h n p f v s = rw (n, p, find_ok name row w h f, v, s) refl

-- If the hash of a password is one that the password is verified by, the name and the password
-- are not empty, the status is none or "enabled", and no other row has the name, the access token
-- or the code of the new row, then a login with that name and password right after User.Insert
-- without an inviter gives the new row: the next id, a common user unless a role was given, and the quota of new
-- users. No statement fails, and the ids of the users are in order.
pub insert-login :
    (hash : String → Result String) (verify : String → String → Bool) (config : Config)
    (bonus : Bonus) (drawn : Drawn) (u : User) (hashed : String) (w : World)
    → w.faults ≡ []
    → IdsInOrder w
    → str_eq u.username "" ≡ false
    → str_eq u.password "" ≡ false
    → hash u.password ≡ ok hashed
    → verify u.password hashed ≡ true
    → (number_or u.status 1 == 1) ≡ true
    → conflicts str_eq (inserted bonus drawn hashed u w) w.users ≡ false
    → (validate_and_fill verify u.username u.password
        (insert_user hash config bonus drawn u 0 w).1).0
      ≡ ok (inserted bonus drawn hashed u w)
unfolding insert_user insert_row invitation_bonus insert_default_token
insert-login hash verify config bonus drawn u hashed w h o n p g v s c =
    let row = inserted bonus drawn hashed u w in
    let stored : World = record w { users = w.users ++ row ∷ []; next_user = suc w.next_user } in
    let (users, faults) = stored_token row.id drawn.key stored h in
    rw (p, g, statement_ok w h, c)
      (login_found verify u.username u.password row (insert_default_token row.id drawn.key stored).1
        faults n p
        (ap (find_user_by (λ x. x.username) u.username) users
          ∙ found_at_end 0 w.next_user w.users row o refl c)
        v s)
