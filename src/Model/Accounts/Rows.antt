-- ===== src/Model/Accounts/Rows.antt =====
-- What the writes of model/user.go do to the table of users: each changes at most the row of one
-- id, and of that row the role only as it is told.
use new_api_blues.Prelude.{
  ℕ, suc, String, Bool, true, false, some, ◌⊎◌, inl, inr, List, [], ◌∷◌, ◌++◌, str_eq, ◌≡◌, refl,
  ap, subst, sym, ◌∙◌, arith, ◌==◌, Bool-cases, Option-cases,
}
use new_api_blues.Model.Store.{
  World, User, Error, Result, message, database, record_not_found, find_row_id, user_row, ok, err,
  user_id_of, update_rows, statement_cases, Result-cases, then_return, then_do, return, ◌>>◌,
}
use new_api_blues.Model.Quota.{Config}
use new_api_blues.Model.Tokens.{has_key, token_insert}
use new_api_blues.Model.Accounts.{
  Bonus, Drawn, role_common_user, user_status_enabled, text_or, insert_row, insert_default_token,
  default_token, insert_user, invitation_bonus, no_user, masked, get_user_by_id, number_or, patch,
  conflicts, violates, updates, ban_user, unban_user, user_update, user_delete, delete_user_by_id,
}

-- The users of a world are changed in the row of one id at most, where the role is kept or is the
-- one given (0 stands for none).
abbrev pub Changed : ℕ → ℕ → World → World → Type 0
Changed id role w v =
    (f : User → User) × (v.users ≡ update_rows user_id_of id f w.users)
    × ((x : User) → (f x).id ≡ x.id)
    × ((x : User) → ((f x).role ≡ x.role) ⊎ ((f x).role ≡ number_or role x.role))
    × (v.next_user ≡ w.next_user)

pub update_rows-same : (id : ℕ) (xs : List User) → update_rows user_id_of id (λ x. x) xs ≡ xs
unfolding update_rows
update_rows-same id [] = refl
update_rows-same id (x ∷ xs) = ground (arith, update_rows-same id xs)

pub Changed-same :
    (id role : ℕ) (w v : World)
    → v.users ≡ w.users
    → v.next_user ≡ w.next_user
    → Changed id role w v
Changed-same id role w v users next =
    (λ x. x, users ∙ sym (update_rows-same id w.users), λ x. refl, λ x. inl refl, next)

pub patch-id : (u x : User) → (patch u x).id ≡ x.id
unfolding patch
patch-id u x = refl

patch-role : (u x : User) → (patch u x).role ≡ number_or u.role x.role
unfolding patch
patch-role u x = refl

pub updates_lem : (u : User) (w : World) → Changed u.id u.role w (updates u w).1
unfolding updates
updates_lem u w =
    let (fs, outcome) = statement_cases w in
    elim (Bool-cases (u.id == 0)) [
      | inl e ↦ Changed-same u.id u.role w (updates u w).1 (rw e refl) (rw e refl)
      | inr e ↦ elim outcome [
        | inl s ↦ Changed-same u.id u.role w (updates u w).1 (rw (e, s) refl) (rw (e, s) refl)
        | inr s ↦ elim (Bool-cases (violates u w.users)) [
          | inl c ↦
              Changed-same u.id u.role w (updates u w).1 (rw (e, s, c) refl) (rw (e, s, c) refl)
          | inr c ↦
              (patch u, rw (e, s, c) refl, patch-id u, λ x. inr (patch-role u x), rw (e, s, c) refl)
        ]
      ]
    ]

module _ (hash : String → Result String) where
  write_lem :
      (u : User) (password : String) (w : World)
      → Changed u.id u.role w (user_update (λ _. ok password) true u w).1
  unfolding user_update ban_user unban_user
  write_lem u password w =
      let user = record u { password = password } in
      elim (Bool-cases (u.status == 2)) [
        | inl e ↦ rw e (updates_lem user (record w { banned = u.id ∷ w.banned }))
        | inr e ↦ elim (Bool-cases (u.status == 1)) [
          | inl f ↦ rw (e, f) (updates_lem user (unban_user u.id w).1)
          | inr f ↦ rw (e, f) (updates_lem user w)
        ]
      ]

  pub user_update_lem :
      (update_password : Bool) (u : User) (w : World)
      → Changed u.id u.role w (user_update hash update_password u w).1
  unfolding user_update
  user_update_lem true u w = elim (Result-cases (hash u.password)) [
    | inl (p, e) ↦ rw e (write_lem u p w)
    | inr (x, e) ↦ Changed-same u.id u.role w (user_update hash true u w).1 (rw e refl) (rw e refl)
  ]
  user_update_lem false u w = write_lem u u.password w

  pub user_delete_lem :
      (uuid : String) (u : User) (w : World) → Changed u.id u.role w (user_delete hash uuid u w).1
  unfolding user_delete ban_user
  user_delete_lem uuid u w =
      let gone = record u { username = uuid; status = 3 } in
      elim (Bool-cases (u.id == 0)) [
        | inl e ↦ Changed-same u.id u.role w (user_delete hash uuid u w).1 (rw e refl) (rw e refl)
        | inr e ↦
            let v = record w { banned = u.id ∷ w.banned } in
            rw (e, then_return (updates gone) (λ _. gone) v) (updates_lem gone v)
      ]

  pub delete_user_by_id_lem :
      (uuid : String) (id : ℕ) (w : World) → Changed id 0 w (delete_user_by_id hash uuid id w).1
  unfolding delete_user_by_id
  delete_user_by_id_lem uuid id w =
      let u = record no_user { id = id } in
      elim (Bool-cases (id == 0)) [
        | inl e ↦ Changed-same id 0 w (delete_user_by_id hash uuid id w).1 (rw e refl) (rw e refl)
        | inr e ↦
            rw (e, then_return (user_delete hash uuid u) (λ _. tt) w) (user_delete_lem uuid u w)
      ]

update_rows-twice :
    (id : ℕ) (f g : User → User) (xs : List User)
    → ((x : User) → (f x).id ≡ x.id)
    → update_rows user_id_of id g (update_rows user_id_of id f xs)
      ≡ update_rows user_id_of id (λ x. g (f x)) xs
unfolding update_rows
update_rows-twice id f g [] keep = refl
update_rows-twice id f g (x ∷ xs) keep = elim (Bool-cases (x.id == id)) [
  | inl e ↦ rw (e, keep x, e, update_rows-twice id f g xs keep) refl
  | inr e ↦ rw (e, e, update_rows-twice id f g xs keep) refl
]

-- Two changes of one row are one.
pub Changed-then :
    (id role : ℕ) (w v t : World) → Changed id role w v → Changed id role v t → Changed id role w t
Changed-then id role w v t (f, e, fi, fr, n) (g, d, gi, gr, m) = (
  λ x. g (f x),
  d ∙ ap (update_rows user_id_of id g) e ∙ update_rows-twice id f g w.users fi,
  λ x. gi (f x) ∙ fi x,
  λ x. ground (arith, fr x, gr (f x)),
  m ∙ n,
)

pub Changed-weak : (id role : ℕ) (w v : World) → Changed id 0 w v → Changed id role w v
Changed-weak id role w v (f, e, i, r, n) = (f, e, i, λ x. inl ground (arith, r x), n)

-- A row is appended: with the next id, and as a common user unless another role is asked for.
abbrev pub Added : User → World → World → Type 0
Added u w v =
    (row : User) × (v.users ≡ w.users ++ row ∷ [])
    × (row.id ≡ w.next_user)
    × (row.role ≡ number_or u.role role_common_user)
    × (v.next_user ≡ suc w.next_user)

abbrev pub AddedOrSame : User → World → World → Type 0
AddedOrSame u w v = ((v.users ≡ w.users) × (v.next_user ≡ w.next_user)) ⊎ Added u w v

insert_row_lem : (u : User) (w : World) → AddedOrSame u w (insert_row u w).1
unfolding insert_row
insert_row_lem u w =
    let (fs, outcome) = statement_cases w in
    elim outcome [
      | inl s ↦ inl (rw s refl, rw s refl)
      | inr s ↦
          let row = record u {
            id = w.next_user;
            role = number_or u.role role_common_user;
            status = number_or u.status user_status_enabled;
            group = text_or u.group "default";
          } in
          elim (Bool-cases (conflicts str_eq row w.users)) [
            | inl c ↦ inl (rw (s, c) refl, rw (s, c) refl)
            | inr c ↦ inr (row, rw (s, c) refl, refl, refl, rw (s, c) refl)
          ]
    ]

insert_default_token_lem :
    (id : ℕ) (key : String) (w : World)
    → ((insert_default_token id key w).1.users ≡ w.users)
      × ((insert_default_token id key w).1.next_user ≡ w.next_user)
unfolding insert_default_token token_insert default_token
insert_default_token_lem id key w =
    let (fs, outcome) = statement_cases w in
    elim outcome [
      | inl s ↦ (rw s refl, rw s refl)
      | inr s ↦ elim (Bool-cases (has_key key w.tokens)) [
        | inl c ↦ (rw (s, c) refl, rw (s, c) refl)
        | inr c ↦ (rw (s, c) refl, rw (s, c) refl)
      ]
    ]

-- An insertion without an inviter adds one row at most.
pub insert_user_lem :
    (hash : String → Result String) (config : Config) (bonus : Bonus) (drawn : Drawn) (u : User)
    (w : World)
    → AddedOrSame u w (insert_user hash config bonus drawn u 0 w).1
unfolding insert_user invitation_bonus insert_default_token
insert_user_lem hash config bonus drawn u w = elim (Bool-cases (str_eq u.password "")) [
  | inl e ↦ rw e (stored "" (insert_row (filled "") w) refl)
  | inr e ↦ elim (Result-cases (hash u.password)) [
    | inl (p, h) ↦ rw (e, h) (stored p (insert_row (filled p) w) refl)
    | inr (x, h) ↦ inl (rw (e, h) refl, rw (e, h) refl)
  ]
]
  where
    filled : String → User
    filled p = record u {
      password = p;
      quota = bonus.quota_for_new_user;
      access_token = drawn.uuid;
      aff_code = drawn.aff_code;
    }

    stored :
        (p : String) (r : Result ℕ × World)
        → insert_row (filled p) w ≡ r
        → AddedOrSame u w
            (then_do r (λ id. do
              invitation_bonus config bonus id 0
              insert_default_token id drawn.key
              return (record (filled p) { id = id }))).1
    stored p (err x, v) e = subst (λ r. AddedOrSame u w r.1) e (insert_row_lem (filled p) w)
    stored p (ok id, v) e =
        rw
          ((insert_default_token_lem id drawn.key v).0, (insert_default_token_lem id drawn.key v).1)
          (subst (λ r. AddedOrSame u w r.1) e (insert_row_lem (filled p) w))

-- A look-up by id fails, or gives a row with that id; the tables stay as they are.
pub get_user_by_id_lem :
    (id : ℕ) (select_all : Bool) (w : World)
    → (fs : List Bool) × (((e : Error) × (get_user_by_id id select_all w
            ≡ (err e, record w { faults = fs })))
        ⊎ ((x : User) × (x.id ≡ id)
            × (user_row w x.id ≡ some x)
            × (get_user_by_id id select_all w
                ≡ (ok (masked select_all x), record w { faults = fs }))))
unfolding get_user_by_id
get_user_by_id_lem id select_all w =
    let (fs, outcome) = statement_cases w in
    elim (Bool-cases (id == 0)) [
      | inl e ↦ (w.faults, inl (message "id is empty!", rw e refl))
      | inr e ↦ elim outcome [
        | inl s ↦ (fs, inl (database, rw (e, s) refl))
        | inr s ↦ elim (Option-cases (user_row w id)) [
          | inl n ↦ (fs, inl (record_not_found, ground (arith, e, s, n)))
          | inr (x, f) ↦
              let i = find_row_id user_id_of id w.users x f in
              (
                fs,
                inr (x, i, subst (λ j. user_row w j ≡ some x) (sym i) f, ground (arith, e, s, f)),
              )
        ]
      ]
    ]
