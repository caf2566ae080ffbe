-- ===== src/Controller/Users/Own.antt =====
-- What a user can change of the own row (controller/user.go).
use new_api_blues.Prelude.{
  ℕ, String, str_eq, Bool, true, false, not, Option, none, some, inl, inr, ◌⊎◌, ◌==◌, ◌≡◌, refl,
  ◌∙◌, Bool-cases,
}
use new_api_blues.Model.Store.{
  World, User, Result, user_row, user_id_of, find_row-update_rows, map_if, update_rows,
  statement_cases, Result-cases, then_return, return, ◌>>=◌,
}
use new_api_blues.Model.Accounts.{no_user, patch, violates, updates, user_update}
use new_api_blues.Controller.Users.{
  Actor, success, update_self, with_placeholder, without_placeholder,
}
use new_api_blues.Controller.Users.Commands.{reply_world}

-- The users after the row of an id was patched, or not at all.
abbrev Patched : (id : ℕ) → (name display : String) → World → World → Type 0
Patched id name display w v =
    (v.users ≡ w.users)
    ⊎ ((p : String) × (v.users
          ≡ update_rows user_id_of id
              (patch
                (record no_user { id = id; username = name; password = p; display_name = display }))
              w.users))

updates-Patched :
    (id : ℕ) (name display p : String) (w : World)
    → Patched id name display w
        (updates
          (record no_user { id = id; username = name; password = p; display_name = display })
          w).1
unfolding updates
updates-Patched id name display p w =
    let u : User = record no_user {
      id = id;
      username = name;
      password = p;
      display_name = display;
    } in
    let (fs, outcome) = statement_cases w in
    elim (Bool-cases (id == 0)) [
      | inl e ↦ rw e (inl refl)
      | inr e ↦ elim outcome [
        | inl s ↦ rw (e, s) (inl refl)
        | inr s ↦ elim (Bool-cases (violates u w.users)) [
          | inl c ↦ rw (e, s, c) (inl refl)
          | inr c ↦ rw (e, s, c) (inr (p, refl))
        ]
      ]
    ]

user_update-Patched :
    (hash : String → Result String) (flag : Bool) (id : ℕ) (name display p : String) (w : World)
    → Patched id name display w
        (user_update hash flag
          (record no_user { id = id; username = name; password = p; display_name = display })
          w).1
unfolding user_update
user_update-Patched hash false id name display p w = updates-Patched id name display p w
user_update-Patched hash true id name display p w = elim (Result-cases (hash p)) [
  | inl (h, e) ↦ rw e (updates-Patched id name display h w)
  | inr (x, e) ↦ rw e (inl refl)
]

-- What of a row is kept by the patch of a name, a password and a display name.
abbrev pub Same : User → User → Type 0
Same x y =
    (y.id ≡ x.id)
    × (y.role ≡ x.role)
    × (y.status ≡ x.status)
    × (y.quota ≡ x.quota)
    × (y.used_quota ≡ x.used_quota)
    × (y.group ≡ x.group)
    × (y.email ≡ x.email)
    × (y.access_token ≡ x.access_token)
    × (y.aff_code ≡ x.aff_code)

Patched-Same :
    (id j : ℕ) (name display : String) (w v : World) (x : User)
    → Patched id name display w v
    → user_row w j ≡ some x
    → (y : User) × (user_row v j ≡ some y) × Same x y × (((j == id) ≡ true) ⊎ (y ≡ x))
unfolding patch
Patched-Same id j name display w v x (inl e) f =
    (x, rw e f, (refl, refl, refl, refl, refl, refl, refl, refl, refl), inr refl)
Patched-Same id j name display w v x (inr (p, e)) f =
    let u : User = record no_user {
      id = id;
      username = name;
      password = p;
      display_name = display;
    } in
    let rows : user_row v j ≡ map_if (j == id) (patch u) (user_row w j) =
      rw e (find_row-update_rows user_id_of id j (patch u) w.users (λ z. refl)) in
    elim (Bool-cases (j == id)) [
      | inl t ↦ (
        patch u x,
        rows ∙ rw (t, f) refl,
        (refl, refl, refl, refl, refl, refl, refl, refl, refl),
        inl t,
      )
      | inr t ↦ (
        x,
        rows ∙ rw (t, f) refl,
        (refl, refl, refl, refl, refl, refl, refl, refl, refl),
        inr refl,
      )
    ]

update_self-Patched :
    (valid : User → Bool) (hash : String → Result String) (actor : Actor) (body : Option User)
    (w : World)
    → (name : String) × (display : String) × Patched actor.id name display w
        (update_self valid hash actor body w).1
unfolding update_self
update_self-Patched valid hash actor none w = ("", "", inl refl)
update_self-Patched valid hash actor (some body) w =
    let u = without_placeholder (with_placeholder body) in
    let own : User = record no_user {
      id = actor.id;
      username = u.username;
      password = u.password;
      display_name = u.display_name;
    } in
    let write = user_update hash (not (str_eq u.password "")) own in
    elim (Bool-cases (valid (with_placeholder body))) [
      | inr e ↦ (u.username, u.display_name, rw e (inl refl))
      | inl e ↦ (
        u.username,
        u.display_name,
        rw (e, reply_world ((write >>= λ _. return success) w), then_return write (λ _. success) w)
            (user_update-Patched hash (not (str_eq u.password "")) actor.id u.username
              u.display_name u.password w),
      )
    ]

-- After UpdateSelf, whatever the request asks for, every user who had a row has one, with the same
-- id, role, status, quota, used quota, group, e-mail address, access token and code; and the rows
-- of all users but the caller are as they were.
pub update_self-Same :
    (valid : User → Bool) (hash : String → Result String) (actor : Actor) (body : Option User)
    (w : World) (id : ℕ) (x : User)
    → user_row w id ≡ some x
    → (y : User) × (user_row (update_self valid hash actor body w).1 id ≡ some y)
      × Same x y
      × (((id == actor.id) ≡ true) ⊎ (y ≡ x))
update_self-Same valid hash actor body w id x f =
    let (name, display, p) = update_self-Patched valid hash actor body w in
    Patched-Same actor.id id name display w (update_self valid hash actor body w).1 x p f
