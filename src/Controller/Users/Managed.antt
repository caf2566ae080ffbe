-- ===== src/Controller/Users/Managed.antt =====
-- The management commands of controller/user.go (the routes behind AdminAuth) as data, what they may
-- do to the table of users, and what the switch of ManageUser gives.
use new_api_blues.Prelude.{
  some, suc, Option, [], ◌∷◌, ◌++◌, ℕ, ◌≤◌, String, str_eq, Bool, true, false, ◌⊎◌, inl, inr, ◌≡◌,
  refl, arith, ◌==◌, if◌then◌else◌, leb, not,
}
use new_api_blues.Model.Store.{user_row, World, User, M, Result, Error, ok, err, then_do, return}
use new_api_blues.Model.Accounts.{Bonus, Drawn, updates, ban_user, user_delete}
use new_api_blues.Model.Accounts.Rows.{Changed, Changed-same, updates_lem}
use new_api_blues.Model.Quota.{Config}
use new_api_blues.Controller.Users.{
  Handler, ManageRequest, update_user, delete_user, create_user, manage_user, Actor, outranked,
  manage_action,
}

-- The role is below the actor's, or the actor is the root user.
abbrev pub Allowed : Actor → ℕ → Type 0
Allowed actor role = outranked actor role ≡ false

-- A switch of ManageUser run on a user: it fails, or gives the user to write, with the id of the
-- one before and a role that the actor may give.
abbrev pub Managing : Actor → User → World → Result User × World → Type 0
Managing actor u w r =
    ((e : Error) × (r.0 ≡ err e) × Changed u.id u.role w r.1)
    ⊎ ((c : User) × (r.0 ≡ ok c) × (c.id ≡ u.id) × Allowed actor c.role × Changed u.id c.role w r.1)

branch :
    (actor : Actor) (u : User) (w : World) (b : Bool) (m n : M User)
    → (b ≡ true → Managing actor u w (m w))
    → (b ≡ false → Managing actor u w (n w))
    → Managing actor u w ((if b then m else n) w)
branch actor u w true m n f g = f refl
branch actor u w false m n f g = g refl

refused : (actor : Actor) (u : User) (w : World) (e : Error) → Managing actor u w (err e, w)
refused actor u w e = inl (e, refl, Changed-same u.id u.role w w refl refl)

given :
    (actor : Actor) (u : User) (w : World) (c : User)
    → c.id ≡ u.id
    → Allowed actor c.role
    → Managing actor u w (ok c, w)
given actor u w c i a = inr (c, refl, i, a, Changed-same u.id c.role w w refl refl)

deleted :
    (actor : Actor) (u : User) (w : World) (uuid : String) (r : Result (Unit {0}) × World)
    → Allowed actor u.role
    → Changed u.id u.role w r.1
    → Managing actor u w (then_do r (λ _. return (record u { username = uuid; status = 3 })))
deleted actor u w uuid (ok _, v) a c =
    inr (record u { username = uuid; status = 3 }, refl, refl, a, c)
deleted actor u w uuid (err e, v) a c = inl (e, refl, c)

module _ (hash : String → Result String) (uuid : String) (actor : Actor) where
  delete_action_lem :
      (u : User) (w : World) → Allowed actor u.role → Managing actor u w (user_delete hash uuid u w)
  unfolding user_delete ban_user
  delete_action_lem u w a =
      let gone = record u { username = uuid; status = 3 } in
      branch actor u w (u.id == 0) _ _ (λ _. refused actor u w _)
        λ _.
          deleted actor u w uuid (updates gone (record w { banned = u.id ∷ w.banned })) a
            (updates_lem gone (record w { banned = u.id ∷ w.banned }))

  pub manage_action_lem :
      (action : String) (u : User) (w : World)
      → 10 ≤ actor.role
      → Allowed actor u.role
      → Managing actor u w (manage_action hash uuid actor action u w)
  unfolding manage_action
  manage_action_lem action u w admin a =
      branch actor u w (str_eq action "disable") _ _
        (λ _.
          branch actor u w (u.role == 100) _ _ (λ _. refused actor u w _)
            (λ _. given actor u w _ refl a))
        λ _.
          branch actor u w (str_eq action "enable") _ _ (λ _. given actor u w _ refl a)
            λ _.
              branch actor u w (str_eq action "delete") _ _
                (λ _.
                  branch actor u w (u.role == 100) _ _ (λ _. refused actor u w _)
                    (λ _. delete_action_lem u w a))
                λ _.
                  branch actor u w (str_eq action "promote") _ _
                    (λ _.
                      branch actor u w (not (actor.role == 100)) _ _ (λ _. refused actor u w _)
                        (λ root.
                          branch actor u w (leb 10 u.role) _ _ (λ _. refused actor u w _)
                            (λ _. given actor u w _ refl ground (arith, root))))
                    λ _.
                      branch actor u w (str_eq action "demote") _ _
                        (λ _.
                          branch actor u w (u.role == 100) _ _ (λ _. refused actor u w _)
                            (λ _.
                              branch actor u w (u.role == 1) _ _ (λ _. refused actor u w _)
                                (λ _. given actor u w _ refl ground (arith, admin))))
                        (λ _. given actor u w u refl a)

pub data Command : Type 0 where
  update : Option User → Command
  delete : (uuid : String) → Option ℕ → Command
  create : Bonus → Drawn → Option User → Command
  manage : (uuid : String) → Option ManageRequest → Command

unfoldable pub run :
    (valid : User → Bool) (hash : String → Result String) (config : Config)
    → Actor
    → Command
    → Handler
run valid hash config actor (update body) = update_user valid hash actor body
run valid hash config actor (delete uuid id) = delete_user hash uuid actor id
run valid hash config actor (create bonus drawn body) =
    create_user valid hash config bonus drawn actor body
run valid hash config actor (manage uuid request) = manage_user hash uuid actor request

-- What a command may do: nothing; change one row, whose role before and after the actor may
-- give; or append the row of a common user.
pub data Managed (actor : Actor) (w v : World) : Type 0 where
  untouched : v.users ≡ w.users → v.next_user ≡ w.next_user → Managed actor w v
  changed :
      (x : User) (role : ℕ)
      → user_row w x.id ≡ some x
      → Allowed actor x.role
      → Allowed actor role
      → Changed x.id role w v
      → Managed actor w v
  added :
      (row : User)
      → v.users ≡ w.users ++ row ∷ []
      → row.id ≡ w.next_user
      → row.role ≡ 1
      → v.next_user ≡ suc w.next_user
      → Managed actor w v
