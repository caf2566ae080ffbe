-- ===== src/Controller/Users/Rank.antt =====
-- What administrators can do to the users above and below them (controller/user.go).
use new_api_blues.Prelude.{
  ℕ, ◌≤◌, String, Bool, true, false, Option, none, some, ◌⊎◌, inl, inr, List, [], ◌∷◌, ◌≡◌, refl,
  ap, sym, ◌∙◌, subst, arith, ◌==◌, if◌then◌else◌, Bool-cases, Option-cases, leb, ==_iff,
}
use new_api_blues.Model.Store.{
  World, User, Result, user_id_of, user_row, find_row-update_rows, map_if,
}
use new_api_blues.Model.Quota.{Config}
use new_api_blues.Model.Accounts.Rows.{Changed}
use new_api_blues.Model.Accounts.Ids.{
  IdsInOrder, InOrder-append, InOrder-update_rows, find_row-append, find_row_bounds,
}
use new_api_blues.Controller.Users.{Actor, outranked}
use new_api_blues.Controller.Users.Commands.{run_lem}
use new_api_blues.Controller.Users.Managed.{Command, run, Managed, untouched, changed, added}

-- The row of an id after a row was changed.
row-Changed :
    (id j role : ℕ) (w v : World) (c : Changed id role w v)
    → user_row v j ≡ map_if (j == id) c.0 (user_row w j)
row-Changed id j role w v (f, e, i, r, n) = rw e (find_row-update_rows user_id_of id j f w.users i)

kept_in_order : (actor : Actor) (w v : World) → IdsInOrder w → Managed actor w v → IdsInOrder v
kept_in_order actor w v h (untouched users next) = rw (users, next) h
kept_in_order actor w v h (changed x role e a b (f, users, i, r, next)) =
    rw (users, next) (InOrder-update_rows 0 w.next_user x.id f w.users i h)
kept_in_order actor w v h (added row users i r next) =
    rw (users, next) (InOrder-append 0 w.next_user w.users row h i)

kept_row :
    (actor : Actor) (w v : World) (x : User) (id : ℕ)
    → IdsInOrder w
    → Managed actor w v
    → user_row w id ≡ some x
    → outranked actor x.role ≡ true
    → user_row v id ≡ some x
kept_row actor w v x id h (untouched users next) e o = rw users e
kept_row actor w v x id h (changed y role d a b c) e o = elim (Bool-cases (id == y.id)) [
  | inl s ↦
      ground (arith, e, o, a, subst (λ j. user_row w j ≡ some y) (sym ((==_iff id y.id).0 s)) d)
  | inr s ↦ row-Changed y.id id role w v c ∙ rw (s, e) refl
]
kept_row actor w v x id h (added row users i r next) e o = ground (
  arith,
  users,
  find_row-append 0 w.next_user id w.users row h i,
  e,
  find_row_bounds 0 w.next_user id w.users x h e,
)

given_role :
    (actor : Actor) (w v : World) (y : User) (id : ℕ)
    → 10 ≤ actor.role
    → IdsInOrder w
    → Managed actor w v
    → user_row v id ≡ some y
    → ((x : User) × (user_row w id ≡ some x) × (y.role ≡ x.role)) ⊎ (outranked actor y.role ≡ false)
given_role actor w v y id admin h (untouched users next) e = inl (y, rw⁻¹ users e, refl)
given_role actor w v y id admin h (changed x role d a b (f, users, i, r, next)) e =
    let rows = row-Changed x.id id role w v (f, users, i, r, next) in
    elim (Option-cases (user_row w id)) [
      | inl n ↦ ground (arith, e, n, rows)
      | inr (z, n) ↦ elim (Bool-cases (id == x.id)) [
        | inr s ↦ inl (z, n, ground (arith, e, n, rows, s))
        | inl s ↦ elim (r z) [
          | inl k ↦ inl (z, n, ground (arith, e, n, rows, s, k))
          | inr k ↦ elim (Bool-cases (role == 0)) [
            | inl t ↦ inl (z, n, ground (arith, e, n, rows, s, k, t))
            | inr t ↦ inr ground (arith, e, n, rows, s, k, t, b)
          ]
        ]
      ]
    ]
given_role actor w v y id admin h (added row users i r next) e =
    elim (Bool-cases (id == w.next_user)) [
      | inl s ↦
          inr ground
            (arith, e, users, find_row-append 0 w.next_user id w.users row h i, s, r, admin)
      | inr s ↦
          inl
            (y, ground (arith, e, users, find_row-append 0 w.next_user id w.users row h i, s), refl)
    ]

-- The rows of administrators, which one sees through the id.
abbrev pub admin_of : Option User → Option User
admin_of none = none
admin_of (some x) = if leb 10 x.role then some x else none

abbrev pub admin_row : World → ℕ → Option User
admin_row w id = admin_of (user_row w id)

-- A list of commands, run one after the other, each by its own actor.
unfoldable pub run_all :
    (valid : User → Bool) (hash : String → Result String) (config : Config)
    → List (Actor × Command)
    → World
    → World
run_all valid hash config [] w = w
run_all valid hash config ((actor, c) ∷ cs) w =
    run_all valid hash config cs (run valid hash config actor c w).1

unfoldable pub AllAdmins : List (Actor × Command) → Type 0
AllAdmins [] = Unit {0}
AllAdmins ((actor, c) ∷ cs) = (actor.role ≡ 10) × AllAdmins cs

module _ (valid : User → Bool) (hash : String → Result String) (config : Config) where
  -- If the ids of the users ascend and stay below the next id, they do so after any management
  -- command (UpdateUser, DeleteUser, CreateUser, ManageUser) of an actor whose role is 10 or more.
  pub run-IdsInOrder :
      (actor : Actor) (c : Command) (w : World)
      → 10 ≤ actor.role
      → IdsInOrder w
      → IdsInOrder (run valid hash config actor c w).1
  run-IdsInOrder actor c w admin h =
      kept_in_order actor w (run valid hash config actor c w).1 h
        (run_lem valid hash config actor admin c w h)

  -- A management command of an actor whose role is 10 or more and not the root user's 100 leaves
  -- the whole row of every user whose role is the actor's or above as it is, the actor's own row
  -- included, if the ids are in order.
  pub run-protects :
      (actor : Actor) (c : Command) (w : World) (id : ℕ) (x : User)
      → 10 ≤ actor.role
      → IdsInOrder w
      → user_row w id ≡ some x
      → outranked actor x.role ≡ true
      → user_row (run valid hash config actor c w).1 id ≡ some x
  run-protects actor c w id x admin h e o =
      kept_row actor w (run valid hash config actor c w).1 x id h
        (run_lem valid hash config actor admin c w h) e o

  -- If a user has a role after a management command of an actor whose role is 10 or more, either
  -- the user had that role before, or the actor may give it: it is below the actor's, or the
  -- actor is the root user. The ids are in order.
  pub run-grants :
      (actor : Actor) (c : Command) (w : World) (id : ℕ) (y : User)
      → 10 ≤ actor.role
      → IdsInOrder w
      → user_row (run valid hash config actor c w).1 id ≡ some y
      → ((x : User) × (user_row w id ≡ some x) × (y.role ≡ x.role))
        ⊎ (outranked actor y.role ≡ false)
  run-grants actor c w id y admin h e =
      given_role actor w (run valid hash config actor c w).1 y id admin h
        (run_lem valid hash config actor admin c w h) e

  none_made :
      (actor : Actor) (c : Command) (w : World) (id : ℕ)
      → actor.role ≡ 10
      → IdsInOrder w
      → admin_row w id ≡ none
      → admin_row (run valid hash config actor c w).1 id ≡ admin_row w id
  none_made actor c w id role h n =
      elim (Option-cases (user_row (run valid hash config actor c w).1 id)) [
        | inl e ↦ ground (arith, e, n)
        | inr (y, e) ↦ elim (run-grants actor c w id y ground (arith, role) h e) [
          | inr a ↦ ground (arith, e, n, role, a)
          | inl (x, f, k) ↦ ground (arith, e, n, f, k)
        ]
      ]

  admin_row-run :
      (actor : Actor) (c : Command) (w : World) (id : ℕ)
      → actor.role ≡ 10
      → IdsInOrder w
      → admin_row (run valid hash config actor c w).1 id ≡ admin_row w id
  admin_row-run actor c w id role h =
      let v = (run valid hash config actor c w).1 in
      elim (Option-cases (user_row w id)) [
        | inl n ↦ none_made actor c w id role h ground (arith, n)
        | inr (x, f) ↦ elim (Bool-cases (leb 10 x.role)) [
          | inl o ↦
              ap admin_of (
                run-protects actor c w id x ground (arith, role) h f ground (arith, role, o)
                ∙ sym f)
          | inr o ↦ none_made actor c w id role h ground (arith, f, o)
        ]
      ]

  -- Any sequence of management commands by actors of role 10 leaves the rows of the
  -- administrators exactly as they are: none is changed or removed, and no user becomes one. The
  -- ids are in order at the start.
  pub run_all-admins :
      (cs : List (Actor × Command)) (w : World) (id : ℕ)
      → AllAdmins cs
      → IdsInOrder w
      → admin_row (run_all valid hash config cs w) id ≡ admin_row w id
  unfolding run_all AllAdmins
  run_all-admins [] w id a h = refl
  run_all-admins ((actor, c) ∷ cs) w id a h =
      run_all-admins cs (run valid hash config actor c w).1 id a.1
        (run-IdsInOrder actor c w ground (arith, a.0) h)
      ∙ admin_row-run actor c w id a.0 h
