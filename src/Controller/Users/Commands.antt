-- ===== src/Controller/Users/Commands.antt =====
-- The change that each management command of controller/user.go makes to the table of users.
use new_api_blues.Prelude.{
  ℕ, ◌≤◌, String, str_eq, Bool, false, Option, none, some, inl, inr, List, [], ◌∷◌, ◌≡◌, refl, sym,
  ◌∙◌, subst, arith, ◌==◌, if◌then◌else◌, Bool-cases, leb, not, ◌||◌,
}
use new_api_blues.Model.Store.{
  World, User, Result, ok, err, user_id_of, find_row, user_row, statement_cases, Result-cases,
  then_return, then_do, return, ◌>>=◌, ◌>>◌,
}
use new_api_blues.Model.Quota.{Config}
use new_api_blues.Model.Accounts.{
  Bonus, Drawn, get_user_by_id, user_update, delete_user_by_id, insert_user, no_user,
}
use new_api_blues.Model.Accounts.Rows.{
  Changed, Changed-same, Changed-then, Changed-weak, user_update_lem, delete_user_by_id_lem,
  insert_user_lem, get_user_by_id_lem,
}
use new_api_blues.Model.Accounts.Ids.{IdsInOrder, InOrder, find_user_by_id}
use new_api_blues.Controller.Users.{
  Actor, Reply, reply_of, refuse, ManageRequest, outranked, first_user, with_placeholder,
  without_placeholder, update_user, delete_user, create_user, manage_user, manage_found,
  manage_action,
}
use new_api_blues.Controller.Users.Managed.{
  Command, update, delete, create, manage, run, Managed, untouched, changed, added, Allowed,
  Managing, manage_action_lem,
}

-- The row with a name, or the first one for no name, is the row of its id.
first_user_by_id :
    (name : String) (w : World) (x : User)
    → IdsInOrder w
    → first_user name w.users ≡ some x
    → user_row w x.id ≡ some x
unfolding first_user find_row
first_user_by_id name w x h e = go w.users h e
  where
    go :
        (xs : List User)
        → InOrder 0 w.next_user xs
        → first_user name xs ≡ some x
        → find_row user_id_of x.id xs ≡ some x
    go [] h e = ground (arith, e)
    go (y ∷ xs) h e = elim (Bool-cases (str_eq name "")) [
      | inl t ↦ ground (arith, t, e)
      | inr t ↦
          (find_user_by_id (λ u. u.username) name 0 w.next_user (y ∷ xs) x h
            (ground (arith, t, e))).0
    ]

pub reply_world : (r : Result Reply × World) → (reply_of r).1 ≡ r.1
reply_world (ok r, w) = refl
reply_world (err e, w) = refl

without_placeholder_lem :
    (u : User) → ((without_placeholder u).id ≡ u.id) × ((without_placeholder u).role ≡ u.role)
unfolding without_placeholder
without_placeholder_lem u = ground arith

module _ (valid : User → Bool) (hash : String → Result String) (config : Config) (actor : Actor)
    (admin : 10 ≤ actor.role) where
  -- The second half of ManageUser: the user that the switch gives is written.
  written :
      (reply : User → Reply) (x : User) (w v : World) (r : Result User × World)
      → user_row w x.id ≡ some x
      → Allowed actor x.role
      → Changed x.id 0 w v
      → Managing actor x v r
      → Managed actor w (then_do r (λ c. user_update hash false c >>= λ _. return (reply c))).1
  written reply x w v (r, t) h a same (inl (_, e, change)) = rw e (
      changed x x.role h a a
        (Changed-then x.id x.role w v t (Changed-weak x.id x.role w v same) change))
  written reply x w v (r, t) h a same (inr (c, e, i, b, change)) =
      rw (e, then_return (user_update hash false c) (λ _. reply c) t)
        (changed x c.role h a b (
          Changed-then x.id c.role w t (user_update hash false c t).1
            (Changed-then x.id c.role w v t (Changed-weak x.id c.role w v same) change)
            (subst (λ id. Changed id c.role t (user_update hash false c t).1) i
              (user_update_lem hash false c t))))

  manage_found_lem :
      (uuid action : String) (x : User) (w v : World)
      → user_row w x.id ≡ some x
      → v.users ≡ w.users
      → v.next_user ≡ w.next_user
      → Managed actor w (manage_found hash uuid actor action (some x) v).1
  unfolding manage_found
  manage_found_lem uuid action x w v h users next = elim (Bool-cases (outranked actor x.role)) [
    | inl e ↦ rw e (untouched users next)
    | inr e ↦ rw e (
        written (λ c. Reply.user (record no_user { role = c.role; status = c.status })) x w v
          (manage_action hash uuid actor action x v) h e (Changed-same x.id 0 w v users next)
          (manage_action_lem hash uuid actor action x v admin e))
  ]

  manage_any_lem :
      (uuid action : String) (found : Option User) (w v : World)
      → ((x : User) → found ≡ some x → user_row w x.id ≡ some x)
      → v.users ≡ w.users
      → v.next_user ≡ w.next_user
      → Managed actor w (reply_of (manage_found hash uuid actor action found v)).1
  unfolding manage_found
  manage_any_lem uuid action none w v h users next = untouched users next
  manage_any_lem uuid action (some x) w v h users next =
      rw (reply_world (manage_found hash uuid actor action (some x) v))
        (manage_found_lem uuid action x w v (h x refl) users next)

  manage_user_lem :
      (uuid : String) (request : Option ManageRequest) (w : World)
      → IdsInOrder w
      → Managed actor w (manage_user hash uuid actor request w).1
  unfolding manage_user
  manage_user_lem uuid none w h = untouched refl refl
  manage_user_lem uuid (some request) w h =
      let (fs, outcome) = statement_cases w in
      let v = record w { faults = fs } in
      elim outcome [
        | inl s ↦
            rw s (manage_any_lem uuid request.action none w v (λ x e. ground (arith, e)) refl refl)
        | inr s ↦
            rw (s, s)
              (manage_any_lem uuid request.action (first_user request.username w.users) w v
                (λ x e. first_user_by_id request.username w x h e) refl refl)
      ]

  update_user_lem :
      (body : Option User) (w : World) → Managed actor w (update_user valid hash actor body w).1
  unfolding update_user with_placeholder without_placeholder get_user_by_id
  update_user_lem none w = untouched refl refl
  update_user_lem (some body) w =
      let (fs, found) = get_user_by_id_lem updated.id false w in
      let v = record w { faults = fs } in
      elim (Bool-cases (body.id == 0)) [
        | inl e ↦ rw e (untouched refl refl)
        | inr e ↦ elim (Bool-cases (valid updated)) [
          | inr i ↦ rw (e, i) (untouched refl refl)
          | inl i ↦ elim found [
            | inl (x, g) ↦ rw (e, i, g) (untouched refl refl)
            | inr (x, d, f, g) ↦ rw (e, i, g) (permitted fs x d f)
          ]
        ]
      ]
    where
      updated : User
      updated = with_placeholder body

      permitted :
          (fs : List Bool) (x : User)
          → x.id ≡ updated.id
          → user_row w x.id ≡ some x
          → Managed actor w
              (reply_of (
                (if outranked actor x.role
                    then refuse
                        "No permission to update user information of same or higher privilege level"
                    else if outranked actor updated.role
                    then refuse
                        "No permission to elevate other users' privilege level to equal or higher than your own"
                    else (do
                      user_update hash
                          (not (str_eq (without_placeholder updated).password ""))
                          (without_placeholder updated)
                      return Reply.success))
                  (record w { faults = fs }))).1
      permitted fs x d f =
          let v = record w { faults = fs } in
          let u = without_placeholder updated in
          elim (Bool-cases (outranked actor x.role)) [
            | inl a ↦ rw a (untouched refl refl)
            | inr a ↦ elim (Bool-cases (outranked actor updated.role)) [
              | inl b ↦ rw (a, b) (untouched refl refl)
              | inr b ↦
                  rw
                    (
                      a,
                      b,
                      reply_world (
                          (user_update hash (not (str_eq u.password "")) u >>= λ _.
                          return Reply.success)
                            v),
                      then_return (user_update hash (not (str_eq u.password "")) u)
                          (λ _. Reply.success) v,
                    )
                    (let (i, r) = without_placeholder_lem updated in
                      changed x u.role f a (rw r b) (
                        subst
                          (λ id.
                            Changed id u.role w
                              (user_update hash (not (str_eq u.password "")) u v).1)
                          (i ∙ sym d) (user_update_lem hash (not (str_eq u.password "")) u v)))
            ]
          ]

  delete_user_lem :
      (uuid : String) (id : Option ℕ) (w : World)
      → Managed actor w (delete_user hash uuid actor id w).1
  unfolding delete_user get_user_by_id
  delete_user_lem uuid none w = untouched refl refl
  delete_user_lem uuid (some id) w =
      let (fs, found) = get_user_by_id_lem id false w in
      let v = record w { faults = fs } in
      let t = delete_user_by_id hash uuid id v in
      elim found [
        | inl (x, g) ↦ rw g (untouched refl refl)
        | inr (x, d, f, g) ↦ elim (Bool-cases (leb actor.role x.role)) [
          | inl a ↦ rw (g, a) (untouched refl refl)
          | inr a ↦
              let change : Managed actor w t.1 =
                changed x 0 f ground (arith, a) ground (arith, admin)
                  (subst (λ j. Changed j 0 w t.1) (sym d) (delete_user_by_id_lem hash uuid id v)) in
              elim (Result-cases t.0) [
                | inl (b, e) ↦ rw (g, a, e) change
                | inr (b, e) ↦ rw (g, a, e) change
              ]
        ]
      ]

  create_user_lem :
      (bonus : Bonus) (drawn : Drawn) (body : Option User) (w : World)
      → Managed actor w (create_user valid hash config bonus drawn actor body w).1
  unfolding create_user
  create_user_lem bonus drawn none w = untouched refl refl
  create_user_lem bonus drawn (some body) w =
      elim (Bool-cases (str_eq body.username "" || str_eq body.password "")) [
        | inl e ↦ rw e (untouched refl refl)
        | inr e ↦ elim (Bool-cases (valid body)) [
          | inr i ↦ rw (e, i) (untouched refl refl)
          | inl i ↦ elim (Bool-cases (leb actor.role body.role)) [
            | inl a ↦ rw (e, i, a) (untouched refl refl)
            | inr a ↦
                rw
                  (
                    e,
                    i,
                    a,
                    reply_world (
                        (insert_user hash config bonus drawn clean 0 >>= λ _. return Reply.success)
                          w),
                    then_return (insert_user hash config bonus drawn clean 0) (λ _. Reply.success)
                        w,
                  )
                  (elim (insert_user_lem hash config bonus drawn clean w) [
                    | inl (users, next) ↦ untouched users next
                    | inr (row, users, i, r, next) ↦ added row users i r next
                  ])
          ]
        ]
      ]
    where
      clean : User
      clean = record no_user {
        username = body.username;
        password = body.password;
        display_name = if str_eq body.display_name "" then body.username else body.display_name;
      }

  -- Each command run by an administrator makes one of the changes above.
  pub run_lem :
      (c : Command) (w : World) → IdsInOrder w → Managed actor w (run valid hash config actor c w).1
  unfolding run
  run_lem (update body) w h = update_user_lem body w
  run_lem (delete uuid id) w h = delete_user_lem uuid id w
  run_lem (create bonus drawn body) w h = create_user_lem bonus drawn body w
  run_lem (manage uuid request) w h = manage_user_lem uuid request w h
