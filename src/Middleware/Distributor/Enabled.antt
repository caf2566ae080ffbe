-- ===== src/Middleware/Distributor/Enabled.antt =====
-- A request only reaches an enabled channel (middleware/distributor.go).
use new_api_blues.Prelude.{
  ℕ, String, Option, none, some, [], inl, inr, true, false, ◌==◌, ◌≡◌, arith, sym, ap, ◌∙◌,
  Bool-cases, Option-cases, get_elem?,
}
use new_api_blues.Model.Store.{World, Channel, ok, Result-cases, statement_ok, M}
use new_api_blues.Model.Channels.Writes.{candidates, get_random_satisfied_channel}
use new_api_blues.Model.Channels.Live.{Live}
use new_api_blues.Model.Channels.Random.{random-enabled}
use new_api_blues.Middleware.Distributor.{chosen, get_channel_by_id, distribute_named, distribute}

named_enabled :
    (atoi : String → Option ℕ) (select : String → String → M Channel) (id : Option ℕ) (w : World)
    (c : Channel) (model : String)
    → (distribute_named atoi select id w).0 ≡ ok (chosen c model)
    → (c.status == 1) ≡ true
unfolding distribute_named
named_enabled atoi select none w c model e = ground (arith, e)
named_enabled atoi select (some id) w c model e = elim (Result-cases (get_channel_by_id id w).0) [
  | inr (x, f) ↦ ground (arith, e, f)
  | inl (d, f) ↦ elim (Bool-cases (d.status == 1)) [
    | inl s ↦ ground (arith, e, f, s)
    | inr s ↦ ground (arith, e, f, s)
  ]
]

picked_enabled :
    (drawn : ℕ) (group model : String) (w : World) (c : Channel)
    → w.faults ≡ []
    → Live w
    → (get_random_satisfied_channel drawn group model false w).0 ≡ ok c
    → (c.status == 1) ≡ true
unfolding get_random_satisfied_channel
picked_enabled drawn group model w c h l e =
    elim (Option-cases (get_elem? (candidates group model false w.abilities) drawn)) [
      | inl n ↦ ground (arith, statement_ok w h, e, n)
      | inr (a, f) ↦
          let found = random-enabled drawn group model false w a h l f in
          let same : ok found.0 ≡ ok c = sym (ap (λ r. r.0) found.1) ∙ e in
          ground (arith, same, found.2)
    ]

-- If every enabled ability is one of an enabled channel and no statement fails, a request that
-- Distribute lets through is given an enabled channel, whether the request names it or the
-- database's query picks it for the user's group and the model.
pub distribute-enabled :
    (atoi : String → Option ℕ) (drawn : ℕ) (group : String) (specific : Option String)
    (request_model : String) (w : World) (c : Channel) (model : String)
    → w.faults ≡ []
    → Live w
    → (distribute atoi
        (λ g m. get_random_satisfied_channel drawn g m false)
        group
        specific
        request_model
        w).0
      ≡ ok (chosen c model)
    → (c.status == 1) ≡ true
unfolding distribute
distribute-enabled atoi drawn group (some text) request_model w c model h l e =
    named_enabled atoi (λ g m. get_random_satisfied_channel drawn g m false) (atoi text) w c model e
distribute-enabled atoi drawn group none request_model w c model h l e =
    elim (Result-cases (get_random_satisfied_channel drawn group request_model false w).0) [
      | inr (x, f) ↦ ground (arith, e, f)
      | inl (d, f) ↦ ground (arith, e, f, picked_enabled drawn group request_model w d h l f)
    ]
