-- ===== src/Model/Channels/Random.antt =====
-- The query that picks a channel without the cache, GetRandomSatisfiedChannel (model/ability.go).
use new_api_blues.Prelude.{
  ℕ, zero, suc, ℤ, String, str_eq, eq_iff, Bool, true, false, ◌&&◌, ◌||◌, Option, none, some, inl,
  inr, List, [], ◌∷◌, ◌==◌, ◌≡◌, refl, arith, Bool-cases, Option-cases, get_elem?, not, ltb_ℤ, ap,
  sym, subst, if◌then◌else◌,
}
use new_api_blues.Model.Store.{
  World, Channel, Ability, channel_row, channel_id_of, find_row_id, statement_ok, ok,
}
use new_api_blues.Model.Channels.Writes.{
  satisfied, larger, max_priority, equal_priority, of_priority, candidates,
  get_random_satisfied_channel,
}
use new_api_blues.Model.Channels.Select.{eqb_ℤ→eq}
use new_api_blues.Model.Channels.Live.{live, Live, channel_on}

-- Whether no enabled ability of a group and a model has a priority above one.
abbrev pub not_above : Option ℤ → Option ℤ → Bool
not_above none p = true
not_above (some x) none = false
not_above (some x) (some y) = not (ltb_ℤ y x)

unfoldable pub highest : String → String → Option ℤ → List Ability → Bool
highest group model p [] = true
highest group model p (b ∷ table) =
    let rest = highest group model p table in
    if str_eq b.group group && str_eq b.model model && b.enabled
    then not_above b.priority p && rest
    else rest

not_above-larger_left : (x p : Option ℤ) → not_above x (larger x p) ≡ true
not_above-larger_left none p = refl
not_above-larger_left (some x) none = ground arith
not_above-larger_left (some x) (some y) = ground arith

not_above-larger : (x y p : Option ℤ) → not_above x p ≡ true → not_above x (larger y p) ≡ true
not_above-larger none y p h = refl
not_above-larger (some x) y none h = ground (arith, h)
not_above-larger (some x) none (some z) h = h
not_above-larger (some x) (some y) (some z) h = ground (arith, h)

highest-larger :
    (group model : String) (y p : Option ℤ) (table : List Ability)
    → highest group model p table ≡ true
    → highest group model (larger y p) table ≡ true
unfolding highest
highest-larger group model y p [] h = refl
highest-larger group model y p (b ∷ table) h =
    elim (Bool-cases (str_eq b.group group && str_eq b.model model && b.enabled)) [
      | inl t ↦
          let both : (not_above b.priority p && highest group model p table) ≡ true =
            ground (arith, h, t) in
          ground
            (arith, t, both, not_above-larger b.priority y p, highest-larger group model y p table)
      | inr t ↦ rw t (highest-larger group model y p table ground (arith, h, t))
    ]

satisfied-cons :
    (group model : String) (b : Ability) (table : List Ability)
    → (str_eq b.group group && str_eq b.model model && b.enabled) ≡ true
    → satisfied group model (b ∷ table) ≡ b ∷ satisfied group model table
unfolding satisfied
satisfied-cons group model b table t = rw t refl

satisfied-other :
    (group model : String) (b : Ability) (table : List Ability)
    → (str_eq b.group group && str_eq b.model model && b.enabled) ≡ false
    → satisfied group model (b ∷ table) ≡ satisfied group model table
unfolding satisfied
satisfied-other group model b table t = rw t refl

-- The maximum that the query takes is the highest priority.
max_priority-highest :
    (group model : String) (table : List Ability)
    → highest group model (max_priority (satisfied group model table)) table ≡ true
unfolding highest max_priority
max_priority-highest group model [] = refl
max_priority-highest group model (b ∷ table) =
    let m = max_priority (satisfied group model table) in
    elim (Bool-cases (str_eq b.group group && str_eq b.model model && b.enabled)) [
      | inl t ↦
          let more : highest group model (larger b.priority m) (b ∷ table) ≡ true =
            rw (t, not_above-larger_left b.priority m)
              (highest-larger group model b.priority m table
                (max_priority-highest group model table)) in
          subst (λ rows. highest group model (max_priority rows) (b ∷ table) ≡ true)
            (sym (satisfied-cons group model b table t)) more
      | inr t ↦
          let more : highest group model m (b ∷ table) ≡ true =
            rw t (max_priority-highest group model table) in
          subst (λ rows. highest group model (max_priority rows) (b ∷ table) ≡ true)
            (sym (satisfied-other group model b table t)) more
    ]

equal_priority-eq : (p q : Option ℤ) → equal_priority p q ≡ true → p ≡ q
equal_priority-eq (some p) (some q) h = ap some (eqb_ℤ→eq p q h)
equal_priority-eq (some p) none h = ground (arith, h)
equal_priority-eq none q h = ground (arith, h)

satisfied_wanted :
    (group model : String) (cs : List Channel) (table : List Ability) (n : ℕ) (a : Ability)
    → live cs table ≡ true
    → get_elem? (satisfied group model table) n ≡ some a
    → (a.group ≡ group) × (a.model ≡ model) × (channel_on cs a.channel_id ≡ true)
unfolding satisfied live
satisfied_wanted group model cs [] n a l e = ground (arith, e)
satisfied_wanted group model cs (b ∷ table) zero a l e =
    elim (Bool-cases (str_eq b.group group && str_eq b.model model && b.enabled)) [
      | inl t ↦ ground (arith, l, e, t, eq_iff b.group group, eq_iff b.model model)
      | inr t ↦ ground (arith, l, e, t, satisfied_wanted group model cs table zero a)
    ]
satisfied_wanted group model cs (b ∷ table) (suc n) a l e =
    elim (Bool-cases (str_eq b.group group && str_eq b.model model && b.enabled)) [
      | inl t ↦ ground (arith, l, e, t, satisfied_wanted group model cs table n a)
      | inr t ↦ ground (arith, l, e, t, satisfied_wanted group model cs table (suc n) a)
    ]

-- What the query draws from are enabled rows of the table.
satisfied_place :
    (group model : String) (table : List Ability) (n : ℕ) (a : Ability)
    → get_elem? (satisfied group model table) n ≡ some a
    → (k : ℕ) × (get_elem? table k ≡ some a) × (a.enabled ≡ true)
unfolding satisfied
satisfied_place group model [] n a e = absurd (ground (arith, e))
satisfied_place group model (b ∷ table) zero a e =
    elim (Bool-cases (str_eq b.group group && str_eq b.model model && b.enabled)) [
      | inl t ↦ (0, ground (arith, e, t), ground (arith, e, t))
      | inr t ↦
          let (k, f, p) = satisfied_place group model table zero a ground (arith, e, t) in
          (suc k, f, p)
    ]
satisfied_place group model (b ∷ table) (suc n) a e =
    elim (Bool-cases (str_eq b.group group && str_eq b.model model && b.enabled)) [
      | inl t ↦
          let (k, f, p) = satisfied_place group model table n a ground (arith, e, t) in
          (suc k, f, p)
      | inr t ↦
          let (k, f, p) = satisfied_place group model table (suc n) a ground (arith, e, t) in
          (suc k, f, p)
    ]

of_priority_wanted :
    (m : Option ℤ) (rows : List Ability) (n : ℕ) (a : Ability)
    → get_elem? (of_priority m rows) n ≡ some a
    → (k : ℕ) × (get_elem? rows k ≡ some a) × (equal_priority a.priority m ≡ true)
unfolding of_priority
of_priority_wanted m [] n a e = ground (arith, e)
of_priority_wanted m (b ∷ rows) zero a e = elim (Bool-cases (equal_priority b.priority m)) [
  | inl t ↦ (0, ground (arith, e, t), ground (arith, e, t))
  | inr t ↦ let (k, f, p) = of_priority_wanted m rows zero a ground (arith, e, t) in (suc k, f, p)
]
of_priority_wanted m (b ∷ rows) (suc n) a e = elim (Bool-cases (equal_priority b.priority m)) [
  | inl t ↦ let (k, f, p) = of_priority_wanted m rows n a ground (arith, e, t) in (suc k, f, p)
  | inr t ↦
      let (k, f, p) = of_priority_wanted m rows (suc n) a ground (arith, e, t) in (suc k, f, p)
]

-- The ability that is drawn is an enabled one of the group and the model with an enabled channel,
-- and none of these has a higher priority unless that is ignored.
abbrev pub Wanted : String → String → Bool → List Channel → List Ability → Ability → Type 0
Wanted group model ignore cs table a =
    (channel_on cs a.channel_id ≡ true)
    × (a.group ≡ group)
    × (a.model ≡ model)
    × (a.enabled ≡ true)
    × ((k : ℕ) × (get_elem? table k ≡ some a))
    × ((ignore || highest group model a.priority table) ≡ true)

candidates-Wanted :
    (group model : String) (ignore : Bool) (cs : List Channel) (table : List Ability) (n : ℕ)
    (a : Ability)
    → live cs table ≡ true
    → get_elem? (candidates group model ignore table) n ≡ some a
    → Wanted group model ignore cs table a
unfolding candidates
candidates-Wanted group model true cs table n a l e =
    let (g, m, c) = satisfied_wanted group model cs table n a l e in
    let (k, f, on) = satisfied_place group model table n a e in (c, g, m, on, (k, f), refl)
candidates-Wanted group model false cs table n a l e =
    let rows = satisfied group model table in
    let (i, f, p) = of_priority_wanted (max_priority rows) rows n a e in
    let (g, m, c) = satisfied_wanted group model cs table i a l f in
    let (k, h, on) = satisfied_place group model table i a f in
    (
      c,
      g,
      m,
      on,
      (k, h),
      subst (λ q. highest group model q table ≡ true)
          (sym (equal_priority-eq a.priority (max_priority rows) p))
          (max_priority-highest group model table),
    )

-- If every enabled ability is one of an enabled channel, no statement fails, and the random order
-- puts one of the matching rows first, the query succeeds: the channel is enabled, and the row is
-- an enabled ability of that channel for the group and the model asked for. Unless the priority is
-- to be ignored, no enabled ability of that group and model has a higher priority than this one.
pub random-enabled :
    (drawn : ℕ) (group model : String) (ignore : Bool) (w : World) (a : Ability)
    → w.faults ≡ []
    → Live w
    → get_elem? (candidates group model ignore w.abilities) drawn ≡ some a
    → (c : Channel) × (get_random_satisfied_channel drawn group model ignore w ≡ (ok c, w))
      × ((c.status == 1) ≡ true)
      × (c.id ≡ a.channel_id)
      × (a.group ≡ group)
      × (a.model ≡ model)
      × (a.enabled ≡ true)
      × ((k : ℕ) × (get_elem? w.abilities k ≡ some a))
      × ((ignore || highest group model a.priority w.abilities) ≡ true)
unfolding get_random_satisfied_channel
random-enabled drawn group model ignore w a h l e =
    let wanted = candidates-Wanted group model ignore w.channels w.abilities drawn a l e in
    elim (Option-cases (channel_row w a.channel_id)) [
      | inl n ↦ ground (arith, wanted.0, n)
      | inr (c, f) ↦ (
        c,
        ground (arith, statement_ok w h, e, f),
        ground (arith, wanted.0, f),
        find_row_id channel_id_of a.channel_id w.channels c f,
        wanted.1,
        wanted.2,
        wanted.3,
        wanted.4,
        wanted.5,
      )
    ]
