-- ===== src/Model/Channels/Writes.antt =====
-- The writes of channels and abilities (model/channel.go, model/ability.go), and the query that
-- picks a channel without the cache. The primary key of an ability is its group, model and
-- channel: a creation that would repeat one fails as a whole. The database's random order is the
-- argument `drawn` of the query.
use new_api_blues.Prelude.{
  ℕ, suc, ℤ, pos, String, str_eq, Bool, true, false, ◌&&◌, ◌||◌, Option, none, some, List, [], ◌∷◌,
  ◌++◌, ◌==◌, if◌then◌else◌, eqb_ℤ, ltb_ℤ, ltb, get_elem?, is_some,
}
use new_api_blues.Model.Store.{
  M, Channel, Ability, ok, err, message, record_not_found, database, get, modify, return, throw,
  attempt, statement, channel_row, write_channel, ◌>>=◌, ◌>>◌,
}
use new_api_blues.Model.Channels.{channel_status_enabled, new_abilities}

abbrev pub channel_status_manually_disabled : ℕ
channel_status_manually_disabled = 2

abbrev pub channel_status_auto_disabled : ℕ
channel_status_auto_disabled = 3

abbrev pub same_ability : Ability → Ability → Bool
same_ability a b = str_eq a.group b.group && str_eq a.model b.model && a.channel_id == b.channel_id

unfoldable pub holds_ability : Ability → List Ability → Bool
holds_ability a [] = false
holds_ability a (b ∷ bs) = let rest = holds_ability a bs in if same_ability a b then true else rest

-- Whether rows repeat a key, among themselves or of the table.
unfoldable pub repeats : List Ability → List Ability → Bool
repeats [] table = false
repeats (a ∷ rows) table =
    let rest = repeats rows (a ∷ table) in if holds_ability a table then true else rest

unfoldable pub add_abilities : Channel → M (Unit {0})
add_abilities c = do
  statement
  w ← get
  if repeats (new_abilities c) w.abilities
      then throw database
      else modify (λ v. record v { abilities = v.abilities ++ new_abilities c })

unfoldable pub without_channel : ℕ → List Ability → List Ability
without_channel id [] = []
without_channel id (a ∷ table) =
    let rest = without_channel id table in if a.channel_id == id then rest else a ∷ rest

unfoldable pub delete_abilities : Channel → M (Unit {0})
delete_abilities c = do
  statement
  modify (λ w. record w { abilities = without_channel c.id w.abilities })

unfoldable pub update_abilities : Channel → M (Unit {0})
update_abilities c = do delete_abilities c; add_abilities c

unfoldable pub set_enabled : ℕ → Bool → List Ability → List Ability
set_enabled id status [] = []
set_enabled id status (a ∷ table) =
    (if a.channel_id == id then record a { enabled = status } else a) ∷ set_enabled id status table

unfoldable pub update_ability_status : ℕ → Bool → M (Unit {0})
update_ability_status id status = do
  statement
  modify (λ w. record w { abilities = set_enabled id status w.abilities })

-- A row that DB.Create makes of a channel: zero fields get the columns' defaults.
unfoldable pub channel_created : ℕ → Channel → Channel
channel_created id c = record c {
  id = id;
  status = if c.status == 0 then channel_status_enabled else c.status;
  group = if str_eq c.group "" then "default" else c.group;
  priority = elim c.priority [ none ↦ some (pos 0) | some p ↦ some p ];
}

-- An id that is given is kept, and refused if a row has it.
unfoldable pub channel_insert : Channel → M (Unit {0})
channel_insert c = do
  statement
  w ← get
  let row = channel_created (if c.id == 0 then w.next_channel else c.id) c
  if is_some (channel_row w row.id) then throw database else (do
    modify (λ v. record v {
      channels = v.channels ++ row ∷ [];
      next_channel = if ltb row.id v.next_channel then v.next_channel else suc row.id;
    })
    add_abilities row)

abbrev pub channel_text : String → String → String
channel_text new old = if str_eq new "" then old else new

-- The columns that an update by a struct sets.
unfoldable pub patch_channel : Channel → Channel → Channel
patch_channel new old = record old {
  type = if new.type == 0 then old.type else new.type;
  key = channel_text new.key old.key;
  status = if new.status == 0 then old.status else new.status;
  name = channel_text new.name old.name;
  models = channel_text new.models old.models;
  group = channel_text new.group old.group;
  used_quota = if eqb_ℤ new.used_quota (pos 0) then old.used_quota else new.used_quota;
  priority = elim new.priority [ none ↦ old.priority | some p ↦ some p ];
}

-- The row as it is read back; without one the receiver is left as it is.
unfoldable pub read_back : Channel → M Channel
read_back c = do
  found ← attempt statement
  w ← get
  elim found [
    | err e ↦ return c
    | ok _ ↦ elim (channel_row w c.id) [ none ↦ return c | some row ↦ return row ]
  ]

unfoldable pub channel_update : Channel → M (Unit {0})
channel_update c =
    if c.id == 0
    then throw (message "WHERE conditions required")
    else (do write_channel c.id (patch_channel c); row ← read_back c; update_abilities row)

unfoldable pub without_row : ℕ → List Channel → List Channel
without_row id [] = []
without_row id (c ∷ cs) = let rest = without_row id cs in if c.id == id then rest else c ∷ rest

unfoldable pub channel_delete : Channel → M (Unit {0})
channel_delete c = if c.id == 0 then throw (message "WHERE conditions required") else (do
  statement
  modify (λ w. record w { channels = without_row c.id w.channels })
  delete_abilities c)

-- Both errors are logged.
unfoldable pub update_channel_status_by_id : ℕ → ℕ → M (Unit {0})
update_channel_status_by_id id status = do
  attempt (update_ability_status id (status == channel_status_enabled))
  attempt (write_channel id (λ c. record c { status = status }))
  return tt

-- DELETE … WHERE a test of the status holds
unfoldable pub without_status : (ℕ → Bool) → List Channel → List Channel
without_status test [] = []
without_status test (c ∷ cs) =
    let rest = without_status test cs in if test c.status then rest else c ∷ rest

unfoldable pub delete_channel_by_status : ℕ → M (Unit {0})
delete_channel_by_status status = do
  statement
  modify (λ w. record w { channels = without_status (λ s. s == status) w.channels })

unfoldable pub is_disabled : ℕ → Bool
is_disabled s = s == channel_status_auto_disabled || s == channel_status_manually_disabled

unfoldable pub delete_disabled_channel : M (Unit {0})
delete_disabled_channel = do
  statement
  modify (λ w. record w { channels = without_status is_disabled w.channels })

-- The enabled abilities of a group and a model.
unfoldable pub satisfied : String → String → List Ability → List Ability
satisfied group model [] = []
satisfied group model (a ∷ table) =
    let rest = satisfied group model table in
    if str_eq a.group group && str_eq a.model model && a.enabled then a ∷ rest else rest

-- MAX(priority), which passes over NULL.
abbrev pub larger : Option ℤ → Option ℤ → Option ℤ
larger none q = q
larger (some p) none = some p
larger (some p) (some q) = if ltb_ℤ p q then some q else some p

unfoldable pub max_priority : List Ability → Option ℤ
max_priority [] = none
max_priority (a ∷ table) = larger a.priority (max_priority table)

abbrev pub equal_priority : Option ℤ → Option ℤ → Bool
equal_priority (some p) (some q) = eqb_ℤ p q
equal_priority (some p) none = false
equal_priority none q = false

unfoldable pub of_priority : Option ℤ → List Ability → List Ability
of_priority m [] = []
of_priority m (a ∷ table) =
    let rest = of_priority m table in if equal_priority a.priority m then a ∷ rest else rest

unfoldable pub candidates : String → String → Bool → List Ability → List Ability
candidates group model ignore_first_priority table =
    let rows = satisfied group model table in
    if ignore_first_priority then rows else of_priority (max_priority rows) rows

-- `drawn` is the place, among the rows that match, of the one that the random order puts first.
unfoldable pub get_random_satisfied_channel : ℕ → String → String → Bool → M Channel
get_random_satisfied_channel drawn group model ignore_first_priority = do
  statement
  w ← get
  elim (get_elem? (candidates group model ignore_first_priority w.abilities) drawn) [
    | none ↦ throw record_not_found
    | some a ↦ (do
      statement
      v ← get
      elim (channel_row v a.channel_id) [ none ↦ throw record_not_found | some c ↦ return c ])
  ]
