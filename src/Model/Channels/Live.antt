-- ===== src/Model/Channels/Live.antt =====
-- An enabled ability belongs to an enabled channel: the writes of model/channel.go keep that up,
-- and so the query that picks a channel gives an enabled one.
use new_api_blues.Prelude.{
  ℕ, suc, String, Bool, true, false, not, ◌&&◌, ◌||◌, Option, none, some, inl, inr, List, [], ◌∷◌,
  ◌++◌, ◌==◌, ==_self, ==_iff, ◌≡◌, refl, sym, ap, subst, ◌∙◌, arith, Bool-cases, Option-cases, ltb,
  if◌then◌else◌,
}
use new_api_blues.Model.Store.{
  World, Channel, Ability, channel_row, channel_id_of, find_row, find_row_id, update_rows,
  find_row-update_rows, map_if, write_channel, statement_ok, M, ok,
}
use new_api_blues.Model.Channels.{
  new_abilities, abilities_of_model, abilities_of_models, de_duplication, split_comma,
}
use new_api_blues.Model.Channels.Writes.{
  add_abilities, without_channel, delete_abilities, update_abilities, set_enabled,
  update_ability_status, channel_created, channel_insert, patch_channel, read_back, channel_update,
  without_row, channel_delete, update_channel_status_by_id, without_status, is_disabled,
  delete_disabled_channel, repeats,
}

abbrev pub enabled_row : Option Channel → Bool
enabled_row none = false
enabled_row (some c) = c.status == 1

abbrev pub channel_on : List Channel → ℕ → Bool
channel_on cs id = enabled_row (find_row channel_id_of id cs)

-- Every enabled ability is one of an enabled channel.
unfoldable pub live : List Channel → List Ability → Bool
live cs [] = true
live cs (a ∷ table) =
    let rest = live cs table in (not a.enabled || channel_on cs a.channel_id) && rest

abbrev pub Live : World → Type 0
Live w = live w.channels w.abilities ≡ true

live-append :
    (cs : List Channel) (as1 as2 : List Ability)
    → live cs (as1 ++ as2) ≡ (live cs as1 && live cs as2)
unfolding live
live-append cs [] as2 = refl
live-append cs (a ∷ as1) as2 = ground (arith, live-append cs as1 as2)

live_mono :
    (cs ds : List Channel) (table : List Ability)
    → ((j : ℕ) → channel_on cs j ≡ true → channel_on ds j ≡ true)
    → live cs table ≡ true
    → live ds table ≡ true
unfolding live
live_mono cs ds [] h l = refl
live_mono cs ds (a ∷ table) h l = ground (arith, l, h a.channel_id, live_mono cs ds table h)

live-without_channel :
    (cs ds : List Channel) (id : ℕ) (table : List Ability)
    → ((j : ℕ) → (j == id) ≡ false → channel_on ds j ≡ channel_on cs j)
    → live cs table ≡ true
    → live ds (without_channel id table) ≡ true
unfolding live without_channel
live-without_channel cs ds id [] h l = refl
live-without_channel cs ds id (a ∷ table) h l =
    ground (arith, l, h a.channel_id, live-without_channel cs ds id table h)

live-set_enabled :
    (cs ds : List Channel) (id : ℕ) (status : Bool) (table : List Ability)
    → ((j : ℕ) → (j == id) ≡ false → channel_on ds j ≡ channel_on cs j)
    → channel_on ds id ≡ status
    → live cs table ≡ true
    → live ds (set_enabled id status table) ≡ true
unfolding live set_enabled
live-set_enabled cs ds id status [] h s l = refl
live-set_enabled cs ds id status (a ∷ table) h s l = elim (Bool-cases (a.channel_id == id)) [
  | inl e ↦ ground (
    arith,
    l,
    e,
    ap (channel_on ds) ((==_iff a.channel_id id).0 e) ∙ s,
    live-set_enabled cs ds id status table h s,
  )
  | inr e ↦ ground (arith, l, e, h a.channel_id, live-set_enabled cs ds id status table h s)
]

module _ (cs : List Channel) (c : Channel) (found : find_row channel_id_of c.id cs ≡ some c) where
  live-abilities_of_model :
      (model : String) (groups : List String) → live cs (abilities_of_model c model groups) ≡ true
  unfolding live abilities_of_model
  live-abilities_of_model model [] = refl
  live-abilities_of_model model (group ∷ groups) =
      ground (arith, found, live-abilities_of_model model groups)

  live-abilities_of_models :
      (models groups : List String) → live cs (abilities_of_models c models groups) ≡ true
  unfolding live abilities_of_models
  live-abilities_of_models [] groups = refl
  live-abilities_of_models (model ∷ models) groups =
      live-append cs (abilities_of_model c model groups) (abilities_of_models c models groups)
      ∙ rw (live-abilities_of_model model groups) (live-abilities_of_models models groups)

  live-new_abilities : live cs (new_abilities c) ≡ true
  unfolding new_abilities
  live-new_abilities =
      live-abilities_of_models (de_duplication (split_comma c.models)) (split_comma c.group)

  -- Adding the abilities of a channel that is in the table.
  add_abilities-Live :
      (w : World) → w.faults ≡ [] → w.channels ≡ cs → Live w → Live (add_abilities c w).1
  unfolding add_abilities
  add_abilities-Live w h e l = elim (Bool-cases (repeats (new_abilities c) w.abilities)) [
    | inl r ↦ rw (statement_ok w h, r) l
    | inr r ↦
        rw (statement_ok w h, r)
          (live-append w.channels w.abilities (new_abilities c) ∙ rw (l, e) live-new_abilities)
  ]

on-update_rows :
    (cs : List Channel) (id j : ℕ) (f : Channel → Channel)
    → ((c : Channel) → (f c).id ≡ c.id)
    → (j == id) ≡ false
    → channel_on (update_rows channel_id_of id f cs) j ≡ channel_on cs j
on-update_rows cs id j f keep e =
    ap enabled_row (find_row-update_rows channel_id_of id j f cs keep)
    ∙ rw e (ap enabled_row (same (find_row channel_id_of j cs)))
  where
    same : (o : Option Channel) → map_if false f o ≡ o
    same none = refl
    same (some c) = refl

on-without_row :
    (cs : List Channel) (id j : ℕ)
    → (j == id) ≡ false
    → channel_on (without_row id cs) j ≡ channel_on cs j
unfolding without_row find_row
on-without_row [] id j e = refl
on-without_row (c ∷ cs) id j e = elim (Bool-cases (c.id == id)) [
  | inl a ↦ ground (arith, e, a, on-without_row cs id j e)
  | inr a ↦ elim (Bool-cases (c.id == j)) [
    | inl b ↦ rw (a, b) refl
    | inr b ↦ rw (a, b) (on-without_row cs id j e)
  ]
]

on-without_disabled :
    (cs : List Channel) (j : ℕ)
    → channel_on cs j ≡ true
    → channel_on (without_status is_disabled cs) j ≡ true
unfolding without_status is_disabled find_row
on-without_disabled [] j e = e
on-without_disabled (c ∷ cs) j e = elim (Bool-cases (c.id == j)) [
  | inl a ↦
      let on : (c.status == 1) ≡ true = ground (arith, e, a) in
      let kept : is_disabled c.status ≡ false = ground (arith, on) in rw (kept, a) on
  | inr a ↦
      let rest = on-without_disabled cs j ground (arith, e, a) in
      elim (Bool-cases (is_disabled c.status)) [ inl d ↦ rw d rest | inr d ↦ rw (d, a) rest ]
]

on-append :
    (cs : List Channel) (row : Channel) (j : ℕ)
    → channel_on cs j ≡ true
    → channel_on (cs ++ row ∷ []) j ≡ true
unfolding find_row
on-append [] row j e = ground (arith, e)
on-append (c ∷ cs) row j e = elim (Bool-cases (c.id == j)) [
  | inl a ↦ rw a ground (arith, a, e)
  | inr a ↦ rw a (on-append cs row j ground (arith, a, e))
]

find_row-at_end :
    (cs : List Channel) (row : Channel)
    → find_row channel_id_of row.id cs ≡ none
    → find_row channel_id_of row.id (cs ++ row ∷ []) ≡ some row
unfolding find_row
find_row-at_end [] row e = ground (arith, ==_self row.id)
find_row-at_end (c ∷ cs) row e = ground (arith, e, find_row-at_end cs row)

-- A write of model/channel.go.
pub data Write : Type 0 where
  insert : Channel → Write
  update : Channel → Write
  delete : Channel → Write
  set_status : (id status : ℕ) → Write
  delete_disabled : Write

unfoldable pub write : Write → M (Unit {0})
write (insert c) = channel_insert c
write (update c) = channel_update c
write (delete c) = channel_delete c
write (set_status id status) = update_channel_status_by_id id status
write delete_disabled = delete_disabled_channel

-- What a write expects: the channel that it changes is there.
unfoldable pub Fits : Write → World → Type 0
Fits (insert c) w = Unit {0}
Fits (update c) w = (old : Channel) × (channel_row w c.id ≡ some old)
Fits (delete c) w = Unit {0}
Fits (set_status id status) w = (old : Channel) × (channel_row w id ≡ some old)
Fits delete_disabled w = Unit {0}

insert-Live : (c : Channel) (w : World) → w.faults ≡ [] → Live w → Live (channel_insert c w).1
unfolding channel_insert channel_created
insert-Live c w h l =
    let row = channel_created (if c.id == 0 then w.next_channel else c.id) c in
    let cs = w.channels ++ row ∷ [] in
    let next = if ltb row.id w.next_channel then w.next_channel else suc row.id in
    elim (Option-cases (channel_row w row.id)) [
      | inr (old, e) ↦ rw (statement_ok w h, e) l
      | inl e ↦
          rw (statement_ok w h, e)
            (add_abilities-Live cs row (find_row-at_end w.channels row e)
              (record w { channels = cs; next_channel = next }) h refl
              (live_mono w.channels cs w.abilities (on-append w.channels row) l))
    ]

read_back_lem :
    (c row : Channel) (w : World)
    → w.faults ≡ []
    → channel_row w c.id ≡ some row
    → read_back c w ≡ (ok row, w)
unfolding read_back
read_back_lem c row w h e = ground (arith, statement_ok w h, e)

update-Live :
    (c old : Channel) (w : World)
    → w.faults ≡ []
    → channel_row w c.id ≡ some old
    → Live w
    → Live (channel_update c w).1
unfolding channel_update patch_channel write_channel update_abilities delete_abilities
update-Live c old w h e l =
    let new = patch_channel c old in
    let cs = update_rows channel_id_of c.id (patch_channel c) w.channels in
    let found : find_row channel_id_of c.id cs ≡ some new =
      find_row-update_rows channel_id_of c.id c.id (patch_channel c) w.channels (λ x. refl)
      ∙ rw (e, ==_self c.id) refl in
    let i : new.id ≡ c.id = find_row_id channel_id_of c.id w.channels old e in
    let v : World = record w { channels = cs } in
    elim (Bool-cases (c.id == 0)) [
      | inl z ↦ rw z l
      | inr z ↦
          rw (z, statement_ok w h, read_back_lem c new v h found, statement_ok v h)
            (add_abilities-Live cs new
              (subst (λ k. find_row channel_id_of k cs ≡ some new) (sym i) found)
              (record v { abilities = without_channel new.id w.abilities }) h refl
              (live-without_channel w.channels cs new.id w.abilities
                (λ j n.
                  on-update_rows w.channels c.id j (patch_channel c) (λ x. refl)
                    (subst (λ k. (j == k) ≡ false) i n))
                l))
    ]

delete-Live : (c : Channel) (w : World) → w.faults ≡ [] → Live w → Live (channel_delete c w).1
unfolding channel_delete delete_abilities
delete-Live c w h l = elim (Bool-cases (c.id == 0)) [
  | inl z ↦ rw z l
  | inr z ↦
      rw (z, statement_ok w h, statement_ok (record w { channels = without_row c.id w.channels }) h)
        (live-without_channel w.channels (without_row c.id w.channels) c.id w.abilities
          (on-without_row w.channels c.id) l)
]

set_status-Live :
    (id status : ℕ) (old : Channel) (w : World)
    → w.faults ≡ []
    → channel_row w id ≡ some old
    → Live w
    → Live (update_channel_status_by_id id status w).1
unfolding update_channel_status_by_id update_ability_status write_channel
set_status-Live id status old w h e l =
    let set : Channel → Channel = λ c. record c { status = status } in
    let cs = update_rows channel_id_of id set w.channels in
    let found : find_row channel_id_of id cs ≡ some (set old) =
      find_row-update_rows channel_id_of id id set w.channels (λ x. refl)
      ∙ rw (e, ==_self id) refl in
    let v : World = record w { abilities = set_enabled id (status == 1) w.abilities } in
    rw (statement_ok w h, statement_ok v h)
      (live-set_enabled w.channels cs id (status == 1) w.abilities
        (λ j n. on-update_rows w.channels id j set (λ x. refl) n) (ap enabled_row found) l)

-- If every enabled ability is one of an enabled channel, this holds after each write of channels:
-- Insert, Update, Delete, UpdateChannelStatusById and DeleteDisabledChannel. No statement fails,
-- and a channel that is updated or whose status is set is there.
pub write-Live : (c : Write) (w : World) → w.faults ≡ [] → Fits c w → Live w → Live (write c w).1
unfolding write Fits delete_disabled_channel
write-Live (insert c) w h f l = insert-Live c w h l
write-Live (update c) w h (old, e) l = update-Live c old w h e l
write-Live (delete c) w h f l = delete-Live c w h l
write-Live (set_status id status) w h (old, e) l = set_status-Live id status old w h e l
write-Live delete_disabled w h f l = rw (statement_ok w h) (
    live_mono w.channels (without_status is_disabled w.channels) w.abilities
      (on-without_disabled w.channels) l)
