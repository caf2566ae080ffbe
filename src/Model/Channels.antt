-- ===== src/Model/Channels.antt =====
-- Channels, their abilities and the in-memory cache that requests are distributed by
-- (model/channel.go, model/ability.go, model/cache.go).
pub mod Writes
pub mod Live
pub mod Random
pub mod Serving
pub mod Query
pub mod Select
use Prim.Native.Char.{Char, code}
use new_api_blues.Prelude.{
  ℕ, zero, suc, ◌+◌, ◌-◌, ℤ, pos, String, str_eq, Bool, true, false, not, ◌&&◌, Option, none, some,
  List, [], ◌∷◌, ◌++◌, length, get_elem?, lookup, insert, ltb, ltb_ℤ, eqb_ℤ, ◌==◌, if◌then◌else◌,
}
use new_api_blues.Model.Store.{Channel, Ability}

abbrev pub channel_status_enabled : ℕ
channel_status_enabled = 1

unfoldable pub get_priority : Channel → ℤ
get_priority c = elim c.priority [ none ↦ pos 0 | some p ↦ p ]

-- strings.Split(s, ","): never empty.
abbrev pub push_char : Char → List String → List String
push_char c [] = String.◌∷◌ c String.[] ∷ []
push_char c (part ∷ parts) = String.◌∷◌ c part ∷ parts

unfoldable pub split_comma : String → List String
split_comma String.[] = String.[] ∷ []
split_comma (String.◌∷◌ c s) =
    let rest = split_comma s in if code c == b',' then String.[] ∷ rest else push_char c rest

unfoldable pub contains_text : String → List String → Bool
contains_text s [] = false
contains_text s (t ∷ ts) = if str_eq t s then true else contains_text s ts

-- utils.DeDuplication, up to the order of the result.
unfoldable pub de_duplication : List String → List String
unfolding contains_text
de_duplication [] = []
de_duplication (s ∷ ss) =
    let rest = de_duplication ss in if contains_text s rest then rest else s ∷ rest

unfoldable pub abilities_of_model : Channel → String → List String → List Ability
abilities_of_model c model [] = []
abilities_of_model c model (group ∷ groups) =
    record {
      group = group;
      model = model;
      channel_id = c.id;
      enabled = c.status == channel_status_enabled;
      priority = some (get_priority c);
    }
    ∷ abilities_of_model c model groups

unfoldable pub abilities_of_models : Channel → List String → List String → List Ability
unfolding abilities_of_model
abilities_of_models c [] groups = []
abilities_of_models c (model ∷ models) groups =
    abilities_of_model c model groups ++ abilities_of_models c models groups

-- The rows that AddAbilities creates.
unfoldable pub new_abilities : Channel → List Ability
unfolding abilities_of_models split_comma de_duplication
new_abilities c =
    abilities_of_models c (de_duplication (split_comma c.models)) (split_comma c.group)

-- The cache: group2model2channels.
abbrev pub ModelChannels : Type 0
ModelChannels = List (String × List Channel)

abbrev pub ChannelCache : Type 0
ChannelCache = List (String × ModelChannels)

abbrev pub channels_or_nil : Option (List Channel) → List Channel
channels_or_nil none = []
channels_or_nil (some cs) = cs

-- newGroup2model2channels[group][model] = append(…, channel). A group with no map is nil there,
-- and the assignment panics.
unfoldable pub append_channel : String → String → Channel → ChannelCache → Option ChannelCache
append_channel group model c cache = elim (lookup group cache) [
  | none ↦ none
  | some models ↦
      some
        (insert group (insert model (channels_or_nil (lookup model models) ++ c ∷ []) models) cache)
]

unfoldable pub append_models : String → List String → Channel → ChannelCache → Option ChannelCache
append_models group [] c cache = some cache
append_models group (model ∷ models) c cache = elim (append_channel group model c cache) [
  | none ↦ none
  | some cache' ↦ append_models group models c cache'
]

unfoldable pub append_groups :
    List String → List String → Channel → ChannelCache → Option ChannelCache
append_groups [] models c cache = some cache
append_groups (group ∷ groups) models c cache = elim (append_models group models c cache) [
  | none ↦ none
  | some cache' ↦ append_groups groups models c cache'
]

unfoldable pub append_channels : List Channel → ChannelCache → Option ChannelCache
append_channels [] cache = some cache
append_channels (c ∷ cs) cache =
    elim (append_groups (split_comma c.group) (split_comma c.models) c cache) [
      | none ↦ none
      | some cache' ↦ append_channels cs cache'
    ]

unfoldable pub empty_groups : List Ability → ChannelCache
empty_groups [] = []
empty_groups (a ∷ as') = insert a.group [] (empty_groups as')

unfoldable pub enabled_channels : List Channel → List Channel
enabled_channels [] = []
enabled_channels (c ∷ cs) =
    let rest = enabled_channels cs in if c.status == channel_status_enabled then c ∷ rest else rest

-- sort.Slice's test: the higher priority first.
abbrev pub higher : Channel → Channel → Bool
higher c d = ltb_ℤ (get_priority d) (get_priority c)

-- `sort` is sort.Slice, which does not promise the order of equal priorities.
module _ (sort : (Channel → Channel → Bool) → List Channel → List Channel) where
  unfoldable pub sort_by_priority : List Channel → List Channel
  sort_by_priority cs = sort higher cs

  unfoldable pub sort_models : ModelChannels → ModelChannels
  sort_models [] = []
  sort_models ((model, cs) ∷ m) = (model, sort_by_priority cs) ∷ sort_models m

  unfoldable pub sort_cache : ChannelCache → ChannelCache
  sort_cache [] = []
  sort_cache ((group, models) ∷ m) = (group, sort_models models) ∷ sort_cache m

  -- InitChannelCache; `none` is a panic.
  unfoldable pub init_channel_cache : List Channel → List Ability → Option ChannelCache
  init_channel_cache channels abilities =
      elim (append_channels (enabled_channels channels) (empty_groups abilities)) [
        | none ↦ none
        | some cache ↦ some (sort_cache cache)
      ]
