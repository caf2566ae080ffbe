-- ===== src/Model/Channels/Query.antt =====
-- The channel cache holds what a query would find (model/cache.go).
use mathlib.Core.List.Perm
use mathlib.Core.List.{Perm}
use new_api_blues.Prelude.{
  ℤ, pos, String, str_eq, Bool, true, false, none, some, List, [], ◌∷◌, ◌++◌, lookup, ltb_ℤ,
  AllPairs, ◌≡◌, sym, ap, subst, ◌∙◌, arith, Bool-cases, Option-cases, inl, inr,
}
use new_api_blues.Model.Store.{Channel, Ability}
use new_api_blues.Model.Channels.{
  ModelChannels, ChannelCache, channels_or_nil, append_channels, empty_groups, sort_by_priority,
  sort_models, sort_cache, enabled_channels, higher, get_priority, init_channel_cache,
}
use new_api_blues.Model.Channels.Serving.{
  cached, serving, serving_on, append_channels_lem, cached-empty_groups, serving-enabled_channels,
}

-- A priority that is not set counts as 0.
abbrev pub rank : Channel → ℤ
rank c = elim c.priority [ none ↦ pos 0 | some p ↦ p ]

-- What sort.Slice asks of its test.
abbrev pub IsWeakOrder : (Channel → Channel → Bool) → Type 0
IsWeakOrder less =
    ((a b : Channel) → less a b ≡ true → less b a ≡ false)
    × ((a b c : Channel) → less a b ≡ false → less b c ≡ false → less a c ≡ false)

higher-IsWeakOrder : IsWeakOrder higher
higher-IsWeakOrder = (λ a b h. ground (arith, h), λ a b c h k. ground (arith, h, k))

module _ (group model : String) (sort : (Channel → Channel → Bool) → List Channel → List Channel)
    (permutes : (less : Channel → Channel → Bool) (cs : List Channel) → Perm (sort less cs) cs)
    (sorts : (less : Channel → Channel → Bool) (cs : List Channel)
      → IsWeakOrder less
      → AllPairs (λ c d. less d c ≡ false) (sort less cs)) where
  lookup-sort_models :
      (m : ModelChannels)
      → channels_or_nil (lookup model (sort_models sort m))
        ≡ sort_by_priority sort (channels_or_nil (lookup model m))
  unfolding lookup sort_models sort_by_priority
  lookup-sort_models [] = sym (Perm.eq-nil (permutes higher []))
  lookup-sort_models ((k, cs) ∷ m) = elim (Bool-cases (str_eq k model)) [
    | inl e ↦ rw e
    | inr e ↦ rw e (lookup-sort_models m)
  ]

  cached-sort_cache :
      (cache : ChannelCache)
      → cached group model (sort_cache sort cache)
        ≡ sort_by_priority sort (cached group model cache)
  unfolding lookup sort_cache sort_by_priority
  cached-sort_cache [] = sym (Perm.eq-nil (permutes higher []))
  cached-sort_cache ((k, m) ∷ cache) = elim (Bool-cases (str_eq k group)) [
    | inl e ↦ rw e (lookup-sort_models m)
    | inr e ↦ rw e (cached-sort_cache cache)
  ]

  cached-init :
      (channels : List Channel) (abilities : List Ability) (cache : ChannelCache)
      → init_channel_cache sort channels abilities ≡ some cache
      → cached group model cache ≡ sort_by_priority sort (serving_on group model channels)
  unfolding init_channel_cache
  cached-init channels abilities cache h =
      elim (Option-cases (append_channels (enabled_channels channels) (empty_groups abilities))) [
        | inl e ↦ absurd (ground (arith, e, h))
        | inr (built, e) ↦
            let done : sort_cache sort built ≡ cache = ground (arith, e, h) in
            ap (cached group model) (sym done)
            ∙ cached-sort_cache built
            ∙ ap (sort_by_priority sort) (
                append_channels_lem group model (enabled_channels channels) (empty_groups abilities)
                  built e
                ∙ ap (λ xs. xs ++ serving group model (enabled_channels channels))
                    (cached-empty_groups group model abilities)
                ∙ serving-enabled_channels group model channels)
      ]

  -- Where a cache can be built, its entry for a group and a model holds exactly the channels of
  -- status 1, each once for each time that its lists name both, and no channel stands before one
  -- of a higher priority. The sort permutes its list and, if its test is a weak order, leaves no
  -- element before one that the test puts ahead of it.
  pub init_channel_cache-query :
      (channels : List Channel) (abilities : List Ability) (cache : ChannelCache)
      → init_channel_cache sort channels abilities ≡ some cache
      → Perm (cached group model cache) (serving_on group model channels)
        × AllPairs (λ c d. ltb_ℤ (rank c) (rank d) ≡ false) (cached group model cache)
  unfolding sort_by_priority get_priority
  init_channel_cache-query channels abilities cache h =
      let e = cached-init channels abilities cache h in
      (
        subst (λ cs. Perm cs (serving_on group model channels)) (sym e)
            (permutes higher (serving_on group model channels)),
        subst (AllPairs (λ c d. ltb_ℤ (rank c) (rank d) ≡ false)) (sym e)
            (sorts higher (serving_on group model channels) higher-IsWeakOrder),
      )
