-- ===== src/Model/Channels/Serving.antt =====
-- The channels of a group and a model, and how the cache collects them (model/cache.go).
use mathlib.Core.List.{append_assoc, append-nil}
use new_api_blues.Prelude.{
  String, str_eq, eq_iff, Bool, true, false, Option, none, some, List, [], ◌∷◌, ◌++◌, lookup,
  insert, lookup-insert, if◌then◌else◌, ◌≡◌, refl, sym, ap, subst, ◌∙◌, arith, Bool-cases,
  Option-cases, inl, inr, ◌==◌,
}
use new_api_blues.Model.Store.{Channel, Ability}
use new_api_blues.Model.Channels.{
  split_comma, ModelChannels, ChannelCache, channels_or_nil, append_channel, append_models,
  append_groups, append_channels, empty_groups, enabled_channels,
}

abbrev pub models_or_nil : Option ModelChannels → ModelChannels
models_or_nil none = []
models_or_nil (some m) = m

-- group2model2channels[group][model]
abbrev pub cached : String → String → ChannelCache → List Channel
cached group model cache = channels_or_nil (lookup model (models_or_nil (lookup group cache)))

-- The specification: each channel once for each time that its lists name the group and the model.
abbrev pub for_model : String → Channel → List String → List Channel
for_model model c [] = []
for_model model c (m ∷ ms) = (if str_eq m model then c ∷ [] else []) ++ for_model model c ms

abbrev pub for_group : String → String → Channel → List String → List String → List Channel
for_group group model c [] ms = []
for_group group model c (g ∷ gs) ms =
    (if str_eq g group then for_model model c ms else []) ++ for_group group model c gs ms

unfoldable pub serving : String → String → List Channel → List Channel
serving group model [] = []
serving group model (c ∷ cs) =
    for_group group model c (split_comma c.group) (split_comma c.models) ++ serving group model cs

-- The specification: these for the channels whose status is 1, "enabled".
unfoldable pub serving_on : String → String → List Channel → List Channel
serving_on group model [] = []
serving_on group model (c ∷ cs) =
    (if c.status == 1
      then for_group group model c (split_comma c.group) (split_comma c.models)
      else [])
    ++ serving_on group model cs

module _ (group model : String) where
  -- One assignment newGroup2model2channels[g][m] = append(…, c).
  insert-cached :
      (g m : String) (c : Channel) (cache : ChannelCache) (models : ModelChannels)
      → lookup g cache ≡ some models
      → cached group model
          (insert g (insert m (channels_or_nil (lookup m models) ++ c ∷ []) models) cache)
        ≡ cached group model cache
          ++ (if str_eq g group then (if str_eq m model then c ∷ [] else []) else [])
  insert-cached g m c cache models e = elim (Bool-cases (str_eq g group)) [
    | inr other ↦ rw (lookup-insert, other) (sym (append-nil _))
    | inl this ↦
        let here : lookup group cache ≡ some models =
          subst (λ k. lookup k cache ≡ some models) ((eq_iff g group).0 this) e in
        elim (Bool-cases (str_eq m model)) [
          | inr other ↦
              rw (lookup-insert, this, here) (rw (lookup-insert, other) (sym (append-nil _)))
          | inl same ↦
              rw (lookup-insert, this, here)
                (rw (lookup-insert, same)
                  (ap (λ k. channels_or_nil (lookup k models) ++ c ∷ []) ((eq_iff m model).0 same)))
        ]
  ]

  append_channel_lem :
      (g m : String) (c : Channel) (cache after : ChannelCache)
      → append_channel g m c cache ≡ some after
      → cached group model after
        ≡ cached group model cache
          ++ (if str_eq g group then (if str_eq m model then c ∷ [] else []) else [])
  unfolding append_channel
  append_channel_lem g m c cache after h = elim (Option-cases (lookup g cache)) [
    | inl e ↦ absurd (ground (arith, e, h))
    | inr (models, e) ↦
        let done : insert g (insert m (channels_or_nil (lookup m models) ++ c ∷ []) models) cache
            ≡ after =
          ground (arith, e, h) in
        subst
          (λ x.
            cached group model x
            ≡ cached group model cache
              ++ (if str_eq g group then (if str_eq m model then c ∷ [] else []) else []))
          done (insert-cached g m c cache models e)
  ]

  -- The choice under a test, pushed through an append.
  if-append :
      (b : Bool) (xs ys zs : List Channel)
      → (xs ++ (if b then ys else [])) ++ (if b then zs else [])
        ≡ xs ++ (if b then ys ++ zs else [])
  if-append true xs ys zs = append_assoc xs ys zs
  if-append false xs ys zs = append-nil (xs ++ [])

  if-nil : (b : Bool) (xs : List Channel) → xs ++ (if b then [] else []) ≡ xs
  if-nil true xs = append-nil xs
  if-nil false xs = append-nil xs

  append_models_lem :
      (g : String) (ms : List String) (c : Channel) (cache after : ChannelCache)
      → append_models g ms c cache ≡ some after
      → cached group model after
        ≡ cached group model cache ++ (if str_eq g group then for_model model c ms else [])
  unfolding append_models
  append_models_lem g [] c cache after h =
      let done : cache ≡ after = ground (arith, h) in
      subst
        (λ x.
          cached group model x ≡ cached group model cache ++ (if str_eq g group then [] else []))
        done (sym (if-nil (str_eq g group) (cached group model cache)))
  append_models_lem g (m ∷ ms) c cache after h = elim (Option-cases (append_channel g m c cache)) [
    | inl e ↦ absurd (ground (arith, e, h))
    | inr (next, e) ↦
        append_models_lem g ms c next after (ground (arith, e, h))
        ∙ ap (λ xs. xs ++ (if str_eq g group then for_model model c ms else []))
            (append_channel_lem g m c cache next e)
        ∙ if-append (str_eq g group) (cached group model cache)
            (if str_eq m model then c ∷ [] else []) (for_model model c ms)
  ]

  append_groups_lem :
      (gs ms : List String) (c : Channel) (cache after : ChannelCache)
      → append_groups gs ms c cache ≡ some after
      → cached group model after ≡ cached group model cache ++ for_group group model c gs ms
  unfolding append_groups
  append_groups_lem [] ms c cache after h =
      let done : cache ≡ after = ground (arith, h) in
      subst (λ x. cached group model x ≡ cached group model cache ++ []) done
        (sym (append-nil (cached group model cache)))
  append_groups_lem (g ∷ gs) ms c cache after h = elim (Option-cases (append_models g ms c cache)) [
    | inl e ↦ absurd (ground (arith, e, h))
    | inr (next, e) ↦
        append_groups_lem gs ms c next after (ground (arith, e, h))
        ∙ ap (λ xs. xs ++ for_group group model c gs ms) (append_models_lem g ms c cache next e)
        ∙ append_assoc (cached group model cache)
            (if str_eq g group then for_model model c ms else []) (for_group group model c gs ms)
  ]

  pub append_channels_lem :
      (cs : List Channel) (cache after : ChannelCache)
      → append_channels cs cache ≡ some after
      → cached group model after ≡ cached group model cache ++ serving group model cs
  unfolding append_channels serving
  append_channels_lem [] cache after h =
      let done : cache ≡ after = ground (arith, h) in
      subst (λ x. cached group model x ≡ cached group model cache ++ []) done
        (sym (append-nil (cached group model cache)))
  append_channels_lem (c ∷ cs) cache after h =
      elim (Option-cases (append_groups (split_comma c.group) (split_comma c.models) c cache)) [
        | inl e ↦ absurd (ground (arith, e, h))
        | inr (next, e) ↦
            append_channels_lem cs next after (ground (arith, e, h))
            ∙ ap (λ xs. xs ++ serving group model cs)
                (append_groups_lem (split_comma c.group) (split_comma c.models) c cache next e)
            ∙ append_assoc (cached group model cache)
                (for_group group model c (split_comma c.group) (split_comma c.models))
                (serving group model cs)
      ]

  cached-nil : cached group model [] ≡ []
  unfolding lookup
  cached-nil = refl

  model-nil : channels_or_nil (lookup model []) ≡ []
  unfolding lookup
  model-nil = refl

  pub cached-empty_groups : (as' : List Ability) → cached group model (empty_groups as') ≡ []
  unfolding empty_groups
  cached-empty_groups [] = cached-nil
  cached-empty_groups (a ∷ as') =
      ap (λ m. channels_or_nil (lookup model (models_or_nil m)))
        (lookup-insert a.group group [] (empty_groups as'))
      ∙ elim (Bool-cases (str_eq a.group group)) [
        | inl e ↦ rw e model-nil
        | inr e ↦ rw e (cached-empty_groups as')
      ]

  pub serving-enabled_channels :
      (cs : List Channel) → serving group model (enabled_channels cs) ≡ serving_on group model cs
  unfolding serving serving_on enabled_channels
  serving-enabled_channels [] = refl
  serving-enabled_channels (c ∷ cs) = elim (Bool-cases (c.status == 1)) [
    | inl e ↦ rw e (
        ap (λ rest. for_group group model c (split_comma c.group) (split_comma c.models) ++ rest)
          (serving-enabled_channels cs))
    | inr e ↦ rw e (serving-enabled_channels cs)
  ]
