-- ===== src/Model/Channels/Select.antt =====
-- The choice of a channel from the cache, CacheGetRandomSatisfiedChannel (model/cache.go). The
-- random source is the argument `intn`, math/rand's Intn, which is below its argument.
use new_api_blues.Prelude.{
  ℕ, zero, suc, ◌+◌, ◌-◌, ◌≤◌, ◌<◌, ℤ, pos, Bool, true, false, Option, none, some, List, [], ◌∷◌,
  length, get_elem?, ltb, ltb_ℤ, eqb_ℤ, if◌then◌else◌, ◌≡◌, refl, subst, arith, eq_of_parts,
  pos_part, neg_part, ==_iff, ==_self, not, ◌||◌,
}
use new_api_blues.Model.Store.{Channel}
use new_api_blues.Model.Channels.{get_priority}

-- Where the first priority ends.
unfoldable pub same_priority : ℤ → List Channel → ℕ
same_priority p [] = 0
same_priority p (c ∷ cs) =
    let rest = same_priority p cs in if eqb_ℤ (get_priority c) p then suc rest else 0

unfoldable pub end_index : List Channel → ℕ
unfolding same_priority
end_index [] = 0
end_index (c ∷ cs) =
    if ltb_ℤ (pos 0) (get_priority c)
    then same_priority (get_priority c) (c ∷ cs)
    else suc (length cs)

-- Which of n channels is taken, where the first priority ends at `end`.
unfoldable pub chosen_index : (ℕ → ℕ) → ℕ → ℕ → Bool → ℕ
chosen_index intn n end ignore_first_priority =
    let idx = intn end in
    if ignore_first_priority then (if ltb end n then end + intn (n - end) else idx) else idx

-- The chosen channel; `none` is "channel not found".
unfoldable pub random_satisfied_channel : (ℕ → ℕ) → List Channel → Bool → Option Channel
random_satisfied_channel intn [] ignore_first_priority = none
random_satisfied_channel intn (c ∷ cs) ignore_first_priority =
    get_elem? (c ∷ cs)
      (chosen_index intn (suc (length cs)) (end_index (c ∷ cs)) ignore_first_priority)

same_priority-le : (p : ℤ) (cs : List Channel) → same_priority p cs ≤ length cs
unfolding same_priority
same_priority-le p [] = omega arith
same_priority-le p (c ∷ cs) = ground (arith, same_priority-le p cs)

-- Below the end of the first priority every channel has that priority.
pub eqb_ℤ→eq : (a b : ℤ) → eqb_ℤ a b ≡ true → a ≡ b
eqb_ℤ→eq a b h = eq_of_parts a b ((==_iff (pos_part a + neg_part b) (pos_part b + neg_part a)).0 h)

same_priority-at :
    (p : ℤ) (cs : List Channel) (i : ℕ)
    → i < same_priority p cs
    → (c : Channel) × (get_elem? cs i ≡ some c) × (get_priority c ≡ p)
unfolding same_priority
same_priority-at p [] i h = absurd (ground arith)
same_priority-at p (c ∷ cs) zero h = (c, refl, eqb_ℤ→eq _ p (ground (arith, h)))
same_priority-at p (c ∷ cs) (suc i) h = same_priority-at p cs i (ground (arith, h))

get_elem?-below :
    (cs : List Channel) (i : ℕ) → i < length cs → (c : Channel) × (get_elem? cs i ≡ some c)
get_elem?-below [] i h = absurd (omega arith)
get_elem?-below (c ∷ cs) zero h = (c, refl)
get_elem?-below (c ∷ cs) (suc i) h = get_elem?-below cs i (omega arith)

end_index_bounds :
    (c : Channel) (cs : List Channel)
    → (1 ≤ end_index (c ∷ cs)) × (end_index (c ∷ cs) ≤ suc (length cs))
unfolding end_index same_priority
end_index_bounds c cs = ground (arith, same_priority-le (get_priority c) cs)

top-end :
    (c : Channel) (cs : List Channel) (i : ℕ)
    → ltb_ℤ (pos 0) (get_priority c) ≡ true
    → i < end_index (c ∷ cs)
    → i < same_priority (get_priority c) (c ∷ cs)
unfolding end_index
top-end c cs i above h = subst (λ n. i < n) (rw above refl) h

verdict :
    (ignored above : Bool) (x y : ℤ)
    → (ignored ≡ false → above ≡ true → x ≡ y)
    → (ignored || not above || eqb_ℤ x y) ≡ true
verdict true above x y h = refl
verdict false false x y h = refl
verdict false true x y h = rw (h refl refl) (==_self (pos_part y + neg_part y))

module _ (intn : ℕ → ℕ) (below : (n : ℕ) → 0 < n → intn n < n) where
  chosen_index_bounds :
      (n end : ℕ) (ignore : Bool)
      → 1 ≤ end
      → end ≤ n
      → (chosen_index intn n end ignore < n)
        × (ignore ≡ false → chosen_index intn n end ignore < end)
  unfolding chosen_index
  chosen_index_bounds n end false one small =
      (ground (arith, below end), λ _. below end (omega arith))
  chosen_index_bounds n end true one small =
      (ground (arith, below end, below (n - end)), λ h. absurd (ground arith))

  -- With a random source that stays below its argument, the index is never out of range: a list
  -- with a channel in it yields one, and with a first priority above 0 that is not to be ignored,
  -- one of that priority.
  pub random_satisfied_channel-found :
      (c : Channel) (cs : List Channel) (ignore_first_priority : Bool)
      → (d : Channel) × (random_satisfied_channel intn (c ∷ cs) ignore_first_priority ≡ some d)
        × ((ignore_first_priority
              || not (ltb_ℤ (pos 0) (get_priority c))
              || eqb_ℤ (get_priority d) (get_priority c))
            ≡ true)
  unfolding random_satisfied_channel
  random_satisfied_channel-found c cs ignore =
      let (one, small) = end_index_bounds c cs in
      let i = chosen_index intn (suc (length cs)) (end_index (c ∷ cs)) ignore in
      let (inside, first) =
        chosen_index_bounds (suc (length cs)) (end_index (c ∷ cs)) ignore one small in
      let (d, e) = get_elem?-below (c ∷ cs) i inside in
      (
        d,
        e,
        verdict ignore (ltb_ℤ (pos 0) (get_priority c)) (get_priority d) (get_priority c)
            (λ wanted above.
              let (d', e', same) =
                same_priority-at (get_priority c) (c ∷ cs) i
                  (top-end c cs i above (first wanted)) in
              let one' : d' ≡ d = ground (arith, e, e') in
              subst (λ x. get_priority x ≡ get_priority c) one' same),
      )
