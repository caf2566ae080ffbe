-- ===== src/Tests/Sorting.antt =====
-- A sort of channels by a test, as sort.Slice is used (model/cache.go): by insertion.
use mathlib.Core.List.Perm
use mathlib.Core.List.{Perm}
use new_api_blues.Prelude.{
  Bool, false, inl, inr, List, [], ◌∷◌, ◌≡◌, if◌then◌else◌, All, AllPairs, Bool-cases,
}
use new_api_blues.Model.Store.{Channel}
use new_api_blues.Model.Channels.Query.{IsWeakOrder}

module _ (less : Channel → Channel → Bool) where
  unfoldable pub insert_by : Channel → List Channel → List Channel
  insert_by c [] = c ∷ []
  insert_by c (d ∷ ds) = let rest = insert_by c ds in if less d c then d ∷ rest else c ∷ d ∷ ds

  unfoldable pub sort_by : List Channel → List Channel
  sort_by [] = []
  sort_by (c ∷ cs) = insert_by c (sort_by cs)

  insert_by-Perm : (c : Channel) (cs : List Channel) → Perm (insert_by c cs) (c ∷ cs)
  unfolding insert_by
  insert_by-Perm c [] = Perm.rfl
  insert_by-Perm c (d ∷ ds) = elim (Bool-cases (less d c)) [
    | inl e ↦ rw e (Perm.trans (Perm.cons d (insert_by-Perm c ds)) (Perm.swap c d ds))
    | inr e ↦ rw e Perm.rfl
  ]

  pub sort_by-Perm : (cs : List Channel) → Perm (sort_by cs) cs
  unfolding sort_by
  sort_by-Perm [] = Perm.rfl
  sort_by-Perm (c ∷ cs) = Perm.trans (insert_by-Perm c (sort_by cs)) (Perm.cons c (sort_by-Perm cs))

  insert_by-All :
      (P : Channel → Type 0) (c : Channel) (cs : List Channel)
      → P c
      → All P cs
      → All P (insert_by c cs)
  unfolding insert_by
  insert_by-All P c [] p h = (p, tt)
  insert_by-All P c (d ∷ ds) p (q, h) = elim (Bool-cases (less d c)) [
    | inl e ↦ rw e (q, insert_by-All P c ds p h)
    | inr e ↦ rw e (p, (q, h))
  ]

  All-ahead :
      (c d : Channel) (ds : List Channel)
      → IsWeakOrder less
      → less d c ≡ false
      → All (λ x. less x d ≡ false) ds
      → All (λ x. less x c ≡ false) ds
  All-ahead c d [] o e h = tt
  All-ahead c d (x ∷ xs) o e (q, h) = (o.1 x d c q e, All-ahead c d xs o e h)

  insert_by-AllPairs :
      (c : Channel) (cs : List Channel)
      → IsWeakOrder less
      → AllPairs (λ x y. less y x ≡ false) cs
      → AllPairs (λ x y. less y x ≡ false) (insert_by c cs)
  unfolding insert_by
  insert_by-AllPairs c [] o h = (tt, tt)
  insert_by-AllPairs c (d ∷ ds) o (p, h) = elim (Bool-cases (less d c)) [
    | inl e ↦
        rw e (insert_by-All (λ x. less x d ≡ false) c ds (o.0 d c e) p, insert_by-AllPairs c ds o h)
    | inr e ↦ rw e ((e, All-ahead c d ds o e p), (p, h))
  ]

  pub sort_by-AllPairs :
      (cs : List Channel) → IsWeakOrder less → AllPairs (λ x y. less y x ≡ false) (sort_by cs)
  unfolding sort_by
  sort_by-AllPairs [] o = tt
  sort_by-AllPairs (c ∷ cs) o = insert_by-AllPairs c (sort_by cs) o (sort_by-AllPairs cs o)
