-- ===== src/Prelude/SortBy.antt =====
-- `sort_by` with a comparison of keys: a stable insertion sort.
use mathlib.Core.Path.{◌≡◌}
use mathlib.Core.Bool.{false}
use mathlib.Core.Logic.{◌⊎◌, inl, inr}
use mathlib.Core.List.{List, [], ◌∷◌}
use native.Mathlib.Omega.{arith}
use randall_flare.Prelude.Lists.{All}
use randall_flare.Prelude.Members.{In}
use randall_flare.Prelude.Order.{Ord, is_gt, gt_asym, not_gt_trans}
use randall_flare.Prelude.Tests.{if◌then◌else◌, Bool-cases}

module _ {A : Type 0} {K : Type 0} ⦃o : Ord K⦄ (key : A → K) where
  unfoldable pub insert_by : A → List A → List A
  insert_by p [] = p ∷ []
  insert_by p (q ∷ qs) =
      let rest = insert_by p qs in if is_gt (key p) (key q) then q ∷ rest else p ∷ q ∷ qs

  unfoldable pub sort_by : List A → List A
  unfolding insert_by
  sort_by [] = []
  sort_by (p ∷ ps) = insert_by p (sort_by ps)

  abbrev pub AtLeast : A → List A → Type 0
  AtLeast p qs = All (λ q. is_gt (key p) (key q) ≡ false) qs

  -- No element comes after one with a greater key.
  abbrev pub Ascends : List A → Type 0
  Ascends [] = Unit
  Ascends (p ∷ ps) = AtLeast p ps × Ascends ps

  In-insert_by : (x p : A) (qs : List A) → In x (insert_by p qs) → (x ≡ p) ⊎ In x qs
  unfolding insert_by
  In-insert_by x p [] i = i
  In-insert_by x p (q ∷ qs) i = ground (arith, In-insert_by x p qs, i)

  insert_by-In : (x p : A) (qs : List A) → (x ≡ p) ⊎ In x qs → In x (insert_by p qs)
  unfolding insert_by
  insert_by-In x p [] i = i
  insert_by-In x p (q ∷ qs) i = ground (arith, insert_by-In x p qs, i)

  -- Sorting keeps what is there.
  pub In-sort_by : (x : A) (ps : List A) → In x (sort_by ps) → In x ps
  unfolding sort_by
  In-sort_by x [] i = i
  In-sort_by x (p ∷ ps) i = elim (In-insert_by x p (sort_by ps) i) [
    | inl e ↦ inl e
    | inr j ↦ inr (In-sort_by x ps j)
  ]

  pub sort_by-In : (x : A) (ps : List A) → In x ps → In x (sort_by ps)
  unfolding sort_by
  sort_by-In x [] i = i
  sort_by-In x (p ∷ ps) (inl e) = insert_by-In x p (sort_by ps) (inl e)
  sort_by-In x (p ∷ ps) (inr i) = insert_by-In x p (sort_by ps) (inr (sort_by-In x ps i))

  AtLeast-insert_by :
      (r p : A) (qs : List A)
      → is_gt (key r) (key p) ≡ false
      → AtLeast r qs
      → AtLeast r (insert_by p qs)
  unfolding insert_by
  AtLeast-insert_by r p [] h a = (h, tt)
  AtLeast-insert_by r p (q ∷ qs) h a = ground (arith, AtLeast-insert_by r p qs h, a, h)

  AtLeast-trans :
      (r p : A) (qs : List A) → is_gt (key r) (key p) ≡ false → AtLeast p qs → AtLeast r qs
  AtLeast-trans r p [] h a = tt
  AtLeast-trans r p (q ∷ qs) h a =
      (not_gt_trans (key r) (key p) (key q) h a.0, AtLeast-trans r p qs h a.1)

  insert_by-Ascends : (p : A) (qs : List A) → Ascends qs → Ascends (insert_by p qs)
  unfolding insert_by
  insert_by-Ascends p [] a = (tt, tt)
  insert_by-Ascends p (q ∷ qs) a = elim (Bool-cases (is_gt (key p) (key q))) [
    | inl e ↦
        rw (e, insert_by)
          (AtLeast-insert_by q p qs (gt_asym (key p) (key q) e) a.0, insert_by-Ascends p qs a.1)
    | inr e ↦ rw (e, insert_by) ((e, AtLeast-trans p q qs e a.0), a)
  ]

  pub sort_by-Ascends : (ps : List A) → Ascends (sort_by ps)
  unfolding sort_by
  sort_by-Ascends [] = tt
  sort_by-Ascends (p ∷ ps) = insert_by-Ascends p (sort_by ps) (sort_by-Ascends ps)
