-- ===== src/Prelude/Sorting.antt =====
-- `sort` of a slice, as an insertion sort by a total order: equal elements cannot be told apart.
use mathlib.Core.Path.{◌≡◌, refl, ap, sym, ◌∙◌}
use mathlib.Core.Path.{ap₂}
use mathlib.Core.Bool.{true}
use mathlib.Core.Logic.{inl, inr}
use mathlib.Core.List.{List, [], ◌∷◌, Permᴰ, map}
use native.Mathlib.Omega.{arith}
use randall_flare.Prelude.Order.{Ord, is_gt, gt_asym, not_gt_antisym}
use randall_flare.Prelude.Tests.{if◌then◌else◌, Bool-cases}

module _ {ℓ} {A : Type ℓ} ⦃o : Ord A⦄ where
  unfoldable pub insert : A → List A → List A
  insert p [] = p ∷ []
  insert p (q ∷ qs) = let rest = insert p qs in if is_gt p q then q ∷ rest else p ∷ q ∷ qs

  unfoldable pub sort : List A → List A
  sort [] = []
  sort (p ∷ ps) = insert p (sort ps)

  gt_trans : (p q r : A) → is_gt p q ≡ true → is_gt q r ≡ true → is_gt p r ≡ true
  gt_trans p q r h k = ground (arith, o.cmp_gt p q, o.cmp_gt q r, o.cmp_trans r q p, o.cmp_lt r p)

  half : (p q : A) (l : List A) → is_gt p q ≡ true → insert p (insert q l) ≡ insert q (insert p l)
  unfolding insert
  half p q [] h = ground (arith, gt_asym p q h)
  half p q (r ∷ l) h = ground (arith, half p q l h, gt_asym p q h, gt_trans p q r h)

  insert_comm : (p q : A) (l : List A) → insert p (insert q l) ≡ insert q (insert p l)
  insert_comm p q l = elim (Bool-cases (is_gt p q)) [
    | inl gt ↦ half p q l gt
    | inr le ↦ elim (Bool-cases (is_gt q p)) [
      | inl gt ↦ sym (half q p l gt)
      | inr ge ↦ let e = not_gt_antisym p q le ge in ap₂ (λ x y. insert x (insert y l)) e (sym e)
    ]
  ]

  -- Any two orders of the same elements sort to one list.
  pub sort-Perm : {t u : List A} → Permᴰ t u → sort t ≡ sort u
  unfolding sort
  sort-Perm Permᴰ.nil = refl
  sort-Perm (Permᴰ.cons e d) = ap₂ insert e (sort-Perm d)
  sort-Perm (Permᴰ.swap {a = a} {b = b} {l = l} e f) =
      insert_comm a b (sort l) ∙ ap₂ (λ x y. insert x (insert y (sort l))) f e
  sort-Perm (Permᴰ.trans p q) = sort-Perm p ∙ sort-Perm q

pub map-Perm {ℓ κ} :
    {A : Type ℓ} {B : Type κ} (f : A → B) {t u : List A} → Permᴰ t u → Permᴰ (map f t) (map f u)
map-Perm f Permᴰ.nil = Permᴰ.nil
map-Perm f (Permᴰ.cons e d) = Permᴰ.cons (ap f e) (map-Perm f d)
map-Perm f (Permᴰ.swap e g) = Permᴰ.swap (ap f e) (ap f g)
map-Perm f (Permᴰ.trans p q) = Permᴰ.trans (map-Perm f p) (map-Perm f q)
