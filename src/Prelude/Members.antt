-- ===== src/Prelude/Members.antt =====
-- Membership with its place, lists without repetition, and the overlap of two majorities.
use Prim.Native.Nat.{suc, ◌+◌, ◌/◌, ◌≤◌}
use mathlib.Core.Path.{◌≡◌, refl, sym, ◌∙◌, subst}
use mathlib.Core.Logic.{◌≢◌, ◌⊎◌, inl, inr}
use mathlib.Core.List.{List, [], ◌∷◌, ◌++◌}
use native.Mathlib.Omega.{arith}
use randall_flare.Prelude.Lists.{length, length-append, All}

module _ {A : Type 0} where
  abbrev pub In : A → List A → Type 0
  In x [] = ⊥
  In x (y ∷ ys) = (x ≡ y) ⊎ In x ys

  abbrev pub Distinct : List A → Type 0
  Distinct [] = Unit
  Distinct (x ∷ xs) = (In x xs → ⊥) × Distinct xs

  pub In-append_left : (x : A) (xs ys : List A) → In x xs → In x (xs ++ ys)
  In-append_left x [] ys h = elim h [ ]
  In-append_left x (y ∷ xs) ys (inl e) = inl e
  In-append_left x (y ∷ xs) ys (inr h) = inr (In-append_left x xs ys h)

  pub In-append_right : (x : A) (xs ys : List A) → In x ys → In x (xs ++ ys)
  In-append_right x [] ys h = h
  In-append_right x (y ∷ xs) ys h = inr (In-append_right x xs ys h)

  pub In-append : (x : A) (xs ys : List A) → In x (xs ++ ys) → In x xs ⊎ In x ys
  In-append x [] ys h = inr h
  In-append x (y ∷ xs) ys (inl e) = inl (inl e)
  In-append x (y ∷ xs) ys (inr h) = elim (In-append x xs ys h) [
    | inl l ↦ inl (inr l)
    | inr r ↦ inr r
  ]

  pub All-In {κ} : (P : A → Type κ) (x : A) (xs : List A) → All P xs → In x xs → P x
  All-In P x [] a h = elim h [ ]
  All-In P x (y ∷ xs) a (inl e) = subst P (sym e) a.0
  All-In P x (y ∷ xs) a (inr h) = All-In P x xs a.1 h

  pub In-All {κ} : (P : A → Type κ) (xs : List A) → ((x : A) → In x xs → P x) → All P xs
  In-All P [] h = tt
  In-All P (x ∷ xs) h = (h x (inl refl), In-All P xs (λ y i. h y (inr i)))

  pub Distinct-append :
      (xs ys : List A)
      → Distinct xs
      → Distinct ys
      → ((x : A) → In x xs → In x ys → ⊥)
      → Distinct (xs ++ ys)
  Distinct-append [] ys d e h = e
  Distinct-append (x ∷ xs) ys d e h = (
    λ i. elim (In-append x xs ys i) [ inl l ↦ d.0 l | inr r ↦ h x (inl refl) r ],
    Distinct-append xs ys d.1 e (λ y l r. h y (inr l) r),
  )

  -- A list with one occurrence of `x` taken out.
  abbrev without : (x : A) (ys : List A) → In x ys → List A
  without x [] h = []
  without x (y ∷ ys) (inl e) = ys
  without x (y ∷ ys) (inr h) = y ∷ without x ys h

  length-without : (x : A) (ys : List A) (h : In x ys) → length ys ≡ suc (length (without x ys h))
  length-without x [] h = elim h [ ]
  length-without x (y ∷ ys) (inl e) = refl
  length-without x (y ∷ ys) (inr h) = omega (arith, length-without x ys h)

  In-without : (x z : A) (ys : List A) (h : In x ys) → z ≢ x → In z ys → In z (without x ys h)
  In-without x z [] h n i = elim i [ ]
  In-without x z (y ∷ ys) (inl e) n (inl p) = absurd (n (p ∙ sym e))
  In-without x z (y ∷ ys) (inl e) n (inr i) = i
  In-without x z (y ∷ ys) (inr h) n (inl p) = inl p
  In-without x z (y ∷ ys) (inr h) n (inr i) = inr (In-without x z ys h n i)

  -- A list without repetition is no longer than one that holds all of it.
  pub length-le_of_Distinct :
      (xs ys : List A) → Distinct xs → ((x : A) → In x xs → In x ys) → length xs ≤ length ys
  length-le_of_Distinct [] ys d h = omega arith
  length-le_of_Distinct (x ∷ xs) ys d h =
      let here = h x (inl refl) in
      let fewer =
        length-le_of_Distinct xs (without x ys here) d.1
          (λ z i. In-without x z ys here (λ e. d.0 (subst (λ w. In w xs) e i)) (h z (inr i))) in
      omega (arith, length-without x ys here, fewer)

  -- Two majorities of one group cannot be disjoint.
  pub majorities_meet :
      (group xs ys : List A)
      → Distinct xs
      → Distinct ys
      → ((x : A) → In x xs → In x group)
      → ((x : A) → In x ys → In x group)
      → length group / 2 + 1 ≤ length xs
      → length group / 2 + 1 ≤ length ys
      → ((x : A) → In x xs → In x ys → ⊥)
      → ⊥
  majorities_meet group xs ys d e h k m n apart =
      let all =
        length-le_of_Distinct (xs ++ ys) group (Distinct-append xs ys d e apart)
          (λ x i. elim (In-append x xs ys i) [ inl l ↦ h x l | inr r ↦ k x r ]) in
      omega (arith, all, length-append xs ys)
