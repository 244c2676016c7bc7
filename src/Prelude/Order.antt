-- ===== src/Prelude/Order.antt =====
-- Total orders with a three-way comparison, as Rust's `Ord`, and the instances that the program
-- compares by: numbers, byte strings, pairs.
use Prim.Native.Nat.{ℕ, compare, Ordering}
use Prim.Native.Nat.Ordering.{lt, eq, gt}
use mathlib.Core.Path.{◌≡◌, refl}
use mathlib.Core.Bool.{Bool, true, false}
use mathlib.Core.List.{List, [], ◌∷◌}
use native.Mathlib.Omega.{arith}

-- The laws that the trait asks of `cmp`; its `Equal` is read as `≡`.
pub record IsTotal {ℓ} {A : Type ℓ} (cmp : A → A → Ordering) : Type ℓ where
  pub cmp_self : (x : A) → cmp x x ≡ eq
  pub cmp_eq : (x y : A) → cmp x y ≡ eq → x ≡ y
  pub cmp_lt : (x y : A) → cmp x y ≡ lt → cmp y x ≡ gt
  pub cmp_gt : (x y : A) → cmp x y ≡ gt → cmp y x ≡ lt
  pub cmp_trans : (x y z : A) → cmp x y ≡ lt → cmp y z ≡ lt → cmp x z ≡ lt

pub record Ord {ℓ} (A : Type ℓ) : Type ℓ where
  pub cmp : A → A → Ordering
  pub total : IsTotal cmp
  pub open total use *

-- The operators of Rust's `PartialOrd`, by name.
module _ {ℓ} {A : Type ℓ} ⦃o : Ord A⦄ where
  abbrev pub is_lt : A → A → Bool
  is_lt x y = elim (o.cmp x y) [ lt ↦ true | _ ↦ false ]

  abbrev pub is_le : A → A → Bool
  is_le x y = elim (o.cmp x y) [ gt ↦ false | _ ↦ true ]

  abbrev pub is_gt : A → A → Bool
  is_gt x y = elim (o.cmp x y) [ gt ↦ true | _ ↦ false ]

  abbrev pub is_eq : A → A → Bool
  is_eq x y = elim (o.cmp x y) [ eq ↦ true | _ ↦ false ]

-- "Not greater" is a total preorder.
module _ {ℓ} {A : Type ℓ} ⦃o : Ord A⦄ where
  pub gt_asym : (x y : A) → is_gt x y ≡ true → is_gt y x ≡ false
  gt_asym x y h = ground (arith, o.cmp_gt x y)

  pub not_gt_antisym : (x y : A) → is_gt x y ≡ false → is_gt y x ≡ false → x ≡ y
  not_gt_antisym x y h k = ground (arith, o.cmp_lt x y, o.cmp_eq x y)

  pub not_gt_trans : (x y z : A) → is_gt x y ≡ false → is_gt y z ≡ false → is_gt x z ≡ false
  not_gt_trans x y z h k = ground (
    arith,
    o.cmp_gt x z,
    o.cmp_eq x y,
    o.cmp_eq y z,
    o.cmp_trans x y z,
    o.cmp_lt x y,
    o.cmp_lt y z,
  )

  pub not_gt_self : (x : A) → is_gt x x ≡ false
  not_gt_self x = ground (arith, o.cmp_self x)

-- `Ordering::then_with`.
abbrev pub then_with : Ordering → Ordering → Ordering
then_with eq second = second
then_with first _ = first

pub compare-IsTotal : IsTotal compare
compare-IsTotal = ground arith

instance abbrev pub nat_ord : Ord ℕ
nat_ord = record { cmp = compare; total = compare-IsTotal }

-- Byte strings, and the UTF-8 bytes of a text.
abbrev pub Bytes : Type 0
Bytes = List ℕ

-- Lexicographic, a proper prefix first.
unfoldable pub cmp_bytes : Bytes → Bytes → Ordering
cmp_bytes [] [] = eq
cmp_bytes [] (y ∷ ys) = lt
cmp_bytes (x ∷ xs) [] = gt
cmp_bytes (x ∷ xs) (y ∷ ys) = then_with (compare x y) (cmp_bytes xs ys)

bytes_self : (xs : Bytes) → cmp_bytes xs xs ≡ eq
unfolding cmp_bytes
bytes_self [] = refl
bytes_self (x ∷ xs) = ground (arith, bytes_self xs)

bytes_eq : (xs ys : Bytes) → cmp_bytes xs ys ≡ eq → xs ≡ ys
unfolding cmp_bytes
bytes_eq [] [] h = refl
bytes_eq [] (y ∷ ys) h = ground arith
bytes_eq (x ∷ xs) [] h = ground arith
bytes_eq (x ∷ xs) (y ∷ ys) h = ground (arith, bytes_eq xs ys)

bytes_lt : (xs ys : Bytes) → cmp_bytes xs ys ≡ lt → cmp_bytes ys xs ≡ gt
unfolding cmp_bytes
bytes_lt [] [] h = ground arith
bytes_lt [] (y ∷ ys) h = refl
bytes_lt (x ∷ xs) [] h = ground arith
bytes_lt (x ∷ xs) (y ∷ ys) h = ground (arith, bytes_lt xs ys)

bytes_gt : (xs ys : Bytes) → cmp_bytes xs ys ≡ gt → cmp_bytes ys xs ≡ lt
unfolding cmp_bytes
bytes_gt [] [] h = ground arith
bytes_gt [] (y ∷ ys) h = ground arith
bytes_gt (x ∷ xs) [] h = refl
bytes_gt (x ∷ xs) (y ∷ ys) h = ground (arith, bytes_gt xs ys)

bytes_trans :
    (xs ys zs : Bytes) → cmp_bytes xs ys ≡ lt → cmp_bytes ys zs ≡ lt → cmp_bytes xs zs ≡ lt
unfolding cmp_bytes
bytes_trans [] ys [] h k = ground (arith, bytes_gt ys [])
bytes_trans [] ys (z ∷ zs) h k = refl
bytes_trans (x ∷ xs) [] zs h k = ground arith
bytes_trans (x ∷ xs) (y ∷ ys) [] h k = ground arith
bytes_trans (x ∷ xs) (y ∷ ys) (z ∷ zs) h k = ground (arith, bytes_trans xs ys zs)

pub cmp_bytes-IsTotal : IsTotal cmp_bytes
cmp_bytes-IsTotal = record {
  cmp_self = bytes_self;
  cmp_eq = bytes_eq;
  cmp_lt = bytes_lt;
  cmp_gt = bytes_gt;
  cmp_trans = bytes_trans;
}

instance abbrev pub bytes_ord : Ord Bytes
bytes_ord = record { cmp = cmp_bytes; total = cmp_bytes-IsTotal }

-- Tuples compare lexicographically.
module _ {ℓ κ} {A : Type ℓ} {B : Type κ} ⦃a : Ord A⦄ ⦃b : Ord B⦄ where
  abbrev pub cmp_pair : A × B → A × B → Ordering
  cmp_pair p q = then_with (a.cmp p.0 q.0) (b.cmp p.1 q.1)

  pair_eq : (p q : A × B) → cmp_pair p q ≡ eq → p ≡ q
  pair_eq p q h = ground (arith, a.cmp_eq p.0 q.0, b.cmp_eq p.1 q.1)

  pair_trans : (p q r : A × B) → cmp_pair p q ≡ lt → cmp_pair q r ≡ lt → cmp_pair p r ≡ lt
  pair_trans p q r h k =
      ground (
        arith,
        a.cmp_eq p.0 q.0,
        a.cmp_eq q.0 r.0,
        a.cmp_trans p.0 q.0 r.0,
        b.cmp_trans p.1 q.1 r.1,
      )

  pub cmp_pair-IsTotal : IsTotal {A = A × B} cmp_pair
  cmp_pair-IsTotal = record {
    cmp_self = λ p. ground (arith, a.cmp_self p.0, b.cmp_self p.1);
    cmp_eq = pair_eq;
    cmp_lt =
        λ p q. ground (arith, a.cmp_eq p.0 q.0, a.cmp_lt p.0 q.0, b.cmp_lt p.1 q.1, a.cmp_self p.0);
    cmp_gt =
        λ p q. ground (arith, a.cmp_eq p.0 q.0, a.cmp_gt p.0 q.0, b.cmp_gt p.1 q.1, a.cmp_self p.0);
    cmp_trans = pair_trans;
  }

  instance abbrev pub pair_ord : Ord (A × B)
  pair_ord = record { cmp = cmp_pair; total = cmp_pair-IsTotal }
