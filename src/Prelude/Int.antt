-- ===== src/Prelude/Int.antt =====
-- The integers, over the native numbers, and their order.
use Prim.Native.Nat.{ℕ, compare, Ordering}
use Prim.Native.Nat.Ordering.{lt, eq, gt}
use mathlib.Core.Path.{◌≡◌, refl}
use native.Mathlib.Omega.{arith}
use randall_flare.Prelude.Order.{Ord, IsTotal}

pub data ℤ : Type 0 where
  pos negsuc : ℕ → ℤ

-- `negsuc n` is the number that comes `n` before -1.
unfoldable pub cmp_int : ℤ → ℤ → Ordering
cmp_int (ℤ.pos m) (ℤ.pos n) = compare m n
cmp_int (ℤ.pos m) (ℤ.negsuc n) = gt
cmp_int (ℤ.negsuc m) (ℤ.pos n) = lt
cmp_int (ℤ.negsuc m) (ℤ.negsuc n) = compare n m

int_self : (x : ℤ) → cmp_int x x ≡ eq
unfolding cmp_int
int_self (ℤ.pos m) = ground arith
int_self (ℤ.negsuc m) = ground arith

int_eq : (x y : ℤ) → cmp_int x y ≡ eq → x ≡ y
unfolding cmp_int
int_eq (ℤ.pos m) (ℤ.pos n) h = ground arith
int_eq (ℤ.pos m) (ℤ.negsuc n) h = ground arith
int_eq (ℤ.negsuc m) (ℤ.pos n) h = ground arith
int_eq (ℤ.negsuc m) (ℤ.negsuc n) h = ground arith

int_lt : (x y : ℤ) → cmp_int x y ≡ lt → cmp_int y x ≡ gt
unfolding cmp_int
int_lt (ℤ.pos m) (ℤ.pos n) h = ground arith
int_lt (ℤ.pos m) (ℤ.negsuc n) h = ground arith
int_lt (ℤ.negsuc m) (ℤ.pos n) h = refl
int_lt (ℤ.negsuc m) (ℤ.negsuc n) h = ground arith

int_gt : (x y : ℤ) → cmp_int x y ≡ gt → cmp_int y x ≡ lt
unfolding cmp_int
int_gt (ℤ.pos m) (ℤ.pos n) h = ground arith
int_gt (ℤ.pos m) (ℤ.negsuc n) h = refl
int_gt (ℤ.negsuc m) (ℤ.pos n) h = ground arith
int_gt (ℤ.negsuc m) (ℤ.negsuc n) h = ground arith

int_trans : (x y z : ℤ) → cmp_int x y ≡ lt → cmp_int y z ≡ lt → cmp_int x z ≡ lt
unfolding cmp_int
int_trans (ℤ.pos l) (ℤ.pos m) (ℤ.pos n) h k = ground arith
int_trans (ℤ.pos l) (ℤ.pos m) (ℤ.negsuc n) h k = ground arith
int_trans (ℤ.pos l) (ℤ.negsuc m) z h k = ground arith
int_trans (ℤ.negsuc l) (ℤ.pos m) (ℤ.pos n) h k = refl
int_trans (ℤ.negsuc l) (ℤ.pos m) (ℤ.negsuc n) h k = ground arith
int_trans (ℤ.negsuc l) (ℤ.negsuc m) (ℤ.pos n) h k = refl
int_trans (ℤ.negsuc l) (ℤ.negsuc m) (ℤ.negsuc n) h k = ground arith

pub cmp_int-IsTotal : IsTotal cmp_int
cmp_int-IsTotal = record {
  cmp_self = int_self;
  cmp_eq = int_eq;
  cmp_lt = int_lt;
  cmp_gt = int_gt;
  cmp_trans = int_trans;
}

instance abbrev pub int_ord : Ord ℤ
int_ord = record { cmp = cmp_int; total = cmp_int-IsTotal }
