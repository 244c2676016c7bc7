-- ===== src/Access/Compare.antt =====
-- `constant_time_eq` of crates/rf/src/access.rs: the comparison of token digests.
use Prim.Native.Nat.{bit_or, bit_xor, bit_or-bitwise, bit_xor-bitwise, digits, differ}
use randall_flare.Prelude.{
  ℕ, zero, suc, ◌≡◌, refl, sym, ap, ◌∙◌, ◌↔◌, ◌≤◌, ◌/◌, ◌%◌, Bool, true, [], ◌∷◌, ◌==◌, length,
  arith, ==_iff, max,
}
use randall_flare.Prelude.Order.{Bytes}

-- The loop over the indices of the longer text; a missing byte is 0.
unfoldable pub difference_from : ℕ → Bytes → Bytes → ℕ
difference_from d [] [] = d
difference_from d (x ∷ xs) [] = difference_from (bit_or d (bit_xor x 0)) xs []
difference_from d [] (y ∷ ys) = difference_from (bit_or d (bit_xor 0 y)) [] ys
difference_from d (x ∷ xs) (y ∷ ys) = difference_from (bit_or d (bit_xor x y)) xs ys

unfoldable pub constant_time_eq : Bytes → Bytes → Bool
unfolding difference_from
constant_time_eq left right = difference_from (bit_xor (length left) (length right)) left right == 0

differ_zero : (x y : ℕ) → differ x y ≡ 0 → x ≡ y
differ_zero zero y h = sym h
differ_zero (suc x) zero h = absurd (omega arith)
differ_zero (suc x) (suc y) h = ap suc (differ_zero x y h)

differ_self : (x : ℕ) → differ x x ≡ 0
differ_self zero = refl
differ_self (suc x) = differ_self x

xor_zero : (n a b : ℕ) → a ≤ n → digits (λ b. b) differ n a b ≡ 0 → a ≡ b
xor_zero zero zero b h e = sym e
xor_zero zero (suc a) b h e = absurd (omega arith)
xor_zero (suc n) zero b h e = sym e
xor_zero (suc n) (suc a) b h e =
    let high = xor_zero n (suc a / 2) (b / 2) (omega arith) (omega arith) in
    let low = differ_zero (suc a % 2) (b % 2) (omega arith) in omega arith

xor_self : (n a : ℕ) → a ≤ n → digits (λ b. b) differ n a a ≡ 0
xor_self zero a h = omega arith
xor_self (suc n) zero h = refl
xor_self (suc n) (suc a) h =
    omega (arith, xor_self n (suc a / 2) (omega arith), differ_self (suc a % 2))

max_zero : (x y : ℕ) → max x y ≡ 0 → (x ≡ 0) × (y ≡ 0)
max_zero x y h = (omega arith, omega arith)

or_zero : (n a b : ℕ) → a ≤ n → digits (λ b. b) max n a b ≡ 0 → (a ≡ 0) × (b ≡ 0)
or_zero zero zero b h e = (refl, e)
or_zero zero (suc a) b h e = absurd (omega arith)
or_zero (suc n) zero b h e = (refl, e)
or_zero (suc n) (suc a) b h e =
    let high = or_zero n (suc a / 2) (b / 2) (omega arith) (omega arith) in
    let low = max_zero (suc a % 2) (b % 2) (omega arith) in (omega arith, omega arith)

bit_xor_zero : (a b : ℕ) → bit_xor a b ≡ 0 → a ≡ b
bit_xor_zero a b h = xor_zero a a b (omega arith) (sym (bit_xor-bitwise a b) ∙ h)

bit_xor_self : (a : ℕ) → bit_xor a a ≡ 0
bit_xor_self a = bit_xor-bitwise a a ∙ xor_self a a (omega arith)

bit_or_zero : (a b : ℕ) → bit_or a b ≡ 0 → (a ≡ 0) × (b ≡ 0)
bit_or_zero a b h = or_zero a a b (omega arith) (sym (bit_or-bitwise a b) ∙ h)

-- The difference only grows.
difference_zero : (d : ℕ) (l r : Bytes) → difference_from d l r ≡ 0 → d ≡ 0
unfolding difference_from
difference_zero d [] [] h = h
difference_zero d (x ∷ l) [] h =
    (bit_or_zero d (bit_xor x 0) (difference_zero (bit_or d (bit_xor x 0)) l [] h)).0
difference_zero d [] (y ∷ r) h =
    (bit_or_zero d (bit_xor 0 y) (difference_zero (bit_or d (bit_xor 0 y)) [] r h)).0
difference_zero d (x ∷ l) (y ∷ r) h =
    (bit_or_zero d (bit_xor x y) (difference_zero (bit_or d (bit_xor x y)) l r h)).0

same_bytes : (d : ℕ) (l r : Bytes) → length l ≡ length r → difference_from d l r ≡ 0 → l ≡ r
unfolding difference_from
same_bytes d [] [] n h = refl
same_bytes d (x ∷ l) [] n h = absurd (omega arith)
same_bytes d [] (y ∷ r) n h = absurd (omega arith)
same_bytes d (x ∷ l) (y ∷ r) n h =
    let z = bit_or_zero d (bit_xor x y) (difference_zero (bit_or d (bit_xor x y)) l r h) in
    cc (bit_xor_zero x y z.1, same_bytes (bit_or d (bit_xor x y)) l r (omega arith) h)

no_difference : (l : Bytes) → difference_from 0 l l ≡ 0
unfolding difference_from
no_difference [] = refl
no_difference (x ∷ l) = rw (bit_xor_self x) (no_difference l)

-- The comparison that looks at every byte answers true exactly on two texts that are the same.
pub constant_time_eq_iff : (l r : Bytes) → (constant_time_eq l r ≡ true) ↔ (l ≡ r)
unfolding constant_time_eq
constant_time_eq_iff l r = (
  λ h.
      let e = (==_iff (difference_from (bit_xor (length l) (length r)) l r) 0).0 h in
      same_bytes (bit_xor (length l) (length r)) l r
        (bit_xor_zero (length l) (length r) (difference_zero (bit_xor (length l) (length r)) l r e))
        e,
  λ e. rw (← e) (equal l),
)
  where
    equal : (l : Bytes) → (difference_from (bit_xor (length l) (length l)) l l == 0) ≡ true
    equal l = rw (bit_xor_self (length l), no_difference l) refl
