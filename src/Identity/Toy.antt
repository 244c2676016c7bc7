-- ===== src/Identity/Toy.antt =====
-- A `Crypto` that computes, on which the theorems are tried: hashes are the identity, a signature is
-- the key's seed in front of zeros, and a seed is its own public key.  `crypto` has digests of 32 bytes.
use randall_flare.Prelude.{
  ℕ, zero, suc, ◌≡◌, ◌+◌, ◌%◌, refl, ap, Option, none, some, true, [], ◌∷◌, arith, length,
}
use randall_flare.Prelude.Order.{Bytes, is_eq, bytes_ord}
use randall_flare.Identity.{Crypto}
use randall_flare.Identity.Laws.{SignsCorrectly}

-- The first `n` bytes of a text, filled with zeros.
abbrev pub pad : ℕ → Bytes → Bytes
pad zero xs = []
pad (suc n) [] = 0 ∷ pad n []
pad (suc n) (x ∷ xs) = x ∷ pad n xs

length-pad : (n : ℕ) (xs : Bytes) → length (pad n xs) ≡ n
length-pad zero xs = refl
length-pad (suc n) [] = ap suc (length-pad n [])
length-pad (suc n) (x ∷ xs) = ap suc (length-pad n xs)

abbrev pub toy : Crypto
toy = record {
  sha256 = λ m. m;
  keccak256 = λ m. m;
  hex = λ b. b;
  unhex = λ b. some b;
  ed_key_valid = λ k. true;
  ed_verify = λ k msg sig. is_eq sig (pad 64 k);
  ed_public = λ seed. seed;
  ed_sign = λ seed msg. pad 64 seed;
  eth_point = λ seed. pad 64 seed;
  eth_sign_prehash = λ seed h. (pad 64 seed, 0);
  recovery_id_valid = λ v. true;
  eth_signature_valid = λ s. true;
  eth_recover_prehash = λ h s v. some s;
}

pub toy-SignsCorrectly : SignsCorrectly toy
toy-SignsCorrectly = record {
  ed_key = λ seed. refl;
  ed_length = λ seed msg. length-pad 64 seed;
  ed_verifies = λ seed msg. ground (arith, bytes_ord.cmp_self (pad 64 seed));
  eth_length = λ seed h. length-pad 64 seed;
  eth_recid = λ seed h. refl;
  eth_valid = λ seed h. refl;
  eth_recovers = λ seed h. refl;
}

-- A digest of 32 letters from `a` to `f`, and a hexadecimal text that has each byte twice.
abbrev pub letters : ℕ → Bytes → Bytes
letters zero m = []
letters (suc n) [] = 97 ∷ letters n []
letters (suc n) (x ∷ m) = (97 + x % 6) ∷ letters n m

abbrev pub twice : Bytes → Bytes
twice [] = []
twice (x ∷ b) = x ∷ x ∷ twice b

abbrev pub halved : Bytes → Option Bytes
halved [] = some []
halved (x ∷ []) = none
halved (x ∷ y ∷ b) = elim (halved b) [ none ↦ none | some r ↦ some (x ∷ r) ]

pub halved-twice : (b : Bytes) → halved (twice b) ≡ some b
halved-twice [] = refl
halved-twice (x ∷ b) = rw (halved-twice b) refl

abbrev pub crypto : Crypto
crypto = record toy { sha256 = letters 32; hex = twice; unhex = halved }
