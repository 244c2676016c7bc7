-- ===== src/Identity/Laws.antt =====
-- Signatures made by `sign` pass `verify`: crates/rf-core/src/identity.rs.
use randall_flare.Prelude.{
  ℕ, suc, zero, ◌+◌, ◌-◌, ◌≡◌, refl, ap, some, true, List, [], ◌∷◌, ◌++◌, arith, length, take,
  get_elem?, length-append,
}
use randall_flare.Prelude.Order.{Bytes, bytes_ord}
use randall_flare.Identity.{
  Crypto, AnyKeypair, ed, eth, verify, verify_public, recovers, eth_recover, recover_with,
  eth_address_of, eip191_hash, eth_sign, sign, signer_id,
}

-- What the signature crates document: lengths, and that a signature verifies under its own key.
pub record SignsCorrectly (c : Crypto) : Type 0 where
  pub ed_key : (seed : Bytes) → c.ed_key_valid (c.ed_public seed) ≡ true
  pub ed_length : (seed msg : Bytes) → length (c.ed_sign seed msg) ≡ 64
  pub ed_verifies :
      (seed msg : Bytes) → c.ed_verify (c.ed_public seed) msg (c.ed_sign seed msg) ≡ true
  pub eth_length : (seed h : Bytes) → length (c.eth_sign_prehash seed h).0 ≡ 64
  pub eth_recid : (seed h : Bytes) → c.recovery_id_valid (c.eth_sign_prehash seed h).1 ≡ true
  pub eth_valid : (seed h : Bytes) → c.eth_signature_valid (c.eth_sign_prehash seed h).0 ≡ true
  pub eth_recovers :
      (seed h : Bytes)
      → c.eth_recover_prehash h (c.eth_sign_prehash seed h).0 (c.eth_sign_prehash seed h).1
        ≡ some (c.eth_point seed)

pub get_elem?-append_end {ℓ} :
    {A : Type ℓ} (xs : List A) (x : A) (n : ℕ) → length xs ≡ n → get_elem? (xs ++ x ∷ []) n ≡ some x
get_elem?-append_end [] x zero h = refl
get_elem?-append_end [] x (suc n) h = absurd (omega arith)
get_elem?-append_end (y ∷ xs) x zero h = absurd (omega arith)
get_elem?-append_end (y ∷ xs) x (suc n) h = get_elem?-append_end xs x n (omega arith)

pub take-append_end {ℓ} :
    {A : Type ℓ} (xs ys : List A) (n : ℕ) → length xs ≡ n → take n (xs ++ ys) ≡ xs
take-append_end [] ys zero h = refl
take-append_end [] ys (suc n) h = absurd (omega arith)
take-append_end (y ∷ xs) ys zero h = absurd (omega arith)
take-append_end (y ∷ xs) ys (suc n) h = ap (λ l. y ∷ l) (take-append_end xs ys n (omega arith))

module _ (c : Crypto) (s : SignsCorrectly c) where
  recover_with-eth_sign :
      (seed payload : Bytes)
      → recover_with c payload
          (eth_sign c seed payload)
          ((c.eth_sign_prehash seed (eip191_hash c payload)).1 + 27)
        ≡ some (eth_address_of c (c.eth_point seed))
  unfolding recover_with eth_sign
  recover_with-eth_sign seed payload =
      let h = eip191_hash c payload in
      let p = c.eth_sign_prehash seed h in
      let back : p.1 + 27 - 27 ≡ p.1 = omega arith in
      rw (back, take-append_end p.0 ((p.1 + 27) ∷ []) 64 (s.eth_length seed h))
        (ground (arith, s.eth_recid seed h, s.eth_valid seed h, s.eth_recovers seed h))

  eth_recover-eth_sign :
      (seed payload : Bytes)
      → eth_recover c payload (eth_sign c seed payload) ≡ some (eth_address_of c (c.eth_point seed))
  eth_recover-eth_sign seed payload =
      let h = eip191_hash c payload in
      let p = c.eth_sign_prehash seed h in
      let whole : length (eth_sign c seed payload) ≡ 65 =
        unfold eth_sign in
        omega (arith, s.eth_length seed h, length-append p.0 ((p.1 + 27) ∷ [])) in
      let last : get_elem? (eth_sign c seed payload) 64 ≡ some (p.1 + 27) =
        unfold eth_sign in get_elem?-append_end p.0 (p.1 + 27) 64 (s.eth_length seed h) in
      unfold eth_recover in ground (arith, recover_with-eth_sign seed payload)

  -- Whatever a key pair of either kind signs verifies under the identity of that key pair.
  pub verify-sign :
      (key : AnyKeypair) (payload : Bytes)
      → verify c (signer_id c key) payload (sign c key payload) ≡ true
  unfolding verify signer_id sign verify_public
  verify-sign (ed seed) payload =
      ground (arith, s.ed_length seed payload, s.ed_key seed, s.ed_verifies seed payload)
  verify-sign (eth seed) payload =
      let good = eth_recover-eth_sign seed payload in
      unfold recovers in ground (arith, bytes_ord.cmp_self (eth_address_of c (c.eth_point seed)))
