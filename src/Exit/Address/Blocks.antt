-- ===== src/Exit/Address/Blocks.antt =====
-- What a CIDR block of crates/rf/src/exit.rs contains.
use native.Mathlib.Nat.{mul-div_cancel, div-eq_of_lt, one-le-pow}
use randall_flare.Prelude.{
  ℕ, ◌≡◌, refl, ap, sym, ◌∙◌, inl, inr, ◌↔◌, ◌<◌, ◌-◌, ◌*◌, ◌/◌, ◌^◌, true, ◌==◌, ==_iff, arith,
  Bool-cases,
}
use randall_flare.Exit.Address.{IpAddr, mask_bits, mask_ip, same_family, width, cidr_contains}

-- What the highest `prefix` bits of an address of `width` bits make as a number.
abbrev pub high_bits : ℕ → ℕ → ℕ → ℕ
high_bits width prefix bits = bits / 2 ^ (width - prefix)

mul_cancel : (a b n : ℕ) → 0 < n → a * n ≡ b * n → a ≡ b
mul_cancel a b n h e = sym (mul-div_cancel a h) ∙ (ap (λ x. x / n) e ∙ mul-div_cancel b h)

-- Two numbers of `width` bits agree under the mask where they agree in the highest bits.
mask_bits-agree :
    (width prefix a b : ℕ)
    → a < 2 ^ width
    → b < 2 ^ width
    → (mask_bits width a prefix ≡ mask_bits width b prefix)
      ↔ (high_bits width prefix a ≡ high_bits width prefix b)
unfolding mask_bits
mask_bits-agree width prefix a b h k = elim (Bool-cases (prefix == 0)) [
  | inl e ↦
      let z : prefix ≡ 0 = ground arith in
      let w : width - prefix ≡ width = omega arith in
      let same : high_bits width prefix a ≡ high_bits width prefix b =
        rw w (div-eq_of_lt h ∙ sym (div-eq_of_lt k)) in
      (λ _. same, λ _. rw (e, mask_bits) refl)
  | inr e ↦
      rw (e, mask_bits)
        (
          mul_cancel (high_bits width prefix a) (high_bits width prefix b) (2 ^ (width - prefix))
              (omega (arith, one-le-pow (width - prefix) 2 (omega arith))),
          ap (λ x. x * 2 ^ (width - prefix)),
        )
]

abbrev pub bits : IpAddr → ℕ
bits (IpAddr.v4 n) = n
bits (IpAddr.v6 n) = n

abbrev pub IsAddress : IpAddr → Type 0
IsAddress a = bits a < 2 ^ width a

same_masked :
    (w prefix a b : ℕ)
    → a < 2 ^ w
    → b < 2 ^ w
    → ((mask_bits w b prefix == mask_bits w a prefix) ≡ true)
      ↔ (high_bits w prefix b ≡ high_bits w prefix a)
same_masked w prefix a b h k =
    let (to, from) = mask_bits-agree w prefix b a k h in
    let (left, right) = ==_iff (mask_bits w b prefix) (mask_bits w a prefix) in
    (λ e. to (left e), λ e. right (from e))

-- An address is in the block of a network and a prefix length, whose other bits `IpCidr::parse` drops,
-- just where it is of the network's family and its highest `prefix` bits are the network's.
pub cidr_contains-mask_ip :
    (network address : IpAddr) (prefix : ℕ)
    → IsAddress network
    → IsAddress address
    → (cidr_contains (record { network = mask_ip network prefix; prefix = prefix }) address ≡ true)
      ↔ ((same_family network address ≡ true)
          × (high_bits (width network) prefix (bits address)
              ≡ high_bits (width network) prefix (bits network)))
unfolding cidr_contains mask_ip
cidr_contains-mask_ip (IpAddr.v4 a) (IpAddr.v4 b) prefix h k =
    let (to, from) = same_masked 32 prefix a b h k in (λ e. (refl, to e), λ p. from p.1)
cidr_contains-mask_ip (IpAddr.v6 a) (IpAddr.v6 b) prefix h k =
    let (to, from) = same_masked 128 prefix a b h k in (λ e. (refl, to e), λ p. from p.1)
cidr_contains-mask_ip (IpAddr.v4 a) (IpAddr.v6 b) prefix h k = (λ e. absurd (cc), λ p. p.0)
cidr_contains-mask_ip (IpAddr.v6 a) (IpAddr.v4 b) prefix h k = (λ e. absurd (cc), λ p. p.0)
