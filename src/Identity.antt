-- ===== src/Identity.antt =====
-- crates/rf-core/src/identity.rs: who signs. The curves, the hashes and the hex encoding are other
-- crates' code: the record `Crypto` holds their functions.
pub mod Laws
pub mod Toy
pub mod Wire
use randall_flare.Prelude.{
  ℕ, ◌+◌, ◌-◌, Option, none, some, Bool, false, true, not, ◌&&◌, ◌||◌, List, [], ◌∷◌, ◌++◌, ◌==◌,
  ltb, length, take, drop, get_elem?, if◌then◌else◌,
}
use randall_flare.Prelude.Order.{Bytes, is_eq, bytes_ord}
use randall_flare.Prelude.Result.{Result, ok, err, ◌>>=◌}
use randall_flare.Prelude.Text.{ascii, decimal, starts_with, trim}

-- ed25519-dalek, k256, sha2, sha3 and hex, as far as the crate calls them. A secret key is its seed.
pub record Crypto : Type 0 where
  pub sha256 : Bytes → Bytes
  pub keccak256 : Bytes → Bytes
  pub hex : Bytes → Bytes
  -- `hex::decode`, where it succeeds.
  pub unhex : Bytes → Option Bytes
  -- `VerifyingKey::from_bytes` succeeds; `verify`; the key of a seed; `sign`.
  pub ed_key_valid : Bytes → Bool
  pub ed_verify : Bytes → Bytes → Bytes → Bool
  pub ed_public : Bytes → Bytes
  pub ed_sign : Bytes → Bytes → Bytes
  -- The uncompressed point of a seed's key; `sign_prehash_recoverable`.
  pub eth_point : Bytes → Bytes
  pub eth_sign_prehash : Bytes → Bytes → Bytes × ℕ
  -- `RecoveryId::from_byte` and `Signature::from_slice` succeed; `recover_from_prehash`.
  pub recovery_id_valid : ℕ → Bool
  pub eth_signature_valid : Bytes → Bool
  pub eth_recover_prehash : Bytes → Bytes → ℕ → Option Bytes

pub record PublicId : Type 0 where
  pub bytes : Bytes

pub data SignerId : Type 0 where
  ed : PublicId → SignerId
  eth : Bytes → SignerId

-- The derived `Ord` of a public id is that of its bytes.
unfoldable pub same_id : PublicId → PublicId → Bool
same_id a b = is_eq a.bytes b.bytes

unfoldable pub same_signer : SignerId → SignerId → Bool
unfolding same_id
same_signer (ed a) (ed b) = same_id a b
same_signer (eth a) (eth b) = is_eq a b
same_signer _ _ = false

-- `Keypair` and `EthKeypair` by their seeds.
pub data AnyKeypair : Type 0 where
  ed : Bytes → AnyKeypair
  eth : Bytes → AnyKeypair

-- Why a text is no identity: `hex::decode` fails, or the number of bytes is wrong.
pub data IdentityError : Type 0 where
  not_hex : IdentityError
  not_32_bytes not_20_bytes : IdentityError

-- `try_into()` of a byte string to an array of `n` bytes.
unfoldable pub sized : ℕ → IdentityError → Bytes → Result IdentityError Bytes
sized n e bytes = if length bytes == n then ok bytes else err e

abbrev pub or_not_hex : Option Bytes → Result IdentityError Bytes
or_not_hex none = err IdentityError.not_hex
or_not_hex (some bytes) = ok bytes

-- `s.strip_prefix("0x").or_else(|| s.strip_prefix("0X"))`.
unfoldable pub strip_0x : Bytes → Option Bytes
strip_0x s =
    if starts_with s (ascii "0x") || starts_with s (ascii "0X") then some (drop 2 s) else none

module _ (c : Crypto) where
  unfoldable pub verify_public : PublicId → Bytes → Bytes → Bool
  verify_public id msg sig = c.ed_key_valid id.bytes && c.ed_verify id.bytes msg sig

  unfoldable pub eth_address_of : Bytes → Bytes
  eth_address_of point = drop 12 (c.keccak256 (drop 1 point))

  unfoldable pub eip191_hash : Bytes → Bytes
  eip191_hash payload =
      c.keccak256
        ((0x19 ∷ ascii "Ethereum Signed Message:") ++ (10 ∷ decimal (length payload)) ++ payload)

  unfoldable pub eth_sign : Bytes → Bytes → Bytes
  eth_sign seed payload =
      let (sig, recid) = c.eth_sign_prehash seed (eip191_hash payload) in sig ++ (recid + 27) ∷ []

  -- The end of `eth_recover`, past the length test: `v` is the last byte.
  unfoldable pub recover_with : Bytes → Bytes → ℕ → Option Bytes
  recover_with payload sig v =
      if ltb v 27
      then none
      else if not (c.recovery_id_valid (v - 27))
      then none
      else if not (c.eth_signature_valid (take 64 sig))
      then none
      else elim (c.eth_recover_prehash (eip191_hash payload) (take 64 sig) (v - 27)) [
        | none ↦ none
        | some point ↦ some (eth_address_of point)
      ]

  unfoldable pub eth_recover : Bytes → Bytes → Option Bytes
  eth_recover payload sig =
      if not (length sig == 65)
      then none
      else elim (get_elem? sig 64) [ none ↦ none | some v ↦ recover_with payload sig v ]

  -- `eth_recover(payload, sig) == Some(*addr)`.
  unfoldable pub recovers : Bytes → Bytes → Bytes → Bool
  recovers payload sig addr = elim (eth_recover payload sig) [
    | none ↦ false
    | some a ↦ is_eq a addr
  ]

  unfoldable pub verify : SignerId → Bytes → Bytes → Bool
  verify (ed pk) payload sig = (length sig == 64) && verify_public pk payload sig
  verify (eth addr) payload sig = recovers payload sig addr

  unfoldable pub to_string : SignerId → Bytes
  to_string (ed pk) = c.hex pk.bytes
  to_string (eth addr) = ascii "0x" ++ c.hex addr

  -- `Display` of a public id, and its first bytes.
  unfoldable pub public_to_string : PublicId → Bytes
  public_to_string id = c.hex id.bytes

  unfoldable pub short : PublicId → Bytes
  short id = c.hex (take 6 id.bytes)

  unfoldable pub parse_public : Bytes → Result IdentityError PublicId
  unfolding sized
  parse_public s = or_not_hex (c.unhex (trim s)) >>= λ bytes.
      sized 32 IdentityError.not_32_bytes bytes >>= λ arr. ok (record { bytes = arr })

  unfoldable pub parse_signer : Bytes → Result IdentityError SignerId
  unfolding sized parse_public
  parse_signer s = elim (strip_0x (trim s)) [
    | some hexpart ↦ or_not_hex (c.unhex hexpart) >>= λ bytes.
        sized 20 IdentityError.not_20_bytes bytes >>= λ arr. ok (eth arr)
    | none ↦ parse_public (trim s) >>= λ id. ok (ed id)
  ]

  -- `Keypair::public` and `sign`, `EthKeypair::address`, by the seed.
  unfoldable pub public : Bytes → PublicId
  public seed = record { bytes = c.ed_public seed }

  unfoldable pub ed_sign_with : Bytes → Bytes → Bytes
  ed_sign_with seed msg = c.ed_sign seed msg

  unfoldable pub address : Bytes → Bytes
  unfolding eth_address_of
  address seed = eth_address_of (c.eth_point seed)

  unfoldable pub signer_id : AnyKeypair → SignerId
  signer_id (ed seed) = ed (record { bytes = c.ed_public seed })
  signer_id (eth seed) = eth (eth_address_of (c.eth_point seed))

  unfoldable pub sign : AnyKeypair → Bytes → Bytes
  sign (ed seed) payload = c.ed_sign seed payload
  sign (eth seed) payload = eth_sign seed payload
