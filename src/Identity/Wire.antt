-- ===== src/Identity/Wire.antt =====
-- The serde forms of crates/rf-core/src/identity.rs: what a serializer is handed, and what is read back.
use randall_flare.Prelude.{ℕ, ◌≡◌, ◌==◌, if◌then◌else◌, length, arith}
use randall_flare.Prelude.Order.{Bytes}
use randall_flare.Prelude.Result.{Result, ok, err, ◌>>=◌, map_err}
use randall_flare.Identity.{
  Crypto, PublicId, SignerId, IdentityError, not_32_bytes, not_20_bytes, sized, to_string,
  public_to_string, parse_public, parse_signer,
}

-- `is_human_readable`.
pub data Format : Type 0 where
  human binary : Format

-- The values that the forms are made of: a text, a byte string, an array of bytes, and an enum's variant
-- by its index.
pub data Wire : Type 0 where
  text raw array : Bytes → Wire
  variant : ℕ → Wire → Wire

pub data WireError : Type 0 where
  -- The format holds another kind of value.
  wrong_kind : WireError
  custom : IdentityError → WireError

-- The visitor of `serde_bytes_shim`: a byte string, or a sequence of bytes.
unfoldable pub visit_bytes : Wire → Result WireError Bytes
visit_bytes (raw b) = ok b
visit_bytes (array b) = ok b
visit_bytes _ = err WireError.wrong_kind

abbrev pub as_text : Wire → Result WireError Bytes
as_text (text s) = ok s
as_text _ = err WireError.wrong_kind

-- A `[u8; n]`.
abbrev pub as_array : ℕ → IdentityError → Wire → Result WireError Bytes
as_array n e (array b) = map_err WireError.custom (sized n e b)
as_array n e _ = err WireError.wrong_kind

module _ (c : Crypto) where
  unfoldable pub serialize_public : Format → PublicId → Wire
  unfolding public_to_string
  serialize_public human id = text (public_to_string c id)
  serialize_public binary id = raw id.bytes

  unfoldable pub deserialize_public : Format → Wire → Result WireError PublicId
  unfolding visit_bytes
  deserialize_public human w = as_text w >>= λ s. map_err WireError.custom (parse_public c s)
  deserialize_public binary w = visit_bytes w >>= λ b.
      map_err WireError.custom (sized 32 not_32_bytes b) >>= λ arr. ok (record { bytes = arr })

  unfoldable pub serialize_signer : Format → SignerId → Wire
  unfolding serialize_public
  serialize_signer human s = text (to_string c s)
  serialize_signer binary (SignerId.ed pk) = variant 0 (serialize_public binary pk)
  serialize_signer binary (SignerId.eth addr) = variant 1 (array addr)

  -- The derived form of `Shadow`.
  unfoldable pub read_shadow : ℕ → Wire → Result WireError SignerId
  unfolding deserialize_public
  read_shadow i w =
      if i == 0
      then (deserialize_public binary w >>= λ pk. ok (SignerId.ed pk))
      else if i == 1
      then (as_array 20 not_20_bytes w >>= λ a. ok (SignerId.eth a))
      else err WireError.wrong_kind

  unfoldable pub deserialize_signer : Format → Wire → Result WireError SignerId
  unfolding read_shadow
  deserialize_signer human w = as_text w >>= λ s. map_err WireError.custom (parse_signer c s)
  deserialize_signer binary (variant i w) = read_shadow i w
  deserialize_signer binary _ = err WireError.wrong_kind

  -- The arrays of an identity are of their fixed lengths.
  abbrev pub IsSized : SignerId → Type 0
  IsSized (SignerId.ed pk) = length pk.bytes ≡ 32
  IsSized (SignerId.eth addr) = length addr ≡ 20

  -- An identity that is written in a binary format is read back.
  pub deserialize_signer-serialize_signer :
      (s : SignerId) → IsSized s → deserialize_signer binary (serialize_signer binary s) ≡ ok s
  unfolding deserialize_signer serialize_signer sized
  deserialize_signer-serialize_signer (SignerId.ed pk) h = ground arith
  deserialize_signer-serialize_signer (SignerId.eth addr) h = ground arith
