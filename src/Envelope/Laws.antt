-- ===== src/Envelope/Laws.antt =====
-- What `open` of crates/rf-core/src/envelope.rs accepts, and that it opens what `seal_any` sealed.
use randall_flare.Prelude.{◌≡◌, ◌↔◌, Option, none, some, true, arith}
use randall_flare.Prelude.Order.{bytes_ord}
use randall_flare.Prelude.Result.{ok, err}
use randall_flare.Identity.{Crypto, SignerId, AnyKeypair, ed, eth, same_signer, verify, signer_id}
use randall_flare.Identity.Laws.{SignsCorrectly, verify-sign}
use randall_flare.Envelope.{Codec, Envelope, decode_failed, expected, seal_any, open_envelope}

pub same_signer_self : (a : SignerId) → same_signer a a ≡ true
unfolding same_signer
same_signer_self (ed a) = ground (arith, bytes_ord.cmp_self a.bytes)
same_signer_self (eth a) = ground (arith, bytes_ord.cmp_self a)

pub same_signer_sound : (a b : SignerId) → same_signer a b ≡ true → a ≡ b
unfolding same_signer
same_signer_sound (ed a) (ed b) h = ground (arith, bytes_ord.cmp_eq a.bytes b.bytes)
same_signer_sound (ed a) (eth b) h = ground arith
same_signer_sound (eth a) (ed b) h = ground arith
same_signer_sound (eth a) (eth b) h = ground (arith, bytes_ord.cmp_eq a b)

module _ {ℓ} {T : Type ℓ} (c : Crypto) (codec : Codec T) where
  -- An envelope opens to `v` exactly when the pinned signer, if any, is its signer, its signature
  -- verifies over the bytes that it carries, and those bytes decode to `v`.
  pub open_envelope-eq-ok :
      (env : Envelope) (want : Option SignerId) (v : T)
      → (open_envelope c codec env want ≡ ok v) ↔ (
          (expected want env.signer ≡ true)
          × (verify c env.signer env.payload env.sig ≡ true)
          × (codec.decode env.payload ≡ some v))
  unfolding open_envelope
  open_envelope-eq-ok env want v = ground arith

  -- It fails to decode exactly when the signer and the signature are accepted and the bytes decode
  -- to nothing; every other failure is a bad signature.
  pub open_envelope-eq-decode_failed :
      (env : Envelope) (want : Option SignerId)
      → (open_envelope c codec env want ≡ err decode_failed) ↔ (
          (expected want env.signer ≡ true)
          × (verify c env.signer env.payload env.sig ≡ true)
          × (codec.decode env.payload ≡ none))
  unfolding open_envelope
  open_envelope-eq-decode_failed env want = ground arith

  -- What either kind of key pair sealed opens, unpinned and pinned to that key pair, to the value
  -- that was sealed.
  pub open_envelope-seal_any :
      SignsCorrectly c
      → ((v : T) → codec.decode (codec.encode v) ≡ some v)
      → (v : T) (key : AnyKeypair)
      → (open_envelope c codec (seal_any c codec v key) none ≡ ok v)
        × (open_envelope c codec (seal_any c codec v key) (some (signer_id c key)) ≡ ok v)
  unfolding open_envelope seal_any
  open_envelope-seal_any s round v key =
      ground
        (arith, round v, verify-sign c s key (codec.encode v), same_signer_self (signer_id c key))
