-- ===== src/Envelope.antt =====
-- crates/rf-core/src/envelope.rs: signed envelopes. Postcard is another crate: a payload type comes
-- with its `Codec`.
pub mod Laws
mod Tests
use randall_flare.Prelude.{Option, none, some, Bool, true, not, ◌++◌, if◌then◌else◌}
use randall_flare.Prelude.Order.{Bytes}
use randall_flare.Prelude.Result.{Result, ok, err}
use randall_flare.Prelude.Text.{ascii}
use randall_flare.Identity.{
  Crypto, SignerId, AnyKeypair, same_signer, verify, to_string, sign, signer_id,
}

-- `postcard::to_stdvec` and `postcard::from_bytes` at one type.
pub record Codec {ℓ} (T : Type ℓ) : Type ℓ where
  pub encode : T → Bytes
  pub decode : Bytes → Option T

pub record Envelope : Type 0 where
  pub payload : Bytes
  pub signer : SignerId
  pub sig : Bytes

pub data EnvelopeError : Type 0 where
  bad_signature decode_failed : EnvelopeError

-- `Display`.
abbrev pub error_text : EnvelopeError → Bytes
error_text EnvelopeError.bad_signature = ascii "bad signature"
error_text EnvelopeError.decode_failed = ascii "payload decode failed"

-- The first test of `open`: the pinned signer, if there is one, is the envelope's.
abbrev pub expected : Option SignerId → SignerId → Bool
expected none signer = true
expected (some want) signer = same_signer want signer

module _ (c : Crypto) where
  unfoldable pub digest : Envelope → Bytes
  digest env = c.sha256 (env.payload ++ to_string c env.signer ++ env.sig)

module _ {ℓ} {T : Type ℓ} (c : Crypto) (codec : Codec T) where
  unfoldable pub seal_any : T → AnyKeypair → Envelope
  seal_any payload key =
      let bytes = codec.encode payload in
      record { payload = bytes; signer = signer_id c key; sig = sign c key bytes }

  -- `Envelope::seal`: a node key, by its seed.
  unfoldable pub seal : T → Bytes → Envelope
  unfolding seal_any
  seal payload seed = seal_any payload (AnyKeypair.ed seed)

  unfoldable pub open_envelope : Envelope → Option SignerId → Result EnvelopeError T
  open_envelope env want =
      if not (expected want env.signer)
      then err EnvelopeError.bad_signature
      else if not (verify c env.signer env.payload env.sig)
      then err EnvelopeError.bad_signature
      else elim (codec.decode env.payload) [
        | none ↦ err EnvelopeError.decode_failed
        | some v ↦ ok v
      ]

-- The envelope's own bytes, by its codec.
module _ (codec : Codec Envelope) where
  unfoldable pub to_bytes : Envelope → Bytes
  to_bytes env = codec.encode env

  unfoldable pub from_bytes : Bytes → Result EnvelopeError Envelope
  from_bytes b = elim (codec.decode b) [
    | none ↦ err EnvelopeError.decode_failed
    | some env ↦ ok env
  ]
