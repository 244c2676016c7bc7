-- ===== src/Envelope/Tests.antt =====
-- The theorems on signatures and envelopes at concrete inputs.
use randall_flare.Prelude.{ℕ, ◌≡◌, refl, none, some, [], ◌∷◌}
use randall_flare.Prelude.Result.{ok}
use randall_flare.Prelude.Text.{ascii}
use randall_flare.Identity.{AnyKeypair, signer_id}
use randall_flare.Identity.Toy.{toy, toy-SignsCorrectly}
use randall_flare.Envelope.{Codec, Envelope, seal_any, open_envelope}
use randall_flare.Envelope.Laws.{open_envelope-seal_any}

abbrev number_codec : Codec ℕ
number_codec = record { encode = λ n. n ∷ []; decode = λ b. elim b [ [] ↦ none | n ∷ _ ↦ some n ] }

abbrev wallet : AnyKeypair
wallet = AnyKeypair.eth (ascii "wallet")

abbrev node : AnyKeypair
node = AnyKeypair.ed (ascii "node")

abbrev sealed : Envelope
sealed = seal_any toy number_codec 7 node

open_envelope-seal_any_example :
    (open_envelope toy number_codec (seal_any toy number_codec 7 wallet) none ≡ ok 7)
    × (open_envelope toy number_codec
          (seal_any toy number_codec 7 wallet)
          (some (signer_id toy wallet))
        ≡ ok 7)
open_envelope-seal_any_example =
    open_envelope-seal_any toy number_codec toy-SignsCorrectly (λ v. refl) 7 wallet
