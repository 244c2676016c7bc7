-- ===== src/Claim/Tests.antt =====
-- Two nodes that claim one task, and the theorems on claims at concrete inputs.
use randall_flare.Prelude.{
  ℕ, ◌≡◌, ◌↔◌, inl, inr, refl, none, some, Bool, true, false, [], ◌∷◌, filter, arith,
}
use randall_flare.Prelude.Order.{Bytes, cmp_bytes, bytes_ord, pair_ord}
use randall_flare.Prelude.Result.{ok}
use randall_flare.Prelude.Members.{In}
use randall_flare.Prelude.Table
use randall_flare.Prelude.Table.{Table, IsSorted}
use randall_flare.Hlc.{hlc_ord}
use randall_flare.Identity.{PublicId, SignerId, same_signer, same_id, verify, verify_public}
use randall_flare.Identity.Toy.{toy}
use randall_flare.Envelope.{Codec, Envelope, open_envelope}
use randall_flare.Claim.{
  Claim, ClaimRecord, ClaimSet, Ingest, ClaimError, expires_at_ms, live, records, rank, least,
  earliest, winner, gc, mine, ingest, fold_record, put_record, admit, new,
}
use randall_flare.Claim.Winner.{IsLive, IsAhead, winner-IsAhead, winner_agrees}
use randall_flare.Claim.Collecting.{winner-gc}
use randall_flare.Claim.Ingesting.{Later, ingest-Later}

abbrev task : Bytes
task = 7 ∷ []

abbrev pid : ℕ → PublicId
pid n = record { bytes = n ∷ [] }

abbrev claim_of : ℕ → ℕ → Bool → Claim
claim_of n at released = record {
  task = task;
  holder = pid n;
  acquired = record { wall_ms = at; logical = 0 };
  renewed = record { wall_ms = at; logical = 0 };
  ttl_ms = 1000;
  released = released;
}

abbrev record_of : ℕ → ℕ → Bool → ClaimRecord
record_of n at released = record {
  claim = claim_of n at released;
  digest = n ∷ [];
  envelope = record { payload = []; signer = SignerId.ed (pid n); sig = [] };
}

abbrev first : ClaimRecord
first = record_of 2 10 false

abbrev second : ClaimRecord
second = record_of 1 20 false

abbrev node_a : ClaimSet
node_a = record { tasks = (task, ((1 ∷ []), second) ∷ ((2 ∷ []), first) ∷ []) ∷ [] }

-- The same records in another order.
abbrev node_b : ClaimSet
node_b = record { tasks = (task, ((2 ∷ []), first) ∷ ((1 ∷ []), second) ∷ []) ∷ [] }

abbrev with_released : ClaimSet
with_released = record { tasks = (task, ((1 ∷ []), record_of 1 20 true) ∷ []) ∷ [] }

wins_a : winner node_a task 100 ≡ some first
unfolding winner earliest least records live expires_at_ms filter Table.get cmp_bytes
wins_a = refl

wins_b : winner node_b task 100 ≡ some first
unfolding winner earliest least records live expires_at_ms filter Table.get cmp_bytes
wins_b = refl

same_records : (x : ClaimRecord) → In x (records node_a task) ↔ In x (records node_b task)
unfolding records Table.get cmp_bytes
same_records x = (
  λ h. elim h [ inl e ↦ inr (inl e) | inr i ↦ elim i [ inl e ↦ inl e | inr n ↦ elim n [ ] ] ],
  λ h. elim h [ inl e ↦ inr (inl e) | inr i ↦ elim i [ inl e ↦ inl e | inr n ↦ elim n [ ] ] ],
)

apart : (x y : ClaimRecord) → x ≡ first → y ≡ second → rank x ≡ rank y → x ≡ y
apart x y e f h = absurd (let q : rank first ≡ rank second = cc in cc)

unique :
    (x y : ClaimRecord)
    → In x (records node_a task)
    → In y (records node_a task)
    → rank x ≡ rank y
    → x ≡ y
unfolding records Table.get cmp_bytes
unique x y (inl e) (inl f) h = cc
unique x y (inl e) (inr (inl f)) h = absurd (let q : rank second ≡ rank first = cc in cc)
unique x y (inl e) (inr (inr n)) h = elim n [ ]
unique x y (inr (inl e)) (inl f) h = apart x y e f h
unique x y (inr (inl e)) (inr (inl f)) h = cc
unique x y (inr (inl e)) (inr (inr n)) h = elim n [ ]
unique x y (inr (inr n)) j h = elim n [ ]

winner-IsAhead_example :
    ((r : ClaimRecord)
      → winner node_a task 100 ≡ some r
      → In r (records node_a task)
        × IsLive r.claim 100
        × ((x : ClaimRecord) → In x (records node_a task) → IsLive x.claim 100 → IsAhead r x))
    × ((winner node_a task 100 ≡ none)
        ↔ ((x : ClaimRecord) → In x (records node_a task) → IsLive x.claim 100 → ⊥))
winner-IsAhead_example = winner-IsAhead node_a task 100

winner_agrees_example : first ≡ first
winner_agrees_example =
    winner_agrees node_a node_b task 100 first first same_records unique wins_a wins_b

winner-gc_example : winner (gc node_a 50 10).0 task 100 ≡ winner node_a task 100
winner-gc_example = winner-gc node_a task 50 10 100 (tt, tt) (omega arith)

holds_released : mine with_released task (pid 1) ≡ some (record_of 1 20 true)
unfolding mine Table.get cmp_bytes
holds_released = refl

released_IsSorted : IsSorted (randall_flare.Claim.or_empty (Table.get with_released.tasks task))
unfolding Table.get cmp_bytes
released_IsSorted = (tt, tt)

-- A codec of one claim, and an envelope that its holder signs.
abbrev one_codec : Codec Claim
one_codec = record { encode = λ _. []; decode = λ _. some (claim_of 3 30 false) }

abbrev sent : Envelope
sent = record {
  payload = [];
  signer = SignerId.ed (pid 3);
  sig = randall_flare.Identity.Toy.pad 64 (3 ∷ []);
}

abbrev sent_record : ClaimRecord
sent_record = record {
  claim = claim_of 3 30 false;
  digest = randall_flare.Envelope.digest toy sent;
  envelope = sent;
}

taken : ingest toy one_codec node_a sent ≡ ok (put_record node_a sent_record, Ingest.changed)
unfolding ingest open_envelope admit fold_record same_signer same_id verify verify_public Table.get
    cmp_bytes
taken = refl

ingest-Later_example : Later node_a (put_record node_a sent_record)
ingest-Later_example =
    ingest-Later toy one_codec node_a (put_record node_a sent_record) sent Ingest.changed taken
