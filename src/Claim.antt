-- ===== src/Claim.antt =====
-- crates/rf-core/src/claim.rs: leaderless scheduling of single tasks by signed claims. The two HashMaps
-- are tables in key order, the inner one by the bytes of the holder.
pub mod Winner
pub mod Collecting
pub mod Ingesting
mod Tests
use randall_flare.Prelude.{
  ℕ, ◌+◌, ◌-◌, min, Option, none, some, Bool, true, false, not, ◌&&◌, List, [], ◌∷◌, ◌++◌, map, ltb,
  leb, ◌==◌, if◌then◌else◌, filter, length, is_none, saturating_add,
}
use randall_flare.Prelude.Order.{Bytes, bytes_ord, pair_ord, is_lt, is_le, is_gt, is_eq}
use randall_flare.Prelude.Result.{Result, ok, err, ◌>>=◌, ◌>>◌, map_err}
use randall_flare.Prelude.Text.{ascii}
use randall_flare.Prelude.Table
use randall_flare.Prelude.Table.{Table}
use randall_flare.Hlc.{Hlc, hlc_ord}
use randall_flare.Identity.{Crypto, PublicId, SignerId, same_id, same_signer}
use randall_flare.Envelope
use randall_flare.Envelope.{Codec, Envelope, EnvelopeError, seal, open_envelope, digest}

abbrev pub skew_slack_ms : ℕ
skew_slack_ms = 15000

pub record Claim : Type 0 where
  pub task : Bytes
  pub holder : PublicId
  pub acquired : Hlc
  pub renewed : Hlc
  pub ttl_ms : ℕ
  pub released : Bool

unfoldable pub expires_at_ms : Claim → ℕ
expires_at_ms c = saturating_add c.renewed.wall_ms c.ttl_ms

unfoldable pub live : Claim → ℕ → Bool
unfolding expires_at_ms
live c now_ms = not c.released && ltb now_ms (saturating_add (expires_at_ms c) skew_slack_ms)

pub record ClaimRecord : Type 0 where
  pub claim : Claim
  pub digest : Bytes
  pub envelope : Envelope

pub data Ingest : Type 0 where
  changed stale : Ingest

pub data ClaimError : Type 0 where
  envelope : EnvelopeError → ClaimError
  holder_mismatch renewed_before_acquired acquired_moved zero_ttl : ClaimError

-- `Display`.
abbrev pub error_text : ClaimError → Bytes
error_text (ClaimError.envelope e) = ascii "envelope: " ++ Envelope.error_text e
error_text ClaimError.holder_mismatch = ascii "signer is not the claimed holder"
error_text ClaimError.renewed_before_acquired = ascii "renewed < acquired"
error_text ClaimError.acquired_moved = ascii "acquired changed across renewal"
error_text ClaimError.zero_ttl = ascii "ttl is zero"

pub record ClaimSet : Type 0 where
  pub tasks : Table Bytes (Table Bytes ClaimRecord)

unfoldable pub new : ClaimSet
new = record { tasks = [] }

abbrev pub or_empty : Option (Table Bytes ClaimRecord) → Table Bytes ClaimRecord
or_empty none = []
or_empty (some t) = t

-- `per_task.insert(claim.holder, ..)` in the table of the task.
unfoldable pub put_record : ClaimSet → ClaimRecord → ClaimSet
put_record set r =
    let task = r.claim.task in
    let per_task = Table.insert r.claim.holder.bytes r (or_empty (Table.get set.tasks task)) in
    record { tasks = Table.insert task per_task set.tasks }

-- What `ingest` does where the holder has a record of the task.
unfoldable pub replace_record :
    ClaimSet → ClaimRecord → ClaimRecord → Result ClaimError (ClaimSet × Ingest)
replace_record set existing r =
    let replaced : ClaimSet × Ingest = (put_record set r, Ingest.changed) in
    let kept : ClaimSet × Ingest = (set, Ingest.stale) in
    if is_eq existing.digest r.digest
    then ok kept
    else if is_eq r.claim.acquired existing.claim.acquired
    then (if is_le r.claim.renewed existing.claim.renewed then ok kept else ok replaced)
    else if is_gt r.claim.acquired existing.claim.acquired
    then ok replaced
    else err ClaimError.acquired_moved

-- `ingest` past its tests.
unfoldable pub fold_record : ClaimSet → ClaimRecord → Result ClaimError (ClaimSet × Ingest)
fold_record set r =
    elim (Table.get (or_empty (Table.get set.tasks r.claim.task)) r.claim.holder.bytes) [
      | some existing ↦ replace_record set existing r
      | none ↦ ok (put_record set r, Ingest.changed)
    ]

-- The records of a task, `per_task.values()`.
unfoldable pub records : ClaimSet → Bytes → List ClaimRecord
records set task = map (λ (p : Bytes × ClaimRecord). p.1) (or_empty (Table.get set.tasks task))

-- What `min_by` compares.
abbrev pub rank : ClaimRecord → Hlc × Bytes
rank r = (r.claim.acquired, r.digest)

-- `min_by`, which keeps the first of equal elements.
abbrev pub earlier : ClaimRecord → ClaimRecord → ClaimRecord
earlier best r = if is_gt (rank best) (rank r) then r else best

unfoldable pub least : ClaimRecord → List ClaimRecord → ClaimRecord
least best [] = best
least best (r ∷ rs) = least (earlier best r) rs

unfoldable pub earliest : List ClaimRecord → Option ClaimRecord
earliest [] = none
earliest (r ∷ rs) = some (least r rs)

unfoldable pub winner : ClaimSet → Bytes → ℕ → Option ClaimRecord
winner set task now_ms = earliest (filter (λ r. live r.claim now_ms) (records set task))

unfoldable pub holds : ClaimSet → Bytes → PublicId → ℕ → Bool
holds set task me now_ms = elim (winner set task now_ms) [
  | some r ↦ same_id r.claim.holder me
  | none ↦ false
]

unfoldable pub open_for_claim : ClaimSet → Bytes → ℕ → Bool
open_for_claim set task now_ms = is_none (winner set task now_ms)

unfoldable pub mine : ClaimSet → Bytes → PublicId → Option ClaimRecord
mine set task me = Table.get (or_empty (Table.get set.tasks task)) me.bytes

-- `keep` of `gc`.
abbrev pub kept : ℕ → ℕ → ClaimRecord → Bool
kept now_ms horizon_ms r =
    let dead_since = saturating_add (expires_at_ms r.claim) skew_slack_ms in
    not r.claim.released && ltb now_ms (saturating_add dead_since horizon_ms)

abbrev pub is_empty : Table Bytes ClaimRecord → Bool
is_empty [] = true
is_empty (_ ∷ _) = false

-- `self.tasks.retain(..)`: the tables that are left, and the number of records that are gone.
unfoldable pub gc_tasks :
    ℕ → ℕ → Table Bytes (Table Bytes ClaimRecord) → Table Bytes (Table Bytes ClaimRecord) × ℕ
gc_tasks now_ms horizon_ms [] = ([], 0)
gc_tasks now_ms horizon_ms ((task, per_task) ∷ tasks) =
    let left = Table.retain (λ _ r. kept now_ms horizon_ms r) per_task in
    let gone = length per_task - length left in
    let (rest, pruned) = gc_tasks now_ms horizon_ms tasks in
    (if is_empty left then rest else (task, left) ∷ rest, gone + pruned)

unfoldable pub gc : ClaimSet → ℕ → ℕ → ClaimSet × ℕ
gc set now_ms horizon_ms =
    let (tasks, pruned) = gc_tasks now_ms horizon_ms set.tasks in (record { tasks = tasks }, pruned)

abbrev pub all_records : Table Bytes (Table Bytes ClaimRecord) → List ClaimRecord
all_records [] = []
all_records ((task, per_task) ∷ tasks) =
    map (λ (p : Bytes × ClaimRecord). p.1) per_task ++ all_records tasks

unfoldable pub live_envelopes : ClaimSet → ℕ → List Envelope
live_envelopes set now_ms =
    map (λ (r : ClaimRecord). r.envelope)
      (filter (λ r. live r.claim now_ms) (all_records set.tasks))

unfoldable pub task_count : ClaimSet → ℕ
task_count set = length set.tasks

-- A key is its seed.
module _ (c : Crypto) (codec : Codec Claim) where
  unfoldable pub make_claim : Bytes → Bytes → Hlc → ℕ → Envelope
  make_claim key task now ttl_ms =
      seal c codec
        (record {
          task = task;
          holder = record { bytes = c.ed_public key };
          acquired = now;
          renewed = now;
          ttl_ms = ttl_ms;
          released = false;
        })
        key

  unfoldable pub renew : Bytes → Claim → Hlc → Bool → Envelope
  renew key prior renewed released =
      seal c codec
        (record prior {
          holder = record { bytes = c.ed_public key };
          renewed = renewed;
          released = released;
        })
        key

  -- The tests of `ingest`.
  unfoldable pub admit : Envelope → Claim → Result ClaimError Claim
  admit env claim =
      if not (same_signer (SignerId.ed claim.holder) env.signer)
      then err ClaimError.holder_mismatch
      else if is_lt claim.renewed claim.acquired
      then err ClaimError.renewed_before_acquired
      else if claim.ttl_ms == 0
      then err ClaimError.zero_ttl
      else ok claim

  unfoldable pub ingest : ClaimSet → Envelope → Result ClaimError (ClaimSet × Ingest)
  ingest set env = do
    opened ← map_err ClaimError.envelope (open_envelope c codec env none)
    claim ← admit env opened
    fold_record set (record { claim = claim; digest = digest c env; envelope = env })
