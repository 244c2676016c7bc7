-- ===== src/Quorum/State.antt =====
-- The types of crates/rf-core/src/quorum.rs, the queries of its state, restoring and compacting.
use randall_flare.Prelude.{
  ℕ, ◌+◌, ◌-◌, ◌/◌, max, Option, none, some, Bool, true, false, not, List, [], ◌∷◌, ◌++◌, leb, ◌==◌,
  if◌then◌else◌, length, get_elem?, get_last?, drop, filter, any,
}
use randall_flare.Prelude.Order.{Bytes, bytes_ord, is_le}
use randall_flare.Identity.{PublicId, same_id}

pub record Entry : Type 0 where
  pub epoch : ℕ
  pub seq : ℕ
  pub cmd : Bytes

pub data Msg : Type 0 where
  vote_req : (epoch last_epoch last_seq : ℕ) → Msg
  vote_resp : (epoch : ℕ) (granted : Bool) → Msg
  append : (epoch prev_seq prev_epoch : ℕ) (entries : List Entry) (commit : ℕ) → Msg
  append_resp : (epoch match_seq : ℕ) (ok : Bool) → Msg
  install_snapshot : (epoch last_seq last_epoch : ℕ) (state : Bytes) → Msg

pub data Action : Type 0 where
  persist_meta : Action
  persist_log : (from_seq : ℕ) → Action
  send : PublicId → Msg → Action
  apply : Entry → Action
  apply_snapshot : (seq : ℕ) (state : Bytes) → Action
  need_snapshot : (to : PublicId) → Action
  became_leader lost_leadership : Action

pub data Role : Type 0 where
  follower : Role
  candidate : (votes : List PublicId) → Role
  leading : (next matched : List (PublicId × ℕ)) → Role

pub record Raft : Type 0 where
  pub me : PublicId
  pub group : List PublicId
  pub epoch : ℕ
  pub voted_for : Option PublicId
  pub log : List Entry
  pub base_seq : ℕ
  pub base_epoch : ℕ
  pub commit : ℕ
  pub applied : ℕ
  pub role : Role
  pub leader : Option PublicId

-- `v.contains(&id)`.
unfoldable pub contains : List PublicId → PublicId → Bool
contains ids id = any (λ p. same_id p id) ids

-- `v.sort_by_key(|a| a.0)`: a stable sort.
unfoldable pub insert_id : PublicId → List PublicId → List PublicId
insert_id p [] = p ∷ []
insert_id p (q ∷ qs) =
    let rest = insert_id p qs in if is_le p.bytes q.bytes then p ∷ q ∷ qs else q ∷ rest

unfoldable pub sort_ids : List PublicId → List PublicId
sort_ids [] = []
sort_ids (p ∷ ps) = insert_id p (sort_ids ps)

unfoldable pub new : PublicId → List PublicId → Raft
new me group = record {
  me = me;
  group = sort_ids (if contains group me then group else group ++ me ∷ []);
  epoch = 0;
  voted_for = none;
  log = [];
  base_seq = 0;
  base_epoch = 0;
  commit = 0;
  applied = 0;
  role = Role.follower;
  leader = none;
}

unfoldable pub restore :
    PublicId → List PublicId → ℕ → Option PublicId → ℕ → ℕ → List Entry → ℕ → Raft
restore me group epoch voted_for base_seq base_epoch log applied =
    let high = max applied base_seq in
    record (new me group) {
      epoch = epoch;
      voted_for = voted_for;
      base_seq = base_seq;
      base_epoch = base_epoch;
      log = log;
      commit = high;
      applied = high;
    }

abbrev pub is_leading : Role → Bool
is_leading (Role.leading _ _) = true
is_leading _ = false

abbrev pub is_leader : Raft → Bool
is_leader r = is_leading r.role

-- `a.or(b)`.
abbrev pub or_else : Option PublicId → Option PublicId → Option PublicId
or_else none b = b
or_else (some a) b = some a

unfoldable pub leader_hint : Raft → Option PublicId
leader_hint r = if is_leader r then some r.me else or_else r.leader r.voted_for

unfoldable pub majority : Raft → ℕ
majority r = length r.group / 2 + 1

-- (epoch, seq) of the last entry, or of the snapshot point.
unfoldable pub last : Raft → ℕ × ℕ
last r = elim (get_last? r.log) [ none ↦ (r.base_epoch, r.base_seq) | some e ↦ (e.epoch, e.seq) ]

unfoldable pub entry : Raft → ℕ → Option Entry
entry r seq = if leb seq r.base_seq then none else get_elem? r.log (seq - r.base_seq - 1)

abbrev pub epoch_of : Option Entry → Option ℕ
epoch_of none = none
epoch_of (some e) = some e.epoch

unfoldable pub epoch_at : Raft → ℕ → Option ℕ
epoch_at r seq = if seq == r.base_seq then some r.base_epoch else epoch_of (entry r seq)

unfoldable pub others : Raft → List PublicId
others r = filter (λ p. not (same_id p r.me)) r.group

abbrev pub epoch_or : Option Entry → ℕ → ℕ
epoch_or none d = d
epoch_or (some e) d = e.epoch

unfoldable pub snapshot_point : Raft → ℕ × ℕ
snapshot_point r = (
  r.applied,
  if r.applied == r.base_seq then r.base_epoch else epoch_or (entry r r.applied) r.base_epoch,
)

-- The new state, and whether anything was dropped.
unfoldable pub compact : Raft → ℕ → Raft × Bool
compact r keep_tail =
    let new_base = r.applied - keep_tail in
    if leb new_base r.base_seq then (r, false) else elim (entry r new_base) [
      | none ↦ (r, false)
      | some e ↦ (
        record r {
          log = drop (new_base - r.base_seq) r.log;
          base_seq = new_base;
          base_epoch = e.epoch;
        },
        true,
      )
    ]
