-- ===== src/Quorum/Leading.antt =====
-- What a node of crates/rf-core/src/quorum.rs does of its own accord: standing for election,
-- replicating, proposing, committing and applying.
use randall_flare.Prelude.{
  ℕ, zero, suc, ◌+◌, ◌-◌, Option, none, some, Bool, false, List, [], ◌∷◌, ◌++◌, map, ltb, leb, ◌==◌,
  if◌then◌else◌, length, filter, add_u64, sub_u64,
}
use randall_flare.Prelude.Order.{Bytes}
use randall_flare.Prelude.Result.{Result, ok, err}
use randall_flare.Identity.{PublicId}
use randall_flare.Quorum.State.{
  Msg, Action, follower, candidate, leading, Raft, is_leader, leader_hint, majority, last, entry,
  epoch_at, epoch_of, others,
}

abbrev pub or_zero : Option ℕ → ℕ
or_zero none = 0
or_zero (some n) = n

-- One round of the loop of `replicate_all`.
unfoldable pub replicate_to : Raft → PublicId × ℕ → Action
replicate_to r p =
    let prev_seq = sub_u64 p.1 1 in
    if ltb prev_seq r.base_seq
    then Action.need_snapshot p.0
    else Action.send p.0 (
        Msg.append r.epoch prev_seq (or_zero (epoch_at r prev_seq))
          (filter (λ e. leb p.1 e.seq) r.log) r.commit)

unfoldable pub replicate_all : Raft → List Action
replicate_all r = elim r.role [ leading next matched ↦ map (replicate_to r) next | _ ↦ [] ]

-- `while self.applied < self.commit`, by the rounds that are left.
unfoldable pub apply_rounds : ℕ → Raft → Raft × List Action
apply_rounds zero r = (r, [])
apply_rounds (suc rounds) r =
    let (r', actions) = apply_rounds rounds (record r { applied = r.applied + 1 }) in
    (r', elim (entry r (r.applied + 1)) [ none ↦ actions | some e ↦ Action.apply e ∷ actions ])

unfoldable pub apply_committed : Raft → Raft × List Action
apply_committed r = apply_rounds (r.commit - r.applied) r

-- The replicas of `n`, the leader among them.
unfoldable pub replicas : List (PublicId × ℕ) → ℕ → ℕ
replicas matched n = 1 + length (filter (λ p. leb n p.1) matched)

abbrev pub is_epoch : Option ℕ → ℕ → Bool
is_epoch none epoch = false
is_epoch (some e) epoch = e == epoch

-- The loop of `advance_commit` from `n`, by the rounds that are left.
unfoldable pub highest_committed : ℕ → Raft → List (PublicId × ℕ) → ℕ → ℕ → ℕ
highest_committed zero r matched n best = best
highest_committed (suc rounds) r matched n best =
    let rest =
      highest_committed rounds r matched (n + 1)
        (if is_epoch (epoch_of (entry r n)) r.epoch then n else best) in
    if leb (majority r) (replicas matched n) then rest else best

-- What `advance_commit` does with the replication of a leader.
unfoldable pub commit_matched : Raft → List (PublicId × ℕ) → Raft × List Action
commit_matched r matched =
    let start = add_u64 r.commit 1 in
    let best = highest_committed ((last r).1 + 1 - start) r matched start r.commit in
    let advanced = ltb r.commit best in
    let (r', actions) =
      apply_committed (record r { commit = if advanced then best else r.commit }) in
    (r', actions ++ (if advanced then replicate_all r' else []))

unfoldable pub advance_commit : Raft → Raft × List Action
advance_commit r = elim r.role [ leading next matched ↦ commit_matched r matched | _ ↦ (r, []) ]

-- `Role::Leader`, with what every other node is taken to have.
unfoldable pub take_office : Raft → Raft
take_office r =
    let next_seq = add_u64 (last r).1 1 in
    record r { role = leading (map (λ p. (p, next_seq)) (others r)) (map (λ p. (p, 0)) (others r)) }

-- What `try_win` does with the votes of a candidate.
unfoldable pub count_votes : Raft → List PublicId → Raft × List Action
count_votes r votes =
    let r' = take_office r in
    if ltb (length votes) (majority r)
    then (r, [])
    else (r', Action.became_leader ∷ replicate_all r')

unfoldable pub try_win : Raft → Raft × List Action
try_win r = elim r.role [ candidate votes ↦ count_votes r votes | _ ↦ (r, []) ]

-- `self.epoch += 1`, the vote for itself and the role, before the messages.
unfoldable pub stand : Raft → Raft
stand r = record r {
  epoch = add_u64 r.epoch 1;
  voted_for = some r.me;
  leader = none;
  role = candidate (r.me ∷ []);
}

unfoldable pub tick_election : Raft → Raft × List Action
tick_election r =
    let r' = stand r in
    let (r'', won) = try_win r' in
    let ask = Msg.vote_req r'.epoch (last r').0 (last r').1 in
    if is_leader r
    then (r, [])
    else (r'', (Action.persist_meta ∷ map (λ peer. Action.send peer ask) (others r')) ++ won)

unfoldable pub heartbeat : Raft → List Action
heartbeat r = if is_leader r then replicate_all r else []

pub record NotLeader : Type 0 where
  pub hint : Option PublicId

-- What a leader does with a command: the new state, the sequence number, and the actions.
unfoldable pub append_command : Raft → Bytes → Raft × ℕ × List Action
append_command r cmd =
    let seq = add_u64 (last r).1 1 in
    let r' = record r { log = r.log ++ record { epoch = r.epoch; seq = seq; cmd = cmd } ∷ [] } in
    let (r'', committed) = advance_commit r' in
    (r'', seq, Action.persist_log seq ∷ (replicate_all r' ++ committed))

unfoldable pub propose : Raft → Bytes → Result NotLeader (Raft × ℕ × List Action)
propose r cmd =
    if is_leader r then ok (append_command r cmd) else err (record { hint = leader_hint r })

unfoldable pub become_follower : Raft → ℕ → Raft × List Action
become_follower r epoch =
    let bump = ltb r.epoch epoch in
    let r' = if bump then record r { epoch = epoch; voted_for = none; leader = none } else r in
    (
      record r' { role = follower },
      (if bump then Action.persist_meta ∷ [] else [])
          ++ (if is_leader r then Action.lost_leadership ∷ [] else []),
    )
