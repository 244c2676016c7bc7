-- ===== src/Quorum/Votes.antt =====
-- Epochs and votes of one node of crates/rf-core/src/quorum.rs: what a message may change, and that
-- the change is stored before anything that depends on it is sent.
use randall_flare.Prelude.{
  ℕ, ◌+◌, ◌≤◌, ◌<◌, ◌≡◌, refl, Option, none, some, Bool, true, false, List, [], ◌∷◌, ◌++◌, inl, inr,
  arith, u64_mod, Bool-cases, ltb, leb,
}
use randall_flare.Prelude.Order.{Bytes, bytes_ord}
use randall_flare.Identity.{PublicId}
use randall_flare.Quorum.State.{
  Entry, Msg, vote_req, vote_resp, append, append_resp, install_snapshot, Action, Role, leading,
  Raft,
}
use randall_flare.Quorum.Leading.{tick_election, stand, try_win, become_follower}
use randall_flare.Quorum.Handling.{
  handle, answer_vote, cast_vote, handle_vote_req, handle_vote_resp, handle_append,
  handle_append_resp, handle_install_snapshot, follow, absorb, prev_matches, answer_as, add_vote,
}
use randall_flare.Quorum.Frames.{
  SameTerm, absorb-fields, take_commit-SameTerm, SameTerm-refl, SameTerm-trans, answered-SameTerm,
  try_win-SameTerm,
}

-- No message is sent before (epoch, voted_for) is stored, and it is stored.
abbrev pub stores_first : List Action → Bool
stores_first [] = false
stores_first (Action.persist_meta ∷ rest) = true
stores_first (Action.send to msg ∷ rest) = false
stores_first (_ ∷ rest) = stores_first rest

-- The epoch does not fall; a vote given in an epoch stands while the epoch lasts; and an epoch or a
-- vote that changes is stored before anything is sent.
pub record Sound (r s : Raft) (actions : List Action) : Type 0 where
  pub fixed_me : s.me ≡ r.me
  pub fixed_group : s.group ≡ r.group
  pub epoch_grows : r.epoch ≤ s.epoch
  pub vote_stays : (v : PublicId) → s.epoch ≡ r.epoch → r.voted_for ≡ some v → s.voted_for ≡ some v
  pub stored : stores_first actions ≡ false → (s.epoch ≡ r.epoch) × (s.voted_for ≡ r.voted_for)

Sound-SameTerm : (r s : Raft) (actions : List Action) → SameTerm r s → Sound r s actions
Sound-SameTerm r s actions h = ground arith

stores_first-append :
    (first rest : List Action) → stores_first (first ++ rest) ≡ false → stores_first first ≡ false
stores_first-append [] rest h = refl
stores_first-append (Action.persist_meta ∷ first) rest h = h
stores_first-append (Action.send to msg ∷ first) rest h = refl
stores_first-append (Action.persist_log n ∷ first) rest h = stores_first-append first rest h
stores_first-append (Action.apply e ∷ first) rest h = stores_first-append first rest h
stores_first-append (Action.apply_snapshot n b ∷ first) rest h = stores_first-append first rest h
stores_first-append (Action.need_snapshot to ∷ first) rest h = stores_first-append first rest h
stores_first-append (Action.became_leader ∷ first) rest h = stores_first-append first rest h
stores_first-append (Action.lost_leadership ∷ first) rest h = stores_first-append first rest h

-- What follows a sound beginning and leaves epoch and vote alone is sound.
Sound-then :
    (r s t : Raft) (first rest : List Action)
    → Sound r s first
    → SameTerm s t
    → Sound r t (first ++ rest)
Sound-then r s t first rest h k = record {
  fixed_me = ground arith;
  fixed_group = ground arith;
  epoch_grows = ground arith;
  vote_stays = λ v e q. ground (arith, h.vote_stays v);
  stored = λ q. ground (arith, stores_first-append first rest q);
}

pub become_follower-Sound :
    (r : Raft) (epoch : ℕ) → Sound r (become_follower r epoch).0 (become_follower r epoch).1
unfolding become_follower
become_follower-Sound r epoch = ground arith

handle_vote_req-Sound :
    (r : Raft) (from : PublicId) (epoch last_epoch last_seq : ℕ)
    → let (s, actions) = handle_vote_req r from epoch last_epoch last_seq in Sound r s actions
unfolding handle_vote_req answer_vote cast_vote become_follower
handle_vote_req-Sound r from epoch last_epoch last_seq = ground arith

follow-Sound :
    (r : Raft) (from : PublicId) (epoch : ℕ)
    → Sound r (follow r from epoch).0 (follow r from epoch).1
unfolding follow become_follower
follow-Sound r from epoch = ground arith

absorb-SameTerm : (r : Raft) (es : List Entry) (p : Option ℕ) → SameTerm r (absorb r es p).0
absorb-SameTerm r es p = ground (arith, absorb-fields r es p)

handle_append-Sound :
    (r : Raft) (from : PublicId) (epoch prev_seq prev_epoch : ℕ) (es : List Entry) (commit : ℕ)
    → let (s, actions) = handle_append r from epoch prev_seq prev_epoch es commit in
      Sound r s actions
unfolding handle_append
handle_append-Sound r from epoch prev_seq prev_epoch es commit =
    let r1 = (follow r from epoch).0 in
    let followed = (follow r from epoch).1 in
    let ok1 = follow-Sound r from epoch in
    let r2 = (absorb r1 es none).0 in
    let same2 = absorb-SameTerm r1 es none in
    let same3 = SameTerm-trans r1 r2 _ same2 (take_commit-SameTerm r2 from commit) in
    elim (Bool-cases (ltb epoch r.epoch)) [
      | inl old ↦ rw old (Sound-SameTerm r r _ (SameTerm-refl r))
      | inr new ↦ rw new (elim (Bool-cases (prev_matches r1 prev_seq prev_epoch)) [
        | inl good ↦ rw good (Sound-then r r1 _ followed _ ok1 same3)
        | inr bad ↦ rw bad (Sound-then r r1 r1 followed _ ok1 (SameTerm-refl r1))
      ])
    ]

try_win-Sound : (r s : Raft) → SameTerm r s → Sound r (try_win s).0 (try_win s).1
try_win-Sound r s h =
    Sound-SameTerm r (try_win s).0 (try_win s).1
      (SameTerm-trans r s (try_win s).0 h (try_win-SameTerm s))

handle_vote_resp-Sound :
    (r : Raft) (from : PublicId) (epoch : ℕ) (granted : Bool)
    → let (s, actions) = handle_vote_resp r from epoch granted in Sound r s actions
unfolding handle_vote_resp
handle_vote_resp-Sound r from epoch granted =
    let voted = record r { role = add_vote r.role from } in
    let won = try_win-Sound r voted (ground arith) in
    ground (arith, become_follower-Sound r epoch, Sound-SameTerm r r [] (SameTerm-refl r))

handle_install_snapshot-Sound :
    (r : Raft) (from : PublicId) (epoch last_seq last_epoch : ℕ) (state : Bytes)
    → let (s, actions) = handle_install_snapshot r from epoch last_seq last_epoch state in
      Sound r s actions
unfolding handle_install_snapshot
handle_install_snapshot-Sound r from epoch last_seq last_epoch state =
    let r1 = (follow r from epoch).0 in
    let r2 = record r1 {
      log = [];
      base_seq = last_seq;
      base_epoch = last_epoch;
      commit = last_seq;
      applied = last_seq;
    } in
    let ok1 = follow-Sound r from epoch in
    elim (Bool-cases (ltb epoch r.epoch)) [
      | inl old ↦ rw old (Sound-SameTerm r r _ (SameTerm-refl r))
      | inr new ↦ rw new (elim (Bool-cases (leb last_seq r1.applied)) [
        | inl stale ↦ rw stale (Sound-then r r1 r1 _ _ ok1 (SameTerm-refl r1))
        | inr fresh ↦ rw fresh (Sound-then r r1 r2 _ _ ok1 (ground arith))
      ])
    ]

answer_as-SameTerm :
    (role : Role) (r : Raft) (from : PublicId) (match_seq : ℕ) (good : Bool)
    → SameTerm r (answer_as role r from match_seq good).0
unfolding answer_as
answer_as-SameTerm (leading next matched) r from match_seq good =
    answered-SameTerm r from match_seq good next matched
answer_as-SameTerm _ r from match_seq good = SameTerm-refl r

handle_append_resp-Sound :
    (r : Raft) (from : PublicId) (epoch match_seq : ℕ) (good : Bool)
    → let (s, actions) = handle_append_resp r from epoch match_seq good in Sound r s actions
unfolding handle_append_resp
handle_append_resp-Sound r from epoch match_seq good =
    let (s, actions) = answer_as r.role r from match_seq good in
    ground (
      arith,
      become_follower-Sound r epoch,
      Sound-SameTerm r r [] (SameTerm-refl r),
      Sound-SameTerm r s actions (answer_as-SameTerm r.role r from match_seq good),
    )

-- Whatever message arrives, from whomever, the epoch does not fall, the vote of an epoch stands
-- while the epoch lasts, the node and its group stay, and an epoch or vote that changes is stored
-- before anything is sent.
pub handle-Sound :
    (r : Raft) (from : PublicId) (msg : Msg) → Sound r (handle r from msg).0 (handle r from msg).1
unfolding handle
handle-Sound r from (vote_req epoch last_epoch last_seq) =
    handle_vote_req-Sound r from epoch last_epoch last_seq
handle-Sound r from (vote_resp epoch granted) = handle_vote_resp-Sound r from epoch granted
handle-Sound r from (append epoch prev_seq prev_epoch entries commit) =
    handle_append-Sound r from epoch prev_seq prev_epoch entries commit
handle-Sound r from (append_resp epoch match_seq ok) =
    handle_append_resp-Sound r from epoch match_seq ok
handle-Sound r from (install_snapshot epoch last_seq last_epoch state) =
    handle_install_snapshot-Sound r from epoch last_seq last_epoch state

-- When its election timer fires, the epoch of a node does not fall, the vote of an epoch stands while
-- the epoch lasts, the node and its group stay, and an epoch or vote that changes is stored before
-- anything is sent, while the epoch counter has room.
pub tick_election-Sound :
    (r : Raft) → r.epoch + 1 < u64_mod → Sound r (tick_election r).0 (tick_election r).1
unfolding tick_election stand
tick_election-Sound r h = ground (arith, try_win-SameTerm (stand r))
