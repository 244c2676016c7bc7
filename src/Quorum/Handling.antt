-- ===== src/Quorum/Handling.antt =====
-- `handle` of crates/rf-core/src/quorum.rs, a function for each message.
use randall_flare.Prelude.{
  ℕ, ◌-◌, min, max, Option, none, some, Bool, true, false, not, ◌&&◌, ◌||◌, List, [], ◌∷◌, ◌++◌,
  ltb, leb, ◌==◌, if◌then◌else◌, take, is_none, update_first, add_u64,
}
use randall_flare.Prelude.Order.{Bytes, is_le, nat_ord, pair_ord}
use randall_flare.Identity.{PublicId, same_id}
use randall_flare.Quorum.State.{
  Entry, Msg, vote_req, vote_resp, append, append_resp, install_snapshot, Action, Role, candidate,
  leading, Raft, contains, last, entry, epoch_at,
}
use randall_flare.Quorum.Leading.{
  replicate_all, apply_committed, advance_commit, try_win, become_follower, is_epoch,
}

abbrev pub is_vote : Option PublicId → PublicId → Bool
is_vote none id = false
is_vote (some v) id = same_id v id

-- From `if granted` to the reply.
unfoldable pub cast_vote : Raft → PublicId → Bool → Raft × List Action
cast_vote r from granted =
    let first = granted && is_none r.voted_for in
    (
      if first then record r { voted_for = some from } else r,
      (if first then Action.persist_meta ∷ [] else [])
          ++ Action.send from (vote_resp r.epoch granted) ∷ [],
    )

-- From `let up_to_date` on.
unfoldable pub answer_vote : Raft → PublicId → ℕ → ℕ → ℕ → Raft × List Action
answer_vote r from epoch last_epoch last_seq =
    let up_to_date = is_le (last r) (last_epoch, last_seq) in
    let free = is_none r.voted_for || is_vote r.voted_for from in
    cast_vote r from ((epoch == r.epoch) && (up_to_date && free))

unfoldable pub handle_vote_req : Raft → PublicId → ℕ → ℕ → ℕ → Raft × List Action
handle_vote_req r from epoch last_epoch last_seq =
    let (r', actions) = if ltb r.epoch epoch then become_follower r epoch else (r, []) in
    let (r'', answer) = answer_vote r' from epoch last_epoch last_seq in (r'', actions ++ answer)

-- `votes.push(from)`, unless `from` is there.
abbrev pub add_vote : Role → PublicId → Role
add_vote (candidate votes) from =
    if contains votes from then candidate votes else candidate (votes ++ from ∷ [])
add_vote role from = role

unfoldable pub handle_vote_resp : Raft → PublicId → ℕ → Bool → Raft × List Action
handle_vote_resp r from epoch granted =
    if ltb r.epoch epoch
    then become_follower r epoch
    else if not (epoch == r.epoch) || not granted
    then (r, [])
    else try_win (record r { role = add_vote r.role from })

-- `log.truncate(..)` and `log.push(e)`.
unfoldable pub overwrite : Raft → Entry → Raft
overwrite r e = record r { log = take (e.seq - r.base_seq - 1) r.log ++ e ∷ [] }

abbrev pub or_insert : Option ℕ → ℕ → Option ℕ
or_insert none n = some n
or_insert (some m) n = some m

-- One round of the loop over the entries, with `persist_from`.
unfoldable pub absorb_one : Raft → Entry → Option ℕ → Raft × Option ℕ
absorb_one r e persist_from =
    let kept : Raft × Option ℕ = (r, persist_from) in
    let written : Raft × Option ℕ = (overwrite r e, or_insert persist_from e.seq) in
    if leb e.seq r.base_seq then kept else elim (entry r e.seq) [
      | none ↦ written
      | some existing ↦ if existing.epoch == e.epoch then kept else written
    ]

unfoldable pub absorb : Raft → List Entry → Option ℕ → Raft × Option ℕ
absorb r [] persist_from = (r, persist_from)
absorb r (e ∷ es) persist_from =
    let (r', persist_from') = absorb_one r e persist_from in absorb r' es persist_from'

abbrev pub persisted : Option ℕ → List Action
persisted none = []
persisted (some from_seq) = Action.persist_log from_seq ∷ []

-- What both messages of a leader do once the epoch is accepted: step down, remember the leader, and
-- fill in the vote.
unfoldable pub follow : Raft → PublicId → ℕ → Raft × List Action
follow r from epoch =
    let (r', actions) = become_follower r epoch in
    let first = is_none r'.voted_for in
    (
      record r' { leader = some from; voted_for = if first then some from else r'.voted_for },
      actions ++ (if first then Action.persist_meta ∷ [] else []),
    )

abbrev pub refuse : Raft → PublicId → ℕ → Action
refuse r from match_seq = Action.send from (append_resp r.epoch match_seq false)

abbrev pub accept : Raft → PublicId → ℕ → Action
accept r from match_seq = Action.send from (append_resp r.epoch match_seq true)

unfoldable pub prev_matches : Raft → ℕ → ℕ → Bool
prev_matches r prev_seq prev_epoch =
    (prev_seq == 0) || ltb prev_seq r.base_seq || is_epoch (epoch_at r prev_seq) prev_epoch

-- From `if commit > self.commit` to the reply.
unfoldable pub take_commit : Raft → PublicId → ℕ → Raft × List Action
take_commit r from commit =
    let match_seq = (last r).1 in
    let (r', actions) =
      if ltb r.commit commit
      then apply_committed (record r { commit = min commit match_seq })
      else (r, []) in
    (r', actions ++ accept r' from match_seq ∷ [])

unfoldable pub handle_append : Raft → PublicId → ℕ → ℕ → ℕ → List Entry → ℕ → Raft × List Action
handle_append r from epoch prev_seq prev_epoch entries commit =
    let (r1, followed) = follow r from epoch in
    let hint = max (min (last r1).1 (prev_seq - 1)) r1.base_seq in
    let (r2, persist_from) = absorb r1 entries none in
    let (r3, answered) = take_commit r2 from commit in
    if ltb epoch r.epoch
    then (r, refuse r from 0 ∷ [])
    else if not (prev_matches r1 prev_seq prev_epoch)
    then (r1, followed ++ refuse r1 from hint ∷ [])
    else (r3, followed ++ (persisted persist_from ++ answered))

unfoldable pub handle_install_snapshot : Raft → PublicId → ℕ → ℕ → ℕ → Bytes → Raft × List Action
handle_install_snapshot r from epoch last_seq last_epoch state =
    let (r1, followed) = follow r from epoch in
    let r2 = record r1 {
      log = [];
      base_seq = last_seq;
      base_epoch = last_epoch;
      commit = last_seq;
      applied = last_seq;
    } in
    if ltb epoch r.epoch
    then (r, refuse r from 0 ∷ [])
    else if leb last_seq r1.applied
    then (r1, followed ++ accept r1 from (last r1).1 ∷ [])
    else (
      r2,
      followed
          ++ Action.apply_snapshot last_seq state
            ∷ Action.persist_meta
            ∷ Action.persist_log (add_u64 last_seq 1)
            ∷ accept r2 from last_seq
            ∷ [],
    )

abbrev pub raise : ℕ → PublicId × ℕ → PublicId × ℕ
raise match_seq p = (p.0, max p.1 match_seq)

abbrev pub move_past : ℕ → PublicId × ℕ → PublicId × ℕ
move_past match_seq p = (p.0, add_u64 match_seq 1)

-- `n.1` after a refusal.
abbrev pub back_up : Raft → ℕ → PublicId × ℕ → PublicId × ℕ
back_up r match_seq p =
    let floor = add_u64 r.base_seq 1 in
    (
      p.0,
      if leb p.1 floor then max r.base_seq 1 else max (min (add_u64 match_seq 1) (p.1 - 1)) floor,
    )

abbrev pub is_from : PublicId → PublicId × ℕ → Bool
is_from from p = same_id p.0 from

-- What a leader does with an answer for its epoch.
unfoldable pub answered :
    Raft → PublicId → ℕ → Bool → List (PublicId × ℕ) → List (PublicId × ℕ) → Raft × List Action
answered r from match_seq ok next matched =
    let acked = record r {
      role =
          leading (update_first (is_from from) (move_past match_seq) next)
            (update_first (is_from from) (raise match_seq) matched);
    } in
    let backed = record r {
      role = leading (update_first (is_from from) (back_up r match_seq) next) matched;
    } in
    if ok then advance_commit acked else (backed, replicate_all backed)

unfoldable pub answer_as : Role → Raft → PublicId → ℕ → Bool → Raft × List Action
answer_as (leading next matched) r from match_seq ok = answered r from match_seq ok next matched
answer_as _ r from match_seq ok = (r, [])

unfoldable pub handle_append_resp : Raft → PublicId → ℕ → ℕ → Bool → Raft × List Action
handle_append_resp r from epoch match_seq ok =
    if ltb r.epoch epoch
    then become_follower r epoch
    else if not (epoch == r.epoch)
    then (r, [])
    else answer_as r.role r from match_seq ok

unfoldable pub handle : Raft → PublicId → Msg → Raft × List Action
handle r from (vote_req epoch last_epoch last_seq) =
    handle_vote_req r from epoch last_epoch last_seq
handle r from (vote_resp epoch granted) = handle_vote_resp r from epoch granted
handle r from (append epoch prev_seq prev_epoch entries commit) =
    handle_append r from epoch prev_seq prev_epoch entries commit
handle r from (install_snapshot epoch last_seq last_epoch state) =
    handle_install_snapshot r from epoch last_seq last_epoch state
handle r from (append_resp epoch match_seq ok) = handle_append_resp r from epoch match_seq ok
