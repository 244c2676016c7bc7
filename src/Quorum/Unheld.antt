-- ===== src/Quorum/Unheld.antt =====
-- What an answer for a whole log leads to in crates/rf-core/src/quorum.rs: a leader commits a command in
-- the place of which the follower that it counts holds another entry.
use randall_flare.Prelude.{
  ℕ, subst, ◌+◌, ◌-◌, ◌≤◌, ◌<◌, ◌≡◌, ◌∙◌, sym, ap, refl, min, some, true, false, List, [], ◌∷◌,
  ◌++◌, arith, ltb, filter, update_first, inl, inr, u64_mod, add_u64, if◌then◌else◌,
}
use randall_flare.Prelude.Order.{Bytes, bytes_ord}
use randall_flare.Prelude.Members.{In}
use randall_flare.Prelude.Result.{ok}
use randall_flare.Identity.{PublicId, same_id}
use randall_flare.Quorum.State.{
  Entry, append, append_resp, Action, leading, Raft, majority, last, entry,
}
use randall_flare.Quorum.Leading.{
  apply_committed, replicas, highest_committed, commit_matched, append_command, propose, heartbeat,
  become_follower,
}
use randall_flare.Quorum.Handling.{
  follow, absorb, prev_matches, take_commit, handle_append, is_from, raise, move_past, answered,
  answer_as, handle_append_resp, handle,
}
use randall_flare.Quorum.Frames.{apply_rounds-fields}
use randall_flare.Quorum.LogShape.{IsWellFormed, last-length}
use randall_flare.Quorum.Heartbeat.{heartbeat-In}
use randall_flare.Quorum.Commit.{commit_matched_rule}
use randall_flare.Quorum.Overclaim.{
  heartbeat_claims_all, next_command_commits, entry_push, leading_advance,
}

-- The marks are all that committing changes.
commit_matched-marks :
    (r : Raft) (matched : List (PublicId × ℕ))
    → let s = (commit_matched r matched).0 in
      (r.commit ≤ s.commit)
      × (s ≡ record r { commit = s.commit; applied = r.applied + (s.commit - r.applied) })
unfolding commit_matched apply_committed
commit_matched-marks r matched =
    let start = add_u64 r.commit 1 in
    let best = highest_committed ((last r).1 + 1 - start) r matched start r.commit in
    let mark = if ltb r.commit best then best else r.commit in
    let le : r.commit ≤ mark = ground arith in
    let e = apply_rounds-fields (mark - r.applied) (record r { commit = mark }) in
    let c = ap (λ (s : Raft). s.commit) e in
    (
      omega (arith, le, c),
      e ∙ ap (λ m. record r { commit = m; applied = r.applied + (m - r.applied) }) (sym c),
    )

commit_matched-IsWellFormed :
    (r : Raft) (matched : List (PublicId × ℕ))
    → IsWellFormed r
    → (last r).1 + 1 < u64_mod
    → IsWellFormed (commit_matched r matched).0
commit_matched-IsWellFormed r matched w small =
    let s = (commit_matched r matched).0 in
    let (le, same) = commit_matched-marks r matched in
    let top = last-length r w.contiguous in
    let high : s.commit ≤ (last r).1 =
      elim (commit_matched_rule r matched w (omega (arith, w.commit_last, top, small))).0 [
        | inl e ↦ omega (arith, e, w.commit_last, top)
        | inr f ↦ f.1
      ] in
    subst IsWellFormed (sym same) (record {
      contiguous = w.contiguous;
      base_applied = omega (arith, w.base_applied);
      applied_commit = omega (arith, w.applied_commit, le);
      commit_last = omega (arith, high, top);
    })

replicas-raise :
    (from : PublicId) (m n k : ℕ) (matched : List (PublicId × ℕ))
    → n ≤ m
    → In {A = PublicId × ℕ} (from, k) matched
    → 2 ≤ replicas (update_first (is_from from) (raise m) matched) n
unfolding replicas update_first filter same_id
replicas-raise from m n k [] le i = absurd i
replicas-raise from m n k (p ∷ ps) le (inl e) =
    let here : is_from from p ≡ true =
      ap (is_from from) (sym e) ∙ ground (arith, bytes_ord.cmp_self from.bytes) in
    ground (arith, here, le)
replicas-raise from m n k (p ∷ ps) le (inr i) =
    ground (arith, replicas-raise from m n k ps le i, le)

take_commit-entry :
    (r : Raft) (from : PublicId) (commit n : ℕ) → entry (take_commit r from commit).0 n ≡ entry r n
unfolding take_commit apply_committed entry
take_commit-entry r from commit n =
    let m = min commit (last r).1 in
    ground (arith, apply_rounds-fields (m - r.applied) (record r { commit = m }))

take_commit-epoch :
    (r : Raft) (from : PublicId) (commit : ℕ) → (take_commit r from commit).0.epoch ≡ r.epoch
unfolding take_commit apply_committed
take_commit-epoch r from commit =
    let m = min commit (last r).1 in
    ground (arith, apply_rounds-fields (m - r.applied) (record r { commit = m }))

follow-entry :
    (r : Raft) (from : PublicId) (epoch n : ℕ) → entry (follow r from epoch).0 n ≡ entry r n
unfolding follow become_follower entry
follow-entry r from epoch n = ground arith

follow-epoch :
    (r : Raft) (from : PublicId) (epoch : ℕ)
    → r.epoch ≤ epoch
    → (follow r from epoch).0.epoch ≡ epoch
unfolding follow become_follower
follow-epoch r from epoch le = ground (arith, le)

-- An accepted append without entries changes no entry, and the answer is for the whole log.
empty_append :
    (f : Raft) (from : PublicId) (epoch prev_seq prev_epoch commit : ℕ)
    → f.epoch ≤ epoch
    → prev_matches (follow f from epoch).0 prev_seq prev_epoch ≡ true
    → let (s, sent) = handle f from (append epoch prev_seq prev_epoch [] commit) in
      In (Action.send from (append_resp epoch (last f).1 true)) sent
      × ((n : ℕ) → entry s n ≡ entry f n)
unfolding handle handle_append absorb
empty_append f from epoch prev_seq prev_epoch commit le good =
    let r1 = (follow f from epoch).0 in
    let s = (take_commit r1 from commit).0 in
    let new : ltb epoch f.epoch ≡ false = ground (arith, le) in
    let (claim, _) = heartbeat_claims_all f from epoch prev_seq prev_epoch commit le good in
    let at : s.epoch ≡ epoch = take_commit-epoch r1 from commit ∙ follow-epoch f from epoch le in
    let (hs, sent) = handle_append f from epoch prev_seq prev_epoch [] commit in
    let same : hs ≡ s = rw (new, good) refl in
    let told : hs.epoch ≡ epoch = ap (λ (x : Raft). x.epoch) same ∙ at in
    (
      subst (λ e. In (Action.send from (append_resp e (last f).1 true)) sent) told claim,
      λ n.
          ap (λ x. entry x n) same
          ∙ take_commit-entry r1 from commit n
          ∙ follow-entry f from epoch n,
    )

handle-own_epoch :
    (l : Raft) (from : PublicId) (m : ℕ)
    → (handle l from (append_resp l.epoch m true)).0 ≡ (answer_as l.role l from m true).0
unfolding handle handle_append_resp
handle-own_epoch l from m = ground arith

-- What is left of a leader that has taken an answer.
abbrev Counted : Raft → List (PublicId × ℕ) → List (PublicId × ℕ) → Raft → Type 0
Counted l next matched l' =
    IsWellFormed l'
    × (last l' ≡ last l)
    × (l'.epoch ≡ l.epoch)
    × (l'.role ≡ leading next matched)
    × (majority l' ≤ replicas matched ((last l').1 + 1))

-- A leader that takes an answer for more than its log counts the sender for its next entry.
counted :
    (l : Raft) (from : PublicId) (m k : ℕ) (next matched : List (PublicId × ℕ))
    → IsWellFormed l
    → l.role ≡ leading next matched
    → (last l).1 + 1 < u64_mod
    → majority l ≤ 2
    → In {A = PublicId × ℕ} (from, k) matched
    → (last l).1 < m
    → Counted l
        (update_first (is_from from) (move_past m) next)
        (update_first (is_from from) (raise m) matched)
        (handle l from (append_resp l.epoch m true)).0
unfolding answered answer_as last majority
counted l from m k next matched w ro small two i more =
    let matched' = update_first (is_from from) (raise m) matched in
    let acked = record l {
      role = leading (update_first (is_from from) (move_past m) next) matched';
    } in
    let moved : (handle l from (append_resp l.epoch m true)).0 ≡ (commit_matched acked matched').0 =
      handle-own_epoch l from m
      ∙ ap (λ role. (answer_as role l from m true).0) ro
      ∙ ap (λ (x : Raft × List Action). x.0) (leading_advance acked _ matched' refl) in
    let wa : IsWellFormed acked = record {
      contiguous = w.contiguous;
      base_applied = w.base_applied;
      applied_commit = w.applied_commit;
      commit_last = w.commit_last;
    } in
    let many : majority l ≤ replicas matched' ((last l).1 + 1) =
      let r = replicas-raise from m ((last l).1 + 1) k matched (omega (arith, more)) i in
      omega (arith, r, two) in
    subst (Counted l (update_first (is_from from) (move_past m) next) matched') (sym moved) (
      subst (Counted l (update_first (is_from from) (move_past m) next) matched')
        (sym (commit_matched-marks acked matched').1)
        (
          subst IsWellFormed (commit_matched-marks acked matched').1
              (commit_matched-IsWellFormed acked matched' wa small),
          refl,
          refl,
          refl,
          many,
        ))

append_command-entry :
    (r : Raft) (cmd : Bytes) (next matched : List (PublicId × ℕ))
    → IsWellFormed r
    → r.role ≡ leading next matched
    → (last r).1 + 1 < u64_mod
    → entry (append_command r cmd).0 ((last r).1 + 1)
      ≡ some (record { epoch = r.epoch; seq = (last r).1 + 1; cmd = cmd })
unfolding append_command entry
append_command-entry r cmd next matched w ro small =
    let seq = add_u64 (last r).1 1 in
    let at : seq ≡ (last r).1 + 1 = omega (arith, small) in
    let top = last-length r w.contiguous in
    let x : Entry = record { epoch = r.epoch; seq = seq; cmd = cmd } in
    let r' = record r { log = r.log ++ x ∷ [] } in
    let led = ap (λ (q : Raft × List Action). q.0) (leading_advance r' next matched ro) in
    let kept = ap (λ (s : Raft). entry s seq) (led ∙ (commit_matched-marks r' matched).1) in
    let pushed = entry_push r x (omega (arith, top, at)) in
    subst
      (λ n.
        entry (append_command r cmd).0 n ≡ some (record { epoch = r.epoch; seq = n; cmd = cmd }))
      at (kept ∙ pushed)

propose_leading :
    (r : Raft) (cmd : Bytes) (next matched : List (PublicId × ℕ))
    → r.role ≡ leading next matched
    → propose r cmd ≡ ok (append_command r cmd)
unfolding propose
propose_leading r cmd next matched ro = ground (arith, ro)

-- A leader commits a command on the word of a follower that holds another entry in its place. In a group
-- whose majority is two, a well-formed leader tracks a follower and takes it to have the leader's whole
-- log, and the follower, whose epoch is not past the leader's, agrees on the end of that log but goes on
-- with an entry `x` of an older epoch. The leader's heartbeat has an append without entries for the
-- follower, which accepts it and answers for its own whole log; and once the leader has taken the
-- answer, the next command that it proposes is committed in the same step, if the sequence numbers have
-- room, while at that place the follower still holds `x`.
pub commits_unheld :
    (l f : Raft) (k : ℕ) (next matched : List (PublicId × ℕ)) (x : Entry) (cmd : Bytes)
    → IsWellFormed l
    → l.role ≡ leading next matched
    → (last l).1 + 1 < u64_mod
    → majority l ≤ 2
    → In {A = PublicId × ℕ} (f.me, (last l).1 + 1) next
    → In {A = PublicId × ℕ} (f.me, k) matched
    → f.epoch ≤ l.epoch
    → prev_matches (follow f l.me l.epoch).0 (last l).1 (last l).0 ≡ true
    → (last l).1 < (last f).1
    → entry f ((last l).1 + 1) ≡ some x
    → x.epoch < l.epoch
    → let n = (last l).1 + 1 in
      let beat = append l.epoch (last l).1 (last l).0 [] l.commit in
      let (f', sent) = handle f l.me beat in
      let answer = append_resp l.epoch (last f).1 true in
      let l' = (handle l f.me answer).0 in
      let (l'', seq, stepped) = append_command l' cmd in
      let e : Entry = record { epoch = l.epoch; seq = n; cmd = cmd } in
      In (Action.send f.me beat) (heartbeat l)
      × In (Action.send l.me answer) sent
      × (propose l' cmd ≡ ok (l'', seq, stepped))
      × (l''.commit ≡ n)
      × (entry l'' n ≡ some e)
      × (entry f' n ≡ some x)
      × (x ≡ e → ⊥)
commits_unheld l f k next matched x cmd w ro small two j i le good longer held old =
    let (told, kept) = empty_append f l.me l.epoch (last l).1 (last l).0 l.commit le good in
    let l' = (handle l f.me (append_resp l.epoch (last f).1 true)).0 in
    let next' = update_first (is_from f.me) (move_past (last f).1) next in
    let matched' = update_first (is_from f.me) (raise (last f).1) matched in
    let (w', same, own, ro', many) =
      counted l f.me (last f).1 k next matched w ro small two i longer in
    let end : (last l').1 ≡ (last l).1 = ap (λ (p : ℕ × ℕ). p.1) same in
    let room : (last l').1 + 1 < u64_mod = omega (arith, end, small) in
    let done = next_command_commits l' cmd next' matched' w' ro' room many in
    let here = append_command-entry l' cmd next' matched' w' ro' room in
    (
      heartbeat-In l f.me next matched w ro small j,
      told,
      propose_leading l' cmd next' matched' ro',
      omega (arith, done, end),
      rw (end, own) at here,
      kept ((last l).1 + 1) ∙ held,
      λ q. let p = ap (λ (y : Entry). y.epoch) q in omega (arith, p, old),
    )
