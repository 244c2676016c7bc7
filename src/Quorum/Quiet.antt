-- ===== src/Quorum/Quiet.antt =====
-- What crates/rf-core/src/quorum.rs sends without saying anything of votes or wins.
use randall_flare.Prelude.{
  ℕ, zero, suc, ◌+◌, ◌≡◌, inl, inr, refl, Option, none, some, Bool, true, false, ◌&&◌, List, [],
  ◌∷◌, ◌++◌, map, arith, add_u64, ◌-◌, ltb, leb, Bool-cases,
}
use randall_flare.Prelude.Order.{Bytes, bytes_ord}
use randall_flare.Identity.{PublicId}
use randall_flare.Quorum.State.{
  Entry, vote_req, vote_resp, append, append_resp, install_snapshot, Action, Role, leading, Raft,
  last,
}
use randall_flare.Quorum.Leading.{
  replicate_to, replicate_all, apply_rounds, apply_committed, commit_matched, highest_committed,
  advance_commit, heartbeat, append_command, become_follower,
}
use randall_flare.Quorum.Handling.{
  handle_append, handle_append_resp, answered, answer_as, handle_install_snapshot, follow,
  take_commit, persisted, prev_matches,
}
use randall_flare.Quorum.Cluster.{elected}

-- An action that tells nobody of a vote or of a win.
abbrev pub is_quiet : Action → Bool
is_quiet (Action.send to (vote_resp epoch granted)) = false
is_quiet Action.became_leader = false
is_quiet _ = true

abbrev pub quiet : List Action → Bool
quiet [] = true
quiet (a ∷ rest) = is_quiet a && quiet rest

pub quiet-append : (xs ys : List Action) → quiet (xs ++ ys) ≡ (quiet xs && quiet ys)
quiet-append [] ys = refl
quiet-append (x ∷ xs) ys = ground (arith, quiet-append xs ys)

pub replicate_to-quiet :
    (r : Raft) (ps : List (PublicId × ℕ)) → quiet (map (replicate_to r) ps) ≡ true
unfolding replicate_to
replicate_to-quiet r [] = refl
replicate_to-quiet r (p ∷ ps) = ground (arith, replicate_to-quiet r ps)

pub by_role_replicate : (r : Raft) (role : Role) → r.role ≡ role → quiet (replicate_all r) ≡ true
unfolding replicate_all
by_role_replicate r (leading next matched) e = ground (arith, replicate_to-quiet r next)
by_role_replicate r _ e = ground arith

pub replicate_all-quiet : (r : Raft) → quiet (replicate_all r) ≡ true
replicate_all-quiet r = by_role_replicate r r.role refl

pub apply_rounds-quiet : (k : ℕ) (r : Raft) → quiet (apply_rounds k r).1 ≡ true
unfolding apply_rounds
apply_rounds-quiet zero r = refl
apply_rounds-quiet (suc k) r =
    ground (arith, apply_rounds-quiet k (record r { applied = r.applied + 1 }))

pub apply_committed-quiet : (r : Raft) → quiet (apply_committed r).1 ≡ true
unfolding apply_committed
apply_committed-quiet r = apply_rounds-quiet _ r

pub follow-quiet : (r : Raft) (from : PublicId) (epoch : ℕ) → quiet (follow r from epoch).1 ≡ true
unfolding follow become_follower
follow-quiet r from epoch = ground arith

pub take_commit-quiet :
    (r : Raft) (from : PublicId) (commit : ℕ) → quiet (take_commit r from commit).1 ≡ true
unfolding take_commit
take_commit-quiet r from commit = elim (Bool-cases (ltb r.commit commit)) [
  | inl high ↦ rw high (simp (quiet-append, apply_committed-quiet))
  | inr low ↦ rw low refl
]

pub persisted-quiet : (p : Option ℕ) → quiet (persisted p) ≡ true
persisted-quiet none = refl
persisted-quiet (some n) = refl

pub ruleset quiets = (
  quiet-append, apply_committed-quiet, take_commit-quiet, persisted-quiet, follow-quiet,
  replicate_all-quiet,
)

pub handle_append-quiet :
    (r : Raft) (from : PublicId) (epoch prev_seq prev_epoch : ℕ) (es : List Entry) (commit : ℕ)
    → quiet (handle_append r from epoch prev_seq prev_epoch es commit).1 ≡ true
unfolding handle_append
handle_append-quiet r from epoch prev_seq prev_epoch es commit =
    elim (Bool-cases (ltb epoch r.epoch)) [
      | inl old ↦ rw old refl
      | inr new ↦ elim (Bool-cases (prev_matches (follow r from epoch).0 prev_seq prev_epoch)) [
        | inl good ↦ rw (new, good) (simp quiets)
        | inr bad ↦ rw (new, bad) (simp quiets)
      ]
    ]

pub handle_install_snapshot-quiet :
    (r : Raft) (from : PublicId) (epoch last_seq last_epoch : ℕ) (state : Bytes)
    → quiet (handle_install_snapshot r from epoch last_seq last_epoch state).1 ≡ true
unfolding handle_install_snapshot
handle_install_snapshot-quiet r from epoch last_seq last_epoch state =
    elim (Bool-cases (ltb epoch r.epoch)) [
      | inl old ↦ rw old refl
      | inr new ↦ elim (Bool-cases (leb last_seq (follow r from epoch).0.applied)) [
        | inl stale ↦ rw (new, stale) (simp quiets)
        | inr fresh ↦ rw (new, fresh) (simp quiets)
      ]
    ]

pub commit_matched-quiet :
    (r : Raft) (matched : List (PublicId × ℕ)) → quiet (commit_matched r matched).1 ≡ true
unfolding commit_matched
commit_matched-quiet r matched =
    let start = add_u64 r.commit 1 in
    let best = highest_committed ((last r).1 + 1 - start) r matched start r.commit in
    elim (Bool-cases (ltb r.commit best)) [
      | inl more ↦ rw more (simp quiets)
      | inr same ↦ rw same (simp quiets)
    ]

pub by_role_advance_quiet :
    (r : Raft) (role : Role) → r.role ≡ role → quiet (advance_commit r).1 ≡ true
unfolding advance_commit
by_role_advance_quiet r (leading next matched) e = ground (arith, commit_matched-quiet r matched)
by_role_advance_quiet r _ e = ground arith

pub advance_commit-quiet : (r : Raft) → quiet (advance_commit r).1 ≡ true
advance_commit-quiet r = by_role_advance_quiet r r.role refl

pub answered-quiet :
    (r : Raft) (from : PublicId) (match_seq : ℕ) (good : Bool) (next matched : List (PublicId × ℕ))
    → quiet (answered r from match_seq good next matched).1 ≡ true
unfolding answered
answered-quiet r from match_seq true next matched = advance_commit-quiet _
answered-quiet r from match_seq false next matched = replicate_all-quiet _

pub become_follower-quiet : (r : Raft) (epoch : ℕ) → quiet (become_follower r epoch).1 ≡ true
unfolding become_follower
become_follower-quiet r epoch = ground arith

pub answer_as-quiet :
    (role : Role) (r : Raft) (from : PublicId) (match_seq : ℕ) (good : Bool)
    → quiet (answer_as role r from match_seq good).1 ≡ true
unfolding answer_as
answer_as-quiet (leading next matched) r from match_seq good =
    answered-quiet r from match_seq good next matched
answer_as-quiet _ r from match_seq good = refl

pub handle_append_resp-quiet :
    (r : Raft) (from : PublicId) (epoch match_seq : ℕ) (good : Bool)
    → quiet (handle_append_resp r from epoch match_seq good).1 ≡ true
unfolding handle_append_resp
handle_append_resp-quiet r from epoch match_seq good =
    ground (arith, become_follower-quiet r epoch, answer_as-quiet r.role r from match_seq good)

pub append_command-quiet : (r : Raft) (cmd : Bytes) → quiet (append_command r cmd).2 ≡ true
unfolding append_command
append_command-quiet r cmd = simp (quiets, advance_commit-quiet)

pub heartbeat-quiet : (r : Raft) → quiet (heartbeat r) ≡ true
unfolding heartbeat
heartbeat-quiet r = ground (arith, replicate_all-quiet r)

pub quiet-elected : (actions : List Action) → quiet actions ≡ true → elected actions ≡ false
quiet-elected [] h = refl
quiet-elected (Action.send to (vote_resp e g) ∷ rest) h = cc
quiet-elected (Action.became_leader ∷ rest) h = cc
quiet-elected (Action.send to (vote_req a b c) ∷ rest) h = quiet-elected rest h
quiet-elected (Action.send to (append a b c d e) ∷ rest) h = quiet-elected rest h
quiet-elected (Action.send to (append_resp a b c) ∷ rest) h = quiet-elected rest h
quiet-elected (Action.send to (install_snapshot a b c d) ∷ rest) h = quiet-elected rest h
quiet-elected (Action.persist_meta ∷ rest) h = quiet-elected rest h
quiet-elected (Action.persist_log n ∷ rest) h = quiet-elected rest h
quiet-elected (Action.apply n ∷ rest) h = quiet-elected rest h
quiet-elected (Action.apply_snapshot n b ∷ rest) h = quiet-elected rest h
quiet-elected (Action.need_snapshot to ∷ rest) h = quiet-elected rest h
quiet-elected (Action.lost_leadership ∷ rest) h = quiet-elected rest h
