-- ===== src/Quorum/Steady.antt =====
-- How the role of a node of crates/rf-core/src/quorum.rs moves when it counts no vote.
use randall_flare.Prelude.{
  ℕ, ◌≡◌, inl, inr, refl, ap, ◌∙◌, none, Bool, true, false, List, arith, ◌==◌, ltb, leb, Bool-cases,
}
use randall_flare.Prelude.Order.{Bytes, bytes_ord}
use randall_flare.Identity.{PublicId}
use randall_flare.Quorum.State.{Entry, Role, follower, leading, Raft, is_leader, is_leading}
use randall_flare.Quorum.Leading.{become_follower}
use randall_flare.Quorum.Handling.{
  handle_append, handle_append_resp, answered, answer_as, handle_install_snapshot, follow, absorb,
  prev_matches,
}
use randall_flare.Quorum.Frames.{
  answered-SameTerm, advance_commit-role, absorb-role, take_commit-role,
}

-- How the role moves when no vote is counted.
pub data Steady (r s : Raft) : Type 0 where
  down : s.role ≡ follower → Steady r s
  same : s.role ≡ r.role → s.epoch ≡ r.epoch → s.voted_for ≡ r.voted_for → Steady r s
  leads : is_leader r ≡ true → is_leader s ≡ true → s.epoch ≡ r.epoch → Steady r s

pub Steady-refl : (r : Raft) → Steady r r
Steady-refl r = same refl refl refl

pub follow-role : (r : Raft) (from : PublicId) (epoch : ℕ) → (follow r from epoch).0.role ≡ follower
unfolding follow become_follower
follow-role r from epoch = ground arith

pub become_follower-role : (r : Raft) (epoch : ℕ) → (become_follower r epoch).0.role ≡ follower
unfolding become_follower
become_follower-role r epoch = ground arith

pub handle_append-Steady :
    (r : Raft) (from : PublicId) (epoch prev_seq prev_epoch : ℕ) (es : List Entry) (commit : ℕ)
    → Steady r (handle_append r from epoch prev_seq prev_epoch es commit).0
unfolding handle_append
handle_append-Steady r from epoch prev_seq prev_epoch es commit =
    let r1 = (follow r from epoch).0 in
    let r2 = (absorb r1 es none).0 in
    let role1 = follow-role r from epoch in
    elim (Bool-cases (ltb epoch r.epoch)) [
      | inl old ↦ rw old (Steady-refl r)
      | inr new ↦ elim (Bool-cases (prev_matches r1 prev_seq prev_epoch)) [
        | inr bad ↦ rw (new, bad) (down role1)
        | inl good ↦
            rw (new, good) (down (take_commit-role r2 from commit ∙ absorb-role r1 es none ∙ role1))
      ]
    ]

pub handle_install_snapshot-Steady :
    (r : Raft) (from : PublicId) (epoch last_seq last_epoch : ℕ) (state : Bytes)
    → Steady r (handle_install_snapshot r from epoch last_seq last_epoch state).0
unfolding handle_install_snapshot
handle_install_snapshot-Steady r from epoch last_seq last_epoch state =
    elim (Bool-cases (ltb epoch r.epoch)) [
      | inl old ↦ rw old (Steady-refl r)
      | inr new ↦ elim (Bool-cases (leb last_seq (follow r from epoch).0.applied)) [
        | inl stale ↦ rw (new, stale) (down (follow-role r from epoch))
        | inr fresh ↦ rw (new, fresh) (down (follow-role r from epoch))
      ]
    ]

pub answered-leads :
    (r : Raft) (from : PublicId) (match_seq : ℕ) (good : Bool) (next matched : List (PublicId × ℕ))
    → is_leader (answered r from match_seq good next matched).0 ≡ true
unfolding answered
answered-leads r from match_seq true next matched = ap is_leading (advance_commit-role _)
answered-leads r from match_seq false next matched = refl

pub answer_as-Steady :
    (role : Role) (r : Raft) (from : PublicId) (match_seq : ℕ) (good : Bool)
    → r.role ≡ role
    → Steady r (answer_as role r from match_seq good).0
unfolding answer_as
answer_as-Steady (leading next matched) r from match_seq good e =
    leads (ap is_leading e) (answered-leads r from match_seq good next matched)
      (answered-SameTerm r from match_seq good next matched).same_epoch
answer_as-Steady _ r from match_seq good e = Steady-refl r

pub handle_append_resp-Steady :
    (r : Raft) (from : PublicId) (epoch match_seq : ℕ) (good : Bool)
    → Steady r (handle_append_resp r from epoch match_seq good).0
unfolding handle_append_resp
handle_append_resp-Steady r from epoch match_seq good = elim (Bool-cases (ltb r.epoch epoch)) [
  | inl up ↦ rw up (down (become_follower-role r epoch))
  | inr level ↦ elim (Bool-cases (epoch == r.epoch)) [
    | inr old ↦ rw (level, old) (Steady-refl r)
    | inl now ↦ rw (level, now) (answer_as-Steady r.role r from match_seq good refl)
  ]
]
