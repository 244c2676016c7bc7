-- ===== src/Quorum/Frames.antt =====
-- What the parts of crates/rf-core/src/quorum.rs leave alone.
use randall_flare.Prelude.{
  if◌then◌else◌, ltb, ℕ, zero, suc, ◌+◌, ◌≡◌, refl, ap, Option, Bool, true, false, List, [], ◌∷◌,
  ◌-◌, update_first, min, add_u64, arith,
}
use randall_flare.Identity.{PublicId}
use randall_flare.Quorum.State.{Entry, Role, leading, Raft, last}
use randall_flare.Quorum.Leading.{
  apply_rounds, apply_committed, advance_commit, commit_matched, count_votes, take_office, try_win,
  highest_committed,
}
use randall_flare.Quorum.Handling.{
  overwrite, absorb_one, absorb, take_commit, answered, is_from, move_past, raise,
}

-- The fields that only elections write.
pub record SameTerm (r s : Raft) : Type 0 where
  pub same_me : s.me ≡ r.me
  pub same_group : s.group ≡ r.group
  pub same_epoch : s.epoch ≡ r.epoch
  pub same_vote : s.voted_for ≡ r.voted_for

pub SameTerm-refl : (r : Raft) → SameTerm r r
SameTerm-refl r = record { same_me = refl; same_group = refl; same_epoch = refl; same_vote = refl }

-- Everything but `applied`.
pub apply_rounds-fields :
    (n : ℕ) (r : Raft) → (apply_rounds n r).0 ≡ record r { applied = r.applied + n }
unfolding apply_rounds
apply_rounds-fields zero r = ground arith
apply_rounds-fields (suc n) r =
    ground (arith, apply_rounds-fields n (record r { applied = r.applied + 1 }))

pub apply_committed-SameTerm : (r : Raft) → SameTerm r (apply_committed r).0
unfolding apply_committed
apply_committed-SameTerm r = ground (arith, apply_rounds-fields (r.commit - r.applied) r)

commit_matched-SameTerm :
    (r : Raft) (matched : List (PublicId × ℕ)) → SameTerm r (commit_matched r matched).0
unfolding commit_matched
commit_matched-SameTerm r matched =
    let start = add_u64 r.commit 1 in
    let best = highest_committed ((last r).1 + 1 - start) r matched start r.commit in
    let mark = if ltb r.commit best then best else r.commit in
    ground (arith, apply_committed-SameTerm (record r { commit = mark }))

by_role_advance : (r : Raft) (role : Role) → r.role ≡ role → SameTerm r (advance_commit r).0
unfolding advance_commit
by_role_advance r (leading next matched) e = ground (arith, commit_matched-SameTerm r matched)
by_role_advance r _ e = ground arith

pub advance_commit-SameTerm : (r : Raft) → SameTerm r (advance_commit r).0
advance_commit-SameTerm r = by_role_advance r r.role refl

pub absorb-fields :
    (r : Raft) (es : List Entry) (p : Option ℕ)
    → (absorb r es p).0 ≡ record r { log = (absorb r es p).0.log }
unfolding absorb absorb_one overwrite
absorb-fields r [] p = refl
absorb-fields r (e ∷ es) p =
    ground (arith, absorb-fields (absorb_one r e p).0 es (absorb_one r e p).1)

pub take_commit-SameTerm :
    (r : Raft) (from : PublicId) (commit : ℕ) → SameTerm r (take_commit r from commit).0
unfolding take_commit
take_commit-SameTerm r from commit =
    ground (arith, apply_committed-SameTerm (record r { commit = min commit (last r).1 }))

pub try_win-SameTerm : (r : Raft) → SameTerm r (try_win r).0
unfolding try_win count_votes take_office
try_win-SameTerm r = ground arith

-- The role stays through replication, committing and applying.
pub apply_committed-role : (r : Raft) → (apply_committed r).0.role ≡ r.role
unfolding apply_committed
apply_committed-role r = ground (arith, apply_rounds-fields (r.commit - r.applied) r)

commit_matched-role :
    (r : Raft) (matched : List (PublicId × ℕ)) → (commit_matched r matched).0.role ≡ r.role
unfolding commit_matched
commit_matched-role r matched =
    let start = add_u64 r.commit 1 in
    let best = highest_committed ((last r).1 + 1 - start) r matched start r.commit in
    let mark = if ltb r.commit best then best else r.commit in
    apply_committed-role (record r { commit = mark })

by_role_role : (r : Raft) (role : Role) → r.role ≡ role → (advance_commit r).0.role ≡ r.role
unfolding advance_commit
by_role_role r (leading next matched) e = ground (arith, commit_matched-role r matched)
by_role_role r _ e = ground arith

pub advance_commit-role : (r : Raft) → (advance_commit r).0.role ≡ r.role
advance_commit-role r = by_role_role r r.role refl

pub absorb-role : (r : Raft) (es : List Entry) (p : Option ℕ) → (absorb r es p).0.role ≡ r.role
absorb-role r es p = ap (λ (s : Raft). s.role) (absorb-fields r es p)

pub take_commit-role :
    (r : Raft) (from : PublicId) (commit : ℕ) → (take_commit r from commit).0.role ≡ r.role
unfolding take_commit
take_commit-role r from commit =
    ground (arith, apply_committed-role (record r { commit = min commit (last r).1 }))

pub SameTerm-trans : (r s t : Raft) → SameTerm r s → SameTerm s t → SameTerm r t
SameTerm-trans r s t h k = ground arith

pub answered-SameTerm :
    (r : Raft) (from : PublicId) (match_seq : ℕ) (ok : Bool) (next matched : List (PublicId × ℕ))
    → SameTerm r (answered r from match_seq ok next matched).0
unfolding answered
answered-SameTerm r from match_seq false next matched = ground arith
answered-SameTerm r from match_seq true next matched =
    let acked = record r {
      role =
          leading (update_first (is_from from) (move_past match_seq) next)
            (update_first (is_from from) (raise match_seq) matched);
    } in
    SameTerm-trans r acked (advance_commit acked).0 (ground arith) (advance_commit-SameTerm acked)
