-- ===== src/Quorum/Appending.antt =====
-- A follower of crates/rf-core/src/quorum.rs that takes entries from its leader stays well formed and
-- keeps what it has committed.
use randall_flare.Prelude.{
  ℕ, ◌+◌, ◌≤◌, ◌≡◌, ◌∙◌, refl, min, none, true, List, [], ◌∷◌, All, length, arith, leb, ltb,
  Option-cases, Bool-cases, inl, inr,
}
use native.Mathlib.Nat.{le_refl}
use randall_flare.Prelude.Order.{Bytes}
use randall_flare.Identity.{PublicId}
use randall_flare.Quorum.State.{Entry, Raft, last, entry, epoch_at}
use randall_flare.Quorum.Leading.{become_follower}
use randall_flare.Quorum.Handling.{
  absorb, take_commit, follow, prev_matches, handle_append, handle_install_snapshot,
}
use randall_flare.Quorum.LogShape.{IsWellFormed, Contiguous, last-length, entry_at}
use randall_flare.Quorum.Commit.{apply_committed-applies}
use randall_flare.Quorum.Absorbing.{Agrees, Keeps, absorb-Keeps}

-- What `follow` leaves alone: the log and its marks.
record SameLog (r s : Raft) : Type 0 where
  log_same : s.log ≡ r.log
  base_same : s.base_seq ≡ r.base_seq
  commit_same : s.commit ≡ r.commit
  applied_same : s.applied ≡ r.applied

follow-SameLog : (r : Raft) (from : PublicId) (epoch : ℕ) → SameLog r (follow r from epoch).0
unfolding follow become_follower
follow-SameLog r from epoch = ground arith

SameLog-entry : (r s : Raft) (n : ℕ) → SameLog r s → entry s n ≡ entry r n
unfolding entry
SameLog-entry r s n h = ground arith

SameLog-IsWellFormed : (r s : Raft) → SameLog r s → IsWellFormed r → IsWellFormed s
SameLog-IsWellFormed r s h w = record {
  contiguous = rw (h.base_same, h.log_same) w.contiguous;
  base_applied = ground arith;
  applied_commit = ground arith;
  commit_last = ground arith;
}

SameLog-Agrees :
    (r s : Raft) (es : List Entry) → SameLog r s → All (Agrees r) es → All (Agrees s) es
SameLog-Agrees r s [] h a = tt
SameLog-Agrees r s (e ∷ es) h a =
    (λ b l. ground (arith, SameLog-entry r s e.seq h, a.0), SameLog-Agrees r s es h a.1)

prev_matches-le :
    (r : Raft) (prev_seq prev_epoch : ℕ)
    → Contiguous r.base_seq r.log
    → prev_matches r prev_seq prev_epoch ≡ true
    → prev_seq ≤ r.base_seq + length r.log
unfolding prev_matches epoch_at
prev_matches-le r prev_seq prev_epoch c h = elim (Option-cases (entry r prev_seq)) [
  | inl none_there ↦ ground arith
  | inr (x, there) ↦ omega (arith, entry_at r prev_seq x c there)
]

-- A step that keeps the log's committed part and moves no mark back.
pub record Advances (r s : Raft) : Type 0 where
  pub well_formed : IsWellFormed s
  pub commit_grows : r.commit ≤ s.commit
  pub applied_grows : r.applied ≤ s.applied
  pub committed_stays : (n : ℕ) → n ≤ r.commit → entry s n ≡ entry r n

entry_marks : (r : Raft) (c a n : ℕ) → entry (record r { commit = c; applied = a }) n ≡ entry r n
unfolding entry
entry_marks r c a n = refl

Advances-refl : (r : Raft) → IsWellFormed r → Advances r r
Advances-refl r w = record {
  well_formed = w;
  commit_grows = le_refl r.commit;
  applied_grows = le_refl r.applied;
  committed_stays = λ n h. refl;
}

take_commit-Advances :
    (r : Raft) (from : PublicId) (commit : ℕ)
    → IsWellFormed r
    → Advances r (take_commit r from commit).0
unfolding take_commit
take_commit-Advances r from commit w = elim (Bool-cases (ltb r.commit commit)) [
  | inr low ↦ rw low (Advances-refl r w)
  | inl high ↦
      let m = min commit (last r).1 in
      let top = last-length r w.contiguous in
      let w' : IsWellFormed (record r { commit = m }) = record {
        contiguous = w.contiguous;
        base_applied = w.base_applied;
        applied_commit = ground (arith, top, w.applied_commit, w.commit_last);
        commit_last = omega (arith, top);
      } in
      let done : Advances r (record r { commit = m; applied = m }) = record {
        well_formed = record {
          contiguous = w.contiguous;
          base_applied = ground (arith, top, w.base_applied, w.applied_commit, w.commit_last);
          applied_commit = le_refl m;
          commit_last = omega (arith, top);
        };
        commit_grows = ground (arith, top, w.commit_last);
        applied_grows = ground (arith, top, w.applied_commit, w.commit_last);
        committed_stays = λ n h. entry_marks r m m n;
      } in
      rw (high, (apply_committed-applies (record r { commit = m }) w').0) done
]

SameLog-Advances : (r s : Raft) → SameLog r s → IsWellFormed r → Advances r s
SameLog-Advances r s h w = record {
  well_formed = SameLog-IsWellFormed r s h w;
  commit_grows = ground (arith, h.commit_same);
  applied_grows = ground (arith, h.applied_same);
  committed_stays = λ n l. SameLog-entry r s n h;
}

Keeps-Advances : (r s : Raft) → Keeps r s → IsWellFormed r → Advances r s
Keeps-Advances r s k w = record {
  well_formed = record {
    contiguous = k.contiguous;
    base_applied = ground (arith, k.same_base, k.same_applied, w.base_applied);
    applied_commit = ground (arith, k.same_commit, k.same_applied, w.applied_commit);
    commit_last = k.reaches;
  };
  commit_grows = ground (arith, k.same_commit);
  applied_grows = ground (arith, k.same_applied);
  committed_stays = k.committed;
}

Advances-trans : (r s t : Raft) → Advances r s → Advances s t → Advances r t
Advances-trans r s t h k = record {
  well_formed = k.well_formed;
  commit_grows = omega (arith, h.commit_grows, k.commit_grows);
  applied_grows = omega (arith, h.applied_grows, k.applied_grows);
  committed_stays =
      λ n l. k.committed_stays n (omega (arith, h.commit_grows)) ∙ h.committed_stays n l;
}

-- A well-formed follower that handles an append whose entries run on from `prev_seq`, and agree with
-- what it has committed, stays well formed; it moves neither mark back, and every entry up to its
-- commit mark stays as it is.
pub handle_append-Advances :
    (r : Raft) (from : PublicId) (epoch prev_seq prev_epoch : ℕ) (es : List Entry) (commit : ℕ)
    → IsWellFormed r
    → Contiguous prev_seq es
    → All (Agrees r) es
    → Advances r (handle_append r from epoch prev_seq prev_epoch es commit).0
unfolding handle_append
handle_append-Advances r from epoch prev_seq prev_epoch es commit w d a =
    let r1 = (follow r from epoch).0 in
    let same = follow-SameLog r from epoch in
    let w1 = SameLog-IsWellFormed r r1 same w in
    let adv1 = SameLog-Advances r r1 same w in
    elim (Bool-cases (ltb epoch r.epoch)) [
      | inl old ↦ rw old (Advances-refl r w)
      | inr new ↦ elim (Bool-cases (prev_matches r1 prev_seq prev_epoch)) [
        | inr bad ↦ rw (new, bad) adv1
        | inl good ↦
            let le = prev_matches-le r1 prev_seq prev_epoch w1.contiguous good in
            let a1 = SameLog-Agrees r r1 es same a in
            let k = absorb-Keeps r1 es none prev_seq w1.contiguous w1.commit_last le d a1 in
            let r2 = (absorb r1 es none).0 in
            let adv2 = Keeps-Advances r1 r2 k w1 in
            rw (new, good)
              (Advances-trans r r1 _ adv1 (
                Advances-trans r1 r2 _ adv2 (take_commit-Advances r2 from commit adv2.well_formed)))
      ]
    ]

-- Installing a snapshot leaves a well-formed node well formed, whatever the message says, and never
-- moves what it has applied back.
pub handle_install_snapshot-IsWellFormed :
    (r : Raft) (from : PublicId) (epoch last_seq last_epoch : ℕ) (state : Bytes)
    → IsWellFormed r
    → let s = (handle_install_snapshot r from epoch last_seq last_epoch state).0 in
      IsWellFormed s × (r.applied ≤ s.applied)
unfolding handle_install_snapshot
handle_install_snapshot-IsWellFormed r from epoch last_seq last_epoch state w =
    let r1 = (follow r from epoch).0 in
    let same = follow-SameLog r from epoch in
    let w1 = SameLog-IsWellFormed r r1 same w in
    elim (Bool-cases (ltb epoch r.epoch)) [
      | inl old ↦ rw old (w, le_refl r.applied)
      | inr new ↦ elim (Bool-cases (leb last_seq r1.applied)) [
        | inl stale ↦ rw (new, stale) (w1, ground arith)
        | inr fresh ↦
            rw (new, fresh)
              (
                record {
                  contiguous = tt;
                  base_applied = le_refl last_seq;
                  applied_commit = le_refl last_seq;
                  commit_last = omega arith;
                },
                ground (arith, same.applied_same),
              )
      ]
    ]
