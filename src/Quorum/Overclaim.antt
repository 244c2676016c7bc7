-- ===== src/Quorum/Overclaim.antt =====
-- What a follower's answer says of its log in crates/rf-core/src/quorum.rs, and what a leader makes of
-- it: an answer speaks for the whole log, not for the part that the leader's message vouched for.
use randall_flare.Prelude.{
  ℕ, zero, suc, subst, ◌+◌, ◌-◌, ◌≤◌, ◌<◌, ◌≡◌, ◌∙◌, sym, ap, refl, min, some, true, false, List,
  [], ◌∷◌, ◌++◌, arith, ltb, length, length-append, inl, inr, u64_mod, add_u64, Bool-cases,
  get_elem?, get_last?,
}
use randall_flare.Prelude.Order.{Bytes}
use randall_flare.Prelude.Members.{In, In-append_right}
use randall_flare.Identity.{PublicId}
use randall_flare.Quorum.State.{Entry, Action, leading, Raft, majority, last, entry, epoch_of}
use randall_flare.Quorum.Leading.{
  replicas, commit_matched, advance_commit, append_command, apply_committed, become_follower,
}
use randall_flare.Quorum.Handling.{follow, absorb, prev_matches, accept, take_commit, handle_append}
use randall_flare.Quorum.Frames.{apply_rounds-fields}
use randall_flare.Quorum.LogShape.{IsWellFormed, Contiguous, last-length}
use randall_flare.Quorum.Commit.{commit_matched_rule}

get_last?-push : (es : List Entry) (x : Entry) → get_last? (es ++ x ∷ []) ≡ some x
get_last?-push [] x = refl
get_last?-push (e ∷ []) x = refl
get_last?-push (e ∷ f ∷ es) x = get_last?-push (f ∷ es) x

get_elem?-last :
    (es : List Entry) (x : Entry) (i : ℕ) → i ≡ length es → get_elem? (es ++ x ∷ []) i ≡ some x
get_elem?-last [] x i e = rw e refl
get_elem?-last (y ∷ es) x zero e = absurd (omega arith)
get_elem?-last (y ∷ es) x (suc i) e = get_elem?-last es x i (omega arith)

Contiguous-snoc :
    (s : ℕ) (es : List Entry) (x : Entry)
    → x.seq ≡ s + length es + 1
    → Contiguous s es
    → Contiguous s (es ++ x ∷ [])
Contiguous-snoc s [] x e c = (omega arith, tt)
Contiguous-snoc s (y ∷ es) x e c = (c.0, Contiguous-snoc (suc s) es x (omega arith) c.1)

follow-last : (r : Raft) (from : PublicId) (epoch : ℕ) → last (follow r from epoch).0 ≡ last r
unfolding follow become_follower last
follow-last r from epoch = ground arith

follow-commit : (r : Raft) (from : PublicId) (epoch : ℕ) → (follow r from epoch).0.commit ≡ r.commit
unfolding follow become_follower
follow-commit r from epoch = ground arith

take_commit-mark :
    (r : Raft) (from : PublicId) (commit : ℕ)
    → let (s, actions) = take_commit r from commit in
      In (accept s from (last r).1) actions × (r.commit < commit → s.commit ≡ min commit (last r).1)
unfolding take_commit apply_committed
take_commit-mark r from commit =
    let m = min commit (last r).1 in
    let (s, actions) = take_commit r from commit in
    elim (Bool-cases (ltb r.commit commit)) [
      | inl high ↦ rw high (
        In-append_right _ (apply_committed (record r { commit = m })).1 _ (inl refl),
        λ h. ground (arith, apply_rounds-fields (m - r.applied) (record r { commit = m })),
      )
      | inr low ↦ rw low (inl refl, λ h. absurd (ground arith))
    ]

-- A follower that accepts an append without entries, which vouches for its log up to `prev_seq` only,
-- answers with the last sequence number of its whole log, and commits up to there if the leader's
-- commit mark allows.
pub heartbeat_claims_all :
    (r : Raft) (from : PublicId) (epoch prev_seq prev_epoch commit : ℕ)
    → r.epoch ≤ epoch
    → prev_matches (follow r from epoch).0 prev_seq prev_epoch ≡ true
    → let (s, actions) = handle_append r from epoch prev_seq prev_epoch [] commit in
      In (accept s from (last r).1) actions × (r.commit < commit → s.commit ≡ min commit (last r).1)
unfolding handle_append absorb
heartbeat_claims_all r from epoch prev_seq prev_epoch commit h good =
    let r1 = (follow r from epoch).0 in
    let new : ltb epoch r.epoch ≡ false = ground arith in
    let (claim, mark) = take_commit-mark r1 from commit in
    let size = follow-last r from epoch in
    let s = (take_commit r1 from commit).0 in
    let answered = (follow r from epoch).1 ++ (take_commit r1 from commit).1 in
    let at_last : In (accept s from (last r).1) answered =
      subst (λ (p : ℕ × ℕ). In (accept s from p.1) answered) size
        (In-append_right (accept s from (last r1).1) (follow r from epoch).1
          (take_commit r1 from commit).1 claim) in
    let to_last : r.commit < commit → s.commit ≡ min commit (last r).1 = λ lt.
      mark (omega (arith, follow-commit r from epoch)) ∙ ap (λ (p : ℕ × ℕ). min commit p.1) size in
    rw (new, good) (at_last, to_last)

-- The last sequence number once an entry is appended.
last_push : (r : Raft) (x : Entry) → last (record r { log = r.log ++ x ∷ [] }) ≡ (x.epoch, x.seq)
unfolding last
last_push r x = rw (get_last?-push r.log x, last) refl

pub entry_push :
    (r : Raft) (x : Entry)
    → x.seq ≡ r.base_seq + length r.log + 1
    → entry (record r { log = r.log ++ x ∷ [] }) x.seq ≡ some x
unfolding entry
entry_push r x e = ground (arith, get_elem?-last r.log x (x.seq - r.base_seq - 1))

pub leading_advance :
    (r : Raft) (next matched : List (PublicId × ℕ))
    → r.role ≡ leading next matched
    → advance_commit r ≡ commit_matched r matched
unfolding advance_commit
leading_advance r next matched e = ground arith

-- A well-formed leader whose record has a majority past the end of its own log commits its next
-- command in the step in which it is proposed, while the sequence numbers have room.
pub next_command_commits :
    (r : Raft) (cmd : Bytes) (next matched : List (PublicId × ℕ))
    → IsWellFormed r
    → r.role ≡ leading next matched
    → (last r).1 + 1 < u64_mod
    → majority r ≤ replicas matched ((last r).1 + 1)
    → (append_command r cmd).0.commit ≡ (last r).1 + 1
unfolding append_command majority
next_command_commits r cmd next matched w ro small many =
    let seq = add_u64 (last r).1 1 in
    let top = last-length r w.contiguous in
    let at : seq ≡ (last r).1 + 1 = omega arith in
    let x : Entry = record { epoch = r.epoch; seq = seq; cmd = cmd } in
    let r' = record r { log = r.log ++ x ∷ [] } in
    let w' : IsWellFormed r' = record {
      contiguous = Contiguous-snoc r.base_seq r.log x (omega (arith, top, at)) w.contiguous;
      base_applied = w.base_applied;
      applied_commit = w.applied_commit;
      commit_last = omega (arith, w.commit_last, length-append r.log (x ∷ []));
    } in
    let end : (last r').1 ≡ seq = ap (λ (p : ℕ × ℕ). p.1) (last_push r x) in
    let own : epoch_of (entry r' seq) ≡ some r.epoch =
      ap epoch_of (entry_push r x (omega (arith, top, at))) in
    let rule = commit_matched_rule r' matched w' (omega (arith, w.commit_last, top)) in
    let low =
      rule.1 seq (omega (arith, w.commit_last, top, at)) (omega (arith, end))
        (subst (λ n. majority r ≤ replicas matched n) (sym at) many, rw own (ground arith)) in
    let high : (commit_matched r' matched).0.commit ≤ seq = elim rule.0 [
      | inl q ↦ omega (arith, q, w.commit_last, top, at)
      | inr q ↦ omega (arith, q.1, end)
    ] in
    let led = ap (λ (q : Raft × List Action). q.0.commit) (leading_advance r' next matched ro) in
    omega (arith, led, low, high, at)
