-- ===== src/Quorum/Absorbing.antt =====
-- The loop of crates/rf-core/src/quorum.rs that takes a leader's entries into a follower's log.
use randall_flare.Prelude.{
  ℕ, zero, suc, ◌+◌, ◌-◌, ◌≤◌, ◌<◌, ◌≡◌, ◌≢◌, dec_lt, refl, Option, some, List, [], ◌∷◌, ◌++◌, All,
  length, take, get_elem?, arith, leb, ◌==◌, length-append, length-take, Option-cases, Bool-cases,
  inl, inr,
}
use randall_flare.Quorum.State.{Entry, Raft, entry, epoch_of}
use randall_flare.Quorum.Handling.{overwrite, absorb_one, absorb}
use randall_flare.Quorum.LogShape.{Contiguous, Contiguous-push, entry_at}

-- An entry of a message that stands at or below the commit mark is the one held there: what Raft
-- gives for a leader of the current epoch.
abbrev pub Agrees : Raft → Entry → Type 0
Agrees r e = r.base_seq < e.seq → e.seq ≤ r.commit → epoch_of (entry r e.seq) ≡ some e.epoch

get_elem?-push :
    (k i : ℕ) (es : List Entry) (x : Entry)
    → i < k
    → k ≤ length es
    → get_elem? (take k es ++ x ∷ []) i ≡ get_elem? es i
get_elem?-push zero i es x h l = absurd (omega arith)
get_elem?-push (suc k) i [] x h l = absurd (omega arith)
get_elem?-push (suc k) zero (e ∷ es) x h l = refl
get_elem?-push (suc k) (suc i) (e ∷ es) x h l = get_elem?-push k i es x (omega arith) (omega arith)

length-push :
    (k : ℕ) (es : List Entry) (x : Entry) → k ≤ length es → length (take k es ++ x ∷ []) ≡ k + 1
length-push k es x h = omega (arith, length-append (take k es) (x ∷ []), length-take k es)

-- What one round, and the loop, keep of a log that reaches the commit mark.
pub record Keeps (r s : Raft) : Type 0 where
  pub contiguous : Contiguous s.base_seq s.log
  pub reaches : s.commit ≤ s.base_seq + length s.log
  pub same_base : s.base_seq ≡ r.base_seq
  pub same_commit : s.commit ≡ r.commit
  pub same_applied : s.applied ≡ r.applied
  pub committed : (n : ℕ) → n ≤ r.commit → entry s n ≡ entry r n

Keeps-refl :
    (r : Raft) → Contiguous r.base_seq r.log → r.commit ≤ r.base_seq + length r.log → Keeps r r
Keeps-refl r c h = record {
  contiguous = c;
  reaches = h;
  same_base = refl;
  same_commit = refl;
  same_applied = refl;
  committed = λ n l. refl;
}

overwrite-Keeps :
    (r : Raft) (e : Entry)
    → Contiguous r.base_seq r.log
    → r.commit ≤ r.base_seq + length r.log
    → r.base_seq < e.seq
    → r.commit < e.seq
    → e.seq ≤ r.base_seq + length r.log + 1
    → Keeps r (overwrite r e) × (e.seq ≤ (overwrite r e).base_seq + length (overwrite r e).log)
unfolding overwrite entry
overwrite-Keeps r e c h b lt le =
    let k = e.seq - r.base_seq - 1 in
    let size = length-push k r.log e (omega arith) in
    (
      record {
        contiguous = Contiguous-push r.base_seq k r.log e (omega arith) (omega arith) c;
        reaches = omega arith;
        same_base = refl;
        same_commit = refl;
        same_applied = refl;
        committed = λ n l. ground (arith, get_elem?-push k (n - r.base_seq - 1) r.log e);
      },
      omega arith,
    )

past_commit :
    (r : Raft) (e : Entry)
    → Agrees r e
    → r.base_seq < e.seq
    → epoch_of (entry r e.seq) ≢ some e.epoch
    → r.commit < e.seq
past_commit r e a b n = elim (dec_lt r.commit e.seq) [
  | yes lt ↦ lt
  | no ge ↦ absurd (n (a b (omega arith)))
]

absorb_one-Keeps :
    (r : Raft) (e : Entry) (p : Option ℕ)
    → Contiguous r.base_seq r.log
    → r.commit ≤ r.base_seq + length r.log
    → e.seq ≤ r.base_seq + length r.log + 1
    → Agrees r e
    → let s = (absorb_one r e p).0 in Keeps r s × (e.seq ≤ s.base_seq + length s.log)
unfolding absorb_one
absorb_one-Keeps r e p c h le a = elim (Bool-cases (leb e.seq r.base_seq)) [
  | inl low ↦ rw low (Keeps-refl r c h, ground arith)
  | inr high ↦ elim (Option-cases (entry r e.seq)) [
    | inl missing ↦
        rw (high, missing)
          (overwrite-Keeps r e c h (ground arith)
            (past_commit r e a (ground arith) (rw missing (λ q. cc))) le)
    | inr (x, held) ↦ elim (Bool-cases (x.epoch == e.epoch)) [
      | inl same ↦
          rw (high, held, same) (Keeps-refl r c h, omega (arith, entry_at r e.seq x c held))
      | inr other ↦
          rw (high, held, other)
            (overwrite-Keeps r e c h (ground arith)
              (past_commit r e a (ground arith) (rw held (λ q. ground arith))) le)
    ]
  ]
]

All-Agrees : (r s : Raft) (es : List Entry) → Keeps r s → All (Agrees r) es → All (Agrees s) es
All-Agrees r s [] k a = tt
All-Agrees r s (e ∷ es) k a =
    (λ b l. ground (arith, k.committed e.seq, a.0), All-Agrees r s es k a.1)

Keeps-trans : (r s t : Raft) → Keeps r s → Keeps s t → Keeps r t
Keeps-trans r s t k l = record {
  contiguous = l.contiguous;
  reaches = l.reaches;
  same_base = ground arith;
  same_commit = ground arith;
  same_applied = ground arith;
  committed = λ n h. ground (arith, k.committed n, l.committed n);
}

pub absorb-Keeps :
    (r : Raft) (es : List Entry) (p : Option ℕ) (prev : ℕ)
    → Contiguous r.base_seq r.log
    → r.commit ≤ r.base_seq + length r.log
    → prev ≤ r.base_seq + length r.log
    → Contiguous prev es
    → All (Agrees r) es
    → Keeps r (absorb r es p).0
unfolding absorb
absorb-Keeps r [] p prev c h le d a = Keeps-refl r c h
absorb-Keeps r (e ∷ es) p prev c h le d a =
    let (s, q) = absorb_one r e p in
    let (k, reach) = absorb_one-Keeps r e p c h (omega arith) a.0 in
    Keeps-trans r s _ k (
      absorb-Keeps s es q (suc prev) k.contiguous k.reaches (omega arith) d.1
        (All-Agrees r s es k a.1))
