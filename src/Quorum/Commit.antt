-- ===== src/Quorum/Commit.antt =====
-- Committing and applying in crates/rf-core/src/quorum.rs: which entry a leader may commit, and what
-- a node hands to its state machine.
use randall_flare.Prelude.{
  ℕ, zero, suc, ◌+◌, ◌-◌, ◌≤◌, ◌<◌, ◌≡◌, ◌⊎◌, inl, inr, refl, none, some, true, List, [], ◌∷◌,
  length, get_elem?, map, arith, u64_mod, add_u64, leb, filter, dec_lt, Bool-cases, ltb,
  if◌then◌else◌, ap, ◌∙◌,
}
use randall_flare.Identity.{PublicId}
use randall_flare.Quorum.State.{Entry, Action, Raft, last, entry, epoch_of, majority}
use randall_flare.Quorum.Leading.{
  apply_rounds, apply_committed, commit_matched, highest_committed, replicas, is_epoch,
}
use randall_flare.Quorum.Frames.{apply_rounds-fields}
use randall_flare.Quorum.LogShape.{IsWellFormed, last-length, entry-some}

-- Entries `n + 1` to `n + k` of the log.
abbrev pub entries_from : Raft → ℕ → ℕ → List Entry
entries_from r n zero = []
entries_from r n (suc k) = elim (entry r (n + 1)) [
  | none ↦ entries_from r (n + 1) k
  | some e ↦ e ∷ entries_from r (n + 1) k
]

entries_from_frame :
    (r : Raft) (a n k : ℕ) → entries_from (record r { applied = a }) n k ≡ entries_from r n k
unfolding entry
entries_from_frame r a n zero = refl
entries_from_frame r a n (suc k) = ground (arith, entries_from_frame r a (n + 1) k)

apply_rounds-actions :
    (k : ℕ) (r : Raft) → (apply_rounds k r).1 ≡ map Action.apply (entries_from r r.applied k)
unfolding apply_rounds
apply_rounds-actions zero r = refl
apply_rounds-actions (suc k) r = ground (
  arith,
  apply_rounds-actions k (record r { applied = r.applied + 1 }),
  entries_from_frame r (r.applied + 1) (r.applied + 1) k,
)

-- In a contiguous log nothing is missing.
entries_from-length :
    (r : Raft) (n k : ℕ)
    → r.base_seq ≤ n
    → n + k ≤ r.base_seq + length r.log
    → length (entries_from r n k) ≡ k
entries_from-length r n zero h l = refl
entries_from-length r n (suc k) h l =
    let (x, e) = entry-some r (n + 1) (omega arith) (omega arith) in
    ground (arith, e, entries_from-length r (n + 1) k (omega arith) (omega arith))

-- The one at index `i` is entry `n + 1 + i`.
pub entries_from-get :
    (r : Raft) (n k i j : ℕ)
    → r.base_seq ≤ n
    → n + k ≤ r.base_seq + length r.log
    → i < k
    → j ≡ n + 1 + i
    → get_elem? (entries_from r n k) i ≡ entry r j
entries_from-get r n zero i j h l lt q = absurd (omega arith)
entries_from-get r n (suc k) zero j h l lt q =
    let (x, e) = entry-some r (n + 1) (omega arith) (omega arith) in
    let here : j ≡ n + 1 = omega arith in ground (arith, e)
entries_from-get r n (suc k) (suc i) j h l lt q =
    let (x, e) = entry-some r (n + 1) (omega arith) (omega arith) in
    ground (
      arith,
      e,
      entries_from-get r (n + 1) k i j (omega arith) (omega arith) (omega arith) (omega arith),
    )

-- A well-formed node hands its state machine every entry from the one after `applied` up to
-- `commit`, each once and in order, and `applied` ends at `commit`; nothing else of it changes.
pub apply_committed-applies :
    (r : Raft)
    → IsWellFormed r
    → ((apply_committed r).0 ≡ record r { applied = r.commit })
      × ((apply_committed r).1 ≡ map Action.apply (entries_from r r.applied (r.commit - r.applied)))
      × (length (entries_from r r.applied (r.commit - r.applied)) ≡ r.commit - r.applied)
unfolding apply_committed
apply_committed-applies r w = (
  ground (arith, apply_rounds-fields (r.commit - r.applied) r, w.applied_commit),
  apply_rounds-actions (r.commit - r.applied) r,
  entries_from-length r r.applied (r.commit - r.applied) w.base_applied
      (omega (arith, w.applied_commit, w.commit_last)),
)

-- More replicas hold an earlier entry than a later one.
filter_antitone :
    (matched : List (PublicId × ℕ)) (m n : ℕ)
    → m ≤ n
    → length (filter (λ p. leb n p.1) matched) ≤ length (filter (λ p. leb m p.1) matched)
unfolding filter
filter_antitone [] m n h = omega arith
filter_antitone ((p, k) ∷ ps) m n h = ground (arith, filter_antitone ps m n h)

replicas_antitone :
    (matched : List (PublicId × ℕ)) (m n : ℕ) → m ≤ n → replicas matched n ≤ replicas matched m
unfolding replicas
replicas_antitone matched m n h = omega (arith, filter_antitone matched m n h)

-- What the commit rule asks of entry `n`: a majority has it, and it is of the leader's own epoch.
abbrev pub Committable : Raft → List (PublicId × ℕ) → ℕ → Type 0
Committable r matched n =
    (majority r ≤ replicas matched n) × (is_epoch (epoch_of (entry r n)) r.epoch ≡ true)

-- `c` is the old mark, or an entry in range that the rule allows.
abbrev Found : Raft → List (PublicId × ℕ) → ℕ → ℕ → ℕ → ℕ → Type 0
Found r matched old lo hi c = (c ≡ old) ⊎ ((lo ≤ c) × (c < hi) × Committable r matched c)

module _ (r : Raft) (matched : List (PublicId × ℕ)) where
  widen :
      (old lo hi hi' c : ℕ) → hi ≤ hi' → Found r matched old lo hi c → Found r matched old lo hi' c
  widen old lo hi hi' c h (inl e) = inl e
  widen old lo hi hi' c h (inr f) = inr (f.0, omega arith, f.2)

  highest_committed-Found :
      (k n best old lo : ℕ)
      → lo ≤ n
      → Found r matched old lo n best
      → Found r matched old lo (n + k) (highest_committed k r matched n best)
  unfolding highest_committed
  highest_committed-Found zero n best old lo h f = widen old lo n (n + 0) best (omega arith) f
  highest_committed-Found (suc k) n best old lo h f =
      elim (Bool-cases (leb (majority r) (replicas matched n))) [
        | inr few ↦ rw few (widen old lo n (n + suc k) best (omega arith) f)
        | inl many ↦
            let shift : n + 1 + k ≡ n + suc k = omega arith in
            elim (Bool-cases (is_epoch (epoch_of (entry r n)) r.epoch)) [
              | inl own ↦
                  let here : Committable r matched n = (ground arith, own) in
                  rw (many, own)
                    (rw shift at (
                      highest_committed-Found k (n + 1) n old lo (omega arith)
                        (inr (h, omega arith, here))))
              | inr other ↦
                  rw (many, other)
                    (rw shift at (
                      highest_committed-Found k (n + 1) best old lo (omega arith)
                        (widen old lo n (n + 1) best (omega arith) f)))
            ]
      ]

  highest_committed-ge : (k n best : ℕ) → best ≤ n → best ≤ highest_committed k r matched n best
  unfolding highest_committed
  highest_committed-ge zero n best h = omega arith
  highest_committed-ge (suc k) n best h =
      ground (arith, highest_committed-ge k (n + 1) n, highest_committed-ge k (n + 1) best)

  highest_committed-last :
      (k n best m : ℕ)
      → best ≤ n
      → n ≤ m
      → m < n + k
      → Committable r matched m
      → m ≤ highest_committed k r matched n best
  unfolding highest_committed
  highest_committed-last zero n best m h l lt c = absurd (omega arith)
  highest_committed-last (suc k) n best m h l lt c =
      let fewer = replicas_antitone matched n m l in
      elim (dec_lt n m) [
        | yes more ↦ ground (
          arith,
          fewer,
          highest_committed-last k (n + 1) n m,
          highest_committed-last k (n + 1) best m,
        )
        | no here ↦ let e : m ≡ n = omega arith in ground (arith, highest_committed-ge k (n + 1) n)
      ]

  commit_matched-commit :
      r.commit + 1 < u64_mod
      → let start = add_u64 r.commit 1 in
        (commit_matched r matched).0.commit
        ≡ highest_committed ((last r).1 + 1 - start) r matched start r.commit
  unfolding commit_matched apply_committed
  commit_matched-commit small =
      let start = add_u64 r.commit 1 in
      let best = highest_committed ((last r).1 + 1 - start) r matched start r.commit in
      let ge : r.commit ≤ best =
        highest_committed-ge ((last r).1 + 1 - start) start r.commit (omega (arith, small)) in
      let mark = if ltb r.commit best then best else r.commit in
      let at : mark ≡ best = ground (arith, ge) in
      let applied = apply_rounds-fields (mark - r.applied) (record r { commit = mark }) in
      ap (λ (s : Raft). s.commit) applied ∙ at

  -- The commit mark of a well-formed leader moves to the last entry that a majority is recorded to
  -- have and that is of its own epoch, if there is one past the mark, and stays otherwise: the early
  -- end of the loop misses none. The commit mark is below 2^64 - 1.
  pub commit_matched_rule :
      IsWellFormed r
      → r.commit + 1 < u64_mod
      → let c = (commit_matched r matched).0.commit in
        ((c ≡ r.commit) ⊎ ((r.commit < c) × (c ≤ (last r).1) × Committable r matched c))
        × ((n : ℕ) → r.commit < n → n ≤ (last r).1 → Committable r matched n → n ≤ c)
  commit_matched_rule w small =
      let k = (last r).1 - r.commit in
      let start : add_u64 r.commit 1 ≡ r.commit + 1 = omega arith in
      let rounds : (last r).1 + 1 - (r.commit + 1) ≡ k = omega arith in
      let top : r.commit + 1 + k ≡ (last r).1 + 1 =
        omega (arith, last-length r w.contiguous, w.commit_last) in
      let found =
        highest_committed-Found k (r.commit + 1) r.commit r.commit (r.commit + 1) (omega arith)
          (inl refl) in
      (
        rw (commit_matched-commit small, start, rounds) (ground (arith, found)),
        λ n h l c.
            rw (commit_matched-commit small, start, rounds)
              (highest_committed-last k (r.commit + 1) r.commit n (omega arith) (omega arith)
                (omega arith) c),
      )
