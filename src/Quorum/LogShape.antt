-- ===== src/Quorum/LogShape.antt =====
-- The log of crates/rf-core/src/quorum.rs is contiguous from the snapshot point, and the marks
-- `base_seq`, `applied`, `commit` and the last entry stand in this order.
use randall_flare.Prelude.{
  ℕ, zero, suc, ◌+◌, ◌-◌, ◌≤◌, ◌<◌, ◌≡◌, refl, Option, none, some, Bool, true, false, List, [], ◌∷◌,
  ◌++◌, length, take, drop, get_elem?, get_last?, arith, leb, length-drop, Option-cases, Bool-cases,
  inl, inr,
}
use randall_flare.Identity.{PublicId}
use randall_flare.Quorum.State.{Entry, Raft, last, entry, epoch_of, compact, restore}

-- The sequence numbers run on from `s`.
abbrev pub Contiguous : ℕ → List Entry → Type 0
Contiguous s [] = Unit
Contiguous s (e ∷ es) = (e.seq ≡ suc s) × Contiguous (suc s) es

pub record IsWellFormed (r : Raft) : Type 0 where
  pub contiguous : Contiguous r.base_seq r.log
  pub base_applied : r.base_seq ≤ r.applied
  pub applied_commit : r.applied ≤ r.commit
  pub commit_last : r.commit ≤ r.base_seq + length r.log

last_of :
    (s d : ℕ) (es : List Entry) (x : Entry)
    → Contiguous s es
    → get_last? es ≡ some x
    → x.seq ≡ s + length es
last_of s d [] x c h = ground arith
last_of s d (e ∷ []) x c h = ground arith
last_of s d (e ∷ f ∷ es) x c h = omega (arith, last_of (suc s) d (f ∷ es) x c.1 h)

no_last : (es : List Entry) → get_last? es ≡ none → length es ≡ 0
no_last [] h = refl
no_last (e ∷ []) h = cc
no_last (e ∷ f ∷ es) h = absurd (omega (arith, no_last (f ∷ es) h))

-- The last sequence number, by the length of the log.
pub last-length : (r : Raft) → Contiguous r.base_seq r.log → (last r).1 ≡ r.base_seq + length r.log
unfolding last
last-length r c = elim (Option-cases (get_last? r.log)) [
  | inl e ↦ rw (e, last) (omega (arith, no_last r.log e))
  | inr (x, e) ↦ rw (e, last) (last_of r.base_seq 0 r.log x c e)
]

get_elem?-Contiguous :
    (s i : ℕ) (es : List Entry) (x : Entry)
    → Contiguous s es
    → get_elem? es i ≡ some x
    → (x.seq ≡ s + i + 1) × (i < length es)
get_elem?-Contiguous s i [] x c h = cc
get_elem?-Contiguous s zero (e ∷ es) x c h = ground arith
get_elem?-Contiguous s (suc i) (e ∷ es) x c h =
    omega (arith, get_elem?-Contiguous (suc s) i es x c.1 h)

get_elem?-some : (i : ℕ) (es : List Entry) → i < length es → (x : Entry) × (get_elem? es i ≡ some x)
get_elem?-some i [] h = absurd (omega arith)
get_elem?-some zero (e ∷ es) h = (e, refl)
get_elem?-some (suc i) (e ∷ es) h = get_elem?-some i es (omega arith)

-- What `entry` finds stands at the sequence number that was asked for.
pub entry_at :
    (r : Raft) (n : ℕ) (x : Entry)
    → Contiguous r.base_seq r.log
    → entry r n ≡ some x
    → (x.seq ≡ n) × (r.base_seq < n) × (n ≤ r.base_seq + length r.log)
unfolding entry
entry_at r n x c h = ground (arith, get_elem?-Contiguous r.base_seq (n - r.base_seq - 1) r.log x c)

pub entry-some :
    (r : Raft) (n : ℕ)
    → r.base_seq < n
    → n ≤ r.base_seq + length r.log
    → (x : Entry) × (entry r n ≡ some x)
unfolding entry
entry-some r n h k =
    let (x, e) = get_elem?-some (n - r.base_seq - 1) r.log (omega arith) in (x, ground arith)

pub Contiguous-take : (s n : ℕ) (es : List Entry) → Contiguous s es → Contiguous s (take n es)
Contiguous-take s zero es c = tt
Contiguous-take s (suc n) [] c = tt
Contiguous-take s (suc n) (e ∷ es) c = (c.0, Contiguous-take (suc s) n es c.1)

pub Contiguous-drop :
    (s t n : ℕ) (es : List Entry)
    → n ≤ length es
    → t ≡ s + n
    → Contiguous s es
    → Contiguous t (drop n es)
Contiguous-drop s t zero es h e c = let q : t ≡ s = omega arith in rw q c
Contiguous-drop s t (suc n) [] h e c = absurd (omega arith)
Contiguous-drop s t (suc n) (x ∷ es) h e c =
    Contiguous-drop (suc s) t n es (omega arith) (omega arith) c.1

-- A new entry behind a prefix of the log.
pub Contiguous-push :
    (s n : ℕ) (es : List Entry) (x : Entry)
    → n ≤ length es
    → x.seq ≡ s + n + 1
    → Contiguous s es
    → Contiguous s (take n es ++ x ∷ [])
Contiguous-push s zero es x h e c = (omega arith, tt)
Contiguous-push s (suc n) [] x h e c = absurd (omega arith)
Contiguous-push s (suc n) (y ∷ es) x h e c =
    (c.0, Contiguous-push (suc s) n es x (omega arith) (omega arith) c.1)

-- A node that restarts from stored state whose log is contiguous is well formed, if its log reaches
-- what it has applied.
pub restore-IsWellFormed :
    (me : PublicId) (group : List PublicId) (epoch : ℕ) (voted_for : Option PublicId)
    (base_seq base_epoch : ℕ) (log : List Entry) (applied : ℕ)
    → Contiguous base_seq log
    → applied ≤ base_seq + length log
    → IsWellFormed (restore me group epoch voted_for base_seq base_epoch log applied)
unfolding restore
restore-IsWellFormed me group epoch voted_for base_seq base_epoch log applied c h = record {
  contiguous = c;
  base_applied = omega arith;
  applied_commit = omega arith;
  commit_last = omega arith;
}

get_elem?-drop :
    (d i j : ℕ) (es : List Entry) → j ≡ d + i → get_elem? (drop d es) i ≡ get_elem? es j
get_elem?-drop zero i j es e = let q : j ≡ i = omega arith in rw q
get_elem?-drop (suc d) i j [] e = refl
get_elem?-drop (suc d) i zero (x ∷ es) e = absurd (omega arith)
get_elem?-drop (suc d) i (suc j) (x ∷ es) e = get_elem?-drop d i j es (omega arith)

abbrev Compacted : Raft → Raft × Bool → Type 0
Compacted r t =
    IsWellFormed t.0
    × (t.0.base_seq ≤ r.applied)
    × ((n : ℕ) → t.0.base_seq < n → entry t.0 n ≡ entry r n)
    × (t.1 ≡ true → epoch_of (entry r t.0.base_seq) ≡ some t.0.base_epoch)

Compacted-at :
    (r : Raft) (base : ℕ) (x : Entry)
    → IsWellFormed r
    → r.base_seq < base
    → base ≤ r.applied
    → entry r base ≡ some x
    → Compacted r (
      record r { log = drop (base - r.base_seq) r.log; base_seq = base; base_epoch = x.epoch },
      true,
    )
unfolding entry
Compacted-at r base x w lt le at = (
  record {
    contiguous =
        Contiguous-drop r.base_seq base (base - r.base_seq) r.log (omega arith) (omega arith)
          w.contiguous;
    base_applied = le;
    applied_commit = w.applied_commit;
    commit_last = omega (arith, length-drop (base - r.base_seq) r.log);
  },
  le,
  λ n h.
      ground (arith, get_elem?-drop (base - r.base_seq) (n - base - 1) (n - r.base_seq - 1) r.log),
  λ _. ground arith,
)

-- Compaction keeps a node well formed, drops nothing that is not applied, and keeps every entry
-- above the new snapshot point, whose epoch it records.
pub compact-IsWellFormed :
    (r : Raft) (keep_tail : ℕ)
    → IsWellFormed r
    → let s = (compact r keep_tail).0 in
      IsWellFormed s
      × (s.base_seq ≤ r.applied)
      × ((n : ℕ) → s.base_seq < n → entry s n ≡ entry r n)
      × ((compact r keep_tail).1 ≡ true → epoch_of (entry r s.base_seq) ≡ some s.base_epoch)
unfolding compact
compact-IsWellFormed r keep_tail w =
    let kept : Compacted r (r, false) = (w, w.base_applied, λ n h. refl, λ e. cc) in
    elim (Bool-cases (leb (r.applied - keep_tail) r.base_seq)) [
      | inl low ↦ rw low kept
      | inr high ↦
          let (x, at) = entry-some r (r.applied - keep_tail) (ground arith) (omega arith) in
          rw (high, at) (Compacted-at r (r.applied - keep_tail) x w (ground arith) (omega arith) at)
    ]
