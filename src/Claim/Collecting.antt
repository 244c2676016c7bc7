-- ===== src/Claim/Collecting.antt =====
-- `gc` of crates/rf-core/src/claim.rs, and what it forgets.
use randall_flare.Prelude.{
  ℕ, ◌≤◌, ◌≡◌, refl, ap, ◌∙◌, none, some, true, false, [], ◌∷◌, map, filter, arith, Bool-cases, inl,
  inr,
}
use randall_flare.Prelude.Order.{Bytes, bytes_ord}
use randall_flare.Prelude.Table
use randall_flare.Prelude.Table.{Table, IsSorted, Above}
use randall_flare.Prelude.Table.Laws.{get-Above, get-retain}
use randall_flare.Identity.{PublicId}
use randall_flare.Claim.{
  ClaimRecord, ClaimSet, live, records, earliest, winner, kept, gc, gc_tasks, or_empty, mine,
}

-- A record that is dropped is dead from then on.
dropped_dead :
    (r : ClaimRecord) (now horizon t : ℕ)
    → now ≤ t
    → kept now horizon r ≡ false
    → live r.claim t ≡ false
unfolding live
dropped_dead r now horizon t h k = ground arith

gc-get-Above :
    (now horizon : ℕ) (task : Bytes) (tasks : Table Bytes (Table Bytes ClaimRecord))
    → Above task tasks
    → Above task (gc_tasks now horizon tasks).0
unfolding gc_tasks
gc-get-Above now horizon task [] a = tt
gc-get-Above now horizon task ((k, per_task) ∷ tasks) a =
    ground (arith, gc-get-Above now horizon task tasks a.1)

-- What is left of a task's records.
abbrev left : ℕ → ℕ → Table Bytes ClaimRecord → Table Bytes ClaimRecord
left now horizon t = Table.retain (λ _ r. kept now horizon r) t

or_empty-gc :
    (now horizon : ℕ) (task : Bytes) (tasks : Table Bytes (Table Bytes ClaimRecord))
    → IsSorted tasks
    → or_empty (Table.get (gc_tasks now horizon tasks).0 task)
      ≡ left now horizon (or_empty (Table.get tasks task))
unfolding gc_tasks Table.get Table.retain
or_empty-gc now horizon task [] s = refl
or_empty-gc now horizon task ((k, per_task) ∷ tasks) s = ground (
  arith,
  or_empty-gc now horizon task tasks s.1,
  bytes_ord.cmp_eq k task,
  get-Above task (gc_tasks now horizon tasks).0,
  gc-get-Above now horizon task tasks,
)

live-left :
    (now horizon t : ℕ) (table : Table Bytes ClaimRecord)
    → now ≤ t
    → filter (λ r. live r.claim t) (map (λ (p : Bytes × ClaimRecord). p.1) (left now horizon table))
      ≡ filter (λ r. live r.claim t) (map (λ (p : Bytes × ClaimRecord). p.1) table)
unfolding filter Table.retain
live-left now horizon t [] h = refl
live-left now horizon t ((k, r) ∷ table) h = elim (Bool-cases (kept now horizon r)) [
  | inl stays ↦ rw (stays, live-left now horizon t table h) refl
  | inr goes ↦ rw (goes, dropped_dead r now horizon t h goes, live-left now horizon t table h) refl
]

-- A collection changes no winner at its own time or later, where the tasks are in key order.
pub winner-gc :
    (set : ClaimSet) (task : Bytes) (now horizon t : ℕ)
    → IsSorted set.tasks
    → now ≤ t
    → winner (gc set now horizon).0 task t ≡ winner set task t
unfolding winner records gc
winner-gc set task now horizon t s h =
    ap (λ x. earliest (filter (λ r. live r.claim t) (map (λ (p : Bytes × ClaimRecord). p.1) x)))
      (or_empty-gc now horizon task set.tasks s)
    ∙ ap earliest (live-left now horizon t (or_empty (Table.get set.tasks task)) h)

-- A collection drops a released record at once, whatever the horizon, where the tables are in key
-- order: the node forgets that the holder has released the task.
pub mine-gc_released :
    (set : ClaimSet) (task : Bytes) (me : PublicId) (now horizon : ℕ) (r : ClaimRecord)
    → IsSorted set.tasks
    → IsSorted (or_empty (Table.get set.tasks task))
    → mine set task me ≡ some r
    → r.claim.released ≡ true
    → mine (gc set now horizon).0 task me ≡ none
unfolding mine gc
mine-gc_released set task me now horizon r s u h done =
    let drop : kept now horizon r ≡ false = rw done refl in
    ap (λ x. Table.get x me.bytes) (or_empty-gc now horizon task set.tasks s)
    ∙ (get-retain (λ _ x. kept now horizon x) me.bytes (or_empty (Table.get set.tasks task)) u
        ∙ rw (h, drop) refl)
