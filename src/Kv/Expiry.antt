-- ===== src/Kv/Expiry.antt =====
-- Time in crates/rf-core/src/kv.rs: what a read sees, and what `gc` may drop.
use randall_flare.Prelude.{
  ℕ, ◌+◌, ◌-◌, ◌≤◌, ◌<◌, ◌≡◌, ◌≢◌, ◌↔◌, Option, none, some, false, length, arith, [], ◌∷◌, Bool,
  Option-cases, inl, inr,
}
use randall_flare.Prelude.Order.{Bytes, bytes_ord}
use randall_flare.Prelude.Table
use randall_flare.Prelude.Table.{Table, IsSorted}
use randall_flare.Prelude.Table.Laws.{get-insert, get-retain, retain-IsSorted, keep_if}
use randall_flare.Hlc.{Hlc}
use randall_flare.Identity.{PublicId}
use randall_flare.Kv.{KvEntry, Namespace, get, entry, put, visible, retained, gc, len}

-- What is written is read back until it expires, a tombstone reads as nothing, and no other key
-- changes.
pub get-put :
    (ns : Namespace) (k j : Bytes) (v : Option Bytes) (hlc : Hlc) (w : PublicId) (exp : Option ℕ)
    (t : ℕ)
    → (get (put ns k v hlc w exp).0 k t ≡ visible (put ns k v hlc w exp).1 t)
      × (k ≢ j → get (put ns k v hlc w exp).0 j t ≡ get ns j t)
unfolding get put
get-put ns k j v hlc w exp t = (
  ground (arith, get-insert k k (put ns k v hlc w exp).1 ns.entries, bytes_ord.cmp_self k),
  λ n. ground (arith, get-insert k j (put ns k v hlc w exp).1 ns.entries, bytes_ord.cmp_eq k j),
)

-- What `gc` drops, nobody could have read at that time or later.
dropped_invisible :
    (e : KvEntry) (now horizon t : ℕ)
    → now ≤ t
    → retained now horizon e ≡ false
    → visible e t ≡ none
unfolding visible
dropped_invisible e now horizon t h r = ground arith

pub entry-gc :
    (ns : Namespace) (k : Bytes) (now horizon : ℕ)
    → IsSorted ns.entries
    → entry (gc ns now horizon).0 k
      ≡ elim (entry ns k) [ none ↦ none | some e ↦ keep_if (retained now horizon e) e ]
unfolding entry gc
entry-gc ns k now horizon s = get-retain (λ _ e. retained now horizon e) k ns.entries s

-- In a namespace in key order, a collection changes no read at its own time or later.
pub get-gc :
    (ns : Namespace) (k : Bytes) (now horizon t : ℕ)
    → IsSorted ns.entries
    → now ≤ t
    → get (gc ns now horizon).0 k t ≡ get ns k t
unfolding get entry
get-gc ns k now horizon t s h = elim (Option-cases (entry ns k)) [
  | inl e ↦ ground (arith, entry-gc ns k now horizon s)
  | inr (x, e) ↦ ground (arith, entry-gc ns k now horizon s, dropped_invisible x now horizon t h)
]

-- In a namespace in key order, a collection keeps a tombstone exactly while its timestamp is less
-- than `horizon` milliseconds old.
pub tombstone-gc :
    (ns : Namespace) (k : Bytes) (now horizon : ℕ) (e : KvEntry)
    → IsSorted ns.entries
    → entry ns k ≡ some e
    → e.value ≡ none
    → (entry (gc ns now horizon).0 k ≡ some e) ↔ (now - e.hlc.wall_ms < horizon)
unfolding entry
tombstone-gc ns k now horizon e s h v = ground (arith, entry-gc ns k now horizon s)

retain-length :
    (p : Bytes → KvEntry → Bool) (t : Table Bytes KvEntry) → length (Table.retain p t) ≤ length t
unfolding Table.retain
retain-length p [] = omega arith
retain-length p ((k, e) ∷ t) = ground (arith, retain-length p t)

-- In a namespace in key order, the number that a collection returns is the number of entries that
-- are gone, and the keys stay in order.
pub len-gc :
    (ns : Namespace) (now horizon : ℕ)
    → IsSorted ns.entries
    → (len (gc ns now horizon).0 + (gc ns now horizon).1 ≡ len ns)
      × IsSorted (gc ns now horizon).0.entries
unfolding len gc
len-gc ns now horizon s = (
  omega (arith, retain-length (λ _ e. retained now horizon e) ns.entries),
  retain-IsSorted (λ _ e. retained now horizon e) ns.entries s,
)
