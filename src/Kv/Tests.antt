-- ===== src/Kv/Tests.antt =====
-- Runs of a namespace, and the theorems at concrete inputs.
use randall_flare.Prelude.{
  ℕ, ◌⊎◌, inl, inr, ap, sym, ◌∙◌, ◌≡◌, ◌≢◌, refl, none, some, [], ◌∷◌, ◌&&◌, arith, map, take,
  is_some,
}
use mathlib.Core.List.{Memᴰ}
use mathlib.Core.HLevel.{Π_prop}
use mathlib.Core.Logic.{∥∥₁_elim}
use randall_flare.Prelude.Order.{Bytes, bytes_ord, cmp_bytes}
use randall_flare.Prelude.Text.{ascii, starts_with}
use randall_flare.Prelude.Table
use randall_flare.Prelude.Table.{Table, IsSorted}
use randall_flare.Hlc.{Hlc}
use randall_flare.Identity.{PublicId}
use randall_flare.Identity.Toy.{toy}
use randall_flare.Kv.{
  KvEntry, Namespace, new, entry, get, merge, list, visible, apply_dump, dump, beats, digest, rank,
  value_hash, take_prefixed,
}
use randall_flare.Kv.Merging.{merge_comm, Unambiguous}
use randall_flare.Kv.Sync.{dump_apply_converges, Consistent}
use randall_flare.Kv.Listing.{list-eq-filter}
use randall_flare.Kv.Collision.{expiry_diverges, expiring, lasting}

abbrev pid : ℕ → PublicId
pid n = record { bytes = n ∷ [] }

abbrev at_ms : ℕ → Hlc
at_ms w = record { wall_ms = w; logical = 0 }

abbrev older : KvEntry
older = record { hlc = at_ms 1; writer = pid 1; value = some (ascii "old"); expires_at_ms = none }

abbrev newer : KvEntry
newer = record { hlc = at_ms 2; writer = pid 2; value = some (ascii "new"); expires_at_ms = none }

abbrev gone : KvEntry
gone = record { hlc = at_ms 2; writer = pid 1; value = none; expires_at_ms = none }

-- Two keys with a common prefix and one without.
abbrev three : Namespace
three = record { entries = (ascii "a/1", older) ∷ (ascii "a/2", gone) ∷ (ascii "b/1", newer) ∷ [] }

three-IsSorted : IsSorted three.entries
unfolding cmp_bytes
three-IsSorted = ((refl, (refl, tt)), ((refl, tt), (tt, tt)))

later_wins :
    get (merge toy (merge toy new (ascii "k") newer).0 (ascii "k") older).0 (ascii "k") 10
    ≡ some (ascii "new")
unfolding get merge new Table.get Table.insert beats rank value_hash cmp_bytes visible
later_wins = refl

lists_prefix : list three (ascii "a/") 10 10 ≡ ascii "a/1" ∷ []
unfolding list Table.retain take_prefixed starts_with visible cmp_bytes
lists_prefix = refl

distinct_times : Unambiguous toy older newer
unfolding rank
distinct_times e = cc

merge_comm_example :
    (merge toy (merge toy three (ascii "k") older).0 (ascii "k") newer).0
    ≡ (merge toy (merge toy three (ascii "k") newer).0 (ascii "k") older).0
merge_comm_example =
    merge_comm toy three (ascii "k") (ascii "k") older newer three-IsSorted (λ _. distinct_times)

three_first : entry three (ascii "a/1") ≡ some older
unfolding entry Table.get cmp_bytes
three_first = refl

abbrev one_key : KvEntry → Namespace
one_key e = record { entries = (ascii "k", e) ∷ [] }

only_entry : (e x : KvEntry) (k : Bytes) → entry (one_key e) k ≡ some x → x ≡ e
unfolding entry Table.get
only_entry e x k h = ground arith

differ : (x y : KvEntry) → x ≡ older → y ≡ newer → Unambiguous toy x y
differ x y p q = rw (p, q) distinct_times

dump_apply_converges_example :
    let b' = (apply_dump toy (one_key newer) (dump (one_key older))).0 in
    (apply_dump toy (one_key older) (dump b')).0 ≡ b'
dump_apply_converges_example =
    dump_apply_converges toy (one_key older) (one_key newer) (tt, tt) (tt, tt)
      (λ k x y p q. differ x y (only_entry older x k p) (only_entry newer y k q))

KvEntry-set : IsSet KvEntry
KvEntry-set = hlevel

Unambiguous-prop : (x y : KvEntry) → IsProp (Unambiguous toy x y)
Unambiguous-prop x y = Π_prop (λ _. KvEntry-set x y)

abbrev both : Table Bytes KvEntry
both = (ascii "k", older) ∷ (ascii "k", newer) ∷ []

Memᴰ-both : (k : Bytes) (x : KvEntry) → Memᴰ (k, x) both → (x ≡ older) ⊎ (x ≡ newer)
Memᴰ-both k x (Memᴰ.head e) = inl (ap (λ (p : Bytes × KvEntry). p.1) e)
Memᴰ-both k x (Memᴰ.tail (Memᴰ.head e)) = inr (ap (λ (p : Bytes × KvEntry). p.1) e)
Memᴰ-both k x (Memᴰ.tail (Memᴰ.tail m)) = elim m [ ]

either :
    (x y : KvEntry) → (x ≡ older) ⊎ (x ≡ newer) → (y ≡ older) ⊎ (y ≡ newer) → Unambiguous toy x y
either x y (inl p) (inl q) r = p ∙ sym q
either x y (inl p) (inr q) r = differ x y p q r
either x y (inr p) (inl q) r = sym (differ y x q p (sym r))
either x y (inr p) (inr q) r = p ∙ sym q

both-Consistent : Consistent toy both
both-Consistent k x y m n =
    ∥∥₁_elim m (Unambiguous-prop x y)
      (λ d. ∥∥₁_elim n (Unambiguous-prop x y) (λ f. either x y (Memᴰ-both k x d) (Memᴰ-both k y f)))

tombstone_entry : entry three (ascii "a/2") ≡ some gone
unfolding entry Table.get cmp_bytes
tombstone_entry = refl

list-eq-filter_example :
    list three (ascii "a/") 10 1
    ≡ take 1 (
        map
          (λ (p : Bytes × KvEntry). p.0)
          (Table.retain
            (λ k e. starts_with k (ascii "a/") && is_some (visible e 10))
            three.entries))
list-eq-filter_example = list-eq-filter three (ascii "a/") 10 1 three-IsSorted

no_k : entry three (ascii "k") ≡ none
unfolding entry Table.get cmp_bytes
no_k = refl

expiry_diverges_example :
    let x = expiring (at_ms 5) (pid 1) (ascii "v") 1000 in
    let y = lasting (at_ms 5) (pid 1) (ascii "v") 1000 in
    let first = (merge toy (merge toy three (ascii "k") x).0 (ascii "k") y).0 in
    let second = (merge toy (merge toy three (ascii "k") y).0 (ascii "k") x).0 in
    (entry first (ascii "k") ≡ some x)
    × (entry second (ascii "k") ≡ some y)
    × (x ≢ y)
    × (digest toy first ≡ digest toy second)
expiry_diverges_example =
    expiry_diverges toy three (ascii "k") (at_ms 5) (pid 1) (ascii "v") 1000 no_k
