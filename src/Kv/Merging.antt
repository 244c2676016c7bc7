-- ===== src/Kv/Merging.antt =====
-- `merge` of crates/rf-core/src/kv.rs as a join on each key, and its order of arrival.
use randall_flare.Prelude.{
  ◌≡◌, ◌≢◌, refl, ap, ◌∙◌, sym, Option, none, some, true, false, not, if◌then◌else◌, arith,
}
use randall_flare.Prelude.Order.{
  Bytes, is_eq, gt_asym, not_gt_antisym, not_gt_trans, not_gt_self, bytes_ord, pair_ord,
}
use randall_flare.Prelude.Table.{IsSorted}
use randall_flare.Prelude.Table.Laws.{get-insert, insert-IsSorted, get_ext}
use randall_flare.Hlc.{Hlc, hlc_ord}
use randall_flare.Identity.{Crypto}
use randall_flare.Kv.{KvEntry, Namespace, stale, entry, rank, beats, merge}

abbrev pub rank_ord : randall_flare.Prelude.Order.Ord (Hlc × (Bytes × Bytes))
rank_ord = pair_ord

pub namespace_ext :
    (a b : Namespace)
    → IsSorted a.entries
    → IsSorted b.entries
    → ((k : Bytes) → entry a k ≡ entry b k)
    → a ≡ b
unfolding entry
namespace_ext a b s r h = let e = get_ext a.entries b.entries s r h in cc

module _ (c : Crypto) where
  -- The register that a key holds after `e` arrives: the one of higher rank, the old one on a tie.
  abbrev pub join : Option KvEntry → KvEntry → KvEntry
  join none e = e
  join (some old) e = if beats c e old then e else old

  pub merge-IsSorted :
      (ns : Namespace) (k : Bytes) (e : KvEntry)
      → IsSorted ns.entries
      → IsSorted (merge c ns k e).0.entries
  unfolding merge
  merge-IsSorted ns k e s = ground (arith, insert-IsSorted k e ns.entries)

  pub entry-merge :
      (ns : Namespace) (k j : Bytes) (e : KvEntry)
      → entry (merge c ns k e).0 j ≡ (if is_eq k j then some (join (entry ns j) e) else entry ns j)
  unfolding entry merge
  entry-merge ns k j e =
      ground (arith, get-insert k j e ns.entries, bytes_ord.cmp_eq k j, bytes_ord.cmp_self k)

  -- Two entries never tie unless they are one: the hypothesis under which replicas agree.
  abbrev pub Unambiguous : KvEntry → KvEntry → Type 0
  Unambiguous a b = rank c a ≡ rank c b → a ≡ b

  pub beats_asym : (a b : KvEntry) → beats c a b ≡ true → beats c b a ≡ false
  unfolding beats
  beats_asym a b = gt_asym (rank c a) (rank c b)

  pub beats_none :
      (a b : KvEntry) → Unambiguous a b → beats c a b ≡ false → beats c b a ≡ false → a ≡ b
  unfolding beats
  beats_none a b u h k = u (not_gt_antisym (rank c a) (rank c b) h k)

  pub not_beats_trans :
      (x y z : KvEntry) → beats c x y ≡ false → beats c y z ≡ false → beats c x z ≡ false
  unfolding beats
  not_beats_trans x y z = not_gt_trans (rank c x) (rank c y) (rank c z)

  pub not_beats_self : (a : KvEntry) → beats c a a ≡ false
  unfolding beats
  not_beats_self a = not_gt_self (rank c a)

  join_comm :
      (o : Option KvEntry) (a b : KvEntry)
      → Unambiguous a b
      → join (some (join o a)) b ≡ join (some (join o b)) a
  join_comm none a b u = ground (arith, beats_none a b u, beats_asym a b)
  join_comm (some x) a b u = ground (
    arith,
    beats_none a b u,
    beats_asym a b,
    beats_asym a x,
    beats_asym b x,
    not_beats_trans a b x,
    not_beats_trans b a x,
    not_beats_trans a x b,
    not_beats_trans b x a,
  )

  join_self : (o : Option KvEntry) (e : KvEntry) → join (some (join o e)) e ≡ join o e
  join_self none e = ground (arith, not_beats_self e)
  join_self (some x) e = ground (arith, not_beats_self e)

  -- Two entries that arrive at a namespace in key order, for any keys and in either order, leave the
  -- same namespace, tombstones and expiries included, unless they are for one key, of one rank, and
  -- different.
  pub merge_comm :
      (ns : Namespace) (k j : Bytes) (a b : KvEntry)
      → IsSorted ns.entries
      → (k ≡ j → Unambiguous a b)
      → (merge c (merge c ns k a).0 j b).0 ≡ (merge c (merge c ns j b).0 k a).0
  merge_comm ns k j a b s u =
      namespace_ext _ _ (merge-IsSorted _ j b (merge-IsSorted ns k a s))
        (merge-IsSorted _ k a (merge-IsSorted ns j b s))
        λ i. ground (
          arith,
          entry-merge (merge c ns k a).0 j i b,
          entry-merge (merge c ns j b).0 k i a,
          entry-merge ns k i a,
          entry-merge ns j i b,
          bytes_ord.cmp_eq k i,
          bytes_ord.cmp_eq j i,
          λ (p : k ≡ j). join_comm (entry ns i) a b (u p),
        )

  -- An entry that arrives again changes nothing and is reported stale.
  pub merge_again :
      (ns : Namespace) (k : Bytes) (e : KvEntry)
      → merge c (merge c ns k e).0 k e ≡ ((merge c ns k e).0, stale)
  unfolding merge
  merge_again ns k e =
      ground (arith, get-insert k k e ns.entries, bytes_ord.cmp_self k, not_beats_self e)

  -- A merge at `k` leaves every key's register in place or raises it in rank, and the register of
  -- `k` itself ends at the arriving entry or above it.
  pub merge_monotone :
      (ns : Namespace) (k j : Bytes) (e : KvEntry) (old : KvEntry)
      → entry ns j ≡ some old
      → (new : KvEntry) × (entry (merge c ns k e).0 j ≡ some new)
        × (beats c old new ≡ false)
        × (k ≡ j → beats c e new ≡ false)
  merge_monotone ns k j e old h = (
    if is_eq k j then join (some old) e else old,
    rw (entry-merge, h) (ground arith),
    ground (arith, not_beats_self old, beats_asym e old),
    λ p. ground (arith, bytes_ord.cmp_self j, bytes_ord.cmp_self k, not_beats_self e),
  )
