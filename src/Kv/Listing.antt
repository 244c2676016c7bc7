-- ===== src/Kv/Listing.antt =====
-- `list` of crates/rf-core/src/kv.rs: it stops at the first key without the prefix, and loses none.
use randall_flare.Prelude.{
  ℕ, ◌≡◌, refl, true, false, arith, map, take, is_some, ◌&&◌, [], ◌∷◌, Bool,
}
use randall_flare.Prelude.Order.{Bytes, bytes_ord, is_le, cmp_bytes}
use randall_flare.Prelude.Text.{starts_with}
use randall_flare.Prelude.Table
use randall_flare.Prelude.Table.{Table, IsSorted, Above}
use randall_flare.Kv.{KvEntry, Namespace, visible, list, take_prefixed}
use Prim.Native.Nat.Ordering.{lt}

-- A text is not before its prefix.
is_le-starts_with : (k p : Bytes) → starts_with k p ≡ true → is_le p k ≡ true
unfolding starts_with cmp_bytes
is_le-starts_with [] [] h = refl
is_le-starts_with (x ∷ k) [] h = refl
is_le-starts_with [] (y ∷ p) h = h
is_le-starts_with (x ∷ k) (y ∷ p) h = ground (arith, is_le-starts_with k p)

-- What lies between a prefix and a text with that prefix has it too.
starts_with_between :
    (p k j : Bytes)
    → is_le p k ≡ true
    → cmp_bytes k j ≡ lt
    → starts_with j p ≡ true
    → starts_with k p ≡ true
unfolding starts_with cmp_bytes
starts_with_between [] [] j h l s = refl
starts_with_between [] (x ∷ k) j h l s = refl
starts_with_between (y ∷ p) [] j h l s = h
starts_with_between (y ∷ p) (x ∷ k) [] h l s = cc
starts_with_between (y ∷ p) (x ∷ k) (z ∷ j) h l s = ground (arith, starts_with_between p k j)

abbrev in_range : Bytes → Bytes → KvEntry → Bool
in_range prefix k _ = is_le prefix k

abbrev prefixed : Bytes → Bytes → KvEntry → Bool
prefixed prefix k _ = starts_with k prefix

-- Past the first key without the prefix there is none with it.
none_prefixed :
    (prefix k : Bytes) (t : Table Bytes KvEntry)
    → is_le prefix k ≡ true
    → starts_with k prefix ≡ false
    → Above k t
    → Table.retain (prefixed prefix) t ≡ []
unfolding Table.retain
none_prefixed prefix k [] h s a = refl
none_prefixed prefix k ((j, e) ∷ t) h s a =
    ground (arith, none_prefixed prefix k t h s a.1, starts_with_between prefix k j h a.0)

take_prefixed-range :
    (prefix : Bytes) (t : Table Bytes KvEntry)
    → IsSorted t
    → take_prefixed prefix (Table.retain (in_range prefix) t) ≡ Table.retain (prefixed prefix) t
unfolding Table.retain take_prefixed
take_prefixed-range prefix [] s = refl
take_prefixed-range prefix ((k, e) ∷ t) s =
    ground (
      arith,
      take_prefixed-range prefix t s.1,
      none_prefixed prefix k t,
      is_le-starts_with k prefix,
    )

retain-retain :
    (p q : Bytes → KvEntry → Bool) (t : Table Bytes KvEntry)
    → Table.retain p (Table.retain q t) ≡ Table.retain (λ k e. q k e && p k e) t
unfolding Table.retain
retain-retain p q [] = refl
retain-retain p q ((k, e) ∷ t) = ground (arith, retain-retain p q t)

-- A listing of a namespace in key order is the first `limit` of all the keys, in order, that start
-- with the prefix and are visible: starting at the prefix and stopping at the first key without it
-- loses none.
pub list-eq-filter :
    (ns : Namespace) (prefix : Bytes) (now limit : ℕ)
    → IsSorted ns.entries
    → list ns prefix now limit
      ≡ take limit (
          map
            (λ (p : Bytes × KvEntry). p.0)
            (Table.retain (λ k e. starts_with k prefix && is_some (visible e now)) ns.entries))
unfolding list
list-eq-filter ns prefix now limit s = rw (take_prefixed-range prefix ns.entries s, retain-retain)
