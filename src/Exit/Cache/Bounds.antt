-- ===== src/Exit/Cache/Bounds.antt =====
-- The cache of matchers (crates/rf/src/exit.rs) stays within its limits.
use randall_flare.Prelude.{
  ℕ, ◌≡◌, refl, subst, inl, inr, ◌⊎◌, ◌<◌, ◌≤◌, ◌+◌, ◌-◌, none, true, false, not, List, [], ◌∷◌,
  ◌++◌, ltb, length, saturating_add, arith, Bool-cases, Option-cases, is_some, length-append,
}
use randall_flare.Prelude.Order.{Bytes, bytes_ord, is_eq}
use randall_flare.Prelude.Members.{In, Distinct-append, In-append}
use randall_flare.Prelude.Table
use randall_flare.Prelude.Table.{Table, IsSorted, Above}
use randall_flare.Prelude.Table.Laws.{get-insert, insert-IsSorted, get-retain}
use randall_flare.Exit.Index.{IndexedMatcher}
use randall_flare.Exit.Cache.{MatcherCache, new_cache, remove, evict, is_full, push_back, store}
use randall_flare.Exit.Cache.Counted.{
  rules_in, IsCounted, WellKept, remove_one, insert_one, remove-IsCounted,
}

-- A cache made from `t` and `total` by dropping entries, with room for `count` rules or with nothing left.
record HasRoom (count : ℕ) (t : Table Bytes IndexedMatcher) (total : ℕ) (c : MatcherCache)
    : Type 0 where
  counted : IsCounted c.order c.entries c.total_rules
  fewer : length c.entries ≤ length t
  less : c.total_rules ≤ total
  room : (is_full c.entries c.total_rules count ≡ false) ⊎ (c.entries ≡ [])

HasRoom-fewer :
    (count : ℕ) (t u : Table Bytes IndexedMatcher) (total less : ℕ) (c : MatcherCache)
    → length u ≤ length t
    → less ≤ total
    → HasRoom count u less c
    → HasRoom count t total c
HasRoom-fewer count t u total less c h k r = record {
  counted = r.counted;
  fewer = omega (arith, r.fewer);
  less = omega (arith, r.less);
  room = r.room;
}

empty_of : (t : Table Bytes IndexedMatcher) → length t ≡ 0 → t ≡ []
empty_of [] h = refl
empty_of (e ∷ t) h = absurd (omega arith)

evict-HasRoom :
    (count : ℕ) (order : List Bytes) (t : Table Bytes IndexedMatcher) (total : ℕ)
    → IsCounted order t total
    → HasRoom count t total (evict count order t total)
unfolding evict
evict-HasRoom count [] t total c = record {
  counted = c;
  fewer = omega arith;
  less = omega arith;
  room = inr (empty_of t c.size);
}
evict-HasRoom count (key ∷ order) t total c = elim (Bool-cases (is_full t total count)) [
  | inr e ↦
      rw (e, evict) (record { counted = c; fewer = omega arith; less = omega arith; room = inl e })
  | inl e ↦ elim (Option-cases (Table.get t key)) [
    | inl n ↦ absurd (let h = c.held key (inl refl) in let z = rw n at h in cc)
    | inr (m, g) ↦
        let (l, _) = remove_one key t m c.sorted g in
        rw (e, evict, g)
          (HasRoom-fewer count t (remove key t) total (total - m.rule_count) _ (omega (arith, l))
            (omega arith)
            (evict-HasRoom count order (remove key t) (total - m.rule_count)
              (remove-IsCounted key order t total m c g)))
  ]
]

push_back-IsCounted :
    (key : Bytes) (m : IndexedMatcher) (c : MatcherCache)
    → IsCounted c.order c.entries c.total_rules
    → Table.get c.entries key ≡ none
    → c.total_rules + m.rule_count ≤ 400_000
    → IsCounted
        (c.order ++ key ∷ [])
        (Table.insert key m c.entries)
        (saturating_add c.total_rules m.rule_count)
push_back-IsCounted key m c h g small =
    let (l, r) = insert_one key m c.entries g in
    record {
      sorted = insert-IsSorted key m c.entries h.sorted;
      distinct = Distinct-append c.order (key ∷ []) h.distinct ((λ i. i), tt) apart;
      size = omega (arith, l, h.size, length-append c.order (key ∷ []));
      held = λ k i. kept k (In-append k c.order (key ∷ []) i);
      rules = ground (arith, r, h.rules, small);
    }
  where
    apart : (x : Bytes) → In x c.order → In x (key ∷ []) → ⊥
    apart x i (inl e) =
        let p = h.held key (subst (λ z. In z c.order) e i) in let z = rw g at p in cc
    apart x i (inr j) = j

    kept :
        (k : Bytes)
        → In k c.order ⊎ In k (key ∷ [])
        → is_some (Table.get (Table.insert key m c.entries) k) ≡ true
    kept k (inl i) = ground (arith, get-insert key k m c.entries, h.held k i)
    kept k (inr (inl e)) = ground (arith, get-insert key k m c.entries, bytes_ord.cmp_self key, e)
    kept k (inr (inr j)) = absurd j

evict-absent :
    (count : ℕ) (order : List Bytes) (t : Table Bytes IndexedMatcher) (total : ℕ) (key : Bytes)
    → IsCounted order t total
    → Table.get t key ≡ none
    → Table.get (evict count order t total).entries key ≡ none
unfolding evict remove
evict-absent count [] t total key c g = g
evict-absent count (k ∷ order) t total key c g = elim (Bool-cases (is_full t total count)) [
  | inr e ↦ rw (e, evict) g
  | inl e ↦ elim (Option-cases (Table.get t k)) [
    | inl n ↦ absurd (let h = c.held k (inl refl) in let z = rw n at h in cc)
    | inr (m, f) ↦
        rw (e, evict, f)
          (evict-absent count order (remove k t) (total - m.rule_count) key
            (remove-IsCounted k order t total m c f)
            (ground (arith, get-retain (λ j _. not (is_eq j k)) key t c.sorted, g)))
  ]
]

room_left :
    (count total : ℕ) (t : Table Bytes IndexedMatcher)
    → count ≤ 400_000
    → total ≡ rules_in t
    → (is_full t total count ≡ false) ⊎ (t ≡ [])
    → (length t < 32) × (total + count ≤ 400_000)
unfolding rules_in
room_left count total t small r (inl e) = ground (arith, e, small)
room_left count total [] small r (inr e) = (omega arith, omega (arith, r, small))
room_left count total (x ∷ t) small r (inr e) = absurd (cc)

push_back-WellKept :
    (key : Bytes) (m : IndexedMatcher) (t : Table Bytes IndexedMatcher) (total : ℕ)
    (c : MatcherCache)
    → HasRoom m.rule_count t total c
    → Table.get c.entries key ≡ none
    → length t ≤ 32
    → total ≤ 400_000
    → WellKept (push_back key m c)
push_back-WellKept key m t total c h g few small = elim (Bool-cases (ltb 400_000 m.rule_count)) [
  | inl e ↦
      rw (e, push_back)
        (record {
          counted = h.counted;
          few = omega (arith, h.fewer);
          small = omega (arith, h.less);
        })
  | inr e ↦
      let (l, r) =
        room_left m.rule_count c.total_rules c.entries (ground arith) h.counted.rules h.room in
      let (n, _) = insert_one key m c.entries g in
      rw (e, push_back)
        (record {
          counted = push_back-IsCounted key m c h.counted g r;
          few = omega (arith, n, l);
          small = ground (arith, r);
        })
]

-- Storing a matcher in a well kept cache leaves it well kept, whatever the matcher: at most 32 entries
-- and 400,000 rules, `total_rules` is the number of rules in the entries, and `order` names each of
-- them once.
pub store-WellKept :
    (key : Bytes) (m : IndexedMatcher) (cache : MatcherCache)
    → WellKept cache
    → WellKept (store key m cache).0
unfolding store
store-WellKept key m cache w = elim (Option-cases (Table.get cache.entries key)) [
  | inr (existing, e) ↦ rw (e, store) w
  | inl e ↦
      rw (e, store)
        (push_back-WellKept key m cache.entries cache.total_rules
          (evict m.rule_count cache.order cache.entries cache.total_rules)
          (evict-HasRoom m.rule_count cache.order cache.entries cache.total_rules w.counted)
          (evict-absent m.rule_count cache.order cache.entries cache.total_rules key w.counted e)
          w.few w.small)
]

pub new_cache-WellKept : WellKept new_cache
unfolding rules_in
new_cache-WellKept = record {
  counted = record {
    sorted = tt;
    distinct = tt;
    size = refl;
    held = λ k i. absurd i;
    rules = refl;
  };
  few = omega arith;
  small = omega arith;
}
