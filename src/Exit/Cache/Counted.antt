-- ===== src/Exit/Cache/Counted.antt =====
-- The count of entries and rules that the cache of matchers (crates/rf/src/exit.rs) keeps.
use randall_flare.Prelude.{
  ℕ, ◌≡◌, refl, subst, inl, inr, ◌≤◌, ◌+◌, ◌-◌, none, some, true, false, not, List, [], ◌∷◌,
  if◌then◌else◌, length, arith, Bool-cases, is_some,
}
use randall_flare.Prelude.Order.{Bytes, bytes_ord, is_eq}
use randall_flare.Prelude.Members.{In, Distinct}
use randall_flare.Prelude.Table
use randall_flare.Prelude.Table.{Table, IsSorted, Above}
use randall_flare.Prelude.Table.Laws.{retain-IsSorted, get-retain}
use randall_flare.Exit.Index.{IndexedMatcher}
use randall_flare.Exit.Cache.{MatcherCache, remove}

-- The rules that the entries hold, all together.
unfoldable pub rules_in : Table Bytes IndexedMatcher → ℕ
rules_in [] = 0
rules_in ((_, m) ∷ t) = m.rule_count + rules_in t

-- The entries are those of the keys in `order`, each once, and `total_rules` counts their rules.
pub record IsCounted (order : List Bytes) (entries : Table Bytes IndexedMatcher) (total : ℕ)
    : Type 0 where
  pub sorted : IsSorted entries
  pub distinct : Distinct order
  pub size : length entries ≡ length order
  pub held : (key : Bytes) → In key order → is_some (Table.get entries key) ≡ true
  pub rules : total ≡ rules_in entries

pub record WellKept (cache : MatcherCache) : Type 0 where
  pub counted : IsCounted cache.order cache.entries cache.total_rules
  pub few : length cache.entries ≤ 32
  pub small : cache.total_rules ≤ 400_000

-- Removing a key that is there takes away one entry and its rules.
remove-Above : (key : Bytes) (t : Table Bytes IndexedMatcher) → Above key t → remove key t ≡ t
unfolding remove Table.retain
remove-Above key [] a = refl
remove-Above key ((k, m) ∷ t) a = ground (
  arith,
  bytes_ord.cmp_lt key k,
  bytes_ord.cmp_self k,
  bytes_ord.cmp_eq k key,
  remove-Above key t,
)

pub remove_one :
    (key : Bytes) (t : Table Bytes IndexedMatcher) (m : IndexedMatcher)
    → IsSorted t
    → Table.get t key ≡ some m
    → (length t ≡ length (remove key t) + 1) × (rules_in t ≡ rules_in (remove key t) + m.rule_count)
unfolding remove Table.retain Table.get rules_in
remove_one key [] m s g = absurd (cc)
remove_one key ((k, n) ∷ t) m s g = elim (Bool-cases (is_eq k key)) [
  | inl e ↦
      let same = bytes_ord.cmp_eq k key (ground arith) in
      let rest = remove-Above key t (subst (λ z. Above z t) same s.0) in ground (arith, rest, e)
  | inr e ↦ ground (arith, remove_one key t m, e)
]

pub insert_one :
    (key : Bytes) (m : IndexedMatcher) (t : Table Bytes IndexedMatcher)
    → Table.get t key ≡ none
    → (length (Table.insert key m t) ≡ length t + 1)
      × (rules_in (Table.insert key m t) ≡ rules_in t + m.rule_count)
unfolding Table.get Table.insert rules_in
insert_one key m [] g = (refl, omega arith)
insert_one key m ((k, n) ∷ t) g =
    ground (arith, insert_one key m t, bytes_ord.cmp_eq key k, bytes_ord.cmp_self k)

pub remove-IsCounted :
    (key : Bytes) (order : List Bytes) (t : Table Bytes IndexedMatcher) (total : ℕ)
    (m : IndexedMatcher)
    → IsCounted (key ∷ order) t total
    → Table.get t key ≡ some m
    → IsCounted order (remove key t) (total - m.rule_count)
unfolding remove
remove-IsCounted key order t total m c g =
    let (l, r) = remove_one key t m c.sorted g in
    record {
      sorted = retain-IsSorted (λ k _. not (is_eq k key)) t c.sorted;
      distinct = c.distinct.1;
      size = omega (arith, l, c.size);
      held =
          λ k i. still k i (c.held k (inr i)) (get-retain (λ k _. not (is_eq k key)) k t c.sorted);
      rules = omega (arith, r, c.rules);
    }
  where
    other : (k : Bytes) → In k order → is_eq k key ≡ false
    other k i = elim (Bool-cases (is_eq k key)) [
      | inr e ↦ e
      | inl e ↦
          absurd (c.distinct.0 (subst (λ z. In z order) (bytes_ord.cmp_eq k key (ground arith)) i))
    ]

    still :
        (k : Bytes)
        → In k order
        → is_some (Table.get t k) ≡ true
        → Table.get (remove key t) k ≡ elim (Table.get t k) [
          | none ↦ none
          | some v ↦ if not (is_eq k key) then some v else none
        ]
        → is_some (Table.get (remove key t) k) ≡ true
    still k i h e = let o = other k i in ground (arith, e, o, h)
