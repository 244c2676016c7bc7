-- ===== src/Exit/Cache.antt =====
-- `MatcherCache` and `indexed_matcher` of crates/rf/src/exit.rs: compiled matchers kept by the digest of
-- their rule set, the oldest dropped first. The lock is taken twice, so another thread may change the
-- cache in between: `indexed_matcher` has the cache as each of the two sections finds it.
pub mod Counted
pub mod Bounds
pub mod Agrees
use randall_flare.Prelude.{
  ℕ, ◌+◌, ◌-◌, Option, none, some, Bool, true, false, not, ◌||◌, List, [], ◌∷◌, ◌++◌, if◌then◌else◌,
  ltb, leb, length, saturating_add,
}
use randall_flare.Prelude.Order.{Bytes, bytes_ord, is_eq}
use randall_flare.Prelude.Result.{Result, ok, ◌>>=◌}
use randall_flare.Prelude.Table
use randall_flare.Prelude.Table.{Table}
use randall_flare.Exit.Errors.{ExitError}
use randall_flare.Exit.Address.{IpAddr}
use randall_flare.Exit.Spec.{ExitRuleSpec}
use randall_flare.Exit.Rules.{compile}
use randall_flare.Exit.Index.{IndexedMatcher, build}
use randall_flare.Exit.Classify.{Decision, classify_with}

pub record MatcherCache : Type 0 where
  pub entries : Table Bytes IndexedMatcher
  pub order : List Bytes
  pub total_rules : ℕ

abbrev pub new_cache : MatcherCache
new_cache = record { entries = []; order = []; total_rules = 0 }

-- `map.remove(key)`.
unfoldable pub remove : Bytes → Table Bytes IndexedMatcher → Table Bytes IndexedMatcher
remove key t = Table.retain (λ k _. not (is_eq k key)) t

abbrev pub is_full : Table Bytes IndexedMatcher → ℕ → ℕ → Bool
is_full entries total count = leb 32 (length entries) || ltb 400_000 (saturating_add total count)

-- The loop that makes room for `count` rules: each round takes the oldest key.
unfoldable pub evict : ℕ → List Bytes → Table Bytes IndexedMatcher → ℕ → MatcherCache
unfolding remove
evict count [] entries total = record { entries = entries; order = []; total_rules = total }
evict count (oldest ∷ order) entries total =
    let next : MatcherCache = elim (Table.get entries oldest) [
      | none ↦ evict count order entries total
      | some removed ↦ evict count order (remove oldest entries) (total - removed.rule_count)
    ] in
    if is_full entries total count
    then next
    else record { entries = entries; order = oldest ∷ order; total_rules = total }

-- The last lines: the matcher is kept unless it is too large.
abbrev pub push_back : Bytes → IndexedMatcher → MatcherCache → MatcherCache
push_back key matcher cache = if ltb 400_000 matcher.rule_count then cache else record {
  entries = Table.insert key matcher cache.entries;
  order = cache.order ++ key ∷ [];
  total_rules = saturating_add cache.total_rules matcher.rule_count;
}

-- The second section, with the cache that it finds: a matcher that has come in meanwhile is used.
unfoldable pub store : Bytes → IndexedMatcher → MatcherCache → MatcherCache × IndexedMatcher
unfolding evict
store key matcher cache = elim (Table.get cache.entries key) [
  | some existing ↦ (cache, existing)
  | none ↦ (
    push_back key matcher (evict matcher.rule_count cache.order cache.entries cache.total_rules),
    matcher,
  )
]

-- `hash` is SHA-256 of the JSON text of a rule set.
module _ (hash : ExitRuleSpec → Bytes) where
  unfoldable pub indexed_matcher :
      ℕ
      → ExitRuleSpec
      → MatcherCache
      → MatcherCache
      → Result ExitError (MatcherCache × IndexedMatcher)
  unfolding store
  indexed_matcher fuel spec first second = elim (Table.get first.entries (hash spec)) [
    | some matcher ↦ ok (second, matcher)
    | none ↦ compile fuel spec >>= λ rules. ok (store (hash spec) (build rules) second)
  ]

  unfoldable pub classify :
      ℕ
      → ExitRuleSpec
      → Bytes
      → Option IpAddr
      → MatcherCache
      → MatcherCache
      → Result ExitError (MatcherCache × Option Decision)
  unfolding indexed_matcher
  classify fuel spec host ip first second =
      indexed_matcher fuel spec first second >>= λ (p : MatcherCache × IndexedMatcher).
      classify_with spec p.1 host ip >>= λ decision. ok (p.0, decision)
