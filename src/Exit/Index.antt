-- ===== src/Exit/Index.antt =====
-- `IndexedMatcher` of crates/rf/src/exit.rs: the rules in tables by kind, and the search for the one
-- that stands first. A HashMap is a table in key order.
pub mod Late
pub mod Bounded
pub mod Correct
use randall_flare.Prelude.{
  ℕ, Option, none, some, Bool, true, false, List, [], ◌∷◌, ◌++◌, if◌then◌else◌, ltb, ◌==◌, length,
  ◌+◌, any,
}
use randall_flare.Prelude.Order.{Bytes, bytes_ord, is_eq}
use randall_flare.Prelude.Table
use randall_flare.Prelude.Table.{Table}
use randall_flare.Prelude.Text.{split_once}
use randall_flare.Prelude.Ascii.{contains}
use randall_flare.Exit.Address.{IpAddr, IpCidr, cidr_contains}
use randall_flare.Exit.Spec.{RuleMatcher, CompiledRule}

pub record RuleRef : Type 0 where
  pub index : ℕ
  pub policy : Bytes

pub record IndexedMatcher : Type 0 where
  pub rule_count : ℕ
  pub exact : Table Bytes RuleRef
  pub suffix : Table Bytes RuleRef
  pub keywords : List (Bytes × RuleRef)
  pub cidrs : List (IpCidr × RuleRef)
  pub match_all : Option RuleRef

-- `map.entry(key).or_insert(reference)`.
unfoldable pub or_insert : Bytes → RuleRef → Table Bytes RuleRef → Table Bytes RuleRef
or_insert key reference t = elim (Table.get t key) [
  | some _ ↦ t
  | none ↦ Table.insert key reference t
]

-- A round of the loop of `build`.
unfoldable pub add : IndexedMatcher → RuleRef → RuleMatcher → IndexedMatcher
unfolding or_insert
add m reference (RuleMatcher.domain d) = record m { exact = or_insert d reference m.exact }
add m reference (RuleMatcher.domain_suffix s) = record m { suffix = or_insert s reference m.suffix }
add m reference (RuleMatcher.domain_keyword k) = record m {
  keywords = m.keywords ++ (k, reference) ∷ [];
}
add m reference (RuleMatcher.ip_cidr c) = record m { cidrs = m.cidrs ++ (c, reference) ∷ [] }
add m reference RuleMatcher.match_all = record m {
  match_all = elim m.match_all [ none ↦ some reference | some r ↦ some r ];
}

unfoldable pub add_all : ℕ → IndexedMatcher → List CompiledRule → IndexedMatcher
add_all index m [] = m
add_all index m (rule ∷ rules) =
    add_all (index + 1) (add m (record { index = index; policy = rule.policy }) rule.matcher) rules

abbrev pub empty_matcher : ℕ → IndexedMatcher
empty_matcher rule_count = record {
  rule_count = rule_count;
  exact = [];
  suffix = [];
  keywords = [];
  cidrs = [];
  match_all = none;
}

unfoldable pub build : List CompiledRule → IndexedMatcher
unfolding add_all
build rules = add_all 0 (empty_matcher (length rules)) rules

-- `consider`: the earlier of the best so far and a candidate.
unfoldable pub consider : Option RuleRef → Option RuleRef → Option RuleRef
consider best none = best
consider none (some candidate) = some candidate
consider (some current) (some candidate) =
    if ltb candidate.index current.index then some candidate else some current

-- `suffix.split_once('.')` for the parent domain, until there is none: the domains that are asked.
unfoldable pub parents : Bytes → List Bytes
parents [] = []
parents (x ∷ s) = let rest = parents s in if x == 46 then s ∷ rest else rest

unfoldable pub consider_suffixes :
    Table Bytes RuleRef → Option RuleRef → List Bytes → Option RuleRef
consider_suffixes t best [] = best
consider_suffixes t best (s ∷ ss) = consider_suffixes t (consider best (Table.get t s)) ss

-- The loops over the keywords and over the blocks.
unfoldable pub consider_each :
    {A : Type 0} → (A → Bool) → Option RuleRef → List (A × RuleRef) → Option RuleRef
consider_each test best [] = best
consider_each test best ((x, r) ∷ rest) =
    consider_each test (if test x then consider best (some r) else best) rest

abbrev pub consider_ip : Option IpAddr → Option RuleRef → List (IpCidr × RuleRef) → Option RuleRef
consider_ip none best cidrs = best
consider_ip (some ip) best cidrs = consider_each (λ c. cidr_contains c ip) best cidrs

unfoldable pub find : IndexedMatcher → Bytes → Option IpAddr → Option RuleRef
unfolding consider consider_suffixes consider_each parents contains
find m host ip =
    consider_ip ip
      (consider_each (contains host)
        (consider_suffixes m.suffix (consider m.match_all (Table.get m.exact host))
          (host ∷ parents host))
        m.keywords)
      m.cidrs

-- `IndexedMatcher::policy`.
unfoldable pub policy : IndexedMatcher → Bytes → Option IpAddr → Option Bytes
unfolding find
policy m host ip = elim (find m host ip) [ none ↦ none | some r ↦ some r.policy ]

-- Whether a rule is about a host and the address it has.
abbrev pub is_within : Option IpAddr → IpCidr → Bool
is_within none c = false
is_within (some ip) c = cidr_contains c ip

unfoldable pub applies : RuleMatcher → Bytes → Option IpAddr → Bool
unfolding parents contains
applies (RuleMatcher.domain d) host ip = is_eq d host
applies (RuleMatcher.domain_suffix s) host ip = any (λ parent. is_eq s parent) (host ∷ parents host)
applies (RuleMatcher.domain_keyword k) host ip = contains host k
applies (RuleMatcher.ip_cidr c) host ip = is_within ip c
applies RuleMatcher.match_all host ip = true

-- The rules read from the top, with no tables: the first one that applies decides.
unfoldable pub first_policy : List CompiledRule → Bytes → Option IpAddr → Option Bytes
first_policy [] host ip = none
first_policy (rule ∷ rules) host ip =
    let rest = first_policy rules host ip in
    if applies rule.matcher host ip then some rule.policy else rest
