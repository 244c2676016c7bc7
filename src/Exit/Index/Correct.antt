-- ===== src/Exit/Index/Correct.antt =====
-- The tables of `IndexedMatcher` (crates/rf/src/exit.rs) answer as the rules read from the top.
use randall_flare.Prelude.{
  ℕ, ◌≡◌, refl, ◌∙◌, sym, ap, ◌<◌, ◌+◌, Option, none, some, Bool, true, false, List, [], ◌∷◌, ◌++◌,
  if◌then◌else◌, any, length, All,
}
use randall_flare.Prelude.Order.{Bytes, bytes_ord, is_eq}
use randall_flare.Prelude.Table
use randall_flare.Prelude.Table.{Table, Each}
use randall_flare.Prelude.Ascii.{contains}
use randall_flare.Exit.Address.{IpAddr, IpCidr, cidr_contains}
use randall_flare.Exit.Spec.{RuleMatcher, CompiledRule}
use randall_flare.Exit.Index.{
  RuleRef, IndexedMatcher, add, add_all, empty_matcher, build, consider, parents, consider_suffixes,
  consider_each, consider_ip, find, policy, applies, is_within, first_policy,
}
use randall_flare.Exit.Index.Late.{
  AtMost, or_else, only_if, consider-late_left, consider-late_right, consider-AtMost, get-Below,
  get-or_insert, consider_suffixes-late, consider_suffixes-or_insert, consider_suffixes-AtMost,
  consider_each-late, consider_each-AtMost, consider_each-push, or_else-neither,
}
use randall_flare.Exit.Index.Bounded.{IsBounded, Below→AtMost, add-IsBounded, empty-IsBounded}

module _ (new : RuleRef) (host : Bytes) (ip : Option IpAddr) where
  consider_ip-late :
      (b : Bool) (x : Option RuleRef) (cs : List (IpCidr × RuleRef))
      → All (λ (e : IpCidr × RuleRef). e.1.index < new.index) cs
      → consider_ip ip (or_else x (only_if b new)) cs
        ≡ or_else (consider_ip ip x cs) (only_if b new)
  consider_ip-late b x cs h = at ip
    where
      at :
          (i : Option IpAddr)
          → consider_ip i (or_else x (only_if b new)) cs
            ≡ or_else (consider_ip i x cs) (only_if b new)
      at none = refl
      at (some a) = consider_each-late b new (λ c. cidr_contains c a) x cs h

  -- The search from the keywords on, with the best so far.
  abbrev from_keywords : IndexedMatcher → Option RuleRef → Option RuleRef
  from_keywords m x = consider_ip ip (consider_each (contains host) x m.keywords) m.cidrs

  abbrev from_suffixes : IndexedMatcher → Option RuleRef → Option RuleRef
  from_suffixes m x = from_keywords m (consider_suffixes m.suffix x (host ∷ parents host))

  from_keywords-late :
      (m : IndexedMatcher) (b : Bool) (x : Option RuleRef)
      → IsBounded new.index m
      → from_keywords m (or_else x (only_if b new)) ≡ or_else (from_keywords m x) (only_if b new)
  from_keywords-late m b x h =
      ap (λ z. consider_ip ip z m.cidrs)
        (consider_each-late b new (contains host) x m.keywords h.keywords)
      ∙ consider_ip-late b (consider_each (contains host) x m.keywords) m.cidrs h.cidrs

  from_suffixes-late :
      (m : IndexedMatcher) (b : Bool) (x : Option RuleRef)
      → IsBounded new.index m
      → from_suffixes m (or_else x (only_if b new)) ≡ or_else (from_suffixes m x) (only_if b new)
  from_suffixes-late m b x h =
      ap (from_keywords m) (consider_suffixes-late b new m.suffix x (host ∷ parents host) h.suffix)
      ∙ from_keywords-late m b (consider_suffixes m.suffix x (host ∷ parents host)) h

  -- The best so far after the exact domain, the suffixes and the keywords.
  abbrev at_exact : IndexedMatcher → Option RuleRef
  at_exact m = consider m.match_all (Table.get m.exact host)

  abbrev at_suffixes : IndexedMatcher → Option RuleRef
  at_suffixes m = consider_suffixes m.suffix (at_exact m) (host ∷ parents host)

  abbrev at_keywords : IndexedMatcher → Option RuleRef
  at_keywords m = consider_each (contains host) (at_suffixes m) m.keywords

  at_exact-AtMost : (m : IndexedMatcher) → IsBounded new.index m → AtMost new.index (at_exact m)
  at_exact-AtMost m h =
      consider-AtMost new.index m.match_all (Table.get m.exact host)
        (Below→AtMost new.index m.match_all h.match_all) (get-Below new.index m.exact host h.exact)

  at_suffixes-AtMost :
      (m : IndexedMatcher) → IsBounded new.index m → AtMost new.index (at_suffixes m)
  at_suffixes-AtMost m h =
      consider_suffixes-AtMost new.index m.suffix (at_exact m) (host ∷ parents host) h.suffix
        (at_exact-AtMost m h)

  at_keywords-AtMost :
      (m : IndexedMatcher) → IsBounded new.index m → AtMost new.index (at_keywords m)
  at_keywords-AtMost m h =
      consider_each-AtMost new.index (contains host) (at_suffixes m) m.keywords h.keywords
        (at_suffixes-AtMost m h)

  consider_ip-push :
      (c : IpCidr) (x : Option RuleRef) (cs : List (IpCidr × RuleRef))
      → All (λ (e : IpCidr × RuleRef). e.1.index < new.index) cs
      → AtMost new.index x
      → consider_ip ip x (cs ++ (c, new) ∷ [])
        ≡ or_else (consider_ip ip x cs) (only_if (is_within ip c) new)
  consider_ip-push c x cs h a = at ip
    where
      at :
          (i : Option IpAddr)
          → consider_ip i x (cs ++ (c, new) ∷ [])
            ≡ or_else (consider_ip i x cs) (only_if (is_within i c) new)
      at none = sym (or_else-neither x)
      at (some a') = consider_each-push new c (λ c. cidr_contains c a') x cs h a

  or_else-match_all :
      (x : Option RuleRef)
      → Path (Option RuleRef) (elim x [ none ↦ some new | some r ↦ some r ]) (or_else x (some new))
  or_else-match_all none = refl
  or_else-match_all (some r) = refl

  -- A rule that comes after all others decides where they do not.
  find-add :
      (m : IndexedMatcher) (matcher : RuleMatcher)
      → IsBounded new.index m
      → find (add m new matcher) host ip
        ≡ or_else (find m host ip) (only_if (applies matcher host ip) new)
  unfolding find add applies
  find-add m (RuleMatcher.domain d) h =
      ap (from_suffixes m) (
        ap (consider m.match_all) (get-or_insert d host new m.exact)
        ∙ consider-late_right (is_eq d host) new m.match_all (Table.get m.exact host)
            (Below→AtMost new.index m.match_all h.match_all))
      ∙ from_suffixes-late m (is_eq d host) (at_exact m) h
  find-add m (RuleMatcher.domain_suffix s) h =
      ap (from_keywords m) (
        consider_suffixes-or_insert s new m.suffix (at_exact m) (host ∷ parents host) h.suffix
          (at_exact-AtMost m h))
      ∙ from_keywords-late m (any (λ p. is_eq s p) (host ∷ parents host)) (at_suffixes m) h
  find-add m (RuleMatcher.domain_keyword k) h =
      ap (λ z. consider_ip ip z m.cidrs)
        (consider_each-push new k (contains host) (at_suffixes m) m.keywords h.keywords
          (at_suffixes-AtMost m h))
      ∙ consider_ip-late (contains host k) (at_keywords m) m.cidrs h.cidrs
  find-add m (RuleMatcher.ip_cidr c) h =
      consider_ip-push c (at_keywords m) m.cidrs h.cidrs (at_keywords-AtMost m h)
  find-add m RuleMatcher.match_all h =
      ap (from_suffixes m) (
        ap (λ z. consider z (Table.get m.exact host)) (or_else-match_all m.match_all)
        ∙ consider-late_left true new m.match_all (Table.get m.exact host)
            (get-Below new.index m.exact host h.exact))
      ∙ from_suffixes-late m true (at_exact m) h

abbrev policy_at : Option RuleRef → Option Bytes
policy_at none = none
policy_at (some r) = some r.policy

-- The policy that was found, or else that of the rules still to add.
abbrev policy_or : Option RuleRef → Option Bytes → Option Bytes
policy_or none rest = rest
policy_or (some r) rest = some r.policy

policy_or-only_if :
    (x : Option RuleRef) (b : Bool) (r : RuleRef) (rest : Option Bytes)
    → policy_or (or_else x (only_if b r)) rest ≡ policy_or x (if b then some r.policy else rest)
policy_or-only_if none true r rest = refl
policy_or-only_if none false r rest = refl
policy_or-only_if (some s) b r rest = refl

find-add_all :
    (index : ℕ) (m : IndexedMatcher) (rules : List CompiledRule) (host : Bytes) (ip : Option IpAddr)
    → IsBounded index m
    → policy (add_all index m rules) host ip
      ≡ policy_or (find m host ip) (first_policy rules host ip)
unfolding add_all policy first_policy
find-add_all index m [] host ip h = ends (find m host ip)
  where
    ends :
        (x : Option RuleRef)
        → Path (Option Bytes) (elim x [ none ↦ none | some r ↦ some r.policy ]) (policy_or x none)
    ends none = refl
    ends (some r) = refl
find-add_all index m (rule ∷ rules) host ip h =
    let new : RuleRef = record { index = index; policy = rule.policy } in
    find-add_all (index + 1) (add m new rule.matcher) rules host ip
      (add-IsBounded m new rule.matcher h)
    ∙ ap (λ z. policy_or z (first_policy rules host ip)) (find-add new host ip m rule.matcher h)
    ∙ policy_or-only_if (find m host ip) (applies rule.matcher host ip) new
        (first_policy rules host ip)

no_suffix : (ss : List Bytes) → consider_suffixes [] none ss ≡ none
unfolding consider_suffixes consider Table.get
no_suffix [] = refl
no_suffix (s ∷ ss) = no_suffix ss

find-empty :
    (count : ℕ) (host : Bytes) (ip : Option IpAddr) → find (empty_matcher count) host ip ≡ none
unfolding find consider_suffixes consider_each consider Table.get
find-empty count host none = no_suffix (parents host)
find-empty count host (some ip) = ap (λ x. consider_ip (some ip) x []) (no_suffix (parents host))

-- For any rules, host and address, or no address, the tables give the policy of the first rule, in the
-- order of the rules, that applies to the host or its address, and none where none applies.
pub policy-build :
    (rules : List CompiledRule) (host : Bytes) (ip : Option IpAddr)
    → policy (build rules) host ip ≡ first_policy rules host ip
unfolding build
policy-build rules host ip =
    find-add_all 0 (empty_matcher (length rules)) rules host ip (empty-IsBounded 0 (length rules))
    ∙ ap (λ z. policy_or z (first_policy rules host ip)) (find-empty (length rules) host ip)
