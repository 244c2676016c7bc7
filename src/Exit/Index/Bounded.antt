-- ===== src/Exit/Index/Bounded.antt =====
-- The references in an `IndexedMatcher` of crates/rf/src/exit.rs are to the rules added so far.
use randall_flare.Prelude.{
  ℕ, inl, inr, ◌<◌, ◌+◌, Option, none, some, List, [], ◌∷◌, All, All-append, arith, Option-cases,
}
use randall_flare.Prelude.Order.{Bytes, bytes_ord}
use randall_flare.Prelude.Table
use randall_flare.Prelude.Table.{Table, Each}
use randall_flare.Prelude.Table.Laws.{insert-Each}
use randall_flare.Exit.Address.{IpCidr}
use randall_flare.Exit.Spec.{RuleMatcher}
use randall_flare.Exit.Index.{RuleRef, IndexedMatcher, or_insert, add, empty_matcher}
use randall_flare.Exit.Index.Late.{Below, AtMost}

-- Every reference of a matcher is to one of the first `n` rules.
pub record IsBounded (n : ℕ) (m : IndexedMatcher) : Type 0 where
  pub exact : Each (λ _ (r : RuleRef). r.index < n) m.exact
  pub suffix : Each (λ _ (r : RuleRef). r.index < n) m.suffix
  pub keywords : All (λ (e : Bytes × RuleRef). e.1.index < n) m.keywords
  pub cidrs : All (λ (e : IpCidr × RuleRef). e.1.index < n) m.cidrs
  pub match_all : Below n m.match_all

pub Below→AtMost : (n : ℕ) (x : Option RuleRef) → Below n x → AtMost n x
Below→AtMost n none h = tt
Below→AtMost n (some r) h = omega arith

Each-grow :
    {A : Type 0} (n : ℕ) (xs : List (A × RuleRef))
    → All (λ (e : A × RuleRef). e.1.index < n) xs
    → All (λ (e : A × RuleRef). e.1.index < n + 1) xs
Each-grow n [] h = tt
Each-grow n (x ∷ xs) h = (omega arith, Each-grow n xs h.1)

or_insert-Each :
    (n : ℕ) (k : Bytes) (r : RuleRef) (t : Table Bytes RuleRef)
    → r.index < n
    → Each (λ _ (r : RuleRef). r.index < n) t
    → Each (λ _ (r : RuleRef). r.index < n) (or_insert k r t)
unfolding or_insert
or_insert-Each n k r t h e = elim (Option-cases (Table.get t k)) [
  | inl p ↦ rw (p, or_insert) (insert-Each (λ _ (r : RuleRef). r.index < n) k r t h e)
  | inr (_, p) ↦ rw (p, or_insert) e
]

grown : (n : ℕ) (m : IndexedMatcher) → IsBounded n m → IsBounded (n + 1) m
grown n m b = record {
  exact = Each-grow n m.exact b.exact;
  suffix = Each-grow n m.suffix b.suffix;
  keywords = Each-grow n m.keywords b.keywords;
  cidrs = Each-grow n m.cidrs b.cidrs;
  match_all = below_suc m.match_all b.match_all;
}
  where
    below_suc : (x : Option RuleRef) → Below n x → Below (n + 1) x
    below_suc none h = tt
    below_suc (some r) h = omega arith

pub add-IsBounded :
    (m : IndexedMatcher) (new : RuleRef) (matcher : RuleMatcher)
    → IsBounded new.index m
    → IsBounded (new.index + 1) (add m new matcher)
unfolding add
add-IsBounded m new (RuleMatcher.domain d) b =
    let g = grown new.index m b in
    record {
      exact = or_insert-Each (new.index + 1) d new m.exact (omega arith) g.exact;
      suffix = g.suffix;
      keywords = g.keywords;
      cidrs = g.cidrs;
      match_all = g.match_all;
    }
add-IsBounded m new (RuleMatcher.domain_suffix s) b =
    let g = grown new.index m b in
    record {
      exact = g.exact;
      suffix = or_insert-Each (new.index + 1) s new m.suffix (omega arith) g.suffix;
      keywords = g.keywords;
      cidrs = g.cidrs;
      match_all = g.match_all;
    }
add-IsBounded m new (RuleMatcher.domain_keyword k) b =
    let g = grown new.index m b in
    record {
      exact = g.exact;
      suffix = g.suffix;
      keywords = All-append _ m.keywords _ g.keywords (omega arith, tt);
      cidrs = g.cidrs;
      match_all = g.match_all;
    }
add-IsBounded m new (RuleMatcher.ip_cidr c) b =
    let g = grown new.index m b in
    record {
      exact = g.exact;
      suffix = g.suffix;
      keywords = g.keywords;
      cidrs = All-append _ m.cidrs _ g.cidrs (omega arith, tt);
      match_all = g.match_all;
    }
add-IsBounded m new RuleMatcher.match_all b =
    let g = grown new.index m b in
    record {
      exact = g.exact;
      suffix = g.suffix;
      keywords = g.keywords;
      cidrs = g.cidrs;
      match_all = filled m.match_all g.match_all;
    }
  where
    filled :
        (x : Option RuleRef)
        → Below (new.index + 1) x
        → Below (new.index + 1) (elim x [ none ↦ some new | some r ↦ some r ])
    filled none h = omega arith
    filled (some r) h = h

pub empty-IsBounded : (n count : ℕ) → IsBounded n (empty_matcher count)
empty-IsBounded n count = record {
  exact = tt;
  suffix = tt;
  keywords = tt;
  cidrs = tt;
  match_all = tt;
}
