-- ===== src/Exit/Cache/Agrees.antt =====
-- The cache of matchers (crates/rf/src/exit.rs) never changes an answer of `classify`.
use randall_flare.Prelude.{
  ℕ, ◌≡◌, refl, sym, ap, ◌∙◌, subst, inl, inr, ◌-◌, Option, some, not, List, [], ◌∷◌, ltb,
  Bool-cases, Option-cases,
}
use randall_flare.Prelude.Order.{Bytes, bytes_ord, is_eq}
use randall_flare.Prelude.Members.{In}
use randall_flare.Prelude.Result.{Result, ok, err, ◌>>=◌, bind_ok}
use randall_flare.Prelude.Table
use randall_flare.Prelude.Table.{Table, Each}
use randall_flare.Prelude.Table.Laws.{insert-Each, retain-Each, get-Each}
use randall_flare.Exit.Errors.{ExitError}
use randall_flare.Exit.Address.{IpAddr}
use randall_flare.Exit.Spec.{ExitRuleSpec, CompiledRule}
use randall_flare.Exit.Rules.{compile}
use randall_flare.Exit.Index.{IndexedMatcher, build, first_policy}
use randall_flare.Exit.Index.Correct.{policy-build}
use randall_flare.Exit.Classify.{Decision, decide_all, host_key, classify_with}
use randall_flare.Exit.Cache.{
  MatcherCache, remove, evict, is_full, push_back, store, indexed_matcher, classify,
}

same_rules :
    (a b : List CompiledRule) → Path (Result ExitError (List CompiledRule)) (ok a) (ok b) → a ≡ b
same_rules a b q = cc

module _ (hash : ExitRuleSpec → Bytes) (fuel : ℕ) where
  -- A matcher is that of a rule set seen before, under its digest.
  pub record IsOf (seen : List ExitRuleSpec) (key : Bytes) (m : IndexedMatcher) : Type 0 where
    pub spec : ExitRuleSpec
    pub known : In spec seen
    pub digest : hash spec ≡ key
    pub rules : List CompiledRule
    pub compiled : compile fuel spec ≡ ok rules
    pub built : m ≡ build rules

  abbrev pub Holds : List ExitRuleSpec → MatcherCache → Type 0
  Holds seen cache = Each (IsOf seen) cache.entries

  IsOf-grow :
      (spec : ExitRuleSpec) (seen : List ExitRuleSpec) (t : Table Bytes IndexedMatcher)
      → Each (IsOf seen) t
      → Each (IsOf (spec ∷ seen)) t
  IsOf-grow spec seen [] h = tt
  IsOf-grow spec seen ((k, m) ∷ t) h = (
    record {
      spec = h.0.spec;
      known = inr h.0.known;
      digest = h.0.digest;
      rules = h.0.rules;
      compiled = h.0.compiled;
      built = h.0.built;
    },
    IsOf-grow spec seen t h.1,
  )

  evict-Each :
      (P : Bytes → IndexedMatcher → Type 0) (count : ℕ) (order : List Bytes)
      (t : Table Bytes IndexedMatcher) (total : ℕ)
      → Each P t
      → Each P (evict count order t total).entries
  unfolding evict remove
  evict-Each P count [] t total h = h
  evict-Each P count (k ∷ order) t total h = elim (Bool-cases (is_full t total count)) [
    | inr e ↦ rw (e, evict) h
    | inl e ↦ elim (Option-cases (Table.get t k)) [
      | inl n ↦ rw (e, evict, n) (evict-Each P count order t total h)
      | inr (m, n) ↦
          rw (e, evict, n)
            (evict-Each P count order (remove k t) (total - m.rule_count)
              (retain-Each P (λ j _. not (is_eq j k)) t h))
    ]
  ]

  push_back-Each :
      (P : Bytes → IndexedMatcher → Type 0) (key : Bytes) (m : IndexedMatcher) (c : MatcherCache)
      → P key m
      → Each P c.entries
      → Each P (push_back key m c).entries
  push_back-Each P key m c p h = elim (Bool-cases (ltb 400_000 m.rule_count)) [
    | inl e ↦ rw (e, push_back) h
    | inr e ↦ rw (e, push_back) (insert-Each P key m c.entries p h)
  ]

  store-Each :
      (P : Bytes → IndexedMatcher → Type 0) (key : Bytes) (m : IndexedMatcher) (c : MatcherCache)
      → P key m
      → Each P c.entries
      → Each P (store key m c).0.entries
  unfolding store
  store-Each P key m c p h = elim (Option-cases (Table.get c.entries key)) [
    | inr (_, e) ↦ rw (e, store) h
    | inl e ↦
        rw (e, store)
          (push_back-Each P key m (evict m.rule_count c.order c.entries c.total_rules) p
            (evict-Each P m.rule_count c.order c.entries c.total_rules h))
  ]

  -- No rule set seen before has the digest of another one.
  module _ (seen : List ExitRuleSpec) (spec : ExitRuleSpec)
      (apart : (s : ExitRuleSpec) → In s seen → hash s ≡ hash spec → s ≡ spec) where
    held_matcher :
        (cache : MatcherCache) (m : IndexedMatcher)
        → Holds seen cache
        → Table.get cache.entries (hash spec) ≡ some m
        → (rules : List CompiledRule) × (compile fuel spec ≡ ok rules) × (m ≡ build rules)
    held_matcher cache m h e =
        let i = get-Each (IsOf seen) (hash spec) cache.entries m h e in
        (
          i.rules,
          subst (λ s. compile fuel s ≡ ok i.rules) (apart i.spec i.known i.digest) i.compiled,
          i.built,
        )

    -- The matcher that comes back is the one of the rule set, and the cache holds it from then on.
    indexed_matcher-builds :
        (first second : MatcherCache)
        → Holds seen first
        → Holds seen second
        → (indexed_matcher hash fuel spec first second >>= λ (p : MatcherCache × IndexedMatcher).
            ok p.1)
          ≡ (compile fuel spec >>= λ rules. ok (build rules))
    unfolding indexed_matcher store
    indexed_matcher-builds first second h k =
        elim (Option-cases (Table.get first.entries (hash spec))) [
          | inr (m, e) ↦
              let (rules, c, b) = held_matcher first m h e in rw (e, indexed_matcher, c) (ap ok b)
          | inl e ↦ rw (e, indexed_matcher) (by_compile (compile fuel spec) refl)
        ]
      where
        by_compile :
            (r : Result ExitError (List CompiledRule))
            → compile fuel spec ≡ r
            → ((r >>= λ rules. ok (store (hash spec) (build rules) second))
                >>= λ (p : MatcherCache × IndexedMatcher). ok p.1)
              ≡ (r >>= λ rules. ok (build rules))
        by_compile (err e) c = refl
        by_compile (ok rules) c = elim (Option-cases (Table.get second.entries (hash spec))) [
          | inl e ↦ rw (e, store) refl
          | inr (m, e) ↦
              let (rules', c', b) = held_matcher second m k e in
              ap ok (rw (e, store) (b ∙ ap build (same_rules rules' rules (sym c' ∙ c))))
        ]

    -- With the cache in any state that `indexed_matcher` can leave it in, at each of the two times it is
    -- looked at, and no digest shared by two rule sets, `classify` gives what the rules give when they
    -- are compiled and read from the top.
    pub classify-reads_rules :
        (host : Bytes) (ip : Option IpAddr) (first second : MatcherCache)
        → Holds seen first
        → Holds seen second
        → (classify hash fuel spec host ip first second >>= λ (p : MatcherCache × Option Decision).
            ok p.1)
          ≡ (compile fuel spec >>= λ rules.
              decide_all spec.policy_exits (first_policy rules (host_key host) ip))
    unfolding classify classify_with
    classify-reads_rules host ip first second h k =
        second_part (indexed_matcher hash fuel spec first second)
        ∙ (ap (λ r. r >>= λ m. classify_with spec m host ip)
              (indexed_matcher-builds first second h k)
            ∙ from_rules (compile fuel spec))
      where
        second_part :
            (r : Result ExitError (MatcherCache × IndexedMatcher))
            → ((r >>= λ (p : MatcherCache × IndexedMatcher).
                  classify_with spec p.1 host ip >>= λ decision. ok (p.0, decision))
                >>= λ (p : MatcherCache × Option Decision). ok p.1)
              ≡ ((r >>= λ (p : MatcherCache × IndexedMatcher). ok p.1) >>= λ m.
                  classify_with spec m host ip)
        second_part (err e) = refl
        second_part (ok (c, m)) = drop_cache (classify_with spec m host ip)
          where
            drop_cache :
                (d : Result ExitError (Option Decision))
                → ((d >>= λ decision. ok (c, decision)) >>= λ (p : MatcherCache × Option Decision).
                    ok p.1)
                  ≡ d
            drop_cache (ok d) = refl
            drop_cache (err e) = refl

        from_rules :
            (r : Result ExitError (List CompiledRule))
            → ((r >>= λ rules. ok (build rules)) >>= λ m. classify_with spec m host ip) ≡ (
                r >>= λ rules. decide_all spec.policy_exits (first_policy rules (host_key host) ip))
        from_rules (err e) = refl
        from_rules (ok rules) =
            ap (decide_all spec.policy_exits) (policy-build rules (host_key host) ip)

  -- `indexed_matcher` leaves in the cache only matchers of the rule sets that it was called with, each
  -- under its digest.
  pub indexed_matcher-Holds :
      (seen : List ExitRuleSpec) (spec : ExitRuleSpec) (first second after : MatcherCache)
      (m : IndexedMatcher)
      → Holds seen second
      → indexed_matcher hash fuel spec first second ≡ ok (after, m)
      → Holds (spec ∷ seen) after
  unfolding indexed_matcher
  indexed_matcher-Holds seen spec first second after m h e =
      elim (Option-cases (Table.get first.entries (hash spec))) [
        | inr (n, g) ↦
            let q = rw (g, indexed_matcher) at e in
            subst (λ c. Holds (spec ∷ seen) c) (same_cache second after n m q)
              (IsOf-grow spec seen second.entries h)
        | inl g ↦
            let (rules, c, q) =
              bind_ok (compile fuel spec) _ (after, m) (rw (g, indexed_matcher) at e) in
            let new : IsOf (spec ∷ seen) (hash spec) (build rules) = record {
              spec = spec;
              known = inl refl;
              digest = refl;
              rules = rules;
              compiled = c;
              built = refl;
            } in
            subst (λ c. Holds (spec ∷ seen) c) (same_cache _ after _ m q)
              (store-Each (IsOf (spec ∷ seen)) (hash spec) (build rules) second new
                (IsOf-grow spec seen second.entries h))
      ]
    where
      same_cache :
          (a b : MatcherCache) (n m : IndexedMatcher)
          → Path (Result ExitError (MatcherCache × IndexedMatcher)) (ok (a, n)) (ok (b, m))
          → a ≡ b
      same_cache a b n m q = cc
