-- ===== src/Exit/Classify/Total.antt =====
-- What a rule set that passes `validate` (crates/rf/src/exit.rs) can be asked.
use randall_flare.Prelude.{
  ℕ, ◌≡◌, refl, ◌∙◌, sym, ap, subst, inl, inr, Option, none, some, Bool, true, false, not, ◌&&◌,
  ◌||◌, List, [], ◌∷◌, if◌then◌else◌, is_some, arith, Bool-cases, Option-cases,
}
use randall_flare.Prelude.Order.{Bytes, bytes_ord, is_eq}
use randall_flare.Prelude.Result.{Result, ok, err, ◌>>=◌, bind_ok, guard_ok}
use randall_flare.Prelude.Table
use randall_flare.Prelude.Table.{Table}
use randall_flare.Prelude.Text.{ascii, starts_with}
use randall_flare.Prelude.Ascii.{lower, upper, to_lower, to_upper, eq_ignore_case}
use randall_flare.Identity.{Crypto}
use randall_flare.Exit.Errors.{ExitError}
use randall_flare.Exit.Address.{IpAddr}
use randall_flare.Exit.Spec.{ExitRuleSpec, ExitTarget, CompiledRule}
use randall_flare.Exit.Rules.{compile}
use randall_flare.Exit.Index.{build, first_policy, applies}
use randall_flare.Exit.Index.Correct.{policy-build}
use randall_flare.Exit.Classify.{
  check_bound, validate, Decision, decide, decide_all, is_built_in, host_key, classify_with,
}

lower-upper : (b : ℕ) → lower (upper b) ≡ lower b
unfolding lower upper
lower-upper b = ground arith

to_lower-to_upper : (s : Bytes) → to_lower (to_upper s) ≡ to_lower s
unfolding to_lower to_upper
to_lower-to_upper [] = refl
to_lower-to_upper (x ∷ s) = cc (lower-upper x, to_lower-to_upper s)

-- A name is spelled alike but for case where it is spelled alike in upper case.
same_upper : (s t : Bytes) → is_eq (to_upper s) (to_upper t) ≡ true → eq_ignore_case s t ≡ true
same_upper s t h =
    let e = bytes_ord.cmp_eq (to_upper s) (to_upper t) (ground arith) in
    let same : to_lower s ≡ to_lower t =
      sym (to_lower-to_upper s) ∙ ap to_lower e ∙ to_lower-to_upper t in
    ground (arith, bytes_ord.cmp_self (to_lower t), same)

abbrev Decides : Result ExitError Decision → Type 0
Decides r = (d : Decision) × (r ≡ ok d)

abbrev pub Answers : Result ExitError (Option Decision) → Type 0
Answers r = (d : Option Decision) × (r ≡ ok d)

decide_bound :
    (exits : Table Bytes ExitTarget) (name : Bytes) (t : ExitTarget)
    → Table.get exits name ≡ some t
    → Decides (decide exits name)
unfolding decide
decide_bound exits name ExitTarget.direct e = (Decision.direct, rw (e, decide) refl)
decide_bound exits name ExitTarget.reject e = (Decision.reject, rw (e, decide) refl)
decide_bound exits name ExitTarget.nearest e = (Decision.nearest, rw (e, decide) refl)
decide_bound exits name (ExitTarget.node n) e = (Decision.node n, rw (e, decide) refl)

-- The test that `validate` makes of a name that has no exit.
built_in_tests :
    (name : Bytes)
    → is_built_in (to_upper name) ≡ true
    → ((eq_ignore_case name (ascii "REJECT") || starts_with (to_upper name) (ascii "REJECT-"))
        || eq_ignore_case name (ascii "DIRECT"))
      ≡ true
unfolding is_built_in to_upper upper
built_in_tests name h =
    let direct : is_eq (to_upper name) (ascii "DIRECT") ≡ true
        → eq_ignore_case name (ascii "DIRECT") ≡ true =
      same_upper name (ascii "DIRECT") in
    let reject : is_eq (to_upper name) (ascii "REJECT") ≡ true
        → eq_ignore_case name (ascii "REJECT") ≡ true =
      same_upper name (ascii "REJECT") in
    by_tests (is_eq (to_upper name) (ascii "DIRECT")) (is_eq (to_upper name) (ascii "REJECT"))
      (starts_with (to_upper name) (ascii "REJECT-")) (eq_ignore_case name (ascii "REJECT"))
      (eq_ignore_case name (ascii "DIRECT")) direct reject h
  where
    by_tests :
        (a b c d e : Bool)
        → (a ≡ true → e ≡ true)
        → (b ≡ true → d ≡ true)
        → (a || (b || c)) ≡ true
        → ((d || c) || e) ≡ true
    by_tests a b c d e f g h = ground arith

built_in-Decides :
    (a b : Bool) (e : ExitError)
    → (a || b) ≡ true
    → Decides (if a then ok Decision.reject else if b then ok Decision.direct else err e)
built_in-Decides true b e h = (Decision.reject, refl)
built_in-Decides false true e h = (Decision.direct, refl)
built_in-Decides false false e h = absurd (cc)

-- A policy that `check_bound` lets pass stands for an exit.
decide-Decides :
    (exits : Table Bytes ExitTarget) (name : Bytes)
    → (is_built_in (to_upper name) || is_some (Table.get exits name)) ≡ true
    → Decides (decide exits name)
unfolding decide
decide-Decides exits name h = elim (Option-cases (Table.get exits name)) [
  | inr (t, e) ↦ decide_bound exits name t e
  | inl e ↦
      rw (e, decide)
        (built_in-Decides
          (eq_ignore_case name (ascii "REJECT") || starts_with (to_upper name) (ascii "REJECT-"))
          (eq_ignore_case name (ascii "DIRECT")) (ExitError.no_exit name)
          (built_in_tests name (ground (arith, h, e))))
]

decide_all-first_policy :
    (exits : Table Bytes ExitTarget) (rules : List CompiledRule) (host : Bytes) (ip : Option IpAddr)
    → check_bound exits rules ≡ ok tt
    → Answers (decide_all exits (first_policy rules host ip))
unfolding check_bound first_policy decide_all
decide_all-first_policy exits [] host ip h = (none, refl)
decide_all-first_policy exits (rule ∷ rules) host ip h =
    let (bound, rest) =
      guard_ok
        (not (is_built_in (to_upper rule.policy)) && not (is_some (Table.get exits rule.policy)))
        (ExitError.unbound_policy rule.policy) (check_bound exits rules) tt h in
    elim (Bool-cases (applies rule.matcher host ip)) [
      | inl e ↦
          let (d, q) = decide-Decides exits rule.policy (ground arith) in
          (some d, rw (e, first_policy) (rw (q, decide_all) refl))
      | inr e ↦ rw (e, first_policy) (decide_all-first_policy exits rules host ip rest)
    ]

-- A rule set that passes `validate` compiles, and its matcher gives a decision, or none where no rule
-- applies, for every host and every address: no policy is without an exit.
pub validate-classify :
    (c : Crypto) (fuel : ℕ) (spec : ExitRuleSpec)
    → validate c fuel spec ≡ ok tt
    → (rules : List CompiledRule) × (compile fuel spec ≡ ok rules)
      × ((host : Bytes) (ip : Option IpAddr) → Answers (classify_with spec (build rules) host ip))
unfolding validate classify_with
validate-classify c fuel spec h =
    let (_, _, h) = bind_ok _ (λ _. compile fuel spec >>= check_bound spec.policy_exits) tt h in
    let (rules, compiled, bound) =
      bind_ok (compile fuel spec) (check_bound spec.policy_exits) tt h in
    (
      rules,
      compiled,
      λ host ip.
          subst (λ p. Answers (decide_all spec.policy_exits p))
            (sym (policy-build rules (host_key host) ip))
            (decide_all-first_policy spec.policy_exits rules (host_key host) ip bound),
    )
