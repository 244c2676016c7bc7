-- ===== src/Exit/Tests.antt =====
-- The theorems on split-routing rules at concrete rule sets.
use randall_flare.Prelude.{
  ℕ, ◌≡◌, ◌↔◌, refl, sym, ◌∙◌, subst, ◌<◌, ◌≤◌, All, inl, inr, if◌then◌else◌, Option, none, some,
  Bool, true, List, [], ◌∷◌, any, arith,
}
use randall_flare.Prelude.Int.{ℤ}
use randall_flare.Prelude.Order.{Bytes, cmp_bytes, bytes_ord, is_eq}
use randall_flare.Prelude.Result.{Result, ok, err, ◌>>=◌}
use randall_flare.Prelude.Table
use randall_flare.Prelude.Text.{ascii, split, trim, trim_start, starts_with}
use randall_flare.Prelude.Ascii.{
  to_lower, to_upper, lower, upper, contains, has_byte, trim_end_by, trim_start_by, lines, lines_of,
}
use randall_flare.Identity.Toy.{toy}
use randall_flare.Exit.Errors.{ExitError}
use randall_flare.Exit.Address.{IpAddr, mask_ip, cidr_contains}
use randall_flare.Exit.Spec.{
  RuleFormat, ExitTarget, ExitRuleSpec, RuleMatcher, CompiledRule, cut_slashes, before,
  strip_comment, normalized_line, normalize_host,
}
use randall_flare.Exit.Rules.{
  each_line, policy_of, uncommented, provider_lines, final_rule, plain_rule, listed_rule,
  parse_rule_line, is_clash, normalized, config_lines, compile,
}
use randall_flare.Exit.Rules.Nesting.{
  names_rule_set, snapshot_of, Descends, compile-Ended, self_inclusion-loops,
}
use randall_flare.Exit.Rules.Ending.{Ended}
use randall_flare.Exit.Index.{
  IndexedMatcher, build, add_all, add, policy, first_policy, applies, parents,
}
use randall_flare.Exit.Index.Correct.{policy-build}
use randall_flare.Prelude.Members.{In}
use randall_flare.Prelude.Table.Laws.{get-Each}
use randall_flare.Exit.Address.Blocks.{high_bits, cidr_contains-mask_ip}
use randall_flare.Exit.Cache.{MatcherCache, new_cache, store, evict, classify}
use randall_flare.Exit.Cache.Counted.{WellKept}
use randall_flare.Exit.Cache.Bounds.{store-WellKept, new_cache-WellKept}
use randall_flare.Exit.Cache.Agrees.{Holds, classify-reads_rules}
use randall_flare.Exit.Classify.Total.{Answers, validate-classify}
use randall_flare.Exit.Classify.{
  check_providers, is_built_in, check_bound, check_exits, validate, Decision, decide_all, host_key,
  classify_with,
}

abbrev rule : RuleMatcher → Bytes → CompiledRule
rule m p = record { matcher = m; policy = p }

abbrev some_rules : List CompiledRule
some_rules =
    rule (RuleMatcher.domain_suffix (ascii "b.c")) (ascii "P")
    ∷ rule (RuleMatcher.domain (ascii "a.b.c")) (ascii "Q")
    ∷ rule RuleMatcher.match_all (ascii "R")
    ∷ []

policy-build_example : policy (build some_rules) (ascii "a.b.c") none ≡ some (ascii "P")
unfolding first_policy applies parents any cmp_bytes
policy-build_example = policy-build some_rules (ascii "a.b.c") none

abbrev with_config : Bytes → ExitRuleSpec
with_config config = record {
  schema = 1;
  description = [];
  enabled = true;
  priority = ℤ.pos 10;
  format = RuleFormat.surge;
  config = config;
  providers = [];
  policy_exits = (ascii "AI", ExitTarget.nearest) ∷ [];
}

abbrev fixture : ExitRuleSpec
fixture = with_config (ascii "DOMAIN,a.b,AI\nDOMAIN-SUFFIX,c.d,REJECT\nFINAL,DIRECT")

fixture_valid : validate toy 1 fixture ≡ ok tt
unfolding validate check_providers check_exits check_bound is_built_in compile config_lines is_clash
    normalized lines lines_of split normalized_line strip_comment cut_slashes before trim trim_start
    each_line parse_rule_line has_byte to_upper upper policy_of listed_rule plain_rule final_rule
    normalize_host to_lower lower trim_end_by trim_start_by starts_with any cmp_bytes Table.get
    contains
fixture_valid = refl

validate-classify_example :
    (rules : List CompiledRule) × (compile 1 fixture ≡ ok rules)
    × ((host : Bytes) (ip : Option IpAddr) → Answers (classify_with fixture (build rules) host ip))
validate-classify_example = validate-classify toy 1 fixture fixture_valid

-- A snapshot that names another one.
abbrev nested_spec : ExitRuleSpec
nested_spec = record (with_config (ascii "RULE-SET,a,P")) {
  providers = (ascii "a", ascii "RULE-SET,b,P") ∷ (ascii "b", ascii "c.d") ∷ [];
}

abbrev rank : Bytes → ℕ
rank key = if is_eq key (ascii "a") then 1 else 0

same_lines : (a b : List Bytes) → Path (Result ExitError (List Bytes)) (ok a) (ok b) → a ≡ b
same_lines a b h = cc

lines_a : provider_lines (ascii "RULE-SET,b,P") ≡ ok (ascii "RULE-SET,b,P" ∷ [])
unfolding provider_lines lines lines_of split uncommented strip_comment cut_slashes before trim
    trim_start any cmp_bytes
lines_a = refl

lines_b : provider_lines (ascii "c.d") ≡ ok (ascii "c.d" ∷ [])
unfolding provider_lines lines lines_of split uncommented strip_comment cut_slashes before trim
    trim_start any cmp_bytes
lines_b = refl

abbrev Below : Bytes → Bytes → Type 0
Below key content =
    (ls : List Bytes)
    → provider_lines content ≡ ok ls
    → All (λ l. names_rule_set l ≡ true → rank (snapshot_of l) < rank key) ls

first-Below : Below (ascii "a") (ascii "RULE-SET,b,P")
unfolding trim trim_start split cmp_bytes
first-Below ls h =
    subst (All (λ l. names_rule_set l ≡ true → rank (snapshot_of l) < 1))
      (same_lines (ascii "RULE-SET,b,P" ∷ []) ls (sym lines_a ∙ h)) ((λ e. omega arith), tt)

second-Below : Below (ascii "b") (ascii "c.d")
unfolding names_rule_set has_byte cmp_bytes
second-Below ls h =
    subst (All (λ l. names_rule_set l ≡ true → rank (snapshot_of l) < 0))
      (same_lines (ascii "c.d" ∷ []) ls (sym lines_b ∙ h)) ((λ e. absurd (cc)), tt)

nested-Descends : Descends nested_spec rank
nested-Descends key content ls g h =
    get-Each Below key nested_spec.providers content (first-Below, (second-Below, tt)) g ls h

rank_bound : (key : Bytes) → rank key ≤ 1
rank_bound key = ground arith

compile-Ended_example : Ended (compile 3 nested_spec)
compile-Ended_example = compile-Ended nested_spec rank nested-Descends 1 3 rank_bound (omega arith)

-- A snapshot that names itself.
abbrev loop_line : Bytes
loop_line = ascii "RULE-SET,a,P"

abbrev loop_spec : ExitRuleSpec
loop_spec = record (with_config loop_line) { providers = (ascii "a", loop_line) ∷ [] }

loop_found : Table.get loop_spec.providers (snapshot_of loop_line) ≡ some loop_line
unfolding Table.get trim trim_start split cmp_bytes
loop_found = refl

loop_named : names_rule_set loop_line ≡ true
unfolding names_rule_set has_byte trim trim_start split to_upper upper cmp_bytes
loop_named = refl

loop_lines : provider_lines loop_line ≡ ok (loop_line ∷ [])
unfolding provider_lines lines lines_of split uncommented strip_comment cut_slashes before trim
    trim_start any cmp_bytes
loop_lines = refl

self_inclusion-loops_example :
    parse_rule_line 1_000 loop_spec loop_line (some (ascii "P")) ≡ err ExitError.out_of_fuel
self_inclusion-loops_example =
    self_inclusion-loops loop_spec loop_line loop_line [] 1_000 (ascii "P") loop_named loop_found
      loop_lines refl

cidr_contains-mask_ip_example :
    (cidr_contains
        (record { network = mask_ip (IpAddr.v4 0x01010180) 24; prefix = 24 })
        (IpAddr.v4 0x010101ff)
      ≡ true)
    ↔ (Path Bool true true × (high_bits 32 24 0x010101ff ≡ high_bits 32 24 0x01010180))
cidr_contains-mask_ip_example =
    cidr_contains-mask_ip (IpAddr.v4 0x01010180) (IpAddr.v4 0x010101ff) 24 (omega arith)
      (omega arith)

abbrev other : ExitRuleSpec
other = with_config (ascii "FINAL,AI")

-- The digest of a rule set is its text: the two rule sets have different ones.
abbrev text_of : ExitRuleSpec → Bytes
text_of spec = spec.config

abbrev other_matcher : IndexedMatcher
other_matcher = build (rule RuleMatcher.match_all (ascii "AI") ∷ [])

abbrev cached : MatcherCache
cached = (store (ascii "FINAL,AI") other_matcher new_cache).0

store-WellKept_example : WellKept cached
store-WellKept_example =
    store-WellKept (ascii "FINAL,AI") other_matcher new_cache new_cache-WellKept

other_compiles : compile 1 other ≡ ok (rule RuleMatcher.match_all (ascii "AI") ∷ [])
unfolding compile config_lines is_clash normalized lines lines_of split normalized_line
    strip_comment cut_slashes before trim trim_start each_line parse_rule_line has_byte to_upper
    upper policy_of listed_rule final_rule to_lower lower starts_with any cmp_bytes contains
other_compiles = refl

cached-Holds : Holds text_of 1 (other ∷ []) cached
unfolding store evict Table.get Table.insert build add_all add
cached-Holds = (
  record {
    spec = other;
    known = inl refl;
    digest = refl;
    rules = rule RuleMatcher.match_all (ascii "AI") ∷ [];
    compiled = other_compiles;
    built = refl;
  },
  tt,
)

digests_apart : (s : ExitRuleSpec) → In s (other ∷ []) → text_of s ≡ text_of other → s ≡ other
digests_apart s (inl e) h = e
digests_apart s (inr i) h = absurd i

classify-reads_rules_example :
    (classify text_of 1 other (ascii "X.y.") none new_cache cached
      >>= λ (p : MatcherCache × Option Decision). ok p.1)
    ≡ (compile 1 other >>= λ rules.
        decide_all other.policy_exits (first_policy rules (host_key (ascii "X.y.")) none))
classify-reads_rules_example =
    classify-reads_rules text_of 1 (other ∷ []) other digests_apart (ascii "X.y.") none new_cache
      cached tt cached-Holds
