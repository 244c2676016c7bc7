-- ===== src/Exit/Rules.antt =====
-- `compile` of crates/rf/src/exit.rs. `parse_rule_line` returns the rules it pushes; a rule set that
-- includes another one makes it call itself, and the fuel bounds the depth of that.
pub mod Ending
pub mod Nesting
use randall_flare.Prelude.{
  ℕ, zero, suc, Option, none, some, Bool, true, false, not, ◌&&◌, ◌||◌, List, [], ◌∷◌, ◌++◌, map,
  if◌then◌else◌, ltb, length, drop, any,
}
use randall_flare.Prelude.Order.{Bytes, bytes_ord, is_eq}
use randall_flare.Prelude.Result.{Result, ok, err, ◌>>=◌}
use randall_flare.Prelude.Table
use randall_flare.Prelude.Text.{ascii, split, starts_with, trim, trim_start}
use randall_flare.Prelude.Ascii.{
  to_lower, to_upper, contains, has_byte, strip_prefix, lines, eq_ignore_case,
}
use randall_flare.Exit.Errors.{ExitError}
use randall_flare.Exit.Address.{IpCidr, parse_cidr, or_err}
use randall_flare.Exit.Spec.{
  RuleFormat, ExitRuleSpec, RuleMatcher, CompiledRule, strip_comment, is_blank, normalized_line,
  clash_rule_lines, normalize_host,
}

abbrev pub Compiled : Type 0
Compiled = Result ExitError (List CompiledRule)

-- The one rule that a line pushes.
abbrev pub push : RuleMatcher → Bytes → Compiled
push matcher policy = ok (record { matcher = matcher; policy = policy } ∷ [])

-- A loop whose rounds push rules.
unfoldable pub each_line : (Bytes → Compiled) → List Bytes → Compiled
each_line f [] = ok []
each_line f (line ∷ rest) = f line >>= λ rules. each_line f rest >>= λ more. ok (rules ++ more)

-- `line.strip_prefix("+.").or_else(|| line.strip_prefix('.'))`.
abbrev pub suffix_of : Bytes → Option Bytes
suffix_of line = elim (strip_prefix line (ascii "+.")) [
  | some s ↦ some s
  | none ↦ strip_prefix line (ascii ".")
]

-- A line without a comma.
unfoldable pub bare_rule : Bytes → Option Bytes → Compiled
unfolding strip_prefix
bare_rule line none = err ExitError.bare_rule
bare_rule line (some policy) = elim (parse_cidr line) [
  | ok cidr ↦ push (RuleMatcher.ip_cidr cidr) policy
  | err _ ↦ elim (suffix_of line) [
    | some suffix ↦ normalize_host suffix >>= λ host. push (RuleMatcher.domain_suffix host) policy
    | none ↦ normalize_host line >>= λ host. push (RuleMatcher.domain host) policy
  ]
]

abbrev pub first_or_empty : List Bytes → Bytes
first_or_empty [] = []
first_or_empty (x ∷ _) = x

abbrev pub part : ℕ → List Bytes → Bytes
part n parts = first_or_empty (drop n parts)

-- The policy of a line: the first part from the third on that names one, or the inherited one.
abbrev or_empty : Option Bytes → Bytes
or_empty none = []
or_empty (some p) = p

unfoldable pub policy_of : List Bytes → Option Bytes → Bytes
policy_of [] inherited = or_empty inherited
policy_of (p ∷ ps) inherited =
    let rest = policy_of ps inherited in
    if not (is_blank p) && not (eq_ignore_case p (ascii "no-resolve")) then p else rest

-- The lines of a snapshot.
unfoldable pub uncommented : List Bytes → List Bytes
unfolding strip_comment trim
uncommented [] = []
uncommented (raw ∷ raws) =
    let line = trim (strip_comment raw) in
    let rest = uncommented raws in if is_blank line then rest else line ∷ rest

unfoldable pub provider_lines : Bytes → Result ExitError (List Bytes)
unfolding lines trim uncommented
provider_lines content =
    if any (λ line. is_eq (trim line) (ascii "payload:")) (lines content)
    then clash_rule_lines content
    else ok (uncommented (lines content))

-- RULE-SET: the lines of a snapshot, each with the policy inherited.
unfoldable pub rule_set : (Bytes → Bytes → Compiled) → ExitRuleSpec → Bytes → Bytes → Compiled
rule_set nested spec value policy =
    if is_blank policy
    then err ExitError.no_rule_set_policy
    else (or_err (ExitError.no_snapshot value) (Table.get spec.providers value) >>= λ content.
        provider_lines content >>= λ ls. each_line (nested policy) ls)

-- GEOIP: the blocks of a snapshot.
unfoldable pub geoip : ExitRuleSpec → Bytes → Bytes → Compiled
unfolding to_upper lines
geoip spec value policy =
    if is_blank policy
    then err ExitError.no_geoip_policy
    else (or_err (ExitError.no_geoip_snapshot (ascii "geoip:" ++ to_upper value))
          (Table.get spec.providers (ascii "geoip:" ++ to_upper value))
        >>= λ content.
            each_line (λ line. parse_cidr line >>= λ cidr. push (RuleMatcher.ip_cidr cidr) policy)
              (uncommented (lines content)))

unfoldable pub final_rule : Bytes → Compiled
final_rule policy =
    if is_blank policy then err ExitError.no_final_policy else push RuleMatcher.match_all policy

unfoldable pub plain_rule : Bytes → Bytes → Bytes → Compiled
unfolding to_lower
plain_rule kind value policy =
    if is_eq kind (ascii "DOMAIN")
    then (normalize_host value >>= λ host. push (RuleMatcher.domain host) policy)
    else if is_eq kind (ascii "DOMAIN-SUFFIX")
    then (normalize_host value >>= λ host. push (RuleMatcher.domain_suffix host) policy)
    else if is_eq kind (ascii "DOMAIN-KEYWORD")
    then (if is_blank value || ltb 253 (length value)
        then err ExitError.bad_keyword
        else push (RuleMatcher.domain_keyword (to_lower value)) policy)
    else if is_eq kind (ascii "IP-CIDR") || is_eq kind (ascii "IP-CIDR6")
    then (parse_cidr value >>= λ cidr. push (RuleMatcher.ip_cidr cidr) policy)
    else ok []

-- A line with commas: its kind decides.
unfoldable pub listed_rule :
    (Bytes → Bytes → Compiled) → ExitRuleSpec → Bytes → Bytes → Bytes → Bytes → Compiled
listed_rule nested spec line kind value policy =
    if is_eq kind (ascii "RULE-SET")
    then rule_set nested spec value policy
    else if is_eq kind (ascii "GEOIP")
    then geoip spec value policy
    else if is_eq kind (ascii "FINAL") || is_eq kind (ascii "MATCH")
    then final_rule value
    else if is_blank policy
    then err (ExitError.no_policy line)
    else plain_rule kind value policy

-- `line.split(',').map(str::trim)`.
abbrev pub parts_of : Bytes → List Bytes
parts_of line = map trim (split 44 line)

abbrev pub kind_of : Bytes → Bytes
kind_of line = to_upper (first_or_empty (parts_of line))

unfoldable pub parse_rule_line : ℕ → ExitRuleSpec → Bytes → Option Bytes → Compiled
unfolding split trim to_upper policy_of has_byte
parse_rule_line zero spec line inherited = err ExitError.out_of_fuel
parse_rule_line (suc fuel) spec line inherited =
    if not (has_byte 44 line)
    then bare_rule line inherited
    else listed_rule (λ policy l. parse_rule_line fuel spec l (some policy)) spec line
        (kind_of line) (part 1 (parts_of line)) (policy_of (drop 2 (parts_of line)) inherited)

abbrev is_format : RuleFormat → RuleFormat → Bool
is_format RuleFormat.auto RuleFormat.auto = true
is_format RuleFormat.surge RuleFormat.surge = true
is_format RuleFormat.clash RuleFormat.clash = true
is_format _ _ = false

unfoldable pub is_clash : ExitRuleSpec → Bool
unfolding contains trim_start
is_clash spec =
    is_format spec.format RuleFormat.clash
    || (is_format spec.format RuleFormat.auto
        && (contains spec.config (ascii "payload:")
            || (contains spec.config (10 ∷ ascii "rules:")
                || starts_with (trim_start spec.config) (ascii "rules:"))))

-- The loop over the lines of a configuration that is not Clash's.
unfoldable pub normalized : List Bytes → List Bytes
normalized [] = []
normalized (raw ∷ raws) = elim (normalized_line raw false) [
  | none ↦ normalized raws
  | some line ↦ line ∷ normalized raws
]

abbrev pub at_most : List CompiledRule → Compiled
at_most rules = if ltb 200_000 (length rules) then err ExitError.many_rules else ok rules

unfoldable pub config_lines : ExitRuleSpec → Result ExitError (List Bytes)
unfolding is_clash lines normalized
config_lines spec =
    if is_clash spec then clash_rule_lines spec.config else ok (normalized (lines spec.config))

unfoldable pub compile : ℕ → ExitRuleSpec → Compiled
compile fuel spec = config_lines spec >>= λ ls.
    each_line (λ line. parse_rule_line fuel spec line none) ls >>= λ rules. at_most rules
