-- ===== src/Exit/Classify.antt =====
-- `ExitRuleSpec::validate`, `extract_policies` and the decision of `classify` of crates/rf/src/exit.rs.
pub mod Total
use randall_flare.Prelude.{
  ℕ, Option, none, some, Bool, true, false, not, ◌&&◌, ◌||◌, List, [], ◌∷◌, if◌then◌else◌, ltb,
  ◌==◌, length, any, is_some, saturating_add,
}
use randall_flare.Prelude.Order.{Bytes, bytes_ord, is_eq}
use randall_flare.Prelude.Result.{Result, ok, err, ◌>>=◌, ◌>>◌}
use randall_flare.Prelude.Table
use randall_flare.Prelude.Table.{Table}
use randall_flare.Prelude.Text.{ascii, starts_with, trim}
use randall_flare.Prelude.Ascii.{to_upper, has_byte, to_lower, trim_end_by, eq_ignore_case}
use randall_flare.Identity.{Crypto, parse_public}
use randall_flare.Exit.Errors.{ExitError}
use randall_flare.Exit.Address.{IpAddr}
use randall_flare.Exit.Spec.{ExitRuleSpec, ExitTarget, CompiledRule, is_blank, valid_provider_name}
use randall_flare.Exit.Rules.{compile}
use randall_flare.Exit.Index.{IndexedMatcher, policy}

abbrev pub Checked : Type 0
Checked = Result ExitError (Unit {0})

abbrev pub refuse_if : Bool → ExitError → Checked
refuse_if b e = if b then err e else ok tt

-- The loop over the snapshots, with the bytes counted so far.
unfoldable pub check_providers : ℕ → Table Bytes Bytes → Result ExitError ℕ
unfolding valid_provider_name has_byte
check_providers bytes [] = ok bytes
check_providers bytes ((source, content) ∷ rest) =
    let onward = check_providers (saturating_add bytes (length content)) rest in
    if not (valid_provider_name source)
    then err (ExitError.bad_provider source)
    else if ltb 2_097_152 (length content) || has_byte 0 content
    then err (ExitError.large_provider source)
    else onward

abbrev pub is_line_end : ℕ → Bool
is_line_end x = (x == 13) || ((x == 10) || (x == 0))

-- `policy.eq_ignore_ascii_case`-free tests on the upper-case name.
unfoldable pub is_built_in : Bytes → Bool
is_built_in upper =
    is_eq upper (ascii "DIRECT")
    || (is_eq upper (ascii "REJECT") || starts_with upper (ascii "REJECT-"))

unfoldable pub check_bound : Table Bytes ExitTarget → List CompiledRule → Checked
unfolding to_upper
check_bound exits [] = ok tt
check_bound exits (rule ∷ rules) =
    let onward = check_bound exits rules in
    if not (is_built_in (to_upper rule.policy)) && not (is_some (Table.get exits rule.policy))
    then err (ExitError.unbound_policy rule.policy)
    else onward

module _ (c : Crypto) where
  abbrev pub check_target : ExitTarget → Checked
  check_target (ExitTarget.node node_id) = elim (parse_public c node_id) [
    | ok _ ↦ ok tt
    | err _ ↦ err (ExitError.bad_node_id node_id)
  ]
  check_target _ = ok tt

  unfoldable pub check_exits : Table Bytes ExitTarget → Checked
  unfolding trim
  check_exits [] = ok tt
  check_exits ((name, target) ∷ rest) =
      refuse_if (is_blank (trim name) || (ltb 200 (length name) || any is_line_end name))
        ExitError.bad_policy_name
      >> check_target target
      >> check_exits rest

  unfoldable pub validate : ℕ → ExitRuleSpec → Checked
  unfolding has_byte
  validate fuel spec =
      refuse_if (not (spec.schema == 1)) ExitError.bad_schema
      >> refuse_if
          (ltb 1_000 (length spec.description) || any (λ x. (x == 13) || (x == 0)) spec.description)
          ExitError.long_description
      >> refuse_if (ltb 200_000 (length spec.config) || has_byte 0 spec.config)
          ExitError.long_config
      >> refuse_if (ltb 64 (length spec.providers)) ExitError.many_providers
      >> (check_providers 0 spec.providers >>= λ bytes.
          refuse_if (ltb 8_388_608 bytes) ExitError.large_providers)
      >> refuse_if (ltb 256 (length spec.policy_exits)) ExitError.many_policies
      >> check_exits spec.policy_exits
      >> (compile fuel spec >>= check_bound spec.policy_exits)

-- `extract_policies`, with the policies seen so far.
unfoldable pub policies_from : List Bytes → List CompiledRule → List Bytes
unfolding to_upper
policies_from seen [] = []
policies_from seen (rule ∷ rules) =
    let skip = policies_from seen rules in
    let take = policies_from (rule.policy ∷ seen) rules in
    if is_built_in (to_upper rule.policy)
    then skip
    else if any (λ p. is_eq p rule.policy) seen
    then skip
    else rule.policy ∷ take

unfoldable pub extract_policies : ℕ → ExitRuleSpec → Result ExitError (List Bytes)
extract_policies fuel spec = compile fuel spec >>= λ rules. ok (policies_from [] rules)

pub data Decision : Type 0 where
  direct reject nearest : Decision
  node : Bytes → Decision

-- What a policy stands for.
unfoldable pub decide : Table Bytes ExitTarget → Bytes → Result ExitError Decision
unfolding to_upper to_lower
decide exits name = elim (Table.get exits name) [
  | some ExitTarget.direct ↦ ok Decision.direct
  | some ExitTarget.reject ↦ ok Decision.reject
  | some ExitTarget.nearest ↦ ok Decision.nearest
  | some (ExitTarget.node node_id) ↦ ok (Decision.node node_id)
  | none ↦
      if eq_ignore_case name (ascii "REJECT") || starts_with (to_upper name) (ascii "REJECT-")
      then ok Decision.reject
      else if eq_ignore_case name (ascii "DIRECT")
      then ok Decision.direct
      else err (ExitError.no_exit name)
]

unfoldable pub decide_all :
    Table Bytes ExitTarget → Option Bytes → Result ExitError (Option Decision)
decide_all exits none = ok none
decide_all exits (some name) = decide exits name >>= λ decision. ok (some decision)

-- `classify` with a matcher at hand.
abbrev pub host_key : Bytes → Bytes
host_key host = to_lower (trim_end_by (λ x. x == 46) host)

unfoldable pub classify_with :
    ExitRuleSpec → IndexedMatcher → Bytes → Option IpAddr → Result ExitError (Option Decision)
unfolding to_lower trim_end_by
classify_with spec m host ip = decide_all spec.policy_exits (policy m (host_key host) ip)
