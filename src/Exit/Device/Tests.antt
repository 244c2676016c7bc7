-- ===== src/Exit/Device/Tests.antt =====
-- The theorems on devices at concrete records.
use randall_flare.Prelude.{
  zero, suc, ◌≡◌, ◌↔◌, refl, Option, none, some, true, false, [], ◌∷◌, all, any, if◌then◌else◌,
  ◌&&◌,
}
use randall_flare.Prelude.Order.{Bytes, cmp_bytes, bytes_ord, pair_ord, is_eq}
use randall_flare.Prelude.Int.{ℤ, int_ord}
use randall_flare.Prelude.Members.{In}
use randall_flare.Prelude.Result.{ok, err}
use randall_flare.Prelude.SortBy.{Ascends, sort_by, insert_by}
use randall_flare.Prelude.Table
use randall_flare.Prelude.Text.{ascii, split, trim, trim_start, starts_with}
use randall_flare.Prelude.Ascii.{
  to_lower, to_upper, lower, upper, contains, has_byte, trim_end_by, trim_start_by, lines, lines_of,
}
use randall_flare.Identity.Toy.{letters, twice, crypto}
use randall_flare.Manifest.Names.{valid_name}
use randall_flare.Resource.{Json, ResourceView, spec_of}
use randall_flare.Access.{Convert, set_of}
use randall_flare.Access.Compare.{constant_time_eq, difference_from}
use randall_flare.Exit.Errors.{ExitError}
use randall_flare.Exit.Spec.{
  RuleFormat, ExitRuleSpec, cut_slashes, before, strip_comment, normalized_line, normalize_host,
}
use randall_flare.Exit.Rules.{
  each_line, policy_of, final_rule, plain_rule, listed_rule, parse_rule_line, is_clash, normalized,
  config_lines, compile,
}
use randall_flare.Exit.Classify.{check_providers, is_built_in, check_bound, check_exits}
use randall_flare.Exit.DeviceSpec.{
  DeviceSpec, DevicePrincipal, Heads, exit_rule_kind, device_kind, active,
}
use randall_flare.Exit.Device.{
  exit_rule_spec, device_spec, is_kept, validate_device_rules, collect_devices, device_views,
  order_of, rules_for_device, admits, resolve_device, validate_admission,
}
use randall_flare.Exit.Device.Admission.{IsAdmissible, validate_admission_iff}
use randall_flare.Exit.Device.Tokens.{Vouches, resolve_device-Vouches}
use randall_flare.Exit.Device.Serving.{rules_for_device_iff}

data Value : Type 0 where
  nothing : Value
  rule_value : ExitRuleSpec → Value
  device_value : DeviceSpec → Value

abbrev home : ExitRuleSpec
home = record {
  schema = 1;
  description = [];
  enabled = true;
  priority = ℤ.pos 10;
  format = RuleFormat.surge;
  config = ascii "FINAL,DIRECT";
  providers = [];
  policy_exits = [];
}

abbrev text : Bytes
text = ascii "rfd_AAAAAAAAAAAAAAAAAAAAAAAAAAAAAAAAAAAAAAAAAAA"

abbrev phone : DeviceSpec
phone = record {
  schema = 1;
  label = ascii "phone";
  token_prefix = ascii "rfd_AAAAAAAA";
  token_sha256 = twice (letters 32 text);
  allowed_rules = ascii "home" ∷ [];
  created_at_ms = 5;
  expires_at_ms = some 100;
  revoked_at_ms = none;
  suspended = false;
}

-- JSON texts are numbered: 1 is the rule set, 2 is the device, 0 is null.
abbrev json : Json Value
json = record {
  from_str = read;
  to_string = λ v. [];
  null = Value.nothing;
  is_null = λ v. false;
  is_object = λ v. true;
  is_empty_object = λ v. false;
}
  where
    read : Bytes → Option Value
    read (suc zero ∷ []) = some (Value.rule_value home)
    read (suc (suc zero) ∷ []) = some (Value.device_value phone)
    read (zero ∷ []) = some Value.nothing
    read _ = none

abbrev as_rule : Value → Option ExitRuleSpec
as_rule (Value.rule_value s) = some s
as_rule _ = none

abbrev as_device : Value → Option DeviceSpec
as_device (Value.device_value s) = some s
as_device _ = none

abbrev rules : Convert Value ExitRuleSpec
rules = record { to_value = Value.rule_value; from_value = as_rule }

abbrev devices : Convert Value DeviceSpec
devices = record { to_value = Value.device_value; from_value = as_device }

abbrev first_version : Bytes → Bytes → Bytes → ResourceView
first_version kind name spec_json = record {
  resource = record {
    schema = 1;
    kind = kind;
    name = name;
    version = 1;
    prev = none;
    deleted = false;
    spec_json = spec_json;
  };
  digest = [];
}

abbrev home_view : ResourceView
home_view = first_version exit_rule_kind (ascii "home") (1 ∷ [])

abbrev old_view : ResourceView
old_view = first_version exit_rule_kind (ascii "old") (1 ∷ [])

abbrev phone_view : ResourceView
phone_view = first_version device_kind (ascii "phone") (2 ∷ [])

abbrev removed_view : ResourceView
removed_view = record old_view {
  resource = record old_view.resource {
    version = 2;
    prev = some [];
    deleted = true;
    spec_json = 0 ∷ [];
  };
}

-- Two rule sets, of which a device names one.
abbrev two_rules : Heads
two_rules = record {
  head_of = λ kind name.
      if is_eq kind exit_rule_kind
      then (if is_eq name (ascii "home")
          then some home_view
          else if is_eq name (ascii "old")
          then some old_view
          else none)
      else if is_eq kind device_kind && is_eq name (ascii "phone")
      then some phone_view
      else none;
  heads_of = λ kind.
      if is_eq kind exit_rule_kind
      then home_view ∷ old_view ∷ []
      else if is_eq kind device_kind
      then phone_view ∷ []
      else [];
}

home_reads : exit_rule_spec json crypto 1 rules devices home_view.resource ≡ ok home
unfolding exit_rule_spec spec_of randall_flare.Exit.Classify.validate check_providers check_exits
    check_bound is_built_in compile config_lines is_clash normalized lines lines_of split
    normalized_line strip_comment cut_slashes before trim trim_start each_line parse_rule_line
    has_byte to_upper upper policy_of listed_rule plain_rule final_rule normalize_host to_lower
    lower trim_end_by trim_start_by starts_with any cmp_bytes Table.get contains
home_reads = refl

phone_reads : device_spec json crypto 1 rules devices phone_view.resource ≡ ok phone
unfolding device_spec spec_of randall_flare.Exit.DeviceSpec.validate set_of trim trim_start
    starts_with all any cmp_bytes Table.get Table.insert valid_name
phone_reads = refl

home_kept : is_kept json crypto 1 rules devices two_rules (ascii "home") ≡ true
unfolding is_kept cmp_bytes
home_kept = rw (is_kept, home_reads) refl

removal_admitted :
    validate_admission json crypto 1 rules devices two_rules 50 (λ _. none) removed_view.resource
    ≡ ok tt
unfolding validate_admission device_views collect_devices sort_by insert_by any cmp_bytes
    validate_device_rules
removal_admitted = rw (validate_admission, device_views, collect_devices, phone_reads) refl

validate_admission_iff_example :
    (validate_admission json crypto 1 rules devices two_rules 50 (λ _. none) removed_view.resource
      ≡ ok tt)
    ↔ IsAdmissible json crypto 1 rules devices two_rules removed_view.resource
validate_admission_iff_example =
    validate_admission_iff json crypto 1 rules devices two_rules 50 (λ _. none)
      removed_view.resource

-- The removal of the rule set that the device names.
removal_refused :
    validate_admission json crypto 1 rules devices two_rules 50
      (λ _. none)
      (record removed_view.resource { name = ascii "home" })
    ≡ err ExitError.rule_in_use
unfolding validate_admission device_views collect_devices sort_by insert_by any cmp_bytes
    validate_device_rules
removal_refused = rw (validate_admission, device_views, collect_devices, phone_reads) refl

phone_gets_in :
    resolve_device json crypto 1 rules devices two_rules 50 (ascii "phone") text
    ≡ some (record { name = ascii "phone"; spec = phone })
unfolding resolve_device admits valid_name all starts_with validate_device_rules cmp_bytes active
    constant_time_eq difference_from
phone_gets_in = rw (resolve_device, admits, phone_reads, home_kept) refl

resolve_device-Vouches_example :
    Path Bytes (ascii "phone") (ascii "phone")
    × (v : ResourceView) × (two_rules.head_of device_kind (ascii "phone") ≡ some v)
    × Vouches json crypto 1 rules devices two_rules 50 text
        (record { name = ascii "phone"; spec = phone })
        v
resolve_device-Vouches_example =
    resolve_device-Vouches json crypto 1 rules devices two_rules 50 (ascii "phone") text
      (record { name = ascii "phone"; spec = phone }) phone_gets_in

rules_for_device_iff_example :
    ((v : ResourceView) (s : ExitRuleSpec)
      → In {A = ResourceView × ExitRuleSpec}
          (v, s)
          (rules_for_device json crypto 1 rules devices two_rules phone)
        ↔ (In v (two_rules.heads_of exit_rule_kind)
            × (exit_rule_spec json crypto 1 rules devices v.resource ≡ ok s)
            × (v.resource.deleted ≡ false)
            × (s.enabled ≡ true)
            × In v.resource.name phone.allowed_rules))
    × Ascends
        (order_of json crypto 1 rules devices)
        (rules_for_device json crypto 1 rules devices two_rules phone)
rules_for_device_iff_example = rules_for_device_iff json crypto 1 rules devices two_rules phone
