-- ===== src/Exit/Errors.antt =====
-- What the checks of crates/rf/src/exit.rs refuse: one constructor for each message of `bail!` and
-- `context`.
use randall_flare.Prelude.Order.{Bytes}
use randall_flare.Resource.{ResourceError}

pub data ExitError : Type 0 where
  bad_schema long_description long_config many_providers large_providers : ExitError
  many_policies bad_policy_name no_clash_section many_rules : ExitError
  bad_provider large_provider bad_node_id unbound_policy : Bytes → ExitError
  cidr_without_prefix bad_cidr_address bad_cidr_prefix : ExitError
  bare_rule no_rule_set_policy no_geoip_policy no_final_policy bad_keyword : ExitError
  no_snapshot no_geoip_snapshot no_policy bad_host no_exit : Bytes → ExitError
  bad_label bad_token_prefix bad_token_digest bad_rule_count bad_rule_names bad_times : ExitError
  missing_rule name_taken : Bytes → ExitError
  rule_in_use not_a_rule not_a_device bad_spec : ExitError
  resource : ResourceError → ExitError
  -- The recursion of `parse_rule_line` did not end within the depth allowed.
  out_of_fuel : ExitError
