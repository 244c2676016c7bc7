-- ===== src/Exit/DeviceSpec.antt =====
-- The records of devices in crates/rf/src/exit.rs: `DeviceSpec` with its checks, what is shown of a
-- device, and `Heads`, the resources of a node as they are asked for.
use randall_flare.Prelude.{
  ℕ, ◌==◌, Option, some, Bool, not, ◌&&◌, ◌||◌, List, ltb, length, all, any, is_none,
}
use randall_flare.Prelude.Order.{Bytes, bytes_ord, pair_ord}
use randall_flare.Prelude.Int.{int_ord}
use randall_flare.Prelude.Result.{◌>>◌}
use randall_flare.Prelude.Text.{ascii, starts_with, trim}
use randall_flare.Prelude.Ascii.{is_alphanumeric, is_hexdigit}
use randall_flare.Identity.{Crypto, SignerId}
use randall_flare.Envelope.{Codec, Envelope}
use randall_flare.Kv.{Namespace}
use randall_flare.Manifest.Names.{valid_name}
use randall_flare.Resource.{Json, ResourceRecord, ResourceView, spec_of, prepare_after}
use randall_flare.Access.{set_of, is_some_and, is_none_or}
use randall_flare.Exit.Errors.{ExitError}
use randall_flare.Exit.Spec.{is_blank}
use randall_flare.Exit.Classify.{Checked, refuse_if, is_line_end}

abbrev pub exit_rule_kind : Bytes
exit_rule_kind = ascii "exit_rule"

abbrev pub device_kind : Bytes
device_kind = ascii "client_device"

abbrev pub device_token_prefix : Bytes
device_token_prefix = ascii "rfd_"

pub record DeviceSpec : Type 0 where
  pub schema : ℕ
  pub label : Bytes
  pub token_prefix : Bytes
  pub token_sha256 : Bytes
  pub allowed_rules : List Bytes
  pub created_at_ms : ℕ
  pub expires_at_ms : Option ℕ
  pub revoked_at_ms : Option ℕ
  pub suspended : Bool

unfoldable pub validate : DeviceSpec → Checked
unfolding trim set_of valid_name
validate s =
    refuse_if (not (s.schema == 1)) ExitError.bad_schema
    >> refuse_if (is_blank (trim s.label) || (ltb 80 (length s.label) || any is_line_end s.label))
        ExitError.bad_label
    >> refuse_if
        (not (length s.token_prefix == 12)
          || (not (starts_with s.token_prefix device_token_prefix)
              || not (all (λ b. is_alphanumeric b || ((b == 95) || (b == 45))) s.token_prefix)))
        ExitError.bad_token_prefix
    >> refuse_if (not (length s.token_sha256 == 64) || not (all is_hexdigit s.token_sha256))
        ExitError.bad_token_digest
    >> refuse_if ((length s.allowed_rules == 0) || ltb 50 (length s.allowed_rules))
        ExitError.bad_rule_count
    >> refuse_if
        (not (length (set_of s.allowed_rules) == length s.allowed_rules)
          || any (λ name. not (valid_name name)) s.allowed_rules)
        ExitError.bad_rule_names
    >> refuse_if
        ((s.created_at_ms == 0)
          || (is_some_and s.expires_at_ms (λ e. not (ltb s.created_at_ms e))
              || is_some_and s.revoked_at_ms (λ r. ltb r s.created_at_ms)))
        ExitError.bad_times

unfoldable pub active : DeviceSpec → ℕ → Bool
active s at_ms =
    not s.suspended && (is_none s.revoked_at_ms && is_none_or s.expires_at_ms (λ e. ltb at_ms e))

pub record DeviceView : Type 0 where
  pub name : Bytes
  pub version : ℕ
  pub digest : Bytes
  pub label : Bytes
  pub token_prefix : Bytes
  pub allowed_rules : List Bytes
  pub created_at_ms : ℕ
  pub expires_at_ms : Option ℕ
  pub revoked_at_ms : Option ℕ
  pub suspended : Bool
  pub rules_ready : Bool
  pub is_active : Bool
  pub last_used_at_ms : Option ℕ

pub record DevicePrincipal : Type 0 where
  pub name : Bytes
  pub spec : DeviceSpec

-- What a node holds, as `resource::head` and `resource::heads` show it.
pub record Heads : Type 0 where
  pub head_of : Bytes → Bytes → Option ResourceView
  pub heads_of : Bytes → List ResourceView

-- A node's own resources at a time.
abbrev pub node_heads :
    {V : Type 0}
    → Crypto
    → Json V
    → Codec Envelope
    → Codec ResourceRecord
    → SignerId
    → Namespace
    → ℕ
    → Heads
node_heads c json envelopes codec operator ns now_ms = record {
  head_of =
      λ kind name. randall_flare.Resource.head c json envelopes codec operator ns now_ms kind name;
  heads_of =
      λ kind. randall_flare.Resource.heads c json envelopes codec operator ns now_ms (some kind);
}
