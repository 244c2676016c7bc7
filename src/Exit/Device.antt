-- ===== src/Exit/Device.antt =====
-- The devices of crates/rf/src/exit.rs, which fetch rule sets with a token of their own, and what a
-- node admits of rule sets and devices. Base64 and the random bytes are other crates': the text they
-- make of a new token is an argument. `constant_time_eq` reads as that of crates/rf/src/access.rs.
pub mod Admission
pub mod Tokens
pub mod Serving
mod Tests
use randall_flare.Prelude.{
  ℕ, ◌==◌, ◌≡◌, Option, none, some, Bool, true, false, not, ◌&&◌, ◌||◌, List, [], ◌∷◌, ◌++◌,
  if◌then◌else◌, ltb, length, all, any, filter, is_none, is_some, take, inl, inr,
}
use randall_flare.Prelude.Order.{Bytes, bytes_ord, pair_ord, is_eq}
use randall_flare.Prelude.Int.{int_ord}
use randall_flare.Prelude.Result.{Result, ok, err, ◌>>=◌, ◌>>◌, map_err}
use randall_flare.Prelude.SortBy.{sort_by}
use randall_flare.Prelude.Text.{ascii, starts_with, trim}
use randall_flare.Prelude.Ascii.{is_alphanumeric, is_hexdigit}
use randall_flare.Identity.{Crypto, SignerId}
use randall_flare.Envelope.{Codec, Envelope}
use randall_flare.Kv.{Namespace}
use randall_flare.Manifest.Names.{valid_name}
use randall_flare.Resource.{Json, ResourceRecord, ResourceView, spec_of, prepare_after}
use randall_flare.Access.{Convert, set_of, has, is_some_and, is_none_or}
use randall_flare.Access.Compare.{constant_time_eq}
use randall_flare.Exit.Errors.{ExitError}
use randall_flare.Exit.Spec.{ExitRuleSpec, is_blank}
use randall_flare.Exit.DeviceSpec.{
  exit_rule_kind, device_kind, device_token_prefix, DeviceSpec, validate, active, DeviceView,
  DevicePrincipal, Heads,
}
use randall_flare.Exit.Classify.{Checked, refuse_if, is_line_end}

module _ {V : Type 0} (json : Json V) (c : Crypto) (fuel : ℕ) (rules : Convert V ExitRuleSpec)
    (devices : Convert V DeviceSpec) where
  unfoldable pub exit_rule_spec : ResourceRecord → Result ExitError ExitRuleSpec
  unfolding spec_of
  exit_rule_spec r =
      refuse_if (not (is_eq r.kind exit_rule_kind) || r.deleted) ExitError.not_a_rule
      >> (map_err ExitError.resource (spec_of json r) >>= λ value.
          elim (rules.from_value value) as (λ _. Result ExitError ExitRuleSpec) [
            | none ↦ err ExitError.bad_spec
            | some spec ↦ randall_flare.Exit.Classify.validate c fuel spec >> ok spec
          ])

  unfoldable pub device_spec : ResourceRecord → Result ExitError DeviceSpec
  unfolding spec_of validate
  device_spec r =
      refuse_if (not (is_eq r.kind device_kind) || r.deleted) ExitError.not_a_device
      >> (map_err ExitError.resource (spec_of json r) >>= λ value.
          elim (devices.from_value value) as (λ _. Result ExitError DeviceSpec) [
            | none ↦ err ExitError.bad_spec
            | some spec ↦ validate spec >> ok spec
          ])

  unfoldable pub collect_rules : List ResourceView → List (ResourceView × ExitRuleSpec)
  collect_rules [] = []
  collect_rules (v ∷ vs) =
      let onward = collect_rules vs in
      if v.resource.deleted
      then onward
      else elim (exit_rule_spec v.resource) [ err _ ↦ onward | ok spec ↦ (v, spec) ∷ onward ]

  abbrev pub order_of : ResourceView × ExitRuleSpec → randall_flare.Prelude.Int.ℤ × Bytes
  order_of p = (p.1.priority, p.0.resource.name)

  unfoldable pub rule_records : Heads → List (ResourceView × ExitRuleSpec)
  unfolding collect_rules sort_by
  rule_records h = sort_by order_of (collect_rules (h.heads_of exit_rule_kind))

  unfoldable pub rules_for_device : Heads → DeviceSpec → List (ResourceView × ExitRuleSpec)
  unfolding rule_records set_of filter
  rules_for_device h device =
      filter
        (λ (p : ResourceView × ExitRuleSpec).
          p.1.enabled && has (set_of device.allowed_rules) p.0.resource.name)
        (rule_records h)

  -- The test that `validate_device_rules` makes of a name.
  unfoldable pub is_kept : Heads → Bytes → Bool
  is_kept h name = elim (h.head_of exit_rule_kind name) [
    | none ↦ false
    | some view ↦
        not view.resource.deleted
        && elim (exit_rule_spec view.resource) [ ok _ ↦ true | err _ ↦ false ]
  ]

  unfoldable pub validate_device_rules : Heads → List Bytes → Checked
  unfolding is_kept
  validate_device_rules h [] = ok tt
  validate_device_rules h (name ∷ names) =
      let onward = validate_device_rules h names in
      if is_kept h name then onward else err (ExitError.missing_rule name)

  abbrev pub is_ok : Checked → Bool
  is_ok (ok _) = true
  is_ok (err _) = false

  -- `last_used` is what the node's store notes of a credential.
  abbrev pub view_of : Heads → ℕ → (Bytes → Option ℕ) → ResourceView → DeviceSpec → DeviceView
  view_of h now_ms last_used v spec =
      let rules_ready = is_ok (validate_device_rules h spec.allowed_rules) in
      record {
        name = v.resource.name;
        version = v.resource.version;
        digest = v.digest;
        label = spec.label;
        token_prefix = spec.token_prefix;
        allowed_rules = spec.allowed_rules;
        created_at_ms = spec.created_at_ms;
        expires_at_ms = spec.expires_at_ms;
        revoked_at_ms = spec.revoked_at_ms;
        suspended = spec.suspended;
        rules_ready = rules_ready;
        is_active = active spec now_ms && rules_ready;
        last_used_at_ms = last_used (ascii "device/" ++ v.resource.name);
      }

  unfoldable pub collect_devices :
      Heads → ℕ → (Bytes → Option ℕ) → List ResourceView → List DeviceView
  unfolding validate_device_rules active
  collect_devices h now_ms last_used [] = []
  collect_devices h now_ms last_used (v ∷ vs) =
      let onward = collect_devices h now_ms last_used vs in
      if v.resource.deleted then onward else elim (device_spec v.resource) [
        | err _ ↦ onward
        | ok spec ↦ view_of h now_ms last_used v spec ∷ onward
      ]

  unfoldable pub device_views : Heads → ℕ → (Bytes → Option ℕ) → List DeviceView
  unfolding collect_devices sort_by
  device_views h now_ms last_used =
      sort_by (λ (d : DeviceView). d.name)
        (collect_devices h now_ms last_used (h.heads_of device_kind))

  -- The specification of a new device, whose token ends in `random`.
  abbrev pub minted : Bytes → ℕ → Bytes → List Bytes → Option ℕ → DeviceSpec
  minted random now_ms label allowed_rules expires_at_ms = record {
    schema = 1;
    label = trim label;
    token_prefix = take 12 (device_token_prefix ++ random);
    token_sha256 = c.hex (c.sha256 (device_token_prefix ++ random));
    allowed_rules = allowed_rules;
    created_at_ms = now_ms;
    expires_at_ms = expires_at_ms;
    revoked_at_ms = none;
    suspended = false;
  }

  unfoldable pub mint_device_record :
      Bytes → ℕ → Bytes → Bytes → List Bytes → Option ℕ → Result ExitError (ResourceRecord × Bytes)
  unfolding validate prepare_after
  mint_device_record random now_ms name label allowed_rules expires_at_ms =
      let spec = minted random now_ms label allowed_rules expires_at_ms in
      validate spec
      >> (map_err ExitError.resource
            (prepare_after json c device_kind name (devices.to_value spec) false none)
          >>= λ r. ok (r, device_token_prefix ++ random))

  unfoldable pub mint_device :
      Heads
      → Bytes
      → ℕ
      → Bytes
      → Bytes
      → List Bytes
      → Option ℕ
      → Result ExitError (ResourceRecord × Bytes)
  unfolding mint_device_record validate_device_rules
  mint_device h random now_ms name label allowed_rules expires_at_ms =
      refuse_if (is_some (h.head_of device_kind name)) (ExitError.name_taken name)
      >> (mint_device_record random now_ms name label allowed_rules expires_at_ms
          >>= λ (p : ResourceRecord × Bytes).
              device_spec p.0 >>= λ spec. validate_device_rules h spec.allowed_rules >> ok p)

  unfoldable pub update_device_after :
      Heads → Bytes → DeviceSpec → ResourceView → Result ExitError ResourceRecord
  unfolding trim validate validate_device_rules prepare_after
  update_device_after h name given view =
      let spec : DeviceSpec = record given { label = trim given.label } in
      validate spec
      >> validate_device_rules h spec.allowed_rules
      >> map_err ExitError.resource
          (prepare_after json c device_kind name (devices.to_value spec) false (some view))

  -- The tests of `resolve_device` on a view. An ASCII text has its first bytes at a character boundary.
  unfoldable pub admits : Heads → ℕ → Bytes → Bytes → ResourceView → Option DevicePrincipal
  unfolding validate_device_rules active constant_time_eq
  admits h now_ms name raw view =
      if view.resource.deleted
      then none
      else elim (device_spec view.resource >>= λ (s : DeviceSpec).
          validate_device_rules h s.allowed_rules >> ok s) [
            | err _ ↦ none
            | ok spec ↦
                if not (is_eq spec.token_prefix (take 12 raw)) || not (active spec now_ms)
                then none
                else elim (c.unhex spec.token_sha256) [
                  | none ↦ none
                  | some expected ↦
                      if not (constant_time_eq (c.sha256 raw) expected)
                      then none
                      else some (record { name = name; spec = spec })
                ]
          ]

  unfoldable pub resolve_device : Heads → ℕ → Bytes → Bytes → Option DevicePrincipal
  unfolding admits valid_name
  resolve_device h now_ms name raw =
      if not (valid_name name)
        || (not (starts_with raw device_token_prefix) || not (length raw == 47))
      then none
      else elim (h.head_of device_kind name) [
        | none ↦ none
        | some view ↦ admits h now_ms name raw view
      ]

  unfoldable pub validate_admission : Heads → ℕ → (Bytes → Option ℕ) → ResourceRecord → Checked
  unfolding device_views validate_device_rules
  validate_admission h now_ms last_used r =
      if is_eq r.kind exit_rule_kind
      then (if r.deleted
          then refuse_if
              (any (λ (d : DeviceView). any (λ name. is_eq name r.name) d.allowed_rules)
                (device_views h now_ms last_used))
              ExitError.rule_in_use
          else (exit_rule_spec r >>= λ _. ok tt))
      else if is_eq r.kind device_kind && not r.deleted
      then (device_spec r >>= λ spec. validate_device_rules h spec.allowed_rules)
      else ok tt
