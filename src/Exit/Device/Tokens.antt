-- ===== src/Exit/Device/Tokens.antt =====
-- Who gets in as a device (crates/rf/src/exit.rs): `resolve_device`.
use randall_flare.Prelude.{
  ℕ, ◌≡◌, refl, subst, sym, ap, ◌∙◌, inl, inr, Option, some, true, not, ◌||◌, length, take, All,
  arith, Bool-cases, Option-cases, ◌==◌,
}
use randall_flare.Prelude.Order.{Bytes, bytes_ord, is_eq}
use randall_flare.Prelude.Result.{Result, ok, ◌>>=◌, ◌>>◌, bind_ok, Result-cases}
use randall_flare.Prelude.Text.{starts_with}
use randall_flare.Identity.{Crypto}
use randall_flare.Manifest.Names.{valid_name}
use randall_flare.Resource.{Json, ResourceView}
use randall_flare.Access.{Convert}
use randall_flare.Access.Compare.{constant_time_eq, constant_time_eq_iff}
use randall_flare.Exit.Errors.{ExitError}
use randall_flare.Exit.Spec.{ExitRuleSpec}
use randall_flare.Exit.DeviceSpec.{
  DeviceSpec, DevicePrincipal, Heads, device_kind, device_token_prefix, active,
}
use randall_flare.Exit.Device.{device_spec, is_kept, validate_device_rules, admits, resolve_device}
use randall_flare.Exit.Device.Admission.{validate_device_rules-All}

module _ {V : Type 0} (json : Json V) (c : Crypto) (fuel : ℕ) (rules : Convert V ExitRuleSpec)
    (devices : Convert V DeviceSpec) where
  -- What lets a device in: its record, of a device that is active and whose rule sets are all kept, and
  -- the text whose digest stands in the record.
  pub record Vouches (h : Heads) (now_ms : ℕ) (raw : Bytes) (p : DevicePrincipal) (v : ResourceView)
      : Type 0 where
    pub read : device_spec json c fuel rules devices v.resource ≡ ok p.spec
    pub live : active p.spec now_ms ≡ true
    pub digest : c.unhex p.spec.token_sha256 ≡ some (c.sha256 raw)
    pub served : All (λ n. is_kept json c fuel rules devices h n ≡ true) p.spec.allowed_rules

  ok_eq : (a b : DeviceSpec) → Path (Result ExitError DeviceSpec) (ok a) (ok b) → a ≡ b
  ok_eq a b e = cc

  some_eq : (p q : DevicePrincipal) → Path (Option DevicePrincipal) (some p) (some q) → p ≡ q
  some_eq p q e = cc

  admits-Vouches :
      (h : Heads) (now_ms : ℕ) (name raw : Bytes) (v : ResourceView) (p : DevicePrincipal)
      → admits json c fuel rules devices h now_ms name raw v ≡ some p
      → (p.name ≡ name) × Vouches h now_ms raw p v
  unfolding admits
  admits-Vouches h now_ms name raw v p e = elim (Bool-cases v.resource.deleted) [
    | inl d ↦ absurd (let z = rw (admits, d) at e in cc)
    | inr d ↦ elim (Result-cases (checked)) [
      | inr (_, t) ↦ absurd (let z = rw (admits, t, d) at e in cc)
      | inl (spec, t) ↦
          elim (Bool-cases
            (not (is_eq spec.token_prefix (take 12 raw)) || not (active spec now_ms))) [
              | inl a ↦ absurd (let z = rw (admits, t, d, a) at e in cc)
              | inr a ↦ elim (Option-cases (c.unhex spec.token_sha256)) [
                | inl u ↦ absurd (let z = rw (admits, t, d, a, u) at e in cc)
                | inr (expected, u) ↦ elim (Bool-cases (constant_time_eq (c.sha256 raw) expected)) [
                  | inr q ↦ absurd (let z = rw (admits, t, d, a, u, q) at e in cc)
                  | inl q ↦
                      let z = rw (admits, t, d, a, u, q) at e in
                      let same = (constant_time_eq_iff (c.sha256 raw) expected).0 q in
                      subst (λ (x : DevicePrincipal). (x.name ≡ name) × Vouches h now_ms raw x v)
                        (some_eq _ p z)
                        (refl, vouched spec t (ground (arith, a)) (u ∙ ap some (sym same)))
                ]
              ]
            ]
    ]
  ]
    where
      checked : Result ExitError DeviceSpec
      checked = device_spec json c fuel rules devices v.resource >>= λ (s : DeviceSpec).
          validate_device_rules json c fuel rules devices h s.allowed_rules >> ok s

      vouched :
          (spec : DeviceSpec)
          → checked ≡ ok spec
          → active spec now_ms ≡ true
          → c.unhex spec.token_sha256 ≡ some (c.sha256 raw)
          → Vouches h now_ms raw (record { name = name; spec = spec }) v
      vouched spec t live digest =
          let (s, read, t) = bind_ok (device_spec json c fuel rules devices v.resource) _ spec t in
          let (_, all_kept, t) =
            bind_ok (validate_device_rules json c fuel rules devices h s.allowed_rules) (λ _. ok s)
              spec t in
          record {
            read = read ∙ t;
            live = live;
            digest = digest;
            served =
                subst
                  (λ (x : DeviceSpec).
                    All (λ n. is_kept json c fuel rules devices h n ≡ true) x.allowed_rules)
                  (ok_eq s spec t)
                  (validate_device_rules-All json c fuel rules devices h s.allowed_rules all_kept);
          }

  -- Whoever gets in as a device named `name` has the record of that name, of a device that is not
  -- deleted, suspended, revoked or expired and whose rule sets are all there and valid, and holds the
  -- text whose digest stands in it.
  pub resolve_device-Vouches :
      (h : Heads) (now_ms : ℕ) (name raw : Bytes) (p : DevicePrincipal)
      → resolve_device json c fuel rules devices h now_ms name raw ≡ some p
      → (p.name ≡ name)
        × (v : ResourceView) × (h.head_of device_kind name ≡ some v)
        × Vouches h now_ms raw p v
  unfolding resolve_device
  resolve_device-Vouches h now_ms name raw p e =
      elim (Bool-cases (
        not (valid_name name)
        || (not (starts_with raw device_token_prefix) || not (length raw == 47)))) [
          | inl b ↦ absurd (let z = rw (resolve_device, b) at e in cc)
          | inr b ↦ elim (Option-cases (h.head_of device_kind name)) [
            | inl t ↦ absurd (let z = rw (resolve_device, b, t) at e in cc)
            | inr (v, t) ↦
                let (n, w) =
                  admits-Vouches h now_ms name raw v p (rw (resolve_device, b, t) at e) in
                (n, v, t, w)
          ]
        ]
