-- ===== src/Hostname/Finding.antt =====
-- A claim is found again (crates/rf/src/hostname.rs): `claim` after `prepare_claim_after`.
use randall_flare.Prelude.{ℕ, ◌≡◌, refl, sym, ap, ◌∙◌, subst, Option, some, true, false, not, arith}
use randall_flare.Prelude.Order.{Bytes, bytes_ord, is_eq}
use randall_flare.Prelude.Result.{ok, bind_ok, guard_ok, map_err_ok, ◌>>◌}
use randall_flare.Identity.{Crypto}
use randall_flare.Resource.{Json, ResourceRecord, ResourceView}
use randall_flare.Resource.Versions.{prepare_after_text}
use randall_flare.Access.{Convert}
use randall_flare.Hostname.{
  HostnameClaimSpec, ClaimRefusal, hostname_claim_kind, refuse_if, validate, canonical, claimed,
  claim_name, prepare_claim_after, from_json, claim_spec, claim,
}

eq_self : (x y : Bytes) → x ≡ y → is_eq x y ≡ true
eq_self x y e = ground (arith, e, bytes_ord.cmp_self y)

module _ {V : Type 0} (json : Json V) (c : Crypto) (convert : Convert V HostnameClaimSpec) where
  claim_spec_of :
      (r : ResourceRecord) (s : HostnameClaimSpec)
      → r.kind ≡ hostname_claim_kind
      → r.deleted ≡ false
      → from_json json c convert r.spec_json ≡ some s
      → validate s ≡ ok tt
      → r.name ≡ claim_name json c convert s.hostname
      → claim_spec json c convert r ≡ ok s
  unfolding claim_spec
  claim_spec_of r s kind kept read valid name =
      rw
        (
          claim_spec,
          eq_self r.kind hostname_claim_kind kind,
          kept,
          read,
          valid,
          eq_self r.name (claim_name json c convert s.hostname) name,
        )
        refl

  -- A record that `prepare_claim_after` makes, and that is the head of its name, is found by `claim` for
  -- every spelling of the host name that differs in case and in dots at the end only: with the host
  -- name in lower case, and the challenge and the creation time of the claim it continues. serde_json
  -- has to read back the text that it wrote of the specification.
  pub claim-prepare_claim_after :
      (challenge : Bytes) (now_ms : ℕ) (given : Bytes) (existing : Option HostnameClaimSpec)
      (verified_at_ms : Option ℕ) (before : Option ResourceView)
      (head : Bytes → Option ResourceView) (spelled : Bytes) (v : ResourceView)
      → (let s = claimed json c convert challenge now_ms given existing verified_at_ms in
          from_json json c convert (json.to_string (convert.to_value s)) ≡ some s)
      → prepare_claim_after json c convert challenge now_ms given existing verified_at_ms false
          before
        ≡ ok v.resource
      → head v.resource.name ≡ some v
      → canonical spelled ≡ canonical given
      → claim json c convert head spelled
        ≡ some (v, claimed json c convert challenge now_ms given existing verified_at_ms)
  unfolding prepare_claim_after claim
  claim-prepare_claim_after challenge now_ms given existing verified before head spelled v law h at
        same =
      let s = claimed json c convert challenge now_ms given existing verified in
      let own_name =
        refuse_if (not (is_eq s.hostname (canonical given))) ClaimRefusal.wrong_hostname in
      let (_, checks, h) = bind_ok (own_name >> validate s) _ v.resource h in
      let (_, own, valid) = bind_ok own_name (λ _. validate s) tt checks in
      let (foreign, _) =
        guard_ok (not (is_eq s.hostname (canonical given))) ClaimRefusal.wrong_hostname (ok tt) tt
          own in
      let host = bytes_ord.cmp_eq s.hostname (canonical given) (ground (arith, foreign)) in
      let (kind, name, kept, text) =
        prepare_after_text json c hostname_claim_kind _ (convert.to_value s) false before v.resource
          (map_err_ok ClaimRefusal.resource _ v.resource h) in
      let read =
        claim_spec_of v.resource s kind kept (ap (from_json json c convert) text ∙ law) valid
          (name ∙ ap (claim_name json c convert) (sym host)) in
      let found =
        subst (λ n. head n ≡ some v) (name ∙ ap (claim_name json c convert) (sym same)) at in
      rw (claim, found, read, eq_self s.hostname (canonical spelled) (host ∙ sym same)) refl
