-- ===== src/Hostname.antt =====
-- crates/rf/src/hostname.rs: signed claims that an operator owns a host name. The random bytes, Base64 and
-- the DNS resolver are other crates': the challenge of a new claim and the texts of the answer to the
-- TXT query are arguments.
pub mod Finding
pub mod Observing
mod Tests
use randall_flare.Prelude.{
  ℕ, ◌==◌, ◌≡◌, Option, none, some, Bool, true, false, not, ◌&&◌, ◌||◌, List, [], ◌∷◌, ◌++◌,
  if◌then◌else◌, ltb, length, all, any, take,
}
use randall_flare.Prelude.Order.{Bytes, bytes_ord, is_eq}
use randall_flare.Prelude.Result.{Result, ok, err, ◌>>=◌, ◌>>◌, map_err}
use randall_flare.Prelude.Sorting.{sort}
use randall_flare.Prelude.Text.{ascii}
use randall_flare.Prelude.Ascii.{to_lower, trim_end_by, is_alphanumeric}
use randall_flare.Identity.{Crypto}
use randall_flare.Manifest.Names.{valid_hostname}
use randall_flare.Resource.{Json, ResourceRecord, ResourceView, ResourceError, prepare_after}
use randall_flare.Access.{Convert, is_some_and}

abbrev pub hostname_claim_kind : Bytes
hostname_claim_kind = ascii "hostname_claim"

abbrev pub txt_prefix : Bytes
txt_prefix = ascii "_randallflare-verify"

abbrev pub value_prefix : Bytes
value_prefix = ascii "rf-hostname-verification="

pub record HostnameClaimSpec : Type 0 where
  pub hostname : Bytes
  pub challenge : Bytes
  pub created_at_ms : ℕ
  pub verified_at_ms : Option ℕ

pub data ClaimRefusal : Type 0 where
  bad_hostname bad_challenge no_creation_time bad_verification : ClaimRefusal
  wrong_hostname not_a_claim bad_spec wrong_name : ClaimRefusal
  resource : ResourceError → ClaimRefusal

abbrev pub refuse_if : Bool → ClaimRefusal → Result ClaimRefusal (Unit {0})
refuse_if b e = if b then err e else ok tt

unfoldable pub validate : HostnameClaimSpec → Result ClaimRefusal (Unit {0})
unfolding valid_hostname
validate s =
    refuse_if (not (valid_hostname s.hostname)) ClaimRefusal.bad_hostname
    >> refuse_if
        (ltb (length s.challenge) 24
          || (ltb 192 (length s.challenge)
              || not (all (λ b. is_alphanumeric b || ((b == 45) || (b == 95))) s.challenge)))
        ClaimRefusal.bad_challenge
    >> refuse_if (s.created_at_ms == 0) ClaimRefusal.no_creation_time
    >> refuse_if (is_some_and s.verified_at_ms (λ v. ltb v s.created_at_ms))
        ClaimRefusal.bad_verification

unfoldable pub txt_name : HostnameClaimSpec → Bytes
txt_name s = txt_prefix ++ (ascii "." ++ s.hostname)

unfoldable pub txt_value : HostnameClaimSpec → Bytes
txt_value s = value_prefix ++ s.challenge

-- `hostname.trim_end_matches('.').to_ascii_lowercase()`.
unfoldable pub canonical : Bytes → Bytes
unfolding to_lower trim_end_by
canonical hostname = to_lower (trim_end_by (λ x. x == 46) hostname)

-- `unwrap_or_else`, with the challenge and the time of a first claim.
abbrev pub or_first : Bytes → ℕ → Bytes → Option HostnameClaimSpec → HostnameClaimSpec
or_first challenge now_ms hostname none = record {
  hostname = hostname;
  challenge = challenge;
  created_at_ms = now_ms;
  verified_at_ms = none;
}
or_first challenge now_ms hostname (some s) = s

module _ {V : Type 0} (json : Json V) (c : Crypto) (convert : Convert V HostnameClaimSpec) where
  unfoldable pub claim_name : Bytes → Bytes
  claim_name hostname = ascii "host-" ++ take 40 (c.hex (c.sha256 hostname))

  -- The specification that `prepare_claim_after` stores.
  abbrev pub claimed : Bytes → ℕ → Bytes → Option HostnameClaimSpec → Option ℕ → HostnameClaimSpec
  claimed challenge now_ms given existing verified_at_ms =
      record (or_first challenge now_ms (canonical given) existing) {
        verified_at_ms = verified_at_ms;
      }

  unfoldable pub prepare_claim_after :
      Bytes
      → ℕ
      → Bytes
      → Option HostnameClaimSpec
      → Option ℕ
      → Bool
      → Option ResourceView
      → Result ClaimRefusal ResourceRecord
  unfolding validate canonical claim_name prepare_after
  prepare_claim_after challenge now_ms given existing verified_at_ms deleted head =
      let spec = claimed challenge now_ms given existing verified_at_ms in
      refuse_if (not (is_eq spec.hostname (canonical given))) ClaimRefusal.wrong_hostname
      >> validate spec
      >> map_err ClaimRefusal.resource (
          prepare_after json c hostname_claim_kind (claim_name (canonical given))
            (convert.to_value spec) deleted head)

  abbrev pub from_json : Bytes → Option HostnameClaimSpec
  from_json text = elim (json.from_str text) [ none ↦ none | some value ↦ convert.from_value value ]

  unfoldable pub claim_spec : ResourceRecord → Result ClaimRefusal HostnameClaimSpec
  unfolding validate claim_name
  claim_spec r =
      refuse_if (not (is_eq r.kind hostname_claim_kind) || r.deleted) ClaimRefusal.not_a_claim
      >> elim (from_json r.spec_json) as (λ _. Result ClaimRefusal HostnameClaimSpec) [
        | none ↦ err ClaimRefusal.bad_spec
        | some spec ↦
            validate spec
            >> refuse_if (not (is_eq r.name (claim_name spec.hostname))) ClaimRefusal.wrong_name
            >> ok spec
      ]

  -- `claim` and `claims`, with what `resource::head` and `resource::heads` show of claims.
  unfoldable pub claim :
      (Bytes → Option ResourceView) → Bytes → Option (ResourceView × HostnameClaimSpec)
  unfolding canonical claim_name
  claim head given = elim (head (claim_name (canonical given))) [
    | none ↦ none
    | some view ↦ elim (claim_spec view.resource) [
      | err _ ↦ none
      | ok spec ↦ if is_eq spec.hostname (canonical given) then some (view, spec) else none
    ]
  ]

  unfoldable pub claims : List ResourceView → List (ResourceView × HostnameClaimSpec)
  claims [] = []
  claims (v ∷ vs) =
      let onward = claims vs in
      if v.resource.deleted
      then onward
      else elim (claim_spec v.resource) [ err _ ↦ onward | ok spec ↦ (v, spec) ∷ onward ]

pub record HostnameVerification : Type 0 where
  pub hostname : Bytes
  pub name : Bytes
  pub value : Bytes
  pub observed : List Bytes
  pub verified : Bool
  pub checked_at_ms : ℕ

-- `Vec::dedup`: of elements in a row that are the same, the first. `last` is the one kept before.
unfoldable pub dedup_after : Bytes → List Bytes → List Bytes
dedup_after last [] = []
dedup_after last (x ∷ xs) =
    let dropped = dedup_after last xs in
    let kept = dedup_after x xs in if is_eq x last then dropped else x ∷ kept

unfoldable pub dedup : List Bytes → List Bytes
unfolding dedup_after
dedup [] = []
dedup (x ∷ xs) = x ∷ dedup_after x xs

-- `query_verification` once the TXT records of `txt_name` are there, each with its chunks joined.
unfoldable pub query_verification :
    List Bytes → ℕ → HostnameClaimSpec → Result ClaimRefusal HostnameVerification
unfolding validate sort dedup txt_value txt_name
query_verification answers now_ms s =
    let observed = dedup (sort answers) in
    validate s
    >> ok (record {
      hostname = s.hostname;
      name = txt_name s;
      value = txt_value s;
      observed = observed;
      verified = any (λ value. is_eq value (txt_value s)) observed;
      checked_at_ms = now_ms;
    })
