-- ===== src/Hostname/Tests.antt =====
-- The theorems on host name claims at a concrete claim.
use randall_flare.Prelude.{
  zero, suc, ◌≡◌, refl, Option, none, some, true, false, List, [], ◌∷◌, ◌++◌, all, any, is_some,
  take, if◌then◌else◌, not,
}
use randall_flare.Prelude.Order.{Bytes, cmp_bytes, bytes_ord, is_eq}
use randall_flare.Prelude.Result.{ok}
use randall_flare.Prelude.Sorting
use randall_flare.Prelude.Sorting.{sort}
use randall_flare.Prelude.Text.{ascii, split, starts_with}
use randall_flare.Prelude.Ascii.{to_lower, lower, trim_end_by, trim_start_by}
use randall_flare.Identity.Toy.{letters, twice, crypto}
use randall_flare.Manifest.Names.{valid_hostname, valid_label, valid_name}
use randall_flare.Resource.{Json, ResourceRecord, ResourceView, valid_kind, link_of, prepare_after}
use randall_flare.Access.{Convert}
use randall_flare.Hostname.{
  HostnameClaimSpec, HostnameVerification, hostname_claim_kind, validate, canonical, claim_name,
  prepare_claim_after, claim, txt_name, txt_value, dedup, dedup_after, query_verification,
}
use randall_flare.Hostname.Finding.{claim-prepare_claim_after}

abbrev challenge : Bytes
challenge = ascii "AAAAAAAAAAAAAAAAAAAAAAAA"

abbrev host : HostnameClaimSpec
host = record {
  hostname = ascii "a.b";
  challenge = challenge;
  created_at_ms = 5;
  verified_at_ms = some 9;
}

-- JSON texts are numbered: 1 is the claim, 0 is null.
abbrev json : Json (Option HostnameClaimSpec)
json = record {
  from_str = read;
  to_string = write;
  null = none;
  is_null = λ v. not (is_some v);
  is_object = λ v. is_some v;
  is_empty_object = λ v. false;
}
  where
    read : Bytes → Option (Option HostnameClaimSpec)
    read (suc zero ∷ []) = some (some host)
    read (zero ∷ []) = some none
    read _ = none

    write : Option HostnameClaimSpec → Bytes
    write none = 0 ∷ []
    write (some s) = 1 ∷ []

abbrev convert : Convert (Option HostnameClaimSpec) HostnameClaimSpec
convert = record { to_value = some; from_value = λ v. v }

abbrev host_name : Bytes
host_name = ascii "host-" ++ take 40 (twice (letters 32 (ascii "a.b")))

abbrev host_view : ResourceView
host_view = record {
  resource = record {
    schema = 1;
    kind = hostname_claim_kind;
    name = host_name;
    version = 1;
    prev = none;
    deleted = false;
    spec_json = 1 ∷ [];
  };
  digest = [];
}

prepares :
    prepare_claim_after json crypto convert [] 0 (ascii "A.b.") (some host) (some 9) false none
    ≡ ok host_view.resource
unfolding prepare_claim_after validate canonical claim_name to_lower lower trim_end_by trim_start_by
    valid_hostname valid_label split prepare_after link_of randall_flare.Resource.validate
    valid_kind valid_name all any starts_with cmp_bytes
prepares = refl

abbrev claim_head : Bytes → Option ResourceView
claim_head name = if is_eq name host_name then some host_view else none

claim-prepare_claim_after_example :
    claim json crypto convert claim_head (ascii "a.B") ≡ some (host_view, host)
unfolding canonical to_lower lower trim_end_by trim_start_by cmp_bytes
claim-prepare_claim_after_example =
    claim-prepare_claim_after json crypto convert [] 0 (ascii "A.b.") (some host) (some 9) none
      claim_head (ascii "a.B") host_view refl prepares refl refl

abbrev answers : List Bytes
answers = ascii "v=spf1" ∷ txt_value host ∷ txt_value host ∷ []

abbrev checked : HostnameVerification
checked = record {
  hostname = ascii "a.b";
  name = ascii "_randallflare-verify.a.b";
  value = txt_value host;
  observed = txt_value host ∷ ascii "v=spf1" ∷ [];
  verified = true;
  checked_at_ms = 7;
}

queried : query_verification answers 7 host ≡ ok checked
unfolding query_verification validate txt_name txt_value valid_hostname valid_label split all any
    starts_with cmp_bytes sort Sorting.insert dedup dedup_after
queried = refl
