-- ===== src/Access/Tests.antt =====
-- The theorems on access tokens at a concrete token.
use randall_flare.Prelude.{
  ℕ, zero, suc, ◌≡◌, ◌↔◌, refl, sym, ◌∙◌, subst, inl, inr, ◌+◌, ◌%◌, Option, none, some, Bool, true,
  false, List, [], ◌∷◌, ◌++◌, map, length, all, any, take, arith, if◌then◌else◌, ◌==◌, is_some,
}
use randall_flare.Prelude.Order.{Bytes, cmp_bytes, bytes_ord}
use randall_flare.Prelude.Members.{In}
use randall_flare.Prelude.Result.{Result, ok}
use randall_flare.Prelude.Sorting
use randall_flare.Prelude.Sorting.{sort}
use randall_flare.Prelude.Table
use randall_flare.Prelude.Text.{ascii, starts_with, trim, trim_start}
use randall_flare.Identity.Toy.{letters, twice, halved-twice, crypto}
use randall_flare.Manifest.Names.{valid_name}
use randall_flare.Resource.{
  Json, ResourceRecord, ResourceView, valid_kind, validate, link_of, decode_digest, prepare_after,
  spec_of,
}
use randall_flare.Access.{
  AccessTokenSpec, AccessError, AccessPrincipal, Convert, set_of, minted, mint_record, revoke_after,
  token_spec, resolve, admits,
}
use randall_flare.Access.Tokens.{
  ReadsBack, Vouches, resolve-Vouches, admits-revoke_after, resolve-mint_record,
}

abbrev repeat : ℕ → Bytes
repeat zero = []
repeat (suc n) = 65 ∷ repeat n

abbrev token : AccessTokenSpec
token = record {
  schema = 1;
  label = ascii "ci";
  prefix = ascii "rfp_AAAAAAAA";
  sha256 = twice (letters 32 (ascii "rfp_" ++ repeat 43));
  scopes = ascii "kv:read" ∷ [];
  created_at_ms = 5;
  expires_at_ms = some 100;
  revoked_at_ms = none;
}

-- JSON texts are numbered: 1 is the token, 2 is the token revoked at 9, 0 is null.
abbrev json : Json (Option AccessTokenSpec)
json = record {
  from_str = read;
  to_string = write;
  null = none;
  is_null = λ v. randall_flare.Prelude.not (is_some v);
  is_object = λ v. is_some v;
  is_empty_object = λ v. false;
}
  where
    read : Bytes → Option (Option AccessTokenSpec)
    read (suc zero ∷ []) = some (some token)
    read (suc (suc zero) ∷ []) = some (some (record token { revoked_at_ms = some 9 }))
    read (zero ∷ []) = some none
    read _ = none

    write : Option AccessTokenSpec → Bytes
    write none = 0 ∷ []
    write (some s) = elim s.revoked_at_ms [ none ↦ 1 ∷ [] | some _ ↦ 2 ∷ [] ]

abbrev convert : Convert (Option AccessTokenSpec) AccessTokenSpec
convert = record { to_value = some; from_value = λ v. v }

abbrev token_record : ResourceRecord
token_record = record {
  schema = 1;
  kind = ascii "api_access_token";
  name = ascii "pat-" ++ take 20 token.sha256;
  version = 1;
  prev = none;
  deleted = false;
  spec_json = 1 ∷ [];
}

abbrev token_view : ResourceView
token_view = record { resource = token_record; digest = twice (letters 32 (1 ∷ [])) }

mints :
    mint_record json crypto convert (repeat 43) 5 (ascii " ci ") (ascii "kv:read" ∷ []) (some 100)
    ≡ ok (token_record, ascii "rfp_" ++ repeat 43)
unfolding mint_record randall_flare.Access.validate set_of trim trim_start sort Sorting.insert
    prepare_after link_of validate valid_kind valid_name all any starts_with cmp_bytes Table.get
    Table.insert
mints = refl

token-ReadsBack :
    ReadsBack json crypto convert
      (minted json crypto convert (repeat 43) 5 (ascii " ci ") (ascii "kv:read" ∷ []) (some 100))
unfolding trim trim_start sort Sorting.insert
token-ReadsBack = record { text = refl; value = refl }

abbrev principal : AccessPrincipal
principal = record {
  id = token_record.name;
  label = trim (ascii " ci ");
  scopes = set_of (sort (ascii "kv:read" ∷ []));
}

resolve-mint_record_example :
    resolve json crypto convert (ascii "rfp_" ++ repeat 43) 50 (token_view ∷ []) ≡ some principal
resolve-mint_record_example =
    resolve-mint_record json crypto convert (repeat 43) 5 (ascii " ci ") (ascii "kv:read" ∷ [])
      (some 100) token_view (ascii "rfp_" ++ repeat 43) [] 50 refl token-ReadsBack halved-twice refl
      mints

resolves :
    resolve json crypto convert (ascii "rfp_" ++ repeat 43) 50 (token_view ∷ []) ≡ some principal
resolves =
    resolve-mint_record json crypto convert (repeat 43) 5 (ascii " ci ") (ascii "kv:read" ∷ [])
      (some 100) token_view (ascii "rfp_" ++ repeat 43) [] 50 refl token-ReadsBack halved-twice refl
      mints

resolve-Vouches_example :
    (v : ResourceView) × In v (token_view ∷ [])
    × Vouches json crypto convert (ascii "rfp_" ++ repeat 43) 50 principal v
resolve-Vouches_example =
    resolve-Vouches json crypto convert (ascii "rfp_" ++ repeat 43) 50 (token_view ∷ []) principal
      resolves

abbrev revoked_record : ResourceRecord
revoked_record = record token_record {
  version = 2;
  prev = some (letters 32 (1 ∷ []));
  spec_json = 2 ∷ [];
}

abbrev revoked_view : ResourceView
revoked_view = record { resource = revoked_record; digest = [] }

token_reads : token_spec json crypto convert token_record ≡ ok token
unfolding token_spec spec_of randall_flare.Access.validate set_of trim trim_start all any
    starts_with cmp_bytes Table.get Table.insert
token_reads = refl

same_token :
    (a b : AccessTokenSpec) → Path (Result AccessError AccessTokenSpec) (ok a) (ok b) → a ≡ b
same_token a b e = cc

revoked-ReadsBack :
    (s : AccessTokenSpec)
    → token_spec json crypto convert token_record ≡ ok s
    → ReadsBack json crypto convert (record s { revoked_at_ms = some 9 })
revoked-ReadsBack s h =
    subst (λ t. ReadsBack json crypto convert (record t { revoked_at_ms = some 9 }))
      (same_token token s (sym token_reads ∙ h)) (record { text = refl; value = refl })

revokes : revoke_after json crypto convert 9 token_view ≡ ok revoked_record
unfolding revoke_after token_spec spec_of randall_flare.Access.validate set_of trim trim_start all
    any starts_with cmp_bytes Table.get Table.insert prepare_after link_of decode_digest validate
    valid_kind valid_name
revokes = refl

admits-revoke_after_example :
    admits json crypto convert (ascii "rfp_" ++ repeat 43) 50 revoked_view ≡ none
admits-revoke_after_example =
    admits-revoke_after json crypto convert 9 token_view revoked_view (ascii "rfp_" ++ repeat 43) 50
      revoked-ReadsBack revokes
