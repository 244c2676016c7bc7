-- ===== src/Access.antt =====
-- crates/rf/src/access.rs: API access tokens. Only the digest of a token stands in its signed resource.
-- Base64 and the random bytes are other crates': the text they make of a new token is an argument.
-- `Convert` stands for serde_json's conversion of a specification.
pub mod Compare
pub mod Tokens
mod Tests
use randall_flare.Prelude.{
  ℕ, ◌≡◌, ◌==◌, Option, none, some, Bool, true, false, not, ◌&&◌, ◌||◌, List, [], ◌∷◌, ◌++◌, map,
  if◌then◌else◌, ltb, leb, length, all, any, is_none, is_some, take,
}
use randall_flare.Prelude.Order.{Bytes, bytes_ord, is_eq}
use randall_flare.Prelude.Result.{Result, ok, err, ◌>>=◌, ◌>>◌, map_err}
use randall_flare.Prelude.Sorting.{sort}
use randall_flare.Prelude.Text.{ascii, starts_with, split_once, trim}
use randall_flare.Prelude.Ascii.{is_alphanumeric, is_hexdigit, eq_ignore_case}
use randall_flare.Prelude.Table
use randall_flare.Prelude.Table.{Table}
use randall_flare.Identity.{Crypto}
use randall_flare.Resource.{
  Json, ResourceRecord, ResourceView, ResourceError, spec_of, prepare_after,
}
use randall_flare.Exit.Spec.{is_blank}
use randall_flare.Access.Compare.{constant_time_eq}

abbrev pub token_kind : Bytes
token_kind = ascii "api_access_token"

abbrev pub token_prefix : Bytes
token_prefix = ascii "rfp_"

abbrev pub all_scopes : List Bytes
all_scopes =
    ascii "*"
    ∷ ascii "worker:read"
    ∷ ascii "worker:write"
    ∷ ascii "kv:read"
    ∷ ascii "kv:write"
    ∷ ascii "d1:read"
    ∷ ascii "d1:write"
    ∷ ascii "r2:read"
    ∷ ascii "r2:write"
    ∷ ascii "queue:read"
    ∷ ascii "queue:write"
    ∷ ascii "analytics:read"
    ∷ ascii "analytics:write"
    ∷ ascii "pipeline:read"
    ∷ ascii "pipeline:write"
    ∷ ascii "workflow:read"
    ∷ ascii "workflow:write"
    ∷ ascii "flow:read"
    ∷ ascii "flow:write"
    ∷ ascii "email:read"
    ∷ ascii "email:write"
    ∷ ascii "binary:read"
    ∷ ascii "binary:write"
    ∷ ascii "storage:read"
    ∷ ascii "storage:write"
    ∷ ascii "network:read"
    ∷ ascii "network:write"
    ∷ ascii "node:read"
    ∷ ascii "node:write"
    ∷ ascii "quota:read"
    ∷ ascii "quota:write"
    ∷ ascii "audit:read"
    ∷ []

pub record AccessTokenSpec : Type 0 where
  pub schema : ℕ
  pub label : Bytes
  pub prefix : Bytes
  pub sha256 : Bytes
  pub scopes : List Bytes
  pub created_at_ms : ℕ
  pub expires_at_ms : Option ℕ
  pub revoked_at_ms : Option ℕ

pub data AccessError : Type 0 where
  bad_schema bad_label bad_prefix bad_digest no_scopes bad_scopes wildcard_not_alone : AccessError
  no_creation_time bad_expiry bad_revocation not_a_token bad_spec unknown_token : AccessError
  already_revoked id_taken : AccessError
  resource : ResourceError → AccessError

-- `collect::<BTreeSet<_>>()`.
abbrev pub Set : Type 0
Set = Table Bytes (Unit {0})

unfoldable pub set_of : List Bytes → Set
set_of [] = []
set_of (x ∷ xs) = Table.insert x tt (set_of xs)

abbrev pub has : Set → Bytes → Bool
has s x = is_some (Table.get s x)

abbrev pub refuse_if : Bool → AccessError → Result AccessError (Unit {0})
refuse_if b e = if b then err e else ok tt

abbrev pub is_some_and : Option ℕ → (ℕ → Bool) → Bool
is_some_and none p = false
is_some_and (some n) p = p n

unfoldable pub validate : AccessTokenSpec → Result AccessError (Unit {0})
unfolding set_of trim
validate s =
    refuse_if (not (s.schema == 1)) AccessError.bad_schema
    >> refuse_if
        (is_blank (trim s.label)
          || (ltb 120 (length s.label) || any (λ x. (x == 13) || (x == 10)) s.label))
        AccessError.bad_label
    >> refuse_if
        (not (length s.prefix == 12)
          || (not (starts_with s.prefix token_prefix)
              || not (all (λ b. is_alphanumeric b || ((b == 95) || (b == 45))) s.prefix)))
        AccessError.bad_prefix
    >> refuse_if (not (length s.sha256 == 64) || not (all is_hexdigit s.sha256))
        AccessError.bad_digest
    >> refuse_if (is_no_scope s.scopes || ltb (length all_scopes) (length s.scopes))
        AccessError.no_scopes
    >> refuse_if
        (not (length (set_of s.scopes) == length s.scopes)
          || any (λ (p : Bytes × Unit {0}). not (has (set_of all_scopes) p.0)) (set_of s.scopes))
        AccessError.bad_scopes
    >> refuse_if (has (set_of s.scopes) (ascii "*") && not (length (set_of s.scopes) == 1))
        AccessError.wildcard_not_alone
    >> refuse_if (s.created_at_ms == 0) AccessError.no_creation_time
    >> refuse_if (is_some_and s.expires_at_ms (λ e. leb e s.created_at_ms)) AccessError.bad_expiry
    >> refuse_if (is_some_and s.revoked_at_ms (λ r. ltb r s.created_at_ms))
        AccessError.bad_revocation
  where
    is_no_scope : List Bytes → Bool
    is_no_scope [] = true
    is_no_scope (_ ∷ _) = false

abbrev pub is_none_or : Option ℕ → (ℕ → Bool) → Bool
is_none_or none p = true
is_none_or (some n) p = p n

unfoldable pub active : AccessTokenSpec → ℕ → Bool
active s at_ms = is_none s.revoked_at_ms && is_none_or s.expires_at_ms (λ e. ltb at_ms e)

pub record AccessPrincipal : Type 0 where
  pub id : Bytes
  pub label : Bytes
  pub scopes : Set

unfoldable pub allows : AccessPrincipal → Bytes → Bool
allows p required = has p.scopes (ascii "*") || has p.scopes required

-- `bearer`, on the text of the Authorization header.
unfoldable pub bearer : Bytes → Option Bytes
unfolding trim split_once
bearer value = elim (split_once 32 (trim value)) [
  | none ↦ none
  | some (scheme, raw) ↦ if eq_ignore_case scheme (ascii "bearer") then some (trim raw) else none
]

-- `serde_json::to_value` and `from_value` at one type.
pub record Convert (V : Type 0) (T : Type 0) : Type 0 where
  pub to_value : T → V
  pub from_value : V → Option T

module _ {V : Type 0} (json : Json V) (c : Crypto) (convert : Convert V AccessTokenSpec) where
  unfoldable pub token_spec : ResourceRecord → Result AccessError AccessTokenSpec
  unfolding spec_of validate
  token_spec r =
      refuse_if (not (is_eq r.kind token_kind)) AccessError.not_a_token
      >> (map_err AccessError.resource (spec_of json r) >>= λ value.
          elim (convert.from_value value) as (λ _. Result AccessError AccessTokenSpec) [
            | none ↦ err AccessError.bad_spec
            | some spec ↦ validate spec >> ok spec
          ])

  -- The specification of a new token, whose text ends in `random`.
  abbrev pub minted : Bytes → ℕ → Bytes → List Bytes → Option ℕ → AccessTokenSpec
  minted random now_ms label scopes expires_at_ms = record {
    schema = 1;
    label = trim label;
    prefix = take 12 (token_prefix ++ random);
    sha256 = c.hex (c.sha256 (token_prefix ++ random));
    scopes = sort scopes;
    created_at_ms = now_ms;
    expires_at_ms = expires_at_ms;
    revoked_at_ms = none;
  }

  -- `mint_record` with the text of a new token and the time.
  unfoldable pub mint_record :
      Bytes → ℕ → Bytes → List Bytes → Option ℕ → Result AccessError (ResourceRecord × Bytes)
  unfolding validate trim sort prepare_after
  mint_record random now_ms label scopes expires_at_ms =
      let spec = minted random now_ms label scopes expires_at_ms in
      validate spec
      >> (map_err AccessError.resource (
            prepare_after json c token_kind (ascii "pat-" ++ take 20 spec.sha256)
              (convert.to_value spec) false none)
          >>= λ r. ok (r, token_prefix ++ random))

  -- `mint` and `revoke`, with `resource::head` for tokens.
  unfoldable pub mint :
      (Bytes → Option ResourceView)
      → Bytes
      → ℕ
      → Bytes
      → List Bytes
      → Option ℕ
      → Result AccessError (ResourceRecord × Bytes)
  unfolding mint_record
  mint head random now_ms label scopes expires_at_ms =
      mint_record random now_ms label scopes expires_at_ms >>= λ (p : ResourceRecord × Bytes).
      if is_some (head p.0.name) then err AccessError.id_taken else ok p

  unfoldable pub revoke_after : ℕ → ResourceView → Result AccessError ResourceRecord
  unfolding token_spec prepare_after
  revoke_after now_ms head =
      refuse_if head.resource.deleted AccessError.unknown_token
      >> (token_spec head.resource >>= λ spec.
          refuse_if (is_some spec.revoked_at_ms) AccessError.already_revoked
          >> map_err AccessError.resource (
              prepare_after json c token_kind head.resource.name
                (convert.to_value (record spec { revoked_at_ms = some now_ms })) false (some head)))

  unfoldable pub revoke :
      (Bytes → Option ResourceView) → ℕ → Bytes → Result AccessError ResourceRecord
  unfolding revoke_after
  revoke head now_ms id = elim (head id) [
    | none ↦ err AccessError.unknown_token
    | some view ↦ revoke_after now_ms view
  ]

  -- The tests that the loop of `resolve` makes of a view.
  unfoldable pub admits : Bytes → ℕ → ResourceView → Option AccessPrincipal
  unfolding token_spec active constant_time_eq set_of
  admits raw now_ms view = if view.resource.deleted then none else elim (token_spec view.resource) [
    | err _ ↦ none
    | ok spec ↦
        if not (is_eq spec.prefix (take 12 raw)) || not (active spec now_ms)
        then none
        else elim (c.unhex spec.sha256) [
          | none ↦ none
          | some expected ↦
              if not (constant_time_eq (c.sha256 raw) expected)
              then none
              else some (record {
                id = view.resource.name;
                label = spec.label;
                scopes = set_of spec.scopes;
              })
        ]
  ]

  unfoldable pub first_admitted : Bytes → ℕ → List ResourceView → Option AccessPrincipal
  unfolding admits
  first_admitted raw now_ms [] = none
  first_admitted raw now_ms (v ∷ vs) = elim (admits raw now_ms v) [
    | some p ↦ some p
    | none ↦ first_admitted raw now_ms vs
  ]

  -- `resolve` over the heads of the tokens. An ASCII text has its first bytes at a character boundary.
  unfoldable pub resolve : Bytes → ℕ → List ResourceView → Option AccessPrincipal
  unfolding first_admitted
  resolve raw now_ms heads =
      if not (starts_with raw token_prefix) || not (length raw == 47)
      then none
      else first_admitted raw now_ms heads
