-- ===== src/Access/Tokens.antt =====
-- Who gets in with an access token (crates/rf/src/access.rs): `resolve` after `mint_record` and after
-- `revoke_after`.
use randall_flare.Prelude.{
  ℕ, ◌≡◌, refl, sym, ap, ◌∙◌, subst, inl, inr, Option, none, some, true, false, not, ◌||◌, List, [],
  ◌∷◌, ◌++◌, length, is_some, take, arith, Bool-cases, Option-cases, ltb, ◌==◌,
}
use randall_flare.Prelude.Order.{Bytes, bytes_ord, is_eq}
use randall_flare.Prelude.Members.{In}
use randall_flare.Prelude.Result.{Result, ok, ◌>>◌, map_err, bind_ok, map_err_ok, Result-cases}
use randall_flare.Prelude.Sorting.{sort}
use randall_flare.Prelude.Text.{starts_with, trim}
use randall_flare.Identity.{Crypto}
use randall_flare.Resource.{Json, ResourceRecord, ResourceView, spec_of}
use randall_flare.Resource.Versions.{prepare_after_text}
use randall_flare.Access.Compare.{constant_time_eq, constant_time_eq_iff}
use randall_flare.Access.{
  AccessTokenSpec, AccessError, AccessPrincipal, Convert, token_kind, token_prefix, set_of,
  refuse_if, validate, active, is_none_or, token_spec, minted, mint_record, revoke_after, admits,
  first_admitted, resolve,
}

module _ {V : Type 0} (json : Json V) (c : Crypto) (convert : Convert V AccessTokenSpec) where
  -- What lets a principal in: a token's record that is not deleted, of a token that is active, whose
  -- digest is that of the text given.
  pub record Vouches (raw : Bytes) (now_ms : ℕ) (p : AccessPrincipal) (v : ResourceView)
      : Type 0 where
    pub spec : AccessTokenSpec
    pub kept : v.resource.deleted ≡ false
    pub read : token_spec json c convert v.resource ≡ ok spec
    pub live : active spec now_ms ≡ true
    pub digest : c.unhex spec.sha256 ≡ some (c.sha256 raw)
    pub id : p.id ≡ v.resource.name
    pub scopes : p.scopes ≡ set_of spec.scopes

  admits-Vouches :
      (raw : Bytes) (now_ms : ℕ) (v : ResourceView) (p : AccessPrincipal)
      → admits json c convert raw now_ms v ≡ some p
      → Vouches raw now_ms p v
  unfolding admits
  admits-Vouches raw now_ms v p h = elim (Bool-cases v.resource.deleted) [
    | inl e ↦ absurd (let z = rw (e, admits) at h in cc)
    | inr e ↦ elim (Result-cases (token_spec json c convert v.resource)) [
      | inr (_, t) ↦ absurd (let z = rw (e, admits, t) at h in cc)
      | inl (spec, t) ↦
          elim (Bool-cases (not (is_eq spec.prefix (take 12 raw)) || not (active spec now_ms))) [
            | inl a ↦ absurd (let z = rw (e, admits, t, a) at h in cc)
            | inr a ↦ elim (Option-cases (c.unhex spec.sha256)) [
              | inl u ↦ absurd (let z = rw (e, admits, t, a, u) at h in cc)
              | inr (expected, u) ↦ elim (Bool-cases (constant_time_eq (c.sha256 raw) expected)) [
                | inr q ↦ absurd (let z = rw (e, admits, t, a, u, q) at h in cc)
                | inl q ↦
                    let same = (constant_time_eq_iff (c.sha256 raw) expected).0 q in
                    let z = rw (e, admits, t, a, u, q) at h in
                    record {
                      spec = spec;
                      kept = e;
                      read = t;
                      live = ground (arith, a);
                      digest = u ∙ ap some (sym same);
                      id = ap (λ (q : AccessPrincipal). q.id) (same_principal _ p z);
                      scopes = ap (λ (q : AccessPrincipal). q.scopes) (same_principal _ p z);
                    }
              ]
            ]
          ]
    ]
  ]
    where
      same_principal :
          (a b : AccessPrincipal) → Path (Option AccessPrincipal) (some a) (some b) → b ≡ a
      same_principal a b e = cc

  first_admitted-Vouches :
      (raw : Bytes) (now_ms : ℕ) (vs : List ResourceView) (p : AccessPrincipal)
      → first_admitted json c convert raw now_ms vs ≡ some p
      → (v : ResourceView) × In v vs × Vouches raw now_ms p v
  unfolding first_admitted
  first_admitted-Vouches raw now_ms [] p h = absurd (cc)
  first_admitted-Vouches raw now_ms (v ∷ vs) p h =
      elim (Option-cases (admits json c convert raw now_ms v)) [
        | inr (q, e) ↦
            let same = rw (e, first_admitted) at h in
            (v, inl refl, admits-Vouches raw now_ms v p (e ∙ same))
        | inl e ↦
            let (u, i, w) = first_admitted-Vouches raw now_ms vs p (rw (e, first_admitted) at h) in
            (u, inr i, w)
      ]

  -- Whoever gets in holds the text whose digest stands in a record among the heads, of a token that is
  -- neither deleted nor revoked nor expired at that time; the name and the scopes are that record's.
  pub resolve-Vouches :
      (raw : Bytes) (now_ms : ℕ) (heads : List ResourceView) (p : AccessPrincipal)
      → resolve json c convert raw now_ms heads ≡ some p
      → (v : ResourceView) × In v heads × Vouches raw now_ms p v
  unfolding resolve
  resolve-Vouches raw now_ms heads p h =
      elim (Bool-cases (not (starts_with raw token_prefix) || not (length raw == 47))) [
        | inl e ↦ absurd (let z = rw (e, resolve) at h in cc)
        | inr e ↦ first_admitted-Vouches raw now_ms heads p (rw (e, resolve) at h)
      ]

  -- serde_json reads back the text that it wrote of a specification.
  pub record ReadsBack (s : AccessTokenSpec) : Type 0 where
    pub text : json.from_str (json.to_string (convert.to_value s)) ≡ some (convert.to_value s)
    pub value : convert.from_value (convert.to_value s) ≡ some s

  token_spec_of :
      (r : ResourceRecord) (s : AccessTokenSpec)
      → ReadsBack s
      → r.kind ≡ token_kind
      → r.spec_json ≡ json.to_string (convert.to_value s)
      → token_spec json c convert r ≡ (validate s >> ok s)
  unfolding token_spec spec_of
  token_spec_of r s law k t =
      let kind : is_eq r.kind token_kind ≡ true =
        ground (arith, k, bytes_ord.cmp_self token_kind) in
      rw (kind, token_spec, t, law.text, law.value) refl

  -- Once `revoke_after` has put a record in the place of a token's, nobody gets in with that record,
  -- whatever the text and the time.
  pub admits-revoke_after :
      (revoked_at_ms : ℕ) (head v : ResourceView) (raw : Bytes) (now_ms : ℕ)
      → ((s : AccessTokenSpec)
          → token_spec json c convert head.resource ≡ ok s
          → ReadsBack (record s { revoked_at_ms = some revoked_at_ms }))
      → revoke_after json c convert revoked_at_ms head ≡ ok v.resource
      → admits json c convert raw now_ms v ≡ none
  unfolding revoke_after admits active
  admits-revoke_after revoked_at_ms head v raw now_ms law h =
      let (_, _, h) =
        bind_ok (refuse_if head.resource.deleted AccessError.unknown_token) _ v.resource h in
      let (old, known, h) = bind_ok (token_spec json c convert head.resource) _ v.resource h in
      let (_, _, h) =
        bind_ok (refuse_if (is_some old.revoked_at_ms) AccessError.already_revoked) _ v.resource
          h in
      let spec : AccessTokenSpec = record old { revoked_at_ms = some revoked_at_ms } in
      let made = map_err_ok AccessError.resource _ v.resource h in
      let (kind, _, kept, text) =
        prepare_after_text json c token_kind head.resource.name (convert.to_value spec) false
          (some head) v.resource made in
      let read = token_spec_of v.resource spec (law old known) kind text in
      elim (Option-cases (admits json c convert raw now_ms v)) [
        | inl e ↦ e
        | inr (p, e) ↦
            let w = admits-Vouches raw now_ms v p e in
            let (_, _, same) = bind_ok (validate spec) (λ _. ok spec) w.spec (sym read ∙ w.read) in
            absurd (dead w.spec old (ok_spec spec w.spec same) w.live)
      ]
    where
      ok_spec :
          (a b : AccessTokenSpec) → Path (Result AccessError AccessTokenSpec) (ok a) (ok b) → b ≡ a
      ok_spec a b e = cc

      dead :
          (s old : AccessTokenSpec)
          → s ≡ record old { revoked_at_ms = some revoked_at_ms }
          → active s now_ms ≡ true
          → ⊥
      dead s old e l =
          let r = ap (λ (x : AccessTokenSpec). x.revoked_at_ms) e in ground (arith, r, l)

  -- A record lets the holder of its text in.
  admits_live :
      (spec : AccessTokenSpec) (v : ResourceView) (raw : Bytes) (now_ms : ℕ)
      → v.resource.deleted ≡ false
      → token_spec json c convert v.resource ≡ ok spec
      → is_eq spec.prefix (take 12 raw) ≡ true
      → active spec now_ms ≡ true
      → c.unhex spec.sha256 ≡ some (c.sha256 raw)
      → admits json c convert raw now_ms v
        ≡ some (record { id = v.resource.name; label = spec.label; scopes = set_of spec.scopes })
  unfolding admits
  admits_live spec v raw now_ms kept read same live digest =
      let equal = (constant_time_eq_iff (c.sha256 raw) (c.sha256 raw)).1 refl in
      rw (kept, admits, read, same, live, digest, equal) refl

  resolve_first :
      (v : ResourceView) (raw : Bytes) (now_ms : ℕ) (vs : List ResourceView) (p : AccessPrincipal)
      → starts_with raw token_prefix ≡ true
      → (length raw == 47) ≡ true
      → admits json c convert raw now_ms v ≡ some p
      → resolve json c convert raw now_ms (v ∷ vs) ≡ some p
  unfolding resolve first_admitted
  resolve_first v raw now_ms vs p s l a = rw (s, resolve, l, first_admitted, a) refl

  -- A minted token gets its holder in: for a text of 43 random characters, and where serde_json and hex
  -- read what they wrote, `resolve` of the text that `mint_record` returned finds a principal of the
  -- record's name and scopes, at every time before the token expires, if the record stands first.
  pub resolve-mint_record :
      (random : Bytes) (created_at_ms : ℕ) (label : Bytes) (scopes : List Bytes)
      (expires_at_ms : Option ℕ) (v : ResourceView) (raw : Bytes) (vs : List ResourceView)
      (now_ms : ℕ)
      → length random ≡ 43
      → ReadsBack (minted json c convert random created_at_ms label scopes expires_at_ms)
      → ((b : Bytes) → c.unhex (c.hex b) ≡ some b)
      → is_none_or expires_at_ms (λ e. ltb now_ms e) ≡ true
      → mint_record json c convert random created_at_ms label scopes expires_at_ms
        ≡ ok (v.resource, raw)
      → resolve json c convert raw now_ms (v ∷ vs)
        ≡ some (record { id = v.resource.name; label = trim label; scopes = set_of (sort scopes) })
  unfolding mint_record active starts_with
  resolve-mint_record random created label scopes expires v raw vs now_ms len law hex_law fresh h =
      let text = token_prefix ++ random in
      let spec = minted json c convert random created label scopes expires in
      let (_, valid, h) = bind_ok (validate spec) _ (v.resource, raw) h in
      let (r, made, same) = bind_ok (map_err AccessError.resource _) _ (v.resource, raw) h in
      let (kind, _, kept, json_text) =
        prepare_after_text json c token_kind _ (convert.to_value spec) false none r
          (map_err_ok AccessError.resource _ r made) in
      let (record_is, text_is) = same_pair r v.resource text raw same in
      let read =
        token_spec_of v.resource spec law
          (subst (λ (x : ResourceRecord). x.kind ≡ token_kind) record_is kind)
          (subst (λ (x : ResourceRecord). x.spec_json ≡ json.to_string (convert.to_value spec))
            record_is json_text) in
      subst
        (λ t.
          resolve json c convert t now_ms (v ∷ vs)
          ≡ some (record { id = v.resource.name; label = spec.label; scopes = set_of spec.scopes }))
        text_is
        (resolve_first v text now_ms vs _ starts long (
          admits_live spec v text now_ms
            (subst (λ (x : ResourceRecord). x.deleted ≡ false) record_is kept)
            (read ∙ ap (λ m. m >> ok spec) valid)
            (ground (arith, bytes_ord.cmp_self (take 12 text))) (lives spec refl refl)
            (hex_law (c.sha256 text))))
    where
      same_pair :
          (r s : ResourceRecord) (t u : Bytes)
          → Path (Result AccessError (ResourceRecord × Bytes)) (ok (r, t)) (ok (s, u))
          → (r ≡ s) × (t ≡ u)
      same_pair r s t u e = (cc, cc)

      starts : starts_with (token_prefix ++ random) token_prefix ≡ true
      starts = refl

      long : (length (token_prefix ++ random) == 47) ≡ true
      long = ground (arith, len)

      lives :
          (s : AccessTokenSpec)
          → s.revoked_at_ms ≡ none
          → s.expires_at_ms ≡ expires
          → active s now_ms ≡ true
      lives s a b = ground (arith, a, b, fresh)
