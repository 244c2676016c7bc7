-- ===== src/Resource/Versions.antt =====
-- The version that `prepare_after` (crates/rf/src/resource.rs) puts after a head.
use randall_flare.Prelude.{
  ◌≡◌, refl, sym, ap, ◌∙◌, subst, ◌<◌, ◌+◌, Option, some, Bool, false, List, u64_mod, add_u64,
  arith, Option-cases, inl, inr, if◌then◌else◌,
}
use randall_flare.Prelude.Order.{Bytes, bytes_ord}
use randall_flare.Prelude.Members.{In}
use randall_flare.Prelude.Result.{Result, ok, bind_ok, guard_ok}
use randall_flare.Identity.{Crypto}
use randall_flare.Resource.{
  Json, ResourceRecord, ResourceView, ResourceError, validate, refuse_if, is_foreign, link_of,
  decode_digest, next_version, prepare_after,
}
use randall_flare.Resource.Chain.{IsConnected}

module _ {V : Type 0} (json : Json V) (c : Crypto) where
  -- A record as `prepare_after` makes it from a head.
  pub record Follows (head : ResourceView) (r : ResourceRecord) : Type 0 where
    pub same_kind : head.resource.kind ≡ r.kind
    pub same_name : head.resource.name ≡ r.name
    pub version : r.version ≡ add_u64 head.resource.version 1
    pub link : Bytes
    pub decoded : c.unhex head.digest ≡ some link
    pub linked : r.prev ≡ some link
    pub valid : validate json r ≡ ok tt

  own_head :
      (kind name : Bytes) (head : ResourceView)
      → is_foreign json c kind name (some head) ≡ false
      → (head.resource.kind ≡ kind) × (head.resource.name ≡ name)
  own_head kind name head h = (
    bytes_ord.cmp_eq head.resource.kind kind (ground (arith, h)),
    bytes_ord.cmp_eq head.resource.name name (ground (arith, h)),
  )

  decode_digest_ok : (value d : Bytes) → decode_digest json c value ≡ ok d → c.unhex value ≡ some d
  unfolding decode_digest
  decode_digest_ok value d h = elim (Option-cases (c.unhex value)) [
    | inl e ↦ absurd (let z = rw (e, decode_digest) at h in cc)
    | inr (b, e) ↦ ground (arith, e, h)
  ]

  -- The record that `prepare_after` makes from a head is valid, of the head's kind and name, of the next
  -- version, and links the head's digest.
  pub prepare_after-Follows :
      (kind name : Bytes) (spec : V) (deleted : Bool) (head : ResourceView) (r : ResourceRecord)
      → prepare_after json c kind name spec deleted (some head) ≡ ok r
      → Follows head r
  unfolding prepare_after link_of
  prepare_after-Follows kind name spec deleted head r h =
      let (_, own, h) =
        bind_ok (refuse_if (is_foreign json c kind name (some head)) ResourceError.foreign_head) _ r
          h in
      let (foreign, _) =
        guard_ok (is_foreign json c kind name (some head)) ResourceError.foreign_head (ok tt) tt
          own in
      let (prev, linked, h) = bind_ok (link_of json c (some head)) _ r h in
      let (d, decoded, e) = bind_ok (decode_digest json c head.digest) _ prev linked in
      let made : ResourceRecord = record {
        schema = 1;
        kind = kind;
        name = name;
        version = add_u64 head.resource.version 1;
        prev = prev;
        deleted = deleted;
        spec_json = json.to_string (if deleted then json.null else spec);
      } in
      let (_, valid, same) = bind_ok (validate json made) (λ _. ok made) r h in
      let own = own_head kind name head foreign in
      subst (Follows head) (ok_record made r same) (record {
        same_kind = own.0;
        same_name = own.1;
        version = refl;
        link = d;
        decoded = decode_digest_ok head.digest d decoded;
        linked = ok_prev prev d (sym e);
        valid = valid;
      })
    where
      ok_record :
          (a b : ResourceRecord) → Path (Result ResourceError ResourceRecord) (ok a) (ok b) → a ≡ b
      ok_record a b e = cc

      ok_prev :
          (prev : Option Bytes) (d : Bytes)
          → Path (Result ResourceError (Option Bytes)) (ok prev) (ok (some d))
          → prev ≡ some d
      ok_prev prev d e = cc

  -- Where hex text decodes to what was encoded, and the version does not overflow: a record that
  -- `prepare_after` makes from a head whose digest is hex text is connected wherever the head is, once
  -- it stands among the candidates.
  pub prepare_after-IsConnected :
      ((b : Bytes) → c.unhex (c.hex b) ≡ some b)
      → (group : List ResourceView) (kind name : Bytes) (spec : V) (deleted : Bool)
        (head v : ResourceView) (sha : Bytes)
      → head.digest ≡ c.hex sha
      → head.resource.version + 1 < u64_mod
      → IsConnected c group head
      → prepare_after json c kind name spec deleted (some head) ≡ ok v.resource
      → In v group
      → IsConnected c group v
  prepare_after-IsConnected hex_law group kind name spec deleted head v sha digest room d h i =
      let f = prepare_after-Follows kind name spec deleted head v.resource h in
      let same : sha ≡ f.link =
        some_link sha f.link (sym (hex_law sha) ∙ (ap c.unhex (sym digest) ∙ f.decoded)) in
      IsConnected.next v head f.link i d f.linked (ap c.hex (sym same) ∙ sym digest)
        (omega (arith, f.version, room))
    where
      some_link : (a b : Bytes) → Path (Option Bytes) (some a) (some b) → a ≡ b
      some_link a b e = cc

  -- What a record that `prepare_after` makes is of, and the text it has.
  pub prepare_after_text :
      (kind name : Bytes) (spec : V) (deleted : Bool) (head : Option ResourceView)
      (r : ResourceRecord)
      → prepare_after json c kind name spec deleted head ≡ ok r
      → (r.kind ≡ kind)
        × (r.name ≡ name)
        × (r.deleted ≡ deleted)
        × (r.spec_json ≡ json.to_string (if deleted then json.null else spec))
  unfolding prepare_after
  prepare_after_text kind name spec deleted head r h =
      let (_, _, h) =
        bind_ok (refuse_if (is_foreign json c kind name head) ResourceError.foreign_head) _ r h in
      let (prev, _, h) = bind_ok (link_of json c head) _ r h in
      let made : ResourceRecord = record {
        schema = 1;
        kind = kind;
        name = name;
        version = next_version json c head;
        prev = prev;
        deleted = deleted;
        spec_json = json.to_string (if deleted then json.null else spec);
      } in
      let (_, _, same) = bind_ok (validate json made) (λ _. ok made) r h in
      let e = made_is made r same in
      (
        ap (λ (x : ResourceRecord). x.kind) e,
        ap (λ (x : ResourceRecord). x.name) e,
        ap (λ (x : ResourceRecord). x.deleted) e,
        ap (λ (x : ResourceRecord). x.spec_json) e,
      )
    where
      made_is :
          (a b : ResourceRecord) → Path (Result ResourceError ResourceRecord) (ok a) (ok b) → b ≡ a
      made_is a b e = cc
